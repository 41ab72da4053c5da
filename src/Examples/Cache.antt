-- ===== src/Examples/Cache.antt =====
-- A store with room for one entry, and the answers that it gives.
use rustroid_sentinel.Prelude.{
  ℕ, ◌+◌, ◌≡◌, refl, String, Bool, [], ◌∷◌, true, false, Option, none, some, ltb, if◌then◌else◌,
  Result, ok, err,
}
use rustroid_sentinel.Float.{F64}
use rustroid_sentinel.Models.{DateTime, Asteroid}
use rustroid_sentinel.Database.{Db, SqlError}
use rustroid_sentinel.Cache.{Moka, DashboardCache, cached_stats}
use rustroid_sentinel.Cache.Stores.{Surroundings}
use rustroid_sentinel.Examples.{asteroid, empty_db}

record Slot (K V : Type 0) : Type 0 where
  ttl : ℕ
  same : (a b : K) → Option (a ≡ b)
  entry : Option (K × V × DateTime)

abbrev alive {ℓ} : {V : Type ℓ} → ℕ → DateTime → V → DateTime → Option V
alive ttl now v t = if ltb now (t + ttl) then some v else none

abbrev served : {V : Type 0} → Result SqlError V → Option V → Result SqlError V
served q (some v) = ok v
served q none = q

module _ {K V : Type 0} where
  abbrev if_same : {a b : K} → Option (a ≡ b) → Option V → Option V
  if_same none o = none
  if_same (some _) o = o

  abbrev find :
      ℕ → ((a b : K) → Option (a ≡ b)) → Option (K × V × DateTime) → DateTime → K → Option V
  find ttl same none now k = none
  find ttl same (some (k0, v, t)) now k = if_same (same k k0) (alive ttl now v t)

  abbrev find_slot : Slot K V → DateTime → K → Option V
  find_slot c now k = find c.ttl c.same c.entry now k

  abbrev stored : Slot K V → DateTime → K → Result SqlError V → Option V → Slot K V
  stored c now k q (some v) = c
  stored c now k (err e) none = c
  stored c now k (ok v) none = record c { entry = some (k, v, now) }

abbrev one_slot : Moka
one_slot = record {
  Cache = Slot;
  time_to_live = λ c. c.ttl;
  lookup = λ c now k. find_slot c now k;
  try_get_with = λ c now k q. (stored c now k q (find_slot c now k), served q (find_slot c now k));
  invalidate_all = λ c. record c { entry = none };
}

abbrev unit_slot : {V : Type 0} → Slot (Unit {0}) V
unit_slot = record { ttl = 300; same = λ a b. some refl; entry = none }

abbrev other_slot : {K V : Type 0} → Slot K V
other_slot = record { ttl = 300; same = λ a b. none; entry = none }

abbrev empty_cache : DashboardCache one_slot String String
empty_cache = record {
  enabled = true;
  stats = unit_slot;
  recent_approaches = unit_slot;
  velocity_default = unit_slot;
  velocity_by_period = other_slot;
  velocity_by_range = other_slot;
  paginated_approaches = other_slot;
  recent_etl_runs = unit_slot;
  paginated_etl_runs = other_slot;
  catalog_list = other_slot;
  catalog_detail = other_slot;
  catalog_similar = other_slot;
  catalog_classifications = unit_slot;
  weekly_report = other_slot;
}

abbrev minus : DateTime → String → DateTime
minus t interval = t

abbrev avg_km : Asteroid → F64
avg_km a = a.estimated_diameter_min_km

-- An asteroid comes into the table at the time 15.
abbrev world : DateTime → Db
world t =
    if ltb t 15
    then empty_db
    else record empty_db { asteroids = asteroid 10 "99942" "Apophis" ∷ [] }

abbrev never : DateTime → Bool
never t = false

abbrev surroundings : Surroundings
surroundings = record { minus = minus; avg_km = avg_km; down = never; world = world }

abbrev after_stats : DashboardCache one_slot String String
after_stats = (cached_stats one_slot String String empty_cache 10 false false false (world 10)).0
