-- ===== src/Database/HazardEvents.antt =====
-- The hazard events of a batch: src/events/mod.rs, and the part of `upsert_batch` in
-- src/database/repository.rs that builds them.
pub mod Meta
use rustroid_sentinel.Prelude.{String, Option, none, some, List, [], ◌∷◌, ◌++◌, ◌==◌, if◌then◌else◌}
use rustroid_sentinel.Models.{
  Uuid, DateTime, HazardClassification, critical, high, medium, low, Approach, AsteroidRecord,
}

-- src/events/mod.rs
pub record HazardEvent : Type 0 where
  pub approach_id : Uuid
  pub asteroid_name : String
  pub hazard_classification : HazardClassification
  pub timestamp : DateTime

-- `approach_meta`: what the batch says of an approach id; a later entry replaces an earlier one.
abbrev pub ApproachMeta : Type 0
ApproachMeta = List (Uuid × (String × HazardClassification))

unfoldable pub meta_of_approaches : String → List Approach → ApproachMeta → ApproachMeta
meta_of_approaches name [] meta = meta
meta_of_approaches name (a ∷ approaches) meta =
    meta_of_approaches name approaches ((a.id, (name, a.hazard_classification)) ∷ meta)

unfoldable pub approach_meta : List AsteroidRecord → ApproachMeta → ApproachMeta
unfolding meta_of_approaches
approach_meta [] meta = meta
approach_meta (r ∷ records) meta =
    approach_meta records (meta_of_approaches r.asteroid.name r.approaches meta)

unfoldable pub get_meta : Uuid → ApproachMeta → Option (String × HazardClassification)
get_meta i [] = none
get_meta i ((j, m) ∷ meta) = if j == i then some m else get_meta i meta

-- `HashMap::remove`: the entry is gone for the ids that follow.
unfoldable pub remove_meta : Uuid → ApproachMeta → ApproachMeta
remove_meta i [] = []
remove_meta i ((j, m) ∷ meta) =
    let rest = remove_meta i meta in if j == i then rest else (j, m) ∷ rest

abbrev pub hazard_event :
    DateTime → Uuid → Option (String × HazardClassification) → List HazardEvent
hazard_event now i (some (name, critical)) =
    record {
      approach_id = i;
      asteroid_name = name;
      hazard_classification = critical;
      timestamp = now;
    }
    ∷ []
hazard_event now i (some (name, high)) =
    record { approach_id = i; asteroid_name = name; hazard_classification = high; timestamp = now }
    ∷ []
hazard_event now i (some (name, medium)) = []
hazard_event now i (some (name, low)) = []
hazard_event now i none = []

-- The `filter_map` over the inserted ids.
unfoldable pub hazard_events : DateTime → ApproachMeta → List Uuid → List HazardEvent
unfolding get_meta remove_meta
hazard_events now meta [] = []
hazard_events now meta (i ∷ ids) =
    hazard_event now i (get_meta i meta) ++ hazard_events now (remove_meta i meta) ids
