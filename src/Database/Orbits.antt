-- ===== src/Database/Orbits.antt =====
-- The statements on `asteroid_orbits` of src/database/repository.rs.
--
-- The collation that orders `neo_reference_id` is a parameter.
pub mod Candidates
pub mod Rows
use rustroid_sentinel.Prelude.{
  ℕ, ◌+◌, String, Bool, false, not, Option, some, none, List, [], ◌∷◌, ◌++◌, ltb, ◌==◌, ◌||◌,
  if◌then◌else◌, length, any, filter, map, Result, ok, err,
}
use rustroid_sentinel.Float.{F64}
use rustroid_sentinel.Models.{Uuid, DateTime, Asteroid}
use rustroid_sentinel.Database.{
  SqlError, cardinality_violation, foreign_key_violation, connection_failure,
}
use rustroid_sentinel.Catalog.{order_rows}

pub record SbdbOrbitSummary : Type 0 where
  pub eccentricity : Option F64
  pub semi_major_axis_au : Option F64
  pub inclination_deg : Option F64
  pub ascending_node_deg : Option F64
  pub perihelion_arg_deg : Option F64
  pub mean_anomaly_deg : Option F64
  pub orbital_period_days : Option F64
  pub orbit_class : Option String
  pub spectral_class : Option String
  pub albedo : Option F64

-- `SbdbOrbitSummary::default()`
abbrev pub default_summary : SbdbOrbitSummary
default_summary = record {
  eccentricity = none;
  semi_major_axis_au = none;
  inclination_deg = none;
  ascending_node_deg = none;
  perihelion_arg_deg = none;
  mean_anomaly_deg = none;
  orbital_period_days = none;
  orbit_class = none;
  spectral_class = none;
  albedo = none;
}

-- A row of `asteroid_orbits`, with its elements under the names of the summary.
pub record OrbitRow : Type 0 where
  pub asteroid_id : Uuid
  pub elements : SbdbOrbitSummary
  pub orbit_checked_at : DateTime

-- The two tables that the command reads.
pub record OrbitDb : Type 0 where
  pub asteroids : List Asteroid
  pub asteroid_orbits : List OrbitRow

-- What a candidate is: `(id, neo_reference_id)`.
pub record Candidate : Type 0 where
  pub id : Uuid
  pub neo_reference_id : String

pub record OrbitUpdate : Type 0 where
  pub id : Uuid
  pub summary : SbdbOrbitSummary

abbrev pub candidate_of : Asteroid → Candidate
candidate_of a = record { id = a.id; neo_reference_id = a.neo_reference_id }

abbrev pub is_row_of : Asteroid → OrbitRow → Bool
is_row_of a o = o.asteroid_id == a.id

-- The first branch of the union: asteroids without a row.
unfoldable pub unchecked : List OrbitRow → List Asteroid → List Candidate
unchecked orbits [] = []
unchecked orbits (a ∷ rows) =
    let rest = unchecked orbits rows in
    if any (is_row_of a) orbits then rest else candidate_of a ∷ rest

-- The rows of one asteroid that the join meets with an old check.
unfoldable pub stale_of : DateTime → List OrbitRow → Asteroid → List Candidate
stale_of stale_before [] a = []
stale_of stale_before (o ∷ orbits) a =
    let rest = stale_of stale_before orbits a in
    if is_row_of a o
    then (if ltb o.orbit_checked_at stale_before then candidate_of a ∷ rest else rest)
    else rest

-- The second branch: a candidate for each row of the join.
unfoldable pub stale : DateTime → List OrbitRow → List Asteroid → List Candidate
unfolding stale_of
stale stale_before orbits [] = []
stale stale_before orbits (a ∷ rows) =
    stale_of stale_before orbits a ++ stale stale_before orbits rows

unfoldable pub count_asteroids_needing_orbit_check : OrbitDb → DateTime → ℕ
unfolding unchecked stale
count_asteroids_needing_orbit_check db stale_before = length (
    unchecked db.asteroid_orbits db.asteroids ++ stale stale_before db.asteroid_orbits db.asteroids)

module _ (collates : String → String → Bool) where
  abbrev pub in_order : Candidate → Candidate → Bool
  in_order c d = collates c.neo_reference_id d.neo_reference_id

  unfoldable pub stream_asteroids_needing_orbit_check : OrbitDb → DateTime → List Candidate
  unfolding unchecked stale
  stream_asteroids_needing_orbit_check db stale_before = order_rows in_order (
      unchecked db.asteroid_orbits db.asteroids
      ++ stale stale_before db.asteroid_orbits db.asteroids)

  unfoldable pub orbit_candidates_for_ids : OrbitDb → List Uuid → List Candidate
  orbit_candidates_for_ids db [] = []
  orbit_candidates_for_ids db (i ∷ ids) =
      order_rows in_order
        (map candidate_of (filter (λ (a : Asteroid). any (λ j. j == a.id) (i ∷ ids)) db.asteroids))

-- `INSERT .. ON CONFLICT (asteroid_id) DO UPDATE` for one row.
unfoldable pub upsert_row : OrbitRow → List OrbitRow → List OrbitRow
upsert_row r [] = r ∷ []
upsert_row r (o ∷ orbits) =
    let rest = upsert_row r orbits in
    if o.asteroid_id == r.asteroid_id then r ∷ orbits else o ∷ rest

unfoldable pub upsert_rows : DateTime → List OrbitUpdate → List OrbitRow → List OrbitRow
unfolding upsert_row
upsert_rows checked_at [] orbits = orbits
upsert_rows checked_at (u ∷ updates) orbits = upsert_rows checked_at updates (
    upsert_row (record { asteroid_id = u.id; elements = u.summary; orbit_checked_at = checked_at })
      orbits)

-- Two rows of the command with one key.
unfoldable pub has_repeated_id : List OrbitUpdate → Bool
has_repeated_id [] = false
has_repeated_id (u ∷ updates) =
    any (λ (v : OrbitUpdate). v.id == u.id) updates || has_repeated_id updates

-- An id that is in no row of `asteroids`.
unfoldable pub has_unknown_id : List Asteroid → List OrbitUpdate → Bool
has_unknown_id rows [] = false
has_unknown_id rows (u ∷ updates) =
    not (any (λ (a : Asteroid). a.id == u.id) rows) || has_unknown_id rows updates

-- `down` says that the server or the connection fails.
unfoldable pub upsert_asteroid_orbits :
    Bool → DateTime → OrbitDb → List OrbitUpdate → Result SqlError (OrbitDb × ℕ)
unfolding upsert_rows has_repeated_id has_unknown_id
upsert_asteroid_orbits down checked_at db [] = ok (db, 0)
upsert_asteroid_orbits down checked_at db (u ∷ updates) =
    if down
    then err connection_failure
    else (if has_repeated_id (u ∷ updates)
        then err cardinality_violation
        else (if has_unknown_id db.asteroids (u ∷ updates)
            then err foreign_key_violation
            else ok (
              record db {
                asteroid_orbits = upsert_rows checked_at (u ∷ updates) db.asteroid_orbits;
              },
              length (u ∷ updates),
            )))
