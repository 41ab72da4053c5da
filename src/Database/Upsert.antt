-- ===== src/Database/Upsert.antt =====
-- The batch upsert of src/database/repository.rs: `upsert_batch` and its two statements.
pub mod Steps
pub mod Counts
pub mod Keys
pub mod Rerun
pub mod Alarms
pub mod Success
use rustroid_sentinel.Prelude.{
  ℕ, ◌+◌, ◌-◌, String, Bool, true, false, ◌&&◌, ◌||◌, Option, none, some, List, [], ◌∷◌, ◌++◌, ◌==◌,
  str_eq, if◌then◌else◌, length, any, filter, map, Result, ok, err,
}
use mathlib.Core.List.{flat_map, filter_map}
use rustroid_sentinel.Models.{
  Uuid, DateTime, HazardClassification, critical, high, medium, low, Asteroid, Approach,
  AsteroidRecord, to_string,
}
use rustroid_sentinel.Database.HazardEvents.{HazardEvent, approach_meta, hazard_events}
use rustroid_sentinel.Database.{
  Db, ApproachRow, SqlError, cardinality_violation, unique_violation, foreign_key_violation,
  connection_failure, i64_eq,
}

pub record UpsertStats : Type 0 where
  pub asteroids_inserted : ℕ
  pub asteroids_updated : ℕ
  pub approaches_inserted : ℕ
  pub approaches_skipped : ℕ
  pub new_hazard_events : List HazardEvent
  pub newly_inserted_asteroid_ids : List Uuid

-- The row that the first statement inserts: the Sentry columns are not among its columns.
abbrev pub inserted_row : Asteroid → Asteroid
inserted_row a = record a { torino_scale = none; palermo_scale = none; sentry_checked_at = none }

-- `DO UPDATE SET`: the id, the Sentry columns and `created_at` stay.
abbrev pub updated_row : Asteroid → Asteroid → Asteroid
updated_row old new = record old {
  name = new.name;
  absolute_magnitude = new.absolute_magnitude;
  estimated_diameter_min_km = new.estimated_diameter_min_km;
  estimated_diameter_max_km = new.estimated_diameter_max_km;
  is_potentially_hazardous = new.is_potentially_hazardous;
  is_sentry_object = new.is_sentry_object;
  nasa_jpl_url = new.nasa_jpl_url;
  updated_at = new.updated_at;
}

abbrev pub keep_row : Asteroid → Option (Uuid × List Asteroid) → Option (Uuid × List Asteroid)
keep_row old none = none
keep_row old (some (i, rows)) = some (i, old ∷ rows)

-- The row with the same `neo_reference_id`, updated, with its id.
unfoldable pub update_asteroid : Asteroid → List Asteroid → Option (Uuid × List Asteroid)
update_asteroid new [] = none
update_asteroid new (old ∷ rows) =
    let rest = update_asteroid new rows in
    if str_eq old.neo_reference_id new.neo_reference_id
    then some (old.id, updated_row old new ∷ rows)
    else keep_row old rest

-- What the first statement leaves and returns: the rows, and for each proposed row its id and
-- whether it was inserted (`xmax = 0`).
abbrev pub AsteroidsDone : Type 0
AsteroidsDone = Result SqlError (List Asteroid × List (Uuid × Bool))

abbrev pub returning : Uuid × Bool → AsteroidsDone → AsteroidsDone
returning r (ok (rows, out)) = ok (rows, r ∷ out)
returning r (err e) = err e

-- `INSERT INTO asteroids … ON CONFLICT (neo_reference_id) DO UPDATE … RETURNING id, (xmax = 0)`.
-- `touched` holds the keys of the rows that this command has written.
unfoldable pub upsert_asteroids : List String → List Asteroid → List Asteroid → AsteroidsDone
upsert_asteroids touched rows [] = ok (rows, [])
upsert_asteroids touched rows (a ∷ proposed) =
    let next = a.neo_reference_id ∷ touched in
    elim (any (str_eq a.neo_reference_id) touched) [
      | true ↦ err cardinality_violation
      | false ↦ elim (update_asteroid a rows) [
        | some (i, rows') ↦ returning (i, false) (upsert_asteroids next rows' proposed)
        | none ↦ elim (any (λ (o : Asteroid). o.id == a.id) rows) [
          | true ↦ err unique_violation
          | false ↦ returning (a.id, true) (upsert_asteroids next (inserted_row a ∷ rows) proposed)
        ]
      ]
    ]

abbrev pub approach_row : Approach → ApproachRow
approach_row a = record {
  id = a.id;
  asteroid_id = a.asteroid_id;
  close_approach_date = a.close_approach_date;
  epoch_date_close_approach = a.epoch_date_close_approach;
  velocity_km_per_s = a.velocity_km_per_s;
  velocity_km_per_h = a.velocity_km_per_h;
  miss_distance_km = a.miss_distance_km;
  miss_distance_astronomical = a.miss_distance_astronomical;
  miss_distance_lunar = a.miss_distance_lunar;
  orbiting_body = a.orbiting_body;
  hazard_classification = to_string a.hazard_classification;
  created_at = a.created_at;
}

-- The key `(asteroid_id, epoch_date_close_approach)`.
abbrev pub same_approach : Approach → ApproachRow → Bool
same_approach a row =
    (row.asteroid_id == a.asteroid_id)
    && i64_eq row.epoch_date_close_approach a.epoch_date_close_approach

abbrev pub ApproachesDone : Type 0
ApproachesDone = Result SqlError (List ApproachRow × List Uuid)

abbrev pub returning_id : Uuid → ApproachesDone → ApproachesDone
returning_id i (ok (rows, out)) = ok (rows, i ∷ out)
returning_id i (err e) = err e

-- `INSERT INTO approaches … ON CONFLICT (asteroid_id, epoch_date_close_approach) DO NOTHING
-- RETURNING id`, with the primary key and the reference to `asteroids`.
unfoldable pub insert_approaches : List Asteroid → List ApproachRow → List Approach → ApproachesDone
insert_approaches parents rows [] = ok (rows, [])
insert_approaches parents rows (a ∷ proposed) = elim (any (same_approach a) rows) [
  | true ↦ insert_approaches parents rows proposed
  | false ↦ elim (any (λ (o : ApproachRow). o.id == a.id) rows) [
    | true ↦ err unique_violation
    | false ↦ elim (any (λ (p : Asteroid). p.id == a.asteroid_id) parents) [
      | false ↦ err foreign_key_violation
      | true ↦ returning_id a.id (insert_approaches parents (approach_row a ∷ rows) proposed)
    ]
  ]
]

-- Which of the four requests to the server fail for reasons of its own, and whether a commit that
-- fails for the client was done by the server, with only its reply lost.
pub record Faults : Type 0 where
  pub at_begin : Bool
  pub at_asteroids : Bool
  pub at_approaches : Bool
  pub at_commit : Bool
  pub reply_lost : Bool

abbrev pub all_approaches : List AsteroidRecord → List Approach
all_approaches [] = []
all_approaches (r ∷ records) = r.approaches ++ all_approaches records

abbrev pub all_asteroids : List AsteroidRecord → List Asteroid
all_asteroids = map (λ (r : AsteroidRecord). r.asteroid)

abbrev pub upsert_stats :
    DateTime → List AsteroidRecord → List (Uuid × Bool) → List Uuid → UpsertStats
upsert_stats now batch asteroid_rows inserted_approach_ids =
    let new_ids =
      map (λ (r : Uuid × Bool). r.0) (filter (λ (r : Uuid × Bool). r.1) asteroid_rows) in
    record {
      asteroids_inserted = length new_ids;
      asteroids_updated = length batch - length new_ids;
      approaches_inserted = length inserted_approach_ids;
      approaches_skipped = length (all_approaches batch) - length inserted_approach_ids;
      new_hazard_events = hazard_events now (approach_meta batch []) inserted_approach_ids;
      newly_inserted_asteroid_ids = new_ids;
    }

-- The transaction: what fails before the commit is rolled back. After a failed commit the server
-- has done all of it or nothing.
unfoldable pub upsert_batch :
    DateTime → Faults → Db → List AsteroidRecord → Db × Result SqlError UpsertStats
upsert_batch now faults db batch =
    if faults.at_begin || faults.at_asteroids
    then (db, err connection_failure)
    else elim (upsert_asteroids [] db.asteroids (all_asteroids batch)) [
      | err e ↦ (db, err e)
      | ok (asteroids, asteroid_rows) ↦
          if faults.at_approaches
          then (db, err connection_failure)
          else elim (insert_approaches asteroids db.approaches (all_approaches batch)) [
            | err e ↦ (db, err e)
            | ok (approaches, inserted_approach_ids) ↦
                let written = record db { asteroids = asteroids; approaches = approaches } in
                if faults.at_commit
                then (if faults.reply_lost then written else db, err connection_failure)
                else (written, ok (upsert_stats now batch asteroid_rows inserted_approach_ids))
          ]
    ]
