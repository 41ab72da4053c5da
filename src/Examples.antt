-- ===== src/Examples.antt =====
-- Concrete inputs on which the theorems are applied.
pub mod Extract
pub mod Upsert
pub mod Load
pub mod Orbits
pub mod Sentry
pub mod Cache
pub mod Dashboard
pub mod Events
pub mod Transform
pub mod Catalog
pub mod Alert
pub mod Upkeep
use rustroid_sentinel.Prelude.{ℕ, String, Bool, true, false, Option, none, some, List, [], ◌∷◌}
use rustroid_sentinel.Models.{Uuid, pos, Asteroid, Approach, AsteroidRecord, critical, low, medium}
use rustroid_sentinel.Database.{Db}
use rustroid_sentinel.Database.Upsert.{Faults}
use rustroid_sentinel.Load.{Line, parsed, blank, malformed, FileRun, LoadError}

abbrev pub asteroid : Uuid → String → String → Asteroid
asteroid i ref name = record {
  id = i;
  neo_reference_id = ref;
  name = name;
  absolute_magnitude = 0;
  estimated_diameter_min_km = 0;
  estimated_diameter_max_km = 0;
  is_potentially_hazardous = true;
  is_sentry_object = false;
  nasa_jpl_url = "";
  torino_scale = none;
  palermo_scale = none;
  sentry_checked_at = none;
  created_at = 1;
  updated_at = 1;
}

abbrev pub approach : Uuid → Uuid → ℕ → Approach
approach i asteroid_id epoch = record {
  id = i;
  asteroid_id = asteroid_id;
  close_approach_date = 0;
  epoch_date_close_approach = pos epoch;
  velocity_km_per_s = 0;
  velocity_km_per_h = 0;
  miss_distance_km = 0;
  miss_distance_astronomical = 0;
  miss_distance_lunar = 0;
  orbiting_body = "Earth";
  hazard_classification = critical;
  created_at = 1;
}

abbrev pub apophis : AsteroidRecord
apophis = record {
  asteroid = asteroid 10 "99942" "Apophis";
  approaches = approach 20 10 5 ∷ approach 21 10 6 ∷ [];
}

abbrev pub bennu : AsteroidRecord
bennu = record { asteroid = asteroid 11 "101955" "Bennu"; approaches = approach 22 11 5 ∷ [] }

abbrev pub empty_db : Db
empty_db = record { asteroids = []; approaches = []; etl_events = [] }

abbrev pub all_up : Faults
all_up = record {
  at_begin = false;
  at_asteroids = false;
  at_approaches = false;
  at_commit = false;
  reply_lost = false;
}

abbrev pub file_run : Uuid → FileRun
file_run i = record {
  event_id = i;
  started_at = 3;
  finished_at = 4;
  batch_now = λ k. 3;
  batch_faults = λ k. all_up;
  check_down = false;
  start_down = false;
  finish_down = false;
}

abbrev pub file_lines : List Line
file_lines = parsed apophis ∷ blank ∷ malformed ∷ parsed bennu ∷ []

abbrev pub describe : LoadError → String
describe e = "failed"
