-- ===== src/Database.antt =====
-- The tables of migrations/*.sql that the program writes, and the errors of a statement.
--
-- A table is the list of its rows; the order of the list means nothing. SQL statements are read as
-- PostgreSQL documents them.
pub mod HazardEvents
pub mod Upsert
pub mod Chunks
pub mod Events
pub mod Retention
pub mod Orbits
pub mod Sentry
pub mod Dashboard
use rustroid_sentinel.Prelude.{ℕ, String, Bool, false, Option, List, ◌&&◌, ◌==◌}
use rustroid_sentinel.Float.{F64}
use rustroid_sentinel.Models.{
  Uuid, NaiveDate, DateTime, I64, pos, negsuc, EtlStatus, Asteroid, Approach, to_string,
}

-- A row of `approaches`: the classification is text.
pub record ApproachRow : Type 0 where
  pub id : Uuid
  pub asteroid_id : Uuid
  pub close_approach_date : NaiveDate
  pub epoch_date_close_approach : I64
  pub velocity_km_per_s : F64
  pub velocity_km_per_h : F64
  pub miss_distance_km : F64
  pub miss_distance_astronomical : F64
  pub miss_distance_lunar : F64
  pub orbiting_body : String
  pub hazard_classification : String
  pub created_at : DateTime

pub record EtlEvent : Type 0 where
  pub id : Uuid
  pub source_file : String
  pub started_at : DateTime
  pub completed_at : Option DateTime
  pub status : EtlStatus
  pub asteroids_processed : I64
  pub approaches_processed : I64
  pub error_message : Option String

pub record Db : Type 0 where
  pub asteroids : List Asteroid
  pub approaches : List ApproachRow
  pub etl_events : List EtlEvent

-- The ways in which a statement fails: two rows of one command meet one row, a unique key or a
-- foreign key is violated, or the server or the connection fails.
pub data SqlError : Type 0 where
  cardinality_violation unique_violation foreign_key_violation connection_failure : SqlError

abbrev pub i64_eq : I64 → I64 → Bool
i64_eq (pos a) (pos b) = a == b
i64_eq (negsuc a) (negsuc b) = a == b
i64_eq (pos a) (negsuc b) = false
i64_eq (negsuc a) (pos b) = false
