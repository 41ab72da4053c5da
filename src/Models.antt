-- ===== src/Models.antt =====
-- src/models: the domain types that the stages of the program hand on.
--
-- A Uuid, a date and a point in time are numbers. `Uuid::new_v5` is a parameter.
pub mod Names
use rustroid_sentinel.Prelude.{
  ℕ, zero, suc, ◌/◌, ◌%◌, ◌+◌, String, Bool, true, false, Option, List, [], ◌∷◌, ltb, str_eq, ◌==◌,
  ◌<>◌, if◌then◌else◌,
}
use rustroid_sentinel.Float.{F64}

pub data EtlStatus : Type 0 where
  running completed failed : EtlStatus

unfoldable pub as_str : EtlStatus → String
as_str running = "running"
as_str completed = "completed"
as_str failed = "failed"

pub data HazardClassification : Type 0 where
  critical high medium low : HazardClassification

-- `Display`
unfoldable pub to_string : HazardClassification → String
to_string critical = "Critical"
to_string high = "High"
to_string medium = "Medium"
to_string low = "Low"

unfoldable pub from_str_lossy : String → HazardClassification
from_str_lossy s =
    if str_eq s "Critical"
    then critical
    else if str_eq s "High"
    then high
    else if str_eq s "Medium"
    then medium
    else low

abbrev pub Uuid : Type 0
Uuid = ℕ

abbrev pub NaiveDate : Type 0
NaiveDate = ℕ

abbrev pub DateTime : Type 0
DateTime = ℕ

-- An `i64`: `negsuc n` is -(n + 1).
pub data I64 : Type 0 where
  pos : ℕ → I64
  negsuc : ℕ → I64

digit : ℕ → String
digit d =
    if d == 0
    then "0"
    else if d == 1
    then "1"
    else if d == 2
    then "2"
    else if d == 3
    then "3"
    else if d == 4
    then "4"
    else if d == 5
    then "5"
    else if d == 6
    then "6"
    else if d == 7
    then "7"
    else if d == 8
    then "8"
    else "9"

-- The decimal digits of a number; a 64-bit number has 20 at most.
decimal : ℕ → ℕ → String
unfolding digit
decimal zero n = ""
decimal (suc fuel) n =
    let front = decimal fuel (n / 10) in if ltb n 10 then digit n else front <> digit (n % 10)

-- `Display` of an `i64`.
unfoldable pub show_i64 : I64 → String
unfolding decimal
show_i64 (pos n) = decimal 20 n
show_i64 (negsuc n) = "-" <> decimal 20 (n + 1)

-- `Torino` and the Sentry columns stay empty until the Sentry check.
pub record Asteroid : Type 0 where
  pub id : Uuid
  pub neo_reference_id : String
  pub name : String
  pub absolute_magnitude : F64
  pub estimated_diameter_min_km : F64
  pub estimated_diameter_max_km : F64
  pub is_potentially_hazardous : Bool
  pub is_sentry_object : Bool
  pub nasa_jpl_url : String
  pub torino_scale : Option I64
  pub palermo_scale : Option F64
  pub sentry_checked_at : Option DateTime
  pub created_at : DateTime
  pub updated_at : DateTime

pub record Approach : Type 0 where
  pub id : Uuid
  pub asteroid_id : Uuid
  pub close_approach_date : NaiveDate
  pub epoch_date_close_approach : I64
  pub velocity_km_per_s : F64
  pub velocity_km_per_h : F64
  pub miss_distance_km : F64
  pub miss_distance_astronomical : F64
  pub miss_distance_lunar : F64
  pub orbiting_body : String
  pub hazard_classification : HazardClassification
  pub created_at : DateTime

-- `(Asteroid, Vec<Approach>)`
pub record AsteroidRecord : Type 0 where
  pub asteroid : Asteroid
  pub approaches : List Approach

abbrev pub asteroid_uuid_namespace : Uuid
asteroid_uuid_namespace = 0x6ba7b8109dad11d180b400c04fd430c8

abbrev pub approach_uuid_namespace : Uuid
approach_uuid_namespace = 0x7cb8c921aebe22e291c511d15fe541d9

module _ (new_v5 : Uuid → String → Uuid) where
  unfoldable pub asteroid_id : String → Uuid
  asteroid_id neo_reference_id = new_v5 asteroid_uuid_namespace neo_reference_id

  unfoldable pub approach_id : String → I64 → Uuid
  unfolding show_i64
  approach_id neo_reference_id epoch =
      new_v5 approach_uuid_namespace (neo_reference_id <> ":" <> show_i64 epoch)
