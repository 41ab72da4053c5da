-- ===== src/Transform.antt =====
-- src/transform/mod.rs over the response types of src/nasa/asteroid_neows/responses.rs. Fields of a
-- response that the program does not read after parsing are left out.
pub mod Hazard
pub mod Feed
use mathlib.Core.List.{flat_map}
use rustroid_sentinel.Prelude.{ℕ, String, Bool, ◌&&◌, ◌||◌, List, none, map, if◌then◌else◌}
use rustroid_sentinel.Float.{F64, lt}
use rustroid_sentinel.Models.{
  HazardClassification, critical, high, medium, low, Uuid, NaiveDate, DateTime, I64, Asteroid,
  Approach, AsteroidRecord, asteroid_id, approach_id,
}

-- The literals are 0.05, 0.5, 20.0, 0.1, 0.1 and 10.0.
unfoldable pub classify_hazard : F64 → F64 → F64 → Bool → HazardClassification
classify_hazard diameter_max_km velocity_km_s miss_distance_au is_pha =
    if is_pha && lt miss_distance_au 0x3fa999999999999a
    then critical
    else if lt 0x3fe0000000000000 diameter_max_km
        || (lt 0x4034000000000000 velocity_km_s && lt miss_distance_au 0x3fb999999999999a)
    then high
    else if lt 0x3fb999999999999a diameter_max_km || lt 0x4024000000000000 velocity_km_s
    then medium
    else low

pub record DiameterRange : Type 0 where
  pub estimated_diameter_min : F64
  pub estimated_diameter_max : F64

pub record CloseApproachData : Type 0 where
  pub close_approach_date : NaiveDate
  pub epoch_date_close_approach : I64
  pub kilometers_per_second : F64
  pub kilometers_per_hour : F64
  pub astronomical : F64
  pub lunar : F64
  pub kilometers : F64
  pub orbiting_body : String

pub record NearEarthObject : Type 0 where
  pub neo_reference_id : String
  pub name : String
  pub nasa_jpl_url : String
  pub absolute_magnitude_h : F64
  pub estimated_diameter_km : DiameterRange
  pub is_potentially_hazardous_asteroid : Bool
  pub close_approach_data : List CloseApproachData
  pub is_sentry_object : Bool

-- The entries of `near_earth_objects` in the order in which the map gives them.
pub record NeoFeed : Type 0 where
  pub element_count : ℕ
  pub near_earth_objects : List (String × List NearEarthObject)

module _ (new_v5 : Uuid → String → Uuid) (now : DateTime) where
  unfoldable pub transform_approach : NearEarthObject → CloseApproachData → Approach
  transform_approach neo cad = record {
    id = approach_id new_v5 neo.neo_reference_id cad.epoch_date_close_approach;
    asteroid_id = asteroid_id new_v5 neo.neo_reference_id;
    close_approach_date = cad.close_approach_date;
    epoch_date_close_approach = cad.epoch_date_close_approach;
    velocity_km_per_s = cad.kilometers_per_second;
    velocity_km_per_h = cad.kilometers_per_hour;
    miss_distance_km = cad.kilometers;
    miss_distance_astronomical = cad.astronomical;
    miss_distance_lunar = cad.lunar;
    orbiting_body = cad.orbiting_body;
    hazard_classification =
        classify_hazard neo.estimated_diameter_km.estimated_diameter_max cad.kilometers_per_second
          cad.astronomical neo.is_potentially_hazardous_asteroid;
    created_at = now;
  }

  unfoldable pub transform_neo : NearEarthObject → AsteroidRecord
  transform_neo neo = record {
    asteroid = record {
      id = asteroid_id new_v5 neo.neo_reference_id;
      neo_reference_id = neo.neo_reference_id;
      name = neo.name;
      absolute_magnitude = neo.absolute_magnitude_h;
      estimated_diameter_min_km = neo.estimated_diameter_km.estimated_diameter_min;
      estimated_diameter_max_km = neo.estimated_diameter_km.estimated_diameter_max;
      is_potentially_hazardous = neo.is_potentially_hazardous_asteroid;
      is_sentry_object = neo.is_sentry_object;
      nasa_jpl_url = neo.nasa_jpl_url;
      torino_scale = none;
      palermo_scale = none;
      sentry_checked_at = none;
      created_at = now;
      updated_at = now;
    };
    approaches = map (transform_approach neo) neo.close_approach_data;
  }

  unfoldable pub transform_neo_feed : NeoFeed → List AsteroidRecord
  transform_neo_feed feed = flat_map (λ e. map transform_neo e.1) feed.near_earth_objects
