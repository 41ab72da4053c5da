-- ===== src/Examples/Transform.antt =====
-- The transformation of a feed with one object.
use rustroid_sentinel.Prelude.{map, ◌≡◌, ◌≤◌, ◌⊎◌, refl, ◌∷◌, [], String, true, false}
use rustroid_sentinel.Models.{Uuid, pos, low, to_string, from_str_lossy}
use rustroid_sentinel.Models.Names.{from_str_lossy_lem}
use rustroid_sentinel.Prelude.{All}
use rustroid_sentinel.Float.{le}
use rustroid_sentinel.Transform.{NearEarthObject, NeoFeed, classify_hazard, transform_neo_feed}
use rustroid_sentinel.Transform.Hazard.{severity, classify_hazard_mono}
use rustroid_sentinel.Transform.Feed.{IsKeyed, object_of, objects, transform_neo_feed_lem}

abbrev new_v5 : Uuid → String → Uuid
new_v5 namespace name = namespace

abbrev apophis : NearEarthObject
apophis = record {
  neo_reference_id = "99942";
  name = "Apophis";
  nasa_jpl_url = "";
  absolute_magnitude_h = 0x4033000000000000;
  estimated_diameter_km = record {
    estimated_diameter_min = 0x3fd3333333333333;
    estimated_diameter_max = 0x3fe8000000000000;
  };
  is_potentially_hazardous_asteroid = true;
  close_approach_data =
      record {
        close_approach_date = 700;
        epoch_date_close_approach = pos 5;
        kilometers_per_second = 0x401d99999999999a;
        kilometers_per_hour = 0x40da000000000000;
        astronomical = 0x3f30624dd2f1a9fc;
        lunar = 0x3fb999999999999a;
        kilometers = 0x40e2a00000000000;
        orbiting_body = "Earth";
      }
      ∷ [];
  is_sentry_object = false;
}

abbrev feed : NeoFeed
feed = record { element_count = 1; near_earth_objects = ("2029-04-13", apophis ∷ []) ∷ [] }

transform_neo_feed_lem_example :
    All (IsKeyed new_v5 3) (transform_neo_feed new_v5 3 feed)
    × (map object_of (transform_neo_feed new_v5 3 feed) ≡ objects feed.near_earth_objects)
transform_neo_feed_lem_example = transform_neo_feed_lem new_v5 3 feed

-- Both objects are as large; the second is faster and passes nearer.
classify_hazard_mono_example :
    severity (classify_hazard 0x3fe8000000000000 0x4024000000000000 0x3fb999999999999a false)
    ≤ severity (classify_hazard 0x3fe8000000000000 0x4034000000000000 0x3f30624dd2f1a9fc true)
unfolding le
classify_hazard_mono_example =
    classify_hazard_mono 0x3fe8000000000000 0x3fe8000000000000 0x4024000000000000 0x4034000000000000
      0x3fb999999999999a 0x3f30624dd2f1a9fc false true refl refl refl (λ e. refl)

from_str_lossy_lem_example :
    (from_str_lossy (to_string low) ≡ low)
    × (from_str_lossy "Huge" ≡ low → ("Huge" ≡ to_string low) ⊎ (low ≡ low))
from_str_lossy_lem_example = from_str_lossy_lem low "Huge"
