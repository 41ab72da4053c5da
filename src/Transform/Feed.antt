-- ===== src/Transform/Feed.antt =====
-- What the transformation of a feed hands on, src/transform/mod.rs.
use rustroid_sentinel.Prelude.{
  ◌≡◌, refl, ap, String, List, [], ◌∷◌, map, All, All-append, map_append, ◌++◌, ◌∙◌,
}
use mathlib.Core.Path.{ap₂}
use mathlib.Core.List.{flat_map}
use rustroid_sentinel.Models.{Uuid, DateTime, Approach, AsteroidRecord, asteroid_id, approach_id}
use rustroid_sentinel.Transform.{
  classify_hazard, NearEarthObject, CloseApproachData, NeoFeed, transform_approach, transform_neo,
  transform_neo_feed,
}

abbrev pub objects : List (String × List NearEarthObject) → List NearEarthObject
objects [] = []
objects ((date, neos) ∷ days) = neos ++ objects days

-- What can be read back of a record.
abbrev pub data_of : Approach → CloseApproachData
data_of a = record {
  close_approach_date = a.close_approach_date;
  epoch_date_close_approach = a.epoch_date_close_approach;
  kilometers_per_second = a.velocity_km_per_s;
  kilometers_per_hour = a.velocity_km_per_h;
  astronomical = a.miss_distance_astronomical;
  lunar = a.miss_distance_lunar;
  kilometers = a.miss_distance_km;
  orbiting_body = a.orbiting_body;
}

abbrev pub object_of : AsteroidRecord → NearEarthObject
object_of r = record {
  neo_reference_id = r.asteroid.neo_reference_id;
  name = r.asteroid.name;
  nasa_jpl_url = r.asteroid.nasa_jpl_url;
  absolute_magnitude_h = r.asteroid.absolute_magnitude;
  estimated_diameter_km = record {
    estimated_diameter_min = r.asteroid.estimated_diameter_min_km;
    estimated_diameter_max = r.asteroid.estimated_diameter_max_km;
  };
  is_potentially_hazardous_asteroid = r.asteroid.is_potentially_hazardous;
  close_approach_data = map data_of r.approaches;
  is_sentry_object = r.asteroid.is_sentry_object;
}

module _ (new_v5 : Uuid → String → Uuid) (now : DateTime) where
  -- The approach carries its own id, the id of the asteroid that it came with, and the class of what
  -- the two rows say.
  abbrev pub IsLinked : AsteroidRecord → Approach → Type 0
  IsLinked r a =
      (a.asteroid_id ≡ r.asteroid.id)
      × (a.id ≡ approach_id new_v5 r.asteroid.neo_reference_id a.epoch_date_close_approach)
      × (a.hazard_classification
          ≡ classify_hazard r.asteroid.estimated_diameter_max_km a.velocity_km_per_s
              a.miss_distance_astronomical r.asteroid.is_potentially_hazardous)

  abbrev pub IsKeyed : AsteroidRecord → Type 0
  IsKeyed r =
      (r.asteroid.id ≡ asteroid_id new_v5 r.asteroid.neo_reference_id)
      × All (IsLinked r) r.approaches

  approaches_lem :
      (neo : NearEarthObject) (cads : List CloseApproachData)
      → All (IsLinked (transform_neo new_v5 now neo)) (map (transform_approach new_v5 now neo) cads)
        × (map data_of (map (transform_approach new_v5 now neo) cads) ≡ cads)
  unfolding transform_neo transform_approach
  approaches_lem neo [] = (tt, refl)
  approaches_lem neo (c ∷ cads) =
      let (linked, same) = approaches_lem neo cads in
      (((refl, refl, refl), linked), ap (λ l. c ∷ l) same)

  transform_neo_lem :
      (neo : NearEarthObject)
      → IsKeyed (transform_neo new_v5 now neo) × (object_of (transform_neo new_v5 now neo) ≡ neo)
  unfolding transform_neo
  transform_neo_lem neo =
      let (linked, same) = approaches_lem neo neo.close_approach_data in
      ((refl, linked), ap (λ l. record neo { close_approach_data = l }) same)

  abbrev day_records : String × List NearEarthObject → List AsteroidRecord
  day_records day = map (transform_neo new_v5 now) day.1

  day_lem :
      (neos : List NearEarthObject)
      → All IsKeyed (map (transform_neo new_v5 now) neos)
        × (map object_of (map (transform_neo new_v5 now) neos) ≡ neos)
  day_lem [] = (tt, refl)
  day_lem (neo ∷ neos) =
      let (keyed, same) = transform_neo_lem neo in
      let (keyed', same') = day_lem neos in ((keyed, keyed'), ap₂ (λ x l. x ∷ l) same same')

  days_lem :
      (days : List (String × List NearEarthObject))
      → All IsKeyed (flat_map day_records days)
        × (map object_of (flat_map day_records days) ≡ objects days)
  unfolding flat_map
  days_lem [] = (tt, refl)
  days_lem ((date, neos) ∷ days) =
      let (keyed, same) = day_lem neos in
      let (keyed', same') = days_lem days in
      let here : List AsteroidRecord = map (transform_neo new_v5 now) neos in
      (
        All-append IsKeyed here (flat_map day_records days) keyed keyed',
        map_append object_of here (flat_map day_records days) ∙ ap₂ ◌++◌ same same',
      )

  -- From the records of a feed all objects can be read back, with all their approaches, each once and
  -- in the order of the feed. Each asteroid has the id that its reference id determines; each
  -- approach has the id that reference id and epoch determine, a reference to its own asteroid, and
  -- the class of that asteroid's diameter and designation and of its own speed and distance.
  pub transform_neo_feed_lem :
      (feed : NeoFeed)
      → All IsKeyed (transform_neo_feed new_v5 now feed)
        × (map object_of (transform_neo_feed new_v5 now feed) ≡ objects feed.near_earth_objects)
  unfolding transform_neo_feed
  transform_neo_feed_lem feed = days_lem feed.near_earth_objects
