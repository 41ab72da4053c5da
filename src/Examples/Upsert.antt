-- ===== src/Examples/Upsert.antt =====
-- The batch upsert on two asteroids.
use rustroid_sentinel.Prelude.{All, any, ◌==◌, ◌+◌, ◌≡◌, refl, ◌∷◌, [], List, length, ok, true}
use rustroid_sentinel.Models.{Asteroid, AsteroidRecord}
use rustroid_sentinel.Database.{Db}
use rustroid_sentinel.Database.Upsert.{
  all_asteroids, UpsertStats, upsert_batch, upsert_stats, update_asteroid, upsert_asteroids,
  insert_approaches,
}
use rustroid_sentinel.Database.HazardEvents.{get_meta}
use rustroid_sentinel.Database.HazardEvents.Meta.{alarms, entries}
use rustroid_sentinel.Database.Upsert.Alarms.{is_new, upsert_batch-alarms}
use rustroid_sentinel.Database.Upsert.Counts.{upsert_batch_counts}
use rustroid_sentinel.Database.Upsert.Keys.{WellFormed, upsert_batch-WellFormed}
use rustroid_sentinel.Database.Upsert.Rerun.{no_faults, upsert_batch_again}
use rustroid_sentinel.Database.Upsert.Success.{upsert_batch_succeeds}
use rustroid_sentinel.Examples.{apophis, bennu, empty_db, all_up}

abbrev two : List AsteroidRecord
two = apophis ∷ bennu ∷ []

abbrev two_stats : UpsertStats
two_stats = upsert_stats 5 two ((10, true) ∷ (11, true) ∷ []) (20 ∷ 21 ∷ 22 ∷ [])

pub empty_db-WellFormed : WellFormed empty_db
empty_db-WellFormed = record {
  asteroid_ids = tt;
  neo_reference_ids = tt;
  approach_ids = tt;
  approach_keys = tt;
  parents = tt;
}

upsert_batch_again_example :
    (db' : Db) × (s : UpsertStats) × (upsert_batch 9 no_faults
        ((upsert_batch 5 all_up empty_db two).0)
        two
      ≡ (db', ok s))
    × (db'.approaches ≡ ((upsert_batch 5 all_up empty_db two).0).approaches)
    × (s.asteroids_inserted ≡ 0)
    × (s.approaches_inserted ≡ 0)
    × (s.newly_inserted_asteroid_ids ≡ [])
    × (s.new_hazard_events ≡ [])
unfolding upsert_batch update_asteroid upsert_asteroids insert_approaches
upsert_batch_again_example =
    upsert_batch_again 5 9 all_up empty_db two ((upsert_batch 5 all_up empty_db two).0) two_stats
      refl

upsert_batch_counts_example :
    (two_stats.asteroids_inserted + two_stats.asteroids_updated ≡ 2)
    × (two_stats.approaches_inserted + two_stats.approaches_skipped ≡ 3)
    × (length two_stats.newly_inserted_asteroid_ids ≡ two_stats.asteroids_inserted)
    × (length ((upsert_batch 5 all_up empty_db two).0).asteroids ≡ 0 + two_stats.asteroids_inserted)
    × (length ((upsert_batch 5 all_up empty_db two).0).approaches
        ≡ 0 + two_stats.approaches_inserted)
unfolding upsert_batch update_asteroid upsert_asteroids insert_approaches
upsert_batch_counts_example =
    upsert_batch_counts 5 all_up empty_db two ((upsert_batch 5 all_up empty_db two).0) two_stats
      refl

upsert_batch-alarms_example :
    two_stats.new_hazard_events
    ≡ alarms 5 (is_new [] ((upsert_batch 5 all_up empty_db two).0).approaches) (entries two)
unfolding upsert_batch update_asteroid upsert_asteroids insert_approaches get_meta
upsert_batch-alarms_example =
    upsert_batch-alarms 5 all_up empty_db two ((upsert_batch 5 all_up empty_db two).0) two_stats
      refl (refl, (refl, (refl, tt)))

-- Apophis and one of its approaches are known already.
upsert_batch_succeeds_example :
    (db' : Db) × (s : UpsertStats) × (upsert_batch 9 no_faults
        ((upsert_batch 5 all_up empty_db (apophis ∷ [])).0)
        two
      ≡ (db', ok s))
    × All
        (λ (a : Asteroid). any (λ (o : Asteroid). o.id == a.id) db'.asteroids ≡ true)
        (all_asteroids two)
    × WellFormed db'
unfolding upsert_batch update_asteroid upsert_asteroids insert_approaches
upsert_batch_succeeds_example =
    upsert_batch_succeeds 9 ((upsert_batch 5 all_up empty_db (apophis ∷ [])).0) two
      (upsert_batch-WellFormed 5 all_up empty_db (apophis ∷ []) empty_db-WellFormed)
      ((refl, tt), (((refl, refl), (refl, refl)), tt), ((refl, tt), tt, tt))
      (
        (refl, (refl, tt)),
        (refl, (refl, tt)),
        ((refl, (refl, tt)), (refl, tt), ((refl, (refl, tt)), tt, tt)),
      )
      ((refl, (refl, tt)), ((refl, tt), tt))
