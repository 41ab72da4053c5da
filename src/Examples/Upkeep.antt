-- ===== src/Examples/Upkeep.antt =====
-- Retention, the Sentry checks and the upsert in chunks on small tables.
use rustroid_sentinel.Prelude.{
  All, true, ◌+◌, ◌-◌, ◌*◌, ◌≤◌, ◌≡◌, refl, Bool, false, not, ltb, min, length, filter, none, some,
  List, [], ◌∷◌, arith, ok, returned,
}
use rustroid_sentinel.Models.{pos}
use rustroid_sentinel.Database.{Db, EtlEvent}
use rustroid_sentinel.Database.Events.{started_event}
use rustroid_sentinel.Database.Retention.{RetentionConfig, PruneResult, prune, count_prunable}
use rustroid_sentinel.Alert.{AlertRow}
use rustroid_sentinel.Database.Retention.Newest.{IsOutlived}
use rustroid_sentinel.Database.Retention.Counts.{HasApproach, prune_lem}
use rustroid_sentinel.Database.Upsert.{
  approach_row, UpsertStats, update_asteroid, upsert_asteroids, insert_approaches,
}
use rustroid_sentinel.Database.Chunks.{
  chunks, upsert_chunk, upsert_chunks, upsert_asteroids_and_approaches,
}
use rustroid_sentinel.Database.Chunks.Laws.{upsert_asteroids_and_approaches_counts}
use rustroid_sentinel.Sentry.{
  Joined, outcome, found, absent, lookup_error, SentryCheckSummary, run_sentry_checks, update_rows,
}
use rustroid_sentinel.Sentry.Flush.{updates_of, flatten, run_sentry_checks_lem}
use rustroid_sentinel.Examples.{approach, asteroid, apophis, bennu, empty_db, all_up}

abbrev config : RetentionConfig
config = record {
  approach_retention_years = 2;
  etl_event_retention_days = 30;
  etl_events_keep_min = 1;
}

abbrev events_db : Db
events_db = record empty_db {
  etl_events = started_event 1 "a" 10 ∷ started_event 2 "b" 20 ∷ started_event 3 "c" 30 ∷ [];
}

-- An approach before the cutoff of 270, with an alert.
abbrev pruned_db : Db
pruned_db = record events_db {
  approaches = record (approach_row (approach 20 10 5)) { close_approach_date = 100 } ∷ [];
}

abbrev alert_row : AlertRow
alert_row = record { approach_id = 20; alert_type = "discord" }

abbrev any_order : EtlEvent → EtlEvent → Bool
any_order e f = true

prune_lem_example :
    (db' : Db) × (alerts' : List AlertRow) × (r : PruneResult) × (prune any_order false false 1000
        5000000 config pruned_db
        (alert_row ∷ [])
      ≡ returned ((db', alerts'), ok r))
    × (count_prunable any_order false false 1000 5000000 config pruned_db ≡ returned (ok r))
    × (r.approaches + length db'.approaches ≡ 1)
    × (r.etl_events + length db'.etl_events ≡ 3)
    × (min 1 3 ≤ length db'.etl_events)
    × (filter (λ e. not (ltb e.started_at (5000000 - 30 * 86400))) db'.etl_events
        ≡ filter (λ e. not (ltb e.started_at (5000000 - 30 * 86400))) pruned_db.etl_events)
    × All (IsOutlived 1 db'.etl_events) pruned_db.etl_events
    × (All (HasApproach pruned_db.approaches) (alert_row ∷ [])
        → All (HasApproach db'.approaches) alerts')
prune_lem_example =
    prune_lem any_order 1000 5000000 config pruned_db (alert_row ∷ []) (omega arith) (omega arith)

abbrev asteroids_db : Db
asteroids_db = record empty_db {
  asteroids = asteroid 10 "99942" "Apophis" ∷ asteroid 11 "101955" "Bennu" ∷ [];
}

abbrev lookups : List (List Joined)
lookups =
    (outcome 11 "101955" (found (some (pos 0)) none) ∷ outcome 12 "1" lookup_error ∷ [])
    ∷ (outcome 10 "99942" absent ∷ [])
    ∷ []

run_sentry_checks_lem_example :
    (db' : Db) × (s : SentryCheckSummary) × (run_sentry_checks
        (λ k. 5)
        (λ k. false)
        asteroids_db
        lookups
      ≡ (db', ok s))
    × (s.matched ≡ 1)
    × (s.errored ≡ 1)
    × (db'.asteroids ≡ update_rows 5 (updates_of (flatten lookups)) asteroids_db.asteroids)
run_sentry_checks_lem_example = run_sentry_checks_lem 5 asteroids_db lookups (tt, (tt, (tt, tt)))

abbrev two_stats : UpsertStats
two_stats = record {
  asteroids_inserted = 2;
  asteroids_updated = 0;
  approaches_inserted = 3;
  approaches_skipped = 0;
  new_hazard_events = [];
  newly_inserted_asteroid_ids = [];
}

upsert_asteroids_and_approaches_counts_example :
    (two_stats.asteroids_inserted ≡ 2)
    × (two_stats.approaches_inserted + two_stats.approaches_skipped ≡ 3)
    × (length
          ((upsert_asteroids_and_approaches (λ k. all_up) empty_db (apophis ∷ bennu ∷ [])).0
            ).approaches
        ≡ 0 + 3)
unfolding upsert_asteroids_and_approaches upsert_chunks upsert_chunk chunks update_asteroid
    upsert_asteroids insert_approaches
upsert_asteroids_and_approaches_counts_example =
    upsert_asteroids_and_approaches_counts (λ k. all_up) empty_db
      ((upsert_asteroids_and_approaches (λ k. all_up) empty_db (apophis ∷ bennu ∷ [])).0)
      (apophis ∷ bennu ∷ []) two_stats refl
