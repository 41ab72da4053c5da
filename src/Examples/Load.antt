-- ===== src/Examples/Load.antt =====
-- Loads of a file with two records.
use rustroid_sentinel.Prelude.{
  ◌+◌, ◌≡◌, refl, ◌∷◌, [], List, Option, none, some, length, arith, String, ok, true, false,
}
use rustroid_sentinel.Models.{as_str}
use rustroid_sentinel.Database.{Db}
use rustroid_sentinel.Database.Events.{is_file_processed, record_etl_event_start, started_event}
use rustroid_sentinel.Database.Upsert.{
  UpsertStats, upsert_batch, update_asteroid, upsert_asteroids, insert_approaches,
}
use rustroid_sentinel.Load.{Line, FileRun, no_upserts, stream_lines, stream_and_process_file}
use rustroid_sentinel.Load.Files.{
  LoadArgs, LoadSettings, no_stats, check_idempotency, record_etl_start, process_file, execute,
}
use rustroid_sentinel.Load.Counts.{stream_and_process_file_counts}
use rustroid_sentinel.Load.NewIds.{stream_lines_loses_ids}
use rustroid_sentinel.Load.Publish.{execute_posts_nothing}
use rustroid_sentinel.Load.Status.{process_file_first, process_file_retry}
use rustroid_sentinel.Examples.{empty_db, file_run, file_lines, describe}

abbrev loaded_stats : UpsertStats
loaded_stats = record {
  asteroids_inserted = 2;
  asteroids_updated = 0;
  approaches_inserted = 3;
  approaches_skipped = 0;
  new_hazard_events = [];
  newly_inserted_asteroid_ids = 10 ∷ 11 ∷ [];
}

abbrev lost_stats : UpsertStats
lost_stats = record loaded_stats { newly_inserted_asteroid_ids = [] }

-- A database in which an earlier run has left an event of the file.
abbrev tried_db : Db
tried_db = record empty_db { etl_events = started_event 1 "a_transformed.json" 0 ∷ [] }

abbrev args : LoadArgs
args = record { input_exists = true; force = false; dry_run = false }

abbrev settings : LoadSettings
settings = record {
  internal_events_url = some "http://localhost/internal/events";
  internal_event_token = some "t";
  client_builds = true;
  connects = true;
  migrates = true;
}

abbrev files : List (FileRun × String × Option (List Line))
files =
    (file_run 7, "a_transformed.json", some file_lines)
    ∷ (file_run 8, "b_transformed.json", none)
    ∷ []

stream_and_process_file_counts_example :
    (2 + 0 ≡ 2)
    × (3 + 0 ≡ 3)
    × (length ((stream_and_process_file (file_run 7) empty_db (some file_lines)).0).asteroids
        ≡ 0 + 2)
    × (length ((stream_and_process_file (file_run 7) empty_db (some file_lines)).0).approaches
        ≡ 0 + 3)
unfolding stream_and_process_file stream_lines upsert_batch update_asteroid upsert_asteroids
    insert_approaches
stream_and_process_file_counts_example =
    stream_and_process_file_counts (file_run 7) empty_db
      ((stream_and_process_file (file_run 7) empty_db (some file_lines)).0) file_lines loaded_stats
      refl

stream_lines_loses_ids_example : lost_stats.newly_inserted_asteroid_ids ≡ []
unfolding stream_lines upsert_batch update_asteroid upsert_asteroids insert_approaches
stream_lines_loses_ids_example =
    stream_lines_loses_ids 2 (file_run 7) empty_db
      ((stream_lines 2 (file_run 7) 0 empty_db no_upserts [] 0 file_lines).0) file_lines lost_stats
      1 (omega arith) refl refl

execute_posts_nothing_example : (execute describe args settings empty_db files).2 ≡ none
execute_posts_nothing_example = execute_posts_nothing describe args settings empty_db files

process_file_retry_example :
    check_idempotency false
      ((process_file describe true (file_run 7) tried_db "a_transformed.json" (some file_lines)).0)
      "a_transformed.json"
    ≡ false
unfolding check_idempotency is_file_processed as_str
process_file_retry_example =
    process_file_retry describe true (file_run 7) tried_db "a_transformed.json" (some file_lines)
      refl refl refl refl

process_file_first_example :
    process_file describe false
      (file_run 8)
      ((process_file describe false (file_run 7) empty_db "a_transformed.json" (some file_lines)).0)
      "a_transformed.json"
      none
    ≡ (
      (process_file describe false (file_run 7) empty_db "a_transformed.json" (some file_lines)).0,
      ok (record no_stats { files_skipped = 1 }),
    )
unfolding record_etl_start record_etl_event_start check_idempotency is_file_processed
    stream_and_process_file stream_lines upsert_batch update_asteroid upsert_asteroids
    insert_approaches
process_file_first_example =
    process_file_first describe false (file_run 7) (file_run 8) empty_db
      ((stream_and_process_file (file_run 7)
        (record_etl_start (file_run 7) empty_db "a_transformed.json") (some file_lines)).0)
      "a_transformed.json" (some file_lines) none loaded_stats refl refl (refl, refl, refl) refl
      refl
