-- ===== src/Load.antt =====
-- The `load` subcommand, src/cli/load.rs.
--
-- A file is its lines as the reader and serde_json give them. The clock, the fresh id and the
-- requests that fail are fields of `FileRun`. The tasks of the files are run one after another, in
-- the order of their completion, which is any order.
pub mod Files
pub mod Stream
pub mod Counts
pub mod NewIds
pub mod Publish
pub mod Status
use rustroid_sentinel.Prelude.{
  ℕ, zero, suc, ◌+◌, String, Bool, true, false, not, ◌&&◌, Option, none, some, List, [], ◌∷◌, ◌++◌,
  leb, ◌==◌, if◌then◌else◌, length, Result, ok, err,
}
use rustroid_sentinel.Models.{Uuid, DateTime, AsteroidRecord}
use rustroid_sentinel.Database.{Db, SqlError}
use rustroid_sentinel.Database.Events.{
  is_file_processed, record_etl_event_start, record_etl_event_complete, record_etl_event_failed,
}
use rustroid_sentinel.Database.Upsert.{UpsertStats, Faults, upsert_batch}
use rustroid_sentinel.Database.HazardEvents.{HazardEvent}

-- A line: reading fails, it is blank, it is no record, or it is one.
pub data Line : Type 0 where
  unreadable blank malformed : Line
  parsed : AsteroidRecord → Line

pub data LoadError : Type 0 where
  open_failed read_failed no_valid_records : LoadError
  upsert_failed : SqlError → LoadError

-- What one file meets: its clock, its fresh id, and the requests that fail. Batch `k` of the file
-- runs at `batch_now k` and meets `batch_faults k`.
pub record FileRun : Type 0 where
  pub event_id : Uuid
  pub started_at : DateTime
  pub finished_at : DateTime
  pub batch_now : ℕ → DateTime
  pub batch_faults : ℕ → Faults
  pub check_down : Bool
  pub start_down : Bool
  pub finish_down : Bool

abbrev pub no_upserts : UpsertStats
no_upserts = record {
  asteroids_inserted = 0;
  asteroids_updated = 0;
  approaches_inserted = 0;
  approaches_skipped = 0;
  new_hazard_events = [];
  newly_inserted_asteroid_ids = [];
}

-- What a full batch adds to `total_stats`.
abbrev pub add_full_batch : UpsertStats → UpsertStats → UpsertStats
add_full_batch total s = record total {
  asteroids_inserted = total.asteroids_inserted + s.asteroids_inserted;
  asteroids_updated = total.asteroids_updated + s.asteroids_updated;
  approaches_inserted = total.approaches_inserted + s.approaches_inserted;
  approaches_skipped = total.approaches_skipped + s.approaches_skipped;
}

-- What the remaining records add.
abbrev pub add_final_batch : UpsertStats → UpsertStats → UpsertStats
add_final_batch total s = record (add_full_batch total s) {
  newly_inserted_asteroid_ids = total.newly_inserted_asteroid_ids ++ s.newly_inserted_asteroid_ids;
}

abbrev pub Loaded : Type 0
Loaded = Db × Result LoadError UpsertStats

-- After the loop.
abbrev pub finish_stream : FileRun → ℕ → Db → UpsertStats → List AsteroidRecord → ℕ → Loaded
finish_stream run k db total [] record_count =
    if record_count == 0 then (db, err no_valid_records) else (db, ok total)
finish_stream run k db total (r ∷ batch) record_count =
    let (db', r') = upsert_batch (run.batch_now k) (run.batch_faults k) db (r ∷ batch) in
    elim r' [
      | err e ↦ (db', err (upsert_failed e))
      | ok s ↦
          if record_count == 0
          then (db', err no_valid_records)
          else (db', ok (add_final_batch total s))
    ]

-- The loop over the lines, for batches of `limit` records: `k` batches are done, `batch` holds the
-- records since.
unfoldable pub stream_lines :
    ℕ → FileRun → ℕ → Db → UpsertStats → List AsteroidRecord → ℕ → List Line → Loaded
stream_lines limit run k db total batch record_count [] =
    finish_stream run k db total batch record_count
stream_lines limit run k db total batch record_count (unreadable ∷ lines) = (db, err read_failed)
stream_lines limit run k db total batch record_count (blank ∷ lines) =
    stream_lines limit run k db total batch record_count lines
stream_lines limit run k db total batch record_count (malformed ∷ lines) =
    stream_lines limit run k db total batch record_count lines
stream_lines limit run k db total batch record_count (parsed r ∷ lines) =
    let full = batch ++ r ∷ [] in
    let (db', r') = upsert_batch (run.batch_now k) (run.batch_faults k) db full in
    elim (leb limit (length full)) [
      | false ↦ stream_lines limit run k db total full (record_count + 1) lines
      | true ↦ elim r' [
        | err e ↦ (db', err (upsert_failed e))
        | ok s ↦
            stream_lines limit run (k + 1) db' (add_full_batch total s) [] (record_count + 1) lines
      ]
    ]

-- No file: it cannot be opened.
unfoldable pub stream_and_process_file : FileRun → Db → Option (List Line) → Loaded
unfolding stream_lines
stream_and_process_file run db none = (db, err open_failed)
stream_and_process_file run db (some lines) = stream_lines 1000 run 0 db no_upserts [] 0 lines
