-- ===== src/Load/Files.antt =====
-- The files of a load and the command itself, src/cli/load.rs.
use rustroid_sentinel.Prelude.{
  ℕ, ◌+◌, String, Bool, false, not, ◌&&◌, Option, none, some, List, [], ◌∷◌, ◌++◌, ◌==◌,
  if◌then◌else◌, length, Result, ok, err,
}
use rustroid_sentinel.Models.{Uuid}
use rustroid_sentinel.Database.{Db, SqlError}
use rustroid_sentinel.Database.Events.{
  is_file_processed, record_etl_event_start, record_etl_event_complete, record_etl_event_failed,
}
use rustroid_sentinel.Database.Upsert.{UpsertStats}
use rustroid_sentinel.Database.HazardEvents.{HazardEvent}
use rustroid_sentinel.Load.{Line, FileRun, LoadError, Loaded, stream_and_process_file}

pub record LoadStats : Type 0 where
  pub files_processed : ℕ
  pub files_skipped : ℕ
  pub total_asteroids_upserted : ℕ
  pub total_approaches_inserted : ℕ
  pub total_approaches_skipped : ℕ
  pub new_hazard_events : List HazardEvent
  pub new_asteroid_ids : List Uuid

abbrev pub no_stats : LoadStats
no_stats = record {
  files_processed = 0;
  files_skipped = 0;
  total_asteroids_upserted = 0;
  total_approaches_inserted = 0;
  total_approaches_skipped = 0;
  new_hazard_events = [];
  new_asteroid_ids = [];
}

abbrev pub merge : LoadStats → LoadStats → LoadStats
merge self other = record {
  files_processed = self.files_processed + other.files_processed;
  files_skipped = self.files_skipped + other.files_skipped;
  total_asteroids_upserted = self.total_asteroids_upserted + other.total_asteroids_upserted;
  total_approaches_inserted = self.total_approaches_inserted + other.total_approaches_inserted;
  total_approaches_skipped = self.total_approaches_skipped + other.total_approaches_skipped;
  new_hazard_events = self.new_hazard_events ++ other.new_hazard_events;
  new_asteroid_ids = self.new_asteroid_ids ++ other.new_asteroid_ids;
}

unfoldable pub check_idempotency : Bool → Db → String → Bool
check_idempotency down db file_name = elim (is_file_processed down db file_name) [
  | ok processed ↦ processed
  | err e ↦ false
]

-- The database after a request whose error is only logged.
abbrev pub or_unchanged : Db → Result SqlError Db → Db
or_unchanged db (ok db') = db'
or_unchanged db (err e) = db

unfoldable pub record_etl_start : FileRun → Db → String → Db
record_etl_start run db file_name =
    or_unchanged db (record_etl_event_start run.start_down db run.event_id file_name run.started_at)

unfoldable pub handle_load_success : FileRun → Db → UpsertStats → LoadStats → Db × LoadStats
handle_load_success run db upsert_stats stats = (
  or_unchanged db (
      record_etl_event_complete run.finish_down db run.event_id run.finished_at
        upsert_stats.asteroids_inserted upsert_stats.approaches_inserted),
  record stats {
    files_processed = stats.files_processed + 1;
    total_asteroids_upserted =
        stats.total_asteroids_upserted
        + (upsert_stats.asteroids_inserted + upsert_stats.asteroids_updated);
    total_approaches_inserted = stats.total_approaches_inserted + upsert_stats.approaches_inserted;
    total_approaches_skipped = stats.total_approaches_skipped + upsert_stats.approaches_skipped;
    new_hazard_events = stats.new_hazard_events ++ upsert_stats.new_hazard_events;
    new_asteroid_ids = stats.new_asteroid_ids ++ upsert_stats.newly_inserted_asteroid_ids;
  },
)

pub record LoadSettings : Type 0 where
  pub internal_events_url : Option String
  pub internal_event_token : Option String
  pub client_builds : Bool
  pub connects : Bool
  pub migrates : Bool

-- The request that is posted, if one is; what comes of it is only logged.
unfoldable pub publish_hazard_events :
    LoadSettings → List HazardEvent → Option (String × List HazardEvent)
publish_hazard_events settings [] = none
publish_hazard_events settings (e ∷ events) = elim settings.internal_events_url [
  | none ↦ none
  | some url ↦ elim settings.internal_event_token [
    | none ↦ none
    | some token ↦ if settings.client_builds then some (url, e ∷ events) else none
  ]
]

pub data ExecuteError : Type 0 where
  input_missing connect_failed migrate_failed : ExecuteError

pub record LoadArgs : Type 0 where
  pub input_exists : Bool
  pub force : Bool
  pub dry_run : Bool

-- The loop over the results of the tasks: a failed file is only logged.
abbrev pub merge_result : LoadStats → Result LoadError LoadStats → LoadStats
merge_result stats (ok file_stats) = merge stats file_stats
merge_result stats (err e) = stats

module _ (describe : LoadError → String) where
  unfoldable pub handle_load_failure : FileRun → Db → LoadError → Db
  handle_load_failure run db e =
      or_unchanged db
        (record_etl_event_failed run.finish_down db run.event_id run.finished_at (describe e))

  -- How the loaded file is recorded.
  abbrev pub settle : FileRun → Loaded → Db × Result LoadError LoadStats
  settle run (db, ok s) =
      let (db', stats) = handle_load_success run db s no_stats in (db', ok stats)
  settle run (db, err e) = (handle_load_failure run db e, err e)

  unfoldable pub process_file :
      Bool → FileRun → Db → String → Option (List Line) → Db × Result LoadError LoadStats
  process_file force run db file_name file =
      if not force && check_idempotency run.check_down db file_name
      then (db, ok (record no_stats { files_skipped = 1 }))
      else settle run (stream_and_process_file run (record_etl_start run db file_name) file)

  unfoldable pub run_files :
      Bool → Db → LoadStats → List (FileRun × String × Option (List Line)) → Db × LoadStats
  unfolding process_file
  run_files force db stats [] = (db, stats)
  run_files force db stats ((run, file_name, file) ∷ files) =
      let (db', r) = process_file force run db file_name file in
      run_files force db' (merge_result stats r) files

  -- The database, the result and the request that is posted.
  unfoldable pub execute :
      LoadArgs
      → LoadSettings
      → Db
      → List (FileRun × String × Option (List Line))
      → Db × Result ExecuteError (List Uuid) × Option (String × List HazardEvent)
  execute args settings db files =
      let (db', stats) = run_files args.force db no_stats files in
      if not args.input_exists
      then (db, err input_missing, none)
      else if length files == 0
      then (db, ok [], none)
      else if args.dry_run
      then (db, ok [], none)
      else if not settings.connects
      then (db, err connect_failed, none)
      else if not settings.migrates
      then (db, err migrate_failed, none)
      else (db', ok stats.new_asteroid_ids, publish_hazard_events settings stats.new_hazard_events)
