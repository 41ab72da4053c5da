-- ===== src/Load/Publish.antt =====
-- What a load reports to its caller and to the dashboard, src/cli/load.rs.
use rustroid_sentinel.Prelude.{
  ℕ, ◌≡◌, inl, inr, refl, String, Bool, not, ◌&&◌, Option, none, some, List, [], ◌∷◌, arith,
  Bool-cases, ◌==◌, Result, ok, err, Result-cases,
}
use rustroid_sentinel.Models.{AsteroidRecord}
use rustroid_sentinel.Database.{Db}
use rustroid_sentinel.Database.Upsert.{UpsertStats, upsert_batch}
use rustroid_sentinel.Load.{
  Line, FileRun, LoadError, Loaded, no_upserts, finish_stream, stream_lines,
  stream_and_process_file,
}
use rustroid_sentinel.Load.Files.{
  LoadStats, LoadArgs, LoadSettings, no_stats, merge_result, settle, handle_load_success,
  check_idempotency, record_etl_start, process_file, run_files, execute, publish_hazard_events,
}
use rustroid_sentinel.Load.Stream.{Streamed, stream_lines-Streamed}

abbrev IsSilent : UpsertStats → Loaded → Type 0
IsSilent total (db', err e) = Unit
IsSilent total (db', ok s) = s.new_hazard_events ≡ total.new_hazard_events

finish_stream-IsSilent :
    (run : FileRun) (k : ℕ) (db : Db) (total : UpsertStats) (batch : List AsteroidRecord) (n : ℕ)
    → IsSilent total (finish_stream run k db total batch n)
finish_stream-IsSilent run k db total [] n = elim (Bool-cases (n == 0)) [
  | inl empty ↦ rw (empty, IsSilent) tt
  | inr some_records ↦ rw (some_records, IsSilent) refl
]
finish_stream-IsSilent run k db total (r ∷ batch) n =
    elim (Result-cases ((upsert_batch (run.batch_now k) (run.batch_faults k) db (r ∷ batch)).1)) [
      | inr (e, failed) ↦ rw (failed, IsSilent) tt
      | inl (s, done) ↦ elim (Bool-cases (n == 0)) [
        | inl empty ↦ rw (done, empty, IsSilent) tt
        | inr some_records ↦ rw (done, some_records, IsSilent) refl
      ]
    ]

Streamed-IsSilent :
    {limit : ℕ} {run : FileRun} {k : ℕ} {db : Db} {total : UpsertStats}
    {batch : List AsteroidRecord} {n : ℕ} {lines : List Line} {out : Loaded}
    → Streamed limit run k db total batch n lines out
    → IsSilent total out
Streamed-IsSilent {run = run}
      (Streamed.finished {k = k} {db = db} {total = total} {batch = batch} {n = n}) =
    finish_stream-IsSilent run k db total batch n
Streamed-IsSilent Streamed.broken = tt
Streamed-IsSilent (Streamed.skip_blank rest) = Streamed-IsSilent rest
Streamed-IsSilent (Streamed.skip_malformed rest) = Streamed-IsSilent rest
Streamed-IsSilent (Streamed.push r small rest) = Streamed-IsSilent rest
Streamed-IsSilent (Streamed.reject r e large failed) = tt
Streamed-IsSilent {out = (db', ok s')} (Streamed.flush r s large done rest) = Streamed-IsSilent rest
Streamed-IsSilent {out = (db', err e)} (Streamed.flush r s large done rest) = tt

abbrev HasNoEvents : Db × Result LoadError LoadStats → Type 0
HasNoEvents (db', err e) = Unit
HasNoEvents (db', ok stats) = stats.new_hazard_events ≡ []

module _ (describe : LoadError → String) where
  settle-HasNoEvents :
      (run : FileRun) (out : Loaded)
      → IsSilent no_upserts out
      → HasNoEvents (settle describe run out)
  unfolding handle_load_success
  settle-HasNoEvents run (db', ok s) h = h
  settle-HasNoEvents run (db', err e) h = tt

  process_file-HasNoEvents :
      (force : Bool) (run : FileRun) (db : Db) (file_name : String) (file : Option (List Line))
      → HasNoEvents (process_file describe force run db file_name file)
  unfolding process_file stream_and_process_file
  process_file-HasNoEvents force run db file_name none =
      elim (Bool-cases (not force && check_idempotency run.check_down db file_name)) [
        | inl skipped ↦ rw (skipped, HasNoEvents) refl
        | inr loaded ↦ rw (loaded, HasNoEvents) tt
      ]
  process_file-HasNoEvents force run db file_name (some lines) =
      elim (Bool-cases (not force && check_idempotency run.check_down db file_name)) [
        | inl skipped ↦ rw (skipped, HasNoEvents) refl
        | inr loaded ↦
            let started = record_etl_start run db file_name in
            rw (loaded) (
              settle-HasNoEvents run (stream_lines 1000 run 0 started no_upserts [] 0 lines) (
                Streamed-IsSilent (stream_lines-Streamed 1000 run 0 started no_upserts [] 0 lines)))
      ]

  merge_result-events :
      (stats : LoadStats) (db : Db) (r : Result LoadError LoadStats)
      → HasNoEvents (db, r)
      → stats.new_hazard_events ≡ []
      → (merge_result stats r).new_hazard_events ≡ []
  merge_result-events stats db (ok file_stats) h e = rw (e, h) refl
  merge_result-events stats db (err error) h e = e

  run_files-events :
      (force : Bool) (db : Db) (stats : LoadStats)
      (files : List (FileRun × String × Option (List Line)))
      → stats.new_hazard_events ≡ []
      → ((run_files describe force db stats files).1).new_hazard_events ≡ []
  unfolding run_files
  run_files-events force db stats [] e = e
  run_files-events force db stats ((run, file_name, file) ∷ files) e =
      let (db', r) = process_file describe force run db file_name file in
      run_files-events force db' (merge_result stats r) files
        (merge_result-events stats db' r (process_file-HasNoEvents force run db file_name file) e)

  -- Whatever it loads and however it is configured, a load posts nothing to the dashboard.
  pub execute_posts_nothing :
      (args : LoadArgs) (settings : LoadSettings) (db : Db)
      (files : List (FileRun × String × Option (List Line)))
      → (execute describe args settings db files).2 ≡ none
  unfolding execute publish_hazard_events
  execute_posts_nothing args settings db files =
      let e = run_files-events args.force db no_stats files refl in ground (arith, e)
