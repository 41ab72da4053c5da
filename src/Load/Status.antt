-- ===== src/Load/Status.antt =====
-- What `etl_events` says of a file after its load, src/cli/load.rs.
use rustroid_sentinel.Prelude.{
  ℕ, ◌≡◌, inl, inr, refl, ap, sym, ◌∙◌, String, Bool, true, false, not, ◌&&◌, ◌||◌, Option, none,
  some, List, [], ◌∷◌, ◌++◌, arith, Bool-cases, ◌==◌, ==_self, any, map, str_eq, str_eq_iff, Result,
  ok, err, Result-cases,
}
use rustroid_sentinel.Models.{Uuid, DateTime, AsteroidRecord, as_str}
use rustroid_sentinel.Database.{Db, EtlEvent, SqlError}
use rustroid_sentinel.Database.Events.{
  record_etl_event_start, record_etl_event_complete, record_etl_event_failed, is_file_processed,
  is_completed, restart, started_event, complete, fail,
}
use rustroid_sentinel.Database.Upsert.{Faults, UpsertStats, upsert_batch}
use rustroid_sentinel.Database.Upsert.Counts.{upsert_batch_atomic}
use rustroid_sentinel.Load.{
  Line, FileRun, LoadError, Loaded, no_upserts, finish_stream, stream_and_process_file,
}
use rustroid_sentinel.Load.Files.{
  no_stats, settle, handle_load_success, handle_load_failure, check_idempotency, record_etl_start,
  process_file,
}
use rustroid_sentinel.Load.Stream.{Streamed, stream_lines-Streamed}

upsert_batch-events :
    (now : DateTime) (faults : Faults) (db : Db) (batch : List AsteroidRecord)
    → (upsert_batch now faults db batch).0.etl_events ≡ db.etl_events
upsert_batch-events now faults db batch = elim (upsert_batch_atomic now faults db batch) [
  | inl (e, failed) ↦ ap (λ (p : Db × Result SqlError UpsertStats). p.0.etl_events) failed
  | inr (inl c) ↦ ap (λ (p : Db × Result SqlError UpsertStats). p.0.etl_events) c.lost
  | inr (inr c) ↦ ap (λ (p : Db × Result SqlError UpsertStats). p.0.etl_events) c.result
]

finish_stream-events :
    (run : FileRun) (k : ℕ) (db : Db) (total : UpsertStats) (batch : List AsteroidRecord) (n : ℕ)
    → (finish_stream run k db total batch n).0.etl_events ≡ db.etl_events
finish_stream-events run k db total [] n = elim (Bool-cases (n == 0)) [
  | inl empty ↦ rw empty refl
  | inr some_records ↦ rw some_records refl
]
finish_stream-events run k db total (r ∷ batch) n =
    let same = upsert_batch-events (run.batch_now k) (run.batch_faults k) db (r ∷ batch) in
    elim (Result-cases ((upsert_batch (run.batch_now k) (run.batch_faults k) db (r ∷ batch)).1)) [
      | inr (e, failed) ↦ rw (finish_stream, failed) same
      | inl (s, done) ↦ elim (Bool-cases (n == 0)) [
        | inl empty ↦ rw (finish_stream, done, empty) same
        | inr some_records ↦ rw (finish_stream, done, some_records) same
      ]
    ]

Streamed-events :
    {limit : ℕ} {run : FileRun} {k : ℕ} {db : Db} {total : UpsertStats}
    {batch : List AsteroidRecord} {n : ℕ} {lines : List Line} {out : Loaded}
    → Streamed limit run k db total batch n lines out
    → out.0.etl_events ≡ db.etl_events
Streamed-events {run = run}
      (Streamed.finished {k = k} {db = db} {total = total} {batch = batch} {n = n}) =
    finish_stream-events run k db total batch n
Streamed-events Streamed.broken = refl
Streamed-events (Streamed.skip_blank rest) = Streamed-events rest
Streamed-events (Streamed.skip_malformed rest) = Streamed-events rest
Streamed-events (Streamed.push r small rest) = Streamed-events rest
Streamed-events {run = run} (Streamed.reject {k = k} {db = db} {batch = batch} r e large failed) =
    upsert_batch-events (run.batch_now k) (run.batch_faults k) db (batch ++ r ∷ [])
Streamed-events {run = run} (Streamed.flush {k = k} {db = db} {batch = batch} r s large done rest) =
    Streamed-events rest
    ∙ upsert_batch-events (run.batch_now k) (run.batch_faults k) db (batch ++ r ∷ [])

stream_and_process_file-events :
    (run : FileRun) (db : Db) (file : Option (List Line))
    → (stream_and_process_file run db file).0.etl_events ≡ db.etl_events
unfolding stream_and_process_file
stream_and_process_file-events run db none = refl
stream_and_process_file-events run db (some lines) =
    Streamed-events (stream_lines-Streamed 1000 run 0 db no_upserts [] 0 lines)

or_false : (a b : Bool) → (a || b) ≡ false → (a ≡ false) × (b ≡ false)
or_false true b g = ground arith
or_false false b g = (refl, g)

abbrev has_id : Uuid → EtlEvent → Bool
has_id event_id e = e.id == event_id

abbrev is_of : String → EtlEvent → Bool
is_of file_name e = str_eq e.source_file file_name

-- No event of the file is completed, and no event has the id.
abbrev IsOpen : String → Uuid → List EtlEvent → Type 0
IsOpen file_name event_id events =
    (any (is_completed file_name) events ≡ false) × (any (has_id event_id) events ≡ false)

restart-IsOpen :
    (started_at : DateTime) (file_name : String) (event_id : Uuid) (events : List EtlEvent)
    → any (has_id event_id) events ≡ false
    → IsOpen file_name event_id (map (restart started_at file_name) events)
unfolding as_str
restart-IsOpen started_at file_name event_id [] h = (refl, refl)
restart-IsOpen started_at file_name event_id (e ∷ events) h =
    let (other, rest) = or_false (has_id event_id e) (any (has_id event_id) events) h in
    let ih = restart-IsOpen started_at file_name event_id events rest in
    elim (Bool-cases (str_eq e.source_file file_name)) [
      | inl same ↦ rw (same, ih.0, ih.1, other) (rw same refl, refl)
      | inr apart ↦ rw (apart, ih.0, ih.1, other) (rw apart refl, refl)
    ]

-- An update by an id that no event has changes nothing.
complete_absent :
    (event_id : Uuid) (now : DateTime) (a b : ℕ) (events : List EtlEvent)
    → any (has_id event_id) events ≡ false
    → map (complete event_id now a b) events ≡ events
complete_absent event_id now a b [] h = refl
complete_absent event_id now a b (e ∷ events) h =
    let (other, rest) = or_false (has_id event_id e) (any (has_id event_id) events) h in
    rw (other, complete_absent event_id now a b events rest) refl

fail_absent :
    (event_id : Uuid) (now : DateTime) (message : String) (events : List EtlEvent)
    → any (has_id event_id) events ≡ false
    → map (fail event_id now message) events ≡ events
fail_absent event_id now message [] h = refl
fail_absent event_id now message (e ∷ events) h =
    let (other, rest) = or_false (has_id event_id e) (any (has_id event_id) events) h in
    rw (other, fail_absent event_id now message events rest) refl

module _ (describe : LoadError → String) where
  settle-absent :
      (run : FileRun) (out : Loaded)
      → any (has_id run.event_id) out.0.etl_events ≡ false
      → (settle describe run out).0.etl_events ≡ out.0.etl_events
  unfolding handle_load_success handle_load_failure record_etl_event_complete
      record_etl_event_failed
  settle-absent run (db, ok s) h = elim (Bool-cases run.finish_down) [
    | inl down ↦ rw down refl
    | inr up ↦
        rw
          (
            up,
            complete_absent run.event_id run.finished_at s.asteroids_inserted s.approaches_inserted
                db.etl_events h,
          )
          refl
  ]
  settle-absent run (db, err e) h = elim (Bool-cases run.finish_down) [
    | inl down ↦ rw down refl
    | inr up ↦ rw (up, fail_absent run.event_id run.finished_at (describe e) db.etl_events h) refl
  ]

  -- When `etl_events` has an event of the file, from whatever run, and none with the fresh id of
  -- this one, a load of the file that is not skipped and whose start is recorded leaves the file
  -- not processed, whatever comes of the load. So a load that is forced, or that follows a failed
  -- one, is never recorded as completed, and the next load does not skip the file.
  pub process_file_retry :
      (force : Bool) (run : FileRun) (db : Db) (file_name : String) (file : Option (List Line))
      → any (is_of file_name) db.etl_events ≡ true
      → any (has_id run.event_id) db.etl_events ≡ false
      → run.start_down ≡ false
      → (not force && check_idempotency run.check_down db file_name) ≡ false
      → check_idempotency false ((process_file describe force run db file_name file).0) file_name
        ≡ false
  unfolding process_file check_idempotency is_file_processed record_etl_start record_etl_event_start
  process_file_retry force run db file_name file known fresh up loaded =
      let started = record db {
        etl_events = map (restart run.started_at file_name) db.etl_events;
      } in
      let (not_completed, absent) =
        restart-IsOpen run.started_at file_name run.event_id db.etl_events fresh in
      let kept = stream_and_process_file-events run started file in
      let recorded : record_etl_start run db file_name ≡ started = rw (up, known) refl in
      let settled = settle-absent run (stream_and_process_file run started file) (rw kept absent) in
      rw (loaded, recorded, settled, kept) not_completed

  process_file-skips :
      (run : FileRun) (db : Db) (file_name : String) (file : Option (List Line))
      → check_idempotency run.check_down db file_name ≡ true
      → process_file describe false run db file_name file
        ≡ (db, ok (record no_stats { files_skipped = 1 }))
  unfolding process_file
  process_file-skips run db file_name file processed = rw processed refl

  -- A load of a file that has no event yet, under a fresh id, whose start and end are recorded and
  -- whose lines are loaded without an error, leaves the file processed: the next load without
  -- `--force` that can check this skips the file and changes nothing.
  pub process_file_first :
      (force : Bool) (run next : FileRun) (db db' : Db) (file_name : String)
      (file later : Option (List Line)) (s : UpsertStats)
      → any (is_of file_name) db.etl_events ≡ false
      → any (has_id run.event_id) db.etl_events ≡ false
      → (run.start_down ≡ false) × (run.finish_down ≡ false) × (next.check_down ≡ false)
      → (not force && check_idempotency run.check_down db file_name) ≡ false
      → stream_and_process_file run (record_etl_start run db file_name) file ≡ (db', ok s)
      → let loaded = (process_file describe force run db file_name file).0 in
        process_file describe false next loaded file_name later
        ≡ (loaded, ok (record no_stats { files_skipped = 1 }))
  unfolding process_file check_idempotency is_file_processed record_etl_start record_etl_event_start
      handle_load_success record_etl_event_complete as_str
  process_file_first force run next db db' file_name file later s new fresh up notskipped done =
      let event = started_event run.event_id file_name run.started_at in
      let recorded : record_etl_start run db file_name
          ≡ record db { etl_events = event ∷ db.etl_events } =
        rw (up.0, new, fresh) refl in
      let kept : db'.etl_events ≡ event ∷ db.etl_events =
        ap (λ (p : Loaded). p.0.etl_events) (sym done)
        ∙ stream_and_process_file-events run (record_etl_start run db file_name) file
        ∙ ap (λ (d : Db). d.etl_events) recorded in
      let loaded : (process_file describe force run db file_name file).0.etl_events
          ≡ map (complete run.event_id run.finished_at s.asteroids_inserted s.approaches_inserted)
              (event ∷ db.etl_events) =
        rw (process_file, notskipped, done, up.1, kept) refl in
      process_file-skips next ((process_file describe force run db file_name file).0) file_name
        later
        (rw (up.2, loaded, ==_self run.event_id, (str_eq_iff file_name file_name).1 refl) refl)
