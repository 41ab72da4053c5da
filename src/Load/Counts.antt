-- ===== src/Load/Counts.antt =====
-- What a run of `stream_and_process_file` of src/cli/load.rs counts and keeps.
use rustroid_sentinel.Prelude.{
  ℕ, ◌+◌, ◌≡◌, inl, inr, refl, ap, sym, some, List, [], ◌∷◌, ◌++◌, arith, Bool-cases, ◌==◌, length,
  length-append, ok, err, Result-cases,
}
use mathlib.Core.Path.{subst}
use rustroid_sentinel.Models.{DateTime, AsteroidRecord}
use rustroid_sentinel.Database.{Db}
use rustroid_sentinel.Database.Upsert.{UpsertStats, upsert_batch, all_approaches, Faults}
use rustroid_sentinel.Database.Upsert.Counts.{all_approaches-append, upsert_batch_counts}
use rustroid_sentinel.Load.{
  Line, unreadable, blank, malformed, parsed, FileRun, Loaded, no_upserts, add_full_batch,
  add_final_batch, finish_stream, stream_and_process_file,
}
use rustroid_sentinel.Load.Stream.{Streamed, stream_lines-Streamed}

-- The records of a file's lines.
abbrev pub records : List Line → List AsteroidRecord
records [] = []
records (unreadable ∷ lines) = records lines
records (blank ∷ lines) = records lines
records (malformed ∷ lines) = records lines
records (parsed r ∷ lines) = r ∷ records lines

-- What is left to count when `batch` and the records of `lines` are still to be upserted.
abbrev Counts : Db → UpsertStats → List AsteroidRecord → List Line → Loaded → Type 0
Counts db total batch lines (db', err e) = Unit
Counts db total batch lines (db', ok s) =
    (s.asteroids_inserted + s.asteroids_updated
      ≡ total.asteroids_inserted
        + total.asteroids_updated
        + (length batch + length (records lines)))
    × (s.approaches_inserted + s.approaches_skipped
        ≡ total.approaches_inserted
          + total.approaches_skipped
          + (length (all_approaches batch) + length (all_approaches (records lines))))
    × (length db'.asteroids + total.asteroids_inserted ≡ length db.asteroids + s.asteroids_inserted)
    × (length db'.approaches + total.approaches_inserted
        ≡ length db.approaches + s.approaches_inserted)

Batched : DateTime → Faults → Db → List AsteroidRecord → UpsertStats → Type 0
Batched now faults db batch s =
    let db' = (upsert_batch now faults db batch).0 in
    (s.asteroids_inserted + s.asteroids_updated ≡ length batch)
    × (s.approaches_inserted + s.approaches_skipped ≡ length (all_approaches batch))
    × (length s.newly_inserted_asteroid_ids ≡ s.asteroids_inserted)
    × (length db'.asteroids ≡ length db.asteroids + s.asteroids_inserted)
    × (length db'.approaches ≡ length db.approaches + s.approaches_inserted)

batch_counts :
    (now : DateTime) (faults : Faults) (db : Db) (batch : List AsteroidRecord) (s : UpsertStats)
    → (upsert_batch now faults db batch).1 ≡ ok s
    → Batched now faults db batch s
unfolding Batched
batch_counts now faults db batch s e =
    upsert_batch_counts now faults db batch ((upsert_batch now faults db batch).0) s
      (ap (λ r. ((upsert_batch now faults db batch).0, r)) e)

finish_stream-Counts :
    (run : FileRun) (k : ℕ) (db : Db) (total : UpsertStats) (batch : List AsteroidRecord) (n : ℕ)
    → Counts db total batch [] (finish_stream run k db total batch n)
unfolding Batched
finish_stream-Counts run k db total [] n = elim (Bool-cases (n == 0)) [
  | inl empty ↦ rw (empty, Counts) tt
  | inr some_records ↦
      let e : finish_stream run k db total [] n ≡ (db, ok total) = rw some_records refl in
      subst (Counts db total [] []) (sym e) (omega arith, omega arith, refl, refl)
]
finish_stream-Counts run k db total (r ∷ batch) n =
    let (db', r') = upsert_batch (run.batch_now k) (run.batch_faults k) db (r ∷ batch) in
    elim (Result-cases r') [
      | inr (e, failed) ↦ rw (failed, Counts) tt
      | inl (s, done) ↦
          let c = batch_counts (run.batch_now k) (run.batch_faults k) db (r ∷ batch) s done in
          elim (Bool-cases (n == 0)) [
            | inl empty ↦ rw (done, empty, Counts) tt
            | inr some_records ↦
                let e : finish_stream run k db total (r ∷ batch) n
                    ≡ (db', ok (add_final_batch total s)) =
                  rw (finish_stream, done, some_records) refl in
                subst (Counts db total (r ∷ batch) []) (sym e)
                  (omega arith, omega arith, omega arith, omega arith)
          ]
    ]

-- What a step reads into the batch is no longer in the lines.
Counts-push :
    (db : Db) (total : UpsertStats) (batch : List AsteroidRecord) (r : AsteroidRecord)
    (lines : List Line) (out : Loaded)
    → Counts db total (batch ++ r ∷ []) lines out
    → Counts db total batch (parsed r ∷ lines) out
Counts-push db total batch r lines (db', err e) h = tt
Counts-push db total batch r lines (db', ok s) h = (
  omega (arith, h.0, length-append batch (r ∷ [])),
  omega (
    arith,
    h.1,
    all_approaches-append batch (r ∷ []),
    length-append r.approaches [],
    length-append r.approaches (all_approaches (records lines)),
  ),
  h.2,
  h.3,
)

Counts-flush :
    (now : DateTime) (faults : Faults) (db : Db) (total s : UpsertStats)
    (batch : List AsteroidRecord) (lines : List Line) (out : Loaded)
    → Batched now faults db batch s
    → Counts ((upsert_batch now faults db batch).0) (add_full_batch total s) [] lines out
    → Counts db total batch lines out
unfolding Batched
Counts-flush now faults db total s batch lines (db', err e) c h = tt
Counts-flush now faults db total s batch lines (db', ok s') c h =
    (omega arith, omega arith, omega arith, omega arith)

Streamed-Counts :
    {limit : ℕ} {run : FileRun} {k : ℕ} {db : Db} {total : UpsertStats}
    {batch : List AsteroidRecord} {n : ℕ} {lines : List Line} {out : Loaded}
    → Streamed limit run k db total batch n lines out
    → Counts db total batch lines out
Streamed-Counts {run = run}
      (Streamed.finished {k = k} {db = db} {total = total} {batch = batch} {n = n}) =
    finish_stream-Counts run k db total batch n
Streamed-Counts Streamed.broken = tt
Streamed-Counts {out = (db', ok s)} (Streamed.skip_blank rest) = Streamed-Counts rest
Streamed-Counts {out = (db', err e)} (Streamed.skip_blank rest) = tt
Streamed-Counts {out = (db', ok s)} (Streamed.skip_malformed rest) = Streamed-Counts rest
Streamed-Counts {out = (db', err e)} (Streamed.skip_malformed rest) = tt
Streamed-Counts
      (Streamed.push {db = db} {total = total} {batch = batch} {lines = lines} {out = out} r small
        rest) =
    Counts-push db total batch r lines out (Streamed-Counts rest)
Streamed-Counts (Streamed.reject r e large failed) = tt
Streamed-Counts {run = run}
      (Streamed.flush {k = k} {db = db} {total = total} {batch = batch} {lines = lines} {out = out}
        r s large done rest) =
    let full = batch ++ r ∷ [] in
    Counts-push db total batch r lines out (
      Counts-flush (run.batch_now k) (run.batch_faults k) db total s full lines out
        (batch_counts (run.batch_now k) (run.batch_faults k) db full s done) (Streamed-Counts rest))

-- When the lines of a file are loaded without an error, each record among them is counted once, as
-- inserted or as updated, and each approach of theirs once, as inserted or as skipped; and the
-- tables have grown by the rows counted as inserted. So no record is lost between two batches.
pub stream_and_process_file_counts :
    (run : FileRun) (db db' : Db) (lines : List Line) (s : UpsertStats)
    → stream_and_process_file run db (some lines) ≡ (db', ok s)
    → (s.asteroids_inserted + s.asteroids_updated ≡ length (records lines))
      × (s.approaches_inserted + s.approaches_skipped ≡ length (all_approaches (records lines)))
      × (length db'.asteroids ≡ length db.asteroids + s.asteroids_inserted)
      × (length db'.approaches ≡ length db.approaches + s.approaches_inserted)
unfolding stream_and_process_file
stream_and_process_file_counts run db db' lines s e =
    let c =
      subst (Counts db no_upserts [] lines) e
        (Streamed-Counts (stream_lines-Streamed 1000 run 0 db no_upserts [] 0 lines)) in
    (omega arith, omega arith, omega arith, omega arith)
