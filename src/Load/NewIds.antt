-- ===== src/Load/NewIds.antt =====
-- The ids of the new asteroids that a load returns, src/cli/load.rs.
use rustroid_sentinel.Prelude.{
  ℕ, zero, suc, ◌+◌, ◌*◌, ◌<◌, ◌≡◌, inl, inr, refl, List, [], ◌∷◌, arith, Bool-cases, ◌==◌, length,
  length-append, ok, err,
}
use mathlib.Core.Path.{subst}
use rustroid_sentinel.Models.{AsteroidRecord}
use rustroid_sentinel.Database.{Db}
use rustroid_sentinel.Database.Upsert.{UpsertStats}
use rustroid_sentinel.Load.{
  Line, FileRun, Loaded, no_upserts, add_full_batch, finish_stream, stream_lines,
}
use rustroid_sentinel.Load.Stream.{Streamed, stream_lines-Streamed}
use rustroid_sentinel.Load.Counts.{records}

-- `m` full batches hold the records that the batch and the lines still have.
abbrev FillBatches : ℕ → ℕ → List AsteroidRecord → List Line → Type 0
FillBatches limit m batch lines =
    (length batch < limit) × (length batch + length (records lines) ≡ m * limit)

abbrev LosesIds : UpsertStats → Loaded → Type 0
LosesIds total (db', err e) = Unit
LosesIds total (db', ok s) = s.newly_inserted_asteroid_ids ≡ total.newly_inserted_asteroid_ids

finish_stream-LosesIds :
    (limit m : ℕ) (run : FileRun) (k : ℕ) (db : Db) (total : UpsertStats)
    (batch : List AsteroidRecord) (n : ℕ)
    → FillBatches limit m batch []
    → LosesIds total (finish_stream run k db total batch n)
finish_stream-LosesIds limit m run k db total [] n h = elim (Bool-cases (n == 0)) [
  | inl empty ↦ rw (empty, LosesIds) tt
  | inr some_records ↦ rw (some_records, LosesIds) refl
]
finish_stream-LosesIds limit zero run k db total (r ∷ batch) n h = absurd (omega (arith, h.1))
finish_stream-LosesIds limit (suc m) run k db total (r ∷ batch) n h =
    absurd (omega (arith, h.0, h.1))

Streamed-LosesIds :
    {limit : ℕ} {run : FileRun} {k : ℕ} {db : Db} {total : UpsertStats}
    {batch : List AsteroidRecord} {n : ℕ} {lines : List Line} {out : Loaded}
    → Streamed limit run k db total batch n lines out
    → (m : ℕ) → FillBatches limit m batch lines
    → LosesIds total out
Streamed-LosesIds {limit = limit} {run = run}
      (Streamed.finished {k = k} {db = db} {total = total} {batch = batch} {n = n}) m h =
    finish_stream-LosesIds limit m run k db total batch n h
Streamed-LosesIds Streamed.broken m h = tt
Streamed-LosesIds (Streamed.skip_blank rest) m h = Streamed-LosesIds rest m h
Streamed-LosesIds (Streamed.skip_malformed rest) m h = Streamed-LosesIds rest m h
Streamed-LosesIds (Streamed.push {batch = batch} r small rest) m h =
    Streamed-LosesIds rest m (
      ground (arith, length-append batch (r ∷ [])),
      omega (arith, h.1, length-append batch (r ∷ [])),
    )
Streamed-LosesIds (Streamed.reject r e large failed) m h = tt
Streamed-LosesIds {out = out}
      (Streamed.flush {total = total} {batch = batch} {lines = lines} r s large done rest) zero h =
    absurd (omega (arith, h.1))
Streamed-LosesIds {limit = limit} {out = out}
      (Streamed.flush {total = total} {batch = batch} {lines = lines} r s large done rest) (suc m)
      h =
    same out (
      Streamed-LosesIds rest m
        (omega (arith, h.0), ground (arith, h.0, h.1, length-append batch (r ∷ []))))
  where
    same : (o : Loaded) → LosesIds (add_full_batch total s) o → LosesIds total o
    same (db', ok s') i = i
    same (db', err e) i = tt

-- When the number of records of the lines is a multiple of the batch limit, which is 1000 in
-- `stream_and_process_file`, the loop that succeeds names no new asteroid, however many it has
-- inserted.
pub stream_lines_loses_ids :
    (limit : ℕ) (run : FileRun) (db db' : Db) (lines : List Line) (s : UpsertStats) (m : ℕ)
    → 0 < limit
    → length (records lines) ≡ m * limit
    → stream_lines limit run 0 db no_upserts [] 0 lines ≡ (db', ok s)
    → s.newly_inserted_asteroid_ids ≡ []
stream_lines_loses_ids limit run db db' lines s m some_room full e = subst (LosesIds no_upserts) e (
    Streamed-LosesIds (stream_lines-Streamed limit run 0 db no_upserts [] 0 lines) m
      (omega arith, omega (arith, full)))
