-- ===== src/Load/Stream.antt =====
-- The runs of `stream_and_process_file` of src/cli/load.rs as derivations, and what they count.
use rustroid_sentinel.Prelude.{
  ℕ, ◌+◌, ◌≡◌, inl, inr, true, false, List, [], ◌∷◌, ◌++◌, Bool-cases, leb, length, ok, err,
  Result-cases,
}
use rustroid_sentinel.Models.{AsteroidRecord}
use rustroid_sentinel.Database.{Db, SqlError}
use rustroid_sentinel.Database.Upsert.{UpsertStats, upsert_batch}
use rustroid_sentinel.Load.{
  Line, unreadable, blank, malformed, parsed, FileRun, read_failed, upsert_failed, Loaded,
  add_full_batch, finish_stream, stream_lines,
}

-- `Streamed limit run k db total batch n lines out`: the loop from this state on ends with `out`.
pub data Streamed (limit : ℕ) (run : FileRun)
    : ℕ → Db → UpsertStats → List AsteroidRecord → ℕ → List Line → Loaded → Type 0 where
  finished :
      {k : ℕ} {db : Db} {total : UpsertStats} {batch : List AsteroidRecord} {n : ℕ}
      → Streamed limit run k db total batch n [] (finish_stream run k db total batch n)
  broken :
      {k : ℕ} {db : Db} {total : UpsertStats} {batch : List AsteroidRecord} {n : ℕ}
      {lines : List Line}
      → Streamed limit run k db total batch n (unreadable ∷ lines) (db, err read_failed)
  skip_blank :
      {k : ℕ} {db : Db} {total : UpsertStats} {batch : List AsteroidRecord} {n : ℕ}
      {lines : List Line} {out : Loaded}
      → Streamed limit run k db total batch n lines out
      → Streamed limit run k db total batch n (blank ∷ lines) out
  skip_malformed :
      {k : ℕ} {db : Db} {total : UpsertStats} {batch : List AsteroidRecord} {n : ℕ}
      {lines : List Line} {out : Loaded}
      → Streamed limit run k db total batch n lines out
      → Streamed limit run k db total batch n (malformed ∷ lines) out
  push :
      {k : ℕ} {db : Db} {total : UpsertStats} {batch : List AsteroidRecord} {n : ℕ}
      {lines : List Line} {out : Loaded} (r : AsteroidRecord)
      → leb limit (length (batch ++ r ∷ [])) ≡ false
      → Streamed limit run k db total (batch ++ r ∷ []) (n + 1) lines out
      → Streamed limit run k db total batch n (parsed r ∷ lines) out
  reject :
      {k : ℕ} {db : Db} {total : UpsertStats} {batch : List AsteroidRecord} {n : ℕ}
      {lines : List Line} (r : AsteroidRecord) (e : SqlError)
      → leb limit (length (batch ++ r ∷ [])) ≡ true
      → (upsert_batch (run.batch_now k) (run.batch_faults k) db (batch ++ r ∷ [])).1 ≡ err e
      → Streamed limit run k db total batch n (parsed r ∷ lines) (
        (upsert_batch (run.batch_now k) (run.batch_faults k) db (batch ++ r ∷ [])).0,
        err (upsert_failed e),
      )
  flush :
      {k : ℕ} {db : Db} {total : UpsertStats} {batch : List AsteroidRecord} {n : ℕ}
      {lines : List Line} {out : Loaded} (r : AsteroidRecord) (s : UpsertStats)
      → leb limit (length (batch ++ r ∷ [])) ≡ true
      → (upsert_batch (run.batch_now k) (run.batch_faults k) db (batch ++ r ∷ [])).1 ≡ ok s
      → Streamed limit run
          (k + 1)
          ((upsert_batch (run.batch_now k) (run.batch_faults k) db (batch ++ r ∷ [])).0)
          (add_full_batch total s)
          []
          (n + 1)
          lines
          out
      → Streamed limit run k db total batch n (parsed r ∷ lines) out

pub stream_lines-Streamed :
    (limit : ℕ) (run : FileRun) (k : ℕ) (db : Db) (total : UpsertStats)
    (batch : List AsteroidRecord) (n : ℕ) (lines : List Line)
    → Streamed limit run k db total batch n lines (stream_lines limit run k db total batch n lines)
unfolding stream_lines
stream_lines-Streamed limit run k db total batch n [] = finished
stream_lines-Streamed limit run k db total batch n (unreadable ∷ lines) = broken
stream_lines-Streamed limit run k db total batch n (blank ∷ lines) =
    skip_blank (stream_lines-Streamed limit run k db total batch n lines)
stream_lines-Streamed limit run k db total batch n (malformed ∷ lines) =
    skip_malformed (stream_lines-Streamed limit run k db total batch n lines)
stream_lines-Streamed limit run k db total batch n (parsed r ∷ lines) =
    let full = batch ++ r ∷ [] in
    let (db', r') = upsert_batch (run.batch_now k) (run.batch_faults k) db full in
    elim (Bool-cases (leb limit (length full))) [
      | inr small ↦
          rw (stream_lines, small)
            (push r small (stream_lines-Streamed limit run k db total full (n + 1) lines))
      | inl large ↦ elim (Result-cases r') [
        | inl (s, done) ↦
            rw (stream_lines, large, done)
              (flush r s large done (
                stream_lines-Streamed limit run (k + 1) db' (add_full_batch total s) [] (n + 1)
                  lines))
        | inr (e, failed) ↦ rw (stream_lines, large, failed) (reject r e large failed)
      ]
    ]
