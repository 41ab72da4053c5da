-- ===== src/Orbits/Runs.antt =====
-- The loop of `run_orbit_checks` in src/cli/orbits.rs as derivations.
use rustroid_sentinel.Prelude.{
  ℕ, zero, suc, ◌+◌, ◌≤◌, ◌≡◌, inl, inr, refl, Bool, true, false, none, some, List, leb, arith,
  Bool-cases, Option-cases, Result-cases, Result, ok, err, Outcome, returned, running,
}
use rustroid_sentinel.Models.{DateTime}
use rustroid_sentinel.Database.{SqlError}
use rustroid_sentinel.Database.Orbits.{OrbitDb, Candidate}
use rustroid_sentinel.Orbits.{
  consecutive_error_abort, Completion, OrbitError, candidates_failed, update_failed,
  OrbitCheckSummary, Progress, apply_outcome, Queue, spawn_next, join_next, flush_full, turn,
  finish, drain,
}

module _ (completion : ℕ → Completion) (now : ℕ → DateTime) (flush_down : ℕ → Bool) where
  -- A lookup has ended: `p'` is what the queue `rest` and the progress are after its flush.
  pub record Joins (k : ℕ) (p : Progress) (q : Queue) (p' : Progress) (rest : Queue) : Type 0 where
    pub task : Candidate
    pub joined : join_next (completion k).index q.in_flight ≡ some (task, rest.in_flight)
    pub same_candidates : rest.candidates ≡ q.candidates
    pub flushed :
        flush_full (flush_down k) (now k) (apply_outcome task.id (completion k).answer p) ≡ ok p'

  -- The runs of the loop, by how they end.
  pub data Drained
      : ℕ
        → ℕ
        → Progress
        → Queue
        → Outcome (OrbitDb × Result OrbitError OrbitCheckSummary)
        → Type 0 where
    out_of_fuel : {k : ℕ} {p : Progress} {q : Queue} → Drained 0 k p q running
    none_in_flight :
        {fuel k : ℕ} {p : Progress} {q : Queue}
        → join_next (completion k).index q.in_flight ≡ none
        → Drained (suc fuel) k p q (returned (finish (flush_down k) (now k) p false))
    not_flushed :
        {fuel k : ℕ} {p : Progress} {q : Queue} {e : SqlError} (task : Candidate)
        (rest : List Candidate)
        → join_next (completion k).index q.in_flight ≡ some (task, rest)
        → flush_full (flush_down k) (now k) (apply_outcome task.id (completion k).answer p) ≡ err e
        → Drained (suc fuel) k p q (returned (p.db, err (update_failed e)))
    opened :
        {fuel k : ℕ} {p p' : Progress} {q rest : Queue}
        → Joins k p q p' rest
        → consecutive_error_abort ≤ p'.tally.consecutive_errors
        → Drained (suc fuel) k p q (returned (finish (flush_down (k + 1)) (now (k + 1)) p' true))
    not_spawned :
        {fuel k : ℕ} {p p' : Progress} {q rest : Queue} {e : SqlError}
        → Joins k p q p' rest
        → spawn_next rest ≡ err e
        → Drained (suc fuel) k p q (returned (p'.db, err (candidates_failed e)))
    went_on :
        {fuel k : ℕ} {p p' : Progress} {q rest q' : Queue}
        {r : Outcome (OrbitDb × Result OrbitError OrbitCheckSummary)}
        → Joins k p q p' rest
        → spawn_next rest ≡ ok q'
        → Drained fuel (k + 1) p' q' r
        → Drained (suc fuel) k p q r

  pub drain-Drained :
      (fuel k : ℕ) (p : Progress) (q : Queue)
      → Drained fuel k p q (drain completion now flush_down fuel k p q)
  unfolding drain turn
  drain-Drained zero k p q = out_of_fuel
  drain-Drained (suc fuel) k p q =
      elim (Option-cases (join_next (completion k).index q.in_flight)) [
        | inl e ↦ rw (drain, turn, e) (none_in_flight e)
        | inr ((task, rest), e) ↦
            elim (Result-cases
              (flush_full (flush_down k) (now k) (apply_outcome task.id (completion k).answer p))) [
                | inr (x, f) ↦ rw (drain, turn, e, f) (not_flushed task rest e f)
                | inl (p', f) ↦
                    let left : Queue = record { candidates = q.candidates; in_flight = rest } in
                    let js : Joins k p q p' left = record {
                      task = task;
                      joined = e;
                      same_candidates = refl;
                      flushed = f;
                    } in
                    elim (Bool-cases (leb consecutive_error_abort p'.tally.consecutive_errors)) [
                      | inl many ↦ rw (drain, turn, e, f, many) (opened js (ground arith))
                      | inr few ↦ elim (Result-cases (spawn_next left)) [
                        | inr (x, s) ↦ rw (drain, turn, e, f, few, s) (not_spawned js s)
                        | inl (q', s) ↦
                            rw (drain, turn, e, f, few, s)
                              (went_on js s (drain-Drained fuel (k + 1) p' q'))
                      ]
                    ]
              ]
      ]
