-- ===== src/Orbits/Counts.antt =====
-- The counters of `run_orbit_checks` in src/cli/orbits.rs.
use rustroid_sentinel.Prelude.{
  ℕ, zero, suc, ◌+◌, ◌≤◌, ◌<◌, ◌≡◌, inl, inr, refl, ap, sym, Bool, true, false, Option, none, some,
  List, [], ◌∷◌, leb, arith, length, length-append, Bool-cases, Option-cases, Result-cases, Result,
  ok, err, Outcome, returned, panicked, running,
}
use mathlib.Core.Path.{subst}
use rustroid_sentinel.Models.{Uuid, DateTime}
use rustroid_sentinel.Database.{SqlError}
use rustroid_sentinel.Database.Orbits.{OrbitDb, Candidate, upsert_asteroid_orbits}
use rustroid_sentinel.Orbits.{
  update_flush_size, consecutive_error_abort, Answer, found, absent, lookup_error, task_failed,
  Completion, OrbitError, OrbitCheckSummary, RunTally, Progress, apply_outcome, Queue, spawn_next,
  join_next, flush, flush_full, finish, run_orbit_checks,
}
use rustroid_sentinel.Orbits.Runs.{
  Joins, Drained, out_of_fuel, none_in_flight, not_flushed, opened, not_spawned, went_on,
  drain-Drained,
}

-- What is taken out of a list, and that it is taken.
abbrev pub IsTaken {ℓ} : {A : Type ℓ} → List A → Option (A × List A) → Type 0
IsTaken xs none = length xs ≡ 0
IsTaken xs (some (x, rest)) = length xs ≡ suc (length rest)

pub join_next-IsTaken {ℓ} : {A : Type ℓ} (i : ℕ) (xs : List A) → IsTaken xs (join_next i xs)
unfolding join_next
join_next-IsTaken i [] = refl
join_next-IsTaken zero (x ∷ xs) = refl
join_next-IsTaken (suc i) (x ∷ xs) = elim (Option-cases (join_next i xs)) [
  | inl e ↦ rw (join_next, e) refl
  | inr ((y, ys), e) ↦
      let t : length xs ≡ suc (length ys) = subst (IsTaken xs) e (join_next-IsTaken i xs) in
      rw (join_next, e) (omega (arith, t))
]

abbrev IsSpawned : Queue → Result SqlError Queue → Type 0
IsSpawned q (err e) = Unit
IsSpawned q (ok q') =
    (length q'.in_flight + length q'.candidates ≡ length q.in_flight + length q.candidates)
    × (length q'.in_flight ≡ 0 → length q'.candidates ≡ 0)

queue-IsSpawned :
    (candidates : List (Result SqlError Candidate)) (tasks : List Candidate)
    → let q : Queue = record { candidates = candidates; in_flight = tasks } in
      IsSpawned q (spawn_next q)
unfolding spawn_next
queue-IsSpawned [] tasks = (refl, λ _. refl)
queue-IsSpawned (err e ∷ cs) tasks = tt
queue-IsSpawned (ok c ∷ cs) tasks = (
  omega (arith, length-append tasks (c ∷ [])),
  λ h. absurd (omega (arith, h, length-append tasks (c ∷ []))),
)

spawn_next-IsSpawned : (q : Queue) → IsSpawned q (spawn_next q)
spawn_next-IsSpawned q = queue-IsSpawned q.candidates q.in_flight

-- A flush leaves the tally.
abbrev HasTally : RunTally → Result SqlError Progress → Type 0
HasTally t (err e) = Unit
HasTally t (ok p) = p.tally ≡ t

flush-HasTally : (down : Bool) (now : DateTime) (p : Progress) → HasTally p.tally (flush down now p)
unfolding flush
flush-HasTally down now p = elim (Result-cases (upsert_asteroid_orbits down now p.db p.pending)) [
  | inl ((db, rows), e) ↦ rw (flush, e) refl
  | inr (x, e) ↦ rw (flush, e) tt
]

flush_full-HasTally :
    (down : Bool) (now : DateTime) (p : Progress) → HasTally p.tally (flush_full down now p)
unfolding flush_full
flush_full-HasTally down now p = elim (Bool-cases (leb update_flush_size (length p.pending))) [
  | inl full ↦ rw (flush_full, full) (flush-HasTally down now p)
  | inr room ↦ rw (flush_full, room) refl
]

-- What one outcome adds to a tally.
abbrev pub Advances : RunTally → RunTally → Type 0
Advances t t' =
    (t'.matched + t.checked ≤ t'.checked + t.matched)
    × (t'.checked ≤ t.checked + 1)
    × (t.checked + t.errored + 1 ≤ t'.checked + t'.errored)
    × (t'.consecutive_errors + t.errored ≤ t'.errored + t.consecutive_errors)

pub apply_outcome-Advances :
    (id : Uuid) (a : Answer) (p : Progress) → Advances p.tally (apply_outcome id a p).tally
unfolding apply_outcome
apply_outcome-Advances id (found summary) p = (omega arith, omega arith, omega arith, omega arith)
apply_outcome-Advances id absent p = (omega arith, omega arith, omega arith, omega arith)
apply_outcome-Advances id lookup_error p = (omega arith, omega arith, omega arith, omega arith)
apply_outcome-Advances id task_failed p = (omega arith, omega arith, omega arith, omega arith)

-- The candidates that are not yet joined, and the counters between two turns of the loop.
abbrev pub waiting : Queue → ℕ
waiting q = length q.in_flight + length q.candidates

record Counted (n : ℕ) (t : RunTally) (left : ℕ) : Type 0 where
  pub matches : t.matched ≤ t.checked
  pub no_more : t.checked + left ≤ n
  pub no_fewer : n ≤ t.checked + t.errored + left
  pub in_a_row : t.consecutive_errors ≤ t.errored

-- The counters of a run over `n` candidates.
abbrev pub IsTotal : ℕ → OrbitDb × Result OrbitError OrbitCheckSummary → Type 0
IsTotal n (db, err e) = Unit
IsTotal n (db, ok s) =
    (s.matched ≤ s.checked)
    × (s.checked ≤ n)
    × (s.aborted ≡ false → n ≤ s.checked + s.errored)
    × (s.aborted ≡ true → consecutive_error_abort ≤ s.errored)

finish-IsTotal :
    (n left : ℕ) (down : Bool) (now : DateTime) (p : Progress) (aborted : Bool)
    → Counted n p.tally left
    → (aborted ≡ false → left ≡ 0)
    → (aborted ≡ true → consecutive_error_abort ≤ p.tally.consecutive_errors)
    → IsTotal n (finish down now p aborted)
unfolding finish
finish-IsTotal n left down now p aborted c none_left opens =
    elim (Result-cases (flush down now p)) [
      | inr (x, e) ↦ rw (finish, e) tt
      | inl (p', e) ↦
          let same : p'.tally ≡ p.tally = subst (HasTally p.tally) e (flush-HasTally down now p) in
          let c' : Counted n p'.tally left = subst (λ t. Counted n t left) (sym same) c in
          rw (finish, e)
            (
              c'.matches,
              omega (arith, c'.no_more),
              λ h. omega (arith, c'.no_fewer, none_left h),
              λ h. omega (arith, c.in_a_row, opens h, ap (λ (t : RunTally). t.errored) same),
            )
    ]

module _ (completion : ℕ → Completion) (now : ℕ → DateTime) (flush_down : ℕ → Bool) (n : ℕ) where
  joined-Counted :
      {k : ℕ} {p p' : Progress} {q rest : Queue}
      → Joins completion now flush_down k p q p' rest
      → Counted n p.tally (waiting q)
      → (waiting q ≡ suc (waiting rest)) × Counted n p'.tally (waiting rest)
  joined-Counted {k} {p} {p'} {q} {rest} js c =
      let taken : length q.in_flight ≡ suc (length rest.in_flight) =
        subst (IsTaken q.in_flight) js.joined
          (join_next-IsTaken (completion k).index q.in_flight) in
      let same_length =
        ap (λ (cs : List (Result SqlError Candidate)). length cs) js.same_candidates in
      let p1 : Progress = apply_outcome js.task.id (completion k).answer p in
      let same : p'.tally ≡ p1.tally =
        subst (HasTally p1.tally) js.flushed (flush_full-HasTally (flush_down k) (now k) p1) in
      let (a, b, d, e) = apply_outcome-Advances js.task.id (completion k).answer p in
      (
        omega (arith, taken, same_length),
        subst (λ t. Counted n t (waiting rest)) (sym same)
            (record {
              matches = omega (arith, a, c.matches);
              no_more = omega (arith, b, c.no_more, taken, same_length);
              no_fewer = omega (arith, d, c.no_fewer, taken, same_length);
              in_a_row = omega (arith, e, c.in_a_row);
            }),
      )

  -- The loop has ended, and its counters are right.
  abbrev pub EndsTotal : Outcome (OrbitDb × Result OrbitError OrbitCheckSummary) → Type 0
  EndsTotal (returned r) = IsTotal n r
  EndsTotal panicked = ⊥
  EndsTotal running = ⊥

  Drained-EndsTotal :
      {fuel k : ℕ} {p : Progress} {q : Queue}
      {r : Outcome (OrbitDb × Result OrbitError OrbitCheckSummary)}
      → Drained completion now flush_down fuel k p q r
      → waiting q < fuel
      → (length q.in_flight ≡ 0 → length q.candidates ≡ 0)
      → Counted n p.tally (waiting q)
      → EndsTotal r
  Drained-EndsTotal out_of_fuel enough idle c = absurd (omega (arith, enough))
  Drained-EndsTotal {k} {p} {q} (none_in_flight e) enough idle c =
      let none_left : length q.in_flight ≡ 0 =
        subst (IsTaken q.in_flight) e (join_next-IsTaken (completion k).index q.in_flight) in
      finish-IsTotal n (waiting q) (flush_down k) (now k) p false c
        (λ _. omega (arith, none_left, idle none_left)) (λ h. ground arith)
  Drained-EndsTotal (not_flushed task rest e f) enough idle c = tt
  Drained-EndsTotal {k} (opened {p'} {rest} js many) enough idle c =
      let (fewer, c') = joined-Counted js c in
      finish-IsTotal n (waiting rest) (flush_down (k + 1)) (now (k + 1)) p' true c'
        (λ h. ground arith) (λ _. many)
  Drained-EndsTotal (not_spawned js s) enough idle c = tt
  Drained-EndsTotal (went_on {p'} {rest} {q'} js s d) enough idle c =
      let (fewer, c') = joined-Counted js c in
      let (same, idle') = subst (IsSpawned rest) s (spawn_next-IsSpawned rest) in
      Drained-EndsTotal d (omega (arith, enough, fewer, same)) idle'
        (subst (Counted n p'.tally) (sym same) c')

  spawn_twice :
      (fuel : ℕ) (db : OrbitDb) (candidates : List (Result SqlError Candidate))
      → length candidates ≡ n
      → n < fuel
      → EndsTotal (run_orbit_checks completion now flush_down false fuel db candidates)
  unfolding run_orbit_checks
  spawn_twice fuel db candidates size enough =
      let q0 : Queue = record { candidates = candidates; in_flight = [] } in
      elim (Result-cases (spawn_next q0)) [
        | inr (x, e) ↦ rw (run_orbit_checks, e) tt
        | inl (q1, e) ↦ elim (Result-cases (spawn_next q1)) [
          | inr (x, f) ↦ rw (run_orbit_checks, e, f) tt
          | inl (q2, f) ↦
              let (same1, idle1) = subst (IsSpawned q0) e (spawn_next-IsSpawned q0) in
              let (same2, idle2) = subst (IsSpawned q1) f (spawn_next-IsSpawned q1) in
              rw (run_orbit_checks, e, f)
                (Drained-EndsTotal (drain-Drained completion now flush_down fuel 0 _ q2)
                  (omega (arith, same1, same2, size, enough)) idle2
                  (record {
                    matches = omega arith;
                    no_more = omega (arith, same1, same2, size);
                    no_fewer = omega (arith, same1, same2, size);
                    in_a_row = omega arith;
                  }))
        ]
      ]

-- With one unit of fuel more than there are candidates the checks end, whichever lookup ends first
-- and however each lookup and each flush ends. When they end with a summary, the matches are at
-- most the checks and the checks at most the candidates; unless they have stopped early, each
-- candidate is among the checks or the errors; and if they have, there were five errors at least.
pub run_orbit_checks-IsTotal :
    (completion : ℕ → Completion) (now : ℕ → DateTime) (flush_down : ℕ → Bool) (client_down : Bool)
    (fuel : ℕ) (db : OrbitDb) (candidates : List (Result SqlError Candidate))
    → length candidates < fuel
    → (r : OrbitDb × Result OrbitError OrbitCheckSummary) × (run_orbit_checks completion now
          flush_down client_down fuel db candidates
        ≡ returned r)
      × IsTotal (length candidates) r
unfolding run_orbit_checks
run_orbit_checks-IsTotal completion now flush_down true fuel db candidates enough = (_, refl, tt)
run_orbit_checks-IsTotal completion now flush_down false fuel db candidates enough =
    let n : ℕ = length candidates in
    returned_of (run_orbit_checks completion now flush_down false fuel db candidates)
      (spawn_twice completion now flush_down n fuel db candidates refl enough)
  where
    returned_of :
        (o : Outcome (OrbitDb × Result OrbitError OrbitCheckSummary))
        → EndsTotal completion now flush_down (length candidates) o
        → (r : OrbitDb × Result OrbitError OrbitCheckSummary) × (o ≡ returned r)
          × IsTotal (length candidates) r
    returned_of (returned r) h = (r, refl, h)
    returned_of panicked h = absurd h
    returned_of running h = absurd h
