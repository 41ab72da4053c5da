-- ===== src/Orbits/Complete.antt =====
-- What `run_orbit_checks` of src/cli/orbits.rs leaves in `asteroid_orbits`.
use rustroid_sentinel.Prelude.{
  ℕ, ◌+◌, ◌≤◌, ◌<◌, ◌≡◌, ◌⊎◌, inl, inr, refl, ap, sym, ◌∙◌, Bool, true, false, none, some, List, [],
  ◌∷◌, ◌==◌, if◌then◌else◌, arith, length, length-map, map, Bool-cases, Result-cases, Result, ok,
  err, Outcome, returned,
}
use mathlib.Core.Path.{subst}
use rustroid_sentinel.Models.{Uuid, DateTime, Asteroid}
use rustroid_sentinel.Database.{SqlError}
use rustroid_sentinel.Database.Orbits.{OrbitDb, Candidate}
use rustroid_sentinel.Database.Orbits.Rows.{IsChecked, updates_at, asteroids_at}
use rustroid_sentinel.Database.Orbits.Candidates.{candidates_at}
use rustroid_sentinel.Orbits.{
  Completion, OrbitError, OrbitCheckSummary, RunTally, no_tally, Progress, apply_outcome, Queue,
  spawn_next, join_next, finish, run_orbit_checks,
}
use rustroid_sentinel.Orbits.Runs.{
  Joins, Drained, out_of_fuel, none_in_flight, not_flushed, opened, not_spawned, went_on,
  drain-Drained,
}
use rustroid_sentinel.Orbits.Counts.{
  IsTaken, join_next-IsTaken, apply_outcome-Advances, run_orbit_checks-IsTotal,
}
use rustroid_sentinel.Orbits.Moves.{
  left_at, AllRows, queued_at, Parts, join_next-Parts, Moves, spawn_next-Moves, Recorded,
  apply_outcome-Applies, IsWritable, flush_ok, Recorded-written, Keeps, flush_full-Keeps,
}

abbrev held_at : Uuid → Progress → Queue → ℕ
held_at i p q = queued_at i q + updates_at i p.pending

abbrev queue_of : List (Result SqlError Candidate) → List Candidate → Queue
queue_of candidates tasks = record { candidates = candidates; in_flight = tasks }

-- Between two turns: each id is held once at most and is an asteroid's, and without errors so far
-- each candidate of the start is held or its row is of the check at `t`.
record Sound (t : DateTime) (start : Uuid → ℕ) (p : Progress) (q : Queue) : Type 0 where
  pub rows : AllRows q.candidates
  pub once : (i : Uuid) → held_at i p q ≤ 1
  pub known : (i : Uuid) → 1 ≤ held_at i p q → 1 ≤ asteroids_at i p.db.asteroids
  pub in_a_row : p.tally.consecutive_errors ≤ p.tally.errored
  pub kept : p.tally.errored ≡ 0 → (i : Uuid) → 1 ≤ start i → (1 ≤ queued_at i q) ⊎ Recorded t i p

-- A run that has gone through, with the rows it leaves.
abbrev pub IsComplete :
    DateTime → (Uuid → ℕ) → OrbitDb × Result OrbitError OrbitCheckSummary → Type 0
IsComplete t start (db, err e) = ⊥
IsComplete t start (db, ok s) =
    s.errored ≡ 0 → (i : Uuid) → 1 ≤ start i → IsChecked t i db.asteroid_orbits

abbrev pub EndsComplete :
    DateTime → (Uuid → ℕ) → Outcome (OrbitDb × Result OrbitError OrbitCheckSummary) → Type 0
EndsComplete t start (returned r) = IsComplete t start r
EndsComplete t start _ = Unit

module _ (completion : ℕ → Completion) (t : DateTime) (start : Uuid → ℕ) where
  finish-IsComplete :
      (p : Progress) (aborted : Bool)
      → IsWritable p
      → (p.tally.errored ≡ 0 → (i : Uuid) → 1 ≤ start i → Recorded t i p)
      → IsComplete t start (finish false t p aborted)
  unfolding finish
  finish-IsComplete p aborted w recorded =
      rw (finish, flush_ok t p w) (λ h i from. Recorded-written t p i (recorded h i from))

  -- A lookup that has ended keeps the invariant, for the queue without it.
  applied-Sound :
      (k : ℕ) (p : Progress) (q : Queue) (task : Candidate) (rest : List Candidate)
      → join_next (completion k).index q.in_flight ≡ some (task, rest)
      → Sound t start p q
      → Sound t start
          (apply_outcome task.id (completion k).answer p)
          (record { candidates = q.candidates; in_flight = rest })
  applied-Sound k p q task rest e s =
      let p1 : Progress = apply_outcome task.id (completion k).answer p in
      let (same, fewer, exact) = apply_outcome-Applies task.id (completion k).answer p in
      let (_, _, _, streak) = apply_outcome-Advances task.id (completion k).answer p in
      record {
        rows = s.rows;
        once = λ i. omega (arith, parts i, fewer i, s.once i);
        known = λ i h.
            subst (λ (db : OrbitDb). 1 ≤ asteroids_at i db.asteroids) (sym same)
              (s.known i (omega (arith, parts i, fewer i, h)));
        in_a_row = omega (arith, streak, s.in_a_row);
        kept = λ h i from.
            let (before, all) = exact h in moved p1 i same (all i) (s.kept before i from);
      }
    where
      parts :
          (i : Uuid)
          → candidates_at i q.in_flight ≡ (if task.id == i then 1 else 0) + candidates_at i rest
      parts i =
          subst (Parts (λ (c : Candidate). c.id) i q.in_flight) e
            (join_next-Parts (λ (c : Candidate). c.id) i (completion k).index q.in_flight)

      moved :
          (p1 : Progress) (i : Uuid)
          → p1.db ≡ p.db
          → updates_at i p1.pending ≡ (if task.id == i then 1 else 0) + updates_at i p.pending
          → (1 ≤ queued_at i q) ⊎ Recorded t i p
          → (1 ≤ left_at i q.candidates + candidates_at i rest) ⊎ Recorded t i p1
      moved p1 i same all (inr (inl waits)) = inr (inl (omega (arith, all, waits)))
      moved p1 i same all (inr (inr is_checked)) =
          inr
            (inr (subst (λ (db : OrbitDb). IsChecked t i db.asteroid_orbits) (sym same) is_checked))
      moved p1 i same all (inl queued) = elim (Bool-cases (task.id == i)) [
        | inl here ↦ inr (inl (ground arith))
        | inr other ↦ let d = parts i in inl (ground arith)
      ]

  writable : (p : Progress) (q : Queue) → Sound t start p q → IsWritable p
  writable p q s = (λ i. omega (arith, s.once i), λ i h. s.known i (omega (arith, h)))

  joined-Sound :
      {k : ℕ} {p p' : Progress} {q rest : Queue}
      → Joins completion (λ _. t) (λ _. false) k p q p' rest
      → Sound t start p q
      → Sound t start p' rest
  joined-Sound {k} {p} {p'} {q} {rest} js s =
      let p1 : Progress = apply_outcome js.task.id (completion k).answer p in
      let left : Queue = record { candidates = q.candidates; in_flight = rest.in_flight } in
      let s1 : Sound t start p1 left = applied-Sound k p q js.task rest.in_flight js.joined s in
      let (tally, asteroids, fewer, keeps) =
        subst (Keeps t p1) js.flushed (flush_full-Keeps t p1 (writable p1 left s1)) in
      let same_queue : left ≡ rest =
        ap (λ cs. queue_of cs rest.in_flight) (sym js.same_candidates) in
      subst (Sound t start p') same_queue (record {
        rows = s1.rows;
        once = λ i. omega (arith, fewer i, s1.once i);
        known = λ i h.
            subst (λ (l : List Asteroid). 1 ≤ asteroids_at i l) (sym asteroids)
              (s1.known i (omega (arith, fewer i, h)));
        in_a_row = omega (
          arith,
          s1.in_a_row,
          ap (λ (u : RunTally). u.errored) tally,
          ap (λ (u : RunTally). u.consecutive_errors) tally,
        );
        kept = λ h i from.
            elim (s1.kept (omega (arith, h, ap (λ (u : RunTally). u.errored) tally)) i from) [
              | inl queued ↦ inl queued
              | inr recorded ↦ inr (keeps i recorded)
            ];
      })

  no_candidates :
      (i : Uuid) (cs : List (Result SqlError Candidate)) → length cs ≡ 0 → left_at i cs ≡ 0
  no_candidates i [] h = refl
  no_candidates i (c ∷ cs) h = absurd (omega (arith, h))

  -- A queue without lookups in flight is empty.
  none_queued :
      (k : ℕ) (q : Queue) (i : Uuid)
      → join_next k q.in_flight ≡ none
      → (length q.in_flight ≡ 0 → length q.candidates ≡ 0)
      → queued_at i q ≡ 0
  none_queued k q i e idle =
      let tasks = subst (IsTaken q.in_flight) e (join_next-IsTaken k q.in_flight) in
      let here =
        subst (Parts (λ (c : Candidate). c.id) i q.in_flight) e
          (join_next-Parts (λ (c : Candidate). c.id) i k q.in_flight) in
      omega (arith, no_candidates i q.candidates (idle tasks), here)

  spawned-Sound :
      (p : Progress) (q q' : Queue) → spawn_next q ≡ ok q' → Sound t start p q → Sound t start p q'
  spawned-Sound p q q' e s =
      let (rows, same, _) = subst (Moves q) e (spawn_next-Moves q s.rows) in
      record {
        rows = rows;
        once = λ i. omega (arith, same i, s.once i);
        known = λ i h. s.known i (omega (arith, same i, h));
        in_a_row = s.in_a_row;
        kept = λ h i from. elim (s.kept h i from) [
          | inl queued ↦ inl (omega (arith, same i, queued))
          | inr recorded ↦ inr recorded
        ];
      }

  spawned-idle :
      (q q' : Queue)
      → AllRows q.candidates
      → spawn_next q ≡ ok q'
      → length q'.in_flight ≡ 0
      → length q'.candidates ≡ 0
  spawned-idle q q' rows e = let (_, _, idle) = subst (Moves q) e (spawn_next-Moves q rows) in idle

  Drained-EndsComplete :
      {fuel k : ℕ} {p : Progress} {q : Queue}
      {r : Outcome (OrbitDb × Result OrbitError OrbitCheckSummary)}
      → Drained completion (λ _. t) (λ _. false) fuel k p q r
      → (length q.in_flight ≡ 0 → length q.candidates ≡ 0)
      → Sound t start p q
      → EndsComplete t start r
  Drained-EndsComplete out_of_fuel idle s = tt
  Drained-EndsComplete {k} {p} {q} (none_in_flight e) idle s =
      finish-IsComplete p false (writable p q s) λ h i from. elim (s.kept h i from) [
        | inl queued ↦ absurd (omega (arith, queued, none_queued (completion k).index q i e idle))
        | inr recorded ↦ recorded
      ]
  Drained-EndsComplete {k} {p} {q} (not_flushed task rest e f) idle s =
      let p1 : Progress = apply_outcome task.id (completion k).answer p in
      let s1 = applied-Sound k p q task rest e s in
      absurd (subst (Keeps t p1) f (flush_full-Keeps t p1 (writable p1 _ s1)))
  Drained-EndsComplete (opened {p'} {rest} js many) idle s =
      let s' = joined-Sound js s in
      finish-IsComplete p' true (writable p' rest s')
        λ h i from. absurd (let a = s'.in_a_row in omega (arith, a, many, h))
  Drained-EndsComplete (not_spawned {rest} js x) idle s =
      absurd (subst (Moves rest) x (spawn_next-Moves rest (joined-Sound js s).rows))
  Drained-EndsComplete (went_on {p'} {rest} {q'} js x d) idle s =
      let s' = joined-Sound js s in
      Drained-EndsComplete d (spawned-idle rest q' s'.rows x) (spawned-Sound p' rest q' x s')

  start-EndsComplete :
      (fuel : ℕ) (db : OrbitDb) (candidates : List (Result SqlError Candidate))
      → AllRows candidates
      → ((i : Uuid) → left_at i candidates ≡ start i)
      → ((i : Uuid) → start i ≤ 1)
      → ((i : Uuid) → 1 ≤ start i → 1 ≤ asteroids_at i db.asteroids)
      → EndsComplete t start
          (run_orbit_checks completion (λ _. t) (λ _. false) false fuel db candidates)
  unfolding run_orbit_checks
  start-EndsComplete fuel db candidates rows at once known =
      let p : Progress = record { db = db; tally = no_tally; pending = []; updated = 0 } in
      let q0 : Queue = queue_of candidates [] in
      let s0 : Sound t start p q0 = record {
        rows = rows;
        once = λ i. omega (arith, at i, once i);
        known = λ i h. known i (omega (arith, at i, h));
        in_a_row = omega arith;
        kept = λ h i from. inl (omega (arith, at i, from));
      } in
      elim (Result-cases (spawn_next q0)) [
        | inr (x, e) ↦ absurd (subst (Moves q0) e (spawn_next-Moves q0 s0.rows))
        | inl (q1, e) ↦
            let s1 = spawned-Sound p q0 q1 e s0 in
            elim (Result-cases (spawn_next q1)) [
              | inr (x, f) ↦ absurd (subst (Moves q1) f (spawn_next-Moves q1 s1.rows))
              | inl (q2, f) ↦
                  rw (run_orbit_checks, e, f)
                    (Drained-EndsComplete
                      (drain-Drained completion (λ _. t) (λ _. false) fuel 0 p q2)
                      (spawned-idle q1 q2 s1.rows f) (spawned-Sound p q1 q2 f s1))
            ]
      ]

abbrev as_row : Candidate → Result SqlError Candidate
as_row c = ok c

AllRows-map : (cs : List Candidate) → AllRows (map ok cs)
AllRows-map [] = tt
AllRows-map (c ∷ cs) = AllRows-map cs

left_at-map : (i : Uuid) (cs : List Candidate) → left_at i (map ok cs) ≡ candidates_at i cs
left_at-map i [] = refl
left_at-map i (c ∷ cs) = ap (λ n. (if c.id == i then 1 else 0) + n) (left_at-map i cs)

-- Over distinct candidates that are all asteroids, with a server that answers and all writes at one
-- time `t`, no flush meets a repeated or an unknown id: with one unit of fuel more than there are
-- candidates the checks end with a summary, whichever lookup ends first and whatever it answers. If
-- the summary has no errors, each candidate's row in `asteroid_orbits` is of the check at `t`.
pub run_orbit_checks_complete :
    (completion : ℕ → Completion) (t : DateTime) (fuel : ℕ) (db : OrbitDb) (cs : List Candidate)
    → length cs < fuel
    → ((i : Uuid) → candidates_at i cs ≤ 1)
    → ((i : Uuid) → 1 ≤ candidates_at i cs → 1 ≤ asteroids_at i db.asteroids)
    → (db' : OrbitDb) × (s : OrbitCheckSummary) × (run_orbit_checks completion
          (λ _. t)
          (λ _. false)
          false
          fuel
          db
          (map ok cs)
        ≡ returned (db', ok s))
      × (s.errored ≡ 0 → (i : Uuid) → 1 ≤ candidates_at i cs → IsChecked t i db'.asteroid_orbits)
run_orbit_checks_complete completion t fuel db cs enough once known =
    let start : Uuid → ℕ = λ i. candidates_at i cs in
    let (r, e, _) =
      run_orbit_checks-IsTotal completion (λ _. t) (λ _. false) false fuel db (map ok cs)
        (omega (arith, enough, length-map as_row cs)) in
    let (db', s, same, all) = ended r (
      subst (EndsComplete t start) e (
        start-EndsComplete completion t start fuel db (map ok cs) (AllRows-map cs)
          (λ i. left_at-map i cs) once known)) in
    (db', s, e ∙ ap returned same, all)
  where
    ended :
        (r : OrbitDb × Result OrbitError OrbitCheckSummary)
        → IsComplete t (λ i. candidates_at i cs) r
        → (db' : OrbitDb) × (s : OrbitCheckSummary) × (r ≡ (db', ok s))
          × (s.errored ≡ 0
              → (i : Uuid) → 1 ≤ candidates_at i cs
              → IsChecked t i db'.asteroid_orbits)
    ended (db', ok s) h = (db', s, refl, h)
    ended (db', err e) h = absurd h
