-- ===== src/Orbits/Moves.antt =====
-- The queue of `run_orbit_checks` in src/cli/orbits.rs, and what one turn does to it.
use rustroid_sentinel.Prelude.{
  ℕ, zero, suc, ◌+◌, ◌≤◌, ◌≡◌, ◌⊎◌, inl, inr, refl, false, Option, none, some, List, [], ◌∷◌, ◌++◌,
  leb, ◌==◌, if◌then◌else◌, arith, length, length-append, Bool-cases, Option-cases, Result, ok, err,
}
use mathlib.Core.Path.{subst}
use rustroid_sentinel.Models.{Uuid, DateTime}
use rustroid_sentinel.Database.{SqlError}
use rustroid_sentinel.Database.Orbits.{OrbitUpdate, default_summary, Candidate, upsert_rows}
use rustroid_sentinel.Database.Orbits.Rows.{
  occurs, occurs-append, IsChecked, IsChecked-upsert_rows, updates_at, asteroids_at,
  upsert_asteroid_orbits_ok,
}
use rustroid_sentinel.Database.Orbits.Candidates.{candidates_at}
use rustroid_sentinel.Orbits.{
  update_flush_size, Answer, found, absent, lookup_error, task_failed, Progress, apply_outcome,
  Queue, spawn_next, join_next, flush, flush_full,
}

-- How often an id is among the candidates that are left.
abbrev pub left_at : Uuid → List (Result SqlError Candidate) → ℕ
left_at i [] = 0
left_at i (err e ∷ cs) = left_at i cs
left_at i (ok c ∷ cs) = (if c.id == i then 1 else 0) + left_at i cs

abbrev pub AllRows : List (Result SqlError Candidate) → Type 0
AllRows [] = Unit
AllRows (err e ∷ cs) = ⊥
AllRows (ok c ∷ cs) = AllRows cs

abbrev pub queued_at : Uuid → Queue → ℕ
queued_at i q = left_at i q.candidates + candidates_at i q.in_flight

-- What taking out does to the occurrences of a key.
abbrev pub Parts {ℓ} : {A : Type ℓ} → (A → ℕ) → ℕ → List A → Option (A × List A) → Type 0
Parts key i xs none = occurs key i xs ≡ 0
Parts key i xs (some (x, rest)) =
    occurs key i xs ≡ (if key x == i then 1 else 0) + occurs key i rest

pub join_next-Parts {ℓ} :
    {A : Type ℓ} (key : A → ℕ) (i k : ℕ) (xs : List A) → Parts key i xs (join_next k xs)
unfolding join_next
join_next-Parts key i k [] = refl
join_next-Parts key i zero (x ∷ xs) = refl
join_next-Parts key i (suc k) (x ∷ xs) = elim (Option-cases (join_next k xs)) [
  | inl e ↦ rw (join_next, e) refl
  | inr ((y, ys), e) ↦
      let t : Parts key i xs (some (y, ys)) =
        subst (Parts key i xs) e (join_next-Parts key i k xs) in
      rw (join_next, e) (omega (arith, t))
]

-- Dispatching moves a candidate, and only a broken stream fails.
abbrev pub Moves : Queue → Result SqlError Queue → Type 0
Moves q (err e) = ⊥
Moves q (ok q') =
    AllRows q'.candidates
    × ((i : Uuid) → queued_at i q' ≡ queued_at i q)
    × (length q'.in_flight ≡ 0 → length q'.candidates ≡ 0)

queue-Moves :
    (candidates : List (Result SqlError Candidate)) (tasks : List Candidate)
    → AllRows candidates
    → let q : Queue = record { candidates = candidates; in_flight = tasks } in
      Moves q (spawn_next q)
unfolding spawn_next
queue-Moves [] tasks h = (tt, λ i. refl, λ _. refl)
queue-Moves (err e ∷ cs) tasks h = absurd h
queue-Moves (ok c ∷ cs) tasks h = (
  h,
  λ i. omega (arith, occurs-append (λ (d : Candidate). d.id) i tasks (c ∷ [])),
  λ e. absurd (omega (arith, e, length-append tasks (c ∷ []))),
)

pub spawn_next-Moves : (q : Queue) → AllRows q.candidates → Moves q (spawn_next q)
spawn_next-Moves q h = queue-Moves q.candidates q.in_flight h

-- The id waits to be written, or its row is of the check at `t`.
abbrev pub Recorded : DateTime → Uuid → Progress → Type 0
Recorded t i p = (1 ≤ updates_at i p.pending) ⊎ IsChecked t i p.db.asteroid_orbits

-- What one outcome does to the pending updates.
abbrev pub Applies : Uuid → Progress → Progress → Type 0
Applies id p p' =
    (p'.db ≡ p.db)
    × ((i : Uuid) → updates_at i p'.pending ≤ (if id == i then 1 else 0) + updates_at i p.pending)
    × (p'.tally.errored ≡ 0
        → (p.tally.errored ≡ 0)
          × ((i : Uuid)
              → updates_at i p'.pending ≡ (if id == i then 1 else 0) + updates_at i p.pending))

updates_at-last :
    (i : Uuid) (us : List OrbitUpdate) (u : OrbitUpdate)
    → updates_at i (us ++ u ∷ []) ≡ (if u.id == i then 1 else 0) + updates_at i us
updates_at-last i us u = omega (arith, occurs-append (λ (v : OrbitUpdate). v.id) i us (u ∷ []))

pub apply_outcome-Applies :
    (id : Uuid) (a : Answer) (p : Progress) → Applies id p (apply_outcome id a p)
unfolding apply_outcome
apply_outcome-Applies id (found summary) p =
    let e = λ (i : Uuid). updates_at-last i p.pending (record { id = id; summary = summary }) in
    (refl, λ i. omega (arith, e i), λ h. (h, e))
apply_outcome-Applies id absent p =
    let e =
      λ (i : Uuid). updates_at-last i p.pending (record { id = id; summary = default_summary }) in
    (refl, λ i. omega (arith, e i), λ h. (h, e))
apply_outcome-Applies id lookup_error p = (refl, λ i. omega arith, λ h. absurd (omega (arith, h)))
apply_outcome-Applies id task_failed p = (refl, λ i. omega arith, λ h. absurd (omega (arith, h)))

-- The pending updates have distinct ids, all of asteroids.
abbrev pub IsWritable : Progress → Type 0
IsWritable p =
    ((i : Uuid) → updates_at i p.pending ≤ 1)
    × ((i : Uuid) → 1 ≤ updates_at i p.pending → 1 ≤ asteroids_at i p.db.asteroids)

-- A progress after its flush.
abbrev pub written : DateTime → Progress → Progress
written t p = record p {
  db = record p.db { asteroid_orbits = upsert_rows t p.pending p.db.asteroid_orbits };
  updated = p.updated + length p.pending;
  pending = [];
}

pub flush_ok : (t : DateTime) (p : Progress) → IsWritable p → flush false t p ≡ ok (written t p)
unfolding flush
flush_ok t p (once, known) = rw (flush, upsert_asteroid_orbits_ok t p.db p.pending once known) refl

pub Recorded-written :
    (t : DateTime) (p : Progress) (i : Uuid)
    → Recorded t i p
    → IsChecked t i (written t p).db.asteroid_orbits
Recorded-written t p i h = IsChecked-upsert_rows t i p.pending p.db.asteroid_orbits h

-- The flush of a full buffer goes through and loses no update.
abbrev pub Keeps : DateTime → Progress → Result SqlError Progress → Type 0
Keeps t p (err e) = ⊥
Keeps t p (ok p') =
    (p'.tally ≡ p.tally)
    × (p'.db.asteroids ≡ p.db.asteroids)
    × ((i : Uuid) → updates_at i p'.pending ≤ updates_at i p.pending)
    × ((i : Uuid) → Recorded t i p → Recorded t i p')

pub flush_full-Keeps :
    (t : DateTime) (p : Progress) → IsWritable p → Keeps t p (flush_full false t p)
unfolding flush_full
flush_full-Keeps t p w = elim (Bool-cases (leb update_flush_size (length p.pending))) [
  | inr room ↦ rw (flush_full, room) (refl, refl, λ i. omega arith, λ i h. h)
  | inl full ↦
      rw (flush_full, full, flush_ok t p w)
        (refl, refl, λ i. omega arith, λ i h. inr (Recorded-written t p i h))
]
