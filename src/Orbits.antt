-- ===== src/Orbits.antt =====
-- The command of src/cli/orbits.rs.
--
-- The `k`-th lookup to end is the one at place `index` of those in flight, and has the given
-- answer. The flush before the `k`-th dispatch runs at `now k` and fails if `flush_down k`. The
-- counters of 32 bits are read as unbounded: there are fewer asteroids.
pub mod Counts
pub mod Runs
pub mod Moves
pub mod Complete
pub mod Command
use rustroid_sentinel.Prelude.{
  ℕ, zero, suc, ◌+◌, ◌-◌, ◌*◌, String, Bool, true, false, Option, none, some, List, [], ◌∷◌, ◌++◌,
  leb, ◌==◌, if◌then◌else◌, length, map, Result, ok, err, Outcome, returned, panicked, running,
}
use rustroid_sentinel.Models.{Uuid, DateTime}
use rustroid_sentinel.Database.{SqlError}
use rustroid_sentinel.Database.Orbits.{
  SbdbOrbitSummary, default_summary, OrbitDb, Candidate, OrbitUpdate,
  count_asteroids_needing_orbit_check, stream_asteroids_needing_orbit_check,
  orbit_candidates_for_ids, upsert_asteroid_orbits,
}

abbrev pub update_flush_size : ℕ
update_flush_size = 200

abbrev pub consecutive_error_abort : ℕ
consecutive_error_abort = 5

-- The outcome of a lookup: a summary, no summary, an error of the client, or a panic of the task.
pub data Answer : Type 0 where
  found : SbdbOrbitSummary → Answer
  absent lookup_error task_failed : Answer

pub record Completion : Type 0 where
  pub index : ℕ
  pub answer : Answer

pub data OrbitError : Type 0 where
  candidates_failed update_failed : SqlError → OrbitError
  client_failed circuit_open : OrbitError

pub record OrbitCheckSummary : Type 0 where
  pub checked : ℕ
  pub matched : ℕ
  pub errored : ℕ
  pub updated : ℕ
  pub aborted : Bool

pub record RunTally : Type 0 where
  pub checked : ℕ
  pub matched : ℕ
  pub errored : ℕ
  pub consecutive_errors : ℕ

abbrev pub no_tally : RunTally
no_tally = record { checked = 0; matched = 0; errored = 0; consecutive_errors = 0 }

-- The local variables of `run_orbit_checks`: the tally, the pending updates, and what is written.
pub record Progress : Type 0 where
  pub db : OrbitDb
  pub tally : RunTally
  pub pending : List OrbitUpdate
  pub updated : ℕ

unfoldable pub apply_outcome : Uuid → Answer → Progress → Progress
apply_outcome id task_failed p = record p {
  tally = record p.tally {
    errored = p.tally.errored + 1;
    consecutive_errors = p.tally.consecutive_errors + 1;
  };
}
apply_outcome id (found summary) p = record p {
  tally = record p.tally {
    checked = p.tally.checked + 1;
    matched = p.tally.matched + 1;
    consecutive_errors = 0;
  };
  pending = p.pending ++ record { id = id; summary = summary } ∷ [];
}
apply_outcome id absent p = record p {
  tally = record p.tally { checked = p.tally.checked + 1; consecutive_errors = 0 };
  pending = p.pending ++ record { id = id; summary = default_summary } ∷ [];
}
apply_outcome id lookup_error p = record p {
  tally = record p.tally {
    checked = p.tally.checked + 1;
    errored = p.tally.errored + 1;
    consecutive_errors = p.tally.consecutive_errors + 1;
  };
}

-- The candidates that the stream has left, each a row or an error, and the lookups in flight.
pub record Queue : Type 0 where
  pub candidates : List (Result SqlError Candidate)
  pub in_flight : List Candidate

unfoldable pub spawn_next : Queue → Result SqlError Queue
spawn_next q = elim q.candidates [
  | [] ↦ ok q
  | ok c ∷ candidates ↦ ok (record { candidates = candidates; in_flight = q.in_flight ++ c ∷ [] })
  | err e ∷ candidates ↦ err e
]

-- `JoinSet::join_next`: a task in flight and the others; past the end it is the last.
unfoldable pub join_next {ℓ} : {A : Type ℓ} → ℕ → List A → Option (A × List A)
join_next i [] = none
join_next zero (x ∷ xs) = some (x, xs)
join_next (suc i) (x ∷ xs) = elim (join_next i xs) [
  | none ↦ some (x, xs)
  | some (y, ys) ↦ some (y, x ∷ ys)
]

-- A flush of the pending updates.
unfoldable pub flush : Bool → DateTime → Progress → Result SqlError Progress
unfolding upsert_asteroid_orbits
flush down now p = elim (upsert_asteroid_orbits down now p.db p.pending) [
  | err e ↦ err e
  | ok (db, rows) ↦ ok (record p { db = db; updated = p.updated + rows; pending = [] })
]

unfoldable pub flush_full : Bool → DateTime → Progress → Result SqlError Progress
unfolding flush
flush_full down now p = elim (leb update_flush_size (length p.pending)) [
  | true ↦ flush down now p
  | false ↦ ok p
]

-- How the body of the loop ends.
pub data Turn : Type 0 where
  drained : Turn
  broken : Progress → Turn
  failed_with : OrbitDb → OrbitError → Turn
  continued : Progress → Queue → Turn

unfoldable pub turn : Bool → DateTime → Completion → Progress → Queue → Turn
unfolding join_next apply_outcome flush_full spawn_next
turn down now c p q = elim (join_next c.index q.in_flight) [
  | none ↦ drained
  | some (task, rest) ↦ elim (flush_full down now (apply_outcome task.id c.answer p)) [
    | err e ↦ failed_with p.db (update_failed e)
    | ok p' ↦ elim (leb consecutive_error_abort p'.tally.consecutive_errors) [
      | true ↦ broken p'
      | false ↦ elim (spawn_next (record { candidates = q.candidates; in_flight = rest })) [
        | err e ↦ failed_with p'.db (candidates_failed e)
        | ok q' ↦ continued p' q'
      ]
    ]
  ]
]

-- The last flush and the summary.
unfoldable pub finish :
    Bool → DateTime → Progress → Bool → OrbitDb × Result OrbitError OrbitCheckSummary
unfolding flush
finish down now p aborted = elim (flush down now p) [
  | err e ↦ (p.db, err (update_failed e))
  | ok p' ↦ (
    p'.db,
    ok (record {
      checked = p'.tally.checked;
      matched = p'.tally.matched;
      errored = p'.tally.errored;
      updated = p'.updated;
      aborted = aborted;
    }),
  )
]

module _ (completion : ℕ → Completion) (now : ℕ → DateTime) (flush_down : ℕ → Bool) where
  unfoldable pub drain :
      ℕ → ℕ → Progress → Queue → Outcome (OrbitDb × Result OrbitError OrbitCheckSummary)
  unfolding turn finish
  drain zero k p q = running
  drain (suc fuel) k p q = elim (turn (flush_down k) (now k) (completion k) p q) [
    | drained ↦ returned (finish (flush_down k) (now k) p false)
    | broken p' ↦ returned (finish (flush_down (k + 1)) (now (k + 1)) p' true)
    | failed_with db e ↦ returned (db, err e)
    | continued p' q' ↦ drain fuel (k + 1) p' q'
  ]

  -- `client_down` says that the client cannot be built.
  unfoldable pub run_orbit_checks :
      Bool
      → ℕ
      → OrbitDb
      → List (Result SqlError Candidate)
      → Outcome (OrbitDb × Result OrbitError OrbitCheckSummary)
  unfolding drain spawn_next
  run_orbit_checks true fuel db candidates = returned (db, err client_failed)
  run_orbit_checks false fuel db candidates =
      elim (spawn_next (record { candidates = candidates; in_flight = [] })) [
        | err e ↦ returned (db, err (candidates_failed e))
        | ok q ↦ elim (spawn_next q) [
          | err e ↦ returned (db, err (candidates_failed e))
          | ok q' ↦
              drain fuel 0 (record { db = db; tally = no_tally; pending = []; updated = 0 }) q'
        ]
      ]
