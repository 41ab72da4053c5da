-- ===== src/Sentry/Command.antt =====
-- The entry points of src/cli/sentry.rs.
--
-- What is given besides the arguments: the collation of text, how the tasks of each chunk end and in
-- which order, the clock, and what fails. Points in time are in seconds.
pub mod Elements
pub mod Rows
pub mod Sweep
use rustroid_sentinel.Prelude.{
  ℕ, ◌+◌, String, Bool, Option, none, some, List, [], ◌∷◌, if◌then◌else◌, length, Result, ok, err,
  Outcome, returned, panicked, running,
}
use rustroid_sentinel.Models.{Uuid, DateTime}
use rustroid_sentinel.Database.{Db}
use rustroid_sentinel.Database.Chunks.{chunks}
use rustroid_sentinel.Database.Orbits.{Candidate}
use rustroid_sentinel.Database.Sentry.{asteroids_needing_sentry_check, sentry_candidates_for_ids}
use rustroid_sentinel.Orbits.Command.{stale_before}
use rustroid_sentinel.Sentry.{Joined, SentryError, SentryCheckSummary, run_sentry_checks}

-- Why a command ends before its checks, or what they end with.
pub data CommandError : Type 0 where
  pool_failed selection_failed client_failed : CommandError
  checks_failed : SentryError → CommandError

pub record Faults : Type 0 where
  pub pool_down : Bool
  pub selection_down : Bool
  pub client_down : Bool
  pub flush_down : ℕ → Bool

abbrev pub lookup_concurrency : ℕ
lookup_concurrency = 5

abbrev pub Ran : Type 0
Ran = Db × Result CommandError (Option SentryCheckSummary)

-- What a command makes of the checks.
unfoldable pub report_checks : Db × Result SentryError SentryCheckSummary → Ran
report_checks (db, err e) = (db, err (checks_failed e))
report_checks (db, ok s) = (db, ok (some s))

-- The tasks of chunk `k` and of those after it.
unfoldable pub join_chunks :
    (ℕ → List Candidate → List Joined) → ℕ → List (List Candidate) → List (List Joined)
join_chunks joins k [] = []
join_chunks joins k (c ∷ cs) = joins k c ∷ join_chunks joins (k + 1) cs

module _ (collates : String → String → Bool) (joins : ℕ → List Candidate → List Joined)
    (now : ℕ → DateTime) (faults : Faults) where
  -- The command after its query: the client, and the checks of the candidates, if there are any.
  unfoldable pub check_candidates : Db → List Candidate → Ran
  unfolding chunks join_chunks run_sentry_checks report_checks
  check_candidates db [] = (db, ok none)
  check_candidates db (c ∷ cs) =
      if faults.client_down
      then (db, err client_failed)
      else report_checks (
          run_sentry_checks now faults.flush_down db
            (join_chunks joins 0 (chunks (length (c ∷ cs)) lookup_concurrency (c ∷ cs))))

  -- `today` is the clock when the candidates are chosen.
  unfoldable pub execute : Bool → ℕ → DateTime → Db → Outcome Ran
  unfolding stale_before asteroids_needing_sentry_check check_candidates
  execute recompute stale_days today db =
      if faults.pool_down
      then returned (db, err pool_failed)
      else elim (stale_before recompute today stale_days) [
        | panicked ↦ panicked
        | running ↦ running
        | returned t ↦
            if faults.selection_down
            then returned (db, err selection_failed)
            else returned (check_candidates db (asteroids_needing_sentry_check collates db t))
      ]

  unfoldable pub execute_for_ids : List Uuid → Db → Ran
  unfolding sentry_candidates_for_ids check_candidates
  execute_for_ids [] db = (db, ok none)
  execute_for_ids (i ∷ ids) db =
      if faults.pool_down
      then (db, err pool_failed)
      else (if faults.selection_down
          then (db, err selection_failed)
          else check_candidates db (sentry_candidates_for_ids collates db (i ∷ ids)))
