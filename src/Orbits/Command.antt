-- ===== src/Orbits/Command.antt =====
-- The entry points of src/cli/orbits.rs.
--
-- Points in time are in seconds. What is given besides the arguments: the collation of text, the
-- completions of lookups, the clock, what fails, and where the stream of candidates breaks, if so.
pub mod Sweep
use rustroid_sentinel.Prelude.{
  ℕ, ◌+◌, ◌-◌, ◌*◌, String, Bool, true, false, Option, none, some, List, [], ◌∷◌, ◌++◌, ltb, ◌==◌,
  if◌then◌else◌, map, take, Result, ok, err, Outcome, returned, panicked, running,
}
use rustroid_sentinel.Models.{Uuid, DateTime}
use rustroid_sentinel.Database.{SqlError}
use rustroid_sentinel.Database.Orbits.{
  OrbitDb, Candidate, count_asteroids_needing_orbit_check, stream_asteroids_needing_orbit_check,
  orbit_candidates_for_ids,
}
use rustroid_sentinel.Orbits.{
  Completion, OrbitError, OrbitCheckSummary, candidates_failed, circuit_open, run_orbit_checks,
}

-- Why a command ends before its checks, or what they end with.
pub data CommandError : Type 0 where
  pool_failed count_failed : CommandError
  checks_failed : OrbitError → CommandError

pub record Faults : Type 0 where
  pub pool_down : Bool
  pub count_down : Bool
  pub client_down : Bool
  pub stream_breaks : Option (ℕ × SqlError)
  pub flush_down : ℕ → Bool

-- The items of a stream that breaks after some rows, or not at all.
unfoldable pub stream_items :
    Option (ℕ × SqlError) → List Candidate → List (Result SqlError Candidate)
stream_items none cs = map ok cs
stream_items (some (n, e)) cs = map ok (take n cs) ++ err e ∷ []

abbrev pub Ran : Type 0
Ran = Outcome (OrbitDb × Result CommandError (Option OrbitCheckSummary))

-- `Utc::now() - Duration::days(stale_days)`, which panics before the first point in time.
unfoldable pub stale_before : Bool → DateTime → ℕ → Outcome DateTime
stale_before true today stale_days = returned today
stale_before false today stale_days =
    if ltb today (stale_days * 86400) then panicked else returned (today - stale_days * 86400)

-- What `execute` makes of a summary.
unfoldable pub report_summary : OrbitDb × Result OrbitError OrbitCheckSummary → Ran
report_summary (db, err e) = returned (db, err (checks_failed e))
report_summary (db, ok s) =
    if s.aborted
    then returned (db, err (checks_failed circuit_open))
    else returned (db, ok (some s))

-- What `execute_for_ids` makes of it.
unfoldable pub pass_summary : OrbitDb × Result OrbitError OrbitCheckSummary → Ran
pass_summary (db, err e) = returned (db, err (checks_failed e))
pass_summary (db, ok s) = returned (db, ok (some s))

unfoldable pub and_then :
    Outcome (OrbitDb × Result OrbitError OrbitCheckSummary)
    → (OrbitDb × Result OrbitError OrbitCheckSummary → Ran)
    → Ran
and_then (returned r) f = f r
and_then panicked f = panicked
and_then running f = running

module _ (collates : String → String → Bool) (completion : ℕ → Completion) (now : ℕ → DateTime)
    (faults : Faults) (fuel : ℕ) where
  -- The checks of the candidates before a given time.
  unfoldable pub sweep : OrbitDb → DateTime → Ran
  unfolding count_asteroids_needing_orbit_check stream_asteroids_needing_orbit_check stream_items
      run_orbit_checks report_summary and_then
  sweep db t =
      if faults.count_down
      then returned (db, err count_failed)
      else elim (count_asteroids_needing_orbit_check db t == 0) [
        | true ↦ returned (db, ok none)
        | false ↦
            and_then
              (run_orbit_checks completion now faults.flush_down faults.client_down fuel db (
                stream_items faults.stream_breaks
                  (stream_asteroids_needing_orbit_check collates db t)))
              report_summary
      ]

  -- `today` is the clock when the candidates are chosen.
  unfoldable pub execute : Bool → ℕ → DateTime → OrbitDb → Ran
  unfolding stale_before sweep
  execute recompute stale_days today db =
      if faults.pool_down
      then returned (db, err pool_failed)
      else elim (stale_before recompute today stale_days) [
        | panicked ↦ panicked
        | running ↦ running
        | returned t ↦ sweep db t
      ]

  -- The query of candidates fails if `count_down`.
  unfoldable pub execute_for_ids : List Uuid → OrbitDb → Ran
  unfolding orbit_candidates_for_ids run_orbit_checks pass_summary and_then
  execute_for_ids [] db = returned (db, ok none)
  execute_for_ids (i ∷ ids) db =
      if faults.pool_down
      then returned (db, err pool_failed)
      else (if faults.count_down
          then returned (db, err count_failed)
          else elim (orbit_candidates_for_ids collates db (i ∷ ids)) [
            | [] ↦ returned (db, ok none)
            | c ∷ cs ↦
                and_then
                  (run_orbit_checks completion now faults.flush_down faults.client_down fuel db
                    (map ok (c ∷ cs)))
                  pass_summary
          ])
