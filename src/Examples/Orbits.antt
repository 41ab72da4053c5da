-- ===== src/Examples/Orbits.antt =====
-- The orbit checks on a small table.
use rustroid_sentinel.Prelude.{
  ◌≤◌, ◌<◌, ◌≡◌, ℕ, refl, String, Bool, true, false, List, [], ◌∷◌, length, map, ◌==◌,
  if◌then◌else◌, arith, Result, ok, returned,
}
use rustroid_sentinel.Models.{Uuid}
use rustroid_sentinel.Database.Orbits.{
  default_summary, OrbitDb, Candidate, count_asteroids_needing_orbit_check,
  stream_asteroids_needing_orbit_check, stale, stale_of, unchecked,
}
use rustroid_sentinel.Database.Orbits.Rows.{find_row, IsChecked, asteroids_at}
use rustroid_sentinel.Database.Orbits.Candidates.{
  candidates_at, rows_at, is_due, stream_asteroids_needing_orbit_check_lem,
}
use rustroid_sentinel.Catalog.{insert_row, order_rows}
use rustroid_sentinel.Orbits.{
  found, absent, Completion, OrbitError, OrbitCheckSummary, run_orbit_checks,
}
use rustroid_sentinel.Orbits.Counts.{IsTotal, run_orbit_checks-IsTotal}
use rustroid_sentinel.Orbits.Complete.{run_orbit_checks_complete}
use rustroid_sentinel.Orbits.Command.{stale_before, execute}
use rustroid_sentinel.Orbits.Command.Sweep.{all_up, IsSwept, execute-IsSwept}
use rustroid_sentinel.Examples.{asteroid}

-- Apophis has a row of 100, Bennu has none.
abbrev orbit_db : OrbitDb
orbit_db = record {
  asteroids = asteroid 10 "99942" "Apophis" ∷ asteroid 11 "101955" "Bennu" ∷ [];
  asteroid_orbits =
      record { asteroid_id = 10; elements = default_summary; orbit_checked_at = 100 } ∷ [];
}

abbrev candidates : List Candidate
candidates =
    record { id = 10; neo_reference_id = "99942" }
    ∷ record { id = 11; neo_reference_id = "101955" }
    ∷ []

-- The second of the lookups in flight ends first.
abbrev completion : ℕ → Completion
completion k = record { index = 1; answer = if k == 0 then absent else found default_summary }

abbrev collates : String → String → Bool
collates s t = true

run_orbit_checks-IsTotal_example :
    (r : OrbitDb × Result OrbitError OrbitCheckSummary) × (run_orbit_checks completion
        (λ _. 500)
        (λ _. false)
        false
        3
        orbit_db
        (map ok candidates)
      ≡ returned r)
    × IsTotal 2 r
run_orbit_checks-IsTotal_example =
    run_orbit_checks-IsTotal completion (λ _. 500) (λ _. false) false 3 orbit_db (map ok candidates)
      (omega arith)

candidates_once : (i : Uuid) → candidates_at i candidates ≤ 1
candidates_once i = ground arith

candidates_known :
    (i : Uuid) → 1 ≤ candidates_at i candidates → 1 ≤ asteroids_at i orbit_db.asteroids
candidates_known i h = ground arith

run_orbit_checks_complete_example :
    (db' : OrbitDb) × (s : OrbitCheckSummary) × (run_orbit_checks completion
        (λ _. 500)
        (λ _. false)
        false
        3
        orbit_db
        (map ok candidates)
      ≡ returned (db', ok s))
    × (s.errored ≡ 0
        → (i : Uuid) → 1 ≤ candidates_at i candidates
        → IsChecked 500 i db'.asteroid_orbits)
run_orbit_checks_complete_example =
    run_orbit_checks_complete completion 500 3 orbit_db candidates (omega arith) candidates_once
      candidates_known

orbit_rows_once : (i : Uuid) → rows_at i orbit_db.asteroid_orbits ≤ 1
orbit_rows_once i = ground arith

asteroids_once : (i : Uuid) → asteroids_at i orbit_db.asteroids ≤ 1
asteroids_once i = ground arith

stream_asteroids_needing_orbit_check_lem_example :
    ((i : Uuid)
      → candidates_at i (stream_asteroids_needing_orbit_check collates orbit_db 200) ≡ (
          if is_due 200 (find_row i orbit_db.asteroid_orbits)
          then asteroids_at i orbit_db.asteroids
          else 0))
    × (count_asteroids_needing_orbit_check orbit_db 200
        ≡ length (stream_asteroids_needing_orbit_check collates orbit_db 200))
stream_asteroids_needing_orbit_check_lem_example =
    stream_asteroids_needing_orbit_check_lem collates orbit_db 200 orbit_rows_once

few_candidates : length (stream_asteroids_needing_orbit_check collates orbit_db 200) < 3
unfolding stream_asteroids_needing_orbit_check stale stale_of unchecked insert_row order_rows
few_candidates = omega arith

time_of_check : stale_before true 200 7 ≡ returned 200
unfolding stale_before
time_of_check = refl

execute-IsSwept_example :
    IsSwept 500 200 orbit_db (execute collates completion (λ _. 500) all_up 3 true 7 200 orbit_db)
execute-IsSwept_example =
    execute-IsSwept collates completion 500 3 true 7 200 200 orbit_db time_of_check few_candidates
      asteroids_once orbit_rows_once
