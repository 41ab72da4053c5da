-- ===== src/Orbits/Command/Sweep.antt =====
-- The sweep of the `orbits` command, src/cli/orbits.rs.
use rustroid_sentinel.Prelude.{
  ℕ, ◌≤◌, ◌<◌, ◌≡◌, inl, inr, refl, String, Bool, true, false, none, some, List, [], ◌∷◌, ◌==◌,
  arith, length, Bool-cases, ok, err, returned,
}
use rustroid_sentinel.Models.{Uuid, DateTime}
use rustroid_sentinel.Database.Orbits.{
  OrbitDb, Candidate, count_asteroids_needing_orbit_check, stream_asteroids_needing_orbit_check,
}
use rustroid_sentinel.Database.Orbits.Rows.{occurs, find_row, IsChecked, asteroids_at}
use rustroid_sentinel.Database.Orbits.Candidates.{
  rows_at, is_due, stream_asteroids_needing_orbit_check_lem,
}
use rustroid_sentinel.Orbits.{Completion, circuit_open}
use rustroid_sentinel.Orbits.Complete.{run_orbit_checks_complete}
use rustroid_sentinel.Orbits.Command.{
  checks_failed, Faults, Ran, stale_before, stream_items, report_summary, and_then, sweep, execute,
}

abbrev pub all_up : Faults
all_up = record {
  pool_down = false;
  count_down = false;
  client_down = false;
  stream_breaks = none;
  flush_down = λ _. false;
}

-- How a sweep at `t` of the asteroids that are due before `before` ends.
abbrev pub IsSwept : DateTime → DateTime → OrbitDb → Ran → Type 0
IsSwept t before db (returned (db', ok none)) =
    (db' ≡ db)
    × ((i : Uuid)
        → 1 ≤ asteroids_at i db.asteroids
        → is_due before (find_row i db.asteroid_orbits) ≡ false)
IsSwept t before db (returned (db', ok (some s))) =
    (s.aborted ≡ false)
    × (s.errored ≡ 0
        → (i : Uuid) → 1 ≤ asteroids_at i db.asteroids
        → is_due before (find_row i db.asteroid_orbits) ≡ true
        → IsChecked t i db'.asteroid_orbits)
IsSwept t before db (returned (db', err e)) = e ≡ checks_failed circuit_open
IsSwept t before db _ = ⊥

occurs-le {ℓ} : {A : Type ℓ} (key : A → ℕ) (i : ℕ) (xs : List A) → occurs key i xs ≤ length xs
occurs-le key i [] = omega arith
occurs-le key i (x ∷ xs) = let rest = occurs-le key i xs in ground arith

module _ (collates : String → String → Bool) (completion : ℕ → Completion) (t : DateTime)
    (fuel : ℕ) where
  sweep-IsSwept :
      (db : OrbitDb) (before : DateTime)
      → length (stream_asteroids_needing_orbit_check collates db before) < fuel
      → ((i : Uuid) → asteroids_at i db.asteroids ≤ 1)
      → ((i : Uuid) → rows_at i db.asteroid_orbits ≤ 1)
      → IsSwept t before db (sweep collates completion (λ _. t) all_up fuel db before)
  unfolding sweep and_then report_summary stream_items
  sweep-IsSwept db before enough ids orbits =
      let cs : List Candidate = stream_asteroids_needing_orbit_check collates db before in
      let (at, size) = stream_asteroids_needing_orbit_check_lem collates db before orbits in
      elim (Bool-cases (count_asteroids_needing_orbit_check db before == 0)) [
        | inl nothing ↦
            rw (sweep, nothing)
              (
                refl,
                λ i there. elim (Bool-cases (is_due before (find_row i db.asteroid_orbits))) [
                  | inr fresh ↦ fresh
                  | inl due ↦ absurd (
                      let b = occurs-le (λ (c : Candidate). c.id) i cs in
                      let c = at i in ground (arith, size))
                ],
              )
        | inr some_due ↦
            let (db', s, e, all) =
              run_orbit_checks_complete completion t fuel db cs enough
                (λ i. let c = at i in let one = ids i in ground arith)
                (λ i h. let c = at i in ground arith) in
            elim (Bool-cases s.aborted) [
              | inl stopped ↦ rw (sweep, some_due, and_then, e, stopped) refl
              | inr ended ↦
                  rw (sweep, some_due, and_then, e, ended)
                    (ended, λ h i there due. all h i (let c = at i in ground arith))
            ]
      ]

  -- When nothing fails but lookups, no id is in two rows of a table, all writes are at one time `t`,
  -- and the fuel is more than there are candidates, `execute` ends in one of three ways. It writes
  -- nothing because no asteroid is due: each has a row with a check no older than the time that the
  -- arguments give. Or it ends with a summary that has not stopped early, and if that has no errors,
  -- the row of each asteroid that was due is of the check at `t`. Or it fails, because the checks
  -- stopped early. It never meets a repeated or an unknown id.
  pub execute-IsSwept :
      (recompute : Bool) (stale_days today before : ℕ) (db : OrbitDb)
      → stale_before recompute today stale_days ≡ returned before
      → length (stream_asteroids_needing_orbit_check collates db before) < fuel
      → ((i : Uuid) → asteroids_at i db.asteroids ≤ 1)
      → ((i : Uuid) → rows_at i db.asteroid_orbits ≤ 1)
      → IsSwept t before db
          (execute collates completion (λ _. t) all_up fuel recompute stale_days today db)
  unfolding execute
  execute-IsSwept recompute stale_days today before db e enough ids orbits =
      rw (execute, e) (sweep-IsSwept db before enough ids orbits)
