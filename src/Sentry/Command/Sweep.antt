-- ===== src/Sentry/Command/Sweep.antt =====
-- The sweep of the `sentry` command, src/cli/sentry.rs.
use rustroid_sentinel.Prelude.{
  ℕ, ◌+◌, ◌≡◌, refl, sym, ap, ◌∙◌, String, Bool, false, Option, none, some, List, [], ◌∷◌, ◌++◌,
  ◌==◌, if◌then◌else◌, any, map, map_append, length, All, All-append, arith, Bool-cases, inl, inr,
  ok, returned,
}
use mathlib.Core.Path.{subst, ap₂}
use rustroid_sentinel.Models.{DateTime, Asteroid}
use rustroid_sentinel.Catalog.{order_rows}
use rustroid_sentinel.Database.{Db}
use rustroid_sentinel.Database.Chunks.{chunks}
use rustroid_sentinel.Database.Orbits.{Candidate, candidate_of, in_order}
use rustroid_sentinel.Database.Sentry.{needs_check, asteroids_needing_sentry_check}
use rustroid_sentinel.Database.Upsert.Keys.{AreDistinct, ids, is_id}
use rustroid_sentinel.Orbits.Command.{stale_before}
use rustroid_sentinel.Sentry.{
  find_update, set_scales, update_rows, Lookup, Joined, SentryCheckSummary,
}
use rustroid_sentinel.Sentry.Updates.{update_rows-none}
use rustroid_sentinel.Sentry.Flush.{updates_of, IsOutcome, flatten, run_sentry_checks_lem}
use rustroid_sentinel.Sentry.Command.{
  Faults, Ran, lookup_concurrency, report_checks, join_chunks, check_candidates, execute,
}
use rustroid_sentinel.Sentry.Command.Elements.{
  HasSameElements, All-unappend, order_rows-HasSameElements, flatten-chunks,
}
use rustroid_sentinel.Sentry.Command.Rows.{
  All-map, answer, outcome_of, outcomes-IsOutcome, find_update-none, find_update-only, any-Differs,
  Differs-any, chosen, Selects, chosen-Selects,
}

-- The candidates chunk by chunk, in the order in which their tasks end.
abbrev ended : (ℕ → List Candidate → List Candidate) → ℕ → List (List Candidate) → List Candidate
ended ends k [] = []
ended ends k (c ∷ cs) = ends k c ++ ended ends (k + 1) cs

module _ (lookup_by_spk : String → Lookup) (ends : ℕ → List Candidate → List Candidate) where
  -- Each task ends with the outcome of its lookup.
  abbrev pub joins : ℕ → List Candidate → List Joined
  joins k chunk = map (outcome_of lookup_by_spk) (ends k chunk)

  flatten-join_chunks :
      (k : ℕ) (cs : List (List Candidate))
      → flatten (join_chunks joins k cs) ≡ map (outcome_of lookup_by_spk) (ended ends k cs)
  unfolding join_chunks
  flatten-join_chunks k [] = refl
  flatten-join_chunks k (c ∷ cs) =
      ap (λ l. joins k c ++ l) (flatten-join_chunks (k + 1) cs)
      ∙ sym (map_append (outcome_of lookup_by_spk) (ends k c) (ended ends (k + 1) cs))

  ended-HasSameElements :
      ((k : ℕ) (c : List Candidate) → HasSameElements c (ends k c))
      → (k : ℕ) (cs : List (List Candidate)) → HasSameElements (flatten cs) (ended ends k cs)
  ended-HasSameElements same k [] = (λ P h. h, λ P h. h)
  ended-HasSameElements same k (c ∷ cs) =
      let (there, back) = same k c in
      let (theres, backs) = ended-HasSameElements same (k + 1) cs in
      (
        λ P h.
            let (a, b) = All-unappend P c (flatten cs) h in
            All-append P (ends k c) (ended ends (k + 1) cs) (there P a) (theres P b),
        λ P h.
            let (a, b) = All-unappend P (ends k c) (ended ends (k + 1) cs) h in
            All-append P c (flatten cs) (back P a) (backs P b),
      )

Selects-HasSameElements :
    (due : Asteroid → Bool) (a : Asteroid) (cs ds : List Candidate)
    → HasSameElements cs ds
    → Selects due cs a
    → Selects due ds a
Selects-HasSameElements due a cs ds (there, back) (yes_due, no_due) = (
  λ e.
      let (present, only) = yes_due e in
      (
        elim (Bool-cases (any (λ (d : Candidate). d.id == a.id) ds)) [
          | inl h ↦ h
          | inr h ↦ let gone = Differs-any a.id cs (back _ (any-Differs a.id ds h)) in absurd cc
        ],
        there _ only,
      ),
  λ e. there _ (no_due e),
)

module _ (lookup_by_spk : String → Lookup) (t before : DateTime) where
  -- A row after the sweep: if it was due, it has the answer of its lookup.
  abbrev pub checked : Asteroid → Asteroid
  checked a =
      set_scales t
        (if needs_check before a then answer a.id (lookup_by_spk a.neo_reference_id) else none) a

  update_rows-checked :
      (cs : List Candidate) (rows : List Asteroid)
      → All (Selects (needs_check before) cs) rows
      → update_rows t (updates_of (map (outcome_of lookup_by_spk) cs)) rows ≡ map checked rows
  update_rows-checked cs [] _ = refl
  update_rows-checked cs (a ∷ rows) ((yes_due, no_due), hs) =
      let here : find_update a.id (updates_of (map (outcome_of lookup_by_spk) cs)) ≡ (
          if needs_check before a then answer a.id (lookup_by_spk a.neo_reference_id) else none) =
        elim (Bool-cases (needs_check before a)) [
          | inl due ↦
              let (there, only) = yes_due due in
              rw due (find_update-only lookup_by_spk (candidate_of a) cs there only)
          | inr fresh ↦ rw fresh (find_update-none lookup_by_spk a.id cs (no_due fresh))
        ] in
      ap₂ (λ o l. set_scales t o a ∷ l) here (update_rows-checked cs rows hs)

abbrev pub nothing_down : Faults
nothing_down = record {
  pool_down = false;
  selection_down = false;
  client_down = false;
  flush_down = λ _. false;
}

module _ (collates : String → String → Bool) (lookup_by_spk : String → Lookup)
    (ends : ℕ → List Candidate → List Candidate) (t : DateTime) where
  abbrev Checks : DateTime → Db → Ran → Type 0
  Checks before db out =
      (db' : Db) × (r : Option SentryCheckSummary) × (out ≡ (db', ok r))
      × (db'.asteroids ≡ map (checked lookup_by_spk t before) db.asteroids)

  check_candidates-Checks :
      ((k : ℕ) (c : List Candidate) → HasSameElements c (ends k c))
      → (before : DateTime) (db : Db) (cs : List Candidate)
      → All (Selects (needs_check before) cs) db.asteroids
      → Checks before db
          (check_candidates collates (joins lookup_by_spk ends) (λ _. t) nothing_down db cs)
  unfolding check_candidates report_checks
  check_candidates-Checks same before db [] h = (
    db,
    none,
    refl,
    sym (update_rows-none t db.asteroids)
        ∙ update_rows-checked lookup_by_spk t before [] db.asteroids h,
  )
  check_candidates-Checks same before db (c ∷ cs) h =
      let fives : List (List Candidate) = chunks (length (c ∷ cs)) lookup_concurrency (c ∷ cs) in
      let tasks : List (List Joined) = join_chunks (joins lookup_by_spk ends) 0 fives in
      let flat = flatten-join_chunks lookup_by_spk ends 0 fives in
      let whole : flatten fives ≡ c ∷ cs =
        flatten-chunks (length (c ∷ cs)) 4 (c ∷ cs) (omega arith) in
      let (db', s, e, ms, es, rows) = run_sentry_checks_lem t db tasks (
        subst (All IsOutcome) (sym flat) (outcomes-IsOutcome lookup_by_spk (ended ends 0 fives))) in
      (
        db',
        some s,
        ap report_checks e,
        rows
            ∙ ap (λ l. update_rows t (updates_of l) db.asteroids) flat
            ∙ update_rows-checked lookup_by_spk t before (ended ends 0 fives) db.asteroids (
                All-map db.asteroids
                  (λ a.
                    Selects-HasSameElements (needs_check before) a (c ∷ cs) (ended ends 0 fives) (
                      subst (λ l. HasSameElements l (ended ends 0 fives)) whole
                        (ended-HasSameElements lookup_by_spk ends same 0 fives)))
                  h),
      )

  -- When nothing fails but lookups, all writes are at one time `t`, the ids of `asteroids` are
  -- distinct, and the tasks of each chunk end in some order, `execute` returns without an error. The
  -- rows of `asteroids` are then the old ones, in which exactly those that were flagged and had no
  -- check, or one before the time that the arguments give, have the answer of their own lookup and
  -- the stamp `t`, unless that lookup failed.
  pub execute_checks_due :
      (recompute : Bool) (stale_days today before : ℕ) (db : Db)
      → stale_before recompute today stale_days ≡ returned before
      → ((k : ℕ) (c : List Candidate) → HasSameElements c (ends k c))
      → AreDistinct is_id (ids db.asteroids)
      → (db' : Db) × (r : Option SentryCheckSummary) × (execute collates
            (joins lookup_by_spk ends)
            (λ _. t)
            nothing_down
            recompute
            stale_days
            today
            db
          ≡ returned (db', ok r))
        × (db'.asteroids ≡ map (checked lookup_by_spk t before) db.asteroids)
  unfolding execute asteroids_needing_sentry_check
  execute_checks_due recompute stale_days today before db e same distinct =
      let cs : List Candidate = chosen (needs_check before) db.asteroids in
      let sorted : List Candidate = order_rows (in_order collates) cs in
      let (db', r, out, rows) = check_candidates-Checks same before db sorted (
        All-map db.asteroids
          (λ a.
            Selects-HasSameElements (needs_check before) a cs sorted
              (order_rows-HasSameElements (in_order collates) cs))
          (chosen-Selects (needs_check before) db.asteroids distinct)) in
      (db', r, rw (execute, e, asteroids_needing_sentry_check, out) refl, rows)
