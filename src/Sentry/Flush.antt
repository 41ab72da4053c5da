-- ===== src/Sentry/Flush.antt =====
-- The buffered updates of src/cli/sentry.rs.
use rustroid_sentinel.Prelude.{
  append_assoc, append_nil, ℕ, ◌+◌, ◌≡◌, refl, ap, sym, ◌∙◌, false, none, List, [], ◌∷◌, ◌++◌, leb,
  arith, length, All, Bool-cases, inl, inr, Result, ok,
}
use rustroid_sentinel.Models.{DateTime}
use rustroid_sentinel.Database.{Db}
use rustroid_sentinel.Sentry.Updates.{update_rows-append, update_rows-none}
use rustroid_sentinel.Sentry.{
  Update, found, absent, lookup_error, Joined, outcome, task_failed, SentryError, update_rows,
  affected, update_sentry_scales, Progress, SentryCheckSummary, apply_outcome, join_chunk,
  update_flush_size, run_chunks, run_sentry_checks,
}

-- The updates, the matches and the errors of a list of outcomes.
abbrev pub updates_of : List Joined → List Update
updates_of [] = []
updates_of (task_failed ∷ chunk) = updates_of chunk
updates_of (outcome id ref (found t p) ∷ chunk) =
    record { id = id; torino_scale = t; palermo_scale = p } ∷ updates_of chunk
updates_of (outcome id ref absent ∷ chunk) =
    record { id = id; torino_scale = none; palermo_scale = none } ∷ updates_of chunk
updates_of (outcome id ref lookup_error ∷ chunk) = updates_of chunk

abbrev pub errors_of : List Joined → ℕ
errors_of [] = 0
errors_of (task_failed ∷ chunk) = errors_of chunk
errors_of (outcome id ref (found t p) ∷ chunk) = errors_of chunk
errors_of (outcome id ref absent ∷ chunk) = errors_of chunk
errors_of (outcome id ref lookup_error ∷ chunk) = errors_of chunk + 1

abbrev pub matches_of : List Joined → ℕ
matches_of [] = 0
matches_of (task_failed ∷ chunk) = matches_of chunk
matches_of (outcome id ref (found t p) ∷ chunk) = matches_of chunk + 1
matches_of (outcome id ref absent ∷ chunk) = matches_of chunk
matches_of (outcome id ref lookup_error ∷ chunk) = matches_of chunk

abbrev pub IsOutcome : Joined → Type 0
IsOutcome task_failed = ⊥
IsOutcome (outcome id ref result) = Unit

abbrev pub flatten {ℓ} : {A : Type ℓ} → List (List A) → List A
flatten [] = []
flatten (chunk ∷ chunks) = chunk ++ flatten chunks

-- Joined chunks
of_append :
    (c d : List Joined)
    → (updates_of (c ++ d) ≡ updates_of c ++ updates_of d)
      × (matches_of (c ++ d) ≡ matches_of c + matches_of d)
      × (errors_of (c ++ d) ≡ errors_of c + errors_of d)
of_append [] d = (refl, omega arith, omega arith)
of_append (task_failed ∷ c) d = of_append c d
of_append (outcome id ref (found t p) ∷ c) d =
    let (u, m, e) = of_append c d in
    (ap (λ l. record { id = id; torino_scale = t; palermo_scale = p } ∷ l) u, omega arith, e)
of_append (outcome id ref absent ∷ c) d =
    let (u, m, e) = of_append c d in
    (ap (λ l. record { id = id; torino_scale = none; palermo_scale = none } ∷ l) u, m, e)
of_append (outcome id ref lookup_error ∷ c) d = let (u, m, e) = of_append c d in (u, m, omega arith)

abbrev AddsTo : Progress → List Joined → Progress → Type 0
AddsTo p chunk p' =
    (p'.matched ≡ p.matched + matches_of chunk)
    × (p'.errored ≡ p.errored + errors_of chunk)
    × (p'.pending ≡ p.pending ++ updates_of chunk)

join_chunk_ok :
    (p : Progress) (chunk : List Joined)
    → All IsOutcome chunk
    → (p' : Progress) × (join_chunk p chunk ≡ ok p') × AddsTo p chunk p'
unfolding join_chunk apply_outcome
join_chunk_ok p [] _ = (p, refl, (omega arith, omega arith, sym (append_nil p.pending)))
join_chunk_ok p (task_failed ∷ chunk) (h, hs) = absurd h
join_chunk_ok p (outcome id ref (found t s) ∷ chunk) (h, hs) =
    let u : Update = record { id = id; torino_scale = t; palermo_scale = s } in
    let (p', e, (m, n, q)) =
      join_chunk_ok (record p { matched = p.matched + 1; pending = p.pending ++ u ∷ [] }) chunk
        hs in
    (
      p',
      e,
      (omega (arith, m), omega (arith, n), q ∙ append_assoc p.pending (u ∷ []) (updates_of chunk)),
    )
join_chunk_ok p (outcome id ref absent ∷ chunk) (h, hs) =
    let u : Update = record { id = id; torino_scale = none; palermo_scale = none } in
    let (p', e, (m, n, q)) = join_chunk_ok (record p { pending = p.pending ++ u ∷ [] }) chunk hs in
    (
      p',
      e,
      (omega (arith, m), omega (arith, n), q ∙ append_assoc p.pending (u ∷ []) (updates_of chunk)),
    )
join_chunk_ok p (outcome id ref lookup_error ∷ chunk) (h, hs) =
    let (p', e, (m, n, q)) = join_chunk_ok (record p { errored = p.errored + 1 }) chunk hs in
    (p', e, (omega (arith, m), omega (arith, n), q))

update_sentry_scales_up :
    (t : DateTime) (db : Db) (updates : List Update)
    → (db' : Db) × (rows : ℕ) × (update_sentry_scales false t db updates ≡ ok (db', rows))
      × (db'.asteroids ≡ update_rows t updates db.asteroids)
unfolding update_sentry_scales
update_sentry_scales_up t db [] = (db, 0, refl, sym (update_rows-none t db.asteroids))
update_sentry_scales_up t db (u ∷ updates) = (
  record db { asteroids = update_rows t (u ∷ updates) db.asteroids },
  affected (u ∷ updates) db.asteroids,
  refl,
  refl,
)

All-unappend : (c d : List Joined) → All IsOutcome (c ++ d) → All IsOutcome c × All IsOutcome d
All-unappend [] d h = (tt, h)
All-unappend (x ∷ c) d (h, hs) = let (a, b) = All-unappend c d hs in ((h, a), b)

module _ (t : DateTime) where
  abbrev Ends : Db → Progress → List Joined → Db × Result SentryError SentryCheckSummary → Type 0
  Ends db p all out =
      (db' : Db) × (s : SentryCheckSummary) × (out ≡ (db', ok s))
      × (s.matched ≡ p.matched + matches_of all)
      × (s.errored ≡ p.errored + errors_of all)
      × (db'.asteroids ≡ update_rows t (p.pending ++ updates_of all) db.asteroids)

  run_chunks-Ends :
      (k : ℕ) (db : Db) (p : Progress) (chunks : List (List Joined))
      → All IsOutcome (flatten chunks)
      → Ends db p (flatten chunks) (run_chunks (λ k. t) (λ k. false) k db p chunks)
  unfolding run_chunks
  run_chunks-Ends k db p [] _ =
      let (db', rows, e, same) = update_sentry_scales_up t db p.pending in
      (
        db',
        record { matched = p.matched; errored = p.errored; updated = p.updated + rows },
        rw (run_chunks, e) refl,
        omega arith,
        omega arith,
        same ∙ ap (λ us. update_rows t us db.asteroids) (sym (append_nil p.pending)),
      )
  run_chunks-Ends k db p (chunk ∷ chunks) h =
      let (here, rest) = All-unappend chunk (flatten chunks) h in
      let (p', e, (m, n, q)) = join_chunk_ok p chunk here in
      let (au, am, ae) = of_append chunk (flatten chunks) in
      let pending : p'.pending ++ updates_of (flatten chunks)
          ≡ p.pending ++ updates_of (chunk ++ flatten chunks) =
        ap (λ l. l ++ updates_of (flatten chunks)) q
        ∙ append_assoc p.pending (updates_of chunk) (updates_of (flatten chunks))
        ∙ ap (λ l. p.pending ++ l) (sym au) in
      elim (Bool-cases (leb update_flush_size (length p'.pending))) [
        | inr small ↦
            let (db', s, out, ms, es, rows) = run_chunks-Ends k db p' chunks rest in
            (
              db',
              s,
              rw (run_chunks, e, small) out,
              omega (arith, ms, m, am),
              omega (arith, es, n, ae),
              rows ∙ ap (λ us. update_rows t us db.asteroids) pending,
            )
        | inl large ↦
            let (db1, affected1, flushed, same) = update_sentry_scales_up t db p'.pending in
            let p1 : Progress = record p' { updated = p'.updated + affected1; pending = [] } in
            let (db', s, out, ms, es, rows) = run_chunks-Ends (k + 1) db1 p1 chunks rest in
            (
              db',
              s,
              rw (run_chunks, e, large, flushed) out,
              omega (arith, ms, m, am),
              omega (arith, es, n, ae),
              rows
                  ∙ ap (update_rows t (updates_of (flatten chunks))) same
                  ∙ update_rows-append t p'.pending (updates_of (flatten chunks)) db.asteroids
                  ∙ ap (λ us. update_rows t us db.asteroids) pending,
            )
      ]

  -- When no task panics and no flush fails, and all flushes run at one time, the checks return:
  -- the matches and the errors are those of all lookups, and `asteroids` is as after one update
  -- with the outcomes of all lookups that did not fail. So no outcome is lost between flushes.
  pub run_sentry_checks_lem :
      (db : Db) (chunks : List (List Joined))
      → All IsOutcome (flatten chunks)
      → (db' : Db) × (s : SentryCheckSummary) × (run_sentry_checks (λ k. t) (λ k. false) db chunks
          ≡ (db', ok s))
        × (s.matched ≡ matches_of (flatten chunks))
        × (s.errored ≡ errors_of (flatten chunks))
        × (db'.asteroids ≡ update_rows t (updates_of (flatten chunks)) db.asteroids)
  unfolding run_sentry_checks
  run_sentry_checks_lem db chunks h =
      let (db', s, out, ms, es, rows) =
        run_chunks-Ends 0 db (record { matched = 0; errored = 0; updated = 0; pending = [] }) chunks
          h in
      (db', s, out, omega (arith, ms), omega (arith, es), rows)
