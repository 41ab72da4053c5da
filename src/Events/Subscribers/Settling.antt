-- ===== src/Events/Subscribers/Settling.antt =====
-- Requests that settle in src/api/handlers/hazard_events_sse.rs.
use mathlib.Core.Path.{subst}
use rustroid_sentinel.Prelude.{
  ℕ, suc, ◌≤◌, ◌<◌, ◌≡◌, ◌⊎◌, ◌∙◌, inl, inr, refl, ap, sym, ltb, ◌==◌, if◌then◌else◌, arith,
  Bool-cases,
}
use rustroid_sentinel.Events.Subscribers.{
  Pc, arrived, loaded, attached, rejected, Move, load, reject, win, lose, System, update, Step,
  step,
}

-- `k` steps of request `i` and of no other.
pub data OwnSteps (max_subscribers n i : ℕ) : ℕ → System → System → Type 0 where
  stays : {s : System} → OwnSteps max_subscribers n i 0 s s
  takes :
      {k : ℕ} {s t u : System}
      → Step max_subscribers n s i t
      → OwnSteps max_subscribers n i k t u
      → OwnSteps max_subscribers n i (suc k) s u

update_here : (pc : ℕ → Pc) (i : ℕ) (p : Pc) → update pc i p i ≡ p
update_here pc i p = ground arith

-- Where a request that runs alone ends.
abbrev pub verdict : ℕ → ℕ → Pc
verdict max_subscribers count = if ltb count max_subscribers then attached else rejected

abbrev pub Settles : ℕ → ℕ → ℕ → ℕ → Pc → System → Type 0
Settles m n i k p s = (t : System) × OwnSteps m n i k s t × (t.pc i ≡ p)

module _ (m n i : ℕ) (lt : i < n) where
  -- one step, to a place that is known
  moves :
      {k count : ℕ} {p p' q : Pc} (s : System)
      → s.pc i ≡ p
      → Move m s.count p count p'
      → ((t : System) → t.pc i ≡ p' → t.count ≡ count → Settles m n i k q t)
      → Settles m n i (suc k) q s
  moves {count} {p'} s e mv rest =
      let t : System = record { count = count; pc = update s.pc i p' } in
      let (u, steps, at) = rest t (update_here s.pc i p') refl in
      (u, takes (step lt e mv) steps, at)

  stays_at : {p : Pc} (t : System) → t.pc i ≡ p → Settles m n i 0 p t
  stays_at t e = (t, stays, e)

  decides : (s : System) → s.pc i ≡ loaded s.count → Settles m n i 1 (verdict m s.count) s
  decides s e = elim (Bool-cases (ltb s.count m)) [
    | inl room ↦ rw room (moves s e (win (ground arith) refl) (λ t f _. stays_at t f))
    | inr full ↦ rw full (moves s e (reject (ground arith)) (λ t f _. stays_at t f))
  ]

  arrives : (s : System) → s.pc i ≡ arrived → Settles m n i 2 (verdict m s.count) s
  arrives s e = moves s e load λ t f same.
      subst (λ c. Settles m n i 1 (verdict m c) t) same (decides t (f ∙ ap loaded (sym same)))

  -- A request that runs alone for a while settles, whatever the other requests have done before.
  -- One that is about to load the counter is attached two steps later if the counter is below the
  -- limit, and else rejected. One that has loaded it, however long ago, is attached or rejected
  -- after at most three steps.
  pub hazard_events_stream-Settles :
      (s : System)
      → (s.pc i ≡ arrived → Settles m n i 2 (verdict m s.count) s)
        × ((current : ℕ)
            → s.pc i ≡ loaded current
            → (k : ℕ) × (p : Pc) × (k ≤ 3)
              × ((p ≡ attached) ⊎ (p ≡ rejected))
              × Settles m n i k p s)
  hazard_events_stream-Settles s = (arrives s, stale)
    where
      settled : (count : ℕ) → (verdict m count ≡ attached) ⊎ (verdict m count ≡ rejected)
      settled count = elim (Bool-cases (ltb count m)) [
        | inl room ↦ rw room (inl refl)
        | inr full ↦ rw full (inr refl)
      ]

      stale :
          (current : ℕ)
          → s.pc i ≡ loaded current
          → (k : ℕ) × (p : Pc) × (k ≤ 3) × ((p ≡ attached) ⊎ (p ≡ rejected)) × Settles m n i k p s
      stale current e = elim (Bool-cases (ltb current m)) [
        | inr full ↦ (
          1,
          rejected,
          omega arith,
          inr refl,
          moves s e (reject (ground arith)) (λ t f _. stays_at t f),
        )
        | inl room ↦ elim (Bool-cases (s.count == current)) [
          | inl same ↦ (
            1,
            attached,
            omega arith,
            inl refl,
            moves s e (win (ground arith) (ground arith)) (λ t f _. stays_at t f),
          )
          | inr differs ↦ (
            3,
            verdict m s.count,
            omega arith,
            settled s.count,
            moves s e (lose (ground arith) (ground arith))
                λ t f kept. subst (λ c. Settles m n i 2 (verdict m c) t) kept (arrives t f),
          )
        ]
      ]
