-- ===== src/Events/Subscribers/Bound.antt =====
-- The limit on subscribers of src/api/handlers/hazard_events_sse.rs.
use rustroid_sentinel.Prelude.{
  ℕ, zero, suc, ◌+◌, ◌^◌, ◌≤◌, ◌<◌, ◌≡◌, inl, inr, refl, ap, sym, ◌==◌, arith, Bool-cases,
}
use rustroid_sentinel.Events.Subscribers.{
  Pc, arrived, attached, Move, load, reject, win, lose, drop_guard, System, update, Step, step,
  Reach, start, later,
}

abbrev pub is_attached : Pc → ℕ
is_attached attached = 1
is_attached _ = 0

-- The streams that are open among the first `n` requests.
abbrev pub open_streams : ℕ → (ℕ → Pc) → ℕ
open_streams zero pc = 0
open_streams (suc n) pc = is_attached (pc n) + open_streams n pc

update_below :
    (n : ℕ) (pc : ℕ → Pc) (i : ℕ) (p : Pc)
    → n ≤ i
    → open_streams n (update pc i p) ≡ open_streams n pc
update_below zero pc i p h = refl
update_below (suc n) pc i p h = let rest = update_below n pc i p (omega (arith, h)) in ground arith

open_streams-update :
    (n : ℕ) (pc : ℕ → Pc) (i : ℕ) (p : Pc)
    → i < n
    → open_streams n (update pc i p) + is_attached (pc i) ≡ open_streams n pc + is_attached p
open_streams-update zero pc i p h = absurd (omega (arith, h))
open_streams-update (suc n) pc i p h = elim (Bool-cases (i == n)) [
  | inl last ↦
      let rest = update_below n pc i p (ground arith) in
      let here : is_attached (pc i) ≡ is_attached (pc n) =
        ap (λ j. is_attached (pc j)) (ground arith) in
      rw last (omega (arith, rest, here))
  | inr below ↦
      let rest = open_streams-update n pc i p (ground arith) in rw below (omega (arith, rest))
]

pub record IsCounted (max_subscribers n : ℕ) (s : System) : Type 0 where
  pub exact : s.count ≡ open_streams n s.pc
  pub bounded : open_streams n s.pc ≤ max_subscribers

-- The counter and the open streams change together.
abbrev Balanced : ℕ → ℕ → Pc → ℕ → Pc → Type 0
Balanced m count p count' p' =
    (is_attached p ≤ count)
    → count ≤ m
    → m < 2 ^ 64
    → (count' + is_attached p ≡ count + is_attached p') × (count' ≤ m)

Move-Balanced :
    {m count : ℕ} {p : Pc} {count' : ℕ} {p' : Pc}
    → Move m count p count' p'
    → Balanced m count p count' p'
Move-Balanced load held few small = (refl, few)
Move-Balanced (reject full) held few small = (refl, few)
Move-Balanced (win room same) held few small = (omega (arith, same), omega (arith, room))
Move-Balanced (lose room differs) held few small = (refl, few)
Move-Balanced drop_guard held few small =
    (omega (arith, held, few, small), omega (arith, held, few, small))

is_attached-le : (n : ℕ) (pc : ℕ → Pc) (i : ℕ) → i < n → is_attached (pc i) ≤ open_streams n pc
is_attached-le zero pc i h = absurd (omega (arith, h))
is_attached-le (suc n) pc i h = elim (Bool-cases (i == n)) [
  | inl last ↦
      let here : is_attached (pc i) ≡ is_attached (pc n) =
        ap (λ j. is_attached (pc j)) (ground arith) in
      omega (arith, here)
  | inr below ↦ let rest = is_attached-le n pc i (ground arith) in omega (arith, rest)
]

Step-IsCounted :
    {m n i : ℕ} {s t : System} → m < 2 ^ 64 → Step m n s i t → IsCounted m n s → IsCounted m n t
Step-IsCounted {m} {n} {s} small (step {i} {count} {p} {p'} lt e mv) c =
    let same : is_attached (s.pc i) ≡ is_attached p = ap is_attached e in
    let held = is_attached-le n s.pc i lt in
    let moved = open_streams-update n s.pc i p' lt in
    let (balance, few) =
      Move-Balanced mv (omega (arith, same, held, c.exact)) (omega (arith, c.exact, c.bounded))
        small in
    let exact : count ≡ open_streams n (update s.pc i p') =
      omega (arith, balance, moved, same, c.exact) in
    record { exact = exact; bounded = omega (arith, exact, few) }

-- In every reachable state, after any interleaving of any number of requests, the counter is the
-- number of open streams, and this is at most the limit, if the limit fits in 64 bits.
pub Reach-IsCounted :
    {max_subscribers n : ℕ} {s : System}
    → max_subscribers < 2 ^ 64
    → Reach max_subscribers n s
    → IsCounted max_subscribers n s
Reach-IsCounted {n} small start = record {
  exact = sym (none_open n);
  bounded = omega (arith, none_open n);
}
  where
    none_open : (n : ℕ) → open_streams n (λ _. arrived) ≡ 0
    none_open zero = refl
    none_open (suc n) = omega (arith, none_open n)
Reach-IsCounted small (later r st) = Step-IsCounted small st (Reach-IsCounted small r)
