-- ===== src/Events/Token.antt =====
-- The comparison of tokens in src/api/handlers/internal_events.rs.
use Prim.Native.Nat.{bit_xor, bit_xor-bitwise, bit_or, bit_or-bitwise, digits, differ}
use mathlib.Core.Path.{ap₂, subst}
use rustroid_sentinel.Prelude.{
  ℕ, zero, suc, ◌/◌, ◌%◌, ◌≤◌, max, ◌≡◌, ◌↔◌, ◌≢◌, inl, inr, refl, ap, sym, ◌∙◌, true, Option, none,
  List, [], ◌∷◌, ◌++◌, ◌==◌, ==_self, arith, length, Bool-cases,
}
use rustroid_sentinel.Database.HazardEvents.{HazardEvent}
use rustroid_sentinel.Events.{
  fold_diff, constant_time_eq, accepted, unauthorized, provided_token, ingest_events,
}

differ-zero : (x y : ℕ) → differ x y ≡ 0 → x ≡ y
differ-zero zero y h = sym h
differ-zero (suc x) zero h = h
differ-zero (suc x) (suc y) h = ap suc (differ-zero x y h)

differ_self : (x : ℕ) → differ x x ≡ 0
differ_self zero = refl
differ_self (suc x) = differ_self x

digits-differ : (n a b : ℕ) → a ≤ n → digits (λ b. b) differ n a b ≡ 0 → a ≡ b
digits-differ zero a b le h = omega (arith, le, h)
digits-differ (suc n) zero b le h = sym h
digits-differ (suc n) (suc a) b le h =
    let high = digits-differ n (suc a / 2) (b / 2) (omega (arith, le)) (omega (arith, h)) in
    let low = differ-zero (suc a % 2) (b % 2) (omega (arith, h)) in omega (arith, high, low)

digits-same : (n a : ℕ) → a ≤ n → digits (λ b. b) differ n a a ≡ 0
digits-same zero a le = omega (arith, le)
digits-same (suc n) zero le = refl
digits-same (suc n) (suc a) le =
    omega (arith, digits-same n (suc a / 2) (omega (arith, le)), differ_self (suc a % 2))

digits-max : (n a b : ℕ) → a ≤ n → digits (λ b. b) max n a b ≡ 0 → (a ≡ 0) × (b ≡ 0)
digits-max zero a b le h = (omega (arith, le), h)
digits-max (suc n) zero b le h = (refl, h)
digits-max (suc n) (suc a) b le h =
    let (high, _) = digits-max n (suc a / 2) (b / 2) (omega (arith, le)) (omega (arith, h)) in
    absurd (omega (arith, high, h))

bit_xor_zero : (a b : ℕ) → bit_xor a b ≡ 0 → a ≡ b
bit_xor_zero a b h =
    let digitwise : bit_xor a b ≡ digits (λ b. b) differ a a b = bit_xor-bitwise a b in
    digits-differ a a b (omega arith) (sym digitwise ∙ h)

bit_xor_self : (a : ℕ) → bit_xor a a ≡ 0
bit_xor_self a =
    let digitwise : bit_xor a a ≡ digits (λ b. b) differ a a a = bit_xor-bitwise a a in
    digitwise ∙ digits-same a a (omega arith)

bit_or_zero : (a b : ℕ) → bit_or a b ≡ 0 → (a ≡ 0) × (b ≡ 0)
bit_or_zero a b h =
    let digitwise : bit_or a b ≡ digits (λ b. b) max a a b = bit_or-bitwise a b in
    digits-max a a b (omega arith) (sym digitwise ∙ h)

fold_diff_zero :
    (d : ℕ) (xs ys : List ℕ) → length xs ≡ length ys → fold_diff d xs ys ≡ 0 → (d ≡ 0) × (xs ≡ ys)
unfolding fold_diff
fold_diff_zero d [] [] l h = (h, refl)
fold_diff_zero d [] (y ∷ ys) l h = absurd (omega (arith, l))
fold_diff_zero d (x ∷ xs) [] l h = absurd (omega (arith, l))
fold_diff_zero d (x ∷ xs) (y ∷ ys) l h =
    let (here, rest) = fold_diff_zero (bit_or d (bit_xor x y)) xs ys (omega (arith, l)) h in
    let (before, same) = bit_or_zero d (bit_xor x y) here in
    (before, ap₂ (λ z zs. z ∷ zs) (bit_xor_zero x y same) rest)

fold_diff_self : (xs : List ℕ) → fold_diff 0 xs xs ≡ 0
unfolding fold_diff
fold_diff_self [] = refl
fold_diff_self (x ∷ xs) =
    let nothing : bit_or 0 (bit_xor x x) ≡ 0 = ap (bit_or 0) (bit_xor_self x) ∙ refl in
    rw nothing (fold_diff_self xs)

-- The comparison holds of two byte strings exactly when they are the same.
constant_time_eq_lem : (a b : List ℕ) → (constant_time_eq a b ≡ true) ↔ (a ≡ b)
unfolding constant_time_eq
constant_time_eq_lem a b = (same, differs)
  where
    same : constant_time_eq a b ≡ true → a ≡ b
    same h = elim (Bool-cases (length a == length b)) [
      | inl long ↦ let (_, e) = fold_diff_zero 0 a b (ground arith) (ground arith) in e
      | inr short ↦ absurd (ground arith)
    ]

    differs : a ≡ b → constant_time_eq a b ≡ true
    differs e =
        subst (λ c. constant_time_eq a c ≡ true) e
          (rw (constant_time_eq, ==_self (length a), fold_diff_self a) refl)

ingest_events_accepts :
    (token : List ℕ) (header : Option (List ℕ)) (events sent : List HazardEvent)
    → provided_token header ≡ token
    → ingest_events token header events sent ≡ (accepted, sent ++ events)
unfolding ingest_events
ingest_events_accepts token header events sent e =
    let (_, equal) = constant_time_eq_lem (provided_token header) token in
    rw (ingest_events, equal e) refl

-- A request is accepted exactly when the bytes it gives, or none if it gives no token, are those of
-- the server's token; then its events are sent in order after those sent before. Any other request
-- is unauthorized and sends nothing. So an empty token on the server lets every request without one
-- pass.
pub ingest_events_lem :
    (token : List ℕ) (header : Option (List ℕ)) (events sent : List HazardEvent)
    → (provided_token header ≡ token
        → ingest_events token header events sent ≡ (accepted, sent ++ events))
      × (provided_token header ≢ token
          → ingest_events token header events sent ≡ (unauthorized, sent))
      × (ingest_events [] none events sent ≡ (accepted, sent ++ events))
unfolding ingest_events
ingest_events_lem token header events sent = (
  ingest_events_accepts token header events sent,
  fails,
  ingest_events_accepts [] none events sent refl,
)
  where
    fails :
        provided_token header ≢ token
        → ingest_events token header events sent ≡ (unauthorized, sent)
    fails differs = elim (Bool-cases (constant_time_eq (provided_token header) token)) [
      | inl e ↦
          let (equal, _) = constant_time_eq_lem (provided_token header) token in
          absurd (differs (equal e))
      | inr e ↦ rw (ingest_events, e) refl
    ]
