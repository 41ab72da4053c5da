-- ===== src/Database/Retention/Newest/Lists.antt =====
-- Lists of events, and the order in which src/database/retention.rs lists them.
use rustroid_sentinel.Prelude.{
  ℕ, zero, suc, ◌≤◌, ◌≡◌, inl, inr, refl, ap, ◌∙◌, Bool, true, false, ◌&&◌, List, [], ◌∷◌, leb,
  ◌==◌, arith, length, any, filter, take, All, Bool-cases,
}
use rustroid_sentinel.Models.{Uuid, DateTime}
use rustroid_sentinel.Database.{EtlEvent}
use rustroid_sentinel.Database.Retention.{insert_event, newest_first}

-- What holds of each element of a list and the list.
pub All-self :
    (R : EtlEvent → List EtlEvent → Type 0)
    → ((x : EtlEvent) (xs : List EtlEvent) → R x (x ∷ xs))
    → ((e x : EtlEvent) (xs : List EtlEvent) → R e xs → R e (x ∷ xs))
    → (xs : List EtlEvent) → All (λ e. R e xs) xs
All-self R here there [] = tt
All-self R here there (x ∷ xs) = (here x xs, weaken xs (All-self R here there xs))
  where
    weaken : (ys : List EtlEvent) → All (λ e. R e xs) ys → All (λ e. R e (x ∷ xs)) ys
    weaken [] _ = tt
    weaken (y ∷ ys) (r, rs) = (there y x xs r, weaken ys rs)

pub All-both :
    (P Q R : EtlEvent → Type 0) (xs : List EtlEvent)
    → ((x : EtlEvent) → P x → Q x → R x)
    → All P xs
    → All Q xs
    → All R xs
All-both P Q R [] f _ _ = tt
All-both P Q R (x ∷ xs) f (p, ps) (q, qs) = (f x p q, All-both P Q R xs f ps qs)

-- A row with the id and the time of `e`.
abbrev pub is_row : EtlEvent → EtlEvent → Bool
is_row e f = (f.id == e.id) && (f.started_at == e.started_at)

abbrev pub has_id : Uuid → List EtlEvent → Bool
has_id i events = any (λ (f : EtlEvent). f.id == i) events

-- Newest first
abbrev pub IsNewestFirst : List EtlEvent → Type 0
IsNewestFirst [] = Unit
IsNewestFirst (x ∷ xs) =
    All (λ (y : EtlEvent). leb y.started_at x.started_at ≡ true) xs × IsNewestFirst xs

pub any-oldest :
    (e : EtlEvent) (t : DateTime) (xs : List EtlEvent)
    → any (is_row e) xs ≡ true
    → All (λ (y : EtlEvent). leb y.started_at t ≡ true) xs
    → leb e.started_at t ≡ true
any-oldest e t [] h _ = absurd cc
any-oldest e t (x ∷ xs) h (p, ps) = elim (Bool-cases (is_row e x)) [
  | inl here ↦ ground arith
  | inr there ↦ any-oldest e t xs (ground arith) ps
]

-- When a row is not among the first `n`, these are `n`, and none is older.
pub first_newest :
    (e : EtlEvent) (n : ℕ) (xs : List EtlEvent)
    → IsNewestFirst xs
    → any (is_row e) xs ≡ true
    → has_id e.id (take n xs) ≡ false
    → (length (take n xs) ≡ n)
      × All (λ (f : EtlEvent). leb e.started_at f.started_at ≡ true) (take n xs)
first_newest e zero xs _ _ _ = (refl, tt)
first_newest e (suc n) [] _ h _ = absurd cc
first_newest e (suc n) (x ∷ xs) (newest, rest) h absent =
    let later : any (is_row e) xs ≡ true = ground arith in
    let (size, all) = first_newest e n xs rest later (ground arith) in
    (ap suc size, (any-oldest e x.started_at xs later newest, all))

pub length-take-filter :
    (q : EtlEvent → Bool) (n : ℕ) (xs : List EtlEvent)
    → All (λ f. q f ≡ true) (take n xs)
    → length (take n xs) ≤ length (filter q xs)
length-take-filter q zero xs _ = omega arith
length-take-filter q (suc n) [] _ = omega arith
length-take-filter q (suc n) (x ∷ xs) (h, hs) = rw h (omega (arith, length-take-filter q n xs hs))

module _ (before : EtlEvent → EtlEvent → Bool) where
  length-filter-insert_event :
      (p : EtlEvent → Bool) (e : EtlEvent) (events : List EtlEvent)
      → length (filter p (insert_event before e events)) ≡ length (filter p (e ∷ events))
  unfolding insert_event
  length-filter-insert_event p e [] = refl
  length-filter-insert_event p e (f ∷ events) =
      ground (arith, length-filter-insert_event p e events)

  pub length-filter-newest_first :
      (p : EtlEvent → Bool) (events : List EtlEvent)
      → length (filter p (newest_first before events)) ≡ length (filter p events)
  unfolding newest_first
  length-filter-newest_first p [] = refl
  length-filter-newest_first p (e ∷ events) = ground (
    arith,
    length-filter-insert_event p e (newest_first before events),
    length-filter-newest_first p events,
  )

  length-insert_event :
      (e : EtlEvent) (events : List EtlEvent)
      → length (insert_event before e events) ≡ suc (length events)
  unfolding insert_event
  length-insert_event e [] = refl
  length-insert_event e (f ∷ events) = ground (arith, length-insert_event e events)

  pub length-newest_first :
      (events : List EtlEvent) → length (newest_first before events) ≡ length events
  unfolding newest_first
  length-newest_first [] = refl
  length-newest_first (e ∷ events) =
      length-insert_event e (newest_first before events) ∙ ap suc (length-newest_first events)
