-- ===== src/Sentry/Command/Elements.antt =====
-- Sorting a list and cutting it into chunks keep its elements.
use rustroid_sentinel.Prelude.{
  ℕ, zero, suc, ◌≤◌, ◌≡◌, refl, ap, Bool, List, [], ◌∷◌, ◌++◌, length, take, drop, length-drop, All,
  arith, Bool-cases, inl, inr,
}
use mathlib.Core.Path.{subst}
use rustroid_sentinel.Catalog.{insert_row, order_rows}
use rustroid_sentinel.Database.Chunks.{chunks}
use rustroid_sentinel.Sentry.Flush.{flatten}

-- Two lists have the same elements.
abbrev pub HasSameElements : {A : Type 0} → List A → List A → Type 1
HasSameElements {A} xs ys =
    ((P : A → Type 0) → All P xs → All P ys) × ((P : A → Type 0) → All P ys → All P xs)

module _ {A : Type 0} where
  pub All-unappend : (P : A → Type 0) (xs ys : List A) → All P (xs ++ ys) → All P xs × All P ys
  All-unappend P [] ys h = (tt, h)
  All-unappend P (x ∷ xs) ys (p, ps) = let (a, b) = All-unappend P xs ys ps in ((p, a), b)

  module _ (before : A → A → Bool) where
    All-insert_row :
        (P : A → Type 0) (x : A) (ys : List A) → P x → All P ys → All P (insert_row before x ys)
    unfolding insert_row
    All-insert_row P x [] p _ = (p, tt)
    All-insert_row P x (y ∷ ys) p (q, qs) = elim (Bool-cases (before x y)) [
      | inl e ↦ rw (insert_row, e) (p, (q, qs))
      | inr e ↦ rw (insert_row, e) (q, All-insert_row P x ys p qs)
    ]

    insert_row-All :
        (P : A → Type 0) (x : A) (ys : List A) → All P (insert_row before x ys) → P x × All P ys
    unfolding insert_row
    insert_row-All P x [] h = h
    insert_row-All P x (y ∷ ys) h = elim (Bool-cases (before x y)) [
      | inl e ↦
          let same : insert_row before x (y ∷ ys) ≡ x ∷ y ∷ ys = rw (insert_row, e) refl in
          subst (All P) same h
      | inr e ↦
          let same : insert_row before x (y ∷ ys) ≡ y ∷ insert_row before x ys =
            rw (insert_row, e) refl in
          let (q, rest) = subst (All P) same h in
          let (p, qs) = insert_row-All P x ys rest in (p, (q, qs))
    ]

    pub order_rows-HasSameElements : (xs : List A) → HasSameElements xs (order_rows before xs)
    unfolding order_rows
    order_rows-HasSameElements [] = (λ P h. h, λ P h. h)
    order_rows-HasSameElements (x ∷ xs) =
        let (there, back) = order_rows-HasSameElements xs in
        (
          λ P (p, ps). All-insert_row P x (order_rows before xs) p (there P ps),
          λ P h. let (p, ps) = insert_row-All P x (order_rows before xs) h in (p, back P ps),
        )

  append_take : (n : ℕ) (xs : List A) → take n xs ++ drop n xs ≡ xs
  append_take zero xs = refl
  append_take (suc n) [] = refl
  append_take (suc n) (x ∷ xs) = ap (λ l. x ∷ l) (append_take n xs)

  pub flatten-chunks :
      (fuel n : ℕ) (xs : List A) → length xs ≤ fuel → flatten (chunks fuel (suc n) xs) ≡ xs
  unfolding chunks
  flatten-chunks zero n [] h = refl
  flatten-chunks zero n (x ∷ xs) h = absurd (omega (arith, h))
  flatten-chunks (suc fuel) n [] h = refl
  flatten-chunks (suc fuel) n (x ∷ xs) h =
      rw (flatten-chunks fuel n (drop n xs) (omega (arith, h, length-drop n xs)))
        (ap (λ l. x ∷ l) (append_take n xs))
