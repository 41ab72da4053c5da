-- ===== src/Catalog/Sort.antt =====
-- The server's `ORDER BY` over distinct rows, and its part after a row.
use rustroid_sentinel.Prelude.{
  ◌≡◌, ◌⊎◌, inl, inr, refl, ap, ◌∙◌, Bool, true, false, List, [], ◌∷◌, ◌++◌, arith, filter, All,
  if◌then◌else◌, Bool-cases,
}
use rustroid_sentinel.Catalog.{insert_row, order_rows}

module _ {ℓ} {A : Type ℓ} (before : A → A → Bool) where
  abbrev pub Comparable : A → A → Type 0
  Comparable x y = (before x y ≡ true) ⊎ (before y x ≡ true)

  abbrev pub AllComparable : List A → Type 0
  AllComparable [] = Unit
  AllComparable (x ∷ xs) = All (Comparable x) xs × AllComparable xs

  abbrev pub IsAscending : List A → Type 0
  IsAscending [] = Unit
  IsAscending (x ∷ xs) = All (λ y. before x y ≡ true) xs × IsAscending xs

  pub All-insert_row {κ} :
      (P : A → Type κ) (x : A) (ys : List A) → P x → All P ys → All P (insert_row before x ys)
  unfolding insert_row
  All-insert_row P x [] p _ = (p, tt)
  All-insert_row P x (y ∷ ys) p (q, qs) = elim (Bool-cases (before x y)) [
    | inl first ↦ rw first (p, (q, qs))
    | inr later ↦ rw later (q, All-insert_row P x ys p qs)
  ]

  pub All-order_rows {κ} : (P : A → Type κ) (xs : List A) → All P xs → All P (order_rows before xs)
  unfolding order_rows
  All-order_rows P [] _ = tt
  All-order_rows P (x ∷ xs) (p, ps) =
      All-insert_row P x (order_rows before xs) p (All-order_rows P xs ps)

  pub All-filter {κ} :
      (P : A → Type κ) (p : A → Bool) (xs : List A) → All P xs → All P (filter p xs)
  All-filter P p [] _ = tt
  All-filter P p (x ∷ xs) (h, hs) = elim (Bool-cases (p x)) [
    | inl passes ↦ rw passes (h, All-filter P p xs hs)
    | inr fails ↦ rw fails (All-filter P p xs hs)
  ]

  pub AllComparable-filter :
      (p : A → Bool) (xs : List A) → AllComparable xs → AllComparable (filter p xs)
  AllComparable-filter p [] _ = tt
  AllComparable-filter p (x ∷ xs) (c, cs) = elim (Bool-cases (p x)) [
    | inl passes ↦ rw passes (All-filter (Comparable x) p xs c, AllComparable-filter p xs cs)
    | inr fails ↦ rw fails (AllComparable-filter p xs cs)
  ]

  insert_row-first :
      (x : A) (ys : List A) → All (λ y. before x y ≡ true) ys → insert_row before x ys ≡ x ∷ ys
  unfolding insert_row
  insert_row-first x [] _ = refl
  insert_row-first x (y ∷ ys) (h, hs) = rw h refl

  module _ (trans : (x y z : A) → before x y ≡ true → before y z ≡ true → before x z ≡ true) where
    All-before :
        (x y : A) (ys : List A)
        → before x y ≡ true
        → All (λ z. before y z ≡ true) ys
        → All (λ z. before x z ≡ true) ys
    All-before x y [] h _ = tt
    All-before x y (z ∷ ys) h (k, ks) = (trans x y z h k, All-before x y ys h ks)

    insert_row-IsAscending :
        (x : A) (ys : List A)
        → All (Comparable x) ys
        → IsAscending ys
        → IsAscending (insert_row before x ys)
    unfolding insert_row
    insert_row-IsAscending x [] _ _ = (tt, tt)
    insert_row-IsAscending x (y ∷ ys) (c, cs) (h, hs) = elim (Bool-cases (before x y)) [
      | inl first ↦ rw first ((first, All-before x y ys first h), (h, hs))
      | inr later ↦ rw later (
        All-insert_row (λ z. before y z ≡ true) x ys (other c later) h,
        insert_row-IsAscending x ys cs hs,
      )
    ]
      where
        other : Comparable x y → before x y ≡ false → before y x ≡ true
        other (inl first) later = ground arith
        other (inr after) later = after

    pub order_rows-IsAscending :
        (xs : List A) → AllComparable xs → IsAscending (order_rows before xs)
    unfolding order_rows
    order_rows-IsAscending [] _ = tt
    order_rows-IsAscending (x ∷ xs) (c, cs) =
        insert_row-IsAscending x (order_rows before xs) (All-order_rows (Comparable x) xs c)
          (order_rows-IsAscending xs cs)

    filter-insert_row :
        (p : A → Bool) (x : A) (ys : List A)
        → IsAscending ys
        → filter p (insert_row before x ys)
          ≡ (if p x then insert_row before x (filter p ys) else filter p ys)
    unfolding insert_row
    filter-insert_row p x [] _ = refl
    filter-insert_row p x (y ∷ ys) (h, hs) = elim (Bool-cases (before x y)) [
      | inl first ↦
          rw
            (
              first,
              insert_row-first x (filter p (y ∷ ys)) (
                  All-filter (λ z. before x z ≡ true) p (y ∷ ys)
                    (first, All-before x y ys first h)),
            )
            refl
      | inr later ↦ elim (Bool-cases (p x)) [
        | inl passes ↦ elim (Bool-cases (p y)) [
          | inl q ↦
              rw (later, q, passes, later)
                (ap (λ l. y ∷ l) (filter-insert_row p x ys hs ∙ rw passes refl))
          | inr q ↦ rw (later, q, passes) (filter-insert_row p x ys hs ∙ rw passes refl)
        ]
        | inr fails ↦ elim (Bool-cases (p y)) [
          | inl q ↦
              rw (later, q, fails) (ap (λ l. y ∷ l) (filter-insert_row p x ys hs ∙ rw fails refl))
          | inr q ↦ rw (later, q, fails) (filter-insert_row p x ys hs ∙ rw fails refl)
        ]
      ]
    ]

    -- Rows may be filtered before or after they are ordered.
    pub filter-order_rows :
        (p : A → Bool) (xs : List A)
        → AllComparable xs
        → filter p (order_rows before xs) ≡ order_rows before (filter p xs)
    unfolding order_rows
    filter-order_rows p [] _ = refl
    filter-order_rows p (x ∷ xs) (c, cs) =
        let step = filter-insert_row p x (order_rows before xs) (order_rows-IsAscending xs cs) in
        elim (Bool-cases (p x)) [
          | inl passes ↦ step ∙ rw (passes, filter-order_rows p xs cs) refl
          | inr fails ↦ step ∙ rw (fails, filter-order_rows p xs cs) refl
        ]

  module _ (asym : (x y : A) → before x y ≡ true → before y x ≡ false) where
    filter-before_rest :
        (r : A) (post : List A) → All (λ y. before r y ≡ true) post → filter (before r) post ≡ post
    filter-before_rest r [] _ = refl
    filter-before_rest r (y ∷ post) (h, hs) = rw h (ap (λ l. y ∷ l) (filter-before_rest r post hs))

    not_before_self : (r : A) → before r r ≡ false
    not_before_self r = elim (Bool-cases (before r r)) [ inl h ↦ asym r r h | inr h ↦ h ]

    -- In an ascending list the rows after a row are those that follow it.
    pub filter-before :
        (pre : List A) (r : A) (post : List A)
        → IsAscending (pre ++ r ∷ post)
        → filter (before r) (pre ++ r ∷ post) ≡ post
    filter-before [] r post (h, hs) = rw (not_before_self r) (filter-before_rest r post h)
    filter-before (y ∷ pre) r post (h, hs) =
        rw (asym y r (before_middle pre h)) (filter-before pre r post hs)
      where
        before_middle :
            (zs : List A) → All (λ z. before y z ≡ true) (zs ++ r ∷ post) → before y r ≡ true
        before_middle [] (k, ks) = k
        before_middle (z ∷ zs) (k, ks) = before_middle zs ks
