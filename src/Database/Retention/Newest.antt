-- ===== src/Database/Retention/Newest.antt =====
-- The newest events that src/database/retention.rs keeps.
pub mod Lists
use rustroid_sentinel.Prelude.{
  ℕ, zero, suc, ◌≤◌, ◌≡◌, inl, inr, refl, ap, sym, ◌∙◌, Bool, true, false, not, ◌&&◌, List, [], ◌∷◌,
  leb, ltb, ◌==◌, ==_self, arith, length, any, filter, map, take, All, Bool-cases,
}
use rustroid_sentinel.Models.{Uuid, DateTime}
use rustroid_sentinel.Database.{EtlEvent}
use rustroid_sentinel.Database.Retention.{
  insert_event, newest_first, started_desc, kept_ids, is_prunable,
}
use rustroid_sentinel.Database.Retention.Newest.Lists.{
  All-self, All-both, is_row, has_id, IsNewestFirst, first_newest, length-take-filter,
  length-filter-newest_first,
}

-- For an event that is gone, `keep` events are left that are no older.
abbrev pub IsOutlived : ℕ → List EtlEvent → EtlEvent → Type 0
IsOutlived keep left e =
    has_id e.id left ≡ false
    → keep ≤ length (filter (λ (f : EtlEvent). leb e.started_at f.started_at) left)

module _ (tie : EtlEvent → EtlEvent → Bool) where
  All-insert_event :
      (P : EtlEvent → Type 0) (e : EtlEvent) (events : List EtlEvent)
      → P e
      → All P events
      → All P (insert_event (started_desc tie) e events)
  unfolding insert_event
  All-insert_event P e [] p _ = (p, tt)
  All-insert_event P e (f ∷ events) p (q, qs) = elim (Bool-cases (started_desc tie e f)) [
    | inl first ↦ rw first (p, (q, qs))
    | inr later ↦ rw later (q, All-insert_event P e events p qs)
  ]

  older_trans :
      (s t : DateTime) (events : List EtlEvent)
      → leb s t ≡ true
      → All (λ (y : EtlEvent). leb y.started_at s ≡ true) events
      → All (λ (y : EtlEvent). leb y.started_at t ≡ true) events
  older_trans s t [] h _ = tt
  older_trans s t (y ∷ events) h (q, qs) = (ground arith, older_trans s t events h qs)

  insert_event-IsNewestFirst :
      (e : EtlEvent) (events : List EtlEvent)
      → IsNewestFirst events
      → IsNewestFirst (insert_event (started_desc tie) e events)
  unfolding insert_event
  insert_event-IsNewestFirst e [] _ = (tt, tt)
  insert_event-IsNewestFirst e (f ∷ events) (q, qs) = elim (Bool-cases (started_desc tie e f)) [
    | inl first ↦
        let below : leb f.started_at e.started_at ≡ true = ground arith in
        rw first ((below, older_trans f.started_at e.started_at events below q), (q, qs))
    | inr later ↦
        let below : leb e.started_at f.started_at ≡ true = ground arith in
        rw later (
          All-insert_event (λ (y : EtlEvent). leb y.started_at f.started_at ≡ true) e events below
              q,
          insert_event-IsNewestFirst e events qs,
        )
  ]

  newest_first-IsNewestFirst :
      (events : List EtlEvent) → IsNewestFirst (newest_first (started_desc tie) events)
  unfolding newest_first
  newest_first-IsNewestFirst [] = tt
  newest_first-IsNewestFirst (e ∷ events) =
      insert_event-IsNewestFirst e (newest_first (started_desc tie) events)
        (newest_first-IsNewestFirst events)

  any-filter : (p : EtlEvent → Bool) (xs : List EtlEvent) → any p xs ≡ ltb 0 (length (filter p xs))
  any-filter p [] = refl
  any-filter p (x ∷ xs) = ground (arith, any-filter p xs)

  has_id-ids :
      (i : Uuid) (xs : List EtlEvent)
      → any (λ j. j == i) (map (λ (e : EtlEvent). e.id) xs) ≡ has_id i xs
  has_id-ids i [] = refl
  has_id-ids i (x ∷ xs) = rw (has_id-ids i xs) refl

  length-filter-filter :
      (q p k : EtlEvent → Bool) (xs : List EtlEvent)
      → ((x : EtlEvent) → q x ≡ true → (k x ≡ true) × (p x ≡ true))
      → length (filter q xs) ≤ length (filter p (filter k xs))
  length-filter-filter q p k [] h = omega arith
  length-filter-filter q p k (x ∷ xs) h =
      let rest = length-filter-filter q p k xs h in
      elim (Bool-cases (q x)) [
        | inl yes_q ↦ let (a, b) = h x yes_q in rw (yes_q, a, b) (omega (arith, rest))
        | inr not_q ↦ elim (Bool-cases (k x)) [
          | inl kept ↦ elim (Bool-cases (p x)) [
            | inl passes ↦ rw (not_q, kept, passes) (omega (arith, rest))
            | inr fails ↦ rw (not_q, kept, fails) rest
          ]
          | inr dropped ↦ rw (not_q, dropped) rest
        ]
      ]

  -- The events that a deletion leaves.
  abbrev pub is_left : DateTime → ℕ → List EtlEvent → EtlEvent → Bool
  is_left cutoff keep events e = not (is_prunable tie cutoff (kept_ids tie keep events) e)

  gone-IsOutlived :
      (cutoff : DateTime) (keep : ℕ) (events : List EtlEvent) (e : EtlEvent)
      → any (is_row e) events ≡ true
      → (is_left cutoff keep events e ≡ true
          → has_id e.id (filter (is_left cutoff keep events) events) ≡ true)
      → IsOutlived keep (filter (is_left cutoff keep events) events) e
  gone-IsOutlived cutoff keep events e present stays gone =
      let sorted : List EtlEvent = newest_first (started_desc tie) events in
      let kept : List Uuid = kept_ids tie keep events in
      let count = length-filter-newest_first (started_desc tie) in
      let deleted : is_left cutoff keep events e ≡ false =
        elim (Bool-cases (is_left cutoff keep events e)) [
          | inl left ↦ let back = stays left in absurd cc
          | inr h ↦ h
        ] in
      let unkept : any (λ i. i == e.id) kept ≡ false = ground arith in
      let (size, newer) =
        first_newest e keep sorted (newest_first-IsNewestFirst events)
          (any-filter (is_row e) sorted
            ∙ ap (ltb 0) (count (is_row e) events)
            ∙ sym (any-filter (is_row e) events)
            ∙ present)
          (sym (has_id-ids e.id (take keep sorted)) ∙ unkept) in
      let q = λ (f : EtlEvent). any (λ i. i == f.id) kept && leb e.started_at f.started_at in
      let first = length-take-filter q keep sorted (
        All-both (λ f. any (λ i. i == f.id) kept ≡ true) (λ f. leb e.started_at f.started_at ≡ true)
          (λ f. q f ≡ true) (take keep sorted) (λ f a b. rw (a, b) refl)
          (All-self (λ f xs. any (λ i. i == f.id) (map (λ (g : EtlEvent). g.id) xs) ≡ true)
            (λ x xs. rw (==_self x.id) refl) (λ f x xs h. ground arith) (take keep sorted))
          newer) in
      let last =
        length-filter-filter q (λ (f : EtlEvent). leb e.started_at f.started_at)
          (is_left cutoff keep events) events (λ f h. (ground arith, ground arith)) in
      omega (arith, size, first, last, count q events)

  pub left-IsOutlived :
      (cutoff : DateTime) (keep : ℕ) (events : List EtlEvent)
      → All (IsOutlived keep (filter (is_left cutoff keep events) events)) events
  left-IsOutlived cutoff keep events =
      let left = is_left cutoff keep events in
      All-both (λ e. any (is_row e) events ≡ true)
        (λ e. left e ≡ true → has_id e.id (filter left events) ≡ true)
        (IsOutlived keep (filter left events)) events (gone-IsOutlived cutoff keep events)
        (All-self (λ e xs. any (is_row e) xs ≡ true)
          (λ x xs. rw (==_self x.id, ==_self x.started_at) refl) (λ e x xs h. ground arith) events)
        (All-self (λ e xs. left e ≡ true → has_id e.id (filter left xs) ≡ true)
          (λ x xs h. rw (h, ==_self x.id) refl)
          (λ e x xs h k.
            let r = h k in
            elim (Bool-cases (left x)) [
              | inl yes_left ↦ rw yes_left (ground arith)
              | inr not_left ↦ rw not_left r
            ])
          events)
