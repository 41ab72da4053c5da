-- ===== src/Sentry/Command/Rows.antt =====
-- The rows that a list of Sentry lookups writes.
use rustroid_sentinel.Prelude.{
  ◌≡◌, refl, sym, ap, ◌∙◌, String, Bool, true, false, Option, none, some, List, [], ◌∷◌, ◌==◌,
  if◌then◌else◌, any, filter, map, All, arith, Bool-cases, Option-cases, inl, inr,
}
use mathlib.Core.Path.{subst}
use rustroid_sentinel.Models.{Uuid, Asteroid}
use rustroid_sentinel.Database.Orbits.{Candidate, candidate_of}
use rustroid_sentinel.Database.Upsert.Keys.{AreDistinct, ids, is_id}
use rustroid_sentinel.Sentry.{
  Update, find_update, Lookup, found, absent, lookup_error, Joined, outcome,
}
use rustroid_sentinel.Sentry.Updates.{later}
use rustroid_sentinel.Sentry.Flush.{updates_of, IsOutcome}

-- The update that a lookup asks for.
abbrev pub answer : Uuid → Lookup → Option Update
answer i (found t p) = some (record { id = i; torino_scale = t; palermo_scale = p })
answer i absent = some (record { id = i; torino_scale = none; palermo_scale = none })
answer i lookup_error = none

abbrev Differs : Uuid → Candidate → Type 0
Differs i c = c.id ≡ i → ⊥

abbrev IsOnly : Candidate → Candidate → Type 0
IsOnly c d = d.id ≡ c.id → d ≡ c

pub All-map {ℓ κ μ} :
    {A : Type ℓ} {P : A → Type κ} {Q : A → Type μ} (xs : List A)
    → ((x : A) → P x → Q x)
    → All P xs
    → All Q xs
All-map [] f _ = tt
All-map (x ∷ xs) f (p, ps) = (f x p, All-map xs f ps)

find_update-updates_of :
    (i j : Uuid) (ref : String) (l : Lookup) (js : List Joined)
    → find_update i (updates_of (outcome j ref l ∷ js))
      ≡ later (find_update i (updates_of js)) (if j == i then answer j l else none)
unfolding find_update
find_update-updates_of i j ref (found t p) js =
    elim (Option-cases (find_update i (updates_of js))) [
      | inl none_found ↦ rw none_found refl
      | inr (v, one) ↦ rw one refl
    ]
find_update-updates_of i j ref absent js = elim (Option-cases (find_update i (updates_of js))) [
  | inl none_found ↦ rw none_found refl
  | inr (v, one) ↦ rw one refl
]
find_update-updates_of i j ref lookup_error js =
    elim (Option-cases (find_update i (updates_of js))) [
      | inl none_found ↦ elim (Bool-cases (j == i)) [
        | inl same ↦ rw (none_found, same) refl
        | inr other ↦ rw (none_found, other) refl
      ]
      | inr (v, one) ↦ rw one refl
    ]

later-none : (o : Option Update) → later o none ≡ o
later-none none = refl
later-none (some u) = refl

later_same : (o : Option Update) → later o o ≡ o
later_same none = refl
later_same (some u) = refl

pub any-Differs :
    (i : Uuid) (cs : List Candidate)
    → any (λ (d : Candidate). d.id == i) cs ≡ false
    → All (Differs i) cs
any-Differs i [] e = tt
any-Differs i (c ∷ cs) e = (λ same. ground (arith, same), any-Differs i cs (ground arith))

All-zip {ℓ κ μ} :
    {A : Type ℓ} (P : A → Type κ) (Q : A → Type μ) (xs : List A)
    → All P xs
    → All Q xs
    → All (λ x. P x × Q x) xs
All-zip P Q [] _ _ = tt
All-zip P Q (x ∷ xs) (p, ps) (q, qs) = ((p, q), All-zip P Q xs ps qs)

ids-Differ :
    (i : Uuid) (rows : List Asteroid)
    → any (is_id i) (ids rows) ≡ false
    → All (λ (b : Asteroid). i ≡ b.id → ⊥) rows
ids-Differ i [] e = tt
ids-Differ i (b ∷ rows) e = (λ same. ground (arith, same), ids-Differ i rows (ground arith))

pub Differs-any :
    (i : Uuid) (cs : List Candidate)
    → All (Differs i) cs
    → any (λ (d : Candidate). d.id == i) cs ≡ false
Differs-any i [] _ = refl
Differs-any i (c ∷ cs) (h, hs) =
    let rest = Differs-any i cs hs in
    let differs : (c.id == i) ≡ false = ground (arith, h) in ground arith

module _ (lookup_by_spk : String → Lookup) where
  abbrev pub outcome_of : Candidate → Joined
  outcome_of c = outcome c.id c.neo_reference_id (lookup_by_spk c.neo_reference_id)

  pub outcomes-IsOutcome : (cs : List Candidate) → All IsOutcome (map outcome_of cs)
  outcomes-IsOutcome [] = tt
  outcomes-IsOutcome (c ∷ cs) = (tt, outcomes-IsOutcome cs)

  pub find_update-none :
      (i : Uuid) (cs : List Candidate)
      → All (Differs i) cs
      → find_update i (updates_of (map outcome_of cs)) ≡ none
  unfolding find_update
  find_update-none i [] _ = refl
  find_update-none i (c ∷ cs) (h, hs) =
      let differs : (c.id == i) ≡ false = ground (arith, h) in
      find_update-updates_of i c.id c.neo_reference_id (lookup_by_spk c.neo_reference_id)
        (map outcome_of cs)
      ∙ rw (find_update-none i cs hs, differs) refl

  pub find_update-only :
      (c : Candidate) (cs : List Candidate)
      → any (λ (d : Candidate). d.id == c.id) cs ≡ true
      → All (IsOnly c) cs
      → find_update c.id (updates_of (map outcome_of cs))
        ≡ answer c.id (lookup_by_spk c.neo_reference_id)
  find_update-only c [] e _ = absurd cc
  find_update-only c (d ∷ cs) e (h, hs) =
      find_update-updates_of c.id d.id d.neo_reference_id (lookup_by_spk d.neo_reference_id)
        (map outcome_of cs)
      ∙ elim (Bool-cases (d.id == c.id)) [
        | inl here ↦
            let same : answer d.id (lookup_by_spk d.neo_reference_id)
                ≡ answer c.id (lookup_by_spk c.neo_reference_id) =
              ap (λ (x : Candidate). answer x.id (lookup_by_spk x.neo_reference_id))
                (h (ground arith)) in
            elim (Bool-cases (any (λ (x : Candidate). x.id == c.id) cs)) [
              | inl again ↦
                  rw (find_update-only c cs again hs, here, same)
                    (later_same (answer c.id (lookup_by_spk c.neo_reference_id)))
              | inr last ↦ rw (find_update-none c.id cs (any-Differs c.id cs last), here, same) refl
            ]
        | inr other ↦
            rw (find_update-only c cs (ground arith) hs, other)
              (later-none (answer c.id (lookup_by_spk c.neo_reference_id)))
      ]

-- What a row of `asteroids` with distinct ids says of the candidates.
module _ (due : Asteroid → Bool) where
  abbrev pub chosen : List Asteroid → List Candidate
  chosen rows = map candidate_of (filter due rows)

  -- The candidates with the id of a row: the row itself if it is due, and else none.
  abbrev pub Selects : List Candidate → Asteroid → Type 0
  Selects cs a =
      (due a ≡ true
        → (any (λ (d : Candidate). d.id == a.id) cs ≡ true) × All (IsOnly (candidate_of a)) cs)
      × (due a ≡ false → All (Differs a.id) cs)

  chosen-Differs :
      (i : Uuid) (rows : List Asteroid)
      → any (is_id i) (ids rows) ≡ false
      → All (Differs i) (chosen rows)
  chosen-Differs i [] e = tt
  chosen-Differs i (a ∷ rows) e =
      let rest = chosen-Differs i rows (ground arith) in
      elim (Bool-cases (due a)) [
        | inl h ↦ rw h (λ same. ground (arith, same), rest)
        | inr h ↦ rw h rest
      ]

  Selects-put :
      (a b : Asteroid) (cs : List Candidate)
      → (b.id ≡ a.id → ⊥)
      → Selects cs a
      → Selects (if due b then candidate_of b ∷ cs else cs) a
  Selects-put a b cs differs (yes_due, no_due) = elim (Bool-cases (due b)) [
    | inr h ↦ rw h (yes_due, no_due)
    | inl h ↦ rw h (
      λ e. let (there, only) = yes_due e in (ground arith, (λ same. absurd (differs same), only)),
      λ e. (differs, no_due e),
    )
  ]

  chosen_put :
      (a : Asteroid) (rows : List Asteroid)
      → chosen (a ∷ rows) ≡ (if due a then candidate_of a ∷ chosen rows else chosen rows)
  chosen_put a rows = elim (Bool-cases (due a)) [ inl h ↦ rw h refl | inr h ↦ rw h refl ]

  pub chosen-Selects :
      (rows : List Asteroid) → AreDistinct is_id (ids rows) → All (Selects (chosen rows)) rows
  chosen-Selects [] _ = tt
  chosen-Selects (a ∷ rows) (new, distinct) =
      let rest = chosen-Differs a.id rows new in
      (
        (
          λ e.
              rw e (
                ground arith,
                (λ _. refl, All-map (chosen rows) (λ c d same. absurd (d same)) rest),
              ),
          λ e. rw e rest,
        ),
        All-map rows
            (λ b (differs, selects).
              subst (λ l. Selects l b) (sym (chosen_put a rows))
                (Selects-put b a (chosen rows) differs selects))
            (All-zip (λ (b : Asteroid). a.id ≡ b.id → ⊥) (Selects (chosen rows)) rows
              (ids-Differ a.id rows new) (chosen-Selects rows distinct)),
      )
