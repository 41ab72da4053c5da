-- ===== src/Database/Orbits/Rows.antt =====
-- `upsert_asteroid_orbits` of src/database/repository.rs row by row.
use rustroid_sentinel.Prelude.{
  ℕ, ◌+◌, ◌≤◌, ◌≡◌, ◌⊎◌, inl, inr, refl, true, false, Option, none, some, List, [], ◌∷◌, ◌++◌, ◌==◌,
  arith, if◌then◌else◌, length, any, Bool-cases, ok,
}
use rustroid_sentinel.Models.{Uuid, DateTime, Asteroid}
use rustroid_sentinel.Database.Orbits.{
  OrbitRow, OrbitDb, OrbitUpdate, upsert_row, upsert_rows, has_repeated_id, has_unknown_id,
  upsert_asteroid_orbits,
}

-- How often a key is in a list.
abbrev pub occurs {ℓ} : {A : Type ℓ} → (A → ℕ) → ℕ → List A → ℕ
occurs key i [] = 0
occurs key i (x ∷ xs) = (if key x == i then 1 else 0) + occurs key i xs

pub occurs-append {ℓ} :
    {A : Type ℓ} (key : A → ℕ) (i : ℕ) (xs ys : List A)
    → occurs key i (xs ++ ys) ≡ occurs key i xs + occurs key i ys
occurs-append key i [] ys = omega arith
occurs-append key i (x ∷ xs) ys = omega (arith, occurs-append key i xs ys)

pub occurs-any {ℓ} :
    {A : Type ℓ} (key : A → ℕ) (i : ℕ) (xs : List A)
    → any (λ x. key x == i) xs ≡ false
    → occurs key i xs ≡ 0
occurs-any key i [] h = refl
occurs-any key i (x ∷ xs) h = elim (Bool-cases (key x == i)) [
  | inl e ↦ ground arith
  | inr e ↦ let rest = occurs-any key i xs (ground arith) in ground arith
]

pub any-occurs {ℓ} :
    {A : Type ℓ} (key : A → ℕ) (i : ℕ) (xs : List A)
    → occurs key i xs ≡ 0
    → any (λ x. key x == i) xs ≡ false
any-occurs key i [] h = refl
any-occurs key i (x ∷ xs) h = elim (Bool-cases (key x == i)) [
  | inl e ↦ absurd (ground arith)
  | inr e ↦ rw e (any-occurs key i xs (ground arith))
]

abbrev pub find_row : Uuid → List OrbitRow → Option OrbitRow
find_row i [] = none
find_row i (o ∷ orbits) =
    let rest = find_row i orbits in if o.asteroid_id == i then some o else rest

-- The row of an asteroid is of the check at `t`.
abbrev pub IsChecked : DateTime → Uuid → List OrbitRow → Type 0
IsChecked t i orbits = (r : OrbitRow) × (find_row i orbits ≡ some r) × (r.orbit_checked_at ≡ t)

find_row-upsert_row :
    (i : Uuid) (r : OrbitRow) (orbits : List OrbitRow)
    → find_row i (upsert_row r orbits) ≡ (if r.asteroid_id == i then some r else find_row i orbits)
unfolding upsert_row
find_row-upsert_row i r [] = refl
find_row-upsert_row i r (o ∷ orbits) = elim (Bool-cases (o.asteroid_id == r.asteroid_id)) [
  | inl same ↦ elim (Bool-cases (r.asteroid_id == i)) [
    | inl here ↦ rw (same, here) refl
    | inr there ↦ rw (same, there) (rw (other_row same there) refl)
  ]
  | inr differs ↦ elim (Bool-cases (o.asteroid_id == i)) [
    | inl here ↦ rw (differs, here) (rw (other_key differs here) refl)
    | inr there ↦ rw (differs, there) (find_row-upsert_row i r orbits)
  ]
]
  where
    other_row :
        (o.asteroid_id == r.asteroid_id) ≡ true
        → (r.asteroid_id == i) ≡ false
        → (o.asteroid_id == i) ≡ false
    other_row a b = ground arith

    other_key :
        (o.asteroid_id == r.asteroid_id) ≡ false
        → (o.asteroid_id == i) ≡ true
        → (r.asteroid_id == i) ≡ false
    other_key a b = ground arith

abbrev row_at : DateTime → OrbitUpdate → OrbitRow
row_at t u = record { asteroid_id = u.id; elements = u.summary; orbit_checked_at = t }

IsChecked-upsert_row :
    (t : DateTime) (i : Uuid) (u : OrbitUpdate) (orbits : List OrbitRow)
    → (u.id ≡ i) ⊎ IsChecked t i orbits
    → IsChecked t i (upsert_row (row_at t u) orbits)
IsChecked-upsert_row t i u orbits h = elim (Bool-cases (u.id == i)) [
  | inl here ↦ (row_at t u, rw (find_row-upsert_row i (row_at t u) orbits, here) refl, refl)
  | inr there ↦ elim h [
    | inl same ↦ absurd (ground arith)
    | inr (r, found, checked) ↦
        (r, rw (find_row-upsert_row i (row_at t u) orbits, there) found, checked)
  ]
]

-- After an upsert at `t` the rows of its ids are of `t`, and those that were are so still.
pub IsChecked-upsert_rows :
    (t : DateTime) (i : Uuid) (us : List OrbitUpdate) (orbits : List OrbitRow)
    → (1 ≤ occurs (λ (u : OrbitUpdate). u.id) i us) ⊎ IsChecked t i orbits
    → IsChecked t i (upsert_rows t us orbits)
unfolding upsert_rows
IsChecked-upsert_rows t i [] orbits (inl h) = absurd (omega (arith, h))
IsChecked-upsert_rows t i [] orbits (inr h) = h
IsChecked-upsert_rows t i (u ∷ us) orbits (inr h) =
    IsChecked-upsert_rows t i us (upsert_row (row_at t u) orbits)
      (inr (IsChecked-upsert_row t i u orbits (inr h)))
IsChecked-upsert_rows t i (u ∷ us) orbits (inl h) = elim (Bool-cases (u.id == i)) [
  | inl here ↦
      IsChecked-upsert_rows t i us (upsert_row (row_at t u) orbits)
        (inr (IsChecked-upsert_row t i u orbits (inl (ground arith))))
  | inr there ↦ IsChecked-upsert_rows t i us (upsert_row (row_at t u) orbits) (inl (ground arith))
]

-- An upsert without repeated or unknown ids goes through.
abbrev pub updates_at : Uuid → List OrbitUpdate → ℕ
updates_at i us = occurs (λ (u : OrbitUpdate). u.id) i us

abbrev pub asteroids_at : Uuid → List Asteroid → ℕ
asteroids_at i rows = occurs (λ (a : Asteroid). a.id) i rows

has_repeated_id_never :
    (us : List OrbitUpdate) → ((i : Uuid) → updates_at i us ≤ 1) → has_repeated_id us ≡ false
unfolding has_repeated_id
has_repeated_id_never [] h = refl
has_repeated_id_never (u ∷ us) h =
    let first : updates_at u.id us ≡ 0 = let e = h u.id in ground arith in
    rw
      (
        has_repeated_id,
        any-occurs (λ (v : OrbitUpdate). v.id) u.id us first,
        has_repeated_id_never us (λ i. let e = h i in ground arith),
      )
      refl

has_unknown_id_never :
    (rows : List Asteroid) (us : List OrbitUpdate)
    → ((i : Uuid) → 1 ≤ updates_at i us → 1 ≤ asteroids_at i rows)
    → has_unknown_id rows us ≡ false
unfolding has_unknown_id
has_unknown_id_never rows [] h = refl
has_unknown_id_never rows (u ∷ us) h =
    elim (Bool-cases (any (λ (a : Asteroid). a.id == u.id) rows)) [
      | inl known ↦
          rw (has_unknown_id, known, has_unknown_id_never rows us (λ i e. h i (ground arith))) refl
      | inr unknown ↦
          let none_there = occurs-any (λ (a : Asteroid). a.id) u.id rows unknown in
          let some_there = h u.id (ground arith) in absurd (omega (arith, none_there, some_there))
    ]

pub upsert_asteroid_orbits_ok :
    (t : DateTime) (db : OrbitDb) (us : List OrbitUpdate)
    → ((i : Uuid) → updates_at i us ≤ 1)
    → ((i : Uuid) → 1 ≤ updates_at i us → 1 ≤ asteroids_at i db.asteroids)
    → upsert_asteroid_orbits false t db us
      ≡ ok (record db { asteroid_orbits = upsert_rows t us db.asteroid_orbits }, length us)
unfolding upsert_asteroid_orbits upsert_rows
upsert_asteroid_orbits_ok t db [] once known = refl
upsert_asteroid_orbits_ok t db (u ∷ us) once known =
    rw
      (
        upsert_asteroid_orbits,
        has_repeated_id_never (u ∷ us) once,
        has_unknown_id_never db.asteroids (u ∷ us) known,
      )
      refl
