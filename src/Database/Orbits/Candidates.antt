-- ===== src/Database/Orbits/Candidates.antt =====
-- The candidates of the orbit check, src/database/repository.rs.
use rustroid_sentinel.Prelude.{
  ℕ, suc, ◌+◌, ◌≤◌, ◌≡◌, inl, inr, refl, ap, sym, ◌∙◌, String, Bool, true, false, Option, none,
  some, List, [], ◌∷◌, ◌++◌, ltb, ◌==◌, arith, if◌then◌else◌, length, any, Bool-cases,
}
use mathlib.Core.Path.{subst}
use rustroid_sentinel.Models.{Uuid, DateTime, Asteroid}
use rustroid_sentinel.Catalog.{insert_row, order_rows}
use rustroid_sentinel.Database.Orbits.{
  OrbitRow, OrbitDb, Candidate, is_row_of, unchecked, stale_of, stale,
  count_asteroids_needing_orbit_check, in_order, stream_asteroids_needing_orbit_check,
}
use rustroid_sentinel.Database.Orbits.Rows.{occurs, occurs-append, find_row, asteroids_at}

abbrev pub candidates_at : Uuid → List Candidate → ℕ
candidates_at i cs = occurs (λ (c : Candidate). c.id) i cs

abbrev pub rows_at : Uuid → List OrbitRow → ℕ
rows_at i orbits = occurs (λ (o : OrbitRow). o.asteroid_id) i orbits

abbrev has_row : Uuid → List OrbitRow → Bool
has_row i orbits = any (λ (o : OrbitRow). o.asteroid_id == i) orbits

-- Sorting keeps how often a key is there, and the length.
module _ {ℓ} {A : Type ℓ} (before : A → A → Bool) where
  occurs-insert_row :
      (key : A → ℕ) (i : ℕ) (x : A) (ys : List A)
      → occurs key i (insert_row before x ys) ≡ occurs key i (x ∷ ys)
  unfolding insert_row
  occurs-insert_row key i x [] = refl
  occurs-insert_row key i x (y ∷ ys) = elim (Bool-cases (before x y)) [
    | inl e ↦ rw (insert_row, e) refl
    | inr e ↦ let rest = occurs-insert_row key i x ys in rw (insert_row, e) (omega (arith, rest))
  ]

  pub occurs-order_rows :
      (key : A → ℕ) (i : ℕ) (xs : List A) → occurs key i (order_rows before xs) ≡ occurs key i xs
  unfolding order_rows
  occurs-order_rows key i [] = refl
  occurs-order_rows key i (x ∷ xs) =
      omega (arith, occurs-insert_row key i x (order_rows before xs), occurs-order_rows key i xs)

  length-insert_row : (x : A) (ys : List A) → length (insert_row before x ys) ≡ suc (length ys)
  unfolding insert_row
  length-insert_row x [] = refl
  length-insert_row x (y ∷ ys) = elim (Bool-cases (before x y)) [
    | inl e ↦ rw (insert_row, e) refl
    | inr e ↦ rw (insert_row, e) (ap suc (length-insert_row x ys))
  ]

  pub length-order_rows : (xs : List A) → length (order_rows before xs) ≡ length xs
  unfolding order_rows
  length-order_rows [] = refl
  length-order_rows (x ∷ xs) =
      omega (arith, length-insert_row x (order_rows before xs), length-order_rows xs)

-- An asteroid is due if it has no row, or one with an old check.
abbrev pub is_due : DateTime → Option OrbitRow → Bool
is_due stale_before none = true
is_due stale_before (some r) = ltb r.orbit_checked_at stale_before

unchecked-none :
    (i : Uuid) (orbits : List OrbitRow) (rows : List Asteroid)
    → has_row i orbits ≡ true
    → candidates_at i (unchecked orbits rows) ≡ 0
unfolding unchecked
unchecked-none i orbits [] h = refl
unchecked-none i orbits (a ∷ rows) h = elim (Bool-cases (any (is_row_of a) orbits)) [
  | inl e ↦ rw (unchecked, e) (unchecked-none i orbits rows h)
  | inr e ↦ elim (Bool-cases (a.id == i)) [
    | inl here ↦ absurd (
        let same : a.id ≡ i = ground arith in
        let h' : any (is_row_of a) orbits ≡ true =
          subst (λ j. has_row j orbits ≡ true) (sym same) h in
        cc)
    | inr there ↦ rw (unchecked, e) (let rest = unchecked-none i orbits rows h in ground arith)
  ]
]

unchecked-all :
    (i : Uuid) (orbits : List OrbitRow) (rows : List Asteroid)
    → has_row i orbits ≡ false
    → candidates_at i (unchecked orbits rows) ≡ asteroids_at i rows
unfolding unchecked
unchecked-all i orbits [] h = refl
unchecked-all i orbits (a ∷ rows) h = elim (Bool-cases (any (is_row_of a) orbits)) [
  | inr e ↦
      rw (unchecked, e) (ap (λ n. (if a.id == i then 1 else 0) + n) (unchecked-all i orbits rows h))
  | inl e ↦ elim (Bool-cases (a.id == i)) [
    | inl here ↦ absurd (
        let same : a.id ≡ i = ground arith in
        let h' : any (is_row_of a) orbits ≡ false =
          subst (λ j. has_row j orbits ≡ false) (sym same) h in
        cc)
    | inr there ↦ rw (unchecked, e) (let rest = unchecked-all i orbits rows h in ground arith)
  ]
]

-- The old rows of an asteroid.
abbrev stale_rows : DateTime → Uuid → List OrbitRow → ℕ
stale_rows stale_before i [] = 0
stale_rows stale_before i (o ∷ orbits) =
    (if o.asteroid_id == i then (if ltb o.orbit_checked_at stale_before then 1 else 0) else 0)
    + stale_rows stale_before i orbits

stale_of-at :
    (t : DateTime) (i : Uuid) (orbits : List OrbitRow) (a : Asteroid)
    → candidates_at i (stale_of t orbits a) ≡ (if a.id == i then stale_rows t a.id orbits else 0)
unfolding stale_of
stale_of-at t i [] a = ground arith
stale_of-at t i (o ∷ orbits) a =
    let rest = stale_of-at t i orbits a in
    elim (Bool-cases (is_row_of a o)) [
      | inr e ↦ rw (stale_of, e) (ground arith)
      | inl e ↦ elim (Bool-cases (ltb o.orbit_checked_at t)) [
        | inr f ↦ rw (stale_of, e, f) (ground arith)
        | inl f ↦ rw (stale_of, e, f) (ground arith)
      ]
    ]

stale-at :
    (t : DateTime) (i : Uuid) (orbits : List OrbitRow) (rows : List Asteroid)
    → (stale_rows t i orbits ≡ 0 → candidates_at i (stale t orbits rows) ≡ 0)
      × (stale_rows t i orbits ≡ 1 → candidates_at i (stale t orbits rows) ≡ asteroids_at i rows)
unfolding stale
stale-at t i orbits [] = (λ _. refl, λ _. refl)
stale-at t i orbits (a ∷ rows) =
    let (none_left, one_each) = stale-at t i orbits rows in
    let split =
      occurs-append (λ (c : Candidate). c.id) i (stale_of t orbits a) (stale t orbits rows) in
    let here = stale_of-at t i orbits a in
    elim (Bool-cases (a.id == i)) [
      | inl same ↦
          let eq : stale_rows t a.id orbits ≡ stale_rows t i orbits =
            ap (λ j. stale_rows t j orbits) (ground arith) in
          (λ h. (let r = none_left h in ground arith), λ h. (let r = one_each h in ground arith))
      | inr other ↦
          (λ h. (let r = none_left h in ground arith), λ h. (let r = one_each h in ground arith))
    ]

-- What the first row of an asteroid says of its rows.
abbrev Tells : DateTime → Uuid → List OrbitRow → Option OrbitRow → Type 0
Tells t i orbits none = (has_row i orbits ≡ false) × (stale_rows t i orbits ≡ 0)
Tells t i orbits (some r) =
    (has_row i orbits ≡ true)
    × (stale_rows t i orbits ≡ (if ltb r.orbit_checked_at t then 1 else 0))

stale_rows-none :
    (t : DateTime) (i : Uuid) (orbits : List OrbitRow)
    → rows_at i orbits ≡ 0
    → stale_rows t i orbits ≡ 0
stale_rows-none t i [] h = refl
stale_rows-none t i (o ∷ orbits) h = elim (Bool-cases (o.asteroid_id == i)) [
  | inl e ↦ absurd (ground arith)
  | inr e ↦ let rest = stale_rows-none t i orbits (ground arith) in ground arith
]

Tells-other :
    (t : DateTime) (i : Uuid) (o : OrbitRow) (orbits : List OrbitRow)
    → (o.asteroid_id == i) ≡ false
    → (r : Option OrbitRow) → Tells t i orbits r
    → Tells t i (o ∷ orbits) r
Tells-other t i o orbits e none (a, b) = (ground arith, ground arith)
Tells-other t i o orbits e (some r) (a, b) = (ground arith, ground arith)

find_row-Tells :
    (t : DateTime) (i : Uuid) (orbits : List OrbitRow)
    → rows_at i orbits ≤ 1
    → Tells t i orbits (find_row i orbits)
find_row-Tells t i [] h = (refl, refl)
find_row-Tells t i (o ∷ orbits) h = elim (Bool-cases (o.asteroid_id == i)) [
  | inl e ↦
      let rest = stale_rows-none t i orbits (ground arith) in
      rw (e, rest) (ground arith, ground arith)
  | inr e ↦
      rw e
        (Tells-other t i o orbits e (find_row i orbits) (find_row-Tells t i orbits (ground arith)))
]

-- When no id is in two rows of a table, the stream has each asteroid that is due, which is one
-- without an orbit row or with a check before the given time, as often as the table of asteroids
-- has it, and no other; and the count is the length of the stream.
pub stream_asteroids_needing_orbit_check_lem :
    (collates : String → String → Bool) (db : OrbitDb) (t : DateTime)
    → ((i : Uuid) → rows_at i db.asteroid_orbits ≤ 1)
    → ((i : Uuid)
        → candidates_at i (stream_asteroids_needing_orbit_check collates db t)
          ≡ (if is_due t (find_row i db.asteroid_orbits) then asteroids_at i db.asteroids else 0))
      × (count_asteroids_needing_orbit_check db t
          ≡ length (stream_asteroids_needing_orbit_check collates db t))
unfolding stream_asteroids_needing_orbit_check count_asteroids_needing_orbit_check
stream_asteroids_needing_orbit_check_lem collates db t once =
    (at, sym (length-order_rows (in_order collates) (first ++ second)))
  where
    first : List Candidate
    first = unchecked db.asteroid_orbits db.asteroids

    second : List Candidate
    second = stale t db.asteroid_orbits db.asteroids

    both :
        (i : Uuid)
        → candidates_at i (order_rows (in_order collates) (first ++ second))
          ≡ candidates_at i first + candidates_at i second
    both i =
        occurs-order_rows (in_order collates) (λ (c : Candidate). c.id) i (first ++ second)
        ∙ occurs-append (λ (c : Candidate). c.id) i first second

    told :
        (i : Uuid) (o : Option OrbitRow)
        → Tells t i db.asteroid_orbits o
        → candidates_at i first + candidates_at i second
          ≡ (if is_due t o then asteroids_at i db.asteroids else 0)
    told i none (no_row, fresh) =
        let a = unchecked-all i db.asteroid_orbits db.asteroids no_row in
        let (b, _) = stale-at t i db.asteroid_orbits db.asteroids in
        let c = b fresh in omega (arith, a, c)
    told i (some r) (a_row, old) =
        let a = unchecked-none i db.asteroid_orbits db.asteroids a_row in
        let (b, c) = stale-at t i db.asteroid_orbits db.asteroids in
        elim (Bool-cases (ltb r.orbit_checked_at t)) [
          | inl e ↦ rw e (let d = c (ground arith) in omega (arith, a, d))
          | inr e ↦ rw e (let d = b (ground arith) in omega (arith, a, d))
        ]

    at :
        (i : Uuid)
        → candidates_at i (order_rows (in_order collates) (first ++ second))
          ≡ (if is_due t (find_row i db.asteroid_orbits) then asteroids_at i db.asteroids else 0)
    at i =
        both i
        ∙ told i (find_row i db.asteroid_orbits) (find_row-Tells t i db.asteroid_orbits (once i))
