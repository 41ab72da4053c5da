-- ===== src/Database/Upsert/Success/Named.antt =====
-- When the first statement of `upsert_batch` violates no key, src/database/repository.rs.
use rustroid_sentinel.Prelude.{
  ◌≡◌, inl, inr, refl, sym, ap, ◌∙◌, String, Bool, true, false, ◌||◌, Option, none, some, List, [],
  ◌∷◌, ◌==◌, ==_self, str_eq, arith, any, All, Bool-cases, Option-cases, ok, err,
}
use mathlib.Core.Path.{subst, ap₂}
use rustroid_sentinel.Models.{Uuid, Asteroid}
use rustroid_sentinel.Database.Upsert.{
  AsteroidsDone, upsert_asteroids, update_asteroid, keep_row, inserted_row, returning,
}
use rustroid_sentinel.Database.Upsert.Keys.{KeepsKeys, update_asteroid-KeepsKeys, refs, is_ref}

-- One id exactly for one reference id.
abbrev Agrees : Asteroid → Asteroid → Type 0
Agrees a o = (o.id == a.id) ≡ str_eq o.neo_reference_id a.neo_reference_id

abbrev Differs : Asteroid → Asteroid → Type 0
Differs a b = (str_eq b.neo_reference_id a.neo_reference_id ≡ false) × ((b.id == a.id) ≡ false)

-- No two rows of a batch have one name, and ids agree with reference ids.
abbrev pub AreNamed : List Asteroid → List Asteroid → Type 0
AreNamed rows [] = Unit
AreNamed rows (a ∷ proposed) =
    All (Agrees a) rows × All (λ b. Differs b a × Differs a b) proposed × AreNamed rows proposed

-- What the update of a row leaves.
abbrev Updates : Asteroid → List Asteroid → Option (Uuid × List Asteroid) → Type 1
Updates a rows none = Unit
Updates a rows (some (i, rows1)) =
    ((P : Uuid → String → Type 0)
      → All (λ (o : Asteroid). P o.id o.neo_reference_id) rows
      → All (λ (o : Asteroid). P o.id o.neo_reference_id) rows1)
    × ((i : Uuid)
        → any (λ (o : Asteroid). o.id == i) rows1 ≡ any (λ (o : Asteroid). o.id == i) rows)
    × (All (Agrees a) rows → any (λ (o : Asteroid). o.id == a.id) rows ≡ true)

keep_row-Updates :
    (a old : Asteroid) (rows : List Asteroid) (o : Option (Uuid × List Asteroid))
    → Updates a rows o
    → Updates a (old ∷ rows) (keep_row old o)
keep_row-Updates a old rows none h = tt
keep_row-Updates a old rows (some (i, rows1)) (all, same, found) = (
  λ P (p, ps). (p, all P ps),
  λ j. ap (λ b. (old.id == j) || b) (same j),
  λ (_, hs). let there = found hs in ground arith,
)

update_asteroid-Updates :
    (a : Asteroid) (rows : List Asteroid) → Updates a rows (update_asteroid a rows)
unfolding update_asteroid
update_asteroid-Updates a [] = tt
update_asteroid-Updates a (old ∷ rows) =
    elim (Bool-cases (str_eq old.neo_reference_id a.neo_reference_id)) [
      | inl same ↦
          rw (same, Updates) (λ P h. h, λ j. refl, λ (h, hs). let here = h ∙ same in ground arith)
      | inr other ↦
          rw (other, Updates, keep_row)
            (keep_row-Updates a old rows _ (update_asteroid-Updates a rows))
    ]

abbrev pub has : Uuid → List Asteroid → Bool
has i rows = any (λ (o : Asteroid). o.id == i) rows

Agrees-refs :
    (a : Asteroid) (rows : List Asteroid)
    → All (Agrees a) rows
    → has a.id rows ≡ any (is_ref a.neo_reference_id) (refs rows)
Agrees-refs a [] _ = refl
Agrees-refs a (o ∷ rows) (h, hs) = ap₂ ◌||◌ h (Agrees-refs a rows hs)

AreNamed-put :
    (a : Asteroid) (rows proposed : List Asteroid)
    → All (λ b. Differs b a × Differs a b) proposed
    → AreNamed rows proposed
    → AreNamed (inserted_row a ∷ rows) proposed
AreNamed-put a rows [] _ _ = tt
AreNamed-put a rows (b ∷ proposed) ((d, _), ds) (h, apart, hs) =
    ((d.1 ∙ sym d.0, h), apart, AreNamed-put a rows proposed ds hs)

AreNamed-update :
    (rows rows1 proposed : List Asteroid)
    → ((P : Uuid → String → Type 0)
        → All (λ (o : Asteroid). P o.id o.neo_reference_id) rows
        → All (λ (o : Asteroid). P o.id o.neo_reference_id) rows1)
    → AreNamed rows proposed
    → AreNamed rows1 proposed
AreNamed-update rows rows1 [] all _ = tt
AreNamed-update rows rows1 (b ∷ proposed) all (h, apart, hs) = (
  all (λ i ref. (i == b.id) ≡ str_eq ref b.neo_reference_id) h,
  apart,
  AreNamed-update rows rows1 proposed all hs,
)

abbrev pub AreUntouched : List String → List Asteroid → Type 0
AreUntouched touched = All (λ (a : Asteroid). any (str_eq a.neo_reference_id) touched ≡ false)

AreUntouched-put :
    (a : Asteroid) (touched : List String) (proposed : List Asteroid)
    → All (λ b. Differs b a × Differs a b) proposed
    → AreUntouched touched proposed
    → AreUntouched (a.neo_reference_id ∷ touched) proposed
AreUntouched-put a touched [] _ _ = tt
AreUntouched-put a touched (b ∷ proposed) ((_, d), ds) (h, hs) =
    let differs = d.0 in (ground arith, AreUntouched-put a touched proposed ds hs)

-- The first statement succeeds, loses no id, and has those of all proposed rows.
abbrev pub Upserts : List Asteroid → List Asteroid → AsteroidsDone → Type 0
Upserts rows proposed (err e) = ⊥
Upserts rows proposed (ok (rows', out)) =
    All (λ (a : Asteroid). has a.id rows' ≡ true) proposed
    × ((i : Uuid) → has i rows ≡ true → has i rows' ≡ true)

Upserts-returning :
    (a : Asteroid) (rows rows1 proposed : List Asteroid) (r : Uuid × Bool) (d : AsteroidsDone)
    → has a.id rows1 ≡ true
    → ((i : Uuid) → has i rows ≡ true → has i rows1 ≡ true)
    → Upserts rows1 proposed d
    → Upserts rows (a ∷ proposed) (returning r d)
Upserts-returning a rows rows1 proposed r (err e) here keeps h = h
Upserts-returning a rows rows1 proposed r (ok (rows', out)) here keeps (all, keeps') =
    ((keeps' a.id here, all), λ i h. keeps' i (keeps i h))

pub upsert_asteroids-Upserts :
    (touched : List String) (rows proposed : List Asteroid)
    → AreNamed rows proposed
    → AreUntouched touched proposed
    → Upserts rows proposed (upsert_asteroids touched rows proposed)
unfolding upsert_asteroids
upsert_asteroids-Upserts touched rows [] _ _ = (tt, λ i h. h)
upsert_asteroids-Upserts touched rows (a ∷ proposed) (agrees, apart, named) (new, news) =
    let next : List String = a.neo_reference_id ∷ touched in
    let untouched = AreUntouched-put a touched proposed apart news in
    elim (Option-cases (update_asteroid a rows)) [
      | inr ((i, rows1), found) ↦
          let (all, same, present) =
            subst (Updates a rows) found (update_asteroid-Updates a rows) in
          rw (new, found, Upserts)
            (Upserts-returning a rows rows1 proposed (i, false) _ (same a.id ∙ present agrees)
              (λ j h. same j ∙ h)
              (upsert_asteroids-Upserts next rows1 proposed
                (AreNamed-update rows rows1 proposed all named) untouched))
      | inl absent ↦
          let no_ref = subst (KeepsKeys a rows) absent (update_asteroid-KeepsKeys a rows) in
          let free : has a.id rows ≡ false = Agrees-refs a rows agrees ∙ no_ref in
          rw (new, absent, free, Upserts)
            (Upserts-returning a rows (inserted_row a ∷ rows) proposed (a.id, true) _
              (rw (==_self a.id) refl) (λ j h. ground arith)
              (upsert_asteroids-Upserts next (inserted_row a ∷ rows) proposed
                (AreNamed-put a rows proposed apart named) untouched))
    ]
