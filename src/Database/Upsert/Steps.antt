-- ===== src/Database/Upsert/Steps.antt =====
-- The two statements of `upsert_batch` as derivations, one step for each proposed row, and the
-- transaction around them.
use rustroid_sentinel.Prelude.{
  ◌≡◌, inl, inr, String, Bool, true, false, none, some, List, [], ◌∷◌, Bool-cases, Option-cases,
  str_eq, ◌==◌, any, ok, err,
}
use mathlib.Core.Path.{subst}
use rustroid_sentinel.Models.{Uuid, Asteroid, Approach}
use rustroid_sentinel.Database.{ApproachRow}
use rustroid_sentinel.Database.Upsert.{
  AsteroidsDone, ApproachesDone, upsert_asteroids, insert_approaches, update_asteroid, inserted_row,
  approach_row, same_approach, returning, returning_id,
}

-- `UpsertedRows touched rows proposed rows' out`: the first statement takes `rows` to `rows'`.
pub data UpsertedRows
    : List String
      → List Asteroid
      → List Asteroid
      → List Asteroid
      → List (Uuid × Bool)
      → Type 0 where
  done : {touched : List String} {rows : List Asteroid} → UpsertedRows touched rows [] rows []
  update :
      {touched : List String} {rows rows1 rows' proposed : List Asteroid} {out : List (Uuid × Bool)}
      (a : Asteroid) (i : Uuid)
      → any (str_eq a.neo_reference_id) touched ≡ false
      → update_asteroid a rows ≡ some (i, rows1)
      → UpsertedRows (a.neo_reference_id ∷ touched) rows1 proposed rows' out
      → UpsertedRows touched rows (a ∷ proposed) rows' ((i, false) ∷ out)
  insert :
      {touched : List String} {rows rows' proposed : List Asteroid} {out : List (Uuid × Bool)}
      (a : Asteroid)
      → any (str_eq a.neo_reference_id) touched ≡ false
      → update_asteroid a rows ≡ none
      → any (λ (o : Asteroid). o.id == a.id) rows ≡ false
      → UpsertedRows (a.neo_reference_id ∷ touched) (inserted_row a ∷ rows) proposed rows' out
      → UpsertedRows touched rows (a ∷ proposed) rows' ((a.id, true) ∷ out)

abbrev AsteroidsMeet : List String → List Asteroid → List Asteroid → AsteroidsDone → Type 0
AsteroidsMeet touched rows proposed (ok (rows', out)) = UpsertedRows touched rows proposed rows' out
AsteroidsMeet touched rows proposed (err e) = Unit

AsteroidsMeet-returning :
    (touched touched1 : List String) (rows rows1 : List Asteroid) (a : Asteroid)
    (proposed : List Asteroid) (r : Uuid × Bool) (d : AsteroidsDone)
    → ((rows' : List Asteroid) (out : List (Uuid × Bool))
        → UpsertedRows touched1 rows1 proposed rows' out
        → UpsertedRows touched rows (a ∷ proposed) rows' (r ∷ out))
    → AsteroidsMeet touched1 rows1 proposed d
    → AsteroidsMeet touched rows (a ∷ proposed) (returning r d)
AsteroidsMeet-returning touched touched1 rows rows1 a proposed r (ok (rows', out)) step h =
    step rows' out h
AsteroidsMeet-returning touched touched1 rows rows1 a proposed r (err e) step h = tt

upsert_asteroids-Meet :
    (touched : List String) (rows proposed : List Asteroid)
    → AsteroidsMeet touched rows proposed (upsert_asteroids touched rows proposed)
unfolding upsert_asteroids
upsert_asteroids-Meet touched rows [] = UpsertedRows.done
upsert_asteroids-Meet touched rows (a ∷ proposed) =
    let next = a.neo_reference_id ∷ touched in
    elim (Bool-cases (any (str_eq a.neo_reference_id) touched)) [
      | inl again ↦ rw (again, AsteroidsMeet) tt
      | inr new ↦ elim (Option-cases (update_asteroid a rows)) [
        | inr ((i, rows1), found) ↦
            rw (new, found, AsteroidsMeet)
              (AsteroidsMeet-returning touched next rows rows1 a proposed (i, false) _
                (λ rows' out. update a i new found) (upsert_asteroids-Meet next rows1 proposed))
        | inl absent ↦ elim (Bool-cases (any (λ (o : Asteroid). o.id == a.id) rows)) [
          | inl taken ↦ rw (new, absent, taken, AsteroidsMeet) tt
          | inr free ↦
              rw (new, absent, free, AsteroidsMeet)
                (AsteroidsMeet-returning touched next rows (inserted_row a ∷ rows) a proposed
                  (a.id, true) _ (λ rows' out. insert a new absent free)
                  (upsert_asteroids-Meet next (inserted_row a ∷ rows) proposed))
        ]
      ]
    ]

pub upsert_asteroids-UpsertedRows :
    (touched : List String) (rows proposed rows' : List Asteroid) (out : List (Uuid × Bool))
    → upsert_asteroids touched rows proposed ≡ ok (rows', out)
    → UpsertedRows touched rows proposed rows' out
upsert_asteroids-UpsertedRows touched rows proposed rows' out e =
    subst (AsteroidsMeet touched rows proposed) e (upsert_asteroids-Meet touched rows proposed)

-- `InsertedRows parents rows proposed rows' out`: the second statement takes `rows` to `rows'`.
pub data InsertedRows (parents : List Asteroid)
    : List ApproachRow → List Approach → List ApproachRow → List Uuid → Type 0 where
  done : {rows : List ApproachRow} → InsertedRows parents rows [] rows []
  skip :
      {rows rows' : List ApproachRow} {proposed : List Approach} {out : List Uuid} (a : Approach)
      → any (same_approach a) rows ≡ true
      → InsertedRows parents rows proposed rows' out
      → InsertedRows parents rows (a ∷ proposed) rows' out
  insert :
      {rows rows' : List ApproachRow} {proposed : List Approach} {out : List Uuid} (a : Approach)
      → any (same_approach a) rows ≡ false
      → any (λ (o : ApproachRow). o.id == a.id) rows ≡ false
      → any (λ (p : Asteroid). p.id == a.asteroid_id) parents ≡ true
      → InsertedRows parents (approach_row a ∷ rows) proposed rows' out
      → InsertedRows parents rows (a ∷ proposed) rows' (a.id ∷ out)

module _ (parents : List Asteroid) where
  abbrev ApproachesMeet : List ApproachRow → List Approach → ApproachesDone → Type 0
  ApproachesMeet rows proposed (ok (rows', out)) = InsertedRows parents rows proposed rows' out
  ApproachesMeet rows proposed (err e) = Unit

  ApproachesMeet-skip :
      (rows : List ApproachRow) (a : Approach) (proposed : List Approach) (d : ApproachesDone)
      → any (same_approach a) rows ≡ true
      → ApproachesMeet rows proposed d
      → ApproachesMeet rows (a ∷ proposed) d
  ApproachesMeet-skip rows a proposed (ok (rows', out)) known h = InsertedRows.skip a known h
  ApproachesMeet-skip rows a proposed (err e) known h = tt

  ApproachesMeet-insert :
      (rows : List ApproachRow) (a : Approach) (proposed : List Approach) (d : ApproachesDone)
      → any (same_approach a) rows ≡ false
      → any (λ (o : ApproachRow). o.id == a.id) rows ≡ false
      → any (λ (p : Asteroid). p.id == a.asteroid_id) parents ≡ true
      → ApproachesMeet (approach_row a ∷ rows) proposed d
      → ApproachesMeet rows (a ∷ proposed) (returning_id a.id d)
  ApproachesMeet-insert rows a proposed (ok (rows', out)) new free known h =
      InsertedRows.insert a new free known h
  ApproachesMeet-insert rows a proposed (err e) new free known h = tt

  insert_approaches-Meet :
      (rows : List ApproachRow) (proposed : List Approach)
      → ApproachesMeet rows proposed (insert_approaches parents rows proposed)
  unfolding insert_approaches
  insert_approaches-Meet rows [] = InsertedRows.done
  insert_approaches-Meet rows (a ∷ proposed) = elim (Bool-cases (any (same_approach a) rows)) [
    | inl known ↦
        rw (known, ApproachesMeet)
          (ApproachesMeet-skip rows a proposed _ known (insert_approaches-Meet rows proposed))
    | inr new ↦ elim (Bool-cases (any (λ (o : ApproachRow). o.id == a.id) rows)) [
      | inl taken ↦ rw (new, taken, ApproachesMeet) tt
      | inr free ↦ elim (Bool-cases (any (λ (p : Asteroid). p.id == a.asteroid_id) parents)) [
        | inr orphan ↦ rw (new, free, orphan, ApproachesMeet) tt
        | inl parent ↦
            rw (new, free, parent, ApproachesMeet)
              (ApproachesMeet-insert rows a proposed _ new free parent
                (insert_approaches-Meet (approach_row a ∷ rows) proposed))
      ]
    ]
  ]

  pub insert_approaches-InsertedRows :
      (rows : List ApproachRow) (proposed : List Approach) (rows' : List ApproachRow)
      (out : List Uuid)
      → insert_approaches parents rows proposed ≡ ok (rows', out)
      → InsertedRows parents rows proposed rows' out
  insert_approaches-InsertedRows rows proposed rows' out e =
      subst (ApproachesMeet rows proposed) e (insert_approaches-Meet rows proposed)
