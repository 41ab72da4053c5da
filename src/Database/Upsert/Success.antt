-- ===== src/Database/Upsert/Success.antt =====
-- When the two statements of `upsert_batch` violate no key, src/database/repository.rs.
pub mod Named
use rustroid_sentinel.Prelude.{
  ◌≡◌, inl, inr, refl, sym, ap, ◌∙◌, String, Bool, true, false, ◌||◌, Option, none, some, List, [],
  ◌∷◌, ◌==◌, ==_self, str_eq, arith, any, All, All-append, Bool-cases, Option-cases, Result,
  Result-cases, ok, err,
}
use mathlib.Core.Path.{subst, ap₂}
use rustroid_sentinel.Models.{Uuid, DateTime, Asteroid, Approach, AsteroidRecord}
use rustroid_sentinel.Database.{Db, ApproachRow, SqlError}
use rustroid_sentinel.Database.Upsert.{
  AsteroidsDone, ApproachesDone, UpsertStats, upsert_asteroids, insert_approaches, update_asteroid,
  keep_row, inserted_row, approach_row, same_approach, returning, returning_id, upsert_batch,
  upsert_stats, all_asteroids, all_approaches,
}
use rustroid_sentinel.Database.Upsert.Keys.{
  KeepsKeys, update_asteroid-KeepsKeys, refs, is_ref, WellFormed, upsert_batch-WellFormed,
}
use rustroid_sentinel.Database.Upsert.Rerun.{no_faults}
use rustroid_sentinel.Database.Upsert.Success.Named.{
  AreNamed, has, AreUntouched, Upserts, upsert_asteroids-Upserts,
}

-- One id exactly for one key.
abbrev Fits : Approach → ApproachRow → Type 0
Fits a r = (r.id == a.id) ≡ same_approach a r

abbrev pub AreKeyed : List ApproachRow → List Approach → Type 0
AreKeyed rows [] = Unit
AreKeyed rows (a ∷ proposed) =
    All (Fits a) rows × All (λ b. Fits b (approach_row a)) proposed × AreKeyed rows proposed

AreKeyed-put :
    (a : Approach) (rows : List ApproachRow) (proposed : List Approach)
    → All (λ b. Fits b (approach_row a)) proposed
    → AreKeyed rows proposed
    → AreKeyed (approach_row a ∷ rows) proposed
AreKeyed-put a rows [] _ _ = tt
AreKeyed-put a rows (b ∷ proposed) (f, fs) (h, later, hs) =
    ((f, h), later, AreKeyed-put a rows proposed fs hs)

Fits-any :
    (a : Approach) (rows : List ApproachRow)
    → All (Fits a) rows
    → any (λ (r : ApproachRow). r.id == a.id) rows ≡ any (same_approach a) rows
Fits-any a [] _ = refl
Fits-any a (r ∷ rows) (h, hs) = ap₂ ◌||◌ h (Fits-any a rows hs)

abbrev IsOk : ApproachesDone → Type 0
IsOk (ok r) = Unit
IsOk (err e) = ⊥

returning_id-IsOk : (i : Uuid) (d : ApproachesDone) → IsOk d → IsOk (returning_id i d)
returning_id-IsOk i (ok (rows, out)) h = tt
returning_id-IsOk i (err e) h = h

insert_approaches-IsOk :
    (parents : List Asteroid) (rows : List ApproachRow) (proposed : List Approach)
    → AreKeyed rows proposed
    → All (λ (a : Approach). has a.asteroid_id parents ≡ true) proposed
    → IsOk (insert_approaches parents rows proposed)
unfolding insert_approaches
insert_approaches-IsOk parents rows [] _ _ = tt
insert_approaches-IsOk parents rows (a ∷ proposed) (fits, later, keyed) (parent, others) =
    elim (Bool-cases (any (same_approach a) rows)) [
      | inl known ↦ rw (known, IsOk) (insert_approaches-IsOk parents rows proposed keyed others)
      | inr new ↦
          let free : any (λ (r : ApproachRow). r.id == a.id) rows ≡ false =
            Fits-any a rows fits ∙ new in
          rw (new, free, parent, IsOk)
            (returning_id-IsOk a.id _ (
              insert_approaches-IsOk parents (approach_row a ∷ rows) proposed
                (AreKeyed-put a rows proposed later keyed) others))
    ]

-- The approaches of a record are its asteroid's.
abbrev pub OwnsApproaches : AsteroidRecord → Type 0
OwnsApproaches r = All (λ (a : Approach). a.asteroid_id ≡ r.asteroid.id) r.approaches

own_parents :
    (i : Uuid) (parents : List Asteroid) (approaches : List Approach)
    → has i parents ≡ true
    → All (λ (a : Approach). a.asteroid_id ≡ i) approaches
    → All (λ (a : Approach). has a.asteroid_id parents ≡ true) approaches
own_parents i parents [] h _ = tt
own_parents i parents (a ∷ approaches) h (own, owns) =
    (ap (λ j. has j parents) own ∙ h, own_parents i parents approaches h owns)

batch_parents :
    (parents : List Asteroid) (batch : List AsteroidRecord)
    → All (λ (a : Asteroid). has a.id parents ≡ true) (all_asteroids batch)
    → All OwnsApproaches batch
    → All (λ (a : Approach). has a.asteroid_id parents ≡ true) (all_approaches batch)
batch_parents parents [] _ _ = tt
batch_parents parents (r ∷ batch) (h, hs) (own, owns) =
    All-append (λ (a : Approach). has a.asteroid_id parents ≡ true) r.approaches
      (all_approaches batch) (own_parents r.asteroid.id parents r.approaches h own)
      (batch_parents parents batch hs owns)

-- A batch that is named and keyed like the tables is committed when no request to the server fails:
-- if each of its asteroids has the id of a row exactly when it has its reference id, no two of them
-- share either, each of its approaches has the id of a row or of an earlier one exactly when it has
-- its asteroid and epoch, and its approaches are of its own asteroids. No key is violated then, also
-- by what is in the tables already, all its asteroids are in the table, and the keys of the tables
-- are distinct and each approach has its asteroid as before.
pub upsert_batch_succeeds :
    (now : DateTime) (db : Db) (batch : List AsteroidRecord)
    → WellFormed db
    → AreNamed db.asteroids (all_asteroids batch)
    → AreKeyed db.approaches (all_approaches batch)
    → All OwnsApproaches batch
    → (db' : Db) × (s : UpsertStats) × (upsert_batch now no_faults db batch ≡ (db', ok s))
      × All
          (λ (a : Asteroid). any (λ (o : Asteroid). o.id == a.id) db'.asteroids ≡ true)
          (all_asteroids batch)
      × WellFormed db'
unfolding upsert_batch
upsert_batch_succeeds now db batch w named keyed owns =
    let first =
      upsert_asteroids-Upserts [] db.asteroids (all_asteroids batch) named
        (untouched (all_asteroids batch)) in
    elim (Result-cases (upsert_asteroids [] db.asteroids (all_asteroids batch))) [
      | inr (e, failed) ↦ absurd (subst (Upserts db.asteroids (all_asteroids batch)) failed first)
      | inl ((asteroids, asteroid_rows), done) ↦
          let (present, _) = subst (Upserts db.asteroids (all_asteroids batch)) done first in
          let second =
            insert_approaches-IsOk asteroids db.approaches (all_approaches batch) keyed
              (batch_parents asteroids batch present owns) in
          elim (Result-cases (insert_approaches asteroids db.approaches (all_approaches batch))) [
            | inr (e, failed) ↦ absurd (subst IsOk failed second)
            | inl ((approaches, approach_ids), done') ↦
                let result : upsert_batch now no_faults db batch ≡ (
                  record db { asteroids = asteroids; approaches = approaches },
                  ok (upsert_stats now batch asteroid_rows approach_ids),
                ) =
                  rw (done, done') refl in
                (
                  _,
                  _,
                  result,
                  present,
                  subst (λ (p : Db × Result SqlError UpsertStats). WellFormed p.0) result
                      (upsert_batch-WellFormed now no_faults db batch w),
                )
          ]
    ]
  where
    untouched : (proposed : List Asteroid) → AreUntouched [] proposed
    untouched [] = tt
    untouched (a ∷ proposed) = (refl, untouched proposed)
