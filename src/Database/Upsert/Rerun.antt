-- ===== src/Database/Upsert/Rerun.antt =====
-- A second run of a batch that `upsert_batch` of src/database/repository.rs has committed.
use rustroid_sentinel.Prelude.{
  ◌≡◌, ◌≢◌, inl, inr, refl, sym, String, Bool, true, false, List, [], ◌∷◌, arith, Option-cases,
  str_eq, str_eq_iff, ==_self, ◌||◌, ◌∙◌, any, filter, All, Result, ok, err,
}
use mathlib.Core.Path.{subst}
use rustroid_sentinel.Models.{Uuid, DateTime, I64, pos, negsuc, Asteroid, Approach, AsteroidRecord}
use rustroid_sentinel.Database.{Db, ApproachRow, SqlError, i64_eq}
use rustroid_sentinel.Database.Upsert.Steps.{
  UpsertedRows, InsertedRows, upsert_asteroids-UpsertedRows, insert_approaches-InsertedRows,
}
use rustroid_sentinel.Database.Upsert.Counts.{IsCommitted, upsert_batch_atomic, inserted}
use rustroid_sentinel.Database.Upsert.Keys.{KeepsKeys, update_asteroid-KeepsKeys, refs, is_ref}
use rustroid_sentinel.Database.Upsert.{
  Faults, UpsertStats, update_asteroid, upsert_asteroids, insert_approaches, upsert_batch,
  upsert_stats, all_asteroids, all_approaches, approach_row, same_approach, returning,
}
use rustroid_sentinel.Database.HazardEvents.{hazard_events}

abbrev pub no_faults : Faults
no_faults = record {
  at_begin = false;
  at_asteroids = false;
  at_approaches = false;
  at_commit = false;
  reply_lost = false;
}

abbrev IsStored : List Asteroid → Asteroid → Type 0
IsStored rows a = any (is_ref a.neo_reference_id) (refs rows) ≡ true

true≢false : true ≢ false
true≢false e = ground arith

or_true : (b : Bool) → (b || true) ≡ true
or_true b = ground arith

str_eq_self : (s : String) → str_eq s s ≡ true
str_eq_self s = (str_eq_iff s s).1 refl

i64_eq_self : (n : I64) → i64_eq n n ≡ true
i64_eq_self (pos n) = ==_self n
i64_eq_self (negsuc n) = ==_self n

UpsertedRows-IsStored :
    {touched : List String} {rows proposed rows' : List Asteroid} {out : List (Uuid × Bool)}
    → UpsertedRows touched rows proposed rows' out
    → All (IsStored rows') proposed × ((b : Asteroid) → IsStored rows b → IsStored rows' b)
UpsertedRows-IsStored UpsertedRows.done = (tt, λ b h. h)
UpsertedRows-IsStored (UpsertedRows.update {rows = rows} {rows1 = rows1} a i new found rest) =
    let (same_refs, same_ids, known) =
      subst (KeepsKeys a rows) found (update_asteroid-KeepsKeys a rows) in
    let (stored, keeps) = UpsertedRows-IsStored rest in
    ((keeps a (rw same_refs known), stored), λ b h. keeps b (rw same_refs h))
UpsertedRows-IsStored (UpsertedRows.insert {rows = rows} a new absent free rest) =
    let (stored, keeps) = UpsertedRows-IsStored rest in
    (
      (keeps a (rw (str_eq_self a.neo_reference_id)), stored),
      λ b h. keeps b (rw h (or_true (is_ref b.neo_reference_id a.neo_reference_id))),
    )

-- What the first statement does to asteroids that are all stored.
abbrev OnlyUpdates : List String → List Asteroid → List Asteroid → Type 0
OnlyUpdates touched rows proposed =
    (rows' : List Asteroid) × (out : List (Uuid × Bool)) × (upsert_asteroids touched rows proposed
      ≡ ok (rows', out))
    × (filter inserted out ≡ [])

All-IsStored :
    (rows rows' : List Asteroid) (proposed : List Asteroid)
    → refs rows' ≡ refs rows
    → All (IsStored rows) proposed
    → All (IsStored rows') proposed
All-IsStored rows rows' proposed same h =
    subst (λ r. All (λ (a : Asteroid). any (is_ref a.neo_reference_id) r ≡ true) proposed)
      (sym same) h

OnlyUpdates-step :
    (touched : List String) (proposed : List Asteroid) (a : Asteroid)
    → any (str_eq a.neo_reference_id) touched ≡ false
    → ((rows : List Asteroid)
        → All (IsStored rows) proposed
        → OnlyUpdates (a.neo_reference_id ∷ touched) rows proposed)
    → (rows : List Asteroid) → All (IsStored rows) (a ∷ proposed)
    → OnlyUpdates touched rows (a ∷ proposed)
unfolding upsert_asteroids
OnlyUpdates-step touched proposed a new next rows (stored, h) =
    elim (Option-cases (update_asteroid a rows)) [
      | inl absent ↦ absurd (
          true≢false
            (sym stored ∙ subst (KeepsKeys a rows) absent (update_asteroid-KeepsKeys a rows)))
      | inr ((i, rows1), found) ↦
          let (same_refs, same_ids, known) =
            subst (KeepsKeys a rows) found (update_asteroid-KeepsKeys a rows) in
          let (rows', out, e, none_new) =
            next rows1 (All-IsStored rows rows1 proposed same_refs h) in
          (rows', (i, false) ∷ out, rw (upsert_asteroids, new, found, e, returning), none_new)
    ]

upsert_asteroids_again :
    {touched : List String} {rows0 proposed rows1 : List Asteroid} {out : List (Uuid × Bool)}
    → UpsertedRows touched rows0 proposed rows1 out
    → (rows : List Asteroid) → All (IsStored rows) proposed
    → OnlyUpdates touched rows proposed
unfolding upsert_asteroids
upsert_asteroids_again UpsertedRows.done rows h = (rows, [], refl, refl)
upsert_asteroids_again {touched = touched}
      (UpsertedRows.update {proposed = proposed} a i new found rest) rows h =
    OnlyUpdates-step touched proposed a new (upsert_asteroids_again rest) rows h
upsert_asteroids_again {touched = touched}
      (UpsertedRows.insert {proposed = proposed} a new absent free rest) rows h =
    OnlyUpdates-step touched proposed a new (upsert_asteroids_again rest) rows h

abbrev IsKnown : List ApproachRow → Approach → Type 0
IsKnown rows a = any (same_approach a) rows ≡ true

module _ (parents : List Asteroid) where
  InsertedRows-IsKnown :
      {rows rows' : List ApproachRow} {proposed : List Approach} {out : List Uuid}
      → InsertedRows parents rows proposed rows' out
      → All (IsKnown rows') proposed × ((b : Approach) → IsKnown rows b → IsKnown rows' b)
  InsertedRows-IsKnown InsertedRows.done = (tt, λ b h. h)
  InsertedRows-IsKnown (InsertedRows.skip a known rest) =
      let (all_known, keeps) = InsertedRows-IsKnown rest in ((keeps a known, all_known), keeps)
  InsertedRows-IsKnown (InsertedRows.insert a new free parent rest) =
      let (all_known, keeps) = InsertedRows-IsKnown rest in
      (
        (keeps a (rw (==_self a.asteroid_id, i64_eq_self a.epoch_date_close_approach)), all_known),
        λ b h. keeps b (rw h (or_true (same_approach b (approach_row a)))),
      )

insert_approaches_again :
    (parents : List Asteroid) (rows : List ApproachRow) (proposed : List Approach)
    → All (IsKnown rows) proposed
    → insert_approaches parents rows proposed ≡ ok (rows, [])
unfolding insert_approaches
insert_approaches_again parents rows [] h = refl
insert_approaches_again parents rows (a ∷ proposed) (known, h) =
    rw (insert_approaches, known) (insert_approaches_again parents rows proposed h)

-- What a second run is to do.
abbrev AddsNothing : DateTime → List AsteroidRecord → Db × Result SqlError UpsertStats → Type 0
AddsNothing now batch (db', err e) = Unit
AddsNothing now batch (db', ok s) =
    (db'' : Db) × (s' : UpsertStats) × (upsert_batch now no_faults db' batch ≡ (db'', ok s'))
    × (db''.approaches ≡ db'.approaches)
    × (s'.asteroids_inserted ≡ 0)
    × (s'.approaches_inserted ≡ 0)
    × (s'.newly_inserted_asteroid_ids ≡ [])
    × (s'.new_hazard_events ≡ [])

IsCommitted-AddsNothing :
    (now now' : DateTime) (faults : Faults) (db : Db) (batch : List AsteroidRecord)
    → IsCommitted now faults db batch
    → AddsNothing now' batch (upsert_batch now faults db batch)
unfolding upsert_batch hazard_events
IsCommitted-AddsNothing now now' faults db batch c =
    let first =
      upsert_asteroids-UpsertedRows [] db.asteroids (all_asteroids batch) c.asteroids
        c.asteroid_rows c.first in
    let second =
      insert_approaches-InsertedRows c.asteroids db.approaches (all_approaches batch) c.approaches
        c.approach_ids c.second in
    let (rows, out, again, none_new) =
      upsert_asteroids_again first c.asteroids ((UpsertedRows-IsStored first).0) in
    let known =
      insert_approaches_again rows c.approaches (all_approaches batch)
        ((InsertedRows-IsKnown c.asteroids second).0) in
    subst (AddsNothing now' batch) (sym c.result) (
      record db { asteroids = rows; approaches = c.approaches },
      upsert_stats now' batch out [],
      rw (again, known),
      refl,
      rw none_new,
      refl,
      rw none_new,
      refl,
    )

-- When a batch was committed, the same batch can be committed again at any time on the database
-- that it left: the second run inserts no asteroid and no approach, leaves `approaches` as it is,
-- names no new asteroid and raises no hazard event.
pub upsert_batch_again :
    (now now' : DateTime) (faults : Faults) (db : Db) (batch : List AsteroidRecord) (db' : Db)
    (s : UpsertStats)
    → upsert_batch now faults db batch ≡ (db', ok s)
    → (db'' : Db) × (s' : UpsertStats) × (upsert_batch now' no_faults db' batch ≡ (db'', ok s'))
      × (db''.approaches ≡ db'.approaches)
      × (s'.asteroids_inserted ≡ 0)
      × (s'.approaches_inserted ≡ 0)
      × (s'.newly_inserted_asteroid_ids ≡ [])
      × (s'.new_hazard_events ≡ [])
upsert_batch_again now now' faults db batch db' s e =
    elim (upsert_batch_atomic now faults db batch) [
      | inl (error, failed) ↦ cc
      | inr (inl c) ↦ let lost = c.lost in cc
      | inr (inr c) ↦
          subst (AddsNothing now' batch) e (IsCommitted-AddsNothing now now' faults db batch c)
    ]
