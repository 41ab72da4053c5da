-- ===== src/Database/Upsert/Counts.antt =====
-- The transaction of `upsert_batch` and its counts, src/database/repository.rs.
use rustroid_sentinel.Prelude.{
  length-append, ◌++◌, ℕ, suc, ◌+◌, ◌≤◌, ◌≡◌, ◌⊎◌, inl, inr, refl, ap, sym, String, Bool, Option,
  none, some, List, [], ◌∷◌, arith, Bool-cases, str_eq, ◌||◌, length, map, filter, length-filter-le,
  Result, ok, err, Result-cases,
}
use mathlib.Core.Path.{subst}
use rustroid_sentinel.Models.{Uuid, DateTime, Asteroid, Approach, AsteroidRecord}
use rustroid_sentinel.Database.{Db, ApproachRow, SqlError, connection_failure}
use rustroid_sentinel.Database.Upsert.Steps.{
  UpsertedRows, InsertedRows, upsert_asteroids-UpsertedRows, insert_approaches-InsertedRows,
}
use rustroid_sentinel.Database.Upsert.{
  Faults, UpsertStats, upsert_asteroids, insert_approaches, update_asteroid, upsert_batch,
  upsert_stats, all_asteroids, all_approaches, keep_row,
}

-- A batch that was committed: what its two statements did.
pub record IsCommitted (now : DateTime) (faults : Faults) (db : Db) (batch : List AsteroidRecord)
    : Type 0 where
  pub asteroids : List Asteroid
  pub asteroid_rows : List (Uuid × Bool)
  pub approaches : List ApproachRow
  pub approach_ids : List Uuid
  pub first : upsert_asteroids [] db.asteroids (all_asteroids batch) ≡ ok (asteroids, asteroid_rows)
  pub second :
      insert_approaches asteroids db.approaches (all_approaches batch)
      ≡ ok (approaches, approach_ids)
  pub result : upsert_batch now faults db batch ≡ (
    record db { asteroids = asteroids; approaches = approaches },
    ok (upsert_stats now batch asteroid_rows approach_ids),
  )

-- A batch whose commit was done, but whose reply was lost.
pub record IsLost (now : DateTime) (faults : Faults) (db : Db) (batch : List AsteroidRecord)
    : Type 0 where
  pub asteroids : List Asteroid
  pub asteroid_rows : List (Uuid × Bool)
  pub approaches : List ApproachRow
  pub approach_ids : List Uuid
  pub first : upsert_asteroids [] db.asteroids (all_asteroids batch) ≡ ok (asteroids, asteroid_rows)
  pub second :
      insert_approaches asteroids db.approaches (all_approaches batch)
      ≡ ok (approaches, approach_ids)
  pub lost :
      upsert_batch now faults db batch
      ≡ (record db { asteroids = asteroids; approaches = approaches }, err connection_failure)

-- The batch is committed, or the call fails and leaves the database as it was, or the reply to its
-- commit is lost.
pub upsert_batch_atomic :
    (now : DateTime) (faults : Faults) (db : Db) (batch : List AsteroidRecord)
    → ((e : SqlError) × (upsert_batch now faults db batch ≡ (db, err e)))
      ⊎ (IsLost now faults db batch ⊎ IsCommitted now faults db batch)
unfolding upsert_batch
upsert_batch_atomic now faults db batch =
    elim (Bool-cases (faults.at_begin || faults.at_asteroids)) [
      | inl down ↦ inl (connection_failure, rw down)
      | inr up ↦ elim (Result-cases (upsert_asteroids [] db.asteroids (all_asteroids batch))) [
        | inr (e, failed) ↦ inl (e, rw (up, failed))
        | inl ((asteroids, asteroid_rows), first) ↦ elim (Bool-cases faults.at_approaches) [
          | inl down ↦ inl (connection_failure, rw (up, first, down))
          | inr up' ↦
              elim (Result-cases
                (insert_approaches asteroids db.approaches (all_approaches batch))) [
                  | inr (e, failed) ↦ inl (e, rw (up, first, up', failed))
                  | inl ((approaches, approach_ids), second) ↦ elim (Bool-cases faults.at_commit) [
                    | inl down ↦ elim (Bool-cases faults.reply_lost) [
                      | inl lost ↦ inr (
                          inl (record {
                            asteroids = asteroids;
                            asteroid_rows = asteroid_rows;
                            approaches = approaches;
                            approach_ids = approach_ids;
                            first = first;
                            second = second;
                            lost = rw (up, first, up', second, down, lost);
                          }))
                      | inr undone ↦
                          inl (connection_failure, rw (up, first, up', second, down, undone))
                    ]
                    | inr up'' ↦ inr (
                        inr (record {
                          asteroids = asteroids;
                          asteroid_rows = asteroid_rows;
                          approaches = approaches;
                          approach_ids = approach_ids;
                          first = first;
                          second = second;
                          result = rw (up, first, up', second, up'');
                        }))
                  ]
                ]
        ]
      ]
    ]

abbrev KeepsLength : ℕ → Option (Uuid × List Asteroid) → Type 0
KeepsLength n none = Unit
KeepsLength n (some (i, rows)) = length rows ≡ n

keep_row-KeepsLength :
    (old : Asteroid) (n : ℕ) (o : Option (Uuid × List Asteroid))
    → KeepsLength n o
    → KeepsLength (suc n) (keep_row old o)
keep_row-KeepsLength old n none h = tt
keep_row-KeepsLength old n (some (i, rows)) h = ap suc h

update_asteroid-KeepsLength :
    (a : Asteroid) (rows : List Asteroid) → KeepsLength (length rows) (update_asteroid a rows)
unfolding update_asteroid
update_asteroid-KeepsLength a [] = tt
update_asteroid-KeepsLength a (old ∷ rows) =
    elim (Bool-cases (str_eq old.neo_reference_id a.neo_reference_id)) [
      | inl same ↦ rw (same, KeepsLength) refl
      | inr other ↦
          rw (other, KeepsLength, keep_row)
            (keep_row-KeepsLength old (length rows) _ (update_asteroid-KeepsLength a rows))
    ]

length-update_asteroid :
    (a : Asteroid) (rows : List Asteroid) (i : Uuid) (rows' : List Asteroid)
    → update_asteroid a rows ≡ some (i, rows')
    → length rows' ≡ length rows
length-update_asteroid a rows i rows' e =
    subst (KeepsLength (length rows)) e (update_asteroid-KeepsLength a rows)

pub all_approaches-append :
    (a b : List AsteroidRecord)
    → length (all_approaches (a ++ b)) ≡ length (all_approaches a) + length (all_approaches b)
all_approaches-append [] b = omega arith
all_approaches-append (r ∷ a) b = omega (
  arith,
  length-append r.approaches (all_approaches (a ++ b)),
  length-append r.approaches (all_approaches a),
  all_approaches-append a b,
)

abbrev pub inserted : Uuid × Bool → Bool
inserted r = r.1

-- What the first statement reports and adds.
pub UpsertedRows-length :
    {touched : List String} {rows proposed rows' : List Asteroid} {out : List (Uuid × Bool)}
    → UpsertedRows touched rows proposed rows' out
    → (length out ≡ length proposed) × (length rows' ≡ length rows + length (filter inserted out))
UpsertedRows-length UpsertedRows.done = ground arith
UpsertedRows-length (UpsertedRows.update {rows = rows} {rows1 = rows1} a i new found rest) =
    ground (arith, UpsertedRows-length rest, length-update_asteroid a rows i rows1 found)
UpsertedRows-length (UpsertedRows.insert a new absent free rest) =
    ground (arith, UpsertedRows-length rest)

-- What the second statement reports and adds.
pub InsertedRows-length :
    {parents : List Asteroid} {rows rows' : List ApproachRow} {proposed : List Approach}
    {out : List Uuid}
    → InsertedRows parents rows proposed rows' out
    → (length out ≤ length proposed) × (length rows' ≡ length rows + length out)
InsertedRows-length InsertedRows.done = ground arith
InsertedRows-length (InsertedRows.skip a known rest) = omega (arith, InsertedRows-length rest)
InsertedRows-length (InsertedRows.insert a new free parent rest) =
    omega (arith, InsertedRows-length rest)

length-all_asteroids : (batch : List AsteroidRecord) → length (all_asteroids batch) ≡ length batch
length-all_asteroids [] = refl
length-all_asteroids (r ∷ batch) = omega (arith, length-all_asteroids batch)

length-map-fst :
    (rows : List (Uuid × Bool)) → length (map (λ (r : Uuid × Bool). r.0) rows) ≡ length rows
length-map-fst [] = refl
length-map-fst (r ∷ rows) = omega (arith, length-map-fst rows)

-- What the counters say of a committed batch.
abbrev pub AreCounted : Db → List AsteroidRecord → Db × Result SqlError UpsertStats → Type 0
AreCounted db batch (db', err e) = Unit
AreCounted db batch (db', ok s) =
    (s.asteroids_inserted + s.asteroids_updated ≡ length batch)
    × (s.approaches_inserted + s.approaches_skipped ≡ length (all_approaches batch))
    × (length s.newly_inserted_asteroid_ids ≡ s.asteroids_inserted)
    × (length db'.asteroids ≡ length db.asteroids + s.asteroids_inserted)
    × (length db'.approaches ≡ length db.approaches + s.approaches_inserted)

IsCommitted-AreCounted :
    (now : DateTime) (faults : Faults) (db : Db) (batch : List AsteroidRecord)
    → IsCommitted now faults db batch
    → AreCounted db batch (upsert_batch now faults db batch)
IsCommitted-AreCounted now faults db batch c =
    let u = UpsertedRows-length (
      upsert_asteroids-UpsertedRows [] db.asteroids (all_asteroids batch) c.asteroids
        c.asteroid_rows c.first) in
    let i = InsertedRows-length (
      insert_approaches-InsertedRows c.asteroids db.approaches (all_approaches batch) c.approaches
        c.approach_ids c.second) in
    let fits = length-filter-le inserted c.asteroid_rows in
    let ids = length-map-fst (filter inserted c.asteroid_rows) in
    let all = length-all_asteroids batch in
    subst (AreCounted db batch) (sym c.result)
      (omega arith, omega arith, refl, omega arith, omega arith)

-- In a batch that succeeds each asteroid is counted as inserted or as updated and each approach as
-- inserted or as skipped, the new ids are as many as the insertions, and both tables grow by
-- just the rows that are counted as inserted.
pub upsert_batch_counts :
    (now : DateTime) (faults : Faults) (db : Db) (batch : List AsteroidRecord) (db' : Db)
    (s : UpsertStats)
    → upsert_batch now faults db batch ≡ (db', ok s)
    → (s.asteroids_inserted + s.asteroids_updated ≡ length batch)
      × (s.approaches_inserted + s.approaches_skipped ≡ length (all_approaches batch))
      × (length s.newly_inserted_asteroid_ids ≡ s.asteroids_inserted)
      × (length db'.asteroids ≡ length db.asteroids + s.asteroids_inserted)
      × (length db'.approaches ≡ length db.approaches + s.approaches_inserted)
upsert_batch_counts now faults db batch db' s e = elim (upsert_batch_atomic now faults db batch) [
  | inl (error, failed) ↦ cc
  | inr (inl c) ↦ let lost = c.lost in cc
  | inr (inr c) ↦ subst (AreCounted db batch) e (IsCommitted-AreCounted now faults db batch c)
]
