-- ===== src/Database/Chunks/Laws.antt =====
-- The counts of `upsert_asteroids_and_approaches`, src/database/repository.rs.
use rustroid_sentinel.Prelude.{
  ℕ, zero, suc, ◌+◌, ◌≤◌, ◌≡◌, refl, ap, sym, ◌∙◌, ◌||◌, List, [], ◌∷◌, ◌++◌, arith, length,
  length-append, take, drop, Bool-cases, inl, inr, Result, ok, err, Result-cases,
}
use mathlib.Core.Path.{subst}
use rustroid_sentinel.Models.{AsteroidRecord}
use rustroid_sentinel.Database.{Db, SqlError}
use rustroid_sentinel.Database.Upsert.{
  UpsertStats, Faults, upsert_asteroids, insert_approaches, all_asteroids, all_approaches,
}
use rustroid_sentinel.Database.Upsert.Steps.{insert_approaches-InsertedRows}
use rustroid_sentinel.Database.Upsert.Counts.{all_approaches-append, InsertedRows-length}
use rustroid_sentinel.Database.Chunks.{
  chunks, upsert_chunk, add_chunk, nothing_upserted, upsert_chunks, upsert_asteroids_and_approaches,
}

-- What a chunk that succeeds counts.
abbrev Adds : Db → List AsteroidRecord → Db × Result SqlError ℕ → Type 0
Adds db chunk (db', err e) = Unit
Adds db chunk (db', ok n) =
    (n ≤ length (all_approaches chunk)) × (length db'.approaches ≡ length db.approaches + n)

upsert_chunk-Adds :
    (faults : Faults) (db : Db) (chunk : List AsteroidRecord)
    → Adds db chunk (upsert_chunk faults db chunk)
unfolding upsert_chunk
upsert_chunk-Adds faults db chunk = elim (Bool-cases (faults.at_begin || faults.at_asteroids)) [
  | inl down ↦ rw (down, Adds) tt
  | inr up ↦ elim (Result-cases (upsert_asteroids [] db.asteroids (all_asteroids chunk))) [
    | inr (e, failed) ↦ rw (up, failed, Adds) tt
    | inl ((asteroids, rows), first) ↦ elim (Bool-cases faults.at_approaches) [
      | inl down ↦ rw (up, first, down, Adds) tt
      | inr up' ↦
          elim (Result-cases (insert_approaches asteroids db.approaches (all_approaches chunk))) [
            | inr (e, failed) ↦ rw (up, first, up', failed, Adds) tt
            | inl ((approaches, ids), second) ↦ elim (Bool-cases faults.at_commit) [
              | inl down ↦ rw (up, first, up', second, down, Adds) tt
              | inr up'' ↦
                  let e : upsert_chunk faults db chunk ≡ (
                    record db { asteroids = asteroids; approaches = approaches },
                    ok (length ids),
                  ) =
                    rw (up, first, up', second, up'') refl in
                  subst (Adds db chunk) (sym e) (
                    InsertedRows-length (
                      insert_approaches-InsertedRows asteroids db.approaches (all_approaches chunk)
                        approaches ids second))
            ]
          ]
    ]
  ]
]

abbrev all_records : List (List AsteroidRecord) → List AsteroidRecord
all_records [] = []
all_records (chunk ∷ rest) = chunk ++ all_records rest

take-drop : (n : ℕ) (xs : List AsteroidRecord) → take n xs ++ drop n xs ≡ xs
take-drop zero xs = refl
take-drop (suc n) [] = refl
take-drop (suc n) (x ∷ xs) = ap (λ l. x ∷ l) (take-drop n xs)

length-drop : (n : ℕ) (xs : List AsteroidRecord) → length (drop n xs) ≤ length xs
length-drop zero xs = omega arith
length-drop (suc n) [] = omega arith
length-drop (suc n) (x ∷ xs) = omega (arith, length-drop n xs)

-- The chunks hold the data, in order.
all_records-chunks :
    (fuel n : ℕ) (records : List AsteroidRecord)
    → length records ≤ fuel
    → all_records (chunks fuel (suc n) records) ≡ records
unfolding chunks
all_records-chunks zero n [] h = refl
all_records-chunks zero n (r ∷ records) h = absurd (omega (arith, h))
all_records-chunks (suc fuel) n [] h = refl
all_records-chunks (suc fuel) n (r ∷ records) h =
    ap (λ l. r ∷ l)
      (ap (λ l. take n records ++ l)
          (all_records-chunks fuel n (drop n records) (omega (arith, h, length-drop n records)))
        ∙ take-drop n records)

abbrev Totals : Db → UpsertStats → List AsteroidRecord → Db × Result SqlError UpsertStats → Type 0
Totals db total records (db', err e) = Unit
Totals db total records (db', ok s) =
    (s.asteroids_inserted ≡ total.asteroids_inserted + length records)
    × (s.approaches_inserted + s.approaches_skipped
        ≡ total.approaches_inserted + total.approaches_skipped + length (all_approaches records))
    × (length db'.approaches + total.approaches_inserted
        ≡ length db.approaches + s.approaches_inserted)

Totals-chunk :
    (db db1 : Db) (total : UpsertStats) (chunk rest : List AsteroidRecord) (n : ℕ)
    (out : Db × Result SqlError UpsertStats)
    → n ≤ length (all_approaches chunk)
    → length db1.approaches ≡ length db.approaches + n
    → Totals db1 (add_chunk total chunk n) rest out
    → Totals db total (chunk ++ rest) out
Totals-chunk db db1 total chunk rest n (db', err e) fits grown h = tt
Totals-chunk db db1 total chunk rest n (db', ok s) fits grown h = (
  omega (arith, h.0, length-append chunk rest),
  omega (arith, h.1, fits, all_approaches-append chunk rest),
  omega (arith, h.2, grown),
)

upsert_chunks-Totals :
    (faults : ℕ → Faults) (k : ℕ) (db : Db) (total : UpsertStats)
    (batches : List (List AsteroidRecord))
    → Totals db total (all_records batches) (upsert_chunks faults k db total batches)
unfolding upsert_chunks
upsert_chunks-Totals faults k db total [] = (omega arith, omega arith, refl)
upsert_chunks-Totals faults k db total (chunk ∷ rest) =
    let (db1, r) = upsert_chunk (faults k) db chunk in
    let added = upsert_chunk-Adds (faults k) db chunk in
    elim (Result-cases r) [
      | inr (e, failed) ↦ rw (upsert_chunks, failed, Totals) tt
      | inl (n, done) ↦
          let (fits, grown) = subst (λ r'. Adds db chunk (db1, r')) done added in
          rw (upsert_chunks, done)
            (Totals-chunk db db1 total chunk (all_records rest) n
              (upsert_chunks faults (k + 1) db1 (add_chunk total chunk n) rest) fits grown
              (upsert_chunks-Totals faults (k + 1) db1 (add_chunk total chunk n) rest))
    ]

-- A call that succeeds has counted each record as an inserted asteroid, whether it was inserted or
-- updated, and each approach as inserted or skipped, over all chunks, and `approaches` has grown by
-- the rows counted as inserted.
pub upsert_asteroids_and_approaches_counts :
    (faults : ℕ → Faults) (db db' : Db) (records : List AsteroidRecord) (s : UpsertStats)
    → upsert_asteroids_and_approaches faults db records ≡ (db', ok s)
    → (s.asteroids_inserted ≡ length records)
      × (s.approaches_inserted + s.approaches_skipped ≡ length (all_approaches records))
      × (length db'.approaches ≡ length db.approaches + s.approaches_inserted)
unfolding upsert_asteroids_and_approaches
upsert_asteroids_and_approaches_counts faults db db' records s e =
    let parts = chunks (length records) 1000 records in
    let whole : all_records parts ≡ records =
      all_records-chunks (length records) 999 records (omega arith) in
    let t =
      subst (Totals db nothing_upserted (all_records parts)) e
        (upsert_chunks-Totals faults 0 db nothing_upserted parts) in
    let t' = subst (λ l. Totals db nothing_upserted l (db', ok s)) whole t in
    (omega (arith, t'.0), omega (arith, t'.1), omega (arith, t'.2))
