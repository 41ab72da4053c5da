-- ===== src/Database/Chunks.antt =====
-- The upsert in chunks of 1000 records, `upsert_asteroids_and_approaches` of
-- src/database/repository.rs: each chunk is a transaction of its own.
pub mod Laws
use rustroid_sentinel.Prelude.{
  ℕ, zero, suc, ◌+◌, ◌-◌, Bool, ◌||◌, List, [], ◌∷◌, if◌then◌else◌, length, take, drop, Result, ok,
  err,
}
use rustroid_sentinel.Models.{AsteroidRecord}
use rustroid_sentinel.Database.{Db, SqlError, connection_failure}
use rustroid_sentinel.Database.Upsert.{
  UpsertStats, Faults, upsert_asteroids, insert_approaches, all_asteroids, all_approaches,
}

-- `data.chunks(n)`; the length of the data is enough fuel.
unfoldable pub chunks {ℓ} : {A : Type ℓ} → ℕ → ℕ → List A → List (List A)
chunks zero n records = []
chunks (suc fuel) n [] = []
chunks (suc fuel) n (r ∷ records) = take n (r ∷ records) ∷ chunks fuel n (drop n (r ∷ records))

-- The body of the loop: the database, and the rows that the second statement inserted.
unfoldable pub upsert_chunk : Faults → Db → List AsteroidRecord → Db × Result SqlError ℕ
upsert_chunk faults db chunk =
    if faults.at_begin || faults.at_asteroids
    then (db, err connection_failure)
    else elim (upsert_asteroids [] db.asteroids (all_asteroids chunk)) [
      | err e ↦ (db, err e)
      | ok (asteroids, asteroid_rows) ↦
          if faults.at_approaches
          then (db, err connection_failure)
          else elim (insert_approaches asteroids db.approaches (all_approaches chunk)) [
            | err e ↦ (db, err e)
            | ok (approaches, inserted) ↦
                let written = record db { asteroids = asteroids; approaches = approaches } in
                if faults.at_commit
                then (if faults.reply_lost then written else db, err connection_failure)
                else (written, ok (length inserted))
          ]
    ]

-- What a chunk adds to the totals: each of its asteroids counts as inserted.
abbrev pub add_chunk : UpsertStats → List AsteroidRecord → ℕ → UpsertStats
add_chunk total chunk rows_affected = record total {
  asteroids_inserted = total.asteroids_inserted + length chunk;
  approaches_inserted = total.approaches_inserted + rows_affected;
  approaches_skipped = total.approaches_skipped + (length (all_approaches chunk) - rows_affected);
}

abbrev pub nothing_upserted : UpsertStats
nothing_upserted = record {
  asteroids_inserted = 0;
  asteroids_updated = 0;
  approaches_inserted = 0;
  approaches_skipped = 0;
  new_hazard_events = [];
  newly_inserted_asteroid_ids = [];
}

-- Chunk `k` meets `faults k`.
unfoldable pub upsert_chunks :
    (ℕ → Faults)
    → ℕ
    → Db
    → UpsertStats
    → List (List AsteroidRecord)
    → Db × Result SqlError UpsertStats
unfolding upsert_chunk
upsert_chunks faults k db total [] = (db, ok total)
upsert_chunks faults k db total (chunk ∷ rest) =
    let (db', r) = upsert_chunk (faults k) db chunk in
    elim r [
      | err e ↦ (db', err e)
      | ok rows_affected ↦
          upsert_chunks faults (k + 1) db' (add_chunk total chunk rows_affected) rest
    ]

unfoldable pub upsert_asteroids_and_approaches :
    (ℕ → Faults) → Db → List AsteroidRecord → Db × Result SqlError UpsertStats
unfolding upsert_chunks chunks
upsert_asteroids_and_approaches faults db records =
    upsert_chunks faults 0 db nothing_upserted (chunks (length records) 1000 records)
