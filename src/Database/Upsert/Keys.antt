-- ===== src/Database/Upsert/Keys.antt =====
-- The keys of the tables that `upsert_batch` of src/database/repository.rs writes.
use rustroid_sentinel.Prelude.{
  ok, ◌≡◌, inl, inr, refl, ap, sym, String, Bool, true, false, Option, none, some, List, [], ◌∷◌,
  arith, Bool-cases, str_eq, ◌==◌, ◌&&◌, ◌||◌, ◌∙◌, any, All, Result,
}
use mathlib.Core.Path.{subst}
use rustroid_sentinel.Models.{Uuid, DateTime, Asteroid, Approach, AsteroidRecord}
use rustroid_sentinel.Database.{Db, ApproachRow, SqlError, i64_eq}
use rustroid_sentinel.Database.Upsert.Steps.{
  UpsertedRows, InsertedRows, upsert_asteroids-UpsertedRows, insert_approaches-InsertedRows,
}
use rustroid_sentinel.Database.Upsert.Counts.{upsert_batch_atomic}
use rustroid_sentinel.Database.Upsert.{
  Faults, update_asteroid, upsert_asteroids, insert_approaches, upsert_batch, all_asteroids,
  all_approaches, keep_row,
}

-- No two elements are the same by the test.
abbrev pub AreDistinct {ℓ} : {A : Type ℓ} → (A → A → Bool) → List A → Type 0
AreDistinct same [] = Unit
AreDistinct same (x ∷ xs) = (any (same x) xs ≡ false) × AreDistinct same xs

abbrev pub refs : List Asteroid → List String
refs [] = []
refs (a ∷ rows) = a.neo_reference_id ∷ refs rows

abbrev pub ids : List Asteroid → List Uuid
ids [] = []
ids (a ∷ rows) = a.id ∷ ids rows

abbrev pub is_ref : String → String → Bool
is_ref x y = str_eq y x

abbrev pub is_id : Uuid → Uuid → Bool
is_id x y = y == x

abbrev pub same_row_id : ApproachRow → ApproachRow → Bool
same_row_id r s = s.id == r.id

abbrev pub same_row_key : ApproachRow → ApproachRow → Bool
same_row_key r s =
    (s.asteroid_id == r.asteroid_id)
    && i64_eq s.epoch_date_close_approach r.epoch_date_close_approach

-- The primary keys, the unique keys and the foreign key of the two tables.
pub record WellFormed (db : Db) : Type 0 where
  pub asteroid_ids : AreDistinct is_id (ids db.asteroids)
  pub neo_reference_ids : AreDistinct is_ref (refs db.asteroids)
  pub approach_ids : AreDistinct same_row_id db.approaches
  pub approach_keys : AreDistinct same_row_key db.approaches
  pub parents :
      All (λ (r : ApproachRow). any (is_id r.asteroid_id) (ids db.asteroids) ≡ true) db.approaches

-- What the update of a row leaves as it was, and what its absence says.
abbrev pub KeepsKeys : Asteroid → List Asteroid → Option (Uuid × List Asteroid) → Type 0
KeepsKeys a rows none = any (is_ref a.neo_reference_id) (refs rows) ≡ false
KeepsKeys a rows (some (i, rows')) =
    (refs rows' ≡ refs rows)
    × (ids rows' ≡ ids rows)
    × (any (is_ref a.neo_reference_id) (refs rows) ≡ true)

keep_row-KeepsKeys :
    (a old : Asteroid) (rows : List Asteroid) (o : Option (Uuid × List Asteroid))
    → str_eq old.neo_reference_id a.neo_reference_id ≡ false
    → KeepsKeys a rows o
    → KeepsKeys a (old ∷ rows) (keep_row old o)
keep_row-KeepsKeys a old rows none other h = rw (other, h)
keep_row-KeepsKeys a old rows (some (i, rows')) other h =
    (ap (λ r. old.neo_reference_id ∷ r) h.0, ap (λ r. old.id ∷ r) h.1, rw (other, h.2))

pub update_asteroid-KeepsKeys :
    (a : Asteroid) (rows : List Asteroid) → KeepsKeys a rows (update_asteroid a rows)
unfolding update_asteroid
update_asteroid-KeepsKeys a [] = refl
update_asteroid-KeepsKeys a (old ∷ rows) =
    elim (Bool-cases (str_eq old.neo_reference_id a.neo_reference_id)) [
      | inl same ↦ rw (same, KeepsKeys) (refl, refl, rw same)
      | inr other ↦
          rw (other, KeepsKeys, keep_row)
            (keep_row-KeepsKeys a old rows _ other (update_asteroid-KeepsKeys a rows))
    ]

any-ids :
    (i : Uuid) (rows : List Asteroid)
    → any (λ (o : Asteroid). o.id == i) rows ≡ any (is_id i) (ids rows)
any-ids i [] = refl
any-ids i (a ∷ rows) = ap (λ b. (a.id == i) || b) (any-ids i rows)

abbrev HasKeys : List Asteroid → Type 0
HasKeys rows = AreDistinct is_id (ids rows) × AreDistinct is_ref (refs rows)

-- The first statement keeps the keys of `asteroids` distinct and loses no id.
UpsertedRows-HasKeys :
    {touched : List String} {rows proposed rows' : List Asteroid} {out : List (Uuid × Bool)}
    → UpsertedRows touched rows proposed rows' out
    → HasKeys rows
    → HasKeys rows'
      × ((i : Uuid) → any (is_id i) (ids rows) ≡ true → any (is_id i) (ids rows') ≡ true)
UpsertedRows-HasKeys UpsertedRows.done k = (k, λ i h. h)
UpsertedRows-HasKeys (UpsertedRows.update {rows = rows} {rows1 = rows1} a i new found rest) k =
    let (same_refs, same_ids, known) =
      subst (KeepsKeys a rows) found (update_asteroid-KeepsKeys a rows) in
    let (k', keeps) = UpsertedRows-HasKeys rest (rw same_ids k.0, rw same_refs k.1) in
    (k', λ j h. keeps j (rw same_ids h))
UpsertedRows-HasKeys (UpsertedRows.insert {rows = rows} a new absent free rest) k =
    let no_ref = subst (KeepsKeys a rows) absent (update_asteroid-KeepsKeys a rows) in
    let (k', keeps) =
      UpsertedRows-HasKeys rest ((sym (any-ids a.id rows) ∙ free, k.0), (no_ref, k.1)) in
    (k', λ j h. keeps j (rw h (or_true (a.id == j))))
  where
    or_true : (b : Bool) → (b || true) ≡ true
    or_true b = ground arith

module _ (parents : List Asteroid) where
  abbrev HasRows : List ApproachRow → Type 0
  HasRows rows =
      AreDistinct same_row_id rows
      × AreDistinct same_row_key rows
      × All (λ (r : ApproachRow). any (is_id r.asteroid_id) (ids parents) ≡ true) rows

  InsertedRows-HasRows :
      {rows rows' : List ApproachRow} {proposed : List Approach} {out : List Uuid}
      → InsertedRows parents rows proposed rows' out
      → HasRows rows
      → HasRows rows'
  InsertedRows-HasRows InsertedRows.done k = k
  InsertedRows-HasRows (InsertedRows.skip a known rest) k = InsertedRows-HasRows rest k
  InsertedRows-HasRows (InsertedRows.insert a new free parent rest) k =
      InsertedRows-HasRows rest
        ((free, k.0), (new, k.1), (sym (any-ids a.asteroid_id parents) ∙ parent, k.2))

All-map {ℓ κ} :
    {A : Type ℓ} (P Q : A → Type κ) (xs : List A) → ((x : A) → P x → Q x) → All P xs → All Q xs
All-map P Q [] f _ = tt
All-map P Q (x ∷ xs) f (p, ps) = (f x p, All-map P Q xs f ps)

-- What the two statements write.
written-WellFormed :
    (db : Db) (batch : List AsteroidRecord) (asteroids : List Asteroid)
    (asteroid_rows : List (Uuid × Bool)) (approaches : List ApproachRow) (approach_ids : List Uuid)
    → upsert_asteroids [] db.asteroids (all_asteroids batch) ≡ ok (asteroids, asteroid_rows)
    → insert_approaches asteroids db.approaches (all_approaches batch)
      ≡ ok (approaches, approach_ids)
    → WellFormed db
    → WellFormed (record db { asteroids = asteroids; approaches = approaches })
written-WellFormed db batch asteroids asteroid_rows approaches approach_ids first second w =
    let (k, keeps) =
      UpsertedRows-HasKeys
        (upsert_asteroids-UpsertedRows [] db.asteroids (all_asteroids batch) asteroids asteroid_rows
          first)
        (w.asteroid_ids, w.neo_reference_ids) in
    let parents =
      All-map (λ (r : ApproachRow). any (is_id r.asteroid_id) (ids db.asteroids) ≡ true)
        (λ (r : ApproachRow). any (is_id r.asteroid_id) (ids asteroids) ≡ true) db.approaches
        (λ r. keeps r.asteroid_id) w.parents in
    let rows =
      InsertedRows-HasRows asteroids
        (insert_approaches-InsertedRows asteroids db.approaches (all_approaches batch) approaches
          approach_ids second)
        (w.approach_ids, w.approach_keys, parents) in
    record {
      asteroid_ids = k.0;
      neo_reference_ids = k.1;
      approach_ids = rows.0;
      approach_keys = rows.1;
      parents = rows.2;
    }

-- Whatever the batch and whatever fails, a call leaves the ids and the reference ids of
-- `asteroids` distinct, the ids and the keys of `approaches` distinct, and each approach with its
-- asteroid, if they were so before.
pub upsert_batch-WellFormed :
    (now : DateTime) (faults : Faults) (db : Db) (batch : List AsteroidRecord)
    → WellFormed db
    → WellFormed ((upsert_batch now faults db batch).0)
upsert_batch-WellFormed now faults db batch w = elim (upsert_batch_atomic now faults db batch) [
  | inl (e, failed) ↦ subst (λ (p : Db × Result SqlError _). WellFormed p.0) (sym failed) w
  | inr (inl c) ↦
      subst (λ (p : Db × Result SqlError _). WellFormed p.0) (sym c.lost)
        (written-WellFormed db batch c.asteroids c.asteroid_rows c.approaches c.approach_ids c.first
          c.second w)
  | inr (inr c) ↦
      subst (λ (p : Db × Result SqlError _). WellFormed p.0) (sym c.result)
        (written-WellFormed db batch c.asteroids c.asteroid_rows c.approaches c.approach_ids c.first
          c.second w)
]
