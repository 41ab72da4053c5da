-- ===== src/Database/Upsert/Alarms.antt =====
-- The hazard events of a batch, `upsert_batch` of src/database/repository.rs.
use rustroid_sentinel.Prelude.{
  ◌≡◌, ◌∙◌, inl, inr, refl, ap, sym, String, Bool, true, false, not, ◌&&◌, ◌||◌, Option, none, some,
  List, [], ◌∷◌, ◌++◌, ◌==◌, any, arith, Bool-cases, Result, ok, err,
}
use mathlib.Core.Path.{subst, ap₂}
use rustroid_sentinel.Models.{
  Uuid, DateTime, HazardClassification, Asteroid, Approach, AsteroidRecord,
}
use rustroid_sentinel.Database.{Db, ApproachRow, SqlError}
use rustroid_sentinel.Database.HazardEvents.{ApproachMeta, approach_meta, get_meta, hazard_events}
use rustroid_sentinel.Database.HazardEvents.Meta.{
  hazard_events-Agree, entries_of, entries, approach_meta-push_all, HasDistinctKeys, first_of,
  get_meta-push_all, Picks, stop, pass, pick, alarms, alarms_cong, Picks-alarms,
}
use rustroid_sentinel.Database.Upsert.{Faults, UpsertStats, upsert_batch, all_approaches}
use rustroid_sentinel.Database.Upsert.Steps.{
  InsertedRows, done, skip, insert, insert_approaches-InsertedRows,
}
use rustroid_sentinel.Database.Upsert.Counts.{IsCommitted, upsert_batch_atomic}

abbrev keys : ApproachMeta → List Uuid
keys [] = []
keys ((i, v) ∷ es) = i ∷ keys es

abbrev approach_keys : List Approach → List Uuid
approach_keys [] = []
approach_keys (a ∷ approaches) = a.id ∷ approach_keys approaches

keys-append : (es fs : ApproachMeta) → keys (es ++ fs) ≡ keys es ++ keys fs
keys-append [] fs = refl
keys-append ((i, v) ∷ es) fs = ap (λ l. i ∷ l) (keys-append es fs)

approach_keys-append :
    (p q : List Approach) → approach_keys (p ++ q) ≡ approach_keys p ++ approach_keys q
approach_keys-append [] q = refl
approach_keys-append (a ∷ p) q = ap (λ l. a.id ∷ l) (approach_keys-append p q)

keys-entries_of :
    (name : String) (group : List Approach) → keys (entries_of name group) ≡ approach_keys group
keys-entries_of name [] = refl
keys-entries_of name (a ∷ group) = ap (λ l. a.id ∷ l) (keys-entries_of name group)

keys-entries :
    (batch : List AsteroidRecord) → keys (entries batch) ≡ approach_keys (all_approaches batch)
keys-entries [] = refl
keys-entries (r ∷ batch) =
    keys-append (entries_of r.asteroid.name r.approaches) (entries batch)
    ∙ ap₂ ◌++◌ (keys-entries_of r.asteroid.name r.approaches) (keys-entries batch)
    ∙ sym (approach_keys-append r.approaches (all_approaches batch))

InsertedRows-Picks :
    {parents : List Asteroid} {rows rows' : List ApproachRow} {proposed : List Approach}
    {out : List Uuid}
    → InsertedRows parents rows proposed rows' out
    → (es : ApproachMeta) → keys es ≡ approach_keys proposed
    → Picks out es
InsertedRows-Picks done [] e = stop
InsertedRows-Picks done ((i, v) ∷ es) e = absurd cc
InsertedRows-Picks (skip a known d) [] e = absurd cc
InsertedRows-Picks (skip a known d) ((i, v) ∷ es) e = pass i v (InsertedRows-Picks d es cc)
InsertedRows-Picks (insert a new free parent d) [] e = absurd cc
InsertedRows-Picks (insert {out} a new free parent d) ((i, v) ∷ es) e =
    let same : i ≡ a.id = cc in
    subst (λ k. Picks (k ∷ out) ((i, v) ∷ es)) same (pick i v (InsertedRows-Picks d es cc))

-- The approach is in the table after the batch and was not before.
abbrev pub is_new : List ApproachRow → List ApproachRow → Uuid → Bool
is_new before after i =
    any (λ (r : ApproachRow). r.id == i) after && not (any (λ (r : ApproachRow). r.id == i) before)

InsertedRows-new :
    {parents : List Asteroid} {rows rows' : List ApproachRow} {proposed : List Approach}
    {out : List Uuid}
    → InsertedRows parents rows proposed rows' out
    → (i : Uuid)
    → (any (λ (r : ApproachRow). r.id == i) rows'
        ≡ (any (λ k. k == i) out || any (λ (r : ApproachRow). r.id == i) rows))
      × (any (λ k. k == i) out ≡ true → any (λ (r : ApproachRow). r.id == i) rows ≡ false)
InsertedRows-new done i = (refl, λ h. absurd cc)
InsertedRows-new (skip a known d) i = InsertedRows-new d i
InsertedRows-new {rows} (insert {rows'} {out} a new free parent d) i =
    let (after, before) = InsertedRows-new d i in
    elim (Bool-cases (a.id == i)) [
      | inl here ↦
          let e : a.id ≡ i = ground arith in
          (ground arith, λ _. subst (λ k. any (λ (r : ApproachRow). r.id == k) rows ≡ false) e free)
      | inr other ↦ (ground arith, λ h. ground arith)
    ]

first_of_absent :
    (i : Uuid) (o : Option (String × HazardClassification)) → first_of o (get_meta i []) ≡ o
unfolding get_meta
first_of_absent i none = refl
first_of_absent i (some v) = refl

abbrev Alarmed : DateTime → Db → List AsteroidRecord → Db × Result SqlError UpsertStats → Type 0
Alarmed now db batch (db', err e) = Unit
Alarmed now db batch (db', ok s) =
    s.new_hazard_events ≡ alarms now (is_new db.approaches db'.approaches) (entries batch)

IsCommitted-Alarmed :
    (now : DateTime) (faults : Faults) (db : Db) (batch : List AsteroidRecord)
    → HasDistinctKeys (entries batch)
    → IsCommitted now faults db batch
    → Alarmed now db batch (upsert_batch now faults db batch)
IsCommitted-Alarmed now faults db batch distinct c =
    let es : ApproachMeta = entries batch in
    let d =
      insert_approaches-InsertedRows c.asteroids db.approaches (all_approaches batch) c.approaches
        c.approach_ids c.second in
    let p = InsertedRows-Picks d es (keys-entries batch) in
    let pushed : hazard_events now (approach_meta batch []) c.approach_ids
        ≡ hazard_events now es c.approach_ids =
      hazard_events-Agree now c.approach_ids (approach_meta batch []) es λ i there.
        ap (get_meta i) (approach_meta-push_all batch [])
        ∙ get_meta-push_all i es [] distinct
        ∙ first_of_absent i (get_meta i es) in
    let fresh : alarms now (λ i. any (λ k. k == i) c.approach_ids) es
        ≡ alarms now (is_new db.approaches c.approaches) es =
      alarms_cong now _ _ es
        λ i present. let (after, before) = InsertedRows-new d i in told i after before in
    subst (Alarmed now db batch) (sym c.result) (pushed ∙ Picks-alarms now p distinct ∙ fresh)
  where
    told :
        (i : Uuid)
        → any (λ (r : ApproachRow). r.id == i) c.approaches
          ≡ (any (λ k. k == i) c.approach_ids || any (λ (r : ApproachRow). r.id == i) db.approaches)
        → (any (λ k. k == i) c.approach_ids ≡ true
            → any (λ (r : ApproachRow). r.id == i) db.approaches ≡ false)
        → any (λ k. k == i) c.approach_ids ≡ is_new db.approaches c.approaches i
    told i after before = elim (Bool-cases (any (λ k. k == i) c.approach_ids)) [
      | inl yes_new ↦ let old = before yes_new in ground arith
      | inr not_new ↦ ground arith
    ]

-- When no two approaches of a batch have one id, a batch that is committed gives the events of
-- exactly those of its Critical and High approaches that are in the table after it and were not
-- before, with the name of their asteroid, in the order of the batch.
pub upsert_batch-alarms :
    (now : DateTime) (faults : Faults) (db : Db) (batch : List AsteroidRecord) (db' : Db)
    (s : UpsertStats)
    → upsert_batch now faults db batch ≡ (db', ok s)
    → HasDistinctKeys (entries batch)
    → s.new_hazard_events ≡ alarms now (is_new db.approaches db'.approaches) (entries batch)
upsert_batch-alarms now faults db batch db' s e distinct =
    elim (upsert_batch_atomic now faults db batch) [
      | inl (error, failed) ↦ cc
      | inr (inl c) ↦ let lost = c.lost in cc
      | inr (inr c) ↦
          subst (Alarmed now db batch) e (IsCommitted-Alarmed now faults db batch distinct c)
    ]
