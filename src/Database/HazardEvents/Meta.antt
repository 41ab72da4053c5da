-- ===== src/Database/HazardEvents/Meta.antt =====
-- What `upsert_batch` of src/database/repository.rs looks up for the events of a batch.
use rustroid_sentinel.Prelude.{
  ◌≡◌, ◌∙◌, inl, inr, refl, ap, sym, String, Bool, true, false, Option, none, some, List, [], ◌∷◌,
  ◌++◌, ◌==◌, ==_self, if◌then◌else◌, any, arith, Bool-cases,
}
use mathlib.Core.Path.{subst, ap₂}
use rustroid_sentinel.Models.{
  Uuid, DateTime, HazardClassification, critical, high, medium, low, Approach, AsteroidRecord,
}
use rustroid_sentinel.Database.HazardEvents.{
  HazardEvent, ApproachMeta, meta_of_approaches, approach_meta, get_meta, remove_meta, hazard_event,
  hazard_events,
}

-- Agreement of two maps on some ids is enough for the events of these ids.
get_meta-remove_meta :
    (i j : Uuid) (m : ApproachMeta)
    → get_meta j (remove_meta i m) ≡ (if i == j then none else get_meta j m)
unfolding get_meta remove_meta
get_meta-remove_meta i j [] = elim (Bool-cases (i == j)) [ inl e ↦ rw e refl | inr e ↦ rw e refl ]
get_meta-remove_meta i j ((k, v) ∷ m) =
    let rest = get_meta-remove_meta i j m in
    elim (Bool-cases (k == i)) [
      | inl gone ↦ elim (Bool-cases (i == j)) [
        | inl e ↦ rw (remove_meta, gone) (rest ∙ rw e refl)
        | inr e ↦
            let other : (k == j) ≡ false = ground arith in
            rw (remove_meta, gone) (rest ∙ rw (e, other) refl)
      ]
      | inr stays ↦ elim (Bool-cases (k == j)) [
        | inl here ↦
            let e : (i == j) ≡ false = ground arith in rw (remove_meta, stays, here, e) refl
        | inr there ↦ rw (remove_meta, stays, there) rest
      ]
    ]

abbrev pub Agree : List Uuid → ApproachMeta → ApproachMeta → Type 0
Agree ids m m' = (i : Uuid) → any (λ j. j == i) ids ≡ true → get_meta i m ≡ get_meta i m'

pub hazard_events-Agree :
    (now : DateTime) (ids : List Uuid) (m m' : ApproachMeta)
    → Agree ids m m'
    → hazard_events now m ids ≡ hazard_events now m' ids
unfolding hazard_events
hazard_events-Agree now [] m m' h = refl
hazard_events-Agree now (i ∷ ids) m m' h = ap₂ ◌++◌ (ap (hazard_event now i) (h i (ground arith))) (
    hazard_events-Agree now ids (remove_meta i m) (remove_meta i m') λ j there.
      get_meta-remove_meta i j m
      ∙ ap (λ o. if i == j then none else o) (h j (ground arith))
      ∙ sym (get_meta-remove_meta i j m'))

-- What the batch says of each approach, in order.
abbrev pub entries_of : String → List Approach → ApproachMeta
entries_of name [] = []
entries_of name (a ∷ approaches) =
    (a.id, (name, a.hazard_classification)) ∷ entries_of name approaches

abbrev pub entries : List AsteroidRecord → ApproachMeta
entries [] = []
entries (r ∷ records) = entries_of r.asteroid.name r.approaches ++ entries records

abbrev pub push_all : ApproachMeta → ApproachMeta → ApproachMeta
push_all [] m = m
push_all (e ∷ es) m = push_all es (e ∷ m)

push_all-append : (es fs m : ApproachMeta) → push_all (es ++ fs) m ≡ push_all fs (push_all es m)
push_all-append [] fs m = refl
push_all-append (e ∷ es) fs m = push_all-append es fs (e ∷ m)

meta_of_approaches-push_all :
    (name : String) (group : List Approach) (m : ApproachMeta)
    → meta_of_approaches name group m ≡ push_all (entries_of name group) m
unfolding meta_of_approaches
meta_of_approaches-push_all name [] m = refl
meta_of_approaches-push_all name (a ∷ group) m = meta_of_approaches-push_all name group _

pub approach_meta-push_all :
    (batch : List AsteroidRecord) (m : ApproachMeta)
    → approach_meta batch m ≡ push_all (entries batch) m
unfolding approach_meta
approach_meta-push_all [] m = refl
approach_meta-push_all (r ∷ batch) m =
    approach_meta-push_all batch (meta_of_approaches r.asteroid.name r.approaches m)
    ∙ ap (push_all (entries batch)) (meta_of_approaches-push_all r.asteroid.name r.approaches m)
    ∙ sym (push_all-append (entries_of r.asteroid.name r.approaches) (entries batch) m)

-- No id has two entries.
abbrev pub HasDistinctKeys : ApproachMeta → Type 0
HasDistinctKeys [] = Unit
HasDistinctKeys ((i, v) ∷ es) = (get_meta i es ≡ none) × HasDistinctKeys es

abbrev pub first_of :
    Option (String × HazardClassification)
    → Option (String × HazardClassification)
    → Option (String × HazardClassification)
first_of none o = o
first_of (some v) o = some v

pub get_meta-push_all :
    (i : Uuid) (es m : ApproachMeta)
    → HasDistinctKeys es
    → get_meta i (push_all es m) ≡ first_of (get_meta i es) (get_meta i m)
unfolding get_meta
get_meta-push_all i [] m h = refl
get_meta-push_all i ((j, v) ∷ es) m (alone, h) =
    get_meta-push_all i es ((j, v) ∷ m) h ∙ elim (Bool-cases (j == i)) [
      | inl here ↦
          let absent : get_meta i es ≡ none =
            subst (λ k. get_meta k es ≡ none) (let e : j ≡ i = ground arith in e) alone in
          rw (here, absent) refl
      | inr there ↦ rw there refl
    ]

-- Some of the keys of a map, in its order.
pub data Picks : List Uuid → ApproachMeta → Type 0 where
  stop : Picks [] []
  pass :
      {ids : List Uuid} {es : ApproachMeta} (i : Uuid) (v : String × HazardClassification)
      → Picks ids es
      → Picks ids ((i, v) ∷ es)
  pick :
      {ids : List Uuid} {es : ApproachMeta} (i : Uuid) (v : String × HazardClassification)
      → Picks ids es
      → Picks (i ∷ ids) ((i, v) ∷ es)

Picks-absent :
    {ids : List Uuid} {es : ApproachMeta}
    → Picks ids es
    → (j : Uuid) → get_meta j es ≡ none
    → any (λ k. k == j) ids ≡ false
unfolding get_meta
Picks-absent stop j h = refl
Picks-absent (pass {es} i v p) j h = elim (Bool-cases (i == j)) [
  | inl here ↦ absurd (
      let e : ◌≡◌ {A = Option (String × HazardClassification)} (some v) none =
        rw (get_meta, here) at h in
      cc)
  | inr there ↦ Picks-absent p j (rw (get_meta, there) at h)
]
Picks-absent (pick {ids} i v p) j h = elim (Bool-cases (i == j)) [
  | inl here ↦ absurd (
      let e : ◌≡◌ {A = Option (String × HazardClassification)} (some v) none =
        rw (get_meta, here) at h in
      cc)
  | inr there ↦ rw there (Picks-absent p j (rw (get_meta, there) at h))
]

abbrev pub is_alarming : HazardClassification → Bool
is_alarming critical = true
is_alarming high = true
is_alarming medium = false
is_alarming low = false

-- The event of an approach, if its class calls for one.
abbrev pub alarm : DateTime → Uuid → String × HazardClassification → List HazardEvent
alarm now i (name, class) =
    if is_alarming class
    then record {
      approach_id = i;
      asteroid_name = name;
      hazard_classification = class;
      timestamp = now;
    }
      ∷ []
    else []

hazard_event-alarm :
    (now : DateTime) (i : Uuid) (v : String × HazardClassification)
    → hazard_event now i (some v) ≡ alarm now i v
hazard_event-alarm now i (name, critical) = refl
hazard_event-alarm now i (name, high) = refl
hazard_event-alarm now i (name, medium) = refl
hazard_event-alarm now i (name, low) = refl

-- The events of those entries whose approach is new.
abbrev pub alarms : DateTime → (Uuid → Bool) → ApproachMeta → List HazardEvent
alarms now is_new [] = []
alarms now is_new ((i, v) ∷ es) = (if is_new i then alarm now i v else []) ++ alarms now is_new es

pub alarms_cong :
    (now : DateTime) (f g : Uuid → Bool) (es : ApproachMeta)
    → ((k : Uuid) → (get_meta k es ≡ none → ⊥) → f k ≡ g k)
    → alarms now f es ≡ alarms now g es
unfolding get_meta
alarms_cong now f g [] h = refl
alarms_cong now f g ((i, v) ∷ es) h =
    ap₂ ◌++◌
      (ap (λ b. if b then alarm now i v else [])
        (h i (λ absent.
          let e : ◌≡◌ {A = Option (String × HazardClassification)} (some v) none =
            rw (get_meta, ==_self i) at absent in
          cc)))
      (alarms_cong now f g es λ k present. elim (Bool-cases (i == k)) [
        | inl here ↦ h k (λ absent.
            let e : ◌≡◌ {A = Option (String × HazardClassification)} (some v) none =
              rw (get_meta, here) at absent in
            cc)
        | inr there ↦ h k (λ absent. present (rw (get_meta, there) at absent))
      ])

pub Picks-alarms :
    {ids : List Uuid} {es : ApproachMeta} (now : DateTime)
    → Picks ids es
    → HasDistinctKeys es
    → hazard_events now es ids ≡ alarms now (λ i. any (λ k. k == i) ids) es
unfolding hazard_events get_meta
Picks-alarms now stop _ = refl
Picks-alarms {ids} now (pass {es} i v p) (alone, h) =
    let absent = Picks-absent p i alone in
    let same : hazard_events now ((i, v) ∷ es) ids ≡ hazard_events now es ids =
      hazard_events-Agree now ids ((i, v) ∷ es) es λ j there. elim (Bool-cases (i == j)) [
        | inl here ↦ absurd (
            let e : any (λ k. k == j) ids ≡ false =
              subst (λ n. any (λ k. k == n) ids ≡ false) (let e : i ≡ j = ground arith in e)
                absent in
            cc)
        | inr other ↦ rw (get_meta, other) refl
      ] in
    same ∙ Picks-alarms now p h ∙ rw absent refl
Picks-alarms now (pick {ids} {es} i v p) (alone, h) =
    let absent = Picks-absent p i alone in
    let removed : hazard_events now (remove_meta i ((i, v) ∷ es)) ids ≡ hazard_events now es ids =
      hazard_events-Agree now ids (remove_meta i ((i, v) ∷ es)) es λ j there.
        elim (Bool-cases (i == j)) [
          | inl here ↦ absurd (
              let e : any (λ k. k == j) ids ≡ false =
                subst (λ n. any (λ k. k == n) ids ≡ false) (let e : i ≡ j = ground arith in e)
                  absent in
              cc)
          | inr other ↦ get_meta-remove_meta i j ((i, v) ∷ es) ∙ rw (get_meta, other) refl
        ] in
    let first : get_meta i ((i, v) ∷ es) ≡ some v = rw (get_meta, ==_self i) refl in
    let rest : alarms now (λ k. any (λ j. j == k) ids) es
        ≡ alarms now (λ k. any (λ j. j == k) (i ∷ ids)) es =
      alarms_cong now _ _ es λ k present. elim (Bool-cases (i == k)) [
        | inl here ↦
            absurd (
              present (subst (λ n. get_meta n es ≡ none) (let e : i ≡ k = ground arith in e) alone))
        | inr other ↦ rw other refl
      ] in
    ap₂ ◌++◌ (ap (hazard_event now i) first ∙ hazard_event-alarm now i v ∙ rw (==_self i) refl)
      (removed ∙ Picks-alarms now p h ∙ rest)
