-- ===== src/Database/Retention/Counts.antt =====
-- What src/database/retention.rs deletes and keeps.
use rustroid_sentinel.Prelude.{
  ℕ, zero, suc, ◌+◌, ◌-◌, ◌*◌, ◌≤◌, ◌≡◌, refl, inl, inr, All, Bool-cases, Bool, true, false, not,
  ◌&&◌, ◌||◌, List, [], ◌∷◌, ltb, ◌==◌, ==_self, arith, length, any, filter, map, take, length-take,
  min, ok, returned,
}
use rustroid_sentinel.Models.{Uuid, NaiveDate, DateTime}
use rustroid_sentinel.Alert.{AlertRow}
use rustroid_sentinel.Database.{Db, EtlEvent, ApproachRow}
use rustroid_sentinel.Database.Retention.Newest.{IsOutlived, left-IsOutlived}
use rustroid_sentinel.Database.Retention.Newest.Lists.{
  length-newest_first, length-filter-newest_first,
}
use rustroid_sentinel.Database.Retention.{
  started_desc, cascade, RetentionConfig, PruneResult, approach_cutoff, etl_event_cutoff, is_stale,
  newest_first, kept_ids, is_prunable, count_prunable, prune,
}

length-filter-not {ℓ} :
    {A : Type ℓ} (p : A → Bool) (xs : List A)
    → length (filter p xs) + length (filter (λ x. not (p x)) xs) ≡ length xs
length-filter-not p [] = omega arith
length-filter-not p (x ∷ xs) = ground (arith, length-filter-not p xs)

length-filter-weaker {ℓ} :
    {A : Type ℓ} (p q : A → Bool) (xs : List A)
    → ((x : A) → p x ≡ true → q x ≡ true)
    → length (filter p xs) ≤ length (filter q xs)
length-filter-weaker p q [] h = omega arith
length-filter-weaker p q (x ∷ xs) h = ground (arith, h x, length-filter-weaker p q xs h)

filter-filter-not {ℓ} :
    {A : Type ℓ} (p q : A → Bool) (xs : List A)
    → ((x : A) → q x ≡ true → p x ≡ false)
    → filter q (filter (λ x. not (p x)) xs) ≡ filter q xs
filter-filter-not p q [] h = refl
filter-filter-not p q (x ∷ xs) h = ground (arith, h x, filter-filter-not p q xs h)

-- The first `n` events pass the test for their ids.
length-filter-take :
    (n : ℕ) (ids : List Uuid) (events : List EtlEvent)
    → ((i : Uuid)
        → any (λ j. j == i) (map (λ (e : EtlEvent). e.id) (take n events)) ≡ true
        → any (λ j. j == i) ids ≡ true)
    → length (take n events) ≤ length (filter (λ (e : EtlEvent). any (λ i. i == e.id) ids) events)
length-filter-take zero ids events h = omega arith
length-filter-take (suc n) ids [] h = omega arith
length-filter-take (suc n) ids (e ∷ events) h =
    let first : any (λ i. i == e.id) ids ≡ true = h e.id (rw (==_self e.id) refl) in
    let rest = length-filter-take n ids events (λ i k. h i (rw k (or_true (e.id == i)))) in
    rw first (omega (arith, rest))
  where
    or_true : (b : Bool) → (b || true) ≡ true
    or_true b = ground arith

-- The approach of the alert is in the table.
abbrev pub HasApproach : List ApproachRow → AlertRow → Type 0
HasApproach rows al = any (λ (r : ApproachRow). r.id == al.approach_id) rows ≡ true

any-split :
    (p q : ApproachRow → Bool) (rows : List ApproachRow)
    → any p rows ≡ (any p (filter q rows) || any p (filter (λ r. not (q r)) rows))
any-split p q [] = refl
any-split p q (r ∷ rows) = ground (arith, any-split p q rows)

cascade-HasApproach :
    (stale : ApproachRow → Bool) (rows : List ApproachRow) (alerts : List AlertRow)
    → All (HasApproach rows) alerts
    → All (HasApproach (filter (λ r. not (stale r)) rows)) (cascade (filter stale rows) alerts)
cascade-HasApproach stale rows [] _ = tt
cascade-HasApproach stale rows (al ∷ alerts) (h, hs) =
    let of_al = λ (r : ApproachRow). r.id == al.approach_id in
    let rest = cascade-HasApproach stale rows alerts hs in
    elim (Bool-cases (any of_al (filter stale rows))) [
      | inl deleted ↦ rw deleted rest
      | inr spared ↦ let split = any-split of_al stale rows in rw spared (ground arith, rest)
    ]

module _ (tie : EtlEvent → EtlEvent → Bool) where
  -- As many events as are to be kept, or all, are not prunable.
  kept_enough :
      (cutoff : DateTime) (keep : ℕ) (events : List EtlEvent)
      → min keep (length events)
        ≤ length (filter (λ e. not (is_prunable tie cutoff (kept_ids tie keep events) e)) events)
  kept_enough cutoff keep events =
      let ids = kept_ids tie keep events in
      let is_kept = λ (e : EtlEvent). any (λ i. i == e.id) ids in
      let first = length-filter-take keep ids (newest_first (started_desc tie) events) (λ i h. h) in
      omega (
        arith,
        first,
        length-take keep (newest_first (started_desc tie) events),
        length-newest_first (started_desc tie) events,
        length-filter-newest_first (started_desc tie) is_kept events,
        length-filter-weaker is_kept (λ e. not (is_prunable tie cutoff ids e)) events
            (λ e h. rw h (never (ltb e.started_at cutoff))),
      )
    where
      never : (b : Bool) → not (b && false) ≡ true
      never true = refl
      never false = refl

  -- When the cutoffs lie after the first date and no statement fails, `prune` deletes as many rows
  -- as a dry run at the same time, with ties listed alike, announces, and the tables shrink by just the counts. Of the
  -- events each that is younger than the cutoff is left, and at least `etl_events_keep_min`, or all
  -- if there were fewer, and these are the newest: for each event that is gone as many are left that
  -- started no earlier. If each alert had its approach before, each alert that is left has it still.
  pub prune_lem :
      (today : NaiveDate) (now : DateTime) (config : RetentionConfig) (db : Db)
      (alerts : List AlertRow)
      → config.approach_retention_years * 365 ≤ today
      → config.etl_event_retention_days * 86400 ≤ now
      → (db' : Db) × (alerts' : List AlertRow) × (r : PruneResult) × (prune tie false false today
            now config db alerts
          ≡ returned ((db', alerts'), ok r))
        × (count_prunable tie false false today now config db ≡ returned (ok r))
        × (r.approaches + length db'.approaches ≡ length db.approaches)
        × (r.etl_events + length db'.etl_events ≡ length db.etl_events)
        × (min config.etl_events_keep_min (length db.etl_events) ≤ length db'.etl_events)
        × (filter
              (λ e. not (ltb e.started_at (now - config.etl_event_retention_days * 86400)))
              db'.etl_events
            ≡ filter
                (λ e. not (ltb e.started_at (now - config.etl_event_retention_days * 86400)))
                db.etl_events)
        × All (IsOutlived config.etl_events_keep_min db'.etl_events) db.etl_events
        × (All (HasApproach db.approaches) alerts → All (HasApproach db'.approaches) alerts')
  unfolding prune count_prunable approach_cutoff etl_event_cutoff
  prune_lem today now config db alerts enough_days enough_time =
      let approach_day = today - config.approach_retention_years * 365 in
      let event_time = now - config.etl_event_retention_days * 86400 in
      let stale = is_stale approach_day in
      let prunable =
        is_prunable tie event_time (kept_ids tie config.etl_events_keep_min db.etl_events) in
      let days : ltb today (config.approach_retention_years * 365) ≡ false = ground arith in
      let time : ltb now (config.etl_event_retention_days * 86400) ≡ false = ground arith in
      (
        record db {
          approaches = filter (λ r. not (stale r)) db.approaches;
          etl_events = filter (λ e. not (prunable e)) db.etl_events;
        },
        cascade (filter stale db.approaches) alerts,
        record {
          approaches = length (filter stale db.approaches);
          etl_events = length (filter prunable db.etl_events);
        },
        rw (prune, days, time) refl,
        rw (count_prunable, days, time) refl,
        length-filter-not stale db.approaches,
        length-filter-not prunable db.etl_events,
        kept_enough event_time config.etl_events_keep_min db.etl_events,
        filter-filter-not prunable (λ e. not (ltb e.started_at event_time)) db.etl_events
            (λ e h. ground arith),
        left-IsOutlived tie event_time config.etl_events_keep_min db.etl_events,
        cascade-HasApproach stale db.approaches alerts,
      )
