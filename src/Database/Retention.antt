-- ===== src/Database/Retention.antt =====
-- Retention: src/database/retention.rs, and the `prune` command of src/cli/prune.rs.
--
-- `tie` is the order in which the server lists two events that started at the same time.
pub mod Newest
pub mod Counts
use rustroid_sentinel.Prelude.{
  ℕ, ◌+◌, ◌-◌, ◌*◌, Bool, true, false, not, ◌&&◌, ◌||◌, List, [], ◌∷◌, ltb, ◌==◌, if◌then◌else◌,
  length, any, filter, map, take, Result, ok, err, Outcome, returned, panicked, running,
}
use rustroid_sentinel.Models.{Uuid, NaiveDate, DateTime}
use rustroid_sentinel.Alert.{AlertRow}
use rustroid_sentinel.Database.{Db, EtlEvent, ApproachRow, SqlError, connection_failure}

pub record RetentionConfig : Type 0 where
  pub approach_retention_years : ℕ
  pub etl_event_retention_days : ℕ
  pub etl_events_keep_min : ℕ

pub record PruneResult : Type 0 where
  pub approaches : ℕ
  pub etl_events : ℕ

-- The day before which approaches are stale: chrono panics before its first date.
unfoldable pub approach_cutoff : NaiveDate → RetentionConfig → Outcome NaiveDate
approach_cutoff today config =
    if ltb today (config.approach_retention_years * 365)
    then panicked
    else returned (today - config.approach_retention_years * 365)

-- A point in time is in seconds.
unfoldable pub etl_event_cutoff : DateTime → RetentionConfig → Outcome DateTime
etl_event_cutoff now config =
    if ltb now (config.etl_event_retention_days * 86400)
    then panicked
    else returned (now - config.etl_event_retention_days * 86400)

-- `close_approach_date < $1`
abbrev pub is_stale : NaiveDate → ApproachRow → Bool
is_stale cutoff r = ltb r.close_approach_date cutoff

module _ (before : EtlEvent → EtlEvent → Bool) where
  unfoldable pub insert_event : EtlEvent → List EtlEvent → List EtlEvent
  insert_event e [] = e ∷ []
  insert_event e (f ∷ events) =
      let rest = insert_event e events in if before e f then e ∷ f ∷ events else f ∷ rest

  unfoldable pub newest_first : List EtlEvent → List EtlEvent
  unfolding insert_event
  newest_first [] = []
  newest_first (e ∷ events) = insert_event e (newest_first events)

-- `ON DELETE CASCADE` of the table `alerts`.
abbrev pub cascade : List ApproachRow → List AlertRow → List AlertRow
cascade deleted alerts =
    filter (λ (al : AlertRow). not (any (λ (r : ApproachRow). r.id == al.approach_id) deleted))
      alerts

module _ (tie : EtlEvent → EtlEvent → Bool) where
  -- `ORDER BY started_at DESC`
  abbrev pub started_desc : EtlEvent → EtlEvent → Bool
  started_desc e f =
      if ltb f.started_at e.started_at
      then true
      else (if ltb e.started_at f.started_at then false else tie e f)

  -- `SELECT id FROM etl_events ORDER BY started_at DESC LIMIT $2`
  abbrev pub kept_ids : ℕ → List EtlEvent → List Uuid
  kept_ids keep events = map (λ (e : EtlEvent). e.id) (take keep (newest_first started_desc events))

  -- `started_at < $1 AND id NOT IN (…)`
  abbrev pub is_prunable : DateTime → List Uuid → EtlEvent → Bool
  is_prunable cutoff kept e = ltb e.started_at cutoff && not (any (λ i. i == e.id) kept)

  -- What both calls do, given the cutoffs and which of the two statements fail.
  abbrev pub count_at :
      Bool → Bool → NaiveDate → DateTime → RetentionConfig → Db → Result SqlError PruneResult
  count_at first_down second_down approach_day event_time config db =
      if first_down || second_down
      then err connection_failure
      else ok (record {
        approaches = length (filter (is_stale approach_day) db.approaches);
        etl_events = length (
            filter (is_prunable event_time (kept_ids config.etl_events_keep_min db.etl_events))
              db.etl_events);
      })

  abbrev pub prune_at :
      Bool
      → Bool
      → NaiveDate
      → DateTime
      → RetentionConfig
      → Db
      → List AlertRow
      → (Db × List AlertRow) × Result SqlError PruneResult
  prune_at first_down second_down approach_day event_time config db alerts =
      let stale = is_stale approach_day in
      let prunable = is_prunable event_time (kept_ids config.etl_events_keep_min db.etl_events) in
      let fewer = record db { approaches = filter (λ r. not (stale r)) db.approaches } in
      let left = cascade (filter stale db.approaches) alerts in
      if first_down
      then ((db, alerts), err connection_failure)
      else if second_down
      then ((fewer, left), err connection_failure)
      else (
        (record fewer { etl_events = filter (λ e. not (prunable e)) db.etl_events }, left),
        ok (record {
          approaches = length (filter stale db.approaches);
          etl_events = length (filter prunable db.etl_events);
        }),
      )

  unfoldable pub count_prunable :
      Bool
      → Bool
      → NaiveDate
      → DateTime
      → RetentionConfig
      → Db
      → Outcome (Result SqlError PruneResult)
  count_prunable first_down second_down today now config db = elim (approach_cutoff today config) [
    | returned approach_day ↦ elim (etl_event_cutoff now config) [
      | returned event_time ↦
          returned (count_at first_down second_down approach_day event_time config db)
      | panicked ↦ panicked
      | running ↦ running
    ]
    | panicked ↦ panicked
    | running ↦ running
  ]

  -- The two deletions are no transaction.
  unfoldable pub prune :
      Bool
      → Bool
      → NaiveDate
      → DateTime
      → RetentionConfig
      → Db
      → List AlertRow
      → Outcome ((Db × List AlertRow) × Result SqlError PruneResult)
  prune first_down second_down today now config db alerts = elim (approach_cutoff today config) [
    | returned approach_day ↦ elim (etl_event_cutoff now config) [
      | returned event_time ↦
          returned (prune_at first_down second_down approach_day event_time config db alerts)
      | panicked ↦ panicked
      | running ↦ running
    ]
    | panicked ↦ panicked
    | running ↦ running
  ]
