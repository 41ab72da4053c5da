-- ===== src/Sentry.antt =====
-- The Sentry checks of src/cli/sentry.rs, with `update_sentry_scales` of src/database/repository.rs.
--
-- The candidates are given chunk by chunk as the outcomes of their lookups, in the order in which
-- the tasks end. Flush `k` runs at `now k` and fails if `flush_down k`. The counters of 32 bits are
-- read as unbounded: there are fewer asteroids.
pub mod Updates
pub mod Flush
pub mod Command
use rustroid_sentinel.Prelude.{
  ℕ, ◌+◌, String, Bool, true, false, Option, none, some, List, [], ◌∷◌, ◌++◌, leb, ◌==◌,
  if◌then◌else◌, length, any, map, Result, ok, err,
}
use rustroid_sentinel.Float.{F64}
use rustroid_sentinel.Models.{Uuid, DateTime, I64, Asteroid}
use rustroid_sentinel.Database.{Db, SqlError, connection_failure}

-- One entry of the list of pending updates.
pub record Update : Type 0 where
  pub id : Uuid
  pub torino_scale : Option I64
  pub palermo_scale : Option F64

-- The outcome of a lookup: a summary, no summary, or an error of the client.
pub data Lookup : Type 0 where
  found : Option I64 → Option F64 → Lookup
  absent lookup_error : Lookup

-- What joining a task gives: its outcome, or that it panicked.
pub data Joined : Type 0 where
  outcome : Uuid → String → Lookup → Joined
  task_failed : Joined

pub data SentryError : Type 0 where
  join_error : SentryError
  update_failed : SqlError → SentryError

-- The entry for an id. PostgreSQL takes any one of several; here it is the last.
pub find_update : Uuid → List Update → Option Update
find_update i [] = none
find_update i (u ∷ updates) = elim (find_update i updates) [
  | some v ↦ some v
  | none ↦ if u.id == i then some u else none
]

abbrev pub set_scales : DateTime → Option Update → Asteroid → Asteroid
set_scales now none a = a
set_scales now (some u) a = record a {
  torino_scale = u.torino_scale;
  palermo_scale = u.palermo_scale;
  sentry_checked_at = some now;
}

abbrev pub update_rows : DateTime → List Update → List Asteroid → List Asteroid
update_rows now updates [] = []
update_rows now updates (a ∷ rows) =
    set_scales now (find_update a.id updates) a ∷ update_rows now updates rows

-- `rows_affected`
abbrev pub affected : List Update → List Asteroid → ℕ
affected updates [] = 0
affected updates (a ∷ rows) =
    (if any (λ (u : Update). u.id == a.id) updates then 1 else 0) + affected updates rows

unfoldable pub update_sentry_scales : Bool → DateTime → Db → List Update → Result SqlError (Db × ℕ)
update_sentry_scales down now db [] = ok (db, 0)
update_sentry_scales down now db (u ∷ updates) =
    if down
    then err connection_failure
    else ok (
      record db { asteroids = update_rows now (u ∷ updates) db.asteroids },
      affected (u ∷ updates) db.asteroids,
    )

-- The local variables of `run_sentry_checks`.
pub record Progress : Type 0 where
  pub matched : ℕ
  pub errored : ℕ
  pub updated : ℕ
  pub pending : List Update

pub record SentryCheckSummary : Type 0 where
  pub matched : ℕ
  pub errored : ℕ
  pub updated : ℕ

unfoldable pub apply_outcome : Uuid → String → Lookup → Progress → Progress
apply_outcome id neo_reference_id (found ts_max ps_cum) p = record p {
  matched = p.matched + 1;
  pending = p.pending ++ record { id = id; torino_scale = ts_max; palermo_scale = ps_cum } ∷ [];
}
apply_outcome id neo_reference_id absent p = record p {
  pending = p.pending ++ record { id = id; torino_scale = none; palermo_scale = none } ∷ [];
}
apply_outcome id neo_reference_id lookup_error p = record p { errored = p.errored + 1 }

-- The loop over one chunk's tasks.
unfoldable pub join_chunk : Progress → List Joined → Result SentryError Progress
unfolding apply_outcome
join_chunk p [] = ok p
join_chunk p (task_failed ∷ chunk) = err join_error
join_chunk p (outcome id neo_reference_id result ∷ chunk) =
    join_chunk (apply_outcome id neo_reference_id result p) chunk

abbrev pub update_flush_size : ℕ
update_flush_size = 200

module _ (now : ℕ → DateTime) (flush_down : ℕ → Bool) where
  -- `k` flushes are done.
  unfoldable pub run_chunks :
      ℕ → Db → Progress → List (List Joined) → Db × Result SentryError SentryCheckSummary
  unfolding join_chunk update_sentry_scales
  run_chunks k db p [] = elim (update_sentry_scales (flush_down k) (now k) db p.pending) [
    | err e ↦ (db, err (update_failed e))
    | ok (db', rows) ↦
        (db', ok (record { matched = p.matched; errored = p.errored; updated = p.updated + rows }))
  ]
  run_chunks k db p (chunk ∷ chunks) = elim (join_chunk p chunk) [
    | err e ↦ (db, err e)
    | ok p' ↦ elim (leb update_flush_size (length p'.pending)) [
      | false ↦ run_chunks k db p' chunks
      | true ↦ elim (update_sentry_scales (flush_down k) (now k) db p'.pending) [
        | err e ↦ (db, err (update_failed e))
        | ok (db', rows) ↦
            run_chunks (k + 1) db' (record p' { updated = p'.updated + rows; pending = [] }) chunks
      ]
    ]
  ]

  unfoldable pub run_sentry_checks :
      Db → List (List Joined) → Db × Result SentryError SentryCheckSummary
  unfolding run_chunks
  run_sentry_checks db chunks =
      run_chunks 0 db (record { matched = 0; errored = 0; updated = 0; pending = [] }) chunks
