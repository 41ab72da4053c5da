-- ===== src/Database/Events.antt =====
-- The statements of src/database/repository.rs on `etl_events`, keyed by `id` and by `source_file`.
--
-- `down` says that the request fails for a reason of the server.
use rustroid_sentinel.Prelude.{
  ℕ, ◌+◌, ◌-◌, ◌%◌, ◌^◌, String, Bool, ◌&&◌, none, some, ◌∷◌, ◌==◌, str_eq, if◌then◌else◌, ltb, any,
  map, Result, ok, err,
}
use rustroid_sentinel.Models.{Uuid, DateTime, I64, pos, negsuc, running, completed, failed, as_str}
use rustroid_sentinel.Database.{Db, EtlEvent, SqlError, unique_violation, connection_failure}

-- `as i32`
abbrev pub to_i32 : ℕ → I64
to_i32 n = let w = n % 2 ^ 32 in if ltb w (2 ^ 31) then pos w else negsuc (2 ^ 32 - (w + 1))

-- `source_file = $1 AND status = 'completed'`
abbrev pub is_completed : String → EtlEvent → Bool
is_completed source_file e =
    str_eq e.source_file source_file && str_eq (as_str e.status) "completed"

unfoldable pub is_file_processed : Bool → Db → String → Result SqlError Bool
is_file_processed down db source_file =
    if down then err connection_failure else ok (any (is_completed source_file) db.etl_events)

-- `ON CONFLICT (source_file) DO UPDATE`: the row keeps its id.
abbrev pub restart : DateTime → String → EtlEvent → EtlEvent
restart started_at source_file e =
    if str_eq e.source_file source_file
    then record e { started_at = started_at; status = running; error_message = none }
    else e

abbrev pub started_event : Uuid → String → DateTime → EtlEvent
started_event event_id source_file started_at = record {
  id = event_id;
  source_file = source_file;
  started_at = started_at;
  completed_at = none;
  status = running;
  asteroids_processed = pos 0;
  approaches_processed = pos 0;
  error_message = none;
}

unfoldable pub record_etl_event_start : Bool → Db → Uuid → String → DateTime → Result SqlError Db
record_etl_event_start down db event_id source_file started_at =
    if down
    then err connection_failure
    else if any (λ (e : EtlEvent). str_eq e.source_file source_file) db.etl_events
    then ok (record db { etl_events = map (restart started_at source_file) db.etl_events })
    else if any (λ (e : EtlEvent). e.id == event_id) db.etl_events
    then err unique_violation
    else ok
        (record db { etl_events = started_event event_id source_file started_at ∷ db.etl_events })

abbrev pub complete : Uuid → DateTime → ℕ → ℕ → EtlEvent → EtlEvent
complete event_id now asteroids_processed approaches_processed e =
    if e.id == event_id
    then record e {
      completed_at = some now;
      status = completed;
      asteroids_processed = to_i32 asteroids_processed;
      approaches_processed = to_i32 approaches_processed;
    }
    else e

unfoldable pub record_etl_event_complete : Bool → Db → Uuid → DateTime → ℕ → ℕ → Result SqlError Db
record_etl_event_complete down db event_id now asteroids_processed approaches_processed =
    if down
    then err connection_failure
    else ok (record db {
      etl_events =
          map (complete event_id now asteroids_processed approaches_processed) db.etl_events;
    })

abbrev pub fail : Uuid → DateTime → String → EtlEvent → EtlEvent
fail event_id now error_message e =
    if e.id == event_id
    then record e { completed_at = some now; status = failed; error_message = some error_message }
    else e

unfoldable pub record_etl_event_failed : Bool → Db → Uuid → DateTime → String → Result SqlError Db
record_etl_event_failed down db event_id now error_message =
    if down
    then err connection_failure
    else ok (record db { etl_events = map (fail event_id now error_message) db.etl_events })
