-- ===== src/Alert.antt =====
-- The alerts of src/alert/service.rs.
--
-- A row is an approach joined with its asteroid. `before` is the order in which the server lists
-- two rows by date, ties included. The client's calls are inputs: `sends` says which messages go
-- out without an error, `records` which rows are then written. The tasks run in the rows' order.
pub mod Once
use rustroid_sentinel.Prelude.{
  ℕ, String, Bool, true, false, not, ◌&&◌, ◌||◌, List, [], ◌∷◌, leb, ◌==◌, str_eq, if◌then◌else◌,
  any, filter, map, take,
}
use rustroid_sentinel.Float.{F64}
use rustroid_sentinel.Models.{Uuid, NaiveDate}

pub record AlertCandidate : Type 0 where
  pub approach_id : Uuid
  pub asteroid_name : String
  pub close_approach_date : NaiveDate
  pub miss_distance_km : F64
  pub velocity_km_per_h : F64
  pub hazard_classification : String
  pub is_potentially_hazardous : Bool

pub record AlertRow : Type 0 where
  pub approach_id : Uuid
  pub alert_type : String

abbrev pub is_alert_of : Uuid → AlertRow → Bool
is_alert_of i al = (al.approach_id == i) && str_eq al.alert_type "discord"

-- The `WHERE` clause over the `LEFT JOIN` with `alerts`.
unfoldable pub is_unalerted : NaiveDate → List AlertRow → AlertCandidate → Bool
is_unalerted today alerts r =
    (r.is_potentially_hazardous
      || str_eq r.hazard_classification "Hazardous"
      || str_eq r.hazard_classification "High"
      || str_eq r.hazard_classification "Critical")
    && not (any (is_alert_of r.approach_id) alerts)
    && leb today r.close_approach_date

module _ (before : AlertCandidate → AlertCandidate → Bool) where
  unfoldable pub insert_by_date : AlertCandidate → List AlertCandidate → List AlertCandidate
  insert_by_date r [] = r ∷ []
  insert_by_date r (s ∷ rows) =
      let rest = insert_by_date r rows in if before r s then r ∷ s ∷ rows else s ∷ rest

  unfoldable pub by_date : List AlertCandidate → List AlertCandidate
  unfolding insert_by_date
  by_date [] = []
  by_date (r ∷ rows) = insert_by_date r (by_date rows)

  -- `ORDER BY close_approach_date ASC LIMIT $1`
  unfoldable pub unalerted :
      ℕ → NaiveDate → List AlertRow → List AlertCandidate → List AlertCandidate
  unfolding is_unalerted by_date
  unalerted limit today alerts approaches =
      take limit (by_date (filter (is_unalerted today alerts) approaches))

-- The table is unique by approach and type.
unfoldable pub record_alert : Bool → Uuid → List AlertRow → List AlertRow
record_alert written i alerts =
    if written && not (any (is_alert_of i) alerts)
    then record { approach_id = i; alert_type = "discord" } ∷ alerts
    else alerts

-- The tasks: a message that fails is logged, and so is a row that is not written.
unfoldable pub send_all :
    (Uuid → Bool) → (Uuid → Bool) → List AlertRow → List AlertCandidate → List AlertRow
unfolding record_alert
send_all sends records alerts [] = alerts
send_all sends records alerts (r ∷ rows) =
    let next =
      if sends r.approach_id
      then record_alert (records r.approach_id) r.approach_id alerts
      else alerts in
    send_all sends records next rows

-- The alerts after a run.
unfoldable pub check_and_send_alerts :
    (AlertCandidate → AlertCandidate → Bool)
    → (Uuid → Bool)
    → (Uuid → Bool)
    → ℕ
    → NaiveDate
    → List AlertCandidate
    → List AlertRow
    → List AlertRow
unfolding unalerted send_all
check_and_send_alerts before sends records batch_size today approaches alerts =
    send_all sends records alerts (unalerted before batch_size today alerts approaches)
