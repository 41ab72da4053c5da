-- ===== src/Database/Dashboard.antt =====
-- The queries of src/database/dashboard.rs.
--
-- The collation `text_lt`, the generated column of the diameter `avg_km` and the last day that a
-- date can be are parameters. A query that fails is an input. Among rows that the `ORDER BY` leaves
-- together any order is PostgreSQL's, and may differ from query to query: the paged query of
-- approaches takes it as an input, and the others have that of an insertion sort. The arithmetic of
-- 32 bits wraps around, as in a release build.
pub mod Pages
use rustroid_sentinel.Prelude.{
  ℕ, ◌+◌, ◌-◌, ◌*◌, ◌%◌, ◌^◌, String, Bool, true, false, Option, none, some, List, [], ◌∷◌, ◌++◌,
  ltb, leb, ◌==◌, ◌&&◌, ◌||◌, if◌then◌else◌, str_eq, length, take, drop, filter, map, Result, ok,
  err, Outcome, returned, panicked, running,
}
use rustroid_sentinel.Float.{F64}
use rustroid_sentinel.Models.{Uuid, NaiveDate, DateTime, I64, EtlStatus, Asteroid}
use rustroid_sentinel.Database.{Db, ApproachRow, EtlEvent, SqlError, connection_failure}
use rustroid_sentinel.Catalog.{float8_lt, when, not_null, order_rows}

pub record DashboardStats : Type 0 where
  pub total_asteroids : ℕ
  pub total_approaches : ℕ
  pub hazardous_count : ℕ

pub record ApproachQueryParams : Type 0 where
  pub page : ℕ
  pub page_size : ℕ
  pub start_date : Option NaiveDate
  pub end_date : Option NaiveDate
  pub hazard_class : Option String
  pub sort_by : Option String
  pub sort_dir : Option String
  pub sentry_only : Bool

pub record ApproachRecord : Type 0 where
  pub id : Uuid
  pub asteroid_name : String
  pub neo_reference_id : String
  pub close_approach_date : NaiveDate
  pub velocity_km_per_h : F64
  pub miss_distance_km : F64
  pub hazard_classification : String
  pub is_potentially_hazardous : Bool
  pub estimated_diameter_avg_km : F64
  pub torino_scale : Option I64
  pub palermo_scale : Option F64

pub record VelocityDataPoint : Type 0 where
  pub date : NaiveDate
  pub asteroid_name : String
  pub velocity_km_per_h : F64

-- The answer of a query that may fail.
abbrev pub answer {ℓ} : {A : Type ℓ} → Bool → A → Result SqlError A
answer down a = if down then err connection_failure else ok a

unfoldable pub get_asteroid_count : Bool → Db → Result SqlError ℕ
get_asteroid_count down db = answer down (length db.asteroids)

unfoldable pub get_approach_count : Bool → Db → Result SqlError ℕ
get_approach_count down db = answer down (length db.approaches)

unfoldable pub get_hazardous_asteroid_count : Bool → Db → Result SqlError ℕ
get_hazardous_asteroid_count down db =
    answer down (length (filter (λ (a : Asteroid). a.is_potentially_hazardous) db.asteroids))

-- The three queries, each of which may fail.
unfoldable pub get_stats : Bool → Bool → Bool → Db → Result SqlError DashboardStats
unfolding get_asteroid_count get_approach_count get_hazardous_asteroid_count
get_stats down1 down2 down3 db = elim (get_asteroid_count down1 db) [
  | err e ↦ err e
  | ok total_asteroids ↦ elim (get_approach_count down2 db) [
    | err e ↦ err e
    | ok total_approaches ↦ elim (get_hazardous_asteroid_count down3 db) [
      | err e ↦ err e
      | ok hazardous_count ↦ ok (record {
        total_asteroids = total_asteroids;
        total_approaches = total_approaches;
        hazardous_count = hazardous_count;
      })
    ]
  ]
]

-- A row of `approaches a JOIN asteroids ast ON a.asteroid_id = ast.id`.
pub record JoinedRow : Type 0 where
  pub approach : ApproachRow
  pub asteroid : Asteroid

abbrev pub join_one : ApproachRow → List Asteroid → List JoinedRow
join_one a [] = []
join_one a (ast ∷ rows) =
    let rest = join_one a rows in
    if a.asteroid_id == ast.id then record { approach = a; asteroid = ast } ∷ rest else rest

unfoldable pub join_asteroids : List Asteroid → List ApproachRow → List JoinedRow
join_asteroids asteroids [] = []
join_asteroids asteroids (a ∷ rows) = join_one a asteroids ++ join_asteroids asteroids rows

-- `LIMIT $1 OFFSET $2`
abbrev pub page_of {ℓ} : {A : Type ℓ} → ℕ → ℕ → List A → List A
page_of limit offset rows = take limit (drop offset rows)

-- `((page - 1) * page_size) as i64` in 32 bits
abbrev pub page_offset : ℕ → ℕ → ℕ
page_offset page page_size = (page + (2 ^ 32 - 1)) % 2 ^ 32 * page_size % 2 ^ 32

abbrev pub date_desc : JoinedRow → JoinedRow → Bool
date_desc r s = ltb s.approach.close_approach_date r.approach.close_approach_date

abbrev pub date_asc : JoinedRow → JoinedRow → Bool
date_asc r s = ltb r.approach.close_approach_date s.approach.close_approach_date

-- Ordered by the first test, and where it does not tell, by the second.
abbrev pub then_by {ℓ} : {A : Type ℓ} → (A → A → Bool) → (A → A → Bool) → A → A → Bool
then_by first second r s = if first r s then true else (if first s r then false else second r s)

abbrev pub distance_asc : JoinedRow → JoinedRow → Bool
distance_asc r s = float8_lt r.approach.miss_distance_km s.approach.miss_distance_km

abbrev pub created_desc : JoinedRow → JoinedRow → Bool
created_desc r s = ltb s.approach.created_at r.approach.created_at

abbrev pub velocity_point : JoinedRow → VelocityDataPoint
velocity_point r = record {
  date = r.approach.close_approach_date;
  asteroid_name = r.asteroid.name;
  velocity_km_per_h = r.approach.velocity_km_per_h;
}

unfoldable pub get_velocity_data : Bool → Db → Result SqlError (List VelocityDataPoint)
unfolding join_asteroids
get_velocity_data down db = answer down (
    map velocity_point
      (take 100 (order_rows date_desc (join_asteroids db.asteroids db.approaches))))

unfoldable pub get_velocity_data_with_filter :
    Bool → Option NaiveDate → Option NaiveDate → Db → Result SqlError (List VelocityDataPoint)
unfolding join_asteroids
get_velocity_data_with_filter down start_date end_date db = answer down (
    map velocity_point (
      order_rows date_asc (
        filter
          (λ (r : JoinedRow).
            when start_date (λ start. leb start r.approach.close_approach_date)
            && when end_date (λ end. leb r.approach.close_approach_date end))
          (join_asteroids db.asteroids db.approaches))))

pub data TimePeriod : Type 0 where
  last7_days last30_days last90_days last_year : TimePeriod

unfoldable pub as_sql_interval : TimePeriod → String
as_sql_interval last7_days = "7 days"
as_sql_interval last30_days = "30 days"
as_sql_interval last90_days = "90 days"
as_sql_interval last_year = "1 year"

-- `minus` is the server's subtraction of an interval from a point in time, in seconds, and a date
-- is compared as its midnight.
unfoldable pub get_velocity_data_by_period :
    (DateTime → String → DateTime)
    → DateTime
    → Bool
    → TimePeriod
    → Db
    → Result SqlError (List VelocityDataPoint)
unfolding join_asteroids as_sql_interval
get_velocity_data_by_period minus now down period db = answer down (
    map velocity_point (
      order_rows date_asc (
        filter
          (λ (r : JoinedRow).
            leb (minus now (as_sql_interval period)) (r.approach.close_approach_date * 86400))
          (join_asteroids db.asteroids db.approaches))))

-- The CASE expression of `sort_by=hazard`.
unfoldable pub hazard_rank : String → ℕ
hazard_rank c =
    if str_eq c "Critical"
    then 4
    else (if str_eq c "High" then 3 else (if str_eq c "Medium" then 2 else 1))

abbrev pub is_text : Option String → String → Bool
is_text none t = false
is_text (some s) t = str_eq s t

-- The rows that the WHERE clause keeps, where `end` is the day after the last.
unfoldable pub selects : ApproachQueryParams → Option NaiveDate → JoinedRow → Bool
selects p end r =
    when p.start_date (λ start. leb start r.approach.close_approach_date)
    && when end (λ next. ltb r.approach.close_approach_date next)
    && when p.hazard_class (λ hazard. str_eq r.approach.hazard_classification hazard)
    && (if p.sentry_only
        then not_null r.asteroid.torino_scale (λ _. true)
          && not_null r.asteroid.palermo_scale (λ _. true)
        else true)

-- The rows of a query before it is cut into pages.
unfoldable pub selected_rows : ApproachQueryParams → Option NaiveDate → Db → List JoinedRow
unfolding selects join_asteroids
selected_rows p end db = filter (selects p end) (join_asteroids db.asteroids db.approaches)

-- The day after the end of the range panics if there is none.
unfoldable pub range_end : NaiveDate → Option NaiveDate → Outcome (Option NaiveDate)
range_end last_day none = returned none
range_end last_day (some d) = if d == last_day then panicked else returned (some (d + 1))

module _ (avg_km : Asteroid → F64) where
  unfoldable pub approach_record : JoinedRow → ApproachRecord
  approach_record r = record {
    id = r.approach.id;
    asteroid_name = r.asteroid.name;
    neo_reference_id = r.asteroid.neo_reference_id;
    close_approach_date = r.approach.close_approach_date;
    velocity_km_per_h = r.approach.velocity_km_per_h;
    miss_distance_km = r.approach.miss_distance_km;
    hazard_classification = r.approach.hazard_classification;
    is_potentially_hazardous = r.asteroid.is_potentially_hazardous;
    estimated_diameter_avg_km = avg_km r.asteroid;
    torino_scale = r.asteroid.torino_scale;
    palermo_scale = r.asteroid.palermo_scale;
  }

  unfoldable pub get_recent_approaches : Bool → Db → Result SqlError (List ApproachRecord)
  unfolding join_asteroids approach_record
  get_recent_approaches down db = answer down (
      map approach_record (
        take 50 (
          order_rows (then_by date_desc created_desc) (join_asteroids db.asteroids db.approaches))))

module _ (text_lt : String → String → Bool) where
  -- The order of `sort_col`, ascending.
  unfoldable pub sort_col : Option String → JoinedRow → JoinedRow → Bool
  unfolding hazard_rank
  sort_col sort_by r s =
      if is_text sort_by "velocity"
      then float8_lt r.approach.velocity_km_per_h s.approach.velocity_km_per_h
      else (if is_text sort_by "distance"
          then float8_lt r.approach.miss_distance_km s.approach.miss_distance_km
          else (if is_text sort_by "name"
              then text_lt r.asteroid.name s.asteroid.name
              else (if is_text sort_by "hazard"
                  then ltb (hazard_rank r.approach.hazard_classification)
                      (hazard_rank s.approach.hazard_classification)
                  else date_asc r s)))

  -- The whole ORDER BY: ascending for "asc" only.
  unfoldable pub approach_before : ApproachQueryParams → JoinedRow → JoinedRow → Bool
  unfolding sort_col
  approach_before p =
      then_by
        (λ r s. if is_text p.sort_dir "asc" then sort_col p.sort_by r s else sort_col p.sort_by s r)
        (then_by distance_asc created_desc)

-- `tie` is the order in which this query lists rows that its ORDER BY leaves together.
module _ (text_lt : String → String → Bool) (tie : JoinedRow → JoinedRow → Bool)
    (avg_km : Asteroid → F64) where
  unfoldable pub get_paginated_approaches :
      NaiveDate
      → Bool
      → Bool
      → ApproachQueryParams
      → Db
      → Outcome (Result SqlError (List ApproachRecord × ℕ))
  unfolding selected_rows approach_before approach_record range_end
  get_paginated_approaches last_day count_down data_down p db =
      elim (range_end last_day p.end_date) [
        | panicked ↦ panicked
        | running ↦ running
        | returned end ↦
            let rows = selected_rows p end db in
            returned (
              if count_down || data_down
              then err connection_failure
              else ok (
                map (approach_record avg_km) (
                    page_of p.page_size (page_offset p.page p.page_size)
                      (order_rows (then_by (approach_before text_lt p) tie) rows)),
                length rows,
              ))
      ]

abbrev pub started_desc : EtlEvent → EtlEvent → Bool
started_desc e f = ltb f.started_at e.started_at

unfoldable pub get_recent_etl_runs : Bool → Db → Result SqlError (List EtlEvent)
get_recent_etl_runs down db = answer down (take 20 (order_rows started_desc db.etl_events))

unfoldable pub get_paginated_etl_runs :
    Bool → Bool → ℕ → ℕ → Db → Result SqlError (List EtlEvent × ℕ)
get_paginated_etl_runs count_down data_down page page_size db =
    if count_down || data_down
    then err connection_failure
    else ok (
      page_of page_size (page_offset page page_size) (order_rows started_desc db.etl_events),
      length db.etl_events,
    )
