-- ===== src/Dashboard.antt =====
-- The handlers of the dashboard: src/api/handlers/approaches.rs, etl_runs.rs, stats.rs, velocity.rs
-- and dashboard.rs beside them.
--
-- A request reads the database as it is then; the cache before it is in Cache. The printed parts of
-- a page are left out. A quotient of two `f64` that stand for numbers below 2^53 and its `ceil` are
-- exact, so that `total_pages` is a quotient of natural numbers rounded up; a division by 0 gives
-- NaN or infinity, which the cast to `u32` makes 0 or the largest number.
pub mod Pages
pub mod Table
use rustroid_sentinel.Prelude.{
  ℕ, zero, suc, ◌+◌, ◌-◌, ◌*◌, ◌/◌, ◌%◌, ◌^◌, min, max, String, ◌<>◌, Bool, true, false, not,
  Option, none, some, List, [], ◌∷◌, ◌++◌, ltb, leb, ◌==◌, ◌&&◌, if◌then◌else◌, str_eq, Result, ok,
  err, Outcome, returned, panicked, running,
}
use rustroid_sentinel.Float.{F64}
use rustroid_sentinel.Models.{NaiveDate, DateTime, Asteroid}
use rustroid_sentinel.Database.{Db, EtlEvent, SqlError}
use rustroid_sentinel.Catalog.Pages.{non_empty}
use rustroid_sentinel.Database.Dashboard.{
  JoinedRow, ApproachRecord, ApproachQueryParams, VelocityDataPoint, TimePeriod, last7_days,
  get_paginated_approaches, get_paginated_etl_runs, get_recent_etl_runs,
  get_velocity_data_by_period, get_velocity_data_with_filter,
}

-- `ApiResponse`: with data, or with the message of an error.
pub data ApiResponse (A : Type 0) : Type 0 where
  success : A → ApiResponse A
  error_message : SqlError → ApiResponse A

unfoldable pub ceil_pages : ℕ → ℕ → ℕ
ceil_pages total zero = if total == 0 then 0 else 2 ^ 32 - 1
ceil_pages total (suc size) = min ((total + size) / suc size) (2 ^ 32 - 1)

pub record ApproachesQuery : Type 0 where
  pub page : ℕ
  pub page_size : ℕ
  pub start_date : Option NaiveDate
  pub end_date : Option NaiveDate
  pub hazard_class : Option String
  pub sentry_only : Option Bool

pub record PaginationInfo : Type 0 where
  pub page : ℕ
  pub page_size : ℕ
  pub total_items : ℕ
  pub total_pages : ℕ

pub record PaginatedResponse : Type 0 where
  pub data_items : List ApproachRecord
  pub pagination : PaginationInfo

abbrev pub unwrap_or {ℓ} : {A : Type ℓ} → Option A → A → A
unwrap_or none a = a
unwrap_or (some b) a = b

abbrev pub approaches_params : ApproachesQuery → ApproachQueryParams
approaches_params q = record {
  page = q.page;
  page_size = q.page_size;
  start_date = q.start_date;
  end_date = q.end_date;
  hazard_class = q.hazard_class;
  sort_by = none;
  sort_dir = none;
  sentry_only = unwrap_or q.sentry_only false;
}

pub record EtlRunsPage : Type 0 where
  pub etl_runs : List EtlEvent
  pub current_page : ℕ
  pub total_pages : ℕ
  pub page_size : ℕ

-- An empty table, like one that cannot be read, has one page.
abbrev pub table_pages : ℕ → ℕ → ℕ
table_pages total size = if ltb 0 total then ceil_pages total size else 1

unfoldable pub etl_runs : Bool → Db → ApiResponse (List EtlEvent)
unfolding get_recent_etl_runs
etl_runs down db = elim (get_recent_etl_runs down db) [
  | err e ↦ error_message e
  | ok runs ↦ success runs
]

unfoldable pub dashboard_etl_runs : Bool → Bool → ℕ → ℕ → Db → EtlRunsPage
unfolding get_paginated_etl_runs ceil_pages
dashboard_etl_runs count_down data_down page asked db =
    let page_size = min asked 20 in
    elim (get_paginated_etl_runs count_down data_down page page_size db) [
      | err e ↦ record {
        etl_runs = [];
        current_page = page;
        total_pages = 1;
        page_size = page_size;
      }
      | ok (runs, total) ↦ record {
        etl_runs = runs;
        current_page = page;
        total_pages = table_pages total page_size;
        page_size = page_size;
      }
    ]

pub record VelocityQuery : Type 0 where
  pub period : Option TimePeriod
  pub start_date : Option NaiveDate
  pub end_date : Option NaiveDate

abbrev pub api_response : {A : Type 0} → Result SqlError A → ApiResponse A
api_response (ok a) = success a
api_response (err e) = error_message e

unfoldable pub velocity :
    (DateTime → String → DateTime)
    → DateTime
    → Bool
    → VelocityQuery
    → Db
    → ApiResponse (List VelocityDataPoint)
unfolding get_velocity_data_by_period get_velocity_data_with_filter
velocity minus now down q db = elim q.period [
  | some period ↦ api_response (get_velocity_data_by_period minus now down period db)
  | none ↦ elim q.start_date [
    | some start ↦ api_response (get_velocity_data_with_filter down (some start) q.end_date db)
    | none ↦ elim q.end_date [
      | some end ↦ api_response (get_velocity_data_with_filter down none (some end) db)
      | none ↦ api_response (get_velocity_data_by_period minus now down last7_days db)
    ]
  ]
]

-- `(start..=end).collect()`
abbrev pub count_from : ℕ → ℕ → List ℕ
count_from zero start = []
count_from (suc n) start = start ∷ count_from n (suc start)

unfoldable pub calculate_page_range : ℕ → ℕ → List ℕ
calculate_page_range current total =
    let start = max (current - 2) 1 in
    let last = min ((current + 2) % 2 ^ 32) total in count_from (suc last - start) start

pub record DashboardFilters : Type 0 where
  pub page : Option ℕ
  pub hazard_class : Option String
  pub start_date : Option NaiveDate
  pub end_date : Option NaiveDate
  pub sort_by : Option String
  pub sort_dir : Option String
  pub sentry_only : Option Bool

pub data TableError : Type 0 where
  bad_request internal_server_error : TableError

pub record ApproachesTable : Type 0 where
  pub approaches : List ApproachRecord
  pub showing_start : ℕ
  pub showing_end : ℕ
  pub total_items : ℕ
  pub current_page : ℕ
  pub total_pages : ℕ
  pub page_size : ℕ
  pub page_range : List ℕ
  pub is_first_page : Bool
  pub is_last_page : Bool

abbrev pub table_page_size : ℕ
table_page_size = 20

abbrev pub table_params : DashboardFilters → ApproachQueryParams
table_params f = record {
  page = unwrap_or f.page 1;
  page_size = table_page_size;
  start_date = f.start_date;
  end_date = f.end_date;
  hazard_class = non_empty f.hazard_class;
  sort_by = non_empty f.sort_by;
  sort_dir = non_empty f.sort_dir;
  sentry_only = unwrap_or f.sentry_only false;
}

-- The range is refused if it ends before it starts.
abbrev pub is_reversed : Option NaiveDate → Option NaiveDate → Bool
is_reversed (some start) (some end) = ltb end start
is_reversed (some start) none = false
is_reversed none end = false

unfoldable pub table_of : ℕ → List ApproachRecord → ℕ → ApproachesTable
unfolding calculate_page_range ceil_pages
table_of page records total =
    let total_pages = table_pages total table_page_size in
    record {
      approaches = records;
      showing_start =
          if total == 0 then 0 else ((page + (2 ^ 32 - 1)) % 2 ^ 32 * table_page_size + 1) % 2 ^ 32;
      showing_end = min (page * table_page_size % 2 ^ 32) total;
      total_items = total % 2 ^ 32;
      current_page = page;
      total_pages = total_pages;
      page_size = table_page_size;
      page_range = calculate_page_range page total_pages;
      is_first_page = page == 1;
      is_last_page = page == total_pages;
    }

module _ (text_lt : String → String → Bool) (tie : JoinedRow → JoinedRow → Bool)
    (avg_km : Asteroid → F64) (last_day : NaiveDate) (count_down data_down : Bool) where
  unfoldable pub approaches : ApproachesQuery → Db → Outcome (ApiResponse PaginatedResponse)
  unfolding get_paginated_approaches ceil_pages
  approaches q db =
      elim (get_paginated_approaches text_lt tie avg_km last_day count_down data_down
        (approaches_params q) db) [
          | panicked ↦ panicked
          | running ↦ running
          | returned (err e) ↦ returned (error_message e)
          | returned (ok (records, total)) ↦ returned (
              success (record {
                data_items = records;
                pagination = record {
                  page = q.page;
                  page_size = q.page_size;
                  total_items = total;
                  total_pages = ceil_pages total q.page_size;
                };
              }))
        ]

  unfoldable pub dashboard_table :
      DashboardFilters → Db → Outcome (Result TableError ApproachesTable)
  unfolding get_paginated_approaches table_of
  dashboard_table f db =
      if is_reversed f.start_date f.end_date
      then returned (err bad_request)
      else elim (get_paginated_approaches text_lt tie avg_km last_day count_down data_down
          (table_params f) db) [
            | panicked ↦ panicked
            | running ↦ running
            | returned (err e) ↦ returned (err internal_server_error)
            | returned (ok (records, total)) ↦
                returned (ok (table_of (unwrap_or f.page 1) records total))
          ]
