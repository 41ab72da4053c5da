-- ===== src/Cache.antt =====
-- The cache before the queries, src/database/cache.rs.
--
-- The stores are those of the crate moka, a parameter with the behaviour that it documents. A
-- request reads the database as it is when the request is answered, at the time `now`. The counts
-- of hits are left out.
pub mod Staleness
pub mod Stores
pub mod Wrappers
use rustroid_sentinel.Prelude.{
  ℕ, ◌+◌, ◌≤◌, ◌<◌, ◌≡◌, ◌⊎◌, String, ◌<>◌, Bool, true, false, not, Option, none, some, List,
  if◌then◌else◌, Result, ok, err,
}
use rustroid_sentinel.Float.{F64}
use rustroid_sentinel.Models.{NaiveDate, DateTime, I64, Asteroid}
use rustroid_sentinel.Catalog.{CatalogRow}
use rustroid_sentinel.Database.{Db, EtlEvent, SqlError}
use rustroid_sentinel.Database.Dashboard.{
  DashboardStats, ApproachQueryParams, ApproachRecord, VelocityDataPoint, TimePeriod, last7_days,
  last30_days, last90_days, last_year, get_stats, get_recent_approaches, get_velocity_data,
  get_velocity_data_by_period, get_velocity_data_with_filter, get_recent_etl_runs,
  get_paginated_etl_runs,
}

-- A store whose entries live for a time. What `lookup` finds, no clock can make older than that.
pub record Moka : Type 1 where
  pub Cache : Type 0 → Type 0 → Type 0
  pub time_to_live : {K V : Type 0} → Cache K V → ℕ
  pub lookup : {K V : Type 0} → Cache K V → DateTime → K → Option V
  pub try_get_with :
      {K V : Type 0} → Cache K V → DateTime → K → Result SqlError V → Cache K V × Result SqlError V
  pub invalidate_all : {K V : Type 0} → Cache K V → Cache K V

abbrev pub DateRangeKey : Type 0
DateRangeKey = Option NaiveDate × Option NaiveDate

-- `{period:?}`
abbrev pub debug_period : TimePeriod → String
debug_period last7_days = "Last7Days"
debug_period last30_days = "Last30Days"
debug_period last90_days = "Last90Days"
debug_period last_year = "LastYear"

module _ (moka : Moka) where
  open moka use {Cache, try_get_with, invalidate_all}

  -- What each wrapper does with its store, its key and its query.
  unfoldable pub cached :
      {K V : Type 0}
      → Bool
      → Cache K V
      → DateTime
      → K
      → Result SqlError V
      → Cache K V × Result SqlError V
  cached enabled cache now key query =
      if not enabled then (cache, query) else try_get_with cache now key query

-- `Detail` and `Report` are the records of two queries that are not modelled.
module _ (moka : Moka) (Detail Report : Type 0) where
  open moka use {Cache, try_get_with, invalidate_all}

  pub record DashboardCache : Type 0 where
    pub enabled : Bool
    pub stats : Cache Unit DashboardStats
    pub recent_approaches : Cache Unit (List ApproachRecord)
    pub velocity_default : Cache Unit (List VelocityDataPoint)
    pub velocity_by_period : Cache String (List VelocityDataPoint)
    pub velocity_by_range : Cache DateRangeKey (List VelocityDataPoint)
    pub paginated_approaches : Cache String (List ApproachRecord × ℕ)
    pub recent_etl_runs : Cache Unit (List EtlEvent)
    pub paginated_etl_runs : Cache (ℕ × ℕ) (List EtlEvent × ℕ)
    pub catalog_list : Cache String (List CatalogRow × Bool)
    pub catalog_detail : Cache String (Option Detail)
    pub catalog_similar : Cache (String × I64) (Option (List CatalogRow))
    pub catalog_classifications : Cache Unit (List String × List String)
    pub weekly_report : Cache NaiveDate Report

  -- The store of each query is asked under the key that its arguments make.
  unfoldable pub cached_stats :
      DashboardCache
      → DateTime
      → Bool
      → Bool
      → Bool
      → Db
      → DashboardCache × Result SqlError DashboardStats
  unfolding cached
  cached_stats s now down1 down2 down3 db =
      let (store, result) = cached moka s.enabled s.stats now tt (get_stats down1 down2 down3 db) in
      (record s { stats = store }, result)

  unfoldable pub cached_velocity_data :
      DashboardCache
      → DateTime
      → Bool
      → Db
      → DashboardCache × Result SqlError (List VelocityDataPoint)
  unfolding cached
  cached_velocity_data s now down db =
      let (store, result) =
        cached moka s.enabled s.velocity_default now tt (get_velocity_data down db) in
      (record s { velocity_default = store }, result)

  unfoldable pub cached_velocity_data_by_period :
      DashboardCache
      → DateTime
      → (DateTime → String → DateTime)
      → Bool
      → TimePeriod
      → Db
      → DashboardCache × Result SqlError (List VelocityDataPoint)
  unfolding cached
  cached_velocity_data_by_period s now minus down period db =
      let (store, result) =
        cached moka s.enabled s.velocity_by_period now (debug_period period)
          (get_velocity_data_by_period minus now down period db) in
      (record s { velocity_by_period = store }, result)

  unfoldable pub cached_velocity_data_with_filter :
      DashboardCache
      → DateTime
      → Bool
      → Option NaiveDate
      → Option NaiveDate
      → Db
      → DashboardCache × Result SqlError (List VelocityDataPoint)
  unfolding cached
  cached_velocity_data_with_filter s now down start_date end_date db =
      let (store, result) =
        cached moka s.enabled s.velocity_by_range now (start_date, end_date)
          (get_velocity_data_with_filter down start_date end_date db) in
      (record s { velocity_by_range = store }, result)

  unfoldable pub cached_recent_etl_runs :
      DashboardCache → DateTime → Bool → Db → DashboardCache × Result SqlError (List EtlEvent)
  unfolding cached
  cached_recent_etl_runs s now down db =
      let (store, result) =
        cached moka s.enabled s.recent_etl_runs now tt (get_recent_etl_runs down db) in
      (record s { recent_etl_runs = store }, result)

  unfoldable pub cached_paginated_etl_runs :
      DashboardCache
      → DateTime
      → Bool
      → Bool
      → ℕ
      → ℕ
      → Db
      → DashboardCache × Result SqlError (List EtlEvent × ℕ)
  unfolding cached
  cached_paginated_etl_runs s now count_down data_down page page_size db =
      let (store, result) =
        cached moka s.enabled s.paginated_etl_runs now (page, page_size)
          (get_paginated_etl_runs count_down data_down page page_size db) in
      (record s { paginated_etl_runs = store }, result)

  unfoldable pub cached_recent_approaches :
      DashboardCache
      → DateTime
      → (Asteroid → F64)
      → Bool
      → Db
      → DashboardCache × Result SqlError (List ApproachRecord)
  unfolding cached
  cached_recent_approaches s now avg_km down db =
      let (store, result) =
        cached moka s.enabled s.recent_approaches now tt (get_recent_approaches avg_km down db) in
      (record s { recent_approaches = store }, result)

  abbrev pub invalidate_stores : DashboardCache → DashboardCache
  invalidate_stores s = record s {
    stats = invalidate_all s.stats;
    recent_approaches = invalidate_all s.recent_approaches;
    velocity_default = invalidate_all s.velocity_default;
    velocity_by_period = invalidate_all s.velocity_by_period;
    velocity_by_range = invalidate_all s.velocity_by_range;
    paginated_approaches = invalidate_all s.paginated_approaches;
    recent_etl_runs = invalidate_all s.recent_etl_runs;
    paginated_etl_runs = invalidate_all s.paginated_etl_runs;
    catalog_list = invalidate_all s.catalog_list;
    catalog_detail = invalidate_all s.catalog_detail;
    catalog_similar = invalidate_all s.catalog_similar;
    catalog_classifications = invalidate_all s.catalog_classifications;
    weekly_report = invalidate_all s.weekly_report;
  }
