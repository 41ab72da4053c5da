-- ===== src/Cache/Wrappers.antt =====
-- The wrappers of src/database/cache.rs over their stores.
use rustroid_sentinel.Prelude.{ℕ, ◌≤◌, ◌≡◌, Option}
use rustroid_sentinel.Models.{NaiveDate, DateTime}
use rustroid_sentinel.Database.Dashboard.{TimePeriod}
use rustroid_sentinel.Cache.{
  Moka, DashboardCache, cached_stats, cached_recent_approaches, cached_velocity_data, debug_period,
  cached_velocity_data_by_period, cached_velocity_data_with_filter, cached_recent_etl_runs,
  cached_paginated_etl_runs, invalidate_stores,
}
use rustroid_sentinel.Cache.Staleness.{IsDocumented, IsRecent}
use rustroid_sentinel.Cache.Stores.{
  Surroundings, stats_at, recent_at, velocity_at, by_period_at, by_range_at, runs_at, runs_page_at,
  AllEmpty,
}

module _ (moka : Moka) (doc : IsDocumented moka) (Detail Report : Type 0) (e : Surroundings) where
  -- A cache and the last time at which it was used: built empty, asked through a wrapper in the course
  -- of time, or cleared.
  pub data Used : DashboardCache moka Detail Report → DateTime → Type 0 where
    built : {s : DashboardCache moka Detail Report} → AllEmpty moka doc Detail Report e s → Used s 0
    invalidated :
        {s : DashboardCache moka Detail Report} {last : DateTime}
        → Used s last
        → Used (invalidate_stores moka Detail Report s) last
    asked_stats :
        {s : DashboardCache moka Detail Report} {last : DateTime} (now : DateTime)
        → Used s last
        → last ≤ now
        → Used
            (cached_stats moka Detail Report s now
              (e.down now)
              (e.down now)
              (e.down now)
              (e.world now)).0
            now
    asked_recent :
        {s : DashboardCache moka Detail Report} {last : DateTime} (now : DateTime)
        → Used s last
        → last ≤ now
        → Used
            (cached_recent_approaches moka Detail Report s now e.avg_km
              (e.down now)
              (e.world now)).0
            now
    asked_velocity :
        {s : DashboardCache moka Detail Report} {last : DateTime} (now : DateTime)
        → Used s last
        → last ≤ now
        → Used (cached_velocity_data moka Detail Report s now (e.down now) (e.world now)).0 now
    asked_by_period :
        {s : DashboardCache moka Detail Report} {last : DateTime} (now : DateTime)
        (period : TimePeriod)
        → Used s last
        → last ≤ now
        → Used
            (cached_velocity_data_by_period moka Detail Report s now e.minus
              (e.down now)
              period
              (e.world now)).0
            now
    asked_by_range :
        {s : DashboardCache moka Detail Report} {last : DateTime} (now : DateTime)
        (start_date end_date : Option NaiveDate)
        → Used s last
        → last ≤ now
        → Used
            (cached_velocity_data_with_filter moka Detail Report s now
              (e.down now)
              start_date
              end_date
              (e.world now)).0
            now
    asked_runs :
        {s : DashboardCache moka Detail Report} {last : DateTime} (now : DateTime)
        → Used s last
        → last ≤ now
        → Used (cached_recent_etl_runs moka Detail Report s now (e.down now) (e.world now)).0 now
    asked_runs_page :
        {s : DashboardCache moka Detail Report} {last : DateTime} (now : DateTime)
        (page page_size : ℕ)
        → Used s last
        → last ≤ now
        → Used
            (cached_paginated_etl_runs moka Detail Report s now
              (e.down now)
              (e.down now)
              page
              page_size
              (e.world now)).0
            now

  -- Each wrapper answers with what its own query gives now for these arguments, or gave less than a
  -- time to live ago.
  abbrev pub AreRecent : DashboardCache moka Detail Report → DateTime → Type 0
  AreRecent s now =
      (IsRecent moka doc (stats_at e) (moka.time_to_live s.stats) now tt
        (cached_stats moka Detail Report s now (e.down now) (e.down now) (e.down now)
          (e.world now)).1)
      × (IsRecent moka doc (recent_at e) (moka.time_to_live s.recent_approaches) now tt
          (cached_recent_approaches moka Detail Report s now e.avg_km (e.down now) (e.world now)).1)
      × (IsRecent moka doc (velocity_at e) (moka.time_to_live s.velocity_default) now tt
          (cached_velocity_data moka Detail Report s now (e.down now) (e.world now)).1)
      × ((period : TimePeriod)
          → IsRecent moka doc (by_period_at e) (moka.time_to_live s.velocity_by_period) now
              (debug_period period)
              (cached_velocity_data_by_period moka Detail Report s now e.minus (e.down now) period
                (e.world now)).1)
      × ((start_date end_date : Option NaiveDate)
          → IsRecent moka doc (by_range_at e) (moka.time_to_live s.velocity_by_range) now
              (start_date, end_date)
              (cached_velocity_data_with_filter moka Detail Report s now (e.down now) start_date
                end_date (e.world now)).1)
      × (IsRecent moka doc (runs_at e) (moka.time_to_live s.recent_etl_runs) now tt
          (cached_recent_etl_runs moka Detail Report s now (e.down now) (e.world now)).1)
      × ((page page_size : ℕ)
          → IsRecent moka doc (runs_page_at e) (moka.time_to_live s.paginated_etl_runs) now
              (page, page_size)
              (cached_paginated_etl_runs moka Detail Report s now (e.down now) (e.down now) page
                page_size (e.world now)).1)

  -- Each wrapper answers with what its own query gives now.
  abbrev pub AreFresh : DashboardCache moka Detail Report → DateTime → Type 0
  AreFresh s now =
      ((cached_stats moka Detail Report (invalidate_stores moka Detail Report s) now (e.down now)
          (e.down now) (e.down now) (e.world now)).1
        ≡ (stats_at e) now tt)
      × ((cached_recent_approaches moka Detail Report (invalidate_stores moka Detail Report s) now
            e.avg_km (e.down now) (e.world now)).1
          ≡ (recent_at e) now tt)
      × ((cached_velocity_data moka Detail Report (invalidate_stores moka Detail Report s) now
            (e.down now) (e.world now)).1
          ≡ (velocity_at e) now tt)
      × ((period : TimePeriod)
          → (cached_velocity_data_by_period moka Detail Report
              (invalidate_stores moka Detail Report s) now e.minus (e.down now) period
              (e.world now)).1
            ≡ (by_period_at e) now (debug_period period))
      × ((start_date end_date : Option NaiveDate)
          → (cached_velocity_data_with_filter moka Detail Report
              (invalidate_stores moka Detail Report s) now (e.down now) start_date end_date
              (e.world now)).1
            ≡ (by_range_at e) now (start_date, end_date))
      × ((cached_recent_etl_runs moka Detail Report (invalidate_stores moka Detail Report s) now
            (e.down now) (e.world now)).1
          ≡ (runs_at e) now tt)
      × ((page page_size : ℕ)
          → (cached_paginated_etl_runs moka Detail Report (invalidate_stores moka Detail Report s)
              now (e.down now) (e.down now) page page_size (e.world now)).1
            ≡ (runs_page_at e) now (page, page_size))
