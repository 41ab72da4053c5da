-- ===== src/Cache/Stores.antt =====
-- The stores of src/database/cache.rs and the queries behind them.
use rustroid_sentinel.Prelude.{
  ℕ, ◌≤◌, ◌≡◌, refl, String, Bool, none, List, str_eq, if◌then◌else◌, Result,
}
use rustroid_sentinel.Float.{F64}
use rustroid_sentinel.Models.{DateTime, Asteroid}
use rustroid_sentinel.Database.{Db, EtlEvent, SqlError}
use rustroid_sentinel.Database.Dashboard.{
  DashboardStats, ApproachRecord, VelocityDataPoint, TimePeriod, last7_days, last30_days,
  last90_days, last_year, get_stats, get_recent_approaches, get_velocity_data,
  get_velocity_data_by_period, get_velocity_data_with_filter, get_recent_etl_runs,
  get_paginated_etl_runs,
}
use rustroid_sentinel.Cache.{Moka, DateRangeKey, DashboardCache, debug_period, invalidate_stores}
use rustroid_sentinel.Cache.Staleness.{IsDocumented, Holds, empty-Holds, later-Holds}

-- What the queries depend on: the subtraction of an interval, the generated column of the diameter,
-- and at each time whether the server fails, and the database.
pub record Surroundings : Type 0 where
  pub minus : DateTime → String → DateTime
  pub avg_km : Asteroid → F64
  pub down : DateTime → Bool
  pub world : DateTime → Db

module _ (e : Surroundings) where
  -- What each query answers at a time, under the key of its store.
  abbrev pub stats_at : DateTime → Unit {0} → Result SqlError DashboardStats
  stats_at t k = get_stats (e.down t) (e.down t) (e.down t) (e.world t)

  abbrev pub recent_at : DateTime → Unit {0} → Result SqlError (List ApproachRecord)
  recent_at t k = get_recent_approaches e.avg_km (e.down t) (e.world t)

  abbrev pub velocity_at : DateTime → Unit {0} → Result SqlError (List VelocityDataPoint)
  velocity_at t k = get_velocity_data (e.down t) (e.world t)

  abbrev pub period_at : DateTime → TimePeriod → Result SqlError (List VelocityDataPoint)
  period_at t period = get_velocity_data_by_period e.minus t (e.down t) period (e.world t)

  abbrev pub by_period_at : DateTime → String → Result SqlError (List VelocityDataPoint)
  by_period_at t k =
      if str_eq k "Last7Days"
      then period_at t last7_days
      else (if str_eq k "Last30Days"
          then period_at t last30_days
          else (if str_eq k "Last90Days" then period_at t last90_days else period_at t last_year))

  abbrev pub by_range_at : DateTime → DateRangeKey → Result SqlError (List VelocityDataPoint)
  by_range_at t k = get_velocity_data_with_filter (e.down t) k.0 k.1 (e.world t)

  abbrev pub runs_at : DateTime → Unit {0} → Result SqlError (List EtlEvent)
  runs_at t k = get_recent_etl_runs (e.down t) (e.world t)

  abbrev pub runs_page_at : DateTime → (ℕ × ℕ) → Result SqlError (List EtlEvent × ℕ)
  runs_page_at t k = get_paginated_etl_runs (e.down t) (e.down t) k.0 k.1 (e.world t)

  pub by_period_lem :
      (t : DateTime) (period : TimePeriod)
      → period_at t period ≡ by_period_at t (debug_period period)
  by_period_lem t last7_days = refl
  by_period_lem t last30_days = refl
  by_period_lem t last90_days = refl
  by_period_lem t last_year = refl

module _ (moka : Moka) (doc : IsDocumented moka) (Detail Report : Type 0) (e : Surroundings) where
  -- Each entry of each store is an answer of its own query, of less than a time to live ago.
  pub record AllHold (s : DashboardCache moka Detail Report) (last : DateTime) : Type 0 where
    pub stats : Holds moka doc (stats_at e) s.stats last
    pub recent : Holds moka doc (recent_at e) s.recent_approaches last
    pub velocity : Holds moka doc (velocity_at e) s.velocity_default last
    pub by_period : Holds moka doc (by_period_at e) s.velocity_by_period last
    pub by_range : Holds moka doc (by_range_at e) s.velocity_by_range last
    pub runs : Holds moka doc (runs_at e) s.recent_etl_runs last
    pub runs_page : Holds moka doc (runs_page_at e) s.paginated_etl_runs last

  pub AllHold-later :
      (s : DashboardCache moka Detail Report) (last now : DateTime)
      → last ≤ now
      → AllHold s last
      → AllHold s now
  AllHold-later s last now le h = record {
    stats = later-Holds moka doc (stats_at e) s.stats last now le h.stats;
    recent = later-Holds moka doc (recent_at e) s.recent_approaches last now le h.recent;
    velocity = later-Holds moka doc (velocity_at e) s.velocity_default last now le h.velocity;
    by_period = later-Holds moka doc (by_period_at e) s.velocity_by_period last now le h.by_period;
    by_range = later-Holds moka doc (by_range_at e) s.velocity_by_range last now le h.by_range;
    runs = later-Holds moka doc (runs_at e) s.recent_etl_runs last now le h.runs;
    runs_page = later-Holds moka doc (runs_page_at e) s.paginated_etl_runs last now le h.runs_page;
  }

  abbrev pub AllEmpty : DashboardCache moka Detail Report → Type 0
  AllEmpty s =
      ((now : DateTime) (k : Unit {0}) → moka.lookup s.stats now k ≡ none)
      × ((now : DateTime) (k : Unit {0}) → moka.lookup s.recent_approaches now k ≡ none)
      × ((now : DateTime) (k : Unit {0}) → moka.lookup s.velocity_default now k ≡ none)
      × ((now : DateTime) (k : String) → moka.lookup s.velocity_by_period now k ≡ none)
      × ((now : DateTime) (k : DateRangeKey) → moka.lookup s.velocity_by_range now k ≡ none)
      × ((now : DateTime) (k : Unit {0}) → moka.lookup s.recent_etl_runs now k ≡ none)
      × ((now : DateTime) (k : (ℕ × ℕ)) → moka.lookup s.paginated_etl_runs now k ≡ none)

  pub AllEmpty-AllHold :
      (s : DashboardCache moka Detail Report) (last : DateTime) → AllEmpty s → AllHold s last
  AllEmpty-AllHold s last (e0, e1, e2, e3, e4, e5, e6) = record {
    stats = empty-Holds moka doc (stats_at e) s.stats last e0;
    recent = empty-Holds moka doc (recent_at e) s.recent_approaches last e1;
    velocity = empty-Holds moka doc (velocity_at e) s.velocity_default last e2;
    by_period = empty-Holds moka doc (by_period_at e) s.velocity_by_period last e3;
    by_range = empty-Holds moka doc (by_range_at e) s.velocity_by_range last e4;
    runs = empty-Holds moka doc (runs_at e) s.recent_etl_runs last e5;
    runs_page = empty-Holds moka doc (runs_page_at e) s.paginated_etl_runs last e6;
  }

  pub invalidate_stores-AllEmpty :
      (s : DashboardCache moka Detail Report) → AllEmpty (invalidate_stores moka Detail Report s)
  invalidate_stores-AllEmpty s = (
    doc.cleared s.stats,
    doc.cleared s.recent_approaches,
    doc.cleared s.velocity_default,
    doc.cleared s.velocity_by_period,
    doc.cleared s.velocity_by_range,
    doc.cleared s.recent_etl_runs,
    doc.cleared s.paginated_etl_runs,
  )
