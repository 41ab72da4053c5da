-- ===== src/Examples/Dashboard.antt =====
-- The pages of the dashboard on a small table.
use rustroid_sentinel.Prelude.{
  inl, ℕ, suc, ◌+◌, ◌*◌, ◌^◌, ◌≤◌, ◌<◌, ◌≡◌, refl, String, Bool, true, false, none, some, List, [],
  ◌∷◌, ◌==◌, length, any, All, arith, ok, returned,
}
use rustroid_sentinel.Float.{F64}
use rustroid_sentinel.Models.{Asteroid, to_string}
use rustroid_sentinel.Database.{Db}
use rustroid_sentinel.Database.Upsert.{approach_row}
use rustroid_sentinel.Catalog.Sort.{AllComparable}
use rustroid_sentinel.Database.Dashboard.{
  JoinedRow, approach_before, sort_col, ApproachQueryParams, ApproachRecord, join_asteroids,
  selects, selected_rows, range_end,
}
use rustroid_sentinel.Database.Dashboard.Pages.{
  at_page, query_with, all_records, get_paginated_approaches_wraps,
}
use rustroid_sentinel.Dashboard.{
  success, ceil_pages, ApproachesQuery, approaches_params, calculate_page_range, DashboardFilters,
  ApproachesTable, table_params, dashboard_table,
}
use rustroid_sentinel.Dashboard.Pages.{browsed, request, approaches_at, page_info, approaches_pages}
use rustroid_sentinel.Dashboard.Table.{
  IsNear, IsTable, table_at, calculate_page_range_lem, dashboard_table_lem,
}
use rustroid_sentinel.Examples.{asteroid, approach, empty_db}

abbrev text_lt : String → String → Bool
text_lt s t = false

abbrev avg_km : Asteroid → F64
avg_km a = a.estimated_diameter_min_km

abbrev tie : JoinedRow → JoinedRow → Bool
tie r s = true

-- Each page lists ties in another way.
abbrev ties : ℕ → JoinedRow → JoinedRow → Bool
ties k r s = k == 1

abbrev sky_db : Db
sky_db = record empty_db {
  asteroids = asteroid 10 "99942" "Apophis" ∷ asteroid 11 "101955" "Bennu" ∷ [];
  approaches =
      record (approach_row (approach 20 10 5)) { close_approach_date = 2 }
      ∷ record (approach_row (approach 21 10 6)) { close_approach_date = 1 }
      ∷ approach_row (approach 22 11 5)
      ∷ [];
}

abbrev params : ApproachQueryParams
params = record {
  page = 1;
  page_size = 2;
  start_date = none;
  end_date = some 9;
  hazard_class = some "Critical";
  sort_by = some "distance";
  sort_dir = none;
  sentry_only = false;
}

range_of_params : range_end 1000 (some 9) ≡ returned (some 10)
unfolding range_end
range_of_params = refl

get_paginated_approaches_wraps_example :
    query_with text_lt tie avg_km 1000 sky_db (at_page params (suc (2 ^ 31)))
    ≡ query_with text_lt tie avg_km 1000 sky_db (at_page params 1)
get_paginated_approaches_wraps_example =
    get_paginated_approaches_wraps text_lt tie avg_km 1000 sky_db params 0 (2 ^ 31) (omega arith)
      (omega arith) (omega arith)

abbrev asked : ApproachesQuery
asked = record {
  page = 1;
  page_size = 2;
  start_date = none;
  end_date = some 9;
  hazard_class = some "Critical";
  sentry_only = none;
}

three_asked : length (selected_rows (approaches_params asked) (some 10) sky_db) ≡ 3
unfolding selected_rows selects join_asteroids to_string
three_asked = refl

asked_apart :
    AllComparable
      (approach_before text_lt (approaches_params asked))
      (selected_rows (approaches_params asked) (some 10) sky_db)
unfolding selected_rows selects join_asteroids to_string approach_before sort_col
asked_apart = ((inl refl, (inl refl, tt)), ((inl refl, tt), (tt, tt)))

approaches_pages_example :
    let total = length (selected_rows (approaches_params asked) (some 10) sky_db) in
    let n = ceil_pages total 2 in
    (browsed text_lt ties avg_km 1000 sky_db asked n
      ≡ all_records text_lt ties avg_km 1000 sky_db (approaches_params asked) (some 10))
    × (n * 2 < total + 2)
    × ((k : ℕ)
        → k < n
        → (records : List ApproachRecord) × (request text_lt ties avg_km 1000 sky_db
              (approaches_at asked (suc k))
            ≡ returned (
                success
                  (record { data_items = records; pagination = page_info (suc k) 2 total n }))))
approaches_pages_example =
    approaches_pages text_lt ties avg_km 1000 sky_db asked (some 10) range_of_params (omega arith)
      (omega (arith, three_asked)) asked_apart

calculate_page_range_lem_example :
    All (IsNear 5 10) (calculate_page_range 5 10)
    × (length (calculate_page_range 5 10) ≤ 5)
    × (1 ≤ 5 → 5 ≤ 10 → any (λ p. p == 5) (calculate_page_range 5 10) ≡ true)
calculate_page_range_lem_example = calculate_page_range_lem 5 10 (omega arith)

page_range_of_5 : calculate_page_range 5 10 ≡ 3 ∷ 4 ∷ 5 ∷ 6 ∷ 7 ∷ []
unfolding calculate_page_range
page_range_of_5 = refl

abbrev filters : DashboardFilters
filters = record {
  page = some 1;
  hazard_class = some "Critical";
  start_date = none;
  end_date = some 9;
  sort_by = some "name";
  sort_dir = some "asc";
  sentry_only = none;
}

three_filtered : length (selected_rows (table_params filters) (some 10) sky_db) ≡ 3
unfolding selected_rows selects join_asteroids to_string
three_filtered = refl

dashboard_table_lem_example :
    (t : ApproachesTable) × (dashboard_table text_lt tie avg_km 1000 false false
        (table_at filters 0)
        sky_db
      ≡ returned (ok t))
    × IsTable 0 (length (selected_rows (table_params filters) (some 10) sky_db)) t
dashboard_table_lem_example =
    dashboard_table_lem text_lt tie avg_km 1000 sky_db filters 0 (some 10) refl range_of_params
      (omega (arith, three_filtered)) (omega (arith, three_filtered))
