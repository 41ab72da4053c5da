-- ===== src/Dashboard/Table.antt =====
-- The table of src/api/handlers/dashboard.rs.
use rustroid_sentinel.Prelude.{
  ℕ, zero, suc, ◌+◌, ◌-◌, ◌*◌, ◌%◌, ◌^◌, min, max, ◌≤◌, ◌<◌, ◌≡◌, inl, inr, refl, ap, String, Bool,
  true, false, Option, some, List, ◌==◌, arith, length, length-take, length-drop, length-map, drop,
  any, All, map, Bool-cases, ok, returned,
}
use rustroid_sentinel.Float.{F64}
use rustroid_sentinel.Models.{NaiveDate, Asteroid}
use rustroid_sentinel.Database.{Db}
use rustroid_sentinel.Catalog.{order_rows}
use rustroid_sentinel.Database.Orbits.Candidates.{length-order_rows}
use rustroid_sentinel.Database.Dashboard.{
  then_by, ApproachQueryParams, ApproachRecord, JoinedRow, page_of, approach_before,
  approach_record, selected_rows, range_end,
}
use rustroid_sentinel.Database.Dashboard.Pages.{query_at}
use rustroid_sentinel.Dashboard.Pages.{ceil_pages_lem}
use rustroid_sentinel.Dashboard.{
  ceil_pages, table_pages, count_from, calculate_page_range, DashboardFilters, ApproachesTable,
  table_params, is_reversed, table_of, dashboard_table,
}

-- The numbers near a page: what a link of the footer may say.
abbrev pub IsNear : ℕ → ℕ → ℕ → Type 0
IsNear current total p = (1 ≤ p) × (p ≤ total) × (p ≤ current + 2) × (current ≤ p + 2)

All-count_from :
    (P : ℕ → Type 0) (n start : ℕ)
    → ((p : ℕ) → start ≤ p → p < start + n → P p)
    → All P (count_from n start)
All-count_from P zero start h = tt
All-count_from P (suc n) start h = (
  h start (omega arith) (omega arith),
  All-count_from P n (suc start)
      (λ p above below. h p (omega (arith, above)) (omega (arith, below))),
)

length-count_from : (n start : ℕ) → length (count_from n start) ≡ n
length-count_from zero start = refl
length-count_from (suc n) start = ap suc (length-count_from n (suc start))

any-count_from :
    (p n start : ℕ) → start ≤ p → p < start + n → any (λ q. q == p) (count_from n start) ≡ true
any-count_from p zero start above below = absurd (omega (arith, above, below))
any-count_from p (suc n) start above below = elim (Bool-cases (start == p)) [
  | inl here ↦ rw here refl
  | inr later ↦ rw later (any-count_from p n (suc start) (ground arith) (ground arith))
]

-- While the page number is below 2^32 - 2, the links lead to pages that exist and are at most two
-- away from the current one; there are five at most, and the current page is among them if it
-- exists.
pub calculate_page_range_lem :
    (current total : ℕ)
    → current + 2 < 2 ^ 32
    → All (IsNear current total) (calculate_page_range current total)
      × (length (calculate_page_range current total) ≤ 5)
      × (1 ≤ current
          → current ≤ total
          → any (λ p. p == current) (calculate_page_range current total) ≡ true)
unfolding calculate_page_range
calculate_page_range_lem current total small =
    let start : ℕ = max (current - 2) 1 in
    let last : ℕ = min ((current + 2) % 2 ^ 32) total in
    (
      All-count_from (IsNear current total) (suc last - start) start λ p above below. (
        omega (arith, above, below),
        omega (arith, above, below),
        omega (arith, above, below, small),
        omega (arith, above, below),
      ),
      omega (arith, length-count_from (suc last - start) start, small),
      λ first exists.
          any-count_from current (suc last - start) start (omega (arith, first))
            (omega (arith, first, exists, small)),
    )

-- What a table of the `k + 1`-th page says of `total` rows.
abbrev pub IsTable : ℕ → ℕ → ApproachesTable → Type 0
IsTable k total t =
    (t.showing_start ≡ k * 20 + 1)
    × (t.showing_start + length t.approaches ≡ t.showing_end + 1)
    × (t.showing_end ≤ total)
    × (total ≤ t.total_pages * 20)
    × (t.total_pages * 20 < total + 20)
    × (any (λ p. p == suc k) t.page_range ≡ true)

table_of-IsTable :
    (k total : ℕ) (records : List ApproachRecord)
    → k * 20 < total
    → total + 20 < 2 ^ 32
    → length records ≡ min 20 (total - k * 20)
    → IsTable k total (table_of (suc k) records total)
unfolding table_of
table_of-IsTable k total records exists small size =
    let (room, tight) = ceil_pages_lem total 20 (omega arith) (omega (arith, small)) in
    let pages : table_pages total 20 ≡ ceil_pages total 20 = ground (arith, exists) in
    let nonzero : (total == 0) ≡ false = ground arith in
    let start_is : ((suc k + (2 ^ 32 - 1)) % 2 ^ 32 * 20 + 1) % 2 ^ 32 ≡ k * 20 + 1 =
      omega (arith, exists, small) in
    let (_, _, current) =
      calculate_page_range_lem (suc k) (ceil_pages total 20) (omega (arith, exists, small)) in
    rw (table_of, nonzero, start_is, pages)
      (
        refl,
        omega (arith, size, exists, small),
        omega arith,
        room,
        tight,
        current (omega arith) (omega (arith, exists, room)),
      )

abbrev pub table_at : DashboardFilters → ℕ → DashboardFilters
table_at f k = record f { page = some (suc k) }

module _ (text_lt : String → String → Bool) (tie : JoinedRow → JoinedRow → Bool)
    (avg_km : Asteroid → F64) (last_day : NaiveDate) (db : Db) where
  -- When no query fails, the date range is not reversed and its end has a day after it, and the
  -- selected rows are fewer than 2^32 - 20: a page that exists, the `k + 1`-th, is answered with a
  -- table that shows the rows from `20 k + 1` up to the number it says, as many records as these
  -- numbers tell, never beyond the number of rows; its number of pages has room for all rows, and
  -- one fewer would not; and its links have the page.
  pub dashboard_table_lem :
      (f : DashboardFilters) (k : ℕ) (end : Option NaiveDate)
      → is_reversed f.start_date f.end_date ≡ false
      → range_end last_day f.end_date ≡ returned end
      → k * 20 < length (selected_rows (table_params f) end db)
      → length (selected_rows (table_params f) end db) + 20 < 2 ^ 32
      → (t : ApproachesTable) × (dashboard_table text_lt tie avg_km last_day false false
            (table_at f k)
            db
          ≡ returned (ok t))
        × IsTable k (length (selected_rows (table_params f) end db)) t
  unfolding dashboard_table
  dashboard_table_lem f k end forward e exists small =
      let p : ApproachQueryParams = table_params f in
      let rows : List JoinedRow =
        order_rows (then_by (approach_before text_lt p) tie) (selected_rows p end db) in
      let total : ℕ = length (selected_rows p end db) in
      let records : List ApproachRecord = map (approach_record avg_km) (page_of 20 (k * 20) rows) in
      let found =
        query_at text_lt (λ _. tie) avg_km last_day db p end k e (omega arith)
          (omega (arith, exists, small)) in
      (
        table_of (suc k) records total,
        rw (dashboard_table, forward, found) refl,
        table_of-IsTable k total records exists small (
            omega (
              arith,
              length-map (approach_record avg_km) (page_of 20 (k * 20) rows),
              length-take 20 (drop (k * 20) rows),
              length-drop (k * 20) rows,
              length-order_rows (then_by (approach_before text_lt p) tie) (selected_rows p end db),
            )),
      )
