-- ===== src/Dashboard/Pages.antt =====
-- The pages of src/api/handlers/approaches.rs.
use mathlib.Core.Path.{ap₂}
use native.Mathlib.Nat.{div-add-mod', mod-lt}
use rustroid_sentinel.Prelude.{
  ℕ, zero, suc, ◌+◌, ◌-◌, ◌*◌, ◌/◌, ◌%◌, ◌^◌, min, ◌≤◌, ◌<◌, ◌≡◌, ◌∙◌, refl, ap, sym, String, Bool,
  false, Option, List, [], ◌++◌, arith, length, ok, Outcome, returned,
}
use rustroid_sentinel.Float.{F64}
use rustroid_sentinel.Models.{NaiveDate, Asteroid}
use rustroid_sentinel.Database.{Db}
use rustroid_sentinel.Catalog.Sort.{AllComparable}
use rustroid_sentinel.Database.Dashboard.{
  JoinedRow, ApproachRecord, approach_before, selected_rows, range_end,
}
use rustroid_sentinel.Database.Dashboard.Pages.{
  le_times, at_page, records_of, query, visited, all_records, get_paginated_approaches_pages,
}
use rustroid_sentinel.Dashboard.{
  ApiResponse, success, ceil_pages, ApproachesQuery, PaginationInfo, PaginatedResponse,
  approaches_params, approaches,
}

-- The quotient rounded up, while all numbers fit.
pub ceil_pages_lem :
    (total size : ℕ)
    → 1 ≤ size
    → total + size ≤ 2 ^ 32
    → (total ≤ ceil_pages total size * size) × (ceil_pages total size * size < total + size)
unfolding ceil_pages
ceil_pages_lem total zero positive fits = absurd (omega (arith, positive))
ceil_pages_lem total (suc size) positive fits =
    let q : ℕ = (total + size) / suc size in
    let whole : q * suc size + (total + size) % suc size ≡ total + size =
      div-add-mod' (total + size) (suc size) in
    let rest : (total + size) % suc size < suc size = mod-lt (total + size) (omega arith) in
    let below : q < 2 ^ 32 = omega (arith, le_times q (suc size) (omega arith), whole, fits) in
    let same : min q (2 ^ 32 - 1) ≡ q = omega (arith, below) in
    rw same (omega (arith, whole, rest), omega (arith, whole, rest))

abbrev pub approaches_at : ApproachesQuery → ℕ → ApproachesQuery
approaches_at q page = record q { page = page }

-- The records that a response shows.
abbrev pub shown : Outcome (ApiResponse PaginatedResponse) → List ApproachRecord
shown (returned (success r)) = r.data_items
shown _ = []

-- What the response to a page says of all of them.
abbrev pub page_info : ℕ → ℕ → ℕ → ℕ → PaginationInfo
page_info page page_size total_items total_pages = record {
  page = page;
  page_size = page_size;
  total_items = total_items;
  total_pages = total_pages;
}

module _ (text_lt : String → String → Bool) (ties : ℕ → JoinedRow → JoinedRow → Bool)
    (avg_km : Asteroid → F64) (last_day : NaiveDate) (db : Db) where
  abbrev pub request : ApproachesQuery → Outcome (ApiResponse PaginatedResponse)
  request q = approaches text_lt (ties q.page) avg_km last_day false false q db

  -- What a client sees who asks for the pages 1 to `n`.
  abbrev pub browsed : ApproachesQuery → ℕ → List ApproachRecord
  browsed q zero = []
  browsed q (suc n) = browsed q n ++ shown (request (approaches_at q (suc n)))

  request_at :
      (q : ApproachesQuery) (k total : ℕ) (records : List ApproachRecord)
      → query text_lt ties avg_km last_day db (at_page (approaches_params q) (suc k))
        ≡ returned (ok (records, total))
      → request (approaches_at q (suc k))
        ≡ returned (
            success (record {
              data_items = records;
              pagination = page_info (suc k) q.page_size total (ceil_pages total q.page_size);
            }))
  unfolding approaches
  request_at q k total records e = rw (approaches, e) refl

  browsed-visited :
      (q : ApproachesQuery) (total n : ℕ)
      → ((k : ℕ)
          → k < n
          → (records : List ApproachRecord) × (query text_lt ties avg_km last_day db
                (at_page (approaches_params q) (suc k))
              ≡ returned (ok (records, total))))
      → browsed q n ≡ visited text_lt ties avg_km last_day db (approaches_params q) n
  browsed-visited q total zero h = refl
  browsed-visited q total (suc n) h =
      let (records, e) = h n (omega arith) in
      ap₂ ◌++◌ (browsed-visited q total n (λ k lt. h k (omega (arith, lt))))
        (ap shown (request_at q n total records e) ∙ sym (ap records_of e))

  -- When no query fails, the end of the range has a day after it, a page has room for one record at
  -- least, the selected rows with one page more are at most 2^32, and no two of them have the same
  -- date, distance and time of creation, which is all that the query orders by: each page from 1 to
  -- `total_pages` answers with the number of the selected rows and with `total_pages`, no page
  -- fewer would have room for them, and the pages one after another show each of them once, in the
  -- order of the query, whatever each single query does with ties.
  pub approaches_pages :
      (q : ApproachesQuery) (end : Option NaiveDate)
      → range_end last_day q.end_date ≡ returned end
      → 1 ≤ q.page_size
      → length (selected_rows (approaches_params q) end db) + q.page_size ≤ 2 ^ 32
      → AllComparable
          (approach_before text_lt (approaches_params q))
          (selected_rows (approaches_params q) end db)
      → let total = length (selected_rows (approaches_params q) end db) in
        let n = ceil_pages total q.page_size in
        (browsed q n ≡ all_records text_lt ties avg_km last_day db (approaches_params q) end)
        × (n * q.page_size < total + q.page_size)
        × ((k : ℕ)
            → k < n
            → (records : List ApproachRecord) × (request (approaches_at q (suc k))
                ≡ returned (
                    success (record {
                      data_items = records;
                      pagination = page_info (suc k) q.page_size total n;
                    }))))
  approaches_pages q end e positive fits apart =
      let total : ℕ = length (selected_rows (approaches_params q) end db) in
      let (room, tight) = ceil_pages_lem total q.page_size positive fits in
      let (all, each) =
        get_paginated_approaches_pages text_lt ties avg_km last_day db (approaches_params q) end
          (ceil_pages total q.page_size) e positive (omega (arith, tight, fits)) room apart in
      (
        browsed-visited q total (ceil_pages total q.page_size) each ∙ all,
        tight,
        λ k lt. (let (records, f) = each k lt in (records, request_at q k total records f)),
      )
