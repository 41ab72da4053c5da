-- ===== src/Database/Dashboard/Pages.antt =====
-- The pages of `get_paginated_approaches` in src/database/dashboard.rs.
use rustroid_sentinel.Prelude.{
  ℕ, zero, suc, ◌+◌, ◌-◌, ◌*◌, ◌%◌, ◌^◌, ◌≤◌, ◌<◌, ◌≡◌, ◌∙◌, inl, inr, refl, ap, sym, String, Bool,
  true, false, All, Option, List, [], ◌∷◌, ◌++◌, map_append, arith, length, take, drop, map, ◌==◌,
  Bool-cases, Result, ok, Outcome, returned, panicked, running,
}
use mathlib.Core.Path.{ap₂}
use rustroid_sentinel.Float.{F64}
use rustroid_sentinel.Models.{NaiveDate, Asteroid}
use rustroid_sentinel.Database.{Db, SqlError}
use rustroid_sentinel.Catalog.{insert_row, order_rows}
use rustroid_sentinel.Catalog.Sort.{Comparable, AllComparable, All-order_rows}
use rustroid_sentinel.Database.Orbits.Candidates.{length-order_rows}
use rustroid_sentinel.Database.Dashboard.{
  then_by, ApproachQueryParams, ApproachRecord, JoinedRow, page_of, page_offset, approach_record,
  approach_before, selected_rows, range_end, get_paginated_approaches,
}

module _ {ℓ} {A : Type ℓ} where
  take-nil : (n : ℕ) → take {A = A} n [] ≡ []
  take-nil zero = refl
  take-nil (suc n) = refl

  take-drop : (a b c : ℕ) (xs : List A) → c ≡ a + b → take a xs ++ take b (drop a xs) ≡ take c xs
  take-drop zero b c xs e = ap (λ n. take n xs) (omega (arith, e))
  take-drop (suc a) b zero xs e = absurd (omega (arith, e))
  take-drop (suc a) b (suc c) [] e = take-nil b
  take-drop (suc a) b (suc c) (x ∷ xs) e = ap (λ l. x ∷ l) (take-drop a b c xs (omega (arith, e)))

  take-all : (n : ℕ) (xs : List A) → length xs ≤ n → take n xs ≡ xs
  take-all zero [] h = refl
  take-all zero (x ∷ xs) h = absurd (omega (arith, h))
  take-all (suc n) [] h = refl
  take-all (suc n) (x ∷ xs) h = ap (λ l. x ∷ l) (take-all n xs (omega (arith, h)))

  -- The first `n` pages.
  abbrev pages : ℕ → ℕ → List A → List A
  pages size zero xs = []
  pages size (suc n) xs = pages size n xs ++ page_of size (n * size) xs

  pages-take : (size n : ℕ) (xs : List A) → pages size n xs ≡ take (n * size) xs
  pages-take size zero xs =
      let none_yet : 0 ≡ 0 * size = omega arith in ap (λ m. take m xs) none_yet
  pages-take size (suc n) xs =
      ap (λ l. l ++ page_of size (n * size) xs) (pages-take size n xs)
      ∙ take-drop (n * size) size (suc n * size) xs (omega arith)

pub le_times : (k size : ℕ) → 1 ≤ size → k ≤ k * size
le_times k zero positive = absurd (omega (arith, positive))
le_times k (suc size) positive = omega arith

pub times_mono : (k n size : ℕ) → k < n → k * size + size ≤ n * size
times_mono k zero size lt = absurd (omega (arith, lt))
times_mono k (suc n) size lt = elim (Bool-cases (k == n)) [
  | inl last ↦
      let same : k * size ≡ n * size = ap (λ m. m * size) (ground arith) in omega (arith, same)
  | inr below ↦ let rest = times_mono k n size (ground arith) in omega (arith, rest)
]

page_offset_within :
    (k size : ℕ) → 1 ≤ size → k * size < 2 ^ 32 → page_offset (suc k) size ≡ k * size
page_offset_within k size positive small =
    let fits : k < 2 ^ 32 = omega (arith, le_times k size positive, small) in
    let before : (suc k + (2 ^ 32 - 1)) % 2 ^ 32 ≡ k = omega (arith, fits) in
    let within : k * size % 2 ^ 32 ≡ k * size = omega (arith, small) in
    ap (λ j. j * size % 2 ^ 32) before ∙ within

-- The records of an answer.
abbrev pub records_of : Outcome (Result SqlError (List ApproachRecord × ℕ)) → List ApproachRecord
records_of (returned (ok (records, total))) = records
records_of _ = []

abbrev pub at_page : ApproachQueryParams → ℕ → ApproachQueryParams
at_page p page = record p { page = page }

-- When the first test tells all rows apart, the second does not matter.
module _ (first second : JoinedRow → JoinedRow → Bool) where
  insert_row-then_by :
      (x : JoinedRow) (ys : List JoinedRow)
      → All (Comparable first x) ys
      → insert_row (then_by first second) x ys ≡ insert_row first x ys
  unfolding insert_row
  insert_row-then_by x [] _ = refl
  insert_row-then_by x (y ∷ ys) (c, cs) = elim (Bool-cases (first x y)) [
    | inl before ↦ rw before refl
    | inr later ↦
        let after : first y x ≡ true = other c later in
        rw (later, after) (ap (λ l. y ∷ l) (insert_row-then_by x ys cs))
  ]
    where
      other : Comparable first x y → first x y ≡ false → first y x ≡ true
      other (inl e) later = absurd cc
      other (inr e) later = e

  order_rows-then_by :
      (xs : List JoinedRow)
      → AllComparable first xs
      → order_rows (then_by first second) xs ≡ order_rows first xs
  unfolding order_rows
  order_rows-then_by [] _ = refl
  order_rows-then_by (x ∷ xs) (c, cs) =
      ap (insert_row (then_by first second) x) (order_rows-then_by xs cs)
      ∙ insert_row-then_by x (order_rows first xs) (All-order_rows first (Comparable first x) xs c)

-- `ties k` is the order of ties in the query for the page `k`.
module _ (text_lt : String → String → Bool) (ties : ℕ → JoinedRow → JoinedRow → Bool)
    (avg_km : Asteroid → F64) (last_day : NaiveDate) (db : Db) where
  abbrev pub query : ApproachQueryParams → Outcome (Result SqlError (List ApproachRecord × ℕ))
  query p = get_paginated_approaches text_lt (ties p.page) avg_km last_day false false p db

  -- The records of the pages 1 to `n`, one after another.
  abbrev pub visited : ApproachQueryParams → ℕ → List ApproachRecord
  visited p zero = []
  visited p (suc n) = visited p n ++ records_of (query (at_page p (suc n)))

  abbrev pub all_records : ApproachQueryParams → Option NaiveDate → List ApproachRecord
  all_records p end =
      map (approach_record avg_km) (order_rows (approach_before text_lt p) (selected_rows p end db))

  pub query_at :
      (p : ApproachQueryParams) (end : Option NaiveDate) (k : ℕ)
      → range_end last_day p.end_date ≡ returned end
      → 1 ≤ p.page_size
      → k * p.page_size < 2 ^ 32
      → query (at_page p (suc k))
        ≡ returned (
            ok (
              map (approach_record avg_km) (
                  page_of p.page_size (k * p.page_size) (
                    order_rows
                      (then_by (approach_before text_lt p) (ties (suc k)))
                      (selected_rows p end db))),
              length (selected_rows p end db),
            ))
  unfolding get_paginated_approaches approach_before selected_rows
  query_at p end k e positive small =
      rw (get_paginated_approaches, e, page_offset_within k p.page_size positive small) refl

  get_paginated_approaches_visits :
      (p : ApproachQueryParams) (end : Option NaiveDate) (n : ℕ)
      → range_end last_day p.end_date ≡ returned end
      → 1 ≤ p.page_size
      → n * p.page_size ≤ 2 ^ 32
      → AllComparable (approach_before text_lt p) (selected_rows p end db)
      → visited p n
        ≡ map
            (approach_record avg_km)
            (pages p.page_size n (order_rows (approach_before text_lt p) (selected_rows p end db)))
  get_paginated_approaches_visits p end zero e positive small apart = refl
  get_paginated_approaches_visits p end (suc n) e positive small apart =
      let rows : List JoinedRow = order_rows (approach_before text_lt p) (selected_rows p end db) in
      let f = approach_record avg_km in
      ap₂ ◌++◌ (get_paginated_approaches_visits p end n e positive (omega (arith, small)) apart) (
        ap records_of (query_at p end n e positive (omega (arith, small, positive)))
        ∙ ap (λ l. map f (page_of p.page_size (n * p.page_size) l))
            (order_rows-then_by (approach_before text_lt p) (ties (suc n)) (selected_rows p end db)
              apart))
      ∙ sym (map_append f (pages p.page_size n rows) (page_of p.page_size (n * p.page_size) rows))

  -- When no query fails, the end of the range has a day after it, a page has room for one record at
  -- least, the first `n` pages are as many as the table needs but end within 2^32 rows, and the ORDER
  -- BY tells all selected rows apart, these
  -- pages one after another are all the selected approaches in the order of the query, each once.
  -- Each page also gives how many they are.
  pub get_paginated_approaches_pages :
      (p : ApproachQueryParams) (end : Option NaiveDate) (n : ℕ)
      → range_end last_day p.end_date ≡ returned end
      → 1 ≤ p.page_size
      → n * p.page_size ≤ 2 ^ 32
      → length (selected_rows p end db) ≤ n * p.page_size
      → AllComparable (approach_before text_lt p) (selected_rows p end db)
      → (visited p n ≡ all_records p end)
        × ((k : ℕ)
            → k < n
            → (records : List ApproachRecord) × (query (at_page p (suc k))
                ≡ returned (ok (records, length (selected_rows p end db)))))
  get_paginated_approaches_pages p end n e positive small enough apart =
      let rows : List JoinedRow = order_rows (approach_before text_lt p) (selected_rows p end db) in
      let size : length rows ≡ length (selected_rows p end db) =
        length-order_rows (approach_before text_lt p) (selected_rows p end db) in
      (
        get_paginated_approaches_visits p end n e positive small apart
            ∙ ap (map (approach_record avg_km)) (
                pages-take p.page_size n rows
                ∙ take-all (n * p.page_size) rows (omega (arith, size, enough))),
        λ k lt. (
          _,
          query_at p end k e positive
              (omega (arith, small, positive, times_mono k n p.page_size lt)),
        ),
      )

module _ (text_lt : String → String → Bool) (tie : JoinedRow → JoinedRow → Bool)
    (avg_km : Asteroid → F64) (last_day : NaiveDate) (db : Db) where
  abbrev pub query_with : ApproachQueryParams → Outcome (Result SqlError (List ApproachRecord × ℕ))
  query_with = query text_lt (λ _. tie) avg_km last_day db

  -- The first row of a page is counted in 32 bits, so that a page whose first row is 2^32 rows after
  -- that of another page gives the records of that other page again, whatever the table
  -- holds, as long as ties are listed alike.
  pub get_paginated_approaches_wraps :
      (p : ApproachQueryParams) (j k : ℕ)
      → j < 2 ^ 32
      → k < 2 ^ 32
      → k * p.page_size ≡ j * p.page_size + 2 ^ 32
      → query_with (at_page p (suc k)) ≡ query_with (at_page p (suc j))
  unfolding get_paginated_approaches approach_before selected_rows
  get_paginated_approaches_wraps p j k small large apart =
      let before_j : (suc j + (2 ^ 32 - 1)) % 2 ^ 32 ≡ j = omega (arith, small) in
      let before_k : (suc k + (2 ^ 32 - 1)) % 2 ^ 32 ≡ k = omega (arith, large) in
      let again : k * p.page_size % 2 ^ 32 ≡ j * p.page_size % 2 ^ 32 = omega (arith, apart) in
      let same : page_offset (suc k) p.page_size ≡ page_offset (suc j) p.page_size =
        ap (λ m. m * p.page_size % 2 ^ 32) before_k
        ∙ again
        ∙ sym (ap (λ m. m * p.page_size % 2 ^ 32) before_j) in
      by_end same (range_end last_day p.end_date) refl
    where
      by_end :
          page_offset (suc k) p.page_size ≡ page_offset (suc j) p.page_size
          → (o : Outcome (Option NaiveDate)) → range_end last_day p.end_date ≡ o
          → query_with (at_page p (suc k)) ≡ query_with (at_page p (suc j))
      by_end same (returned end) e = rw (get_paginated_approaches, e, same) refl
      by_end same panicked e = rw (get_paginated_approaches, e) refl
      by_end same running e = rw (get_paginated_approaches, e) refl
