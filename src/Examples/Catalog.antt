-- ===== src/Examples/Catalog.antt =====
-- A walk through a catalog of 120 rows, in pages of 50.
use rustroid_sentinel.Catalog.History.{page_links}
use rustroid_sentinel.Catalog.History.Links.{page_links_round_trip}
use rustroid_sentinel.Prelude.{
  All, ℕ, zero, suc, ◌%◌, ◌≡◌, refl, Option, none, some, List, [], ◌∷◌, String, Bool, true, false,
  arith, length, any, ◌≤◌, ◌==◌,
}
use rustroid_sentinel.Catalog.{
  CatalogRow, CatalogCursor, palermo, desc, passes, order_rows, insert_row, row_before, float8_lt,
}
use rustroid_sentinel.Float.{float8_key, is_nan, order_key}
use rustroid_sentinel.Catalog.Order.{IsWeakOrder}
use rustroid_sentinel.Catalog.Rows.{HasDistinctIds}
use rustroid_sentinel.Catalog.Pages.{CatalogQuery, list_params}
use rustroid_sentinel.Catalog.Walk.{ReadsBack, walk, selection, walk_lem}

-- One row in three has no Palermo value, and many rows share one.
abbrev catalog_row : ℕ → CatalogRow
catalog_row i = record {
  id = i;
  neo_reference_id = "";
  name = "";
  estimated_diameter_avg_km = 0;
  is_potentially_hazardous = true;
  is_sentry_object = false;
  torino_scale = none;
  palermo_scale = scale (i % 3);
  orbit_class = none;
  spectral_class = none;
  approach_dates = [];
}
  where
    scale : ℕ → Option ℕ
    scale zero = none
    scale (suc k) = some k

rows : ℕ → List CatalogRow
rows zero = []
rows (suc n) = catalog_row n ∷ rows n

abbrev query : CatalogQuery CatalogCursor
query = record {
  cursor = none;
  sort = palermo;
  sort_dir = desc;
  name = none;
  is_potentially_hazardous = some true;
  is_sentry_object = none;
  start_date = none;
  end_date = none;
  min_diameter_km = none;
  max_diameter_km = none;
  orbit_class = none;
  spectral_class = none;
  min_torino_scale = none;
  min_palermo_scale = none;
}

abbrev never : String → String → Bool
never a b = false

never-IsWeakOrder : IsWeakOrder never
never-IsWeakOrder = record { asym = λ a b h. refl; cotrans = λ a b c h k. ground arith }

rows_below : (n m : ℕ) → n ≤ m → any (λ (r : CatalogRow). r.id == m) (rows n) ≡ false
unfolding rows
rows_below zero m h = refl
rows_below (suc n) m h =
    let apart : (n == m) ≡ false = ground arith in
    rw (apart, rows_below n m (omega (arith, h))) refl

rows-HasDistinctIds : (n : ℕ) → HasDistinctIds (rows n)
unfolding rows
rows-HasDistinctIds zero = tt
rows-HasDistinctIds (suc n) = (rows_below n n (omega arith), rows-HasDistinctIds n)

length-selection :
    length (selection (λ (c : CatalogCursor). c) (λ c. some c) never never (rows 120) query) ≡ 120
unfolding rows order_rows insert_row passes list_params row_before float8_lt float8_key is_nan
    order_key
length-selection = refl

rows-ReadsBack :
    (n : ℕ)
    → All (ReadsBack (λ (c : CatalogCursor). c) (λ c. some c) query.sort query.sort_dir) (rows n)
unfolding rows
rows-ReadsBack zero = tt
rows-ReadsBack (suc n) = (refl, rows-ReadsBack n)

walk_lem_example :
    walk (λ c. c) (λ c. some c) never never (rows 120) 200 query
    ≡ some (selection (λ (c : CatalogCursor). c) (λ c. some c) never never (rows 120) query)
walk_lem_example =
    walk_lem (λ c. c) (λ c. some c) never never (rows 120) never-IsWeakOrder
      (rows-HasDistinctIds 120) query (rows-ReadsBack 120) 200 refl
      (omega (arith, length-selection))

page_links_round_trip_example :
    let next = page_links (some "Yw") (some "~,YQ,Yg") in
    let back = page_links (some "ZA") (some next.next_history) in
    (back.has_prev ≡ true) × (back.prev_cursor ≡ "Yw") × (back.prev_history ≡ "~,YQ,Yg")
page_links_round_trip_example =
    page_links_round_trip (some "Yw") (some "~,YQ,Yg") "ZA" (refl, refl, refl)
