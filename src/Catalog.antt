-- ===== src/Catalog.antt =====
-- The asteroid catalog: src/database/catalog.rs, src/api/cursor.rs and the pagination of
-- src/api/handlers/catalog.rs.
--
-- A row is an asteroid joined with its orbit and the dates of its approaches. The collation of the
-- database's text, the test behind `ILIKE`, and the codec of base64 and serde_json are parameters.
pub mod Order
pub mod Sort
pub mod Pages
pub mod Rows
pub mod Walk
pub mod History
use rustroid_sentinel.Prelude.{
  ℕ, zero, suc, ◌+◌, String, Bool, true, false, not, ◌&&◌, ◌||◌, Option, none, some, List, [], ◌∷◌,
  ltb, leb, ◌==◌, str_eq, max, if◌then◌else◌, length, take, filter, any, Result, ok, err,
}
use rustroid_sentinel.Float.{F64, float8_key}
use rustroid_sentinel.Models.{Uuid, NaiveDate, I64, pos, negsuc}

pub data CatalogSortKey : Type 0 where
  approach_activity name_key diameter torino palermo : CatalogSortKey

pub data SortDir : Type 0 where
  asc desc : SortDir

pub data CursorValue : Type 0 where
  date_value : Option NaiveDate → CursorValue
  text_value : String → CursorValue
  diameter_value : F64 → CursorValue
  torino_value : Option I64 → CursorValue
  palermo_value : Option F64 → CursorValue

pub record CatalogCursor : Type 0 where
  pub sort : CatalogSortKey
  pub sort_dir : SortDir
  pub value : CursorValue
  pub id : Uuid

-- A row of the join: the orbit's columns are null without an orbit.
pub record CatalogRow : Type 0 where
  pub id : Uuid
  pub neo_reference_id : String
  pub name : String
  pub estimated_diameter_avg_km : F64
  pub is_potentially_hazardous : Bool
  pub is_sentry_object : Bool
  pub torino_scale : Option I64
  pub palermo_scale : Option F64
  pub orbit_class : Option String
  pub spectral_class : Option String
  pub approach_dates : List NaiveDate

-- `MAX(close_approach_date)`
abbrev pub max_date : List NaiveDate → Option NaiveDate
max_date [] = none
max_date (d ∷ ds) = elim (max_date ds) [ none ↦ some d | some e ↦ some (max d e) ]

abbrev pub latest_approach_date : CatalogRow → Option NaiveDate
latest_approach_date r = max_date r.approach_dates

-- `<` on `int2` and on `float8`
unfoldable pub int_lt : I64 → I64 → Bool
int_lt (pos a) (pos b) = ltb a b
int_lt (pos a) (negsuc b) = false
int_lt (negsuc a) (pos b) = true
int_lt (negsuc a) (negsuc b) = ltb b a

unfoldable pub float8_lt : F64 → F64 → Bool
float8_lt a b = ltb (float8_key a) (float8_key b)

-- `column > value` when ascending, `column < value` when descending.
abbrev pub past {ℓ} : {K : Type ℓ} → (K → K → Bool) → SortDir → K → K → Bool
past lt asc column value = lt value column
past lt desc column value = lt column value

-- `column = value`, of an order that `lt` gives.
abbrev pub equal {ℓ} : {K : Type ℓ} → (K → K → Bool) → K → K → Bool
equal lt a b = not (lt a b) && not (lt b a)

-- `(column > v OR (column = v AND ast.id > id) OR column IS NULL)`, or for a null value
-- `column IS NULL AND ast.id > id`. A comparison with a null column is not true.
abbrev pub nullable_keyset {ℓ} :
    {K : Type ℓ} → (K → K → Bool) → SortDir → Option K → Uuid → Option K → Uuid → Bool
nullable_keyset lt dir (some v) id (some column) row_id =
    past lt dir column v || (equal lt column v && past ltb dir row_id id)
nullable_keyset lt dir (some v) id none row_id = true
nullable_keyset lt dir none id (some column) row_id = false
nullable_keyset lt dir none id none row_id = past ltb dir row_id id

abbrev pub not_null_keyset {ℓ} :
    {K : Type ℓ} → (K → K → Bool) → SortDir → K → Uuid → K → Uuid → Bool
not_null_keyset lt dir v id column row_id =
    past lt dir column v || (equal lt column v && past ltb dir row_id id)

-- Whether `ORDER BY column dir NULLS LAST, ast.id dir` puts the first row before the second.
abbrev pub nullable_before {ℓ} :
    {K : Type ℓ} → (K → K → Bool) → SortDir → Option K → Uuid → Option K → Uuid → Bool
nullable_before lt dir (some a) i (some b) j =
    if past lt dir b a then true else if past lt dir a b then false else past ltb dir j i
nullable_before lt dir (some a) i none j = true
nullable_before lt dir none i (some b) j = false
nullable_before lt dir none i none j = past ltb dir j i

module _ (text_lt : String → String → Bool) where
  -- `push_order_by`; for a column that is never null the two null rules are the same.
  unfoldable pub row_before : CatalogSortKey → SortDir → CatalogRow → CatalogRow → Bool
  row_before approach_activity dir r s =
      nullable_before ltb dir (latest_approach_date r) r.id (latest_approach_date s) s.id
  row_before name_key dir r s = nullable_before text_lt dir (some r.name) r.id (some s.name) s.id
  row_before diameter dir r s =
      nullable_before float8_lt dir (some r.estimated_diameter_avg_km) r.id
        (some s.estimated_diameter_avg_km) s.id
  row_before torino dir r s = nullable_before int_lt dir r.torino_scale r.id s.torino_scale s.id
  row_before palermo dir r s =
      nullable_before float8_lt dir r.palermo_scale r.id s.palermo_scale s.id

  -- `push_keyset_predicate`: the cursor's value names the column.
  unfoldable pub keyset_predicate : SortDir → CursorValue → Uuid → CatalogRow → Bool
  keyset_predicate dir (date_value v) id r =
      nullable_keyset ltb dir v id (latest_approach_date r) r.id
  keyset_predicate dir (text_value v) id r = not_null_keyset text_lt dir v id r.name r.id
  keyset_predicate dir (diameter_value v) id r =
      not_null_keyset float8_lt dir v id r.estimated_diameter_avg_km r.id
  keyset_predicate dir (torino_value v) id r = nullable_keyset int_lt dir v id r.torino_scale r.id
  keyset_predicate dir (palermo_value v) id r =
      nullable_keyset float8_lt dir v id r.palermo_scale r.id

pub record CatalogListParams : Type 0 where
  pub cursor : Option CatalogCursor
  pub sort : CatalogSortKey
  pub sort_dir : SortDir
  pub name : Option String
  pub is_potentially_hazardous : Option Bool
  pub is_sentry_object : Option Bool
  pub start_date : Option NaiveDate
  pub end_date : Option NaiveDate
  pub min_diameter_km : Option F64
  pub max_diameter_km : Option F64
  pub orbit_class : Option String
  pub spectral_class : Option String
  pub min_torino_scale : Option I64
  pub min_palermo_scale : Option F64
  pub limit : ℕ

-- A condition that is added when the parameter is there, and one on a column that may be null.
abbrev pub when {ℓ} : {P : Type ℓ} → Option P → (P → Bool) → Bool
when none test = true
when (some p) test = test p

abbrev pub not_null {ℓ} : {K : Type ℓ} → Option K → (K → Bool) → Bool
not_null none test = false
not_null (some column) test = test column

-- The `EXISTS` of the date filter.
abbrev pub has_approach_between : Option NaiveDate → Option NaiveDate → List NaiveDate → Bool
has_approach_between none none dates = true
has_approach_between start end dates =
    any (λ d. when start (λ s. leb s d) && when end (λ e. leb d e)) dates

module _ (ilike : String → String → Bool) where
  unfoldable pub passes : CatalogListParams → CatalogRow → Bool
  passes p r =
      when p.name (λ n. ilike n r.name)
      && when p.is_potentially_hazardous
          (λ b. if b then r.is_potentially_hazardous else not r.is_potentially_hazardous)
      && when p.is_sentry_object (λ b. if b then r.is_sentry_object else not r.is_sentry_object)
      && has_approach_between p.start_date p.end_date r.approach_dates
      && when p.min_diameter_km (λ d. not (float8_lt r.estimated_diameter_avg_km d))
      && when p.max_diameter_km (λ d. not (float8_lt d r.estimated_diameter_avg_km))
      && when p.orbit_class (λ c. not_null r.orbit_class (λ o. str_eq o c))
      && when p.spectral_class (λ c. not_null r.spectral_class (λ o. str_eq o c))
      && when p.min_torino_scale (λ t. not_null r.torino_scale (λ c. not (int_lt c t)))
      && when p.min_palermo_scale (λ t. not_null r.palermo_scale (λ c. not (float8_lt c t)))

-- The server's `ORDER BY`: the rows in the order of `before`.
unfoldable pub insert_row {ℓ} : {A : Type ℓ} → (A → A → Bool) → A → List A → List A
insert_row before x [] = x ∷ []
insert_row before x (y ∷ ys) =
    let rest = insert_row before x ys in if before x y then x ∷ y ∷ ys else y ∷ rest

unfoldable pub order_rows {ℓ} : {A : Type ℓ} → (A → A → Bool) → List A → List A
unfolding insert_row
order_rows before [] = []
order_rows before (x ∷ xs) = insert_row before x (order_rows before xs)

module _ (text_lt : String → String → Bool) (ilike : String → String → Bool) where
  abbrev pub resumes : Option CatalogCursor → CatalogRow → Bool
  resumes none r = true
  resumes (some c) r = keyset_predicate text_lt c.sort_dir c.value c.id r

  -- `CatalogRepository::list`: a page of rows, and whether there is another one.
  unfoldable pub list : List CatalogRow → CatalogListParams → List CatalogRow × Bool
  unfolding order_rows
  list table p =
      let rows = take (p.limit + 1) (
        order_rows (row_before text_lt p.sort p.sort_dir)
          (filter (λ r. passes ilike p r && resumes p.cursor r) table)) in
      (take p.limit rows, ltb p.limit (length rows))
