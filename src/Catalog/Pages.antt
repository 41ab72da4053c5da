-- ===== src/Catalog/Pages.antt =====
-- The pagination of src/api/handlers/catalog.rs over `CatalogRepository::list`.
--
-- A token is text that clients treat as opaque; its type is a parameter, with the codec.
use rustroid_sentinel.Prelude.{
  ℕ, String, Bool, true, false, not, ◌||◌, Option, none, some, List, [], ◌∷◌, str_eq, ◌==◌,
  if◌then◌else◌, Result, ok, err,
}
use rustroid_sentinel.Float.{F64}
use rustroid_sentinel.Models.{NaiveDate, I64}
use rustroid_sentinel.Catalog.{
  SortDir, asc, desc, CatalogSortKey, approach_activity, name_key, diameter, torino, palermo,
  CatalogRow, CatalogCursor, CursorValue, date_value, text_value, diameter_value, torino_value,
  palermo_value, CatalogListParams, latest_approach_date, list,
}

pub record CatalogQuery (Token : Type 0) : Type 0 where
  pub cursor : Option Token
  pub sort : CatalogSortKey
  pub sort_dir : SortDir
  pub name : Option String
  pub is_potentially_hazardous : Option Bool
  pub is_sentry_object : Option Bool
  pub start_date : Option NaiveDate
  pub end_date : Option NaiveDate
  pub min_diameter_km : Option F64
  pub max_diameter_km : Option F64
  pub orbit_class : Option String
  pub spectral_class : Option String
  pub min_torino_scale : Option I64
  pub min_palermo_scale : Option F64

pub data StatusCode : Type 0 where
  bad_request internal_server_error : StatusCode

abbrev pub sort_index : CatalogSortKey → ℕ
sort_index approach_activity = 0
sort_index name_key = 1
sort_index diameter = 2
sort_index torino = 3
sort_index palermo = 4

abbrev pub same_sort : CatalogSortKey → CatalogSortKey → Bool
same_sort a b = sort_index a == sort_index b

abbrev pub same_dir : SortDir → SortDir → Bool
same_dir asc asc = true
same_dir asc desc = false
same_dir desc asc = false
same_dir desc desc = true

-- `filter(|s| !s.is_empty())`
abbrev pub non_empty : Option String → Option String
non_empty none = none
non_empty (some s) = if str_eq s "" then none else some s

abbrev pub catalog_page_size : ℕ
catalog_page_size = 50

-- The value of the sort column of a row.
abbrev pub sort_value : CatalogSortKey → CatalogRow → CursorValue
sort_value approach_activity r = date_value (latest_approach_date r)
sort_value name_key r = text_value r.name
sort_value diameter r = diameter_value r.estimated_diameter_avg_km
sort_value torino r = torino_value r.torino_scale
sort_value palermo r = palermo_value r.palermo_scale

abbrev pub cursor_of : CatalogSortKey → SortDir → CatalogRow → CatalogCursor
cursor_of sort sort_dir last = record {
  sort = sort;
  sort_dir = sort_dir;
  value = sort_value sort last;
  id = last.id;
}

abbrev pub last_row : List CatalogRow → Option CatalogRow
last_row [] = none
last_row (r ∷ []) = some r
last_row (r ∷ s ∷ rows) = last_row (s ∷ rows)

module _ {Token : Type 0} where
  unfoldable pub list_params : CatalogQuery Token → Option CatalogCursor → CatalogListParams
  list_params query cursor = record {
    cursor = cursor;
    sort = query.sort;
    sort_dir = query.sort_dir;
    name = non_empty query.name;
    is_potentially_hazardous = query.is_potentially_hazardous;
    is_sentry_object = query.is_sentry_object;
    start_date = query.start_date;
    end_date = query.end_date;
    min_diameter_km = query.min_diameter_km;
    max_diameter_km = query.max_diameter_km;
    orbit_class = non_empty query.orbit_class;
    spectral_class = non_empty query.spectral_class;
    min_torino_scale = query.min_torino_scale;
    min_palermo_scale = query.min_palermo_scale;
    limit = catalog_page_size;
  }

  module _ (encode : CatalogCursor → Token) (decode : Token → Option CatalogCursor) where
    unfoldable pub decode_cursor : CatalogQuery Token → Result StatusCode (Option CatalogCursor)
    decode_cursor query = elim query.cursor [
      | none ↦ ok none
      | some token ↦ elim (decode token) [
        | none ↦ err bad_request
        | some cursor ↦
            if not (same_sort cursor.sort query.sort)
              || not (same_dir cursor.sort_dir query.sort_dir)
            then err bad_request
            else ok (some cursor)
      ]
    ]

    unfoldable pub next_cursor : List CatalogRow → Bool → CatalogSortKey → SortDir → Option Token
    next_cursor rows has_more sort sort_dir = if not has_more then none else elim (last_row rows) [
      | none ↦ none
      | some last ↦ some (encode (cursor_of sort sort_dir last))
    ]

    -- `GET /api/asteroids` on the table; `down` says that the query fails.
    unfoldable pub catalog_list :
        (String → String → Bool)
        → (String → String → Bool)
        → List CatalogRow
        → Bool
        → CatalogQuery Token
        → Result StatusCode (List CatalogRow × Option Token)
    catalog_list text_lt ilike table down query = elim (decode_cursor query) [
      | err status ↦ err status
      | ok cursor ↦
          if down
          then err internal_server_error
          else let (rows, has_more) = list text_lt ilike table (list_params query cursor) in
            ok (rows, next_cursor rows has_more query.sort query.sort_dir)
    ]
