-- ===== src/Catalog/Rows.antt =====
-- The order of whole rows, and the predicate that resumes after one, src/database/catalog.rs.
use rustroid_sentinel.Prelude.{
  ◌≡◌, ◌≢◌, inl, inr, String, Bool, true, false, some, List, [], ◌∷◌, any, All, arith, ltb, ◌==◌,
  Bool-cases,
}
use rustroid_sentinel.Catalog.{
  SortDir, CatalogSortKey, approach_activity, name_key, diameter, torino, palermo, CatalogRow,
  row_before, keyset_predicate, int_lt, float8_lt, latest_approach_date,
}
use rustroid_sentinel.Catalog.Order.{
  IsWeakOrder, ltb-IsWeakOrder, int_lt-IsWeakOrder, float8_lt-IsWeakOrder, nullable_keyset_lem,
  not_null_keyset_lem, nullable_before_asym, nullable_before_trans, nullable_before_total,
}
use rustroid_sentinel.Catalog.Sort.{AllComparable, Comparable}
use rustroid_sentinel.Catalog.Pages.{sort_value}

abbrev pub HasDistinctIds : List CatalogRow → Type 0
HasDistinctIds [] = Unit
HasDistinctIds (r ∷ rows) =
    (any (λ (s : CatalogRow). s.id == r.id) rows ≡ false) × HasDistinctIds rows

module _ (text_lt : String → String → Bool) where
  -- The rows that the cursor of a row admits are those that the same sort puts after the row.
  pub keyset_predicate_lem :
      (sort : CatalogSortKey) (dir : SortDir) (last r : CatalogRow)
      → keyset_predicate text_lt dir (sort_value sort last) last.id r
        ≡ row_before text_lt sort dir last r
  unfolding keyset_predicate row_before
  keyset_predicate_lem approach_activity dir last r =
      nullable_keyset_lem ltb dir (latest_approach_date last) last.id (latest_approach_date r) r.id
  keyset_predicate_lem name_key dir last r =
      not_null_keyset_lem text_lt dir last.name last.id r.name r.id
  keyset_predicate_lem diameter dir last r =
      not_null_keyset_lem float8_lt dir last.estimated_diameter_avg_km last.id
        r.estimated_diameter_avg_km r.id
  keyset_predicate_lem torino dir last r =
      nullable_keyset_lem int_lt dir last.torino_scale last.id r.torino_scale r.id
  keyset_predicate_lem palermo dir last r =
      nullable_keyset_lem float8_lt dir last.palermo_scale last.id r.palermo_scale r.id

  module _ (collation : IsWeakOrder text_lt) where
    pub row_before_asym :
        (sort : CatalogSortKey) (dir : SortDir) (r s : CatalogRow)
        → row_before text_lt sort dir r s ≡ true
        → row_before text_lt sort dir s r ≡ false
    unfolding row_before
    row_before_asym approach_activity dir r s =
        nullable_before_asym ltb ltb-IsWeakOrder dir (latest_approach_date r) r.id
          (latest_approach_date s) s.id
    row_before_asym name_key dir r s =
        nullable_before_asym text_lt collation dir (some r.name) r.id (some s.name) s.id
    row_before_asym diameter dir r s =
        nullable_before_asym float8_lt float8_lt-IsWeakOrder dir (some r.estimated_diameter_avg_km)
          r.id (some s.estimated_diameter_avg_km) s.id
    row_before_asym torino dir r s =
        nullable_before_asym int_lt int_lt-IsWeakOrder dir r.torino_scale r.id s.torino_scale s.id
    row_before_asym palermo dir r s =
        nullable_before_asym float8_lt float8_lt-IsWeakOrder dir r.palermo_scale r.id
          s.palermo_scale s.id

    row_before_total :
        (sort : CatalogSortKey) (dir : SortDir) (r s : CatalogRow)
        → r.id ≢ s.id
        → row_before text_lt sort dir r s ≡ false
        → row_before text_lt sort dir s r ≡ true
    unfolding row_before
    row_before_total approach_activity dir r s =
        nullable_before_total ltb ltb-IsWeakOrder dir (latest_approach_date r) r.id
          (latest_approach_date s) s.id
    row_before_total name_key dir r s =
        nullable_before_total text_lt collation dir (some r.name) r.id (some s.name) s.id
    row_before_total diameter dir r s =
        nullable_before_total float8_lt float8_lt-IsWeakOrder dir (some r.estimated_diameter_avg_km)
          r.id (some s.estimated_diameter_avg_km) s.id
    row_before_total torino dir r s =
        nullable_before_total int_lt int_lt-IsWeakOrder dir r.torino_scale r.id s.torino_scale s.id
    row_before_total palermo dir r s =
        nullable_before_total float8_lt float8_lt-IsWeakOrder dir r.palermo_scale r.id
          s.palermo_scale s.id

    pub row_before_trans :
        (sort : CatalogSortKey) (dir : SortDir) (r s t : CatalogRow)
        → row_before text_lt sort dir r s ≡ true
        → row_before text_lt sort dir s t ≡ true
        → row_before text_lt sort dir r t ≡ true
    unfolding row_before
    row_before_trans approach_activity dir r s t =
        nullable_before_trans ltb ltb-IsWeakOrder dir (latest_approach_date r) r.id
          (latest_approach_date s) s.id (latest_approach_date t) t.id
    row_before_trans name_key dir r s t =
        nullable_before_trans text_lt collation dir (some r.name) r.id (some s.name) s.id
          (some t.name) t.id
    row_before_trans diameter dir r s t =
        nullable_before_trans float8_lt float8_lt-IsWeakOrder dir (some r.estimated_diameter_avg_km)
          r.id (some s.estimated_diameter_avg_km) s.id (some t.estimated_diameter_avg_km) t.id
    row_before_trans torino dir r s t =
        nullable_before_trans int_lt int_lt-IsWeakOrder dir r.torino_scale r.id s.torino_scale s.id
          t.torino_scale t.id
    row_before_trans palermo dir r s t =
        nullable_before_trans float8_lt float8_lt-IsWeakOrder dir r.palermo_scale r.id
          s.palermo_scale s.id t.palermo_scale t.id

    -- Rows with distinct ids are comparable, whatever the columns hold.
    pub HasDistinctIds-AllComparable :
        (sort : CatalogSortKey) (dir : SortDir) (rows : List CatalogRow)
        → HasDistinctIds rows
        → AllComparable (row_before text_lt sort dir) rows
    HasDistinctIds-AllComparable sort dir [] _ = tt
    HasDistinctIds-AllComparable sort dir (r ∷ rows) (d, ds) =
        (comparable rows d, HasDistinctIds-AllComparable sort dir rows ds)
      where
        comparable_one :
            (s : CatalogRow) → (s.id == r.id) ≡ false → Comparable (row_before text_lt sort dir) r s
        comparable_one s other = elim (Bool-cases (row_before text_lt sort dir r s)) [
          | inl first ↦ inl first
          | inr later ↦ inr (row_before_total sort dir r s (λ same. ground arith) later)
        ]

        comparable :
            (ss : List CatalogRow)
            → any (λ (s : CatalogRow). s.id == r.id) ss ≡ false
            → All (Comparable (row_before text_lt sort dir) r) ss
        comparable [] _ = tt
        comparable (s ∷ ss) h = (comparable_one s (ground arith), comparable ss (ground arith))
