-- ===== src/Catalog/Walk.antt =====
-- Following `next_cursor` through `GET /api/asteroids`, src/api/handlers/catalog.rs.
use rustroid_sentinel.Prelude.{
  append_assoc, ℕ, zero, suc, ◌+◌, ◌<◌, ◌≡◌, inl, inr, refl, ap, sym, ◌∙◌, String, Bool, true,
  false, ◌&&◌, Option, none, some, List, [], ◌∷◌, ◌++◌, arith, ltb, ==_self, length, take, drop,
  filter, All, ok, err, Bool-cases,
}
use mathlib.Core.Path.{subst}
use rustroid_sentinel.Catalog.{
  CatalogSortKey, SortDir, asc, desc, CatalogRow, CatalogCursor, passes, resumes, row_before,
  order_rows, list,
}
use rustroid_sentinel.Catalog.Order.{IsWeakOrder}
use rustroid_sentinel.Catalog.Sort.{
  All-order_rows, All-filter, IsAscending, AllComparable-filter, order_rows-IsAscending,
  filter-order_rows, filter-before,
}
use rustroid_sentinel.Catalog.Rows.{
  HasDistinctIds, keyset_predicate_lem, row_before_asym, row_before_trans,
  HasDistinctIds-AllComparable,
}
use rustroid_sentinel.Catalog.Pages.{
  CatalogQuery, same_dir, last_row, cursor_of, list_params, decode_cursor, next_cursor,
  catalog_list, catalog_page_size,
}

-- Lists
filter-and {ℓ} :
    {A : Type ℓ} (p q : A → Bool) (xs : List A)
    → filter (λ x. p x && q x) xs ≡ filter q (filter p xs)
filter-and p q [] = refl
filter-and p q (x ∷ xs) = ground (arith, filter-and p q xs)

filter-ext {ℓ} :
    {A : Type ℓ} (p q : A → Bool) (xs : List A) → ((x : A) → p x ≡ q x) → filter p xs ≡ filter q xs
filter-ext p q [] e = refl
filter-ext p q (x ∷ xs) e = rw (e x, filter-ext p q xs e) refl

take-take {ℓ} : {A : Type ℓ} (n : ℕ) (xs : List A) → take n (take (suc n) xs) ≡ take n xs
take-take zero xs = refl
take-take (suc n) [] = refl
take-take (suc n) (x ∷ xs) = ap (λ l. x ∷ l) (take-take n xs)

ltb-take {ℓ} :
    {A : Type ℓ} (n : ℕ) (xs : List A) → ltb n (length (take (suc n) xs)) ≡ ltb n (length xs)
ltb-take zero [] = refl
ltb-take zero (x ∷ xs) = ground arith
ltb-take (suc n) [] = refl
ltb-take (suc n) (x ∷ xs) = ground (arith, ltb-take n xs)

take-all {ℓ} : {A : Type ℓ} (n : ℕ) (xs : List A) → ltb n (length xs) ≡ false → take n xs ≡ xs
take-all zero [] h = refl
take-all zero (x ∷ xs) h = absurd (ground arith)
take-all (suc n) [] h = refl
take-all (suc n) (x ∷ xs) h = ap (λ l. x ∷ l) (take-all n xs (ground arith))

-- A full page has a last row, and the rest follows it.
split_page :
    (n : ℕ) (xs : List CatalogRow)
    → ltb (suc n) (length xs) ≡ true
    → (init : List CatalogRow) × (r : CatalogRow) × (take (suc n) xs ≡ init ++ r ∷ [])
      × (xs ≡ init ++ r ∷ drop (suc n) xs)
      × (length (drop (suc n) xs) + suc n ≡ length xs)
split_page n [] h = absurd (ground arith)
split_page zero (x ∷ xs) h = ([], x, refl, refl, omega arith)
split_page (suc n) (x ∷ xs) h =
    let (init, r, front, whole, size) = split_page n xs (ground arith) in
    (x ∷ init, r, ap (λ l. x ∷ l) front, ap (λ l. x ∷ l) whole, omega (arith, size))

last_row-append : (init : List CatalogRow) (r : CatalogRow) → last_row (init ++ r ∷ []) ≡ some r
last_row-append [] r = refl
last_row-append (x ∷ []) r = refl
last_row-append (x ∷ y ∷ init) r = last_row-append (y ∷ init) r

same_dir_self : (d : SortDir) → same_dir d d ≡ true
same_dir_self asc = refl
same_dir_self desc = refl

All-middle :
    (P : CatalogRow → Type 0) (pre : List CatalogRow) (r : CatalogRow) (post : List CatalogRow)
    → All P (pre ++ r ∷ post)
    → P r
All-middle P [] r post (p, ps) = p
All-middle P (x ∷ pre) r post (p, ps) = All-middle P pre r post ps

-- The codec reads back the cursor after a row. Text, dates and small integers always do; for a
-- floating-point number it depends on the number.
abbrev pub ReadsBack :
    {Token : Type 0}
    → (CatalogCursor → Token)
    → (Token → Option CatalogCursor)
    → CatalogSortKey
    → SortDir
    → CatalogRow
    → Type 0
ReadsBack encode decode sort sort_dir r =
    decode (encode (cursor_of sort sort_dir r)) ≡ some (cursor_of sort sort_dir r)

module _ {Token : Type 0} (encode : CatalogCursor → Token) (decode : Token → Option CatalogCursor)
    (text_lt : String → String → Bool) (ilike : String → String → Bool)
    (table : List CatalogRow) where
  -- What a client collects that asks for the first page and then for each next one, in at most
  -- `fuel` requests.
  unfoldable pub walk : ℕ → CatalogQuery Token → Option (List CatalogRow)
  walk zero query = none
  walk (suc fuel) query = elim (catalog_list encode decode text_lt ilike table false query) [
    | err status ↦ none
    | ok (rows, next) ↦ elim next [
      | none ↦ some rows
      | some token ↦ elim (walk fuel (record query { cursor = some token })) [
        | none ↦ none
        | some more ↦ some (rows ++ more)
      ]
    ]
  ]

  -- The rows of the table that pass the filters, in the order of the sort.
  abbrev pub selection : CatalogQuery Token → List CatalogRow
  selection query =
      order_rows (row_before text_lt query.sort query.sort_dir)
        (filter (passes ilike (list_params query none)) table)

  -- A page that starts where `rest` does.
  abbrev StartsAt : CatalogQuery Token → List CatalogRow → Type 0
  StartsAt query rest =
      catalog_list encode decode text_lt ilike table false query
      ≡ ok (
        take catalog_page_size rest,
        next_cursor encode decode (take catalog_page_size rest)
            (ltb catalog_page_size (length rest)) query.sort query.sort_dir,
      )

  rows-StartsAt :
      (query : CatalogQuery Token) (cursor : Option CatalogCursor) (rest : List CatalogRow)
      → decode_cursor encode decode query ≡ ok cursor
      → order_rows (row_before text_lt query.sort query.sort_dir) (
          filter
            (λ r. passes ilike (list_params query cursor) r && resumes text_lt ilike cursor r)
            table)
        ≡ rest
      → StartsAt query rest
  unfolding catalog_list list list_params
  rows-StartsAt query cursor rest decoded ordered =
      rw
        (
          catalog_list,
          decoded,
          ordered,
          take-take catalog_page_size rest,
          ltb-take catalog_page_size rest,
        )
        refl

  first_page : (query : CatalogQuery Token) → query.cursor ≡ none → StartsAt query (selection query)
  unfolding decode_cursor
  first_page query start = rows-StartsAt query none (selection query) (rw start refl) (
      ap (order_rows (row_before text_lt query.sort query.sort_dir)) (
        filter-ext (λ r. passes ilike (list_params query none) r && true)
          (passes ilike (list_params query none)) table
          (λ r. and_true (passes ilike (list_params query none) r))))
    where
      and_true : (b : Bool) → (b && true) ≡ b
      and_true true = refl
      and_true false = refl

  module _ (collation : IsWeakOrder text_lt) (distinct : HasDistinctIds table)
      (query : CatalogQuery Token)
      (codec : All (ReadsBack encode decode query.sort query.sort_dir) table) where
    next_page :
        (pre : List CatalogRow) (r : CatalogRow) (post : List CatalogRow)
        → selection query ≡ pre ++ r ∷ post
        → StartsAt
            (record query { cursor = some (encode (cursor_of query.sort query.sort_dir r)) })
            post
    unfolding decode_cursor list_params passes
    next_page pre r post whole =
        let before = row_before text_lt query.sort query.sort_dir in
        let cursor = cursor_of query.sort query.sort_dir r in
        let P = ReadsBack encode decode query.sort query.sort_dir in
        let read : P r = All-middle P pre r post (
          subst (All P) whole (
            All-order_rows before P (filter (passes ilike (list_params query none)) table)
              (All-filter before P (passes ilike (list_params query none)) table codec))) in
        let selected = filter (passes ilike (list_params query none)) table in
        let comparable = AllComparable-filter before (passes ilike (list_params query none)) table (
          HasDistinctIds-AllComparable text_lt collation query.sort query.sort_dir table
            distinct) in
        let trans = row_before_trans text_lt collation query.sort query.sort_dir in
        let ascending : IsAscending before (pre ++ r ∷ post) =
          subst (IsAscending before) whole
            (order_rows-IsAscending before trans selected comparable) in
        let after : filter (before r) (selection query) ≡ post =
          ap (filter (before r)) whole
          ∙ filter-before before (row_before_asym text_lt collation query.sort query.sort_dir) pre r
              post ascending in
        let admitted : filter (resumes text_lt ilike (some cursor)) selected
            ≡ filter (before r) selected =
          filter-ext (resumes text_lt ilike (some cursor)) (before r) selected
            (keyset_predicate_lem text_lt query.sort query.sort_dir r) in
        rows-StartsAt (record query { cursor = some (encode cursor) }) (some cursor) post
          (rw (decode_cursor, read, ==_self, same_dir_self query.sort_dir) refl)
          (ap (order_rows before) (
              filter-and (passes ilike (list_params query none))
                (resumes text_lt ilike (some cursor)) table)
            ∙ ap (order_rows before) admitted
            ∙ sym (filter-order_rows before trans (before r) selected comparable)
            ∙ after)

    walk_from :
        (fuel : ℕ) (start : Option Token) (pre rest : List CatalogRow)
        → selection query ≡ pre ++ rest
        → StartsAt (record query { cursor = start }) rest
        → length rest < fuel
        → walk fuel (record query { cursor = start }) ≡ some rest
    unfolding walk next_cursor
    walk_from zero start pre rest whole page enough = absurd (omega (arith, enough))
    walk_from (suc fuel) start pre rest whole page enough =
        elim (Bool-cases (ltb catalog_page_size (length rest))) [
          | inr last ↦ rw (walk, page, last, take-all catalog_page_size rest last) refl
          | inl more ↦
              let (init, r, front, split, size) = split_page 49 rest more in
              let rest' = drop catalog_page_size rest in
              let whole' : selection query ≡ (pre ++ init) ++ (r ∷ rest') =
                whole ∙ ap (λ l. pre ++ l) split ∙ sym (append_assoc pre init (r ∷ rest')) in
              let next =
                walk_from fuel (some (encode (cursor_of query.sort query.sort_dir r)))
                  ((pre ++ init) ++ (r ∷ [])) rest'
                  (whole' ∙ sym (append_assoc (pre ++ init) (r ∷ []) rest'))
                  (next_page (pre ++ init) r rest' whole') (omega (arith, size, enough)) in
              rw (walk, page, more, front, last_row-append init r, next)
                (ap (λ l. some (l ++ rest')) front
                  ∙ ap some (append_assoc init (r ∷ []) rest' ∙ sym split))
        ]

    -- For a collation that orders text and rows with distinct ids whose cursors under this sort the
    -- codec reads back, as it does for all but floating-point values that JSON text rounds
    -- or cannot write: a client that asks for the first page under any sort,
    -- direction and filters, and then for each next one while the table stays as it is, collects
    -- the rows that pass the filters, each once, in the order of the sort, null values last and
    -- ties by id. More requests than there are such rows are never needed.
    pub walk_lem :
        (fuel : ℕ)
        → query.cursor ≡ none
        → length (selection query) < fuel
        → walk fuel query ≡ some (selection query)
    walk_lem fuel start enough =
        walk_from fuel query.cursor [] (selection query) refl (first_page query start) enough
