-- ===== src/Csv/Stream/Found.antt =====
-- A header without an issue has each required column at one index, and a row as long as the header has
-- a value for each of them.
use service_of_import.Prelude.{
  ℕ, zero, suc, ◌<◌, Text, ◌≡◌, refl, subst⁻¹, some, List, [], ◌∷◌, arith, length, get_elem?, All,
}
use service_of_import.Csv.Issue.{Columns, required_columns, column_list}
use service_of_import.Csv.Header.{occurrences, validate_header}
use service_of_import.Csv.Header.Once.{validate_header-nil, index_of-found}
use service_of_import.Csv.Row.{row_values}
use service_of_import.Csv.Stream.{column_indexes}

-- Every column index is an index of the header.
pub record InRange (n : ℕ) (c : Columns ℕ) : Type 0 where
  pub warehouse_code : c.warehouse_code < n
  pub warehouse_name : c.warehouse_name < n
  pub sku : c.sku < n
  pub product_name : c.product_name < n
  pub quantity : c.quantity < n

get_elem?-found {ℓ} :
    {A : Type ℓ} (xs : List A) (i : ℕ) → i < length xs → (x : A) × (get_elem? xs i ≡ some x)
get_elem?-found [] i h = absurd (omega arith)
get_elem?-found (x ∷ xs) zero h = (x, refl)
get_elem?-found (x ∷ xs) (suc i) h = get_elem?-found xs i (omega arith)

lt-length_of_found {ℓ} :
    {A : Type ℓ} (xs : List A) (i : ℕ) (x : A) → get_elem? xs i ≡ some x → i < length xs
lt-length_of_found [] i x h = cc
lt-length_of_found (y ∷ xs) zero x h = omega arith
lt-length_of_found (y ∷ xs) (suc i) x h = omega (arith, lt-length_of_found xs i x h)

row_values-found :
    (row : List Text) (c : Columns ℕ)
    → InRange (length row) c
    → (v : Columns Text) × (row_values row c ≡ some v)
unfolding row_values
row_values-found row c r =
    let (a, pa) = get_elem?-found row c.warehouse_code r.warehouse_code in
    let (b, pb) = get_elem?-found row c.warehouse_name r.warehouse_name in
    let (d, pd) = get_elem?-found row c.sku r.sku in
    let (e, pe) = get_elem?-found row c.product_name r.product_name in
    let (f, pf) = get_elem?-found row c.quantity r.quantity in
    (
      record { warehouse_code = a; warehouse_name = b; sku = d; product_name = e; quantity = f },
      rw (pa, pb, pd, pe, pf),
    )

-- Each index is that of its column.
pub record IsNamed (header : List Text) (c : Columns ℕ) : Type 0 where
  pub warehouse_code : get_elem? header c.warehouse_code ≡ some required_columns.warehouse_code
  pub warehouse_name : get_elem? header c.warehouse_name ≡ some required_columns.warehouse_name
  pub sku : get_elem? header c.sku ≡ some required_columns.sku
  pub product_name : get_elem? header c.product_name ≡ some required_columns.product_name
  pub quantity : get_elem? header c.quantity ≡ some required_columns.quantity

IsNamed-InRange :
    (header : List Text) (c : Columns ℕ) → IsNamed header c → InRange (length header) c
IsNamed-InRange header c h = record {
  warehouse_code =
      lt-length_of_found header c.warehouse_code required_columns.warehouse_code h.warehouse_code;
  warehouse_name =
      lt-length_of_found header c.warehouse_name required_columns.warehouse_name h.warehouse_name;
  sku = lt-length_of_found header c.sku required_columns.sku h.sku;
  product_name =
      lt-length_of_found header c.product_name required_columns.product_name h.product_name;
  quantity = lt-length_of_found header c.quantity required_columns.quantity h.quantity;
}

column_indexes-IsNamed :
    (header : List Text)
    → All (λ c. occurrences c header ≡ 1) (column_list required_columns)
    → (c : Columns ℕ) × (column_indexes header ≡ some c) × IsNamed header c
unfolding column_indexes
column_indexes-IsNamed header (ha, (hb, (hd, (he, (hf, _))))) =
    let (a, pa, la) = index_of-found required_columns.warehouse_code header (omega arith) in
    let (b, pb, lb) = index_of-found required_columns.warehouse_name header (omega arith) in
    let (d, pd, ld) = index_of-found required_columns.sku header (omega arith) in
    let (e, pe, le) = index_of-found required_columns.product_name header (omega arith) in
    let (f, pf, lf) = index_of-found required_columns.quantity header (omega arith) in
    (
      record { warehouse_code = a; warehouse_name = b; sku = d; product_name = e; quantity = f },
      rw (pa, pb, pd, pe, pf),
      record {
        warehouse_code = la;
        warehouse_name = lb;
        sku = ld;
        product_name = le;
        quantity = lf;
      },
    )

-- When the header has no issue, every required column has an index, at which the header names that
-- column, and every row as long as the header has a value at all of these indexes; so no lookup by a
-- column's name or index fails.
pub column_indexes-row_values :
    (header row : List Text) (value_limit total_limit : ℕ)
    → validate_header header value_limit total_limit ≡ []
    → length row ≡ length header
    → (c : Columns ℕ) × (v : Columns Text) × (column_indexes header ≡ some c)
      × IsNamed header c
      × (row_values row c ≡ some v)
column_indexes-row_values header row l t clean same =
    let (c, found, named) = column_indexes-IsNamed header (validate_header-nil header l t clean) in
    let (v, values) =
      row_values-found row c (subst⁻¹ (λ n. InRange n c) same (IsNamed-InRange header c named)) in
    (c, v, found, named, values)
