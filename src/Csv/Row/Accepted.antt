-- ===== src/Csv/Row/Accepted.antt =====
-- Which rows `_validate_row` accepts, rejects, and fails on.
use service_of_import.Prelude.{
  ℕ, ◌≤◌, Text, ◌≡◌, ◌≢◌, ◌↔◌, refl, true, Option, none, some, List, [], ◌∷◌, ◌++◌, length, arith,
  Bool-cases, inl, inr, ◌==◌,
}
use service_of_import.Errors.{Result, ok, raised, ◌>>=◌}
use service_of_import.Csv.Issue.{
  ValidatedRow, ValidationIssue, RawDict, Columns, postgres_bigint_max,
}
use service_of_import.Csv.RawData.{bounded_raw_data}
use service_of_import.Csv.Quantity.{ℤ, pos, negsuc, is_integer, int_of}
use service_of_import.Csv.Row.{
  row_values, strip_values, raw_dict, required_field, required_fields, check_quantity,
  quantity_range, finish_row, validate_values, validate_row,
}

-- What the docs ask of a row: the codes and names are not empty, and the quantity is a decimal
-- integer from 0 to the largest BIGINT; and the row that is stored for it.
pub record IsAccepted (line_number : ℕ) (values : Columns Text) (r : ValidatedRow) : Type 0 where
  pub warehouse_code_given : values.warehouse_code ≢ []
  pub warehouse_name_given : values.warehouse_name ≢ []
  pub sku_given : values.sku ≢ []
  pub product_name_given : values.product_name ≢ []
  pub is_number : is_integer values.quantity ≡ true
  pub number : int_of values.quantity ≡ ok (pos r.quantity)
  pub in_range : r.quantity ≤ postgres_bigint_max
  pub line : r.line_number ≡ line_number
  pub warehouse_code : r.warehouse_code ≡ values.warehouse_code
  pub warehouse_name : r.warehouse_name ≡ values.warehouse_name
  pub sku : r.sku ≡ values.sku
  pub product_name : r.product_name ≡ values.product_name

required_field-nil :
    (n : ℕ) (d : RawDict) (name value : Text) → required_field n d name value ≡ [] → value ≢ []
unfolding required_field
required_field-nil n d name [] h e = cc
required_field-nil n d name (c ∷ s) h e = cc

required_field_given :
    (n : ℕ) (d : RawDict) (name value : Text) → value ≢ [] → required_field n d name value ≡ []
unfolding required_field
required_field_given n d name [] h = absurd (h refl)
required_field_given n d name (c ∷ s) h = refl

append-eq_nil {ℓ} : {A : Type ℓ} (xs ys : List A) → xs ++ ys ≡ [] → (xs ≡ []) × (ys ≡ [])
append-eq_nil [] ys h = (refl, h)
append-eq_nil (x ∷ xs) ys h = cc

finish_row-some :
    (n : ℕ) (values : Columns Text) (issues out : List ValidationIssue) (q : Option ℤ)
    (r : ValidatedRow)
    → finish_row n values issues q ≡ (out, some r)
    → (issues ≡ []) × (out ≡ [])
unfolding finish_row
finish_row-some n values [] out none r h = ground arith
finish_row-some n values [] out (some q) r h = ground arith
finish_row-some n values (i ∷ issues) out q r h = ground arith

required_fields-nil :
    (n : ℕ) (d : RawDict) (v : Columns Text)
    → required_fields n d v ≡ []
    → (v.warehouse_code ≢ []) × (v.warehouse_name ≢ []) × (v.sku ≢ []) × (v.product_name ≢ [])
unfolding required_fields
required_fields-nil n d v h =
    let (a, h') = append-eq_nil _ _ h in
    let (b, h'') = append-eq_nil _ _ h' in
    let (c, e) = append-eq_nil _ _ h'' in
    (
      required_field-nil n d _ v.warehouse_code a,
      required_field-nil n d _ v.warehouse_name b,
      required_field-nil n d _ v.sku c,
      required_field-nil n d _ v.product_name e,
    )

quantity_range-nil :
    (n : ℕ) (d : RawDict) (q : ℤ)
    → quantity_range n d q ≡ []
    → (m : ℕ) × (q ≡ pos m) × (m ≤ postgres_bigint_max)
unfolding quantity_range
quantity_range-nil n d (pos m) h = (m, refl, ground arith)
quantity_range-nil n d (negsuc m) h = cc

module _ (n : ℕ) (d : RawDict) (s : Text) where
  -- The conversion, split by its outcome.
  after_conversion :
      (c : Result ℤ) (q : Option ℤ)
      → int_of s ≡ c
      → ◌>>=◌ {B = List ValidationIssue × Option ℤ} c (λ v. ok (quantity_range n d v, some v))
        ≡ ok ([], q)
      → (m : ℕ) × (int_of s ≡ ok (pos m)) × (m ≤ postgres_bigint_max) × (q ≡ some (pos m))
  after_conversion (raised e) q at h = cc
  after_conversion (ok v) q at h =
      let (m, e, le) = quantity_range-nil n d v (ground arith) in
      (m, rw at (rw e), le, ground arith)

  check_quantity-nil :
      (q : Option ℤ)
      → check_quantity n d s ≡ ok ([], q)
      → (is_integer s ≡ true)
        × (m : ℕ) × (int_of s ≡ ok (pos m))
        × (m ≤ postgres_bigint_max)
        × (q ≡ some (pos m))
  unfolding check_quantity
  check_quantity-nil q h = elim (Bool-cases (is_integer s)) [
    | inl e ↦
        let (m, value, le, same) = after_conversion (int_of s) q refl (ground arith) in
        (e, m, value, le, same)
    | inr e ↦ absurd (ground arith)
  ]

finish_row-accepted :
    (n m : ℕ) (values : Columns Text) (out : List ValidationIssue) (r : ValidatedRow)
    → finish_row n values [] (some (pos m)) ≡ (out, some r)
    → r ≡ record {
      line_number = n;
      warehouse_code = values.warehouse_code;
      warehouse_name = values.warehouse_name;
      sku = values.sku;
      product_name = values.product_name;
      quantity = m;
    }
unfolding finish_row
finish_row-accepted n m values out r h = ground arith

module _ (n : ℕ) (values : Columns Text) (d : RawDict) where
  accepts_from :
      (out issues : List ValidationIssue) (q : Option ℤ) (r : ValidatedRow)
      → check_quantity n d values.quantity ≡ ok (issues, q)
      → finish_row n values (required_fields n d values ++ issues) q ≡ (out, some r)
      → IsAccepted n values r × (out ≡ [])
  accepts_from out issues q r check h =
      let (none_at_all, clean) = finish_row-some n values _ out q r h in
      let (given, right) = append-eq_nil (required_fields n d values) issues none_at_all in
      let (c, w, s, p) = required_fields-nil n d values given in
      let (number, m, value, le, some_q) =
        check_quantity-nil n d values.quantity q (rw (← right) check) in
      let same = finish_row-accepted n m values out r (rw (← some_q, ← none_at_all) h) in
      (
        rw same (record {
          warehouse_code_given = c;
          warehouse_name_given = w;
          sku_given = s;
          product_name_given = p;
          is_number = number;
          number = value;
          in_range = le;
          line = refl;
          warehouse_code = refl;
          warehouse_name = refl;
          sku = refl;
          product_name = refl;
        }),
        clean,
      )

  from_check :
      (c : Result (List ValidationIssue × Option ℤ)) (out : List ValidationIssue) (r : ValidatedRow)
      → check_quantity n d values.quantity ≡ c
      → ◌>>=◌ {B = List ValidationIssue × Option ValidatedRow} c
          (λ x. ok (finish_row n values (required_fields n d values ++ x.0) x.1))
        ≡ ok (out, some r)
      → IsAccepted n values r × (out ≡ [])
  from_check (raised e) out r at h = cc
  from_check (ok (issues, q)) out r at h = accepts_from out issues q r at (ground arith)

  validate_values-accepts :
      (out : List ValidationIssue) (r : ValidatedRow)
      → validate_values n values d ≡ ok (out, some r)
      → IsAccepted n values r × (out ≡ [])
  unfolding validate_values
  validate_values-accepts out r h = from_check (check_quantity n d values.quantity) out r refl h

  required_fields_given :
      values.warehouse_code ≢ []
      → values.warehouse_name ≢ []
      → values.sku ≢ []
      → values.product_name ≢ []
      → required_fields n d values ≡ []
  unfolding required_fields
  required_fields_given c w s p = rw (
    required_field_given n d _ values.warehouse_code c,
    required_field_given n d _ values.warehouse_name w,
    required_field_given n d _ values.sku s,
    required_field_given n d _ values.product_name p,
  )

  check_quantity_accepted :
      (m : ℕ)
      → is_integer values.quantity ≡ true
      → int_of values.quantity ≡ ok (pos m)
      → m ≤ postgres_bigint_max
      → check_quantity n d values.quantity ≡ ok ([], some (pos m))
  unfolding check_quantity quantity_range
  check_quantity_accepted m a b le = rw (a, b) (ground arith)

  validate_values_complete :
      (r : ValidatedRow) → IsAccepted n values r → validate_values n values d ≡ ok ([], some r)
  unfolding validate_values
  validate_values_complete r a =
      rw
        (
          check_quantity_accepted r.quantity a.is_number a.number a.in_range,
          required_fields_given a.warehouse_code_given a.warehouse_name_given a.sku_given
              a.product_name_given,
        )
        (unfold finish_row in ground arith)

module _ (row header : List Text) (columns : Columns ℕ) (n value_limit total_limit : ℕ) where
  IsAccepted-from :
      (o : Option (Columns Text)) (out : List ValidationIssue) (r : ValidatedRow)
      → row_values row columns ≡ o
      → validate_row row header columns n value_limit total_limit ≡ ok (out, some r)
      → (out ≡ [])
        × (length row ≡ length header)
        × (raw : Columns Text) × (row_values row columns ≡ some raw)
        × IsAccepted n (strip_values raw) r
  unfolding validate_row
  IsAccepted-from none out r at h = absurd (ground arith)
  IsAccepted-from (some raw) out r at h = elim (Bool-cases (length row == length header)) [
    | inl e ↦
        let (a, clean) =
          validate_values-accepts n (strip_values raw)
            (bounded_raw_data (raw_dict raw) value_limit total_limit) out r (ground arith) in
        (clean, ground arith, raw, at, a)
    | inr e ↦ absurd (ground arith)
  ]

  pub validate_row-IsAccepted :
      (out : List ValidationIssue) (r : ValidatedRow)
      → validate_row row header columns n value_limit total_limit ≡ ok (out, some r)
      → (raw : Columns Text) × IsAccepted n (strip_values raw) r
  validate_row-IsAccepted out r h =
      let (_, _, raw, _, a) = IsAccepted-from (row_values row columns) out r refl h in (raw, a)

  -- A row is stored, and without an issue, exactly when it has as many fields as the header, its four
  -- text fields are not empty once stripped, and its stripped quantity is a decimal integer that
  -- Python converts to a number from 0 to 2 ^ 63 - 1; the stored row has the record number, the
  -- stripped texts and that number.
  pub validate_row_accepts_iff :
      (r : ValidatedRow)
      → (validate_row row header columns n value_limit total_limit ≡ ok ([], some r)) ↔ (
          (length row ≡ length header)
          × (raw : Columns Text) × (row_values row columns ≡ some raw)
          × IsAccepted n (strip_values raw) r)
  validate_row_accepts_iff r = (accepts, complete)
    where
      accepts :
          validate_row row header columns n value_limit total_limit ≡ ok ([], some r)
          → (length row ≡ length header)
            × (raw : Columns Text) × (row_values row columns ≡ some raw)
            × IsAccepted n (strip_values raw) r
      accepts h =
          let (_, len, raw, at, a) = IsAccepted-from (row_values row columns) [] r refl h in
          (len, raw, at, a)

      complete :
          (length row ≡ length header)
            × (raw : Columns Text) × (row_values row columns ≡ some raw)
            × IsAccepted n (strip_values raw) r
          → validate_row row header columns n value_limit total_limit ≡ ok ([], some r)
      complete (len, raw, at, a) =
          let done =
            validate_values_complete n (strip_values raw)
              (bounded_raw_data (raw_dict raw) value_limit total_limit) r a in
          unfold validate_row in ground arith
