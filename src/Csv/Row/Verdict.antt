-- ===== src/Csv/Row/Verdict.antt =====
-- How `_validate_row` ends: with issues or with a row, never with both or neither, or by the
-- ValueError of `int` on a number of more digits than Python converts.
use service_of_import.Prelude.{
  ℕ, ◌<◌, Text, ◌≡◌, ◌≢◌, ◌↔◌, ◌⊎◌, refl, true, false, sym, ◌∙◌, Option, none, some, List, [], ◌∷◌,
  ◌++◌, length, arith, Option-cases, codes, Bool-cases, inl, inr, ◌==◌,
}
use service_of_import.Errors.{Result, ok, raised, Exn, value_error}
use service_of_import.Csv.Issue.{ValidatedRow, ValidationIssue, RawDict, Columns, invalid_quantity}
use service_of_import.Csv.RawData.{bounded_raw_data}
use service_of_import.Csv.Quantity.{ℤ, is_integer, int_of, int_max_str_digits, unsigned, strip}
use service_of_import.Csv.Row.{
  row_values, strip_values, raw_dict, required_fields, check_quantity, quantity_range,
  quantity_issue, finish_row, validate_values, validate_row,
}

-- Either no issue and a row, or an issue and no row.
abbrev pub IsVerdict : List ValidationIssue × Option ValidatedRow → Type 0
IsVerdict (issues, r) =
    ((issues ≡ []) × ((v : ValidatedRow) × (r ≡ some v))) ⊎ ((issues ≢ []) × (r ≡ none))

finish_row-IsVerdict :
    (n : ℕ) (values : Columns Text) (i : ValidationIssue) (issues : List ValidationIssue)
    (q : Option ℤ)
    → IsVerdict (finish_row n values (i ∷ issues) q)
unfolding finish_row
finish_row-IsVerdict n values i issues q = inr ((λ e. cc), refl)

finish_row_number :
    (n : ℕ) (values : Columns Text) (issues : List ValidationIssue) (q : ℤ)
    → IsVerdict (finish_row n values issues (some q))
unfolding finish_row
finish_row_number n values [] q = inl (refl, (_, refl))
finish_row_number n values (i ∷ issues) q = inr ((λ e. cc), refl)

finish_row_no_number :
    (n : ℕ) (values : Columns Text) (given : List ValidationIssue) (i : ValidationIssue)
    → IsVerdict (finish_row n values (given ++ i ∷ []) none)
unfolding finish_row
finish_row_no_number n values [] i = inr ((λ e. cc), refl)
finish_row_no_number n values (g ∷ given) i = inr ((λ e. cc), refl)

ok-injective {ℓ} : {A : Type ℓ} (a b : A) → ok a ≡ ok b → a ≡ b
ok-injective a b h = cc

module _ (n : ℕ) (values : Columns Text) (d : RawDict) where
  -- The three ways through the quantity.
  pub values_number :
      (q : ℤ)
      → is_integer values.quantity ≡ true
      → int_of values.quantity ≡ ok q
      → validate_values n values d
        ≡ ok (finish_row n values (required_fields n d values ++ quantity_range n d q) (some q))
  unfolding validate_values check_quantity
  values_number q num at = rw (num, at)

  pub values_raise :
      (e : Exn)
      → is_integer values.quantity ≡ true
      → int_of values.quantity ≡ raised e
      → validate_values n values d ≡ raised e
  unfolding validate_values check_quantity
  values_raise e num at = rw (num, at)

  abbrev pub not_a_number : ValidationIssue
  not_a_number = quantity_issue n d invalid_quantity (codes "Quantity must be a decimal integer")

  pub values_no_number :
      is_integer values.quantity ≡ false
      → validate_values n values d
        ≡ ok (finish_row n values (required_fields n d values ++ not_a_number ∷ []) none)
  unfolding validate_values check_quantity
  values_no_number num = rw num

  converted :
      (c : Result ℤ) (v : List ValidationIssue × Option ValidatedRow)
      → int_of values.quantity ≡ c
      → is_integer values.quantity ≡ true
      → validate_values n values d ≡ ok v
      → IsVerdict v
  converted (raised e) v at num h = absurd (ground (arith, values_raise e num at))
  converted (ok q) v at num h =
      rw (ok-injective _ _ (sym h ∙ values_number q num at)) (finish_row_number n values _ q)

  values-IsVerdict :
      (v : List ValidationIssue × Option ValidatedRow)
      → validate_values n values d ≡ ok v
      → IsVerdict v
  values-IsVerdict v h = elim (Bool-cases (is_integer values.quantity)) [
    | inl num ↦ converted (int_of values.quantity) v refl num h
    | inr num ↦
        rw (ok-injective _ _ (sym h ∙ values_no_number num))
          (finish_row_no_number n values (required_fields n d values) not_a_number)
  ]

-- The conversion fails on more than 4300 digits, signs not counted, and only then.
int_of_raises :
    (s : Text) → (int_of s ≡ raised value_error) ↔ (int_max_str_digits < length (unsigned s))
unfolding int_of
int_of_raises s = ground arith

values_raise_only :
    (n : ℕ) (values : Columns Text) (d : RawDict) (c : Result ℤ)
    → int_of values.quantity ≡ c
    → validate_values n values d ≡ raised value_error
    → (is_integer values.quantity ≡ true) × (int_max_str_digits < length (unsigned values.quantity))
values_raise_only n values d c at h = elim (Bool-cases (is_integer values.quantity)) [
  | inr num ↦ absurd (ground (arith, values_no_number n values d num))
  | inl num ↦
      elim c as (λ x. int_of values.quantity ≡ x → _) [
        | ok q ↦ λ e. absurd (ground (arith, values_number n values d q num e))
        | raised x ↦ λ e. (
          num,
          (int_of_raises values.quantity).0 (ground (arith, values_raise n values d x num e)),
        )
      ]
        at
]

module _ (row header : List Text) (columns : Columns ℕ) (n value_limit total_limit : ℕ) where
  -- When `_validate_row` returns, it returns either no issue and a row or at least one issue and no
  -- row.
  pub validate_row-IsVerdict :
      (v : List ValidationIssue × Option ValidatedRow)
      → validate_row row header columns n value_limit total_limit ≡ ok v
      → IsVerdict v
  unfolding validate_row
  validate_row-IsVerdict v h = elim (Bool-cases (length row == length header)) [
    | inl e ↦ elim (Option-cases (row_values row columns)) [
      | inl missing ↦ absurd (ground arith)
      | inr (raw, at) ↦
          values-IsVerdict n (strip_values raw)
            (bounded_raw_data (raw_dict raw) value_limit total_limit) v (ground arith)
    ]
    | inr e ↦ rw (← ok-injective _ _ (rw e at h)) (inr ((λ e. cc), refl))
  ]

  -- A row that has the required columns makes `_validate_row` raise, instead of reporting an issue,
  -- exactly when it has as many fields as the header and its stripped quantity is an optional sign
  -- followed by more than 4300 decimal digits; what it raises is Python's ValueError.
  pub validate_row_raises_iff :
      (raw : Columns Text)
      → row_values row columns ≡ some raw
      → (validate_row row header columns n value_limit total_limit ≡ raised value_error) ↔ (
          (length row ≡ length header)
          × (is_integer (strip raw.quantity) ≡ true)
          × (int_max_str_digits < length (unsigned (strip raw.quantity))))
  unfolding validate_row strip_values
  validate_row_raises_iff raw at = (raises, rejected)
    where
      d : RawDict
      d = bounded_raw_data (raw_dict raw) value_limit total_limit

      values : Columns Text
      values = strip_values raw

      raises :
          validate_row row header columns n value_limit total_limit ≡ raised value_error
          → (length row ≡ length header)
            × (is_integer (strip raw.quantity) ≡ true)
            × (int_max_str_digits < length (unsigned (strip raw.quantity)))
      raises h = elim (Bool-cases (length row == length header)) [
        | inl e ↦
            let (num, long) =
              values_raise_only n values d (int_of values.quantity) refl (ground arith) in
            (ground arith, num, long)
        | inr e ↦ absurd (ground arith)
      ]

      rejected :
          (length row ≡ length header)
            × (is_integer (strip raw.quantity) ≡ true)
            × (int_max_str_digits < length (unsigned (strip raw.quantity)))
          → validate_row row header columns n value_limit total_limit ≡ raised value_error
      rejected (len, num, long) =
          ground (
            arith,
            values_raise n values d value_error num ((int_of_raises values.quantity).1 long),
          )
