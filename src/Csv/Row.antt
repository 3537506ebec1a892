-- ===== src/Csv/Row.antt =====
-- `_validate_row`: one data row against the header.
pub mod Accepted
pub mod Verdict
use service_of_import.Prelude.{
  ℕ, Text, codes, text_eq, Option, none, some, List, [], ◌∷◌, ◌++◌, map, ltb, ◌==◌, length,
  get_elem?, Bool, not, if◌then◌else◌,
}
use service_of_import.Errors.{Result, ok, raised, index_error, ◌>>=◌}
use service_of_import.Csv.Issue.{
  ValidatedRow, ValidationIssue, Scalar, str, RawDict, RawValue, scalar, list, IssueCode,
  invalid_column_count, required, invalid_quantity, quantity_negative, quantity_too_large, Columns,
  collect_columns, required_columns, postgres_bigint_max,
}
use service_of_import.Csv.RawData.{bounded_raw_data}
use service_of_import.Csv.Quantity.{ℤ, pos, negsuc, strip, is_integer, int_of}

-- `{name: row[index] for name, index in column_indexes.items()}`
unfoldable pub row_values : List Text → Columns ℕ → Option (Columns Text)
unfolding collect_columns
row_values row i =
    collect_columns (get_elem? row i.warehouse_code) (get_elem? row i.warehouse_name)
      (get_elem? row i.sku) (get_elem? row i.product_name) (get_elem? row i.quantity)

-- `{name: value.strip() for name, value in raw_values.items()}`
unfoldable pub strip_values : Columns Text → Columns Text
strip_values c = record {
  warehouse_code = strip c.warehouse_code;
  warehouse_name = strip c.warehouse_name;
  sku = strip c.sku;
  product_name = strip c.product_name;
  quantity = strip c.quantity;
}

-- `dict(raw_values)`
unfoldable pub raw_dict : Columns Text → RawDict
raw_dict c =
    (required_columns.warehouse_code, scalar (str c.warehouse_code))
    ∷ (required_columns.warehouse_name, scalar (str c.warehouse_name))
    ∷ (required_columns.sku, scalar (str c.sku))
    ∷ (required_columns.product_name, scalar (str c.product_name))
    ∷ (required_columns.quantity, scalar (str c.quantity))
    ∷ []

unfoldable pub row_issue : ℕ → Option Text → IssueCode → Text → RawDict → ValidationIssue
row_issue line_number field_name code message raw_data = record {
  line_number = some line_number;
  field_name = field_name;
  code = code;
  message = message;
  raw_data = some raw_data;
}

-- One round of the loop over the four text fields.
unfoldable pub required_field : ℕ → RawDict → Text → Text → List ValidationIssue
required_field line_number raw_data field_name [] =
    row_issue line_number (some field_name) required
      (codes "Field '" ++ field_name ++ codes "' must not be empty") raw_data
    ∷ []
required_field line_number raw_data field_name (c ∷ s) = []

unfoldable pub required_fields : ℕ → RawDict → Columns Text → List ValidationIssue
unfolding required_field
required_fields line_number raw_data values =
    required_field line_number raw_data required_columns.warehouse_code values.warehouse_code
    ++ (required_field line_number raw_data required_columns.warehouse_name values.warehouse_name
        ++ (required_field line_number raw_data required_columns.sku values.sku
            ++ required_field line_number raw_data required_columns.product_name
                values.product_name))

unfoldable pub quantity_issue : ℕ → RawDict → IssueCode → Text → ValidationIssue
quantity_issue line_number raw_data code message =
    row_issue line_number (some required_columns.quantity) code message raw_data

-- The tests on the converted number.
unfoldable pub quantity_range : ℕ → RawDict → ℤ → List ValidationIssue
quantity_range line_number raw_data (negsuc n) =
    quantity_issue line_number raw_data quantity_negative
      (codes "Quantity must be greater than or equal to zero")
    ∷ []
quantity_range line_number raw_data (pos n) =
    if ltb postgres_bigint_max n
    then quantity_issue line_number raw_data quantity_too_large
        (codes "Quantity exceeds the PostgreSQL BIGINT range")
      ∷ []
    else []

-- The issues of the quantity, and the number, if the text is one.
unfoldable pub check_quantity : ℕ → RawDict → Text → Result (List ValidationIssue × Option ℤ)
unfolding quantity_range
check_quantity line_number raw_data s =
    if is_integer s
    then (do quantity ← int_of s; ok (quantity_range line_number raw_data quantity, some quantity))
    else ok (
      quantity_issue line_number raw_data invalid_quantity
            (codes "Quantity must be a decimal integer")
          ∷ [],
      none,
    )

abbrev pub magnitude : ℤ → ℕ
magnitude (pos n) = n
magnitude (negsuc n) = 0

-- `if issues or quantity is None: return issues, None`, and the row otherwise.
unfoldable pub finish_row :
    ℕ → Columns Text → List ValidationIssue → Option ℤ → List ValidationIssue × Option ValidatedRow
finish_row line_number values (i ∷ issues) quantity = (i ∷ issues, none)
finish_row line_number values [] none = ([], none)
finish_row line_number values [] (some quantity) = (
  [],
  some (record {
    line_number = line_number;
    warehouse_code = values.warehouse_code;
    warehouse_name = values.warehouse_name;
    sku = values.sku;
    product_name = values.product_name;
    quantity = magnitude quantity;
  }),
)

-- The part of `_validate_row` behind the column count.
unfoldable pub validate_values :
    ℕ → Columns Text → RawDict → Result (List ValidationIssue × Option ValidatedRow)
unfolding required_fields check_quantity finish_row
validate_values line_number values raw_data = do
  (issues, quantity) ← check_quantity line_number raw_data values.quantity
  ok (
      finish_row line_number values (required_fields line_number raw_data values ++ issues)
        quantity)

unfoldable pub validate_row :
    List Text
    → List Text
    → Columns ℕ
    → ℕ
    → ℕ
    → ℕ
    → Result (List ValidationIssue × Option ValidatedRow)
validate_row row header column_indexes line_number value_limit total_limit =
    if length row == length header
    then elim (row_values row column_indexes) [
      | none ↦ raised index_error
      | some raw_values ↦
          validate_values line_number (strip_values raw_values)
            (bounded_raw_data (raw_dict raw_values) value_limit total_limit)
    ]
    else ok (
      row_issue line_number none invalid_column_count
            (codes "CSV row has a different number of fields than the header")
            (bounded_raw_data ((codes "values", list (map str row)) ∷ []) value_limit total_limit)
          ∷ [],
      none,
    )
