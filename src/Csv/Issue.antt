-- ===== src/Csv/Issue.antt =====
-- The data of app/services/csv_validation.py: validated rows, validation issues with their raw data,
-- and the required columns. `raw_data` is a dict of texts, lists, numbers and flags, in insertion
-- order. Issue codes are the strings of the source, as constructors.
use service_of_import.Prelude.{
  ℕ, ◌^◌, ◌-◌, Text, codes, text_eq, Bool, Option, none, some, List, [], ◌∷◌, if◌then◌else◌,
}

-- An atomic value of `raw_data`.
pub data Scalar : Type 0 where
  str : Text → Scalar
  int : ℕ → Scalar
  flag : Bool → Scalar

pub data RawValue : Type 0 where
  scalar : Scalar → RawValue
  list : List Scalar → RawValue

abbrev pub RawDict : Type 0
RawDict = List (Text × RawValue)

-- `d[key] = value`: a present key keeps its place, a new one comes last.
unfoldable pub set_key : RawDict → Text → RawValue → RawDict
set_key [] k v = (k, v) ∷ []
set_key ((j, w) ∷ d) k v = if text_eq j k then (j, v) ∷ d else (j, w) ∷ set_key d k v

pub data IssueCode : Type 0 where
  missing_header no_data_rows missing_required_column duplicate_required_column : IssueCode
  invalid_column_count required invalid_quantity quantity_negative quantity_too_large : IssueCode
  invalid_utf8 malformed_csv csv_field_too_large csv_record_too_large : IssueCode
  duplicate_warehouse_sku processing_error apply_error : IssueCode

pub record ValidatedRow : Type 0 where
  pub line_number : ℕ
  pub warehouse_code : Text
  pub warehouse_name : Text
  pub sku : Text
  pub product_name : Text
  pub quantity : ℕ

pub record ValidationIssue : Type 0 where
  pub line_number : Option ℕ
  pub field_name : Option Text
  pub code : IssueCode
  pub message : Text
  pub raw_data : Option RawDict

pub record CsvValidationSummary : Type 0 where
  pub row_count : ℕ
  pub reached_eof : Bool

pub record LogicalCsvRecord : Type 0 where
  pub text : Text
  pub char_count : ℕ
  pub truncated : Bool

-- A dict whose keys are exactly the required columns.
pub record Columns {ℓ} (A : Type ℓ) : Type ℓ where
  pub warehouse_code : A
  pub warehouse_name : A
  pub sku : A
  pub product_name : A
  pub quantity : A

unfoldable pub required_columns : Columns Text
required_columns = record {
  warehouse_code = codes "warehouse_code";
  warehouse_name = codes "warehouse_name";
  sku = codes "sku";
  product_name = codes "product_name";
  quantity = codes "quantity";
}

abbrev pub column_list {ℓ} : {A : Type ℓ} → Columns A → List A
column_list c = c.warehouse_code ∷ c.warehouse_name ∷ c.sku ∷ c.product_name ∷ c.quantity ∷ []

unfoldable pub postgres_bigint_max : ℕ
postgres_bigint_max = 2 ^ 63 - 1

-- A dict comprehension over the columns whose values may be missing.
unfoldable pub collect_columns {ℓ} :
    {A : Type ℓ} → Option A → Option A → Option A → Option A → Option A → Option (Columns A)
collect_columns (some a) (some b) (some c) (some d) (some e) =
    some
      (record { warehouse_code = a; warehouse_name = b; sku = c; product_name = d; quantity = e })
collect_columns _ _ _ _ _ = none
