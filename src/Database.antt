-- ===== src/Database.antt =====
-- app/models.py: the tables as lists of rows, whose order carries no meaning, and the identity
-- sequences. Texts are lists of code points and instants are numbers. A warehouse and a product have
-- the same columns under two names: `key` is the code of a warehouse and the SKU of a product. The
-- columns `id` and `created_at` of report_errors are left out: only list_errors reads the id.
use service_of_import.Prelude.{ℕ, Text, Option, List}
use service_of_import.Csv.Issue.{IssueCode, RawDict}

pub data Status : Type 0 where
  pending processing completed failed : Status

pub data FailureKind : Type 0 where
  validation processing_failure : FailureKind

pub record Report : Type 0 where
  pub id : ℕ
  pub status : Status
  pub original_filename : Text
  pub object_bucket : Text
  pub object_key : Text
  pub size_bytes : ℕ
  pub checksum_sha256 : Option Text
  pub created_at : ℕ
  pub processing_started_at : Option ℕ
  pub finished_at : Option ℕ
  pub row_count : ℕ
  pub error_count : ℕ
  pub stocks_created : ℕ
  pub stocks_updated : ℕ
  pub stocks_zeroed : ℕ
  pub failure_kind : Option FailureKind
  pub failure_message : Option Text

pub record CatalogueRow : Type 0 where
  pub id : ℕ
  pub key : Text
  pub name : Text
  pub created_at : ℕ
  pub updated_at : ℕ

pub record StockBalance : Type 0 where
  pub warehouse_id : ℕ
  pub product_id : ℕ
  pub quantity : ℕ
  pub created_at : ℕ
  pub updated_at : ℕ

pub record ReportStagingRow : Type 0 where
  pub report_id : ℕ
  pub line_number : ℕ
  pub warehouse_code : Text
  pub warehouse_name : Text
  pub sku : Text
  pub product_name : Text
  pub quantity : ℕ

-- The columns that the code writes; the database gives each row an id and an instant besides.
pub record ReportError : Type 0 where
  pub report_id : ℕ
  pub line_number : Option ℕ
  pub field_name : Option Text
  pub code : IssueCode
  pub message : Text
  pub raw_data : Option RawDict

-- A catalogue with the next value of its identity sequence.
pub record Catalogue : Type 0 where
  pub rows : List CatalogueRow
  pub next_id : ℕ

pub record Db : Type 0 where
  pub reports : List Report
  pub warehouses : Catalogue
  pub products : Catalogue
  pub stock_balances : List StockBalance
  pub staging_rows : List ReportStagingRow
  pub report_errors : List ReportError
