-- ===== src/Migrations.antt =====
-- alembic/versions: the revisions, as functions on schemas. `Operations` has what Alembic and
-- PostgreSQL do for them.
pub mod Operations
pub mod Roundtrip
pub mod Checksum
pub mod Tests
use service_of_import.Prelude.{
  ℕ, Text, codes, Bool, true, false, Option, none, some, List, [], ◌∷◌, if◌then◌else◌,
}
use service_of_import.Errors.{Result, ok, ◌>>=◌}
use service_of_import.Migrations.Operations.{
  ColumnType, big_integer, text, jsonb, string, timestamp, Default, now, zero_text, Column,
  Constraint, check, primary_key, unique, foreign_key, Table, Index, Schema, create_table,
  create_index, drop_index, drop_table, add_column, drop_column, create_check_constraint,
  drop_constraint,
}

-- `sa.Column(name, type, nullable=...)`
abbrev pub column : Text → ColumnType → Bool → Column
column name type nullable = record {
  name = name;
  type = type;
  identity = false;
  server_default = none;
  nullable = nullable;
}

-- `sa.Column("id", sa.BigInteger(), sa.Identity(), nullable=False)`
abbrev pub id_column : Column
id_column = record (column (codes "id") big_integer false) { identity = true }

-- `sa.Column(name, sa.DateTime(timezone=True), server_default=sa.text("now()"), nullable=False)`
abbrev pub instant : Text → Column
instant name = record (column name timestamp false) { server_default = some now }

-- `sa.Column(name, sa.BigInteger(), server_default=sa.text("0"), nullable=False)`
abbrev pub counter : Text → Column
counter name = record (column name big_integer false) { server_default = some zero_text }

abbrev pub reports_table : Table
reports_table = record {
  name = codes "reports";
  columns =
      id_column
      ∷ column (codes "status") (string 20) false
      ∷ column (codes "original_filename") text false
      ∷ column (codes "object_bucket") text false
      ∷ column (codes "object_key") text false
      ∷ column (codes "size_bytes") big_integer false
      ∷ instant (codes "created_at")
      ∷ column (codes "processing_started_at") timestamp true
      ∷ column (codes "finished_at") timestamp true
      ∷ counter (codes "row_count")
      ∷ counter (codes "error_count")
      ∷ counter (codes "stocks_created")
      ∷ counter (codes "stocks_updated")
      ∷ counter (codes "stocks_zeroed")
      ∷ column (codes "failure_kind") (string 20) true
      ∷ column (codes "failure_message") text true
      ∷ [];
  constraints =
      check (codes "ck_reports_nonnegative_counters") (
        codes
          "row_count >= 0 AND error_count >= 0 AND stocks_created >= 0 AND stocks_updated >= 0 AND stocks_zeroed >= 0")
      ∷ check (codes "ck_reports_status_allowed")
          (codes "status IN ('pending', 'processing', 'completed', 'failed')")
      ∷ primary_key (codes "pk_reports") (codes "id" ∷ [])
      ∷ unique (codes "uq_reports_object_bucket_object_key")
          (codes "object_bucket" ∷ codes "object_key" ∷ [])
      ∷ [];
}

abbrev pub warehouses_table : Table
warehouses_table = record {
  name = codes "warehouses";
  columns =
      id_column
      ∷ column (codes "code") text false
      ∷ column (codes "name") text false
      ∷ instant (codes "created_at")
      ∷ instant (codes "updated_at")
      ∷ [];
  constraints =
      primary_key (codes "pk_warehouses") (codes "id" ∷ [])
      ∷ unique (codes "uq_warehouses_code") (codes "code" ∷ [])
      ∷ [];
}

abbrev pub products_table : Table
products_table = record {
  name = codes "products";
  columns =
      id_column
      ∷ column (codes "sku") text false
      ∷ column (codes "name") text false
      ∷ instant (codes "created_at")
      ∷ instant (codes "updated_at")
      ∷ [];
  constraints =
      primary_key (codes "pk_products") (codes "id" ∷ [])
      ∷ unique (codes "uq_products_sku") (codes "sku" ∷ [])
      ∷ [];
}

abbrev pub stock_balances_table : Table
stock_balances_table = record {
  name = codes "stock_balances";
  columns =
      column (codes "warehouse_id") big_integer false
      ∷ column (codes "product_id") big_integer false
      ∷ column (codes "quantity") big_integer false
      ∷ instant (codes "created_at")
      ∷ instant (codes "updated_at")
      ∷ [];
  constraints =
      check (codes "ck_stock_balances_quantity_nonnegative") (codes "quantity >= 0")
      ∷ foreign_key (codes "fk_stock_balances_product_id_products") (codes "product_id" ∷ [])
          (codes "products") (codes "id" ∷ []) false
      ∷ foreign_key (codes "fk_stock_balances_warehouse_id_warehouses") (codes "warehouse_id" ∷ [])
          (codes "warehouses") (codes "id" ∷ []) false
      ∷ primary_key (codes "pk_stock_balances") (codes "warehouse_id" ∷ codes "product_id" ∷ [])
      ∷ [];
}

abbrev pub report_staging_rows_table : Table
report_staging_rows_table = record {
  name = codes "report_staging_rows";
  columns =
      column (codes "report_id") big_integer false
      ∷ column (codes "line_number") big_integer false
      ∷ column (codes "warehouse_code") text false
      ∷ column (codes "warehouse_name") text false
      ∷ column (codes "sku") text false
      ∷ column (codes "product_name") text false
      ∷ column (codes "quantity") big_integer false
      ∷ [];
  constraints =
      check (codes "ck_report_staging_rows_quantity_nonnegative") (codes "quantity >= 0")
      ∷ foreign_key (codes "fk_report_staging_rows_report_id_reports") (codes "report_id" ∷ [])
          (codes "reports") (codes "id" ∷ []) true
      ∷ primary_key (codes "pk_report_staging_rows") (codes "report_id" ∷ codes "line_number" ∷ [])
      ∷ [];
}

abbrev pub report_errors_table : Table
report_errors_table = record {
  name = codes "report_errors";
  columns =
      id_column
      ∷ column (codes "report_id") big_integer false
      ∷ column (codes "line_number") big_integer true
      ∷ column (codes "field_name") text true
      ∷ column (codes "code") text false
      ∷ column (codes "message") text false
      ∷ column (codes "raw_data") jsonb true
      ∷ instant (codes "created_at")
      ∷ [];
  constraints =
      foreign_key (codes "fk_report_errors_report_id_reports") (codes "report_id" ∷ [])
        (codes "reports") (codes "id" ∷ []) true
      ∷ primary_key (codes "pk_report_errors") (codes "id" ∷ [])
      ∷ [];
}

abbrev pub created_desc_index : Index
created_desc_index = record {
  name = codes "ix_reports_created_desc";
  table = codes "reports";
  keys = codes "created_at DESC" ∷ codes "id DESC" ∷ [];
  condition = none;
}

abbrev pub queue_index : Index
queue_index = record {
  name = codes "ix_reports_queue";
  table = codes "reports";
  keys = codes "created_at" ∷ codes "id" ∷ [];
  condition = some (codes "status IN ('pending', 'processing')");
}

abbrev pub balances_index : Index
balances_index = record {
  name = codes "ix_stock_balances_product_id_warehouse_id";
  table = codes "stock_balances";
  keys = codes "product_id" ∷ codes "warehouse_id" ∷ [];
  condition = none;
}

abbrev pub staging_index : Index
staging_index = record {
  name = codes "ix_report_staging_rows_report_id_warehouse_code_sku";
  table = codes "report_staging_rows";
  keys = codes "report_id" ∷ codes "warehouse_code" ∷ codes "sku" ∷ [];
  condition = none;
}

abbrev pub errors_index : Index
errors_index = record {
  name = codes "ix_report_errors_report_id_line_number_id";
  table = codes "report_errors";
  keys = codes "report_id" ∷ codes "line_number" ∷ codes "id" ∷ [];
  condition = none;
}

-- `upgrade` of 0001_initial_schema
unfoldable pub create_initial : Schema → Result Schema
create_initial s = create_table reports_table s >>= λ s. create_index created_desc_index s >>= λ s.
    create_index queue_index s >>= λ s. create_table warehouses_table s >>= λ s.
    create_table products_table s >>= λ s. create_table stock_balances_table s >>= λ s.
    create_index balances_index s >>= λ s. create_table report_staging_rows_table s >>= λ s.
    create_index staging_index s >>= λ s.
    create_table report_errors_table s >>= λ s. create_index errors_index s

-- `downgrade` of 0001_initial_schema
unfoldable pub drop_initial : Schema → Result Schema
drop_initial s = drop_index (codes "ix_report_errors_report_id_line_number_id") s >>= λ s.
    drop_table (codes "report_errors") s >>= λ s.
    drop_index (codes "ix_report_staging_rows_report_id_warehouse_code_sku") s >>= λ s.
    drop_table (codes "report_staging_rows") s >>= λ s.
    drop_index (codes "ix_stock_balances_product_id_warehouse_id") s >>= λ s.
    drop_table (codes "stock_balances") s >>= λ s. drop_table (codes "products") s >>= λ s.
    drop_table (codes "warehouses") s >>= λ s. drop_index (codes "ix_reports_queue") s >>= λ s.
    drop_index (codes "ix_reports_created_desc") s >>= λ s. drop_table (codes "reports") s

-- `upgrade` of 0002_add_report_checksum
unfoldable pub add_checksum : Schema → Result Schema
add_checksum s =
    add_column (codes "reports") (column (codes "checksum_sha256") (string 64) true) s >>= λ s.
    create_check_constraint (codes "ck_reports_checksum_sha256_format") (codes "reports")
      (codes "checksum_sha256 ~ '^[0-9a-f]{64}$'") s

-- `downgrade` of 0002_add_report_checksum
unfoldable pub drop_checksum : Schema → Result Schema
drop_checksum s =
    drop_constraint (codes "ck_reports_checksum_sha256_format") (codes "reports") s >>= λ s.
    drop_column (codes "reports") (codes "checksum_sha256") s
