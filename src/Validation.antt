-- ===== src/Validation.antt =====
-- `ValidationBatchWriter` and `ReportValidator` of app/services/report_processing.py.
pub mod Writes
pub mod Ready
pub mod Duplicates
use service_of_import.Prelude.{
  ℕ, zero, suc, ◌+◌, ◌/◌, min, max, Text, codes, text_eq, Bool, true, false, ◌&&◌, ◌||◌, not,
  Option, none, some, List, [], ◌∷◌, ◌++◌, map, filter, any, take, length, ltb, leb, ◌==◌,
  if◌then◌else◌, is_some,
}
use service_of_import.Errors.{Exn, Result, ok, raised, validation_incomplete}
use service_of_import.Csv.Issue.{
  ValidatedRow, ValidationIssue, CsvValidationSummary, RawDict, scalar, str, int, flag,
  duplicate_warehouse_sku,
}
use service_of_import.Csv.Parse.{CsvLimits}
use service_of_import.Csv.Stream.{Event, valid_row, issues, Run, validate_csv_stream}
use service_of_import.Database.{
  Db, Report, Status, processing, failed, FailureKind, validation, ReportStagingRow, ReportError,
}
use service_of_import.Stocks.{staging_of}
use service_of_import.Apply.{update_report, is_processing}
use service_of_import.Steps.{
  Step, Outside, pure, raise, ◌>>=◌, ◌>>◌, assert_lock_alive, execute, transaction,
}

pub data Outcome : Type 0 where
  lock_not_acquired no_report validated validation_failed processing_failed : Outcome
  waiting_for_apply completed : Outcome

pub record ReportSource : Type 0 where
  pub id : ℕ
  pub object_bucket : Text
  pub object_key : Text

unfoldable pub staging_row : ℕ → ValidatedRow → ReportStagingRow
staging_row report_id r = record {
  report_id = report_id;
  line_number = r.line_number;
  warehouse_code = r.warehouse_code;
  warehouse_name = r.warehouse_name;
  sku = r.sku;
  product_name = r.product_name;
  quantity = r.quantity;
}

unfoldable pub error_row : ℕ → ValidationIssue → ReportError
error_row report_id i = record {
  report_id = report_id;
  line_number = i.line_number;
  field_name = i.field_name;
  code = i.code;
  message = i.message;
  raw_data = i.raw_data;
}

-- The two batches.
pub record Writer : Type 0 where
  pub staging_batch : List ReportStagingRow
  pub error_batch : List ReportError

abbrev pub new_writer : Writer
new_writer = record { staging_batch = []; error_batch = [] }

-- What PostgreSQL refuses, as U+0000 in a text, is a fault of the outside in place of the statement.
abbrev pub insert_staging : List ReportStagingRow → Db → Db
insert_staging batch db = record db { staging_rows = db.staging_rows ++ batch }

abbrev pub insert_errors : List ReportError → Db → Db
insert_errors batch db = record db { report_errors = db.report_errors ++ batch }

-- `_write_batch`, for the statement that inserts a batch.
unfoldable pub write_batch : Outside → (Db → Db) → Step (Unit {0})
write_batch out statement = do assert_lock_alive out; execute out (λ now. statement)

unfoldable pub flush_staging : Outside → List ReportStagingRow → List ReportError → Step Writer
unfolding write_batch
flush_staging out [] errors = pure (record { staging_batch = []; error_batch = errors })
flush_staging out (r ∷ batch) errors = do
  write_batch out (insert_staging (r ∷ batch))
  pure (record { staging_batch = []; error_batch = errors })

unfoldable pub flush_errors : Outside → List ReportStagingRow → List ReportError → Step Writer
unfolding write_batch
flush_errors out rows [] = pure (record { staging_batch = rows; error_batch = [] })
flush_errors out rows (e ∷ batch) = do
  write_batch out (insert_errors (e ∷ batch))
  pure (record { staging_batch = rows; error_batch = [] })

unfoldable pub flush_all : Outside → Writer → Step Writer
unfolding flush_staging flush_errors
flush_all out writer = do
  w ← flush_staging out writer.staging_batch writer.error_batch
  flush_errors out w.staging_batch w.error_batch

module _ (out : Outside) (batch_size report_id : ℕ) where
  unfoldable pub add_valid_row : ValidatedRow → Writer → Step Writer
  unfolding flush_staging staging_row
  add_valid_row row writer =
      let batch = writer.staging_batch ++ staging_row report_id row ∷ [] in
      if leb batch_size (length batch)
      then flush_staging out batch writer.error_batch
      else pure (record writer { staging_batch = batch })

  unfoldable pub add_issue : ValidationIssue → Writer → Step Writer
  unfolding flush_errors error_row
  add_issue issue writer =
      let batch = writer.error_batch ++ error_row report_id issue ∷ [] in
      if leb batch_size (length batch)
      then flush_errors out writer.staging_batch batch
      else pure (record writer { error_batch = batch })

  unfoldable pub add_issues : List ValidationIssue → Writer → Step Writer
  unfolding add_issue
  add_issues [] writer = pure writer
  add_issues (i ∷ is) writer = do w ← add_issue i writer; add_issues is w

  -- The calls of `on_valid_row` and `on_issues` that the validation of the stream makes.
  unfoldable pub write_events : List Event → Writer → Step Writer
  unfolding add_valid_row add_issues
  write_events [] writer = pure writer
  write_events (valid_row r ∷ es) writer = do w ← add_valid_row r writer; write_events es w
  write_events (issues is ∷ es) writer = do w ← add_issues is writer; write_events es w

-- The row has a number above 1 in the partition of its warehouse and product.
unfoldable pub is_duplicate : List ReportStagingRow → ReportStagingRow → Bool
is_duplicate rows r =
    any
      (λ s.
        text_eq s.warehouse_code r.warehouse_code
        && text_eq s.sku r.sku
        && ltb s.line_number r.line_number)
      rows

unfoldable pub duplicate_error : ℕ → ReportStagingRow → ReportError
duplicate_error chars r = record {
  report_id = r.report_id;
  line_number = some r.line_number;
  field_name = some (codes "warehouse_code+sku");
  code = duplicate_warehouse_sku;
  message = codes "The warehouse_code and sku pair is duplicated in this report";
  raw_data = some (
      (codes "warehouse_code", scalar (str (take chars r.warehouse_code)))
      ∷ (codes "warehouse_name", scalar (str (take chars r.warehouse_name)))
      ∷ (codes "sku", scalar (str (take chars r.sku)))
      ∷ (codes "product_name", scalar (str (take chars r.product_name)))
      ∷ (codes "quantity", scalar (int r.quantity))
      ∷ (
        codes "_truncated",
        scalar (
            flag (
              ltb chars (length r.warehouse_code)
              || ltb chars (length r.warehouse_name)
              || ltb chars (length r.sku)
              || ltb chars (length r.product_name))),
      )
      ∷ []);
}

-- `_duplicate_raw_value_chars`
unfoldable pub duplicate_raw_value_chars : CsvLimits → ℕ
duplicate_raw_value_chars limits =
    max 1 (min limits.error_raw_value_chars (limits.error_raw_total_chars / 4))

unfoldable pub insert_duplicate_errors : ℕ → ℕ → Db → Db
unfolding is_duplicate duplicate_error
insert_duplicate_errors chars report_id db =
    let rows = staging_of report_id db.staging_rows in
    insert_errors (map (duplicate_error chars) (filter (is_duplicate rows) rows)) db

unfoldable pub errors_of : ℕ → List ReportError → List ReportError
errors_of report_id errors = filter (λ e. e.report_id == report_id) errors

unfoldable pub delete_staging : ℕ → Db → Db
delete_staging report_id db = record db {
  staging_rows = filter (λ r. not (r.report_id == report_id)) db.staging_rows;
}

unfoldable pub delete_errors : ℕ → Db → Db
delete_errors report_id db = record db {
  report_errors = filter (λ e. not (e.report_id == report_id)) db.report_errors;
}

-- `UPDATE reports ... WHERE id = ... AND status = 'processing'`
unfoldable pub update_processing : ℕ → (Report → Report) → Db → Db
update_processing report_id change db = record db {
  reports =
      update_report report_id (λ r. if is_processing r.status then change r else r) db.reports;
}

unfoldable pub finalize_validation_failure : ℕ → ℕ → ℕ → ℕ → Db → Db
unfolding delete_staging update_processing
finalize_validation_failure now report_id row_count error_count db =
    update_processing report_id
      (λ r. record r {
        status = failed;
        finished_at = some now;
        row_count = row_count;
        error_count = error_count;
        failure_kind = some validation;
        failure_message = some (codes "Report contains validation errors");
      })
      (delete_staging report_id db)

unfoldable pub finish_validation : ℕ → ℕ → Db → Db
unfolding update_processing
finish_validation report_id row_count db =
    update_processing report_id (λ r. record r { row_count = row_count; error_count = 0 }) db

-- The storage: the decoded text of the object in chunks, and the read that fails, if one does: how
-- many calls of the callbacks come before it, and what it raises. The check of the lock before each
-- chunk is such a read.
pub record Download : Type 0 where
  pub chunks : List Text
  pub failing_read : Option (ℕ × Exn)

abbrev pub finish_stream :
    Result CsvValidationSummary → Writer → Step (CsvValidationSummary × Writer)
finish_stream (ok summary) writer = pure (summary, writer)
finish_stream (raised e) writer = raise e

module _ (out : Outside) (batch_size : ℕ) (limits : CsvLimits) (report_id : ℕ) where
  -- `validate_csv_stream` with the callbacks of the writer.
  unfoldable pub stream_into : Option (ℕ × Exn) → Run → Step (CsvValidationSummary × Writer)
  unfolding write_events
  stream_into none run = do
    writer ← write_events out batch_size report_id run.events new_writer
    finish_stream run.outcome writer
  stream_into (some (n, e)) run = do
    writer ← write_events out batch_size report_id (take n run.events) new_writer
    raise e

  -- The end of `validate`, behind the count of the errors.
  unfoldable pub conclude : CsvValidationSummary → ℕ → Step Outcome
  unfolding finalize_validation_failure finish_validation
  conclude summary (suc n) = do
    assert_lock_alive out
    execute out (λ now. finalize_validation_failure now report_id summary.row_count (suc n))
    pure validation_failed
  conclude summary zero =
      if not summary.reached_eof || summary.row_count == 0 then raise validation_incomplete else (do
        assert_lock_alive out
        execute out (λ now. finish_validation report_id summary.row_count)
        pure validated)

  unfoldable pub validate : Download → Step Outcome
  unfolding stream_into conclude flush_all insert_duplicate_errors
  validate download = do
    assert_lock_alive out
    (summary, writer) ←
        stream_into download.failing_read (validate_csv_stream limits download.chunks)
    flushed ← flush_all out writer
    assert_lock_alive out
    execute out (λ now. insert_duplicate_errors (duplicate_raw_value_chars limits) report_id)
    assert_lock_alive out
    error_count ← transaction out (λ now db. (length (errors_of report_id db.report_errors), db))
    conclude summary error_count
