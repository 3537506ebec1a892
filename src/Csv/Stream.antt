-- ===== src/Csv/Stream.antt =====
-- `validate_csv_stream`, over the chunks of decoded text that the text stream returns. The calls of
-- `on_valid_row` and `on_issues` are events, in order; a ValueError that `int` raises in the middle
-- leaves the events before it.
pub mod Clean
pub mod Rows
pub mod Found
use service_of_import.Prelude.{
  ℕ, zero, suc, ◌+◌, Text, codes, Bool, true, false, ◌||◌, Option, none, some, List, [], ◌∷◌, ◌++◌,
  leb, ltb, ◌==◌, if◌then◌else◌,
}
use service_of_import.Errors.{Exn, Result, ok, raised, value_error}
use service_of_import.Csv.Issue.{
  ValidatedRow, ValidationIssue, IssueCode, missing_header, no_data_rows, csv_field_too_large,
  CsvValidationSummary, LogicalCsvRecord, Columns, required_columns, collect_columns,
}
use service_of_import.Csv.Header.{validate_header, index_of}
use service_of_import.Csv.Row.{validate_row}
use service_of_import.Csv.Records.{iter_logical_records}
use service_of_import.Csv.Parse.{
  CsvLimits, ParsedRecord, fields, issue, parse_record, record_too_large_issue, invalid_utf8_issue,
  contains_surrogate,
}

pub data Event : Type 0 where
  valid_row : ValidatedRow → Event
  issues : List ValidationIssue → Event

pub record Run : Type 0 where
  pub events : List Event
  pub outcome : Result CsvValidationSummary

abbrev pub before : List Event → Run → Run
before es r = record { events = es ++ r.events; outcome = r.outcome }

abbrev pub returned : ℕ → Bool → Run
returned row_count reached_eof = record {
  events = [];
  outcome = ok (record { row_count = row_count; reached_eof = reached_eof });
}

unfoldable pub stream_issue : IssueCode → Text → ValidationIssue
stream_issue code message = record {
  line_number = none;
  field_name = none;
  code = code;
  message = message;
  raw_data = none;
}

-- `{name: header.index(name) for name in REQUIRED_COLUMNS}`; `none` is a ValueError.
unfoldable pub column_indexes : List Text → Option (Columns ℕ)
unfolding collect_columns
column_indexes header =
    collect_columns (index_of required_columns.warehouse_code header)
      (index_of required_columns.warehouse_name header) (index_of required_columns.sku header)
      (index_of required_columns.product_name header) (index_of required_columns.quantity header)

-- What one data record leads to: events and the next record, or the end of the validation.
pub data Verdict : Type 0 where
  next : List Event → Verdict
  halt : List Event → Verdict
  fail : Exn → Verdict

abbrev pub is_field_too_large : IssueCode → Bool
is_field_too_large csv_field_too_large = true
is_field_too_large _ = false

-- `if issues: on_issues(issues)`, `elif validated_row is not None: on_valid_row(validated_row)`
unfoldable pub report_row : List ValidationIssue × Option ValidatedRow → List Event
report_row (i ∷ is, r) = issues (i ∷ is) ∷ []
report_row ([], some r) = valid_row r ∷ []
report_row ([], none) = []

-- `issues, validated_row = _validate_row(...)` and what is reported of it.
unfoldable pub judge_result : Result (List ValidationIssue × Option ValidatedRow) → Verdict
unfolding report_row
judge_result (ok v) = next (report_row v)
judge_result (raised e) = fail e

-- What the verdict on one record makes of the run over the records behind it.
unfoldable pub follow : Verdict → ℕ → Run → Run
follow (next es) row_count rest = before es rest
follow (halt es) row_count rest = before es (returned row_count false)
follow (fail e) row_count rest = record { events = []; outcome = raised e }

module _ (limits : CsvLimits) (header : List Text) (columns : Columns ℕ) where
  unfoldable pub judge_row : ℕ → List Text → Verdict
  unfolding judge_result
  judge_row line_number row =
      if contains_surrogate row
      then next (issues (invalid_utf8_issue (some line_number) ∷ []) ∷ [])
      else judge_result (
          validate_row row header columns line_number limits.error_raw_value_chars
            limits.error_raw_total_chars)

  unfoldable pub judge_parsed : ℕ → ParsedRecord → Verdict
  unfolding judge_row
  judge_parsed line_number (fields row) = judge_row line_number row
  judge_parsed line_number (issue i) =
      if is_field_too_large i.code then next (issues (i ∷ []) ∷ []) else halt (issues (i ∷ []) ∷ [])

  -- The body of `for record in records`.
  unfoldable pub judge_record : ℕ → LogicalCsvRecord → Verdict
  unfolding judge_parsed
  judge_record line_number r =
      if r.truncated
      then next (issues (record_too_large_issue (some line_number) r limits ∷ []) ∷ [])
      else judge_parsed line_number (parse_record r (some line_number) limits)

  -- The loop, with `row_count` records seen.
  unfoldable pub validate_records : List LogicalCsvRecord → ℕ → ℕ → Run
  unfolding judge_record follow
  validate_records [] logical_line_number row_count =
      if row_count == 0
      then before (issues (stream_issue no_data_rows (codes "CSV contains no data rows") ∷ []) ∷ [])
          (returned row_count true)
      else returned row_count true
  validate_records (r ∷ records) logical_line_number row_count =
      follow (judge_record (logical_line_number + 1) r) (row_count + 1)
        (validate_records records (logical_line_number + 1) (row_count + 1))

abbrev fails : Exn → Run
fails e = record { events = []; outcome = raised e }

abbrev reports : List ValidationIssue → Bool → Run
reports is reached_eof = before (issues is ∷ []) (returned 0 reached_eof)

-- The header behind its checks.
unfoldable pub validate_columns :
    CsvLimits → List Text → List LogicalCsvRecord → Option (Columns ℕ) → Run
unfolding validate_records
validate_columns limits header records none = fails value_error
validate_columns limits header records (some columns) =
    validate_records limits header columns records 1 0

unfoldable pub check_header :
    CsvLimits → List Text → List LogicalCsvRecord → List ValidationIssue → Run
unfolding validate_columns column_indexes
check_header limits header records (i ∷ is) = reports (i ∷ is) false
check_header limits header records [] =
    validate_columns limits header records (column_indexes header)

-- The header record, after it has been parsed.
unfoldable pub validate_body : CsvLimits → List LogicalCsvRecord → ParsedRecord → Run
unfolding check_header
validate_body limits records (issue i) = reports (i ∷ []) false
validate_body limits records (fields header) =
    if contains_surrogate header
    then reports (invalid_utf8_issue none ∷ []) false
    else check_header limits header records
        (validate_header header limits.error_raw_value_chars limits.error_raw_total_chars)

unfoldable pub validate_logical_records : CsvLimits → List LogicalCsvRecord → Run
unfolding validate_body
validate_logical_records limits [] =
    reports (stream_issue missing_header (codes "CSV header is missing") ∷ []) true
validate_logical_records limits (header_record ∷ records) =
    if header_record.truncated
    then reports (record_too_large_issue none header_record limits ∷ []) false
    else validate_body limits records (parse_record header_record none limits)

-- The two tests that raise ValueError.
unfoldable pub bad_limits : CsvLimits → Bool
bad_limits limits =
    limits.max_field_chars == 0
    || ltb limits.max_record_chars limits.max_field_chars
    || limits.error_raw_value_chars == 0
    || limits.error_raw_total_chars == 0

unfoldable pub validate_csv_stream : CsvLimits → List Text → Run
unfolding validate_logical_records bad_limits
validate_csv_stream limits chunks =
    if bad_limits limits
    then fails value_error
    else validate_logical_records limits (
        iter_logical_records
          (record {
            max_record_chars = limits.max_record_chars;
            preview_chars = limits.error_raw_value_chars;
          })
          chunks)
