-- ===== src/Csv/Tests.antt =====
-- Runs of the CSV validation, and of the validation of a report, on small inputs.
use service_of_import.Database.{Report, processing}
use service_of_import.Stocks.{staging_of}
use service_of_import.Apply.{find_report}
use service_of_import.Apply.Completes.{IsReady}
use service_of_import.Steps.{World, Outside}
use service_of_import.Validation.{validate, validated, errors_of, is_duplicate, staging_row}
use service_of_import.Validation.Writes.{staged}
use service_of_import.Validation.Ready.{validate-IsReady}
use service_of_import.Prelude.{
  filter, none, count, ℕ, zero, suc, ◌≤◌, ◌<◌, Text, codes, text_eq, ◌≡◌, ◌↔◌, refl, true, false,
  any, count, some, List, [], ◌∷◌, ◌++◌, map, length, take, drop, filter, str_nat,
}
use mathlib.Core.List.{flatten}
use service_of_import.Errors.{ok, raised, value_error}
use service_of_import.Csv.Issue.{
  ValidatedRow, CsvValidationSummary, Columns, required_columns, column_list, scalar, str,
  postgres_bigint_max,
}
use service_of_import.Csv.RawData.{bounded_raw_data}
use service_of_import.Csv.RawData.Bounds.{dict_chars, bounded_raw_data-le}
use service_of_import.Csv.Quantity.{strip, is_integer, unsigned, int_max_str_digits}
use service_of_import.Csv.Header.{validate_header}
use service_of_import.Csv.Header.Once.{blame, fault, is_faulty, validate_header_faults}
use service_of_import.Csv.Row.{validate_row, row_values, strip_values}
use service_of_import.Csv.Row.Accepted.{IsAccepted, validate_row_accepts_iff}
use service_of_import.Csv.Row.Verdict.{IsVerdict, validate_row-IsVerdict, validate_row_raises_iff}
use service_of_import.Csv.Records.{Limits, iter_logical_records}
use service_of_import.Csv.Records.Machine.{bounded_record, split_records}
use service_of_import.Csv.Records.Chunks.{iter_logical_records-split}
use service_of_import.Csv.Parse.{CsvLimits}
use service_of_import.Csv.Stream.{validate_csv_stream}
use service_of_import.Csv.Stream.Clean.{is_issue}
use service_of_import.Csv.Stream.Rows.{rows_of, FilledFrom, validate_csv_stream-rows}
use service_of_import.Csv.Stream.Found.{IsNamed, column_indexes-row_values}
use service_of_import.Csv.Issue.{set_key, required_columns, postgres_bigint_max, collect_columns}
use service_of_import.Csv.RawData.{
  truncation_marker, bounded_raw_text, bounded_items, bounded_value, bounded_entries, truncated_key,
  bounded_raw_data,
}
use service_of_import.Csv.Quantity.{
  is_space, lstrip, strip, is_digit, all_digits, unsigned, is_integer, decimal_value, int_of,
}
use service_of_import.Csv.Header.{
  index_of, column_issue, header_column, header_columns, validate_header,
}
use service_of_import.Csv.Row.{
  row_values, strip_values, raw_dict, row_issue, required_field, required_fields, quantity_issue,
  quantity_range, check_quantity, finish_row, validate_values, validate_row,
}
use service_of_import.Csv.Records.{
  append_piece, is_special, normal_flags, after_normal, unquoted_special, special_flags,
  yield_record, count_match, on_match, scan, trailing, process_chunk, last_record, read_chunks,
  iter_logical_records,
}
use service_of_import.Csv.Reader.{
  add_char, process_start_field, process_char, process_eol, process_line, next_row, split_lines,
}
use service_of_import.Csv.Parse.{
  invalid_utf8_issue, contains_surrogate, malformed_csv_issue, record_too_large_issue,
  field_too_large_issue, expect_end, parse_record,
}
use service_of_import.Csv.Stream.{
  stream_issue, column_indexes, report_row, judge_result, follow, judge_row, judge_parsed,
  judge_record, validate_records, validate_columns, check_header, validate_body,
  validate_logical_records, bad_limits, validate_csv_stream,
}

abbrev crlf : Text
crlf = 13 ∷ 10 ∷ []

abbrev header_line : Text
header_line = codes "warehouse_code,warehouse_name,sku,product_name,quantity"

-- Two rows; the second has a quoted name with a comma and a line end inside.
abbrev report : Text
report =
    header_line
    ++ (crlf
        ++ (codes "W1,Main,A-1,Nut,5"
            ++ (crlf ++ (codes "W1,Main,A-2,\"Bolt, " ++ (crlf ++ (codes "big\", +7 " ++ crlf))))))

abbrev sizes : CsvLimits
sizes = record {
  max_field_chars = 64;
  max_record_chars = 128;
  error_raw_value_chars = 16;
  error_raw_total_chars = 64;
}

abbrev cut_report : List Text
cut_report = take 57 report ∷ drop 57 report ∷ []

-- What the runs below compute with.
run_all : Unit {0}
unfolding set_key required_columns postgres_bigint_max collect_columns truncation_marker
    bounded_raw_text bounded_items bounded_value bounded_entries truncated_key bounded_raw_data
    is_space lstrip strip is_digit all_digits unsigned is_integer decimal_value int_of index_of
    column_issue header_column header_columns validate_header row_values strip_values raw_dict
    row_issue required_field required_fields quantity_issue quantity_range check_quantity finish_row
    validate_values validate_row append_piece is_special normal_flags after_normal unquoted_special
    special_flags yield_record count_match on_match scan trailing process_chunk last_record
    read_chunks iter_logical_records add_char process_start_field process_char process_eol
    process_line next_row split_lines invalid_utf8_issue contains_surrogate malformed_csv_issue
    record_too_large_issue field_too_large_issue expect_end parse_record stream_issue column_indexes
    report_row judge_result follow judge_row judge_parsed judge_record validate_records
    validate_columns check_header validate_body validate_logical_records bad_limits
    validate_csv_stream codes text_eq str_nat take drop any count flatten
run_all = tt

abbrev summary : CsvValidationSummary
summary = record { row_count = 2; reached_eof = true }

report-outcome : (validate_csv_stream sizes cut_report).outcome ≡ ok summary
unfolding run_all
report-outcome = refl

report-clean : any is_issue (validate_csv_stream sizes cut_report).events ≡ false
unfolding run_all
report-clean = refl

validate_csv_stream-rows_example :
    FilledFrom 1 (rows_of (validate_csv_stream sizes cut_report).events)
validate_csv_stream-rows_example = validate_csv_stream-rows sizes cut_report

-- A quoted line feed at the end of one chunk, and CR LF over two chunks.
abbrev pieces : List Text
pieces = (34 ∷ 97 ∷ 10 ∷ []) ∷ (34 ∷ 13 ∷ []) ∷ (10 ∷ 98 ∷ []) ∷ []

abbrev small : Limits
small = record { max_record_chars = 3; preview_chars = 2 }

iter_logical_records-split_example :
    iter_logical_records small pieces ≡ map (bounded_record small) (split_records (flatten pieces))
iter_logical_records-split_example =
    iter_logical_records-split small pieces ((λ e. cc), ((λ e. cc), ((λ e. cc), tt)))

pieces_run :
    iter_logical_records small pieces
    ≡ record { text = 34 ∷ 97 ∷ []; char_count = 5; truncated = true }
      ∷ record { text = 98 ∷ []; char_count = 1; truncated = false }
      ∷ []
unfolding run_all
pieces_run = refl

abbrev names : List Text
names =
    codes "warehouse_code"
    ∷ codes "warehouse_name"
    ∷ codes "sku"
    ∷ codes "product_name"
    ∷ codes "quantity"
    ∷ []

names_clean : validate_header names 16 64 ≡ []
unfolding run_all
names_clean = refl

abbrev five_values : List Text
five_values = (65 ∷ []) ∷ (66 ∷ []) ∷ (67 ∷ []) ∷ (68 ∷ []) ∷ (49 ∷ []) ∷ []

column_indexes-row_values_example :
    (c : Columns ℕ) × (v : Columns Text) × (column_indexes names ≡ some c)
    × IsNamed names c
    × (row_values five_values c ≡ some v)
column_indexes-row_values_example =
    column_indexes-row_values names five_values 16 64 names_clean refl

bounded_raw_data-le_example :
    dict_chars (bounded_raw_data ((codes "sku", scalar (str report)) ∷ []) 30 20) ≤ 20
bounded_raw_data-le_example = bounded_raw_data-le ((codes "sku", scalar (str report)) ∷ []) 30 20

abbrev bad_header : List Text
bad_header = codes "sku" ∷ codes "sku" ∷ codes "quantity" ∷ []

validate_header_faults_example :
    map blame (validate_header bad_header 8 8)
    ≡ map (fault bad_header) (filter (is_faulty bad_header) (column_list required_columns))
validate_header_faults_example = validate_header_faults bad_header 8 8

abbrev header : List Text
header = column_list required_columns

abbrev columns : Columns ℕ
columns = record { warehouse_code = 0; warehouse_name = 1; sku = 2; product_name = 3; quantity = 4 }

repeated : ℕ → ℕ → Text
repeated zero c = []
repeated (suc n) c = c ∷ repeated n c

-- A quantity of 4301 digits.
abbrev long_values : Columns Text
long_values = record {
  warehouse_code = codes "W1";
  warehouse_name = codes "Main";
  sku = codes "A-1";
  product_name = codes "Nut";
  quantity = repeated 4301 55;
}

abbrev long_row : List Text
long_row = column_list long_values

validate_row_raises_iff_example :
    (validate_row long_row header columns 2 16 64 ≡ raised value_error) ↔ (
      (length long_row ≡ length header)
      × (is_integer (strip (repeated 4301 55)) ≡ true)
      × (int_max_str_digits < length (unsigned (strip (repeated 4301 55)))))
unfolding row_values
validate_row_raises_iff_example =
    validate_row_raises_iff long_row header columns 2 16 64 long_values refl

abbrev short_row : List Text
short_row = codes "W1" ∷ codes " Main" ∷ codes "A-1" ∷ codes "Nut" ∷ codes "-0" ∷ []

abbrev stored_row : ValidatedRow
stored_row = record {
  line_number = 2;
  warehouse_code = codes "W1";
  warehouse_name = codes "Main";
  sku = codes "A-1";
  product_name = codes "Nut";
  quantity = 0;
}

short_row_run : validate_row short_row header columns 2 16 64 ≡ ok ([], some stored_row)
unfolding run_all
short_row_run = refl

validate_row_accepts_iff_example :
    (validate_row short_row header columns 2 16 64 ≡ ok ([], some stored_row)) ↔ (
      (length short_row ≡ length header)
      × (raw : Columns Text) × (row_values short_row columns ≡ some raw)
      × IsAccepted 2 (strip_values raw) stored_row)
validate_row_accepts_iff_example =
    validate_row_accepts_iff short_row header columns 2 16 64 stored_row

validate_row-IsVerdict_example : IsVerdict ([], some stored_row)
validate_row-IsVerdict_example =
    validate_row-IsVerdict short_row header columns 2 16 64 ([], some stored_row) short_row_run

abbrev outside : Outside
outside = record { fault = λ n. none; now = λ n. n }

abbrev claimed_report : Report
claimed_report = record {
  id = 1;
  status = processing;
  original_filename = codes "a.csv";
  object_bucket = codes "b";
  object_key = codes "k";
  size_bytes = 10;
  checksum_sha256 = none;
  created_at = 1;
  processing_started_at = some 2;
  finished_at = none;
  row_count = 0;
  error_count = 0;
  stocks_created = 0;
  stocks_updated = 0;
  stocks_zeroed = 0;
  failure_kind = none;
  failure_message = none;
}

abbrev world : World
world = record {
  db = record {
    reports = claimed_report ∷ [];
    warehouses = record { rows = []; next_id = 1 };
    products = record { rows = []; next_id = 1 };
    stock_balances = [];
    staging_rows = [];
    report_errors = [];
  };
  calls = 0;
}

claimed_found : find_report 1 world.db.reports ≡ some claimed_report
unfolding find_report
claimed_found = refl

no_rows : staging_of 1 world.db.staging_rows ≡ []
unfolding staging_of filter
no_rows = refl

no_errors : errors_of 1 world.db.report_errors ≡ []
unfolding errors_of filter
no_errors = refl

no_duplicates :
    filter
      (is_duplicate (staged 1 (validate_csv_stream sizes cut_report).events))
      (staged 1 (validate_csv_stream sizes cut_report).events)
    ≡ []
unfolding run_all staged staging_row is_duplicate filter any
no_duplicates = refl

validate-IsReady_example :
    (w' : World) × (r' : Report) × (validate outside 2 sizes 1
        (record { chunks = cut_report; failing_read = none })
        world
      ≡ (ok validated, w'))
    × IsReady 1 w'.db r'
validate-IsReady_example =
    validate-IsReady outside 2 sizes 1 cut_report world claimed_report summary (λ n. refl)
      claimed_found refl no_rows no_errors report-outcome report-clean no_duplicates
