-- ===== src/Processing/Tests.antt =====
-- Cycles of the worker, and the batch writer, on small inputs.
use service_of_import.Prelude.{
  any, filter, text_eq, length, arith, ℕ, Text, codes, ◌≡◌, refl, true, none, some, List, [], ◌∷◌,
  ◌++◌,
}
use service_of_import.Errors.{ok}
use service_of_import.Csv.Issue.{ValidatedRow, ValidationIssue, no_data_rows}
use service_of_import.Csv.Parse.{CsvLimits}
use service_of_import.Csv.Stream.{Event, valid_row, issues}
use service_of_import.Database.{Db, Report, Status, Catalogue}
use service_of_import.Apply.{ApplyEnv, find_report}
use service_of_import.Steps.{World, Outside, ◌>>=◌}
use service_of_import.Validation.{
  insert_duplicate_errors, is_duplicate, duplicate_error, staging_row, Download, new_writer,
  write_events, flush_all,
}
use service_of_import.Validation.Writes.{staged, reported, write_events-stored}
use service_of_import.Processing.{process_next_report, claim_or_recover}
use service_of_import.Stocks.{staging_of}
use service_of_import.Stocks.Distinct.{IsDistinct}
use service_of_import.Validation.Duplicates.{IsNumbered, insert_duplicate_errors-IsDistinct}
use service_of_import.Processing.Claim.{IsClaim, claim_or_recover-IsClaim}
use service_of_import.Processing.Final.{IsKeyed, process_next_report-closed}

abbrev pub report_at : ℕ → Status → Report
report_at i status = record {
  id = i;
  status = status;
  original_filename = codes "a.csv";
  object_bucket = codes "b";
  object_key = codes "k";
  size_bytes = 10;
  checksum_sha256 = none;
  created_at = i;
  processing_started_at = none;
  finished_at = none;
  row_count = 0;
  error_count = 0;
  stocks_created = 0;
  stocks_updated = 0;
  stocks_zeroed = 0;
  failure_kind = none;
  failure_message = none;
}

abbrev empty_catalogue : Catalogue
empty_catalogue = record { rows = []; next_id = 1 }

abbrev pub two_reports : Db
two_reports = record {
  reports = report_at 1 Status.completed ∷ report_at 2 Status.pending ∷ [];
  warehouses = empty_catalogue;
  products = empty_catalogue;
  stock_balances = [];
  staging_rows = [];
  report_errors = [];
}

abbrev pub start : World
start = record { db = two_reports; calls = 0 }

abbrev pub outside : Outside
outside = record { fault = λ n. none; now = λ n. n }

abbrev pub env : ℕ → ApplyEnv
env n = record { now = n; lock_alive = λ k. true; after_step = λ s. none; commit = none }

abbrev limits : CsvLimits
limits = record {
  max_field_chars = 100;
  max_record_chars = 200;
  error_raw_value_chars = 20;
  error_raw_total_chars = 80;
}

abbrev pub download : Text → Text → ℕ → Download
download bucket key n = record { chunks = codes "a,b" ∷ []; failing_read = none }

pub reports-IsKeyed : IsKeyed start.db.reports
unfolding find_report
reports-IsKeyed = (refl, (refl, tt))

pub completed_found : find_report 1 start.db.reports ≡ some (report_at 1 Status.completed)
unfolding find_report
completed_found = refl

process_next_report-closed_example :
    find_report 1 (process_next_report outside env 2 limits download true start).1.db.reports
    ≡ some (report_at 1 Status.completed)
process_next_report-closed_example =
    process_next_report-closed outside env 2 limits download true start 1
      (report_at 1 Status.completed) reports-IsKeyed completed_found refl

abbrev row : ℕ → ValidatedRow
row n = record {
  line_number = n;
  warehouse_code = codes "A";
  warehouse_name = codes "Main";
  sku = codes "x";
  product_name = codes "Nut";
  quantity = n;
}

abbrev empty_issue : ValidationIssue
empty_issue = record {
  line_number = none;
  field_name = none;
  code = no_data_rows;
  message = codes "CSV contains no data rows";
  raw_data = none;
}

abbrev events : List Event
events = valid_row (row 2) ∷ issues (empty_issue ∷ []) ∷ valid_row (row 4) ∷ valid_row (row 5) ∷ []

write_events-stored_example :
    (w' : World) × ((write_events outside 2 7 events new_writer >>= flush_all outside) start
      ≡ (ok new_writer, w'))
    × (w'.db.staging_rows ≡ start.db.staging_rows ++ staged 7 events)
    × (w'.db.report_errors ≡ start.db.report_errors ++ reported 7 events)
    × (w'.db.reports ≡ start.db.reports)
write_events-stored_example = write_events-stored outside (λ n. refl) 2 7 events start

claim_or_recover-IsClaim_example :
    IsClaim 5 two_reports (claim_or_recover 5 two_reports).0 (claim_or_recover 5 two_reports).1
claim_or_recover-IsClaim_example = claim_or_recover-IsClaim 5 two_reports reports-IsKeyed

abbrev two_staged : Db
two_staged = record two_reports {
  staging_rows = staging_row 7 (row 2) ∷ staging_row 7 (record (row 3) { sku = codes "y" }) ∷ [];
}

run_duplicates : Unit {0}
unfolding insert_duplicate_errors is_duplicate any text_eq filter codes staging_of duplicate_error
    staging_row
run_duplicates = tt

staged-IsNumbered : IsNumbered (staging_of 7 two_staged.staging_rows)
unfolding run_duplicates
staged-IsNumbered = ((omega arith, tt), (tt, tt))

none_added :
    length (insert_duplicate_errors 20 7 two_staged).report_errors ≡ length two_staged.report_errors
unfolding run_duplicates
none_added = refl

insert_duplicate_errors-IsDistinct_example : IsDistinct (staging_of 7 two_staged.staging_rows)
insert_duplicate_errors-IsDistinct_example =
    insert_duplicate_errors-IsDistinct 20 7 two_staged staged-IsNumbered none_added
