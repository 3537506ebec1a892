-- ===== src/Processing.antt =====
-- `ReportProcessor` and `process_next_report` of app/services/report_processing.py: the choice of a
-- report, and what becomes of it.
pub mod Kept
pub mod Cycle
pub mod Closed
pub mod Final
pub mod Claim
pub mod Tests
use service_of_import.Prelude.{
  ℕ, ◌+◌, Text, codes, Bool, true, false, ◌&&◌, ◌||◌, not, Option, none, some, List, [], ◌∷◌,
  length, ltb, leb, ◌==◌, if◌then◌else◌, max,
}
use service_of_import.Errors.{Exn, Result, ok, raised, lock_connection_lost}
use service_of_import.Csv.Issue.{IssueCode, processing_error, apply_error}
use service_of_import.Csv.Parse.{CsvLimits}
use service_of_import.Database.{
  Db, Report, Status, pending, processing, completed, failed, FailureKind, processing_failure,
  ReportError,
}
use service_of_import.Stocks.{staging_of}
use service_of_import.Apply.{ApplyEnv, ApplyStep, ApplyResult, apply, update_report, is_processing}
use service_of_import.Steps.{
  Step, World, Outside, pure, raise, ◌>>=◌, ◌>>◌, assert_lock_alive, execute, transaction, called,
}
use service_of_import.Validation.{
  Outcome, lock_not_acquired, no_report, validated, validation_failed, processing_failed,
  ReportSource, insert_errors, errors_of, delete_staging, delete_errors, update_processing,
  Download, validate,
}

abbrev pub is_open : Status → Bool
is_open pending = true
is_open processing = true
is_open completed = false
is_open failed = false

-- `ORDER BY created_at, id`
unfoldable pub earlier : Report → Report → Bool
earlier r s = ltb r.created_at s.created_at || (r.created_at == s.created_at && ltb r.id s.id)

abbrev pub first_of : Report → Option Report → Report
first_of r none = r
first_of r (some s) = if earlier s r then s else r

-- The first report whose status is pending or processing.
unfoldable pub next_report : List Report → Option Report
unfolding earlier
next_report [] = none
next_report (r ∷ rs) =
    let rest = next_report rs in if is_open r.status then some (first_of r rest) else rest

-- `_validation_is_complete`
unfoldable pub validation_is_complete : Db → Report → Bool
validation_is_complete db r =
    not (r.row_count == 0)
    && (r.error_count == 0
        && (length (staging_of r.id db.staging_rows) == r.row_count
            && length (errors_of r.id db.report_errors) == 0))

-- `_report_source`
abbrev pub report_source : Report → ReportSource
report_source r = record { id = r.id; object_bucket = r.object_bucket; object_key = r.object_key }

abbrev pub claimed : ℕ → Report → Report
claimed now r = record r {
  status = processing;
  processing_started_at = some now;
  finished_at = none;
  row_count = 0;
  error_count = 0;
  failure_kind = none;
  failure_message = none;
}

unfoldable pub claim : ℕ → Report → Db → Db
unfolding delete_staging delete_errors
claim now r db =
    let cleared = delete_errors r.id (delete_staging r.id db) in
    record cleared { reports = update_report r.id (claimed now) cleared.reports }

unfoldable pub claim_found : ℕ → Db → Option Report → Option (ReportSource × Bool) × Db
unfolding validation_is_complete claim
claim_found now db none = (none, db)
claim_found now db (some r) =
    if is_processing r.status && validation_is_complete db r
    then (some (report_source r, true), db)
    else (some (report_source r, false), claim now r db)

-- `_claim_or_recover_next_report`; the flag is `ready_for_apply`.
unfoldable pub claim_or_recover : ℕ → Db → Option (ReportSource × Bool) × Db
unfolding next_report claim_found
claim_or_recover now db = claim_found now db (next_report db.reports)

abbrev pub failure_error : ℕ → IssueCode → Text → ReportError
failure_error report_id code message = record {
  report_id = report_id;
  line_number = none;
  field_name = none;
  code = code;
  message = message;
  raw_data = none;
}

abbrev pub failed_report : ℕ → ℕ → Text → Report → Report
failed_report now error_count message r = record r {
  status = failed;
  finished_at = some now;
  error_count = error_count;
  failure_kind = some processing_failure;
  failure_message = some message;
}

-- `error_count or 1`
abbrev pub or_one : ℕ → ℕ
or_one n = if n == 0 then 1 else n

unfoldable pub mark_processing_failed : ℕ → ℕ → Db → Db
unfolding delete_staging update_processing
mark_processing_failed report_id now db =
    let message = codes "Report processing failed" in
    let written =
      insert_errors (failure_error report_id processing_error message ∷ [])
        (delete_staging report_id db) in
    let error_count = length (errors_of report_id written.report_errors) in
    update_processing report_id (failed_report now (or_one error_count) message) written

abbrev pub without_counters : Report → Report
without_counters r = record r { stocks_created = 0; stocks_updated = 0; stocks_zeroed = 0 }

unfoldable pub mark_apply_failed : ℕ → ℕ → Db → Db
unfolding delete_staging update_processing
mark_apply_failed report_id now db =
    let message = codes "Atomic report apply failed" in
    let written =
      insert_errors (failure_error report_id apply_error message ∷ [])
        (delete_staging report_id db) in
    let error_count = length (errors_of report_id written.report_errors) in
    update_processing report_id
      (λ r. without_counters (failed_report now (or_one error_count) message r)) written

-- `except LockConnectionLost: raise`
abbrev pub is_lock_lost : Exn → Bool
is_lock_lost lock_connection_lost = true
is_lock_lost _ = false

abbrev pub applied_world : World → Result ApplyResult × Db → Result ApplyResult × World
applied_world w (r, db) = (r, record (called w) { db = db })

-- The call of `apply`, whose outside is given for the number of calls made before it.
abbrev pub run_apply : (ℕ → ApplyEnv) → ℕ → Step ApplyResult
run_apply env report_id w = applied_world w (apply (env w.calls) report_id w.db)

abbrev pub reraise : Exn → Result Outcome × World → Result Outcome × World
reraise e (ok outcome, w) = (ok outcome, w)
reraise e (raised other, w) = (raised e, w)

module _ (out : Outside) where
  abbrev pub persist_failure : (ℕ → Db → Db) → Step Outcome
  persist_failure statement = do
    assert_lock_alive out
    execute out statement
    pure processing_failed

  -- The handler of an exception of `apply`. A failure to persist it raises the original exception.
  unfoldable pub after_apply : ℕ → Result ApplyResult × World → Result Outcome × World
  unfolding mark_apply_failed
  after_apply report_id (ok r, w) = (ok Outcome.completed, w)
  after_apply report_id (raised e, w) =
      if is_lock_lost e
      then (raised e, w)
      else reraise e (persist_failure (mark_apply_failed report_id) w)

  -- The handler of an exception of `validate`.
  unfoldable pub after_validate : ℕ → Result Outcome × World → Result Outcome × World
  unfolding mark_processing_failed
  after_validate report_id (ok outcome, w) = (ok outcome, w)
  after_validate report_id (raised e, w) =
      if is_lock_lost e then (raised e, w) else persist_failure (mark_processing_failed report_id) w

  module _ (env : ℕ → ApplyEnv) (batch_size : ℕ) (limits : CsvLimits)
      (download : Text → Text → ℕ → Download) where
    unfoldable pub process_claimed : Option (ReportSource × Bool) → Step Outcome
    unfolding after_apply after_validate validate
    process_claimed none w = (ok no_report, w)
    process_claimed (some (report, true)) w = after_apply report.id (run_apply env report.id w)
    process_claimed (some (report, false)) w = after_validate report.id (
        validate out batch_size limits report.id
          (download report.object_bucket report.object_key w.calls) w)

    unfoldable pub process : Step Outcome
    unfolding process_claimed claim_or_recover
    process = do report ← transaction out claim_or_recover; process_claimed report

    -- `process_next_report`; the flag is the answer of `pg_try_advisory_lock`. An exception of the
    -- release of the lock is caught.
    unfoldable pub process_next_report : Bool → Step Outcome
    unfolding process
    process_next_report acquired w = if acquired then process w else (ok lock_not_acquired, w)
