-- ===== src/Processing/Kept.antt =====
-- What the steps of the validation keep of the reports: all that survives a change of the other tables
-- and an update of a report that is processing.
use service_of_import.Prelude.{
  ℕ, zero, suc, ◌≡◌, refl, Bool, true, false, Option, none, some, List, [], ◌∷◌, take,
  if◌then◌else◌,
}
use service_of_import.Errors.{Exn, Result, ok, raised}
use service_of_import.Csv.Issue.{CsvValidationSummary, ValidatedRow, ValidationIssue}
use service_of_import.Csv.Parse.{CsvLimits}
use service_of_import.Csv.Stream.{Event, valid_row, issues, Run, validate_csv_stream}
use service_of_import.Database.{Db, Report, ReportStagingRow, ReportError}
use service_of_import.Apply.{is_processing, update_report}
use service_of_import.Steps.{Step, Outside, pure, raise, assert_lock_alive, transaction}
use service_of_import.Steps.Keeps.{
  Keeps, bind-Keeps, assert_lock_alive-Keeps, transaction-Keeps, guarded-Keeps,
}
use service_of_import.Validation.{
  Writer, new_writer, write_batch, flush_staging, flush_errors, flush_all, add_valid_row, add_issue,
  add_issues, write_events, update_processing, finalize_validation_failure, finish_validation,
  insert_duplicate_errors, Download, stream_into, finish_stream, conclude, validate,
}
use service_of_import.Processing.{mark_processing_failed, mark_apply_failed}

module _ (P : List Report → Type 0)
    (updated : (j : ℕ) (change : Report → Report) (rs : List Report)
      → ((x : Report) → (change x).id ≡ x.id)
      → P rs
      → P (update_report j (λ x. if is_processing x.status then change x else x) rs)) where
  abbrev Kept : Db → Type 0
  Kept db = P db.reports

  finalize-Kept :
      (now j rows errors : ℕ) (db : Db)
      → Kept db
      → Kept (finalize_validation_failure now j rows errors db)
  unfolding finalize_validation_failure update_processing
  finalize-Kept now j rows errors db h = updated j _ db.reports (λ x. refl) h

  finish-Kept : (j rows : ℕ) (db : Db) → Kept db → Kept (finish_validation j rows db)
  unfolding finish_validation update_processing
  finish-Kept j rows db h = updated j _ db.reports (λ x. refl) h

  pub mark_processing-Kept :
      (j now : ℕ) (db : Db) → Kept db → Kept (mark_processing_failed j now db)
  unfolding mark_processing_failed update_processing
  mark_processing-Kept j now db h = updated j _ db.reports (λ x. refl) h

  pub mark_apply-Kept : (j now : ℕ) (db : Db) → Kept db → Kept (mark_apply_failed j now db)
  unfolding mark_apply_failed update_processing
  mark_apply-Kept j now db h = updated j _ db.reports (λ x. refl) h

  write_batch-Keeps :
      (out : Outside) (statement : Db → Db)
      → ((db : Db) → Kept db → Kept (statement db))
      → Keeps Kept (write_batch out statement)
  unfolding write_batch
  write_batch-Keeps out statement h =
      bind-Keeps Kept (assert_lock_alive out) _ (assert_lock_alive-Keeps Kept out)
        (λ u. transaction-Keeps Kept out _ (λ now. h))

  flush_staging-Keeps :
      (out : Outside) (rows : List ReportStagingRow) (errors : List ReportError)
      → Keeps Kept (flush_staging out rows errors)
  unfolding flush_staging
  flush_staging-Keeps out [] errors = λ w h. h
  flush_staging-Keeps out (x ∷ rows) errors =
      bind-Keeps Kept (write_batch out _) _ (write_batch-Keeps out _ (λ db h. h)) (λ u w h. h)

  flush_errors-Keeps :
      (out : Outside) (rows : List ReportStagingRow) (errors : List ReportError)
      → Keeps Kept (flush_errors out rows errors)
  unfolding flush_errors
  flush_errors-Keeps out rows [] = λ w h. h
  flush_errors-Keeps out rows (e ∷ errors) =
      bind-Keeps Kept (write_batch out _) _ (write_batch-Keeps out _ (λ db h. h)) (λ u w h. h)

  flush_all-Keeps : (out : Outside) (writer : Writer) → Keeps Kept (flush_all out writer)
  unfolding flush_all
  flush_all-Keeps out writer =
      bind-Keeps Kept (flush_staging out writer.staging_batch writer.error_batch) _
        (flush_staging-Keeps out writer.staging_batch writer.error_batch)
        (λ w. flush_errors-Keeps out w.staging_batch w.error_batch)

  pub if-Keeps :
      {A : Type 0} (b : Bool) (m n : Step A)
      → Keeps Kept m
      → Keeps Kept n
      → Keeps Kept (λ w. (if b then m else n) w)
  if-Keeps true m n h k = h
  if-Keeps false m n h k = k

  module _ (out : Outside) (batch_size j : ℕ) where
    add_valid_row-Keeps :
        (row : ValidatedRow) (writer : Writer)
        → Keeps Kept (add_valid_row out batch_size j row writer)
    unfolding add_valid_row
    add_valid_row-Keeps row writer =
        if-Keeps _ (flush_staging out _ writer.error_batch) (pure _)
          (flush_staging-Keeps out _ writer.error_batch) (λ w h. h)

    add_issue-Keeps :
        (x : ValidationIssue) (writer : Writer) → Keeps Kept (add_issue out batch_size j x writer)
    unfolding add_issue
    add_issue-Keeps x writer =
        if-Keeps _ (flush_errors out writer.staging_batch _) (pure _)
          (flush_errors-Keeps out writer.staging_batch _) (λ w h. h)

    add_issues-Keeps :
        (is : List ValidationIssue) (writer : Writer)
        → Keeps Kept (add_issues out batch_size j is writer)
    unfolding add_issues
    add_issues-Keeps [] writer = λ w h. h
    add_issues-Keeps (x ∷ is) writer =
        bind-Keeps Kept (add_issue out batch_size j x writer) _ (add_issue-Keeps x writer)
          (λ w. add_issues-Keeps is w)

    write_events-Keeps :
        (es : List Event) (writer : Writer) → Keeps Kept (write_events out batch_size j es writer)
    unfolding write_events
    write_events-Keeps [] writer = λ w h. h
    write_events-Keeps (valid_row x ∷ es) writer =
        bind-Keeps Kept (add_valid_row out batch_size j x writer) _ (add_valid_row-Keeps x writer)
          (λ w. write_events-Keeps es w)
    write_events-Keeps (issues is ∷ es) writer =
        bind-Keeps Kept (add_issues out batch_size j is writer) _ (add_issues-Keeps is writer)
          (λ w. write_events-Keeps es w)

    finish_stream-Keeps :
        (outcome : Result CsvValidationSummary) (writer : Writer)
        → Keeps Kept (finish_stream outcome writer)
    finish_stream-Keeps (ok summary) writer = λ w h. h
    finish_stream-Keeps (raised e) writer = λ w h. h

    module _ (limits : CsvLimits) where
      stream_into-Keeps :
          (failing : Option (ℕ × Exn)) (run : Run)
          → Keeps Kept (stream_into out batch_size limits j failing run)
      unfolding stream_into
      stream_into-Keeps none run =
          bind-Keeps Kept (write_events out batch_size j run.events new_writer) _
            (write_events-Keeps run.events new_writer) (finish_stream-Keeps run.outcome)
      stream_into-Keeps (some (n, e)) run =
          bind-Keeps Kept (write_events out batch_size j (take n run.events) new_writer) _
            (write_events-Keeps (take n run.events) new_writer) (λ writer w h. h)

      conclude-Keeps :
          (summary : CsvValidationSummary) (n : ℕ)
          → Keeps Kept (conclude out batch_size limits j summary n)
      unfolding conclude
      conclude-Keeps summary (suc n) =
          guarded-Keeps Kept out _ _ (λ now db. finalize-Kept now j summary.row_count (suc n) db)
            (λ w h. h)
      conclude-Keeps summary zero =
          if-Keeps _ (raise _) _ (λ w h. h)
            (guarded-Keeps Kept out _ _ (λ now db. finish-Kept j summary.row_count db) (λ w h. h))

      pub validate-Keeps : (d : Download) → Keeps Kept (validate out batch_size limits j d)
      unfolding validate insert_duplicate_errors
      validate-Keeps d =
          bind-Keeps Kept (assert_lock_alive out) _ (assert_lock_alive-Keeps Kept out) (λ u.
            bind-Keeps Kept
              (stream_into out batch_size limits j d.failing_read
                (validate_csv_stream limits d.chunks))
              _ (stream_into-Keeps d.failing_read (validate_csv_stream limits d.chunks))
              (λ r. bind-Keeps Kept (flush_all out r.1) _ (flush_all-Keeps out r.1) (λ flushed.
                guarded-Keeps Kept out _ _ (λ now db h. h)
                  (bind-Keeps Kept (assert_lock_alive out) _ (assert_lock_alive-Keeps Kept out)
                    (λ u.
                      bind-Keeps Kept (transaction out _) _
                        (transaction-Keeps Kept out _ (λ now db h. h)) (conclude-Keeps r.0))))))
