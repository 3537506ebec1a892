-- ===== src/Validation/Ready.antt =====
-- The run of a validation that meets no failure outside.
use service_of_import.Prelude.{
  ℕ, ◌≡◌, refl, sym, ◌∙◌, ap, Bool, true, false, none, some, List, [], ◌∷◌, ◌++◌, arith, length,
  any, count, map, filter, append-nil, ◌==◌, ==_refl, if◌then◌else◌, ◌<◌,
}
use service_of_import.Errors.{ok}
use service_of_import.Csv.Issue.{CsvValidationSummary}
use service_of_import.Csv.Parse.{CsvLimits}
use service_of_import.Csv.Stream.Clean.{is_issue, is_accepted, validate_csv_stream-clean}
use service_of_import.Csv.Stream.{Event, valid_row, issues, validate_csv_stream}
use service_of_import.Database.{Db, Report, processing, ReportStagingRow}
use service_of_import.Stocks.{staging_of}
use service_of_import.Apply.{find_report, is_processing}
use service_of_import.Apply.Outcome.{find_report-update}
use service_of_import.Apply.Completes.{IsReady, is_processing_iff}
use service_of_import.Steps.{World, Outside, IsQuiet, called, assert_lock_alive, transaction}
use service_of_import.Validation.{
  Writer, new_writer, write_events, flush_all, stream_into, conclude, validate,
  insert_duplicate_errors, duplicate_raw_value_chars, errors_of, finish_validation,
  update_processing, validated, staging_row, is_duplicate, duplicate_error,
}
use service_of_import.Validation.Writes.{
  staged, reported, write_events-Writes, flush_all-new_writer,
}

module _ (out : Outside) (quiet : IsQuiet out) where
  assert_lock_alive-quiet : (w : World) → assert_lock_alive out w ≡ (ok tt, called w)
  unfolding assert_lock_alive
  assert_lock_alive-quiet w = rw (quiet w.calls) refl

  transaction-quiet {ℓ} :
      {A : Type ℓ} (block : ℕ → Db → A × Db) (w : World)
      → transaction out block w ≡ (
        ok (block (out.now w.calls) w.db).0,
        record (called w) { db = (block (out.now w.calls) w.db).1 },
      )
  unfolding transaction
  transaction-quiet block w = rw (quiet w.calls) refl

  module _ (batch_size : ℕ) (limits : CsvLimits) (j : ℕ) where
    abbrev checked : World → World
    checked w3 =
        let w4 = called w3 in
        record (called w4) {
          db = insert_duplicate_errors (duplicate_raw_value_chars limits) j w4.db;
        }

    validate_run :
        (chunks : List (List ℕ)) (w w2 w3 : World) (b : Writer) (summary : CsvValidationSummary)
        → write_events out batch_size j
            (validate_csv_stream limits chunks).events
            new_writer
            (called w)
          ≡ (ok b, w2)
        → flush_all out b w2 ≡ (ok new_writer, w3)
        → (validate_csv_stream limits chunks).outcome ≡ ok summary
        → validate out batch_size limits j (record { chunks = chunks; failing_read = none }) w
          ≡ conclude out batch_size limits j summary
              (length (errors_of j (checked w3).db.report_errors))
              (called (called (checked w3)))
    unfolding validate stream_into
    validate_run chunks w w2 w3 b summary run1 run2 e = rw (assert_lock_alive-quiet w) (
        rw run1 (
          rw e (
            rw run2 (
              rw (assert_lock_alive-quiet w3) (
                rw
                  (transaction-quiet
                    (λ now db.
                      (tt {0}, insert_duplicate_errors (duplicate_raw_value_chars limits) j db))
                    (called w3))
                  (rw (assert_lock_alive-quiet (checked w3)) (
                    rw
                      (transaction-quiet (λ now db. (length (errors_of j db.report_errors), db))
                        (called (checked w3)))
                      refl)))))))

reported_none : (j : ℕ) (es : List Event) → any is_issue es ≡ false → reported j es ≡ []
unfolding reported any
reported_none j [] h = refl
reported_none j (valid_row r ∷ es) h = reported_none j es (ground arith)
reported_none j (issues [] ∷ es) h = reported_none j es (ground arith)
reported_none j (issues (i ∷ is) ∷ es) h = absurd (ground arith)

staging_of-staged : (j : ℕ) (es : List Event) → staging_of j (staged j es) ≡ staged j es
unfolding staged staging_of filter staging_row
staging_of-staged j [] = refl
staging_of-staged j (valid_row r ∷ es) = ground (arith, staging_of-staged j es, ==_refl j)
staging_of-staged j (issues is ∷ es) = staging_of-staged j es

staging_of-append :
    (j : ℕ) (xs ys : List ReportStagingRow)
    → staging_of j xs ≡ []
    → staging_of j (xs ++ ys) ≡ staging_of j ys
unfolding staging_of filter
staging_of-append j [] ys h = refl
staging_of-append j (x ∷ xs) ys h = ground (arith, staging_of-append j xs ys)

length-staged : (j : ℕ) (es : List Event) → length (staged j es) ≡ count is_accepted es
unfolding staged count
length-staged j [] = refl
length-staged j (valid_row r ∷ es) = omega (arith, length-staged j es)
length-staged j (issues is ∷ es) = omega (arith, length-staged j es)

module _ (out : Outside) (quiet : IsQuiet out) (batch_size : ℕ) (limits : CsvLimits) (j : ℕ) where
  conclude_clean :
      (summary : CsvValidationSummary) (w : World)
      → summary.reached_eof ≡ true
      → 0 < summary.row_count
      → conclude out batch_size limits j summary 0 w ≡ (
        ok validated,
        record (called (called w)) { db = finish_validation j summary.row_count w.db },
      )
  unfolding conclude
  conclude_clean summary w eof positive =
      let some_row : (summary.row_count == 0) ≡ false = ground arith in
      rw eof (
        rw some_row (
          rw (assert_lock_alive-quiet out quiet w) (
            rw
              (transaction-quiet out quiet
                (λ now db. (tt {0}, finish_validation j summary.row_count db)) (called w))
              refl)))

unchanged_id : (b : Bool) (x y : Report) → y.id ≡ x.id → (if b then y else x).id ≡ x.id
unchanged_id true x y h = h
unchanged_id false x y h = refl

finish_validation-IsReady :
    (j n : ℕ) (db : Db) (r : Report)
    → find_report j db.reports ≡ some r
    → r.status ≡ processing
    → 0 < n
    → length (staging_of j db.staging_rows) ≡ n
    → IsReady j (finish_validation j n db) (record r { row_count = n; error_count = 0 })
unfolding finish_validation update_processing
finish_validation-IsReady j n db r found status positive staged_n =
    let done : Report → Report = λ x. record x { row_count = n; error_count = 0 } in
    let updated =
      find_report-update j j (λ x. if is_processing x.status then done x else x) db.reports
        (λ x. unchanged_id (is_processing x.status) x (done x) refl) in
    record {
      found = ground (arith, updated, (is_processing_iff r.status).1 status, ==_refl j);
      status = status;
      no_error = refl;
      not_empty = positive;
      staged = staged_n;
    }

-- A validation of a claimed report that meets no failure outside, whose stream returns without an
-- issue and whose rows hold no duplicate, returns validated, and leaves the report ready for the
-- application: processing, with no error, with rows, and with as many staging rows.
pub validate-IsReady :
    (out : Outside) (batch_size : ℕ) (limits : CsvLimits) (j : ℕ) (chunks : List (List ℕ))
    (w : World) (r : Report) (summary : CsvValidationSummary)
    → IsQuiet out
    → find_report j w.db.reports ≡ some r
    → r.status ≡ processing
    → staging_of j w.db.staging_rows ≡ []
    → errors_of j w.db.report_errors ≡ []
    → (validate_csv_stream limits chunks).outcome ≡ ok summary
    → any is_issue (validate_csv_stream limits chunks).events ≡ false
    → filter
        (is_duplicate (staged j (validate_csv_stream limits chunks).events))
        (staged j (validate_csv_stream limits chunks).events)
      ≡ []
    → (w' : World) × (r' : Report) × (validate out batch_size limits j
          (record { chunks = chunks; failing_read = none })
          w
        ≡ (ok validated, w'))
      × IsReady j w'.db r'
unfolding insert_duplicate_errors
validate-IsReady out n limits j chunks w r summary quiet found status no_rows no_errors e clean
      unique =
    let es = (validate_csv_stream limits chunks).events in
    let rows = staged j es in
    let (eof, positive, counted) = validate_csv_stream-clean limits chunks summary e clean in
    let (b, w2, run1, p) = write_events-Writes out quiet n j es new_writer (called w) in
    let (w3, run2, q) = flush_all-new_writer out quiet n j b w2 in
    let staging : w3.db.staging_rows ≡ w.db.staging_rows ++ rows =
      sym (append-nil _)
      ∙ q.staging
      ∙ append-nil _
      ∙ p.staging
      ∙ ap (λ l. l ++ rows) (append-nil _) in
    let errors : w3.db.report_errors ≡ w.db.report_errors ++ reported j es =
      sym (append-nil _)
      ∙ q.report_errors
      ∙ append-nil _
      ∙ p.report_errors
      ∙ ap (λ l. l ++ reported j es) (append-nil _) in
    let reports : w3.db.reports ≡ w.db.reports = q.reports ∙ p.reports in
    let own : staging_of j w3.db.staging_rows ≡ rows =
      ap (staging_of j) staging
      ∙ staging_of-append j w.db.staging_rows rows no_rows
      ∙ staging_of-staged j es in
    let w6 = checked out quiet n limits j w3 in
    let no_mark : w6.db.report_errors ≡ w3.db.report_errors =
      ap
        (λ l.
          w3.db.report_errors
          ++ map (duplicate_error (duplicate_raw_value_chars limits)) (filter (is_duplicate l) l))
        own
      ∙ ap (λ l. w3.db.report_errors ++ map (duplicate_error (duplicate_raw_value_chars limits)) l)
          unique
      ∙ append-nil _ in
    let none_stored : errors_of j w6.db.report_errors ≡ [] =
      ap (errors_of j) (
        no_mark
        ∙ errors
        ∙ ap (λ l. w.db.report_errors ++ l) (reported_none j es clean)
        ∙ append-nil _)
      ∙ no_errors in
    let run = validate_run out quiet n limits j chunks w w2 w3 b summary run1 run2 e in
    let w8 = called (called w6) in
    (
      record (called (called w8)) { db = finish_validation j summary.row_count w8.db },
      record r { row_count = summary.row_count; error_count = 0 },
      run
          ∙ ap (λ l. conclude out n limits j summary (length l) w8) none_stored
          ∙ conclude_clean out quiet n limits j summary w8 eof positive,
      finish_validation-IsReady j summary.row_count w8.db r (ap (find_report j) reports ∙ found)
          status positive (ap length own ∙ length-staged j es ∙ sym counted),
    )
