-- ===== src/Validation/Writes.antt =====
-- What the batch writer stores.
use service_of_import.Prelude.{
  ℕ, ◌≡◌, refl, sym, ◌∙◌, ap, Bool, true, false, List, [], ◌∷◌, ◌++◌, map, append_assoc, append-nil,
  leb, length, if◌then◌else◌,
}
use service_of_import.Errors.{ok}
use service_of_import.Csv.Issue.{ValidatedRow, ValidationIssue}
use service_of_import.Csv.Stream.{Event, valid_row, issues}
use service_of_import.Database.{Db, ReportStagingRow, ReportError}
use service_of_import.Steps.{
  Step, World, Outside, IsQuiet, pure, ◌>>=◌, and_then, called, assert_lock_alive, transaction,
}
use service_of_import.Validation.{
  Writer, new_writer, write_batch, insert_staging, insert_errors, flush_staging, flush_errors,
  flush_all, staging_row, error_row, add_valid_row, add_issue, add_issues, write_events,
}

-- The rows and the issues that the validation hands over, in order.
unfoldable pub staged : ℕ → List Event → List ReportStagingRow
staged j [] = []
staged j (valid_row r ∷ es) = staging_row j r ∷ staged j es
staged j (issues is ∷ es) = staged j es

unfoldable pub reported : ℕ → List Event → List ReportError
reported j [] = []
reported j (valid_row r ∷ es) = reported j es
reported j (issues is ∷ es) = map (error_row j) is ++ reported j es

-- From one world and writer to another, the tables and the batches together have got these rows.
pub record Written (w w' : World) (a b : Writer) (rows : List ReportStagingRow)
    (errors : List ReportError) : Type 0 where
  pub staging :
      w'.db.staging_rows ++ b.staging_batch ≡ (w.db.staging_rows ++ a.staging_batch) ++ rows
  pub report_errors :
      w'.db.report_errors ++ b.error_batch ≡ (w.db.report_errors ++ a.error_batch) ++ errors
  pub reports : w'.db.reports ≡ w.db.reports

abbrev pub Writes : Step Writer → Writer → List ReportStagingRow → List ReportError → Type 0
Writes m a rows errors =
    (w : World) → (b : Writer) × (w' : World) × (m w ≡ (ok b, w')) × Written w w' a b rows errors

Writes-bind :
    (m : Step Writer) (f : Writer → Step Writer) (a : Writer) (r1 r2 : List ReportStagingRow)
    (e1 e2 : List ReportError)
    → Writes m a r1 e1
    → ((b : Writer) → Writes (f b) b r2 e2)
    → Writes (m >>= f) a (r1 ++ r2) (e1 ++ e2)
Writes-bind m f a r1 r2 e1 e2 h k w =
    let (b, w1, run1, p) = h w in
    let (c, w2, run2, q) = k b w1 in
    (
      c,
      w2,
      ap (λ r. and_then r f) run1 ∙ run2,
      record {
        staging = q.staging ∙ ap (λ l. l ++ r2) p.staging ∙ append_assoc _ r1 r2;
        report_errors = q.report_errors ∙ ap (λ l. l ++ e2) p.report_errors ∙ append_assoc _ e1 e2;
        reports = q.reports ∙ p.reports;
      },
    )

module _ (out : Outside) (quiet : IsQuiet out) where
  write_batch-quiet :
      (statement : Db → Db) (w : World)
      → write_batch out statement w ≡ (ok tt, record (called (called w)) { db = statement w.db })
  unfolding write_batch assert_lock_alive transaction
  write_batch-quiet statement w = rw (quiet w.calls) (rw (quiet (called w).calls) refl)

  abbrev FlushesTo : Step Writer → Writer → Writer → Type 0
  FlushesTo m a b = (w : World) → (w' : World) × (m w ≡ (ok b, w')) × Written w w' a b [] []

  flush_staging-FlushesTo :
      (rows : List ReportStagingRow) (errors : List ReportError)
      → FlushesTo
          (flush_staging out rows errors)
          (record { staging_batch = rows; error_batch = errors })
          (record { staging_batch = []; error_batch = errors })
  unfolding flush_staging
  flush_staging-FlushesTo [] errors w = (
    w,
    refl,
    record { staging = sym (append-nil _); report_errors = sym (append-nil _); reports = refl },
  )
  flush_staging-FlushesTo (x ∷ rows) errors w = (
    record (called (called w)) { db = insert_staging (x ∷ rows) w.db },
    rw (write_batch-quiet (insert_staging (x ∷ rows)) w) refl,
    record { staging = refl; report_errors = sym (append-nil _); reports = refl },
  )

  flush_errors-FlushesTo :
      (rows : List ReportStagingRow) (errors : List ReportError)
      → FlushesTo
          (flush_errors out rows errors)
          (record { staging_batch = rows; error_batch = errors })
          (record { staging_batch = rows; error_batch = [] })
  unfolding flush_errors
  flush_errors-FlushesTo rows [] w = (
    w,
    refl,
    record { staging = sym (append-nil _); report_errors = sym (append-nil _); reports = refl },
  )
  flush_errors-FlushesTo rows (x ∷ errors) w = (
    record (called (called w)) { db = insert_errors (x ∷ errors) w.db },
    rw (write_batch-quiet (insert_errors (x ∷ errors)) w) refl,
    record { staging = sym (append-nil _); report_errors = refl; reports = refl },
  )

  FlushesTo-Writes : (m : Step Writer) (a b : Writer) → FlushesTo m a b → Writes m a [] []
  FlushesTo-Writes m a b h w = let (w', run, p) = h w in (b, w', run, p)

abbrev with_rows : Writer → List ReportStagingRow → Writer
with_rows a rows = record a { staging_batch = a.staging_batch ++ rows }

abbrev with_errors : Writer → List ReportError → Writer
with_errors a errors = record a { error_batch = a.error_batch ++ errors }

Writes-with_rows :
    (m : Step Writer) (a : Writer) (rows : List ReportStagingRow)
    → Writes m (with_rows a rows) [] []
    → Writes m a rows []
Writes-with_rows m a rows h w =
    let (b, w', run, p) = h w in
    (
      b,
      w',
      run,
      record {
        staging =
            p.staging ∙ append-nil _ ∙ sym (append_assoc w.db.staging_rows a.staging_batch rows);
        report_errors = p.report_errors;
        reports = p.reports;
      },
    )

Writes-with_errors :
    (m : Step Writer) (a : Writer) (errors : List ReportError)
    → Writes m (with_errors a errors) [] []
    → Writes m a [] errors
Writes-with_errors m a errors h w =
    let (b, w', run, p) = h w in
    (
      b,
      w',
      run,
      record {
        staging = p.staging;
        report_errors =
            p.report_errors
            ∙ append-nil _
            ∙ sym (append_assoc w.db.report_errors a.error_batch errors);
        reports = p.reports;
      },
    )

Writes-pure : (a : Writer) → Writes (pure a) a [] []
Writes-pure a w = (
  a,
  w,
  refl,
  record { staging = sym (append-nil _); report_errors = sym (append-nil _); reports = refl },
)

Writes-if :
    (b : Bool) (m n : Step Writer) (a : Writer) (rows : List ReportStagingRow)
    (errors : List ReportError)
    → Writes m a rows errors
    → Writes n a rows errors
    → Writes (if b then m else n) a rows errors
Writes-if true m n a rows errors h k = h
Writes-if false m n a rows errors h k = k

module _ (out : Outside) (quiet : IsQuiet out) (batch_size j : ℕ) where
  add_valid_row-Writes :
      (r : ValidatedRow) (a : Writer)
      → Writes (add_valid_row out batch_size j r a) a (staging_row j r ∷ []) []
  unfolding add_valid_row
  add_valid_row-Writes r a =
      let b = with_rows a (staging_row j r ∷ []) in
      Writes-with_rows (add_valid_row out batch_size j r a) a (staging_row j r ∷ []) (
        Writes-if (leb batch_size (length b.staging_batch))
          (flush_staging out b.staging_batch b.error_batch) (pure b) b [] []
          (FlushesTo-Writes out quiet (flush_staging out b.staging_batch b.error_batch) b _
            (flush_staging-FlushesTo out quiet b.staging_batch b.error_batch))
          (Writes-pure b))

  add_issue-Writes :
      (i : ValidationIssue) (a : Writer)
      → Writes (add_issue out batch_size j i a) a [] (error_row j i ∷ [])
  unfolding add_issue
  add_issue-Writes i a =
      let b = with_errors a (error_row j i ∷ []) in
      Writes-with_errors (add_issue out batch_size j i a) a (error_row j i ∷ []) (
        Writes-if (leb batch_size (length b.error_batch))
          (flush_errors out b.staging_batch b.error_batch) (pure b) b [] []
          (FlushesTo-Writes out quiet (flush_errors out b.staging_batch b.error_batch) b _
            (flush_errors-FlushesTo out quiet b.staging_batch b.error_batch))
          (Writes-pure b))

  add_issues-Writes :
      (is : List ValidationIssue) (a : Writer)
      → Writes (add_issues out batch_size j is a) a [] (map (error_row j) is)
  unfolding add_issues
  add_issues-Writes [] a = Writes-pure a
  add_issues-Writes (i ∷ is) a =
      Writes-bind (add_issue out batch_size j i a) (add_issues out batch_size j is) a [] []
        (error_row j i ∷ []) (map (error_row j) is) (add_issue-Writes i a) (add_issues-Writes is)

  pub write_events-Writes :
      (es : List Event) (a : Writer)
      → Writes (write_events out batch_size j es a) a (staged j es) (reported j es)
  unfolding write_events staged reported
  write_events-Writes [] a = Writes-pure a
  write_events-Writes (valid_row r ∷ es) a =
      Writes-bind (add_valid_row out batch_size j r a) (write_events out batch_size j es) a
        (staging_row j r ∷ []) (staged j es) [] (reported j es) (add_valid_row-Writes r a)
        (write_events-Writes es)
  write_events-Writes (issues is ∷ es) a =
      Writes-bind (add_issues out batch_size j is a) (write_events out batch_size j es) a []
        (staged j es) (map (error_row j) is) (reported j es) (add_issues-Writes is a)
        (write_events-Writes es)

  pub flush_all-new_writer :
      (a : Writer) (w : World)
      → (w' : World) × (flush_all out a w ≡ (ok new_writer, w')) × Written w w' a new_writer [] []
  unfolding flush_all
  flush_all-new_writer a w =
      let (w1, run1, p) = flush_staging-FlushesTo out quiet a.staging_batch a.error_batch w in
      let (w2, run2, q) = flush_errors-FlushesTo out quiet [] a.error_batch w1 in
      (
        w2,
        ap (λ r. and_then r (λ b. flush_errors out b.staging_batch b.error_batch)) run1 ∙ run2,
        record {
          staging = q.staging ∙ append-nil _ ∙ p.staging;
          report_errors = q.report_errors ∙ append-nil _ ∙ p.report_errors;
          reports = q.reports ∙ p.reports;
        },
      )

  -- However large the batches are, when no call to the outside fails, the batch writer has stored
  -- behind its last flush exactly the rows and the issues that the validation handed over, in their
  -- order and behind what the tables held, and has changed no report.
  pub write_events-stored :
      (es : List Event) (w : World)
      → (w' : World) × ((write_events out batch_size j es new_writer >>= flush_all out) w
          ≡ (ok new_writer, w'))
        × (w'.db.staging_rows ≡ w.db.staging_rows ++ staged j es)
        × (w'.db.report_errors ≡ w.db.report_errors ++ reported j es)
        × (w'.db.reports ≡ w.db.reports)
  write_events-stored es w =
      let (b, w1, run1, p) = write_events-Writes es new_writer w in
      let (w2, run2, q) = flush_all-new_writer b w1 in
      (
        w2,
        ap (λ r. and_then r (flush_all out)) run1 ∙ run2,
        sym (append-nil _)
            ∙ q.staging
            ∙ append-nil _
            ∙ p.staging
            ∙ ap (λ l. l ++ staged j es) (append-nil _),
        sym (append-nil _)
            ∙ q.report_errors
            ∙ append-nil _
            ∙ p.report_errors
            ∙ ap (λ l. l ++ reported j es) (append-nil _),
        q.reports ∙ p.reports,
      )
