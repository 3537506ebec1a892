-- ===== src/Csv/Stream/Clean.antt =====
-- A validation that reports no issue has read the whole report, and has accepted every data record.
use service_of_import.Prelude.{
  ℕ, ◌+◌, ◌<◌, Text, ◌≡◌, refl, Bool, true, false, Option, none, some, List, [], ◌∷◌, count,
  count-append, any, any-append, arith, Bool-cases, Option-cases, inl, inr,
}
use service_of_import.Errors.{Result, ok, raised}
use service_of_import.Csv.Issue.{
  ValidatedRow, ValidationIssue, CsvValidationSummary, LogicalCsvRecord, Columns,
}
use service_of_import.Csv.Row.Verdict.{IsVerdict, validate_row-IsVerdict}
use service_of_import.Csv.Parse.{
  CsvLimits, ParsedRecord, fields, issue, parse_record, contains_surrogate,
}
use service_of_import.Csv.Stream.{
  Event, valid_row, issues, Run, Verdict, next, halt, fail, report_row, judge_result, judge_parsed,
  is_field_too_large, follow, check_header, validate_columns, judge_row, judge_record,
  validate_records, validate_body, validate_logical_records, validate_csv_stream, column_indexes,
  bad_limits,
}

abbrev pub is_issue : Event → Bool
is_issue (valid_row r) = false
is_issue (issues []) = false
is_issue (issues (i ∷ is)) = true

abbrev pub is_accepted : Event → Bool
is_accepted (valid_row r) = true
is_accepted (issues is) = false

-- An issue, or one accepted row, for one verdict.
abbrev ReportsOnce : Verdict → Type 0
ReportsOnce (next es) = any is_issue es ≡ false → count is_accepted es ≡ 1
ReportsOnce (halt es) = any is_issue es ≡ true
ReportsOnce (fail e) = Unit

report_row-once :
    (v : List ValidationIssue × Option ValidatedRow)
    → IsVerdict v
    → any is_issue (report_row v) ≡ false
    → count is_accepted (report_row v) ≡ 1
unfolding report_row any count
report_row-once (i ∷ is, r) h clean = cc
report_row-once ([], some r) h clean = refl
report_row-once ([], none) (inl (e, (v, absent))) clean = absurd (ground arith)
report_row-once ([], none) (inr (e, absent)) clean = absurd (e refl)

judge_result-once :
    (r : Result (List ValidationIssue × Option ValidatedRow))
    → ((v : List ValidationIssue × Option ValidatedRow) → r ≡ ok v → IsVerdict v)
    → ReportsOnce (judge_result r)
unfolding judge_result
judge_result-once (ok v) h = report_row-once v (h v refl)
judge_result-once (raised e) h = tt

module _ (limits : CsvLimits) (header : List Text) (columns : Columns ℕ) where
  judge_row-once : (n : ℕ) (row : List Text) → ReportsOnce (judge_row limits header columns n row)
  unfolding judge_row any
  judge_row-once n row = elim (Bool-cases (contains_surrogate row)) [
    | inl bad ↦ rw bad (λ clean. cc)
    | inr good ↦ rw good (
        judge_result-once _ (
          validate_row-IsVerdict row header columns n limits.error_raw_value_chars
            limits.error_raw_total_chars))
  ]

  judge_parsed-once :
      (n : ℕ) (p : ParsedRecord) → ReportsOnce (judge_parsed limits header columns n p)
  unfolding judge_parsed any
  judge_parsed-once n (fields row) = judge_row-once n row
  judge_parsed-once n (issue i) = elim (Bool-cases (is_field_too_large i.code)) [
    | inl e ↦ rw e (λ clean. cc)
    | inr e ↦ rw e refl
  ]

  judge_record-once :
      (n : ℕ) (r : LogicalCsvRecord) → ReportsOnce (judge_record limits header columns n r)
  unfolding judge_record any
  judge_record-once n r = elim (Bool-cases r.truncated) [
    | inl e ↦ simp e (λ clean. cc)
    | inr e ↦ simp e (judge_parsed-once n (parse_record r (some n) limits))
  ]

-- What a run over the data records behind `seen` ones promises.
abbrev pub IsClean : ℕ → Run → Type 0
IsClean seen r =
    (s : CsvValidationSummary)
    → r.outcome ≡ ok s
    → any is_issue r.events ≡ false
    → (s.reached_eof ≡ true) × (0 < s.row_count) × (s.row_count ≡ seen + count is_accepted r.events)

follow-IsClean :
    (v : Verdict) (seen : ℕ) (rest : Run)
    → ReportsOnce v
    → IsClean (seen + 1) rest
    → IsClean seen (follow v (seen + 1) rest)
unfolding follow
follow-IsClean (next es) seen rest once h = λ s e clean.
    let (eof, positive, counted) = h s e (ground (arith, any-append is_issue es rest.events)) in
    let once' = once (ground (arith, any-append is_issue es rest.events)) in
    (eof, positive, omega (arith, once', count-append is_accepted es rest.events))
follow-IsClean (halt es) seen rest once h =
    λ s e clean. absurd (ground (arith, any-append is_issue es []))
follow-IsClean (fail x) seen rest once h = λ s e clean. cc

validate_records-IsClean :
    (limits : CsvLimits) (header : List Text) (columns : Columns ℕ)
    (records : List LogicalCsvRecord) (n seen : ℕ)
    → IsClean seen (validate_records limits header columns records n seen)
unfolding validate_records any count
validate_records-IsClean limits header columns [] n seen = λ s e clean. ground arith
validate_records-IsClean limits header columns (r ∷ records) n seen =
    follow-IsClean (judge_record limits header columns (n + 1) r) seen _
      (judge_record-once limits header columns (n + 1) r)
      (validate_records-IsClean limits header columns records (n + 1) (seen + 1))

check_header-IsClean :
    (limits : CsvLimits) (header : List Text) (records : List LogicalCsvRecord)
    (is : List ValidationIssue)
    → IsClean 0 (check_header limits header records is)
unfolding check_header validate_columns any
check_header-IsClean limits header records (i ∷ is) = λ s e clean. cc
check_header-IsClean limits header records [] = elim (Option-cases (column_indexes header)) [
  | inl none_found ↦ λ s e clean. absurd (ground arith)
  | inr (columns, found) ↦ rw found (validate_records-IsClean limits header columns records 1 0)
]

validate_body-IsClean :
    (limits : CsvLimits) (records : List LogicalCsvRecord) (p : ParsedRecord)
    → IsClean 0 (validate_body limits records p)
unfolding validate_body any
validate_body-IsClean limits records (issue i) = λ s e clean. cc
validate_body-IsClean limits records (fields header) =
    elim (Bool-cases (contains_surrogate header)) [
      | inl bad ↦ rw bad (λ s e clean. cc)
      | inr good ↦ rw good (check_header-IsClean limits header records _)
    ]

validate_logical_records-IsClean :
    (limits : CsvLimits) (records : List LogicalCsvRecord)
    → IsClean 0 (validate_logical_records limits records)
unfolding validate_logical_records any
validate_logical_records-IsClean limits [] = λ s e clean. cc
validate_logical_records-IsClean limits (r ∷ records) = elim (Bool-cases r.truncated) [
  | inl e ↦ simp e (λ s e clean. cc)
  | inr e ↦ simp e (validate_body-IsClean limits records (parse_record r none limits))
]

pub validate_csv_stream-clean :
    (limits : CsvLimits) (chunks : List Text) (s : CsvValidationSummary)
    → (validate_csv_stream limits chunks).outcome ≡ ok s
    → any is_issue (validate_csv_stream limits chunks).events ≡ false
    → (s.reached_eof ≡ true)
      × (0 < s.row_count)
      × (s.row_count ≡ count is_accepted (validate_csv_stream limits chunks).events)
unfolding validate_csv_stream
validate_csv_stream-clean limits chunks = elim (Bool-cases (bad_limits limits)) [
  | inl bad ↦ rw bad (λ s e clean. cc)
  | inr good ↦ rw good (λ s e clean.
      let (eof, positive, counted) = validate_logical_records-IsClean limits _ s e clean in
      (eof, positive, omega arith))
]
