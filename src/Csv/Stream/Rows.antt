-- ===== src/Csv/Stream/Rows.antt =====
-- Which rows a run reports as valid, and for which records.
use service_of_import.Prelude.{
  ℕ, ◌+◌, ◌<◌, ◌≤◌, Text, ◌≡◌, ◌≢◌, ◌⊎◌, refl, ap, Option, none, some, List, [], ◌∷◌, ◌++◌, arith,
  Bool-cases, Option-cases, inl, inr, append-nil, ◌==◌,
}
use service_of_import.Errors.{Result, ok, raised}
use service_of_import.Csv.Issue.{
  ValidatedRow, ValidationIssue, LogicalCsvRecord, Columns, postgres_bigint_max,
}
use service_of_import.Csv.Parse.{
  CsvLimits, ParsedRecord, fields, issue, parse_record, contains_surrogate,
}
use service_of_import.Csv.Row.{strip_values}
use service_of_import.Csv.Row.Accepted.{IsAccepted, validate_row-IsAccepted}
use service_of_import.Csv.Stream.{
  Event, valid_row, issues, Run, Verdict, next, halt, fail, report_row, judge_result, judge_parsed,
  is_field_too_large, judge_row, judge_record, follow, validate_records, validate_columns,
  check_header, validate_body, validate_logical_records, validate_csv_stream, column_indexes,
  bad_limits,
}

unfoldable pub rows_of : List Event → List ValidatedRow
rows_of [] = []
rows_of (valid_row r ∷ es) = r ∷ rows_of es
rows_of (issues is ∷ es) = rows_of es

pub rows_of-append : (es fs : List Event) → rows_of (es ++ fs) ≡ rows_of es ++ rows_of fs
unfolding rows_of
rows_of-append [] fs = refl
rows_of-append (valid_row r ∷ es) fs = ap (λ l. r ∷ l) (rows_of-append es fs)
rows_of-append (issues is ∷ es) fs = rows_of-append es fs

-- A row without an empty code or name, and with a quantity that fits BIGINT.
pub record IsFilled (r : ValidatedRow) : Type 0 where
  pub warehouse_code : r.warehouse_code ≢ []
  pub warehouse_name : r.warehouse_name ≢ []
  pub sku : r.sku ≢ []
  pub product_name : r.product_name ≢ []
  pub quantity : r.quantity ≤ postgres_bigint_max

-- Every row is filled, and the record numbers grow strictly from above `low`.
abbrev pub FilledFrom : ℕ → List ValidatedRow → Type 0
FilledFrom low [] = Unit
FilledFrom low (r ∷ rs) = (low < r.line_number) × IsFilled r × FilledFrom r.line_number rs

FilledFrom-mono :
    (low low' : ℕ) (rs : List ValidatedRow) → low' ≤ low → FilledFrom low rs → FilledFrom low' rs
FilledFrom-mono low low' [] le h = tt
FilledFrom-mono low low' (r ∷ rs) le h = (omega arith, h.1, h.2)

IsAccepted-IsFilled :
    (n : ℕ) (values : Columns Text) (r : ValidatedRow) → IsAccepted n values r → IsFilled r
IsAccepted-IsFilled n values r a = record {
  warehouse_code = rw a.warehouse_code a.warehouse_code_given;
  warehouse_name = rw a.warehouse_name a.warehouse_name_given;
  sku = rw a.sku a.sku_given;
  product_name = rw a.product_name a.product_name_given;
  quantity = a.in_range;
}

-- The rows of the verdict on record `n`: none, or one filled row with that number.
abbrev OneRow : ℕ → List Event → Type 0
OneRow n es =
    (rows_of es ≡ [])
    ⊎ ((r : ValidatedRow) × (rows_of es ≡ r ∷ []) × (r.line_number ≡ n) × IsFilled r)

abbrev RowsOf : ℕ → Verdict → Type 0
RowsOf n (next es) = OneRow n es
RowsOf n (halt es) = rows_of es ≡ []
RowsOf n (fail e) = Unit

judge_result-rows :
    (n : ℕ) (r : Result (List ValidationIssue × Option ValidatedRow))
    → ((out : List ValidationIssue) (v : ValidatedRow)
        → r ≡ ok (out, some v)
        → (v.line_number ≡ n) × IsFilled v)
    → RowsOf n (judge_result r)
unfolding judge_result report_row rows_of
judge_result-rows n (ok (i ∷ is, o)) h = inl refl
judge_result-rows n (ok ([], some v)) h =
    let (line, filled) = h [] v refl in inr (v, refl, line, filled)
judge_result-rows n (ok ([], none)) h = inl refl
judge_result-rows n (raised e) h = tt

module _ (limits : CsvLimits) (header : List Text) (columns : Columns ℕ) where
  judge_row-rows : (n : ℕ) (row : List Text) → RowsOf n (judge_row limits header columns n row)
  unfolding judge_row
  judge_row-rows n row = elim (Bool-cases (contains_surrogate row)) [
    | inl bad ↦ rw bad (inl (unfold rows_of in refl))
    | inr good ↦ rw good (
        judge_result-rows n _ (λ out v e.
          let (raw, a) =
            validate_row-IsAccepted row header columns n limits.error_raw_value_chars
              limits.error_raw_total_chars out v e in
          (a.line, IsAccepted-IsFilled n (strip_values raw) v a)))
  ]

  judge_parsed-rows : (n : ℕ) (p : ParsedRecord) → RowsOf n (judge_parsed limits header columns n p)
  unfolding judge_parsed rows_of
  judge_parsed-rows n (fields row) = judge_row-rows n row
  judge_parsed-rows n (issue i) = elim (Bool-cases (is_field_too_large i.code)) [
    | inl e ↦ rw e (inl refl)
    | inr e ↦ rw e refl
  ]

  judge_record-rows :
      (n : ℕ) (r : LogicalCsvRecord) → RowsOf n (judge_record limits header columns n r)
  unfolding judge_record
  judge_record-rows n r = elim (Bool-cases r.truncated) [
    | inl e ↦ simp e (inl (unfold rows_of in refl))
    | inr e ↦ simp e (judge_parsed-rows n (parse_record r (some n) limits))
  ]

  one_row :
      (n : ℕ) (es fs : List Event)
      → OneRow (n + 1) es
      → FilledFrom (n + 1) (rows_of fs)
      → FilledFrom n (rows_of (es ++ fs))
  one_row n es fs (inl e) h =
      rw (rows_of-append, e) (FilledFrom-mono (n + 1) n (rows_of fs) (omega arith) h)
  one_row n es fs (inr (r, e, line, filled)) h =
      rw (rows_of-append, e) (omega arith, filled, rw line h)

  follow-rows :
      (n seen : ℕ) (v : Verdict) (rest : Run)
      → RowsOf (n + 1) v
      → FilledFrom (n + 1) (rows_of rest.events)
      → FilledFrom n (rows_of (follow v seen rest).events)
  unfolding follow
  follow-rows n seen (next es) rest v h = one_row n es rest.events v h
  follow-rows n seen (halt es) rest v h = rw (append-nil es, v) tt
  follow-rows n seen (fail e) rest v h = unfold rows_of in tt

  validate_records-rows :
      (records : List LogicalCsvRecord) (n seen : ℕ)
      → FilledFrom n (rows_of (validate_records limits header columns records n seen).events)
  unfolding validate_records
  validate_records-rows [] n seen = elim (Bool-cases (seen == 0)) [
    | inl e ↦ rw e (unfold rows_of in tt)
    | inr e ↦ rw e (unfold rows_of in tt)
  ]
  validate_records-rows (r ∷ records) n seen =
      follow-rows n (seen + 1) (judge_record limits header columns (n + 1) r) _
        (judge_record-rows (n + 1) r) (validate_records-rows records (n + 1) (seen + 1))

check_header-rows :
    (limits : CsvLimits) (header : List Text) (records : List LogicalCsvRecord)
    (is : List ValidationIssue)
    → FilledFrom 1 (rows_of (check_header limits header records is).events)
unfolding check_header validate_columns
check_header-rows limits header records (i ∷ is) = unfold rows_of in tt
check_header-rows limits header records [] = elim (Option-cases (column_indexes header)) [
  | inl none_found ↦ rw none_found (unfold rows_of in tt)
  | inr (columns, found) ↦ rw found (validate_records-rows limits header columns records 1 0)
]

validate_body-rows :
    (limits : CsvLimits) (records : List LogicalCsvRecord) (p : ParsedRecord)
    → FilledFrom 1 (rows_of (validate_body limits records p).events)
unfolding validate_body
validate_body-rows limits records (issue i) = unfold rows_of in tt
validate_body-rows limits records (fields header) = elim (Bool-cases (contains_surrogate header)) [
  | inl bad ↦ rw bad (unfold rows_of in tt)
  | inr good ↦ rw good (check_header-rows limits header records _)
]

validate_logical_records-rows :
    (limits : CsvLimits) (records : List LogicalCsvRecord)
    → FilledFrom 1 (rows_of (validate_logical_records limits records).events)
unfolding validate_logical_records
validate_logical_records-rows limits [] = unfold rows_of in tt
validate_logical_records-rows limits (r ∷ records) = elim (Bool-cases r.truncated) [
  | inl e ↦ simp e (unfold rows_of in tt)
  | inr e ↦ simp e (validate_body-rows limits records (parse_record r none limits))
]

-- Whether the validation returns or raises, every row that it has reported as valid has codes and
-- names that are not empty and a quantity of at most 2 ^ 63 - 1, and the record numbers of these rows
-- are above 1 and grow strictly.
pub validate_csv_stream-rows :
    (limits : CsvLimits) (chunks : List Text)
    → FilledFrom 1 (rows_of (validate_csv_stream limits chunks).events)
unfolding validate_csv_stream
validate_csv_stream-rows limits chunks = elim (Bool-cases (bad_limits limits)) [
  | inl bad ↦ rw bad (unfold rows_of in tt)
  | inr good ↦ rw good (validate_logical_records-rows limits _)
]
