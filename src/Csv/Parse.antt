-- ===== src/Csv/Parse.antt =====
-- `_parse_record`, the issues that it and the stream report, and `_contains_surrogate`.
use service_of_import.Prelude.{
  ℕ, Text, codes, str_nat, Bool, true, ◌&&◌, Option, none, some, List, [], ◌∷◌, ◌++◌, any, leb,
}
use service_of_import.Csv.Issue.{
  ValidationIssue, RawDict, scalar, str, int, flag, set_key, LogicalCsvRecord, csv_field_too_large,
  csv_record_too_large, malformed_csv, invalid_utf8,
}
use service_of_import.Csv.RawData.{bounded_raw_data, truncated_key}
use service_of_import.Csv.Reader.{
  field_limit, bad_syntax, row, stop, error, next_row, reset, lines_of,
}

pub record CsvLimits : Type 0 where
  pub max_field_chars : ℕ
  pub max_record_chars : ℕ
  pub error_raw_value_chars : ℕ
  pub error_raw_total_chars : ℕ

unfoldable pub invalid_utf8_issue : Option ℕ → ValidationIssue
invalid_utf8_issue line_number = record {
  line_number = line_number;
  field_name = none;
  code = invalid_utf8;
  message = codes "CSV must be encoded as UTF-8";
  raw_data = none;
}

unfoldable pub contains_surrogate : List Text → Bool
contains_surrogate values = any (any (λ c. leb 0xDC80 c && leb c 0xDCFF)) values

unfoldable pub malformed_csv_issue : ℕ → ValidationIssue
malformed_csv_issue line_number = record {
  line_number = some line_number;
  field_name = none;
  code = malformed_csv;
  message = codes "CSV syntax is malformed";
  raw_data = none;
}

-- The preview of a record, bounded.
abbrev preview_data : CsvLimits → Text → RawDict
preview_data limits text =
    bounded_raw_data ((codes "record_preview", scalar (str text)) ∷ []) limits.error_raw_value_chars
      limits.error_raw_total_chars

unfoldable pub record_too_large_issue : Option ℕ → LogicalCsvRecord → CsvLimits → ValidationIssue
record_too_large_issue line_number r limits = record {
  line_number = line_number;
  field_name = none;
  code = csv_record_too_large;
  message =
      codes "CSV logical record exceeds "
      ++ (str_nat limits.max_record_chars ++ codes " characters");
  raw_data = some (
      set_key
        (set_key
          (set_key (preview_data limits r.text) (codes "record_chars") (scalar (int r.char_count)))
          (codes "max_record_chars") (scalar (int limits.max_record_chars)))
        truncated_key (scalar (flag true)));
}

unfoldable pub field_too_large_issue : Option ℕ → Text → CsvLimits → ValidationIssue
field_too_large_issue line_number text limits = record {
  line_number = line_number;
  field_name = none;
  code = csv_field_too_large;
  message = codes "CSV field exceeds " ++ (str_nat limits.max_field_chars ++ codes " characters");
  raw_data = some (
      set_key
        (set_key (preview_data limits text) (codes "max_field_chars")
          (scalar (int limits.max_field_chars)))
        truncated_key (scalar (flag true)));
}

-- `(row, None)` or `(None, issue)`
pub data ParsedRecord : Type 0 where
  fields : List Text → ParsedRecord
  issue : ValidationIssue → ParsedRecord

abbrev or_one : Option ℕ → ℕ
or_one none = 1
or_one (some n) = n

-- The second `next(reader)`: only the end of the text is right.
unfoldable pub expect_end : Option ℕ → CsvLimits → List Text → List Text → ParsedRecord
expect_end line_number limits values lines = elim (next_row limits.max_field_chars lines reset) [
  | stop ↦ fields values
  | _ ↦ issue (malformed_csv_issue (or_one line_number))
]

unfoldable pub parse_record : LogicalCsvRecord → Option ℕ → CsvLimits → ParsedRecord
unfolding expect_end
parse_record r line_number limits = elim (next_row limits.max_field_chars (lines_of r.text) reset) [
  | stop ↦ expect_end line_number limits [] []
  | row values lines ↦ expect_end line_number limits values lines
  | error field_limit ↦ issue (field_too_large_issue line_number r.text limits)
  | error bad_syntax ↦ issue (malformed_csv_issue (or_one line_number))
]
