-- ===== src/Csv/Header.antt =====
-- `_validate_header`: every required column occurs exactly once.
pub mod Once
use service_of_import.Prelude.{
  ℕ, suc, ◌+◌, Text, codes, text_eq, Option, none, some, List, [], ◌∷◌, ◌++◌, map, count, ltb, ◌==◌,
  if◌then◌else◌,
}
use mathlib.Core.Option
use service_of_import.Csv.Issue.{
  ValidationIssue, Scalar, str, RawDict, list, IssueCode, missing_required_column,
  duplicate_required_column, required_columns, column_list,
}
use service_of_import.Csv.RawData.{bounded_raw_data}

-- `header.count(column)`
abbrev pub occurrences : Text → List Text → ℕ
occurrences column header = count (text_eq column) header

-- `header.index(column)`; `none` is the ValueError of a missing column.
unfoldable pub index_of : Text → List Text → Option ℕ
index_of column [] = none
index_of column (x ∷ header) =
    let rest = index_of column header in if text_eq column x then some 0 else Option.map suc rest

unfoldable pub column_issue : Text → RawDict → IssueCode → Text → ValidationIssue
column_issue column raw_data code ending = record {
  line_number = none;
  field_name = some column;
  code = code;
  message = codes "Required column '" ++ column ++ ending;
  raw_data = some raw_data;
}

unfoldable pub header_column : List Text → RawDict → Text → List ValidationIssue
header_column header raw_data column =
    if occurrences column header == 0
    then column_issue column raw_data missing_required_column (codes "' is missing") ∷ []
    else if ltb 1 (occurrences column header)
    then column_issue column raw_data duplicate_required_column (codes "' appears more than once")
      ∷ []
    else []

unfoldable pub header_columns : List Text → RawDict → List Text → List ValidationIssue
header_columns header raw_data [] = []
header_columns header raw_data (c ∷ cs) =
    header_column header raw_data c ++ header_columns header raw_data cs

unfoldable pub validate_header : List Text → ℕ → ℕ → List ValidationIssue
validate_header header value_limit total_limit =
    let raw_data =
      bounded_raw_data ((codes "header", list (map str header)) ∷ []) value_limit total_limit in
    header_columns header raw_data (column_list required_columns)
