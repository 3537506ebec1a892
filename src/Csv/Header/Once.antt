-- ===== src/Csv/Header/Once.antt =====
-- What `_validate_header` reports: the required columns that do not occur exactly once.
use service_of_import.Prelude.{
  ℕ, suc, Text, text_eq, text_eq_iff, ◌≡◌, ◌≢◌, refl, ap, sym, Bool, not, Option, some, List, [],
  ◌∷◌, map, filter, count, get_elem?, All, ◌==◌, arith, codes, Bool-cases, inl, inr, if◌then◌else◌,
}
use service_of_import.Csv.Issue.{
  ValidationIssue, IssueCode, missing_required_column, duplicate_required_column, required_columns,
  column_list, RawDict, str, list,
}
use service_of_import.Csv.RawData.{bounded_raw_data}
use service_of_import.Csv.Header.{
  index_of, occurrences, column_issue, header_column, header_columns, validate_header,
}

-- The column and the code of an issue.
abbrev pub blame : ValidationIssue → Option Text × IssueCode
blame i = (i.field_name, i.code)

-- What the docs promise of a column that does not occur once.
abbrev pub fault : List Text → Text → Option Text × IssueCode
fault header column = (
  some column,
  if occurrences column header == 0 then missing_required_column else duplicate_required_column,
)

abbrev pub is_faulty : List Text → Text → Bool
is_faulty header column = not (occurrences column header == 1)

header_columns_lem :
    (header : List Text) (raw_data : RawDict) (cs : List Text)
    → map blame (header_columns header raw_data cs)
      ≡ map (fault header) (filter (is_faulty header) cs)
unfolding header_columns header_column column_issue filter
header_columns_lem header raw_data [] = refl
header_columns_lem header raw_data (c ∷ cs) = ground (arith, header_columns_lem header raw_data cs)

-- The issues name exactly the required columns whose number of occurrences is not one, in order,
-- as missing or as duplicated.
pub validate_header_faults :
    (header : List Text) (value_limit total_limit : ℕ)
    → map blame (validate_header header value_limit total_limit)
      ≡ map (fault header) (filter (is_faulty header) (column_list required_columns))
unfolding validate_header
validate_header_faults header l t =
    header_columns_lem header (bounded_raw_data ((codes "header", list (map str header)) ∷ []) l t)
      (column_list required_columns)

header_columns-nil :
    (header : List Text) (raw_data : RawDict) (cs : List Text)
    → header_columns header raw_data cs ≡ []
    → All (λ c. occurrences c header ≡ 1) cs
unfolding header_columns header_column
header_columns-nil header raw_data [] h = tt
header_columns-nil header raw_data (c ∷ cs) h =
    ground (arith, header_columns-nil header raw_data cs)

pub validate_header-nil :
    (header : List Text) (value_limit total_limit : ℕ)
    → validate_header header value_limit total_limit ≡ []
    → All (λ c. occurrences c header ≡ 1) (column_list required_columns)
unfolding validate_header
validate_header-nil header l t h = header_columns-nil header _ (column_list required_columns) h

-- A column that occurs has an index, and the header holds the column there.
pub index_of-found :
    (c : Text) (header : List Text)
    → occurrences c header ≢ 0
    → (i : ℕ) × (index_of c header ≡ some i) × (get_elem? header i ≡ some c)
unfolding count index_of
index_of-found c [] h = absurd (h refl)
index_of-found c (x ∷ header) h = elim (Bool-cases (text_eq c x)) [
  | inl e ↦ (0, rw e, ap some (sym ((text_eq_iff c x).0 e)))
  | inr e ↦
      let (i, at, holds) = index_of-found c header (ground arith) in (suc i, rw (e, at), holds)
]
