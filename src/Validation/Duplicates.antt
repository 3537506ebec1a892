-- ===== src/Validation/Duplicates.antt =====
-- The search for duplicates, against the condition under which the stocks can be applied.
use service_of_import.Prelude.{
  ℕ, text_eq, text_eq_iff, ◌≡◌, refl, Bool, true, false, ◌&&◌, none, List, [], ◌∷◌, ◌++◌, All, map,
  filter, any, arith, ltb, ◌<◌, Bool-cases, inl, inr, length, length-append,
}
use service_of_import.Database.{Db, ReportStagingRow, ReportError}
use service_of_import.Stocks.{staging_of}
use service_of_import.Stocks.Resolve.{row_quantity, is_row}
use service_of_import.Stocks.Distinct.{IsDistinct}
use service_of_import.Validation.{is_duplicate, insert_duplicate_errors, duplicate_error}

-- The line numbers increase.
abbrev pub IsNumbered : List ReportStagingRow → Type 0
IsNumbered [] = Unit
IsNumbered (s ∷ ss) = All (λ t. s.line_number < t.line_number) ss × IsNumbered ss

abbrev Unmarked : List ReportStagingRow → List ReportStagingRow → Type 0
Unmarked rows part = All (λ t. is_duplicate rows t ≡ false) part

-- A test that holds of an element of a list holds of some element.
abbrev Among : List ReportStagingRow → ReportStagingRow → Type 0
Among rows s = (p : ReportStagingRow → Bool) → p s ≡ true → any p rows ≡ true

later_differs :
    (rows ss : List ReportStagingRow) (s : ReportStagingRow)
    → Among rows s
    → Unmarked rows ss
    → All (λ t. s.line_number < t.line_number) ss
    → row_quantity s.warehouse_code s.sku ss ≡ none
unfolding row_quantity is_duplicate
later_differs rows [] s m u l = refl
later_differs rows (t ∷ ts) s m u l =
    let ih = later_differs rows ts s m u.1 l.1 in
    elim (Bool-cases (is_row s.warehouse_code s.sku t)) [
      | inr e ↦ ground (arith, ih)
      | inl e ↦
          let marked =
            m
              (λ (x : ReportStagingRow).
                text_eq x.warehouse_code t.warehouse_code
                && text_eq x.sku t.sku
                && ltb x.line_number t.line_number)
              (ground (
                arith,
                l.0,
                text_eq_iff t.warehouse_code s.warehouse_code,
                text_eq_iff s.warehouse_code t.warehouse_code,
                text_eq_iff t.sku s.sku,
                text_eq_iff s.sku t.sku,
              )) in
          absurd (ground (arith, u.0))
    ]

suffix-IsDistinct :
    (rows part : List ReportStagingRow)
    → All (Among rows) part
    → Unmarked rows part
    → IsNumbered part
    → IsDistinct part
suffix-IsDistinct rows [] m u l = tt
suffix-IsDistinct rows (s ∷ ss) m u l =
    (later_differs rows ss s m.0 u.1 l.0, suffix-IsDistinct rows ss m.1 u.1 l.1)

Among-more :
    (x : ReportStagingRow) (rows part : List ReportStagingRow)
    → All (Among rows) part
    → All (Among (x ∷ rows)) part
unfolding any
Among-more x rows [] h = tt
Among-more x rows (s ∷ ss) h = (λ p e. ground (arith, h.0 p e), Among-more x rows ss h.1)

All-Among : (rows : List ReportStagingRow) → All (Among rows) rows
unfolding any
All-Among [] = tt
All-Among (s ∷ ss) = (λ p e. ground arith, Among-more s ss ss (All-Among ss))

filter-Unmarked :
    (rows part : List ReportStagingRow) → filter (is_duplicate rows) part ≡ [] → Unmarked rows part
unfolding filter
filter-Unmarked rows [] e = tt
filter-Unmarked rows (t ∷ ts) e = elim (Bool-cases (is_duplicate rows t)) [
  | inl f ↦ absurd (ground arith)
  | inr f ↦ (f, filter-Unmarked rows ts (ground arith))
]

added_none :
    (chars : ℕ) (errors : List ReportError) (rows : List ReportStagingRow)
    → length (errors ++ map (duplicate_error chars) rows) ≡ length errors
    → rows ≡ []
added_none chars errors [] h = refl
added_none chars errors (r ∷ rows) h =
    absurd (omega (arith, length-append errors (map (duplicate_error chars) (r ∷ rows))))

-- If the search for duplicates adds no error, no two staging rows of the report are of one warehouse
-- and product, which is what the upsert of balances needs; for staging rows in the order of their
-- line numbers.
pub insert_duplicate_errors-IsDistinct :
    (chars report_id : ℕ) (db : Db)
    → IsNumbered (staging_of report_id db.staging_rows)
    → length (insert_duplicate_errors chars report_id db).report_errors ≡ length db.report_errors
    → IsDistinct (staging_of report_id db.staging_rows)
unfolding insert_duplicate_errors
insert_duplicate_errors-IsDistinct chars i db l e =
    let rows = staging_of i db.staging_rows in
    suffix-IsDistinct rows rows (All-Among rows)
      (filter-Unmarked rows rows
        (added_none chars db.report_errors (filter (is_duplicate rows) rows) e))
      l
