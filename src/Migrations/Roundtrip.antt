-- ===== src/Migrations/Roundtrip.antt =====
-- A revision and back again.
use service_of_import.Prelude.{
  Text, codes, text_eq, text_eq_refl, Bool, true, false, not, List, [], ◌∷◌, filter, any, All, ◌≡◌,
  refl, ap, ◌∙◌, arith, Bool-cases, inl, inr,
}
use service_of_import.Errors.{Result, ok, ◌>>=◌}
use service_of_import.Migrations.Operations.{
  Table, Index, Schema, has_name, index_has_name, refers_to, is_on, without, create_table,
  create_index, drop_index, drop_table,
}
use service_of_import.Migrations.{
  reports_table, warehouses_table, products_table, stock_balances_table, report_staging_rows_table,
  report_errors_table, created_desc_index, queue_index, balances_index, staging_index, errors_index,
  create_initial, drop_initial,
}

pub step : {A B : Type 0} {m : Result A} {a : A} (f : A → Result B) → m ≡ ok a → (m >>= f) ≡ f a
step f e = ap (λ x. x >>= f) e

abbrev schema : List Table → List Index → Schema
schema ts is = record { tables = ts; indexes = is }

filter_none :
    (p : Index → Bool) (is : List Index) → any p is ≡ false → filter (λ i. not (p i)) is ≡ is
unfolding filter any
filter_none p [] h = refl
filter_none p (i ∷ is) h = elim (Bool-cases (p i)) [
  | inl e ↦ absurd (ground arith)
  | inr e ↦ rw e (ap (λ l. i ∷ l) (filter_none p is (ground arith)))
]

create_table-fresh :
    (t : Table) (ts : List Table) (is : List Index)
    → any (has_name t.name) ts ≡ false
    → create_table t (schema ts is) ≡ ok (schema (t ∷ ts) is)
unfolding create_table
create_table-fresh t ts is h = rw h refl

create_index-fresh :
    (i : Index) (ts : List Table) (is : List Index)
    → any (has_name i.table) ts ≡ true
    → any (index_has_name i.name) is ≡ false
    → create_index i (schema ts is) ≡ ok (schema ts (i ∷ is))
unfolding create_index
create_index-fresh i ts is h k = rw (h, k) refl

drop_index_newest :
    (i : Index) (ts : List Table) (is : List Index)
    → drop_index i.name (schema ts (i ∷ is)) ≡ ok (schema ts is)
unfolding drop_index without any
drop_index_newest i ts is = rw (text_eq_refl i.name) refl

drop_table_newest :
    (t : Table) (ts : List Table) (is : List Index)
    → any (refers_to t.name) ts ≡ false
    → any (is_on t.name) is ≡ false
    → drop_table t.name (schema (t ∷ ts) is) ≡ ok (schema ts is)
unfolding drop_table without any
drop_table_newest t ts is h k =
    rw (text_eq_refl t.name) (rw (h, filter_none (is_on t.name) is k) refl)

-- The schema has none of the names, and nothing in it refers to a table of them.
abbrev pub IsApart : List Text → List Text → Schema → Type 0
IsApart table_names index_names s =
    All
      (λ n.
        (any (has_name n) s.tables ≡ false)
        × (any (refers_to n) s.tables ≡ false)
        × (any (is_on n) s.indexes ≡ false))
      table_names
    × All (λ n. any (index_has_name n) s.indexes ≡ false) index_names

abbrev pub initial_tables : List Text
initial_tables =
    reports_table.name ∷ warehouses_table.name ∷ products_table.name ∷ stock_balances_table.name
    ∷ report_staging_rows_table.name ∷ report_errors_table.name ∷ []

abbrev pub initial_indexes : List Text
initial_indexes =
    created_desc_index.name ∷ queue_index.name ∷ balances_index.name ∷ staging_index.name
    ∷ errors_index.name ∷ []

create_initial_apart :
    (s : Schema)
    → IsApart initial_tables initial_indexes s
    → create_initial s
      ≡ ok (
          schema
            (report_errors_table ∷ report_staging_rows_table ∷ stock_balances_table ∷ products_table
              ∷ warehouses_table ∷ reports_table ∷ s.tables)
            (errors_index ∷ staging_index ∷ balances_index ∷ queue_index ∷ created_desc_index
              ∷ s.indexes))
unfolding create_initial any text_eq codes
create_initial_apart s
      (
        (
          (n0, r0, o0),
          ((n1, r1, o1), ((n2, r2, o2), ((n3, r3, o3), ((n4, r4, o4), ((n5, r5, o5), u))))),
        ),
        (x0, (x1, (x2, (x3, (x4, v))))),
      ) =
    step _ (create_table-fresh reports_table (s.tables) (s.indexes) n0)
    ∙ step _ (create_index-fresh created_desc_index (reports_table ∷ s.tables) (s.indexes) refl x0)
    ∙ step _ (
        create_index-fresh queue_index (reports_table ∷ s.tables) (created_desc_index ∷ s.indexes)
          refl x1)
    ∙ step _ (
        create_table-fresh warehouses_table (reports_table ∷ s.tables)
          (queue_index ∷ created_desc_index ∷ s.indexes) n1)
    ∙ step _ (
        create_table-fresh products_table (warehouses_table ∷ reports_table ∷ s.tables)
          (queue_index ∷ created_desc_index ∷ s.indexes) n2)
    ∙ step _ (
        create_table-fresh stock_balances_table
          (products_table ∷ warehouses_table ∷ reports_table ∷ s.tables)
          (queue_index ∷ created_desc_index ∷ s.indexes) n3)
    ∙ step _ (
        create_index-fresh balances_index
          (stock_balances_table ∷ products_table ∷ warehouses_table ∷ reports_table ∷ s.tables)
          (queue_index ∷ created_desc_index ∷ s.indexes) refl x2)
    ∙ step _ (
        create_table-fresh report_staging_rows_table
          (stock_balances_table ∷ products_table ∷ warehouses_table ∷ reports_table ∷ s.tables)
          (balances_index ∷ queue_index ∷ created_desc_index ∷ s.indexes) n4)
    ∙ step _ (
        create_index-fresh staging_index
          (report_staging_rows_table ∷ stock_balances_table ∷ products_table ∷ warehouses_table
            ∷ reports_table ∷ s.tables)
          (balances_index ∷ queue_index ∷ created_desc_index ∷ s.indexes) refl x3)
    ∙ step _ (
        create_table-fresh report_errors_table
          (report_staging_rows_table ∷ stock_balances_table ∷ products_table ∷ warehouses_table
            ∷ reports_table ∷ s.tables)
          (staging_index ∷ balances_index ∷ queue_index ∷ created_desc_index ∷ s.indexes) n5)
    ∙ create_index-fresh errors_index
        (report_errors_table ∷ report_staging_rows_table ∷ stock_balances_table ∷ products_table
          ∷ warehouses_table ∷ reports_table ∷ s.tables)
        (staging_index ∷ balances_index ∷ queue_index ∷ created_desc_index ∷ s.indexes) refl x4

drop_initial_apart :
    (s : Schema)
    → IsApart initial_tables initial_indexes s
    → drop_initial (
        schema
          (report_errors_table ∷ report_staging_rows_table ∷ stock_balances_table ∷ products_table
            ∷ warehouses_table ∷ reports_table ∷ s.tables)
          (errors_index ∷ staging_index ∷ balances_index ∷ queue_index ∷ created_desc_index
            ∷ s.indexes))
      ≡ ok s
unfolding drop_initial any text_eq codes
drop_initial_apart s
      (
        (
          (n0, r0, o0),
          ((n1, r1, o1), ((n2, r2, o2), ((n3, r3, o3), ((n4, r4, o4), ((n5, r5, o5), u))))),
        ),
        (x0, (x1, (x2, (x3, (x4, v))))),
      ) =
    step _ (
      drop_index_newest errors_index
        (report_errors_table ∷ report_staging_rows_table ∷ stock_balances_table ∷ products_table
          ∷ warehouses_table ∷ reports_table ∷ s.tables)
        (staging_index ∷ balances_index ∷ queue_index ∷ created_desc_index ∷ s.indexes))
    ∙ step _ (
        drop_table_newest report_errors_table
          (report_staging_rows_table ∷ stock_balances_table ∷ products_table ∷ warehouses_table
            ∷ reports_table ∷ s.tables)
          (staging_index ∷ balances_index ∷ queue_index ∷ created_desc_index ∷ s.indexes) r5 o5)
    ∙ step _ (
        drop_index_newest staging_index
          (report_staging_rows_table ∷ stock_balances_table ∷ products_table ∷ warehouses_table
            ∷ reports_table ∷ s.tables)
          (balances_index ∷ queue_index ∷ created_desc_index ∷ s.indexes))
    ∙ step _ (
        drop_table_newest report_staging_rows_table
          (stock_balances_table ∷ products_table ∷ warehouses_table ∷ reports_table ∷ s.tables)
          (balances_index ∷ queue_index ∷ created_desc_index ∷ s.indexes) r4 o4)
    ∙ step _ (
        drop_index_newest balances_index
          (stock_balances_table ∷ products_table ∷ warehouses_table ∷ reports_table ∷ s.tables)
          (queue_index ∷ created_desc_index ∷ s.indexes))
    ∙ step _ (
        drop_table_newest stock_balances_table
          (products_table ∷ warehouses_table ∷ reports_table ∷ s.tables)
          (queue_index ∷ created_desc_index ∷ s.indexes) r3 o3)
    ∙ step _ (
        drop_table_newest products_table (warehouses_table ∷ reports_table ∷ s.tables)
          (queue_index ∷ created_desc_index ∷ s.indexes) r2 o2)
    ∙ step _ (
        drop_table_newest warehouses_table (reports_table ∷ s.tables)
          (queue_index ∷ created_desc_index ∷ s.indexes) r1 o1)
    ∙ step _
        (drop_index_newest queue_index (reports_table ∷ s.tables) (created_desc_index ∷ s.indexes))
    ∙ step _ (drop_index_newest created_desc_index (reports_table ∷ s.tables) (s.indexes))
    ∙ drop_table_newest reports_table (s.tables) (s.indexes) r0 o0

-- On any schema without the names of the first revision, its upgrade succeeds, and its downgrade then
-- gives back exactly this schema.
pub create_initial-drop_initial :
    (s : Schema)
    → IsApart initial_tables initial_indexes s
    → (create_initial s >>= drop_initial) ≡ ok s
create_initial-drop_initial s h =
    step drop_initial (create_initial_apart s h) ∙ drop_initial_apart s h
