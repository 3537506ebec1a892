-- ===== src/Stocks.antt =====
-- app/services/apply_report.py: the SQL statements of the apply transaction. Each is a function on the
-- tables that it reads and writes.
pub mod Catalogues
pub mod Balances
pub mod Resolve
pub mod Distinct
use service_of_import.Prelude.{
  ℕ, ◌+◌, Text, text_eq, Bool, true, false, ◌&&◌, ◌||◌, not, Option, none, some, List, [], ◌∷◌,
  ◌++◌, map, any, filter, count, length, ltb, leb, ◌==◌, is_some, if◌then◌else◌,
}
use service_of_import.Errors.{
  Exn, Result, ok, raised, lock_connection_lost, report_not_ready, database_error, ◌>>=◌, ◌>>◌,
}
use service_of_import.Database.{
  Db, Report, Status, processing, completed, Catalogue, CatalogueRow, StockBalance,
  ReportStagingRow,
}

-- `SELECT DISTINCT ON (key) key, name ... ORDER BY key, line_number DESC`: of the rows with one key
-- the one with the largest line number.
pub record Named : Type 0 where
  pub key : Text
  pub name : Text
  pub line_number : ℕ

unfoldable pub add_distinct : Named → List Named → List Named
add_distinct r [] = r ∷ []
add_distinct r (x ∷ xs) =
    if text_eq x.key r.key
    then (if ltb x.line_number r.line_number then r else x) ∷ xs
    else x ∷ add_distinct r xs

unfoldable pub distinct_on : List Named → List Named
unfolding add_distinct
distinct_on [] = []
distinct_on (r ∷ rs) = add_distinct r (distinct_on rs)

-- One row of `INSERT ... ON CONFLICT (key) DO UPDATE SET name, updated_at WHERE name IS DISTINCT`.
unfoldable pub upsert_row : ℕ → ℕ → Named → List CatalogueRow → List CatalogueRow
upsert_row now next_id r [] =
    record { id = next_id; key = r.key; name = r.name; created_at = now; updated_at = now } ∷ []
upsert_row now next_id r (x ∷ xs) =
    if text_eq x.key r.key
    then (if text_eq x.name r.name then x else record x { name = r.name; updated_at = now }) ∷ xs
    else x ∷ upsert_row now next_id r xs

-- A proposed row takes a value of the identity sequence, whether it is inserted or not.
unfoldable pub upsert : ℕ → List Named → Catalogue → Catalogue
unfolding upsert_row
upsert now [] c = c
upsert now (r ∷ rs) c =
    upsert now rs (record { rows = upsert_row now c.next_id r c.rows; next_id = c.next_id + 1 })

-- `WHERE report_id = :report_id`
unfoldable pub staging_of : ℕ → List ReportStagingRow → List ReportStagingRow
staging_of report_id rows = filter (λ r. r.report_id == report_id) rows

abbrev pub warehouse_named : ReportStagingRow → Named
warehouse_named r = record {
  key = r.warehouse_code;
  name = r.warehouse_name;
  line_number = r.line_number;
}

abbrev pub product_named : ReportStagingRow → Named
product_named r = record { key = r.sku; name = r.product_name; line_number = r.line_number }

unfoldable pub upsert_warehouses : ℕ → List ReportStagingRow → Db → Db
upsert_warehouses now staging db = record db {
  warehouses = upsert now (distinct_on (map warehouse_named staging)) db.warehouses;
}

unfoldable pub upsert_products : ℕ → List ReportStagingRow → Db → Db
upsert_products now staging db = record db {
  products = upsert now (distinct_on (map product_named staging)) db.products;
}

-- The id of the row with a key, which is UNIQUE.
unfoldable pub id_of : Text → List CatalogueRow → Option ℕ
id_of k [] = none
id_of k (x ∷ xs) = if text_eq x.key k then some x.id else id_of k xs

pub record Pair : Type 0 where
  pub warehouse_id : ℕ
  pub product_id : ℕ
  pub quantity : ℕ

abbrev pub join_ids : Option ℕ → Option ℕ → ℕ → List Pair → List Pair
join_ids (some w) (some p) q ps = record { warehouse_id = w; product_id = p; quantity = q } ∷ ps
join_ids none p q ps = ps
join_ids (some w) none q ps = ps

-- `explicit_pairs`: staging JOIN warehouses ON code JOIN products ON sku.
unfoldable pub explicit_pairs :
    List CatalogueRow → List CatalogueRow → List ReportStagingRow → List Pair
explicit_pairs ws ps [] = []
explicit_pairs ws ps (s ∷ ss) =
    join_ids (id_of s.warehouse_code ws) (id_of s.sku ps) s.quantity (explicit_pairs ws ps ss)

abbrev pub is_id : ℕ → Option ℕ → Bool
is_id w none = false
is_id w (some i) = i == w

-- `affected_warehouses`
unfoldable pub is_affected : List CatalogueRow → List ReportStagingRow → ℕ → Bool
is_affected ws staging w = any (λ s. is_id w (id_of s.warehouse_code ws)) staging

abbrev pub is_pair : ℕ → ℕ → Pair → Bool
is_pair w p x = x.warehouse_id == w && x.product_id == p

abbrev pub is_balance : ℕ → ℕ → StockBalance → Bool
is_balance w p b = b.warehouse_id == w && b.product_id == p

-- `stock_balances` at its primary key.
unfoldable pub balance_of : ℕ → ℕ → List StockBalance → Option ℕ
balance_of w p [] = none
balance_of w p (b ∷ bs) = if is_balance w p b then some b.quantity else balance_of w p bs

pub record Counters : Type 0 where
  pub stocks_created : ℕ
  pub stocks_updated : ℕ
  pub stocks_zeroed : ℕ

abbrev pub differs : Option ℕ → ℕ → Bool
differs none q = false
differs (some old) q = not (old == q)

-- The test of both statements for what is not in the report: an affected warehouse, a quantity that
-- is not 0, and no explicit pair.
unfoldable pub is_missing :
    List CatalogueRow → List ReportStagingRow → List Pair → StockBalance → Bool
is_missing ws staging pairs b =
    is_affected ws staging b.warehouse_id
    && (not (b.quantity == 0) && not (any (is_pair b.warehouse_id b.product_id) pairs))

unfoldable pub calculate_counters : List ReportStagingRow → Db → Counters
calculate_counters staging db =
    let pairs = explicit_pairs db.warehouses.rows db.products.rows staging in
    record {
      stocks_created =
          count (λ x. not (is_some (balance_of x.warehouse_id x.product_id db.stock_balances)))
            pairs;
      stocks_updated =
          count (λ x. differs (balance_of x.warehouse_id x.product_id db.stock_balances) x.quantity)
            pairs;
      stocks_zeroed = count (is_missing db.warehouses.rows staging pairs) db.stock_balances;
    }

pub data CounterKind : Type 0 where
  created updated zero_filled : CounterKind

abbrev is_zero_or_none : Option ℕ → Bool
is_zero_or_none none = true
is_zero_or_none (some q) = q == 0

-- The rules of the counters, one balance at a time.
unfoldable pub classify_stock_change : Option ℕ → Option ℕ → Bool → Option CounterKind
classify_stock_change none (some q) warehouse_in_report = some created
classify_stock_change (some old) (some q) warehouse_in_report =
    if old == q then none else some updated
classify_stock_change previous_quantity none warehouse_in_report =
    if warehouse_in_report && not (is_zero_or_none previous_quantity)
    then some zero_filled
    else none

-- One row of the upsert of balances.
unfoldable pub put_balance : ℕ → Pair → List StockBalance → List StockBalance
put_balance now x [] =
    record {
      warehouse_id = x.warehouse_id;
      product_id = x.product_id;
      quantity = x.quantity;
      created_at = now;
      updated_at = now;
    }
    ∷ []
put_balance now x (b ∷ bs) =
    if is_balance x.warehouse_id x.product_id b
    then (if b.quantity == x.quantity
        then b
        else record b { quantity = x.quantity; updated_at = now })
      ∷ bs
    else b ∷ put_balance now x bs

abbrev pub same_pair : Pair → Pair → Bool
same_pair x y = is_pair x.warehouse_id x.product_id y

-- The whole upsert. PostgreSQL refuses to change a row twice in one command: `touched` are the pairs
-- that the command has inserted or updated.
unfoldable pub put_balances :
    ℕ → List Pair → List Pair → List StockBalance → Result (List StockBalance)
unfolding put_balance
put_balances now touched [] bs = ok bs
put_balances now touched (x ∷ xs) bs =
    let old = balance_of x.warehouse_id x.product_id bs in
    let rest =
      put_balances now
        (if is_some old && not (differs old x.quantity) then touched else x ∷ touched) xs
        (put_balance now x bs) in
    if any (same_pair x) touched then raised database_error else rest

unfoldable pub apply_explicit_stocks : ℕ → List ReportStagingRow → Db → Result Db
unfolding put_balances
apply_explicit_stocks now staging db = do
  balances ←
      put_balances now [] (explicit_pairs db.warehouses.rows db.products.rows staging)
        db.stock_balances
  ok (record db { stock_balances = balances })

abbrev pub zeroed : ℕ → StockBalance → StockBalance
zeroed now b = record b { quantity = 0; updated_at = now }

unfoldable pub zero_missing_stocks : ℕ → List ReportStagingRow → Db → Db
zero_missing_stocks now staging db =
    let pairs = explicit_pairs db.warehouses.rows db.products.rows staging in
    record db {
      stock_balances =
          map (λ b. if is_missing db.warehouses.rows staging pairs b then zeroed now b else b)
            db.stock_balances;
    }
