-- ===== src/ReadApi/Tests.antt =====
-- Listings of two stocks in a warehouse.
use service_of_import.Prelude.{
  ℕ, ap, ◌≡◌, refl, arith, Text, text_eq, true, none, some, [], ◌∷◌, map, filter, count, take, drop,
  All,
}
use service_of_import.Errors.{ok}
use service_of_import.Database.{Db, Report, Status, CatalogueRow, StockBalance}
use service_of_import.Steps.{World, Outside, transaction}
use service_of_import.Paging.{Page, walk, order_by, stable}
use service_of_import.Paging.Sorting.{stable-IsSort}
use service_of_import.Paging.Returns.{Walks}
use service_of_import.Registration.Listing.{list_reports, walk-list_reports, IsNewer, HasStatus}
use service_of_import.ReadApi.{
  StockFilters, stock_rows, stock_read_model, list_stocks, list_warehouses, list_products, find_row,
}
use service_of_import.ReadApi.Ordered.{
  code_point_le, code_point_le-IsCollation, KeyPrecedes, StockPrecedes,
}
use service_of_import.ReadApi.Matched.{IsMatch, IsStockMatch}
use service_of_import.ReadApi.Joined.{
  IsUnique, IsLinked, row_key, balance_key, IsDescribed, stock_rows-IsDescribed,
}
use service_of_import.ReadApi.Listed.{walk-list_stocks}
use service_of_import.ReadApi.Catalogues.{walk-list_warehouses, walk-list_products}

abbrev named : ℕ → Text → CatalogueRow
named i key = record { id = i; key = key; name = key; created_at = 1; updated_at = 1 }

abbrev balance : ℕ → ℕ → ℕ → StockBalance
balance w p q = record {
  warehouse_id = w;
  product_id = p;
  quantity = q;
  created_at = 1;
  updated_at = 1;
}

abbrev report : Report
report = record {
  id = 1;
  status = Status.failed;
  original_filename = [];
  object_bucket = [];
  object_key = [];
  size_bytes = 0;
  checksum_sha256 = none;
  created_at = 1;
  processing_started_at = none;
  finished_at = none;
  row_count = 0;
  error_count = 1;
  stocks_created = 0;
  stocks_updated = 0;
  stocks_zeroed = 0;
  failure_kind = none;
  failure_message = none;
}

abbrev newer : Report
newer = record report { id = 2 }

abbrev waiting : Report
waiting = record report { id = 3; status = Status.pending }

abbrev tables : Db
tables = record {
  reports = report ∷ waiting ∷ newer ∷ [];
  warehouses = record { rows = named 1 (87 ∷ []) ∷ []; next_id = 2 };
  products = record { rows = named 1 (66 ∷ []) ∷ named 2 (65 ∷ []) ∷ []; next_id = 3 };
  stock_balances = balance 1 1 5 ∷ balance 1 2 0 ∷ [];
  staging_rows = [];
  report_errors = [];
}

abbrev start : World
start = record { db = tables; calls = 0 }

abbrev quiet : Outside
quiet = record { fault = λ _. none; now = λ _. 7 }

abbrev everything : StockFilters
everything = record {
  warehouse_id = none;
  warehouse_code = none;
  product_id = none;
  sku = none;
  include_zero = true;
}

warehouses-IsUnique : IsUnique tables.warehouses.rows
unfolding find_row
warehouses-IsUnique = (refl, tt)

products-IsUnique : IsUnique tables.products.rows
unfolding find_row
products-IsUnique = (refl, (refl, tt))

balances-IsLinked : IsLinked tables.warehouses.rows tables.products.rows tables.stock_balances
unfolding find_row
balances-IsLinked = (
  ((named 1 (87 ∷ []), refl), (named 1 (66 ∷ []), refl)),
  (((named 1 (87 ∷ []), refl), (named 2 (65 ∷ []), refl)), tt),
)

stock_rows-IsDescribed_example :
    (map row_key (stock_rows tables.warehouses.rows tables.products.rows tables.stock_balances)
      ≡ map balance_key tables.stock_balances)
    × All
        (IsDescribed tables.warehouses.rows tables.products.rows)
        (stock_rows tables.warehouses.rows tables.products.rows tables.stock_balances)
stock_rows-IsDescribed_example =
    stock_rows-IsDescribed tables.warehouses.rows tables.products.rows tables.stock_balances
      warehouses-IsUnique products-IsUnique balances-IsLinked

abbrev one_page {ℓ} : {A : Type ℓ} → A → ℕ → ℕ → Page A
one_page a total offset = record { items = a ∷ []; total = total; limit = 1; offset = offset }

abbrev after : ℕ → World
after n = record { db = tables; calls = n }

walk-list_stocks_example :
    Walks
      (StockPrecedes code_point_le)
      (IsStockMatch everything)
      (stock_rows tables.warehouses.rows tables.products.rows tables.stock_balances)
      1
      (walk (list_stocks code_point_le stable quiet everything 1) 1 2 start)
walk-list_stocks_example =
    walk-list_stocks code_point_le code_point_le-IsCollation stable quiet everything 1 2 start
      stable-IsSort (λ n. refl) warehouses-IsUnique products-IsUnique balances-IsLinked
      ((λ e. omega (arith, ap (λ (x : ℕ × ℕ). x.1) e), tt), (tt, tt)) (omega arith)

-- The two pages, with the product of SKU A first.
walk_stocks : walk (list_stocks code_point_le stable quiet everything 1) 1 2 start ≡ (
  ok (
      one_page (stock_read_model (balance 1 2 0) (named 1 (87 ∷ [])) (named 2 (65 ∷ []))) 2 0
      ∷ one_page (stock_read_model (balance 1 1 5) (named 1 (87 ∷ [])) (named 1 (66 ∷ []))) 2 1
      ∷ []),
  after 2,
)
unfolding walk list_stocks transaction order_by filter count text_eq code_point_le take drop
walk_stocks = refl

walk-list_warehouses_example :
    Walks
      (KeyPrecedes code_point_le)
      (IsMatch (λ s. s) none (some (87 ∷ [])))
      tables.warehouses.rows
      1
      (walk (list_warehouses code_point_le (λ s. s) stable quiet none (some (87 ∷ [])) 1) 1 1 start)
walk-list_warehouses_example =
    walk-list_warehouses code_point_le code_point_le-IsCollation (λ s. s) stable quiet none
      (some (87 ∷ [])) 1 1 start stable-IsSort (λ n. refl) (tt, tt) (omega arith)

walk-list_products_example :
    Walks
      (KeyPrecedes code_point_le)
      (IsMatch (λ s. s) (some (65 ∷ [])) none)
      tables.products.rows
      1
      (walk (list_products code_point_le (λ s. s) stable quiet (some (65 ∷ [])) none 1) 1 2 start)
walk-list_products_example =
    walk-list_products code_point_le code_point_le-IsCollation (λ s. s) stable quiet
      (some (65 ∷ [])) none 1 2 start stable-IsSort (λ n. refl) ((λ e. omega arith, tt), (tt, tt))
      (omega arith)

walk-list_reports_example :
    Walks IsNewer
      (HasStatus (some Status.failed))
      tables.reports
      1
      (walk (list_reports stable quiet (some Status.failed) 1) 1 3 start)
walk-list_reports_example =
    walk-list_reports stable quiet (some Status.failed) 1 3 start stable-IsSort (λ n. refl)
      ((λ e. omega arith, (λ e. omega arith, tt)), ((λ e. omega arith, tt), (tt, tt))) (omega arith)

-- The newer one of the failed reports comes first, the pending one not at all.
walk_reports : walk (list_reports stable quiet (some Status.failed) 1) 1 3 start ≡ (
  ok (
      one_page newer 2 0
      ∷ one_page report 2 1
      ∷ record { items = []; total = 2; limit = 1; offset = 2 }
      ∷ []),
  after 3,
)
unfolding walk list_reports transaction order_by filter count take drop
walk_reports = refl
