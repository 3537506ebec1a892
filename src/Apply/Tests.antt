-- ===== src/Apply/Tests.antt =====
-- The apply transaction on a small inventory.
use service_of_import.Prelude.{
  ℕ, codes, ◌≡◌, refl, true, none, some, List, [], ◌∷◌, ◌==◌, arith, count, ◌↔◌, text_eq_iff,
  text_eq, any, filter, ◌||◌, Bool-cases, inl, inr, ==_iff,
}
use service_of_import.Errors.{ok, raised, lock_connection_lost}
use service_of_import.Database.{
  Db, Report, processing, CatalogueRow, StockBalance, ReportStagingRow,
}
use service_of_import.Stocks.{
  id_of, balance_of, staging_of, explicit_pairs, upsert_products, upsert_warehouses, upsert,
  distinct_on, calculate_counters, is_missing, is_affected, add_distinct, apply_explicit_stocks,
  put_balance, put_balances, upsert_row, zero_missing_stocks,
}
use service_of_import.Stocks.Catalogues.{IsCatalogue}
use service_of_import.Stocks.Distinct.{IsDistinct}
use service_of_import.Stocks.Resolve.{row_quantity}
use service_of_import.Apply.{
  ApplyEnv, ApplyResult, apply, is_ready, complete, find_report, apply_found, apply_ready,
  apply_stocks, update_report,
}
use service_of_import.Apply.Snapshot.{IsDb, stock, snapshot}
use service_of_import.Apply.Outcome.{apply-snapshot}
use service_of_import.Apply.Atomic.{IsAtomic, apply-IsAtomic}
use service_of_import.Apply.Linked.{IsLinked, apply-IsLinked}
use service_of_import.Apply.Completes.{Completed, IsHealthy, IsReady, apply_completes_iff}
use service_of_import.Apply.Counts.{is_created, is_updated, is_zeroed, apply_counts}

abbrev env : ApplyEnv
env = record { now = 9; lock_alive = λ n. true; after_step = λ s. none; commit = none }

abbrev row : ℕ → List ℕ → List ℕ → ℕ → ReportStagingRow
row line code sku q = record {
  report_id = 1;
  line_number = line;
  warehouse_code = code;
  warehouse_name = codes "Main";
  sku = sku;
  product_name = codes "Nut";
  quantity = q;
}

abbrev entry : ℕ → List ℕ → CatalogueRow
entry id key = record { id = id; key = key; name = codes "Old"; created_at = 1; updated_at = 1 }

abbrev balance : ℕ → ℕ → ℕ → StockBalance
balance w p q = record {
  warehouse_id = w;
  product_id = p;
  quantity = q;
  created_at = 1;
  updated_at = 1;
}

abbrev report : Report
report = record {
  id = 1;
  status = processing;
  original_filename = codes "a.csv";
  object_bucket = codes "b";
  object_key = codes "k";
  size_bytes = 10;
  checksum_sha256 = none;
  created_at = 1;
  processing_started_at = some 2;
  finished_at = none;
  row_count = 2;
  error_count = 0;
  stocks_created = 0;
  stocks_updated = 0;
  stocks_zeroed = 0;
  failure_kind = none;
  failure_message = none;
}

-- Warehouse 1 has products 1 and 2, warehouse 2 has product 1; the report names warehouse 1, with
-- product 1 and a new one.
abbrev db : Db
db = record {
  reports = report ∷ [];
  warehouses = record { rows = entry 1 (codes "A") ∷ entry 2 (codes "B") ∷ []; next_id = 3 };
  products = record { rows = entry 1 (codes "x") ∷ entry 2 (codes "y") ∷ []; next_id = 3 };
  stock_balances = balance 1 1 5 ∷ balance 1 2 6 ∷ balance 2 1 7 ∷ [];
  staging_rows = row 2 (codes "A") (codes "x") 8 ∷ row 3 (codes "A") (codes "z") 4 ∷ [];
  report_errors = [];
}

abbrev result : ApplyResult
result = record {
  report_id = 1;
  row_count = 2;
  counters = record { stocks_created = 1; stocks_updated = 1; stocks_zeroed = 1 };
}

abbrev applied : Db
applied = (apply env 1 db).1

run_all : Unit {0}
unfolding apply find_report staging_of filter explicit_pairs id_of upsert_products upsert_warehouses
    upsert distinct_on text_eq codes any balance_of calculate_counters count is_missing is_affected
    apply_found apply_ready apply_stocks complete is_ready update_report add_distinct
    apply_explicit_stocks put_balance put_balances upsert_row zero_missing_stocks stock snapshot
    row_quantity
run_all = tt

apply_run : apply env 1 db ≡ (ok result, applied)
unfolding run_all
apply_run = refl

warehouses-IsCatalogue : IsCatalogue db.warehouses
unfolding id_of
warehouses-IsCatalogue = record {
  below = λ k i e. ground arith;
  injective = λ j k i e f. ground (
    arith,
    text_eq_iff (codes "A") j,
    text_eq_iff (codes "B") j,
    text_eq_iff (codes "A") k,
    text_eq_iff (codes "B") k,
  );
}

products-IsCatalogue : IsCatalogue db.products
unfolding id_of
products-IsCatalogue = record {
  below = λ k i e. ground arith;
  injective = λ j k i e f. ground (
    arith,
    text_eq_iff (codes "x") j,
    text_eq_iff (codes "y") j,
    text_eq_iff (codes "x") k,
    text_eq_iff (codes "y") k,
  );
}

db-IsDb : IsDb db
unfolding balance_of
db-IsDb = record {
  warehouses = warehouses-IsCatalogue;
  products = products-IsCatalogue;
  foreign_keys = λ w p q e. (ground arith, ground arith);
}

-- The product that the report leaves out of warehouse A is set to 0.
apply-snapshot_example :
    stock (codes "A") (codes "y") applied
    ≡ snapshot
        (codes "A")
        (codes "y")
        (staging_of 1 db.staging_rows)
        (stock (codes "A") (codes "y") db)
apply-snapshot_example =
    apply-snapshot env 1 db applied result db-IsDb apply_run (codes "A") (codes "y")

left_out : stock (codes "A") (codes "y") applied ≡ some 0
unfolding run_all
left_out = refl

other_warehouse : stock (codes "B") (codes "x") applied ≡ some 7
unfolding run_all
other_warehouse = refl

db-IsLinked : IsLinked db
unfolding balance_of id_of text_eq codes
db-IsLinked w p q e = elim (Bool-cases (w == 1)) [
  | inl f ↦ elim (Bool-cases (p == 1)) [
    | inl g ↦ (
      (codes "A", ground (arith, (==_iff w 1).0 f)),
      (codes "x", ground (arith, (==_iff p 1).0 g)),
    )
    | inr g ↦ ((codes "A", ground arith), (codes "y", ground arith))
  ]
  | inr f ↦ ((codes "B", ground arith), (codes "x", ground arith))
]

apply-IsLinked_example : IsDb applied × IsLinked applied
apply-IsLinked_example = apply-IsLinked env 1 db db-IsDb db-IsLinked

apply_counts_example :
    (result.counters.stocks_created
      ≡ count
          (λ s. is_created (stock s.warehouse_code s.sku db) s.quantity)
          (staging_of 1 db.staging_rows))
    × (result.counters.stocks_updated
        ≡ count
            (λ s. is_updated (stock s.warehouse_code s.sku db) s.quantity)
            (staging_of 1 db.staging_rows))
    × (result.counters.stocks_zeroed
        ≡ count (is_zeroed env (staging_of 1 db.staging_rows) db) db.stock_balances)
apply_counts_example = apply_counts env 1 db applied result db-IsDb apply_run

-- The lock connection is lost before the third check.
abbrev unlocked : ApplyEnv
unlocked = record env { lock_alive = λ n. n == 0 || n == 1 }

apply_lost : apply unlocked 1 db ≡ (raised lock_connection_lost, db)
unfolding run_all
apply_lost = refl

apply-IsAtomic_example : IsAtomic unlocked.now 1 db (apply unlocked 1 db).0 (apply unlocked 1 db).1
apply-IsAtomic_example = apply-IsAtomic unlocked 1 db

env-IsHealthy : IsHealthy env
env-IsHealthy = record { lock_alive = λ n. refl; after_step = λ s. refl; commit = refl }

db-IsDistinct : IsDistinct (staging_of 1 db.staging_rows)
unfolding run_all
db-IsDistinct = (refl, (refl, tt))

apply_completes_iff_example : Completed env 1 db ↔ ((r : Report) × IsReady 1 db r)
apply_completes_iff_example = apply_completes_iff env 1 db env-IsHealthy db-IsDb db-IsDistinct
