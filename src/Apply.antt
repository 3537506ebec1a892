-- ===== src/Apply.antt =====
-- app/services/apply_report.py: the transaction that applies a validated report, over the statements
-- of Stocks.
pub mod Snapshot
pub mod Invariant
pub mod Outcome
pub mod Atomic
pub mod Linked
pub mod Completes
pub mod Counts
pub mod Tests
use service_of_import.Prelude.{
  ℕ, ◌+◌, Text, text_eq, Bool, true, false, ◌&&◌, ◌||◌, not, Option, none, some, List, [], ◌∷◌,
  ◌++◌, map, any, filter, count, length, ltb, leb, ◌==◌, is_some, if◌then◌else◌,
}
use service_of_import.Errors.{
  Exn, Result, ok, raised, lock_connection_lost, report_not_ready, database_error, ◌>>=◌, ◌>>◌,
}
use service_of_import.Database.{
  Db, Report, Status, processing, completed, Catalogue, CatalogueRow, StockBalance,
  ReportStagingRow,
}
use service_of_import.Stocks.{
  Counters, apply_explicit_stocks, calculate_counters, staging_of, upsert_products,
  upsert_warehouses, zero_missing_stocks,
}

pub data ApplyStep : Type 0 where
  warehouses_upserted products_upserted explicit_stocks_applied missing_stocks_zeroed : ApplyStep
  before_report_completed : ApplyStep

-- What a call of `apply` meets: the transaction's `now()`, whether the lock connection answers at
-- each of its checks, what the hook raises after a step, and what the commit raises.
pub record ApplyEnv : Type 0 where
  pub now : ℕ
  pub lock_alive : ℕ → Bool
  pub after_step : ApplyStep → Option Exn
  pub commit : Option Exn

abbrev pub assert_lock_alive : ApplyEnv → ℕ → Result (Unit {0})
assert_lock_alive env n = if env.lock_alive n then ok tt else raised lock_connection_lost

abbrev pub raise_some : Option Exn → Result (Unit {0})
raise_some none = ok tt
raise_some (some e) = raised e

abbrev pub run_hook : ApplyEnv → ApplyStep → Result (Unit {0})
run_hook env step = raise_some (env.after_step step)

unfoldable pub find_report : ℕ → List Report → Option Report
find_report i [] = none
find_report i (r ∷ rs) = if r.id == i then some r else find_report i rs

-- `UPDATE reports ... WHERE id = ...`
unfoldable pub update_report : ℕ → (Report → Report) → List Report → List Report
update_report i f reports = map (λ r. if r.id == i then f r else r) reports

pub record ApplyResult : Type 0 where
  pub report_id : ℕ
  pub row_count : ℕ
  pub counters : Counters

abbrev pub is_processing : Status → Bool
is_processing processing = true
is_processing _ = false

-- The tests that raise ReportNotReadyForApply.
unfoldable pub is_ready : Report → ℕ → Bool
is_ready report staging_count =
    is_processing report.status
    && (report.error_count == 0
        && (not (report.row_count == 0) && staging_count == report.row_count))

abbrev pub complete_report : ℕ → Counters → Report → Report
complete_report now c r = record r {
  stocks_created = c.stocks_created;
  stocks_updated = c.stocks_updated;
  stocks_zeroed = c.stocks_zeroed;
  status = completed;
  finished_at = some now;
  failure_kind = none;
  failure_message = none;
}

-- The last assignments to the report, and the deletion of its staging rows.
unfoldable pub complete : ℕ → ℕ → Counters → Db → Db
complete now report_id c db = record db {
  reports = update_report report_id (complete_report now c) db.reports;
  staging_rows = filter (λ r. not (r.report_id == report_id)) db.staging_rows;
}

-- The four statements on catalogues and balances, with the checks between them.
unfoldable pub apply_stocks : ApplyEnv → List ReportStagingRow → Db → Result (Counters × Db)
unfolding apply_explicit_stocks
apply_stocks env staging db0 = do
  let db1 = upsert_warehouses env.now staging db0
  run_hook env warehouses_upserted
  assert_lock_alive env 1
  let db2 = upsert_products env.now staging db1
  run_hook env products_upserted
  assert_lock_alive env 2
  let counters = calculate_counters staging db2
  db3 ← apply_explicit_stocks env.now staging db2
  run_hook env explicit_stocks_applied
  assert_lock_alive env 3
  let db4 = zero_missing_stocks env.now staging db3
  run_hook env missing_stocks_zeroed
  assert_lock_alive env 4
  ok (counters, db4)

unfoldable pub apply_ready : ApplyEnv → Report → Db → Result (ApplyResult × Db)
unfolding apply_stocks complete
apply_ready env report db = do
  (counters, db') ← apply_stocks env (staging_of report.id db.staging_rows) db
  run_hook env before_report_completed
  let db'' = complete env.now report.id counters db'
  assert_lock_alive env 5
  raise_some env.commit
  ok (record { report_id = report.id; row_count = report.row_count; counters = counters }, db'')

-- The body of the transaction.
unfoldable pub apply_found : ApplyEnv → Option Report → Db → Result (ApplyResult × Db)
unfolding apply_ready is_ready
apply_found env none db = raised report_not_ready
apply_found env (some report) db =
    if is_ready report (length (staging_of report.id db.staging_rows))
    then apply_ready env report db
    else raised report_not_ready

-- `with session.begin()`: an exception rolls everything back.
abbrev pub in_transaction {ℓ} : {A : Type ℓ} → Db → Result (A × Db) → Result A × Db
in_transaction db (ok (a, db')) = (ok a, db')
in_transaction db (raised e) = (raised e, db)

unfoldable pub apply : ApplyEnv → ℕ → Db → Result ApplyResult × Db
unfolding apply_found
apply env report_id db =
    in_transaction db
      (assert_lock_alive env 0 >> apply_found env (find_report report_id db.reports) db)
