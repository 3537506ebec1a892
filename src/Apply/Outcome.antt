-- ===== src/Apply/Outcome.antt =====
-- What `apply` leaves behind, on success and on every failure.
use service_of_import.Prelude.{
  subst, ℕ, Text, ◌≡◌, refl, ◌∙◌, ap, true, not, Option, none, some, List, [], ◌∷◌, filter, length,
  arith, ◌==◌, if◌then◌else◌,
}
use service_of_import.Errors.{Result, ok, raised}
use service_of_import.Database.{Db, Report, StockBalance, ReportStagingRow}
use service_of_import.Stocks.{Counters, staging_of}
use service_of_import.Apply.{
  ApplyEnv, ApplyResult, apply, apply_found, apply_ready, apply_stocks, is_ready, complete,
  find_report, update_report, in_transaction,
}
use service_of_import.Apply.Snapshot.{
  counters_of, IsDb, stock, snapshot, stocks_after, balances_after, apply_stocks-ok,
  stock-stocks_after,
}

-- What a call that returns has done: the report was ready, the upsert of balances returned `bs`,
-- and the tables are those of `stocks_after` with the report completed.
pub record IsApplied (env : ApplyEnv) (report_id : ℕ) (db db' : Db) (result : ApplyResult)
    : Type 0 where
  pub report : Report
  pub balances : List StockBalance
  pub found : find_report report_id db.reports ≡ some report
  pub same_id : report.id ≡ report_id
  pub ready : is_ready report (length (staging_of report_id db.staging_rows)) ≡ true
  pub put : balances_after env (staging_of report_id db.staging_rows) db ≡ ok balances
  pub counters : result.counters ≡ counters_of env.now (staging_of report_id db.staging_rows) db
  pub tables :
      db'
      ≡ complete env.now report_id result.counters
          (stocks_after env.now (staging_of report_id db.staging_rows) db balances)

pub find_report-id : (i : ℕ) (rs : List Report) (r : Report) → find_report i rs ≡ some r → r.id ≡ i
unfolding find_report
find_report-id i [] r h = absurd (ground arith)
find_report-id i (x ∷ xs) r h = ground (arith, find_report-id i xs r)

module _ (env : ApplyEnv) (report : Report) (db db' : Db) (result : ApplyResult) where
  after_stocks :
      (r : Result (Counters × Db))
      → apply_stocks env (staging_of report.id db.staging_rows) db ≡ r
      → apply_ready env report db ≡ ok (result, db')
      → (db1 : Db) × (apply_stocks env (staging_of report.id db.staging_rows) db
          ≡ ok (result.counters, db1))
        × (db' ≡ complete env.now report.id result.counters db1)
  unfolding apply_ready
  after_stocks (raised e) er h = absurd (ground arith)
  after_stocks (ok (counters, db1)) er h = (db1, ground arith, ground arith)

apply_found-ok :
    (env : ApplyEnv) (report_id : ℕ) (report : Report) (db db' : Db) (result : ApplyResult)
    → find_report report_id db.reports ≡ some report
    → apply_found env (some report) db ≡ ok (result, db')
    → IsApplied env report_id db db' result
unfolding apply_found
apply_found-ok env report_id report db db' result found h =
    let same = find_report-id report_id db.reports report found in
    let ready : is_ready report (length (staging_of report.id db.staging_rows)) ≡ true =
      ground arith in
    let (db1, stocks, e) =
      after_stocks env report db db' result
        (apply_stocks env (staging_of report.id db.staging_rows) db) refl (ground arith) in
    let (bs, put, e1, counted) =
      apply_stocks-ok env (staging_of report.id db.staging_rows) db db1 result.counters stocks in
    record {
      report = report;
      balances = bs;
      found = found;
      same_id = same;
      counters =
          subst (λ j. result.counters ≡ counters_of env.now (staging_of j db.staging_rows) db) same
            counted;
      ready =
          subst (λ i. is_ready report (length (staging_of i db.staging_rows)) ≡ true) same ready;
      put = subst (λ i. balances_after env (staging_of i db.staging_rows) db ≡ ok bs) same put;
      tables =
          subst
            (λ i.
              db'
              ≡ complete env.now i result.counters
                  (stocks_after env.now (staging_of i db.staging_rows) db bs))
            same (e ∙ ap (complete env.now report.id result.counters) e1);
    }

in_transaction-ok :
    (db db' : Db) (r : Result (ApplyResult × Db)) (result : ApplyResult)
    → in_transaction db r ≡ (ok result, db')
    → r ≡ ok (result, db')
in_transaction-ok db db' (ok (a, x)) result h = ground arith
in_transaction-ok db db' (raised e) result h = absurd (ground arith)

by_lookup :
    (env : ApplyEnv) (report_id : ℕ) (o : Option Report) (db db' : Db) (result : ApplyResult)
    → find_report report_id db.reports ≡ o
    → apply env report_id db ≡ (ok result, db')
    → IsApplied env report_id db db' result
unfolding apply
by_lookup env i none db db' result found h =
    absurd (ground (arith, in_transaction-ok db db' _ result h))
by_lookup env i (some report) db db' result found h =
    let body = in_transaction-ok db db' _ result h in
    apply_found-ok env i report db db' result found (ground (arith, body))

pub apply-IsApplied :
    (env : ApplyEnv) (report_id : ℕ) (db db' : Db) (result : ApplyResult)
    → apply env report_id db ≡ (ok result, db')
    → IsApplied env report_id db db' result
apply-IsApplied env i db db' result h =
    by_lookup env i (find_report i db.reports) db db' result refl h

stock-complete :
    (code sku : Text) (now i : ℕ) (c : Counters) (db : Db)
    → stock code sku (complete now i c db) ≡ stock code sku db
unfolding stock complete
stock-complete code sku now i c db = refl

-- After a call of apply that returns, the stock of every product in every warehouse is the snapshot
-- of the report's staging rows: the row's quantity where the report has a row for them, 0 for a
-- balance that it leaves out in a warehouse that it names, and the old value elsewhere; for tables
-- whose catalogues are well formed and whose balances have ids that the catalogues gave out.
pub apply-snapshot :
    (env : ApplyEnv) (report_id : ℕ) (db db' : Db) (result : ApplyResult)
    → IsDb db
    → apply env report_id db ≡ (ok result, db')
    → (code sku : Text)
    → stock code sku db'
      ≡ snapshot code sku (staging_of report_id db.staging_rows) (stock code sku db)
apply-snapshot env i db db' result h e code sku =
    let a = apply-IsApplied env i db db' result e in
    let ss = staging_of i db.staging_rows in
    ap (stock code sku) a.tables
    ∙ stock-complete code sku env.now i result.counters (stocks_after env.now ss db a.balances)
    ∙ stock-stocks_after env ss db code sku a.balances h a.put

pub complete-IsDb : (now i : ℕ) (c : Counters) (db : Db) → IsDb db → IsDb (complete now i c db)
unfolding complete
complete-IsDb now i c db h = record {
  warehouses = h.warehouses;
  products = h.products;
  foreign_keys = h.foreign_keys;
}

pub find_report-update :
    (i j : ℕ) (f : Report → Report) (rs : List Report)
    → ((r : Report) → (f r).id ≡ r.id)
    → find_report j (update_report i f rs)
      ≡ elim (find_report j rs) [ none ↦ none | some r ↦ some (if i == j then f r else r) ]
unfolding find_report update_report
find_report-update i j f [] h = refl
find_report-update i j f (r ∷ rs) h = ground (arith, h r, find_report-update i j f rs h)

pub staging_of-deleted :
    (i j : ℕ) (rows : List ReportStagingRow)
    → staging_of j (filter (λ r. not (r.report_id == i)) rows)
      ≡ (if i == j then [] else staging_of j rows)
unfolding staging_of filter
staging_of-deleted i j [] = ground arith
staging_of-deleted i j (r ∷ rows) = ground (arith, staging_of-deleted i j rows)
