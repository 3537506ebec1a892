-- ===== src/Apply/Completes.antt =====
-- The calls of `apply` that complete the report.
use service_of_import.Prelude.{
  subst⁻¹, ℕ, ◌<◌, ◌≡◌, ◌↔◌, true, none, some, List, [], map, length, arith,
}
use service_of_import.Errors.{ok}
use service_of_import.Database.{
  Db, Report, Status, pending, processing, completed, failed, StockBalance, ReportStagingRow,
}
use service_of_import.Stocks.{
  warehouse_named, product_named, distinct_on, Counters, apply_explicit_stocks, upsert_warehouses,
  upsert_products, zero_missing_stocks, staging_of, calculate_counters,
}
use service_of_import.Apply.{
  ApplyEnv, ApplyStep, warehouses_upserted, products_upserted, explicit_stocks_applied,
  missing_stocks_zeroed, before_report_completed, ApplyResult, apply, apply_found, apply_ready,
  apply_stocks, is_ready, find_report, is_processing, complete,
}
use service_of_import.Apply.Snapshot.{
  IsDb, balances_after, stocks_after, pairs_after, warehouses_after, products_after,
}
use service_of_import.Stocks.Distinct.{
  IsDistinct, put_balances_distinct, explicit_pairs-IsDistinctPairs, Untouched-nil,
}
use service_of_import.Stocks.Catalogues.{upsert-IsCatalogue}
use service_of_import.Apply.Outcome.{apply-IsApplied, find_report-id}

-- Nothing outside the tables fails.
pub record IsHealthy (env : ApplyEnv) : Type 0 where
  pub lock_alive : (n : ℕ) → env.lock_alive n ≡ true
  pub after_step : (s : ApplyStep) → env.after_step s ≡ none
  pub commit : env.commit ≡ none

-- The report waits for its application: its rows are all staged and none was in error.
pub record IsReady (report_id : ℕ) (db : Db) (report : Report) : Type 0 where
  pub found : find_report report_id db.reports ≡ some report
  pub status : report.status ≡ processing
  pub no_error : report.error_count ≡ 0
  pub not_empty : 0 < report.row_count
  pub staged : length (staging_of report_id db.staging_rows) ≡ report.row_count

pub is_processing_iff : (s : Status) → (is_processing s ≡ true) ↔ (s ≡ processing)
is_processing_iff pending = ground arith
is_processing_iff processing = ground arith
is_processing_iff completed = ground arith
is_processing_iff failed = ground arith

is_ready_iff :
    (report : Report) (n : ℕ)
    → (is_ready report n ≡ true) ↔ (
        (report.status ≡ processing)
        × (report.error_count ≡ 0)
        × (0 < report.row_count)
        × (n ≡ report.row_count))
unfolding is_ready
is_ready_iff report n =
    let s = is_processing_iff report.status in
    (
      λ h. (s.0 (ground arith), ground arith, ground arith, ground arith),
      λ h. ground (arith, s.1 h.0, h.1, h.2, h.3),
    )

module _ (env : ApplyEnv) (ss : List ReportStagingRow) (db : Db) where
  balances_after_distinct :
      IsDb db → IsDistinct ss → (bs : List StockBalance) × (balances_after env ss db ≡ ok bs)
  balances_after_distinct h d =
      put_balances_distinct env.now [] (pairs_after env.now ss db) db.stock_balances
        (explicit_pairs-IsDistinctPairs (warehouses_after env.now ss db)
          (products_after env.now ss db) ss
          (upsert-IsCatalogue env.now (distinct_on (map warehouse_named ss)) db.warehouses
            h.warehouses)
          (upsert-IsCatalogue env.now (distinct_on (map product_named ss)) db.products h.products)
          d)
        (Untouched-nil (pairs_after env.now ss db))

module _ (env : ApplyEnv) (ss : List ReportStagingRow) (db : Db) where
  apply_stocks_done :
      (bs : List StockBalance)
      → IsHealthy env
      → balances_after env ss db ≡ ok bs
      → (c : Counters) × (apply_stocks env ss db ≡ ok (c, stocks_after env.now ss db bs))
  unfolding apply_stocks apply_explicit_stocks upsert_warehouses upsert_products zero_missing_stocks
  apply_stocks_done bs h e = (
    calculate_counters ss (upsert_products env.now ss (upsert_warehouses env.now ss db)),
    ground (
      arith,
      h.lock_alive 1,
      h.lock_alive 2,
      h.lock_alive 3,
      h.lock_alive 4,
      h.after_step warehouses_upserted,
      h.after_step products_upserted,
      h.after_step explicit_stocks_applied,
      h.after_step missing_stocks_zeroed,
    ),
  )

module _ (env : ApplyEnv) (i : ℕ) (db : Db) where
  abbrev pub Completed : Type 0
  Completed = (result : ApplyResult) × (db' : Db) × (apply env i db ≡ (ok result, db'))

  completes :
      (report : Report)
      → IsHealthy env
      → IsDb db
      → IsDistinct (staging_of i db.staging_rows)
      → IsReady i db report
      → Completed
  unfolding apply apply_found apply_ready
  completes report h hd d r =
      let ss = staging_of i db.staging_rows in
      let (bs, e) = balances_after_distinct env ss db hd d in
      let (c, e1) = apply_stocks_done env ss db bs h e in
      let same = find_report-id i db.reports report r.found in
      let e2 =
        subst⁻¹
          (λ j.
            apply_stocks env (staging_of j db.staging_rows) db
            ≡ ok (c, stocks_after env.now ss db bs))
          same e1 in
      let ready =
        subst⁻¹ (λ j. is_ready report (length (staging_of j db.staging_rows)) ≡ true) same
          ((is_ready_iff report (length ss)).1 (r.status, r.no_error, r.not_empty, r.staged)) in
      (
        record { report_id = report.id; row_count = report.row_count; counters = c },
        complete env.now report.id c (stocks_after env.now ss db bs),
        ground (
          arith,
          h.lock_alive 0,
          r.found,
          ready,
          e2,
          h.after_step before_report_completed,
          h.lock_alive 5,
          h.commit,
        ),
      )

  -- When nothing outside the tables fails, the tables are well formed and no two staging rows of the
  -- report are of one warehouse and product, apply returns exactly when the report exists, is
  -- processing, has no error, has rows, and has as many staging rows.
  pub apply_completes_iff :
      IsHealthy env
      → IsDb db
      → IsDistinct (staging_of i db.staging_rows)
      → Completed ↔ ((report : Report) × IsReady i db report)
  apply_completes_iff h hd d = (
    λ done.
        let a = apply-IsApplied env i db done.1 done.0 done.2 in
        let (s, e, n, l) =
          (is_ready_iff a.report (length (staging_of i db.staging_rows))).0 a.ready in
        (a.report, record { found = a.found; status = s; no_error = e; not_empty = n; staged = l }),
    λ r. completes r.0 h hd d r.1,
  )
