-- ===== src/Apply/Atomic.antt =====
-- `with session.begin()` around `apply`: all of its effects, or none.
use service_of_import.Prelude.{subst⁻¹, ℕ, ◌≡◌, ◌≢◌, refl, ap, none, some, [], arith}
use service_of_import.Errors.{Result, ok, raised}
use service_of_import.Database.{Db, Report, completed}
use service_of_import.Stocks.{staging_of}
use service_of_import.Apply.{
  ApplyEnv, ApplyResult, apply, complete, complete_report, find_report, in_transaction,
}
use service_of_import.Apply.Snapshot.{IsDb, stocks_after}
use service_of_import.Apply.Invariant.{stocks_after-IsDb}
use service_of_import.Apply.Outcome.{
  apply-IsApplied, complete-IsDb, find_report-update, staging_of-deleted,
}

-- The report was there, and is completed with the counters that the call returns; its staging rows
-- are gone; the other reports, their staging rows and all validation errors are as they were.
pub record IsCompleted (now report_id : ℕ) (db db' : Db) (result : ApplyResult) : Type 0 where
  pub before : Report
  pub after : Report
  pub found : find_report report_id db.reports ≡ some before
  pub stored : find_report report_id db'.reports ≡ some after
  pub status : after.status ≡ completed
  pub finished_at : after.finished_at ≡ some now
  pub no_failure : (after.failure_kind ≡ none) × (after.failure_message ≡ none)
  pub stocks_created : after.stocks_created ≡ result.counters.stocks_created
  pub stocks_updated : after.stocks_updated ≡ result.counters.stocks_updated
  pub stocks_zeroed : after.stocks_zeroed ≡ result.counters.stocks_zeroed
  pub row_count : after.row_count ≡ before.row_count
  pub staging_deleted : staging_of report_id db'.staging_rows ≡ []
  pub other_reports : (j : ℕ) → j ≢ report_id → find_report j db'.reports ≡ find_report j db.reports
  pub other_staging :
      (j : ℕ) → j ≢ report_id → staging_of j db'.staging_rows ≡ staging_of j db.staging_rows
  pub report_errors : db'.report_errors ≡ db.report_errors

complete-IsCompleted :
    (env : ApplyEnv) (i : ℕ) (db stocks : Db) (result : ApplyResult) (report : Report)
    → stocks.reports ≡ db.reports
    → stocks.staging_rows ≡ db.staging_rows
    → stocks.report_errors ≡ db.report_errors
    → find_report i db.reports ≡ some report
    → IsCompleted env.now i db (complete env.now i result.counters stocks) result
unfolding complete
complete-IsCompleted env i db stocks result report er es ee found =
    let done = complete_report env.now result.counters in
    let updated = λ (j : ℕ). find_report-update i j done stocks.reports (λ r. refl) in
    let deleted = λ (j : ℕ). staging_of-deleted i j stocks.staging_rows in
    record {
      before = report;
      after = done report;
      found = found;
      stored = ground (arith, updated i, ap (find_report i) er);
      status = refl;
      finished_at = refl;
      no_failure = (refl, refl);
      stocks_created = refl;
      stocks_updated = refl;
      stocks_zeroed = refl;
      row_count = refl;
      staging_deleted = ground (arith, deleted i);
      other_reports = λ j h. ground (arith, updated j, ap (find_report j) er);
      other_staging = λ j h. ground (arith, deleted j, ap (staging_of j) es);
      report_errors = ee;
    }

abbrev pub IsAtomic : ℕ → ℕ → Db → Result ApplyResult → Db → Type 0
IsAtomic now i db (ok result) db' = IsCompleted now i db db' result
IsAtomic now i db (raised e) db' = db' ≡ db

abbrev IsAtomicPair : ℕ → ℕ → Db → Result ApplyResult × Db → Type 0
IsAtomicPair now i db r = IsAtomic now i db r.0 r.1

IsAtomic-in_transaction :
    (env : ApplyEnv) (i : ℕ) (db : Db) (r : Result (ApplyResult × Db))
    → apply env i db ≡ in_transaction db r
    → IsAtomicPair env.now i db (in_transaction db r)
IsAtomic-in_transaction env i db (raised e) h = refl
IsAtomic-in_transaction env i db (ok (result, db')) h =
    let a = apply-IsApplied env i db db' result h in
    let ss = staging_of i db.staging_rows in
    subst⁻¹ (λ d. IsCompleted env.now i db d result) a.tables
      (complete-IsCompleted env i db (stocks_after env.now ss db a.balances) result a.report refl
        refl refl a.found)

-- Whatever fails during apply, it leaves the tables as they were and raises; and when it returns,
-- the report is completed with the counters returned and the instant of the transaction, its
-- staging rows are gone, and the other reports, their staging rows and all errors are as they were.
pub apply-IsAtomic :
    (env : ApplyEnv) (report_id : ℕ) (db : Db)
    → IsAtomic env.now report_id db (apply env report_id db).0 (apply env report_id db).1
unfolding apply
apply-IsAtomic env i db = IsAtomic-in_transaction env i db _ refl

IsDb-in_transaction :
    (env : ApplyEnv) (i : ℕ) (db : Db) (r : Result (ApplyResult × Db))
    → IsDb db
    → apply env i db ≡ in_transaction db r
    → IsDb (in_transaction db r).1
IsDb-in_transaction env i db (raised e) h e' = h
IsDb-in_transaction env i db (ok (result, db')) h e =
    let a = apply-IsApplied env i db db' result e in
    let ss = staging_of i db.staging_rows in
    subst⁻¹ IsDb a.tables (
      complete-IsDb env.now i result.counters (stocks_after env.now ss db a.balances)
        (stocks_after-IsDb env ss db a.balances h a.put))

-- Every call of apply, failed or not, keeps the catalogues well formed and the ids of the balances
-- among those given out.
pub apply-IsDb :
    (env : ApplyEnv) (report_id : ℕ) (db : Db) → IsDb db → IsDb (apply env report_id db).1
unfolding apply
apply-IsDb env i db h = IsDb-in_transaction env i db _ h refl
