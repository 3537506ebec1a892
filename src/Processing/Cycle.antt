-- ===== src/Processing/Cycle.antt =====
-- What a cycle of the worker keeps of the reports, whatever fails on the way: all that survives the
-- updates of the validation, the claim and the application.
use service_of_import.Prelude.{
  ℕ, Text, ◌≡◌, Bool, true, false, Option, none, some, List, Bool-cases, inl, inr, if◌then◌else◌,
}
use service_of_import.Errors.{Exn, Result, ok, raised}
use service_of_import.Csv.Parse.{CsvLimits}
use service_of_import.Database.{Db, Report}
use service_of_import.Apply.{ApplyEnv, ApplyResult, apply, is_processing, update_report}
use service_of_import.Steps.{World, Outside, transaction}
use service_of_import.Steps.Keeps.{Keeps, and_then-keeps, transaction-keeps, guarded-Keeps}
use service_of_import.Validation.{Outcome, ReportSource, Download, validate}
use service_of_import.Processing.{
  claim_or_recover, mark_processing_failed, mark_apply_failed, after_apply, after_validate,
  persist_failure, process_claimed, process, process_next_report, is_lock_lost, run_apply, reraise,
}
use service_of_import.Processing.Kept.{mark_processing-Kept, mark_apply-Kept, validate-Keeps}

module _ (P : List Report → Type 0)
    (updated : (j : ℕ) (change : Report → Report) (rs : List Report)
      → ((x : Report) → (change x).id ≡ x.id)
      → P rs
      → P (update_report j (λ x. if is_processing x.status then change x else x) rs))
    (claimed_kept : (now : ℕ) (db : Db) → P db.reports → P (claim_or_recover now db).1.reports)
    (applied : (env : ApplyEnv) (j : ℕ) (db : Db)
      → P db.reports
      → P (apply env j db).1.reports) where
  abbrev Kept : Db → Type 0
  Kept db = P db.reports

  reraise-Kept : (e : Exn) (x : Result Outcome × World) → Kept x.1.db → Kept (reraise e x).1.db
  reraise-Kept e (ok outcome, w) h = h
  reraise-Kept e (raised other, w) h = h

  module _ (out : Outside) where
    persist_failure-Keeps :
        (statement : ℕ → Db → Db)
        → ((now : ℕ) (db : Db) → Kept db → Kept (statement now db))
        → Keeps Kept (persist_failure out statement)
    persist_failure-Keeps statement h = guarded-Keeps Kept out statement _ h (λ w k. k)

    after_apply-Kept :
        (j : ℕ) (x : Result ApplyResult × World) → Kept x.1.db → Kept (after_apply out j x).1.db
    unfolding after_apply
    after_apply-Kept j (ok result, w) h = h
    after_apply-Kept j (raised e, w) h = elim (Bool-cases (is_lock_lost e)) [
      | inl f ↦ rw f h
      | inr f ↦ rw f (
          reraise-Kept e (persist_failure out (mark_apply_failed j) w)
            (persist_failure-Keeps (mark_apply_failed j) (mark_apply-Kept P updated j) w h))
    ]

    after_validate-Kept :
        (j : ℕ) (x : Result Outcome × World) → Kept x.1.db → Kept (after_validate out j x).1.db
    unfolding after_validate
    after_validate-Kept j (ok outcome, w) h = h
    after_validate-Kept j (raised e, w) h = elim (Bool-cases (is_lock_lost e)) [
      | inl f ↦ rw f h
      | inr f ↦
          rw f (
            persist_failure-Keeps (mark_processing_failed j) (mark_processing-Kept P updated j) w h)
    ]

    module _ (env : ℕ → ApplyEnv) (batch_size : ℕ) (limits : CsvLimits)
        (download : Text → Text → ℕ → Download) where
      process_claimed-Keeps :
          (o : Option (ReportSource × Bool))
          → Keeps Kept (process_claimed out env batch_size limits download o)
      unfolding process_claimed
      process_claimed-Keeps none w h = h
      process_claimed-Keeps (some (report, true)) w h =
          after_apply-Kept report.id (run_apply env report.id w)
            (applied (env w.calls) report.id w.db h)
      process_claimed-Keeps (some (report, false)) w h =
          after_validate-Kept report.id (validate out batch_size limits report.id _ w)
            (validate-Keeps P updated out batch_size report.id limits _ w h)

      pub process-Keeps : Keeps Kept (process out env batch_size limits download)
      unfolding process
      process-Keeps w h =
          and_then-keeps Kept (transaction out claim_or_recover w)
            (process_claimed out env batch_size limits download)
            (transaction-keeps Kept out claim_or_recover w h
              (claimed_kept (out.now w.calls) w.db h))
            process_claimed-Keeps

      -- A cycle, with any answer to the request for the lock.
      pub process_next_report-Keeps :
          (acquired : Bool)
          → Keeps Kept (process_next_report out env batch_size limits download acquired)
      unfolding process_next_report
      process_next_report-Keeps true w h = process-Keeps w h
      process_next_report-Keeps false w h = h
