-- ===== src/Processing/Final.antt =====
-- Completed and failed reports, across a cycle of the worker.
use service_of_import.Prelude.{
  subst⁻¹, ℕ, Text, ◌≡◌, ◌≢◌, refl, sym, ap, ◌∙◌, Bool, true, false, ◌&&◌, Option, none, some, List,
  [], ◌∷◌, arith, ◌==◌, ==_iff, Bool-cases, Option-cases, inl, inr, length, if◌then◌else◌,
}
use service_of_import.Errors.{Result, ok, raised}
use service_of_import.Csv.Parse.{CsvLimits}
use service_of_import.Database.{Db, Report}
use service_of_import.Stocks.{staging_of}
use service_of_import.Apply.{
  ApplyEnv, ApplyResult, apply, is_processing, is_ready, find_report, update_report, complete,
  complete_report,
}
use service_of_import.Apply.Outcome.{apply-IsApplied, find_report-update}
use service_of_import.Apply.Atomic.{IsAtomic, apply-IsAtomic}
use service_of_import.Steps.{World, Outside}
use service_of_import.Validation.{Download}
use service_of_import.Processing.{
  is_open, next_report, claim, claimed, claim_found, claim_or_recover, process_next_report,
  validation_is_complete,
}
use service_of_import.Processing.Cycle.{process_next_report-Keeps}
use service_of_import.Processing.Closed.{if_id, Stays, is_open-is_processing}

-- The ids of the reports are a key.
abbrev pub IsKeyed : List Report → Type 0
IsKeyed [] = Unit
IsKeyed (r ∷ rs) = (find_report r.id rs ≡ none) × IsKeyed rs

pub next_report_found :
    (rs : List Report) (x : Report)
    → IsKeyed rs
    → next_report rs ≡ some x
    → (find_report x.id rs ≡ some x) × (is_open x.status ≡ true)
unfolding next_report find_report
next_report_found [] x k e = absurd (ground arith)
next_report_found (r ∷ rs) x k e = elim (Option-cases (next_report rs)) [
  | inl f ↦ (ground (arith, k.0), ground arith)
  | inr (s, f) ↦
      let ih = next_report_found rs s k.1 f in (ground (arith, k.0, ih.0), ground (arith, ih.1))
]

IsKeyed-update_report :
    (j : ℕ) (f : Report → Report) (rs : List Report)
    → ((x : Report) → (f x).id ≡ x.id)
    → IsKeyed rs
    → IsKeyed (update_report j f rs)
unfolding update_report
IsKeyed-update_report j f [] same k = tt
IsKeyed-update_report j f (x ∷ rs) same k =
    let id : (if x.id == j then f x else x).id ≡ x.id = if_id (x.id == j) x (f x) (same x) in
    (
      ap (λ n. find_report n (update_report j f rs)) id
          ∙ find_report-update j x.id f rs same
          ∙ ap (λ o. elim o [ none ↦ none | some y ↦ some (if j == x.id then f y else y) ]) k.0,
      IsKeyed-update_report j f rs same k.1,
    )

claimed-IsKeyed :
    (now : ℕ) (db : Db) (o : Option Report)
    → IsKeyed db.reports
    → IsKeyed (claim_found now db o).1.reports
unfolding claim_found claim
claimed-IsKeyed now db none k = k
claimed-IsKeyed now db (some x) k =
    elim (Bool-cases (is_processing x.status && validation_is_complete db x)) [
      | inl f ↦ rw f k
      | inr f ↦ rw f (IsKeyed-update_report x.id (claimed now) db.reports (λ y. refl) k)
    ]

applied-IsKeyed :
    (env : ApplyEnv) (j : ℕ) (db db' : Db) (res : Result ApplyResult)
    → apply env j db ≡ (res, db')
    → IsAtomic env.now j db res db'
    → IsKeyed db.reports
    → IsKeyed db'.reports
unfolding complete
applied-IsKeyed env j db db' (raised e) run c k = subst⁻¹ (λ (d : Db). IsKeyed d.reports) c k
applied-IsKeyed env j db db' (ok result) run c k =
    let a = apply-IsApplied env j db db' result run in
    subst⁻¹ (λ (d : Db). IsKeyed d.reports) a.tables
      (IsKeyed-update_report j (complete_report env.now result.counters) db.reports (λ y. refl) k)

module _ (i : ℕ) (r : Report) (closed : is_open r.status ≡ false) where
  claim-Stays :
      (now : ℕ) (db : Db) (x : Report)
      → find_report x.id db.reports ≡ some x
      → is_open x.status ≡ true
      → Stays i r db
      → Stays i r (claim now x db)
  unfolding claim
  claim-Stays now db x found opened h =
      let updated = find_report-update x.id i (claimed now) db.reports (λ y. refl) in
      elim (Bool-cases (x.id == i)) [
        | inl e ↦
            let same : find_report i db.reports ≡ some x =
              subst⁻¹ (λ j. find_report j db.reports ≡ some x) (sym ((==_iff x.id i).0 e)) found in
            absurd (ground arith)
        | inr e ↦ ground (arith, updated)
      ]

  claim_found-Stays :
      (now : ℕ) (db : Db) (o : Option Report)
      → IsKeyed db.reports
      → next_report db.reports ≡ o
      → Stays i r db
      → Stays i r (claim_found now db o).1
  unfolding claim_found
  claim_found-Stays now db none k e h = h
  claim_found-Stays now db (some x) k e h =
      let (found, opened) = next_report_found db.reports x k e in
      elim (Bool-cases (is_processing x.status && validation_is_complete db x)) [
        | inl f ↦ rw f h
        | inr f ↦ rw f (claim-Stays now db x found opened h)
      ]

  not_ready :
      (x : Report) (n : ℕ) (reports : List Report)
      → find_report i reports ≡ some x
      → find_report i reports ≡ some r
      → is_ready x n ≢ true
  unfolding is_ready
  not_ready x n reports e h ready =
      let same : x ≡ r = ground arith in
      let opened : is_processing x.status ≡ true = ground arith in
      absurd (
        ground
          (arith, ap (λ y. is_processing y.status) same, is_open-is_processing r.status closed))

  apply-Stays :
      (env : ApplyEnv) (j : ℕ) (db db' : Db) (res : Result ApplyResult)
      → apply env j db ≡ (res, db')
      → IsAtomic env.now j db res db'
      → Stays i r db
      → Stays i r db'
  apply-Stays env j db db' (raised e) run c h = subst⁻¹ (Stays i r) c h
  apply-Stays env j db db' (ok result) run c h =
      let a = apply-IsApplied env j db db' result run in
      elim (Bool-cases (i == j)) [
        | inl e ↦
            let same : find_report i db.reports ≡ some a.report =
              subst⁻¹ (λ k. find_report k db.reports ≡ some a.report) ((==_iff i j).0 e) a.found in
            absurd
              (not_ready a.report (length (staging_of j db.staging_rows)) db.reports same h a.ready)
        | inr e ↦ c.other_reports i (λ same. ground arith) ∙ h
      ]

  -- The key of the reports, and this report.
  abbrev pub IsClosed : List Report → Type 0
  IsClosed rs = IsKeyed rs × (find_report i rs ≡ some r)

  updated-Stays :
      (j : ℕ) (change : Report → Report) (rs : List Report)
      → ((x : Report) → (change x).id ≡ x.id)
      → find_report i rs ≡ some r
      → find_report i (update_report j (λ x. if is_processing x.status then change x else x) rs)
        ≡ some r
  updated-Stays j change rs same h =
      let guarded : Report → Report = λ x. if is_processing x.status then change x else x in
      ground (
        arith,
        h,
        is_open-is_processing r.status closed,
        find_report-update j i guarded rs
            (λ x. if_id (is_processing x.status) x (change x) (same x)),
      )

  updated-IsClosed :
      (j : ℕ) (change : Report → Report) (rs : List Report)
      → ((x : Report) → (change x).id ≡ x.id)
      → IsClosed rs
      → IsClosed (update_report j (λ x. if is_processing x.status then change x else x) rs)
  updated-IsClosed j change rs same (k, h) = (
    IsKeyed-update_report j (λ x. if is_processing x.status then change x else x) rs
        (λ x. if_id (is_processing x.status) x (change x) (same x)) k,
    updated-Stays j change rs same h,
  )

  claimed-IsClosed :
      (now : ℕ) (db : Db) → IsClosed db.reports → IsClosed (claim_or_recover now db).1.reports
  unfolding claim_or_recover
  claimed-IsClosed now db (k, h) = (
    claimed-IsKeyed now db (next_report db.reports) k,
    claim_found-Stays now db (next_report db.reports) k refl h,
  )

  applied-IsClosed :
      (env : ApplyEnv) (j : ℕ) (db : Db) → IsClosed db.reports → IsClosed (apply env j db).1.reports
  applied-IsClosed env j db (k, h) = (
    applied-IsKeyed env j db (apply env j db).1 (apply env j db).0 refl (apply-IsAtomic env j db) k,
    apply-Stays env j db (apply env j db).1 (apply env j db).0 refl (apply-IsAtomic env j db) h,
  )

  -- A cycle of the worker, whatever fails on the way.
  pub process_next_report-IsClosed :
      (out : Outside) (env : ℕ → ApplyEnv) (batch_size : ℕ) (limits : CsvLimits)
      (download : Text → Text → ℕ → Download) (acquired : Bool) (w : World)
      → IsClosed w.db.reports
      → IsClosed (process_next_report out env batch_size limits download acquired w).1.db.reports
  process_next_report-IsClosed out env n limits d acquired w h =
      process_next_report-Keeps IsClosed updated-IsClosed claimed-IsClosed applied-IsClosed out env
        n limits d acquired w h

-- A report that is completed or failed stays exactly as it is in every cycle of the worker, whatever
-- fails on the way: the lock, a transaction, the storage, the validation, the application or the
-- recording of a failure; for reports with distinct ids.
pub process_next_report-closed :
    (out : Outside) (env : ℕ → ApplyEnv) (batch_size : ℕ) (limits : CsvLimits)
    (download : Text → Text → ℕ → Download) (acquired : Bool) (w : World) (i : ℕ) (r : Report)
    → IsKeyed w.db.reports
    → find_report i w.db.reports ≡ some r
    → is_open r.status ≡ false
    → find_report i (process_next_report out env batch_size limits download acquired w).1.db.reports
      ≡ some r
process_next_report-closed out env n limits d acquired w i r k h closed =
    (process_next_report-IsClosed i r closed out env n limits d acquired w (k, h)).1
