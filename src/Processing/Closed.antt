-- ===== src/Processing/Closed.antt =====
-- A completed or failed report, and the key of the reports, across updates of reports.
use service_of_import.Prelude.{ℕ, ◌≡◌, refl, Bool, true, false, some, arith, if◌then◌else◌}
use service_of_import.Database.{Db, Report, Status}
use service_of_import.Apply.{is_processing, find_report}
use service_of_import.Apply.Outcome.{find_report-update}
use service_of_import.Validation.{update_processing}
use service_of_import.Processing.{is_open}

pub if_id : (b : Bool) (x y : Report) → y.id ≡ x.id → (if b then y else x).id ≡ x.id
if_id true x y h = h
if_id false x y h = refl

pub is_open-is_processing : (s : Status) → is_open s ≡ false → is_processing s ≡ false
is_open-is_processing Status.pending h = refl
is_open-is_processing Status.processing h = absurd (ground arith)
is_open-is_processing Status.completed h = refl
is_open-is_processing Status.failed h = refl

module _ (i : ℕ) (r : Report) where
  -- The report with this id is `r`.
  abbrev pub Stays : Db → Type 0
  Stays db = find_report i db.reports ≡ some r

  pub update_processing-Stays :
      (j : ℕ) (change : Report → Report) (db : Db)
      → is_open r.status ≡ false
      → ((x : Report) → (change x).id ≡ x.id)
      → Stays db
      → Stays (update_processing j change db)
  unfolding update_processing
  update_processing-Stays j change db closed same h =
      let guarded : Report → Report = λ x. if is_processing x.status then change x else x in
      let updated =
        find_report-update j i guarded db.reports
          (λ x. if_id (is_processing x.status) x (change x) (same x)) in
      ground (arith, updated, is_open-is_processing r.status closed)
