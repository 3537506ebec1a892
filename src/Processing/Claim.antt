-- ===== src/Processing/Claim.antt =====
-- Which report a cycle takes, and what it finds of it.
use service_of_import.Prelude.{
  ==_iff, ◌<◌, ◌≤◌, ◌⊎◌, ltb, subst⁻¹, ℕ, ◌≡◌, refl, sym, ap, ◌∙◌, Bool, true, false, ◌&&◌, not,
  Option, none, some, List, [], ◌∷◌, All, filter, length, arith, ◌==◌, if◌then◌else◌, Bool-cases,
  Option-cases, inl, inr,
}
use service_of_import.Database.{Db, Report, ReportError, Status}
use service_of_import.Stocks.{staging_of}
use service_of_import.Apply.{find_report, is_processing}
use service_of_import.Apply.Outcome.{find_report-update, staging_of-deleted}
use service_of_import.Apply.Completes.{IsReady, is_processing_iff}
use service_of_import.Validation.{ReportSource, errors_of, delete_staging, delete_errors}
use service_of_import.Processing.{
  is_open, earlier, next_report, claim, claimed, claim_found, claim_or_recover,
  validation_is_complete, report_source,
}
use service_of_import.Processing.Final.{IsKeyed, next_report_found}

earlier_trans : (r s t : Report) → earlier r s ≡ false → earlier s t ≡ false → earlier r t ≡ false
unfolding earlier
earlier_trans r s t h k = ground arith

-- No open report of a list comes before `x`.
abbrev pub IsFirst : Report → List Report → Type 0
IsFirst x rs = All (λ r. is_open r.status ≡ true → earlier r x ≡ false) rs

IsFirst-earlier :
    (x y : Report) (rs : List Report) → earlier y x ≡ false → IsFirst y rs → IsFirst x rs
IsFirst-earlier x y [] e h = tt
IsFirst-earlier x y (r ∷ rs) e h =
    (λ o. earlier_trans r y x (h.0 o) e, IsFirst-earlier x y rs e h.1)

none-IsFirst : (rs : List Report) (x : Report) → next_report rs ≡ none → IsFirst x rs
unfolding next_report
none-IsFirst [] x e = tt
none-IsFirst (r ∷ rs) x e = elim (Bool-cases (is_open r.status)) [
  | inl o ↦ absurd (ground arith)
  | inr o ↦ (λ o'. absurd (ground arith), none-IsFirst rs x (ground arith))
]

earlier_total : (r s : Report) → earlier s r ≡ true → earlier r s ≡ false
unfolding earlier
earlier_total r s h = ground arith

earlier_self : (r : Report) → earlier r r ≡ false
unfolding earlier
earlier_self r = ground arith

next_report-IsFirst : (rs : List Report) (x : Report) → next_report rs ≡ some x → IsFirst x rs
unfolding next_report
next_report-IsFirst [] x e = tt
next_report-IsFirst (r ∷ rs) x e = elim (Option-cases (next_report rs)) [
  | inl f ↦
      let same : r ≡ x = ground arith in
      (λ o. ap (earlier r) (sym same) ∙ earlier_self r, none-IsFirst rs x f)
  | inr (s, f) ↦
      let ih = next_report-IsFirst rs s f in
      elim (Bool-cases (is_open r.status && not (earlier s r))) [
        | inl g ↦
            let same : r ≡ x = ground arith in
            (
              λ o. ap (earlier r) (sym same) ∙ earlier_self r,
              IsFirst-earlier x s rs (ap (earlier s) (sym same) ∙ ground arith) ih,
            )
        | inr g ↦
            let same : s ≡ x = ground arith in
            (
              λ o. ap (earlier r) (sym same) ∙ earlier_total r s (ground arith),
              subst⁻¹ (λ y. IsFirst y rs) (sym same) ih,
            )
      ]
]

-- A status that the worker leaves alone.
abbrev pub HasEnded : Status → Type 0
HasEnded s = (s ≡ Status.completed) ⊎ (s ≡ Status.failed)

-- `x` was created before `r`, or in the same instant with an id that is not larger.
abbrev pub Precedes : Report → Report → Type 0
Precedes x r = (x.created_at < r.created_at) ⊎ ((x.created_at ≡ r.created_at) × (x.id ≤ r.id))

-- A report is taken into processing: its counts and its failure are reset, and what was registered
-- stays.
pub record IsStarted (now : ℕ) (before after : Report) : Type 0 where
  pub status : after.status ≡ Status.processing
  pub processing_started_at : after.processing_started_at ≡ some now
  pub finished_at : after.finished_at ≡ none
  pub counts : (after.row_count ≡ 0) × (after.error_count ≡ 0)
  pub failure : (after.failure_kind ≡ none) × (after.failure_message ≡ none)
  pub registered :
      (after.id ≡ before.id)
      × (after.original_filename ≡ before.original_filename)
      × (after.object_bucket ≡ before.object_bucket)
      × (after.object_key ≡ before.object_key)
      × (after.size_bytes ≡ before.size_bytes)
      × (after.checksum_sha256 ≡ before.checksum_sha256)
      × (after.created_at ≡ before.created_at)

claimed-IsStarted : (now : ℕ) (r : Report) → IsStarted now r (claimed now r)
claimed-IsStarted now r = record {
  status = refl;
  processing_started_at = refl;
  finished_at = refl;
  counts = (refl, refl);
  failure = (refl, refl);
  registered = (refl, refl, refl, refl, refl, refl, refl);
}

HasEnded-is_open : (s : Status) → (is_open s ≡ true) ⊎ HasEnded s
HasEnded-is_open Status.pending = inl refl
HasEnded-is_open Status.processing = inl refl
HasEnded-is_open Status.completed = inr (inl refl)
HasEnded-is_open Status.failed = inr (inr refl)

is_open-HasEnded : (s : Status) → is_open s ≡ false → HasEnded s
is_open-HasEnded Status.pending h = absurd (ground arith)
is_open-HasEnded Status.processing h = absurd (ground arith)
is_open-HasEnded Status.completed h = inl refl
is_open-HasEnded Status.failed h = inr refl

not_earlier-Precedes : (r x : Report) → earlier r x ≡ false → Precedes x r
unfolding earlier
not_earlier-Precedes r x h = elim (Bool-cases (ltb x.created_at r.created_at)) [
  | inl e ↦ inl (ground (arith, e))
  | inr e ↦ inr (ground arith, ground arith)
]

-- Every other report has ended or comes later.
abbrev pub ComesFirst : Report → List Report → Type 0
ComesFirst x rs = All (λ r. HasEnded r.status ⊎ Precedes x r) rs

IsFirst-ComesFirst : (x : Report) (rs : List Report) → IsFirst x rs → ComesFirst x rs
IsFirst-ComesFirst x [] h = tt
IsFirst-ComesFirst x (r ∷ rs) h = (
  elim (HasEnded-is_open r.status) [
    | inl o ↦ inr (not_earlier-Precedes r x (h.0 o))
    | inr e ↦ inl e
  ],
  IsFirst-ComesFirst x rs h.1,
)

-- Of the report with this id, the row, the staging rows and the errors are as they were.
abbrev pub IsKept : ℕ → Db → Db → Type 0
IsKept j db db' =
    (find_report j db'.reports ≡ find_report j db.reports)
    × (staging_of j db'.staging_rows ≡ staging_of j db.staging_rows)
    × (errors_of j db'.report_errors ≡ errors_of j db.report_errors)

-- What a claim returns: the first report that has not ended; flagged, with its validation complete, and
-- nothing changed; or not flagged, then started, with no staging rows and no errors.
pub record IsTaken (now : ℕ) (db db' : Db) (source : ReportSource) (ready : Bool) : Type 0 where
  pub report : Report
  pub found : find_report source.id db.reports ≡ some report
  pub is_source : source ≡ report_source report
  pub opened : (report.status ≡ Status.pending) ⊎ (report.status ≡ Status.processing)
  pub first : ComesFirst report db.reports
  pub recovered :
      ready ≡ true
      → (db' ≡ db)
        × IsReady source.id db report
        × (length (errors_of source.id db.report_errors) ≡ 0)
  pub started :
      ready ≡ false
      → (after : Report) × (find_report source.id db'.reports ≡ some after)
        × IsStarted now report after
        × (staging_of source.id db'.staging_rows ≡ [])
        × (errors_of source.id db'.report_errors ≡ [])
  -- A report that is ready, with no error stored, is not started anew.
  pub resumed :
      IsReady source.id db report → length (errors_of source.id db.report_errors) ≡ 0 → ready ≡ true
  pub others : (j : ℕ) → ¬ (source.id ≡ j) → IsKept j db db'
  pub stocks :
      (db'.warehouses ≡ db.warehouses)
      × (db'.products ≡ db.products)
      × (db'.stock_balances ≡ db.stock_balances)

opened_status : (s : Status) → is_open s ≡ true → (s ≡ Status.pending) ⊎ (s ≡ Status.processing)
opened_status Status.pending h = inl refl
opened_status Status.processing h = inr refl
opened_status Status.completed h = absurd (ground arith)
opened_status Status.failed h = absurd (ground arith)

errors_of-deleted :
    (i j : ℕ) (errors : List ReportError)
    → errors_of j (filter (λ e. not (e.report_id == i)) errors)
      ≡ (if i == j then [] else errors_of j errors)
unfolding errors_of filter
errors_of-deleted i j [] = ground arith
errors_of-deleted i j (e ∷ errors) = ground (arith, errors_of-deleted i j errors)

complete-IsReady :
    (db : Db) (x : Report)
    → find_report x.id db.reports ≡ some x
    → (is_processing x.status && validation_is_complete db x) ≡ true
    → IsReady x.id db x × (length (errors_of x.id db.report_errors) ≡ 0)
unfolding validation_is_complete
complete-IsReady db x found h = (
  record {
    found = found;
    status = (is_processing_iff x.status).0 (ground arith);
    no_error = ground arith;
    not_empty = ground arith;
    staged = ground arith;
  },
  ground arith,
)

claim-IsStarted :
    (now : ℕ) (db : Db) (x : Report)
    → find_report x.id db.reports ≡ some x
    → (after : Report) × (find_report x.id (claim now x db).reports ≡ some after)
      × IsStarted now x after
      × (staging_of x.id (claim now x db).staging_rows ≡ [])
      × (errors_of x.id (claim now x db).report_errors ≡ [])
unfolding claim delete_staging delete_errors
claim-IsStarted now db x found = (
  claimed now x,
  ground (arith, find_report-update x.id x.id (claimed now) db.reports (λ y. refl)),
  claimed-IsStarted now x,
  ground (arith, staging_of-deleted x.id x.id db.staging_rows),
  ground (arith, errors_of-deleted x.id x.id db.report_errors),
)

claim-IsKept :
    (now : ℕ) (db : Db) (x : Report) (j : ℕ) → ¬ (x.id ≡ j) → IsKept j db (claim now x db)
unfolding claim delete_staging delete_errors
claim-IsKept now db x j other =
    let apart : (x.id == j) ≡ false = ground (arith, other, ==_iff x.id j) in
    let updated = find_report-update x.id j (claimed now) db.reports (λ y. refl) in
    (
      ground (arith, updated),
      ground (arith, staging_of-deleted x.id j db.staging_rows),
      ground (arith, errors_of-deleted x.id j db.report_errors),
    )

claim-stocks :
    (now : ℕ) (db : Db) (x : Report)
    → ((claim now x db).warehouses ≡ db.warehouses)
      × ((claim now x db).products ≡ db.products)
      × ((claim now x db).stock_balances ≡ db.stock_balances)
unfolding claim delete_staging delete_errors
claim-stocks now db x = (refl, refl, refl)

ready_complete :
    (db : Db) (x : Report)
    → IsReady x.id db x
    → length (errors_of x.id db.report_errors) ≡ 0
    → (is_processing x.status && validation_is_complete db x) ≡ true
unfolding validation_is_complete
ready_complete db x ready clean =
    let p = (is_processing_iff x.status).1 ready.status in
    let not_empty = ready.not_empty in
    let no_error = ready.no_error in
    let staged = ready.staged in
    ground (
      arith,
      ==_iff x.row_count 0,
      ==_iff x.error_count 0,
      ==_iff (length (staging_of x.id db.staging_rows)) x.row_count,
      ==_iff (length (errors_of x.id db.report_errors)) 0,
    )

abbrev pub NoneOpen : List Report → Type 0
NoneOpen rs = All (λ r. HasEnded r.status) rs

next_report-NoneOpen : (rs : List Report) → next_report rs ≡ none → NoneOpen rs
unfolding next_report
next_report-NoneOpen [] e = tt
next_report-NoneOpen (r ∷ rs) e = elim (Bool-cases (is_open r.status)) [
  | inl o ↦ absurd (ground arith)
  | inr o ↦ (is_open-HasEnded r.status o, next_report-NoneOpen rs (ground arith))
]

-- The answers of a claim.
abbrev pub IsClaim : ℕ → Db → Option (ReportSource × Bool) → Db → Type 0
IsClaim now db none db' = (db' ≡ db) × NoneOpen db.reports
IsClaim now db (some (source, ready)) db' = IsTaken now db db' source ready

abbrev IsClaimPair : ℕ → Db → Option (ReportSource × Bool) × Db → Type 0
IsClaimPair now db r = IsClaim now db r.0 r.1

claim_found-IsClaim :
    (now : ℕ) (db : Db) (o : Option Report)
    → IsKeyed db.reports
    → next_report db.reports ≡ o
    → IsClaimPair now db (claim_found now db o)
unfolding claim_found
claim_found-IsClaim now db none k e = (refl, next_report-NoneOpen db.reports e)
claim_found-IsClaim now db (some x) k e =
    let (found, opened) = next_report_found db.reports x k e in
    let first = IsFirst-ComesFirst x db.reports (next_report-IsFirst db.reports x e) in
    elim (is_processing x.status && validation_is_complete db x)
        as (λ b.
          (is_processing x.status && validation_is_complete db x) ≡ b
          → IsClaimPair now db (
              if b
              then (some (report_source x, true), db)
              else (some (report_source x, false), claim now x db))) [
                | true ↦ λ f.
                    let (ready, clean) = complete-IsReady db x found f in
                    record {
                      report = x;
                      found = found;
                      is_source = refl;
                      opened = opened_status x.status opened;
                      first = first;
                      recovered = λ b. (refl, ready, clean);
                      started = λ b. absurd (ground arith);
                      resumed = λ ready clean. refl;
                      others = λ j other. (refl, refl, refl);
                      stocks = (refl, refl, refl);
                    }
                | false ↦ λ f. record {
                  report = x;
                  found = found;
                  is_source = refl;
                  opened = opened_status x.status opened;
                  first = first;
                  recovered = λ b. absurd (ground arith);
                  started = λ b. claim-IsStarted now db x found;
                  resumed = λ ready clean. sym f ∙ ready_complete db x ready clean;
                  others = claim-IsKept now db x;
                  stocks = claim-stocks now db x;
                }
              ]
      refl

-- The claim takes, of the reports that have not ended, the one created first, the smaller id where
-- instants tie, and none exactly when all have ended. It asks for the application exactly if that report
-- is ready for it, with no error stored, and then changes nothing; otherwise the report is processing
-- afterwards, with its counts and its failure reset, what was registered unchanged, and no staging
-- rows or errors left, while the other reports with their rows and errors, and the stocks, stay as
-- they were. For reports with distinct ids.
pub claim_or_recover-IsClaim :
    (now : ℕ) (db : Db)
    → IsKeyed db.reports
    → IsClaim now db (claim_or_recover now db).0 (claim_or_recover now db).1
unfolding claim_or_recover
claim_or_recover-IsClaim now db k = claim_found-IsClaim now db (next_report db.reports) k refl
