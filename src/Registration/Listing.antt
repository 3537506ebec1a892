-- ===== src/Registration/Listing.antt =====
-- `list_reports` of `ReportService`.
use service_of_import.Prelude.{
  ℕ, ◌*◌, ◌≤◌, ◌<◌, Bool, true, false, ◌&&◌, ◌||◌, Option, none, some, List, ◌==◌, ltb, leb, length,
  ◌≡◌, refl, arith, ◌⊎◌, inl, inr, Bool-cases,
}
use service_of_import.Errors.{ok}
use service_of_import.Database.{Report, Status}
use service_of_import.Effects.{Eff}
use service_of_import.Steps.{World, Outside, IsQuiet, transaction}
use service_of_import.Paging.Returns.{Walks, walk-Walks, transaction-Returns}
use service_of_import.Paging.{Page, Sort, selected, walk}
use service_of_import.Paging.Order.{IsSort, IsKeyed}
use service_of_import.Paging.Walk.{IsQuery, IsWalk, walk-IsWalk, transaction_reads}

abbrev pub status_eq : Status → Status → Bool
status_eq Status.pending Status.pending = true
status_eq Status.processing Status.processing = true
status_eq Status.completed Status.completed = true
status_eq Status.failed Status.failed = true
status_eq _ _ = false

-- `Report.status == status`, if a status is given
abbrev pub has_status : Option Status → Report → Bool
has_status none r = true
has_status (some status) r = status_eq r.status status

-- `Report.created_at.desc(), Report.id.desc()`
abbrev pub newest_first : Report → Report → Bool
newest_first x y = ltb y.created_at x.created_at || (x.created_at == y.created_at && leb y.id x.id)

unfoldable pub list_reports :
    Sort Report → Outside → Option Status → ℕ → ℕ → Eff World (Page Report)
list_reports sort out status limit offset w =
    transaction out
      (λ now db.
        (selected (has_status status) (sort newest_first w.calls) limit offset db.reports, db))
      w

-- The first report was created later than the second, or at the same time with a greater id.
abbrev pub IsNewer : Report → Report → Type 0
IsNewer x y = (y.created_at < x.created_at) ⊎ ((x.created_at ≡ y.created_at) × (y.id < x.id))

-- The report has the status that the client asks for, if it asks for one.
abbrev pub HasStatus : Option Status → Report → Type 0
HasStatus none r = Unit
HasStatus (some status) r = r.status ≡ status

status_eq_iff : (s t : Status) → (status_eq s t ≡ true → s ≡ t) × (s ≡ t → status_eq s t ≡ true)
status_eq_iff Status.pending t = ground arith
status_eq_iff Status.processing t = ground arith
status_eq_iff Status.completed t = ground arith
status_eq_iff Status.failed t = ground arith

newest_first-strict : (x y : Report) → ¬ (x.id ≡ y.id) → newest_first x y ≡ true → IsNewer x y
newest_first-strict x y d h = elim (Bool-cases (ltb y.created_at x.created_at)) [
  | inl e ↦ inl (ground arith)
  | inr e ↦ inr (ground arith, ground (arith, d))
]

has_status_matches :
    (s : Option Status) (r : Report)
    → (has_status s r ≡ true → HasStatus s r) × (HasStatus s r → has_status s r ≡ true)
has_status_matches none r = (λ h. tt, λ h. refl)
has_status_matches (some s) r = status_eq_iff r.status s

IsNewer-asymm : (x y : Report) → IsNewer x y → IsNewer y x → ⊥
IsNewer-asymm x y (inl h) (inl k) = omega arith
IsNewer-asymm x y (inl h) (inr k) = omega arith
IsNewer-asymm x y (inr h) (inl k) = omega arith
IsNewer-asymm x y (inr h) (inr k) = omega arith

reports-IsQuery :
    (s : Option Status)
    → IsQuery (λ (r : Report). r.id) (has_status s) newest_first IsNewer (HasStatus s)
reports-IsQuery s = record {
  order = record { total = λ x y h. ground arith; trans = λ x y z h k. ground arith };
  strict = newest_first-strict;
  asymm = IsNewer-asymm;
  matches = λ r. (has_status_matches s r).0;
  kept = λ r. (has_status_matches s r).1;
}

list_reports-IsWalk :
    (sort : Sort Report) (out : Outside) (status : Option Status) (limit n : ℕ) (w w' : World)
    (pages : List (Page Report))
    → IsSort sort
    → IsKeyed (λ (r : Report). r.id) w.db.reports
    → length w.db.reports ≤ n * limit
    → walk (list_reports sort out status limit) limit n w ≡ (ok pages, w')
    → IsWalk IsNewer (HasStatus status) w.db.reports limit pages
unfolding list_reports
list_reports-IsWalk sort out status limit n w w' pages is_sort keyed enough h =
    walk-IsWalk (reports-IsQuery status) sort is_sort (λ db. db.reports) limit
      (list_reports sort out status limit)
      (λ offset w w' page.
        transaction_reads out
          (λ db. selected (has_status status) (sort newest_first w.calls) limit offset db.reports)
          page w w')
      n w w' pages keyed enough h

-- A client that reads the first `n` pages of list_reports, with pages enough for all reports, without a
-- change of the tables in between and with no failure outside, gets exactly the reports with the
-- status asked for, each once, later created ones before earlier ones and of those created at the
-- same time the greater id first; each page tells their number and holds at most `limit` of them. For
-- reports with distinct ids, in any table order, and however the database orders tied rows.
pub walk-list_reports :
    (sort : Sort Report) (out : Outside) (status : Option Status) (limit n : ℕ) (w : World)
    → IsSort sort
    → IsQuiet out
    → IsKeyed (λ (r : Report). r.id) w.db.reports
    → length w.db.reports ≤ n * limit
    → Walks IsNewer
        (HasStatus status)
        w.db.reports
        limit
        (walk (list_reports sort out status limit) limit n w)
unfolding list_reports
walk-list_reports sort out status limit n w is_sort quiet keyed enough =
    walk-Walks (list_reports sort out status limit) limit n w
      (λ offset w.
        transaction-Returns out quiet
          (λ db. selected (has_status status) (sort newest_first w.calls) limit offset db.reports)
          w)
      (λ w' pages. list_reports-IsWalk sort out status limit n w w' pages is_sort keyed enough)
