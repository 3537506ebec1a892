-- ===== src/Registration/Original.antt =====
-- A report and the download of its original.
use service_of_import.Prelude.{
  ℕ, Text, ◌≡◌, refl, sym, ap, ◌∙◌, subst, Option, none, some, List, [], ◌∷◌, ◌++◌, ◌==◌, ==_refl,
  arith, Bool-cases, Option-cases, inl, inr,
}
use service_of_import.Errors.{Exn, Result, ok, raised, object_not_found}
use service_of_import.Database.{Db, Report}
use service_of_import.Apply.{find_report}
use service_of_import.Effects.{pure, ◌>>=◌, on_left, on_right, and_then-ok, on_right-ok, on_left-ok}
use service_of_import.Steps.{World, Outside, transaction}
use service_of_import.S3.{Bytes}
use service_of_import.Storage.Contract.{ObjectStorage, IsObjectStorage, IsFront}
use service_of_import.Registration.{
  get_report, missing_for_not_found, register_original, download_original,
}
use service_of_import.Registration.Registered.{register_original-IsRegistered}

find_report_snoc :
    (i : ℕ) (rs : List Report) (r : Report)
    → find_report i rs ≡ none
    → r.id ≡ i
    → find_report i (rs ++ r ∷ []) ≡ some r
unfolding find_report
find_report_snoc i [] r h e = rw (e, ==_refl i) refl
find_report_snoc i (q ∷ rs) r h e = elim (Bool-cases (q.id == i)) [
  | inl same ↦ absurd (ground arith)
  | inr other ↦ rw other (find_report_snoc i rs r (ground arith) e)
]

get_report-ok :
    (out : Outside) (i : ℕ) (report : Report) (w w' : World)
    → get_report out i w ≡ (ok report, w')
    → find_report i w.db.reports ≡ some report
unfolding get_report transaction
get_report-ok out i report w w' h = elim (Option-cases (out.fault w.calls)) [
  | inr (e, broken) ↦ absurd (ground arith)
  | inl quiet ↦ elim (Option-cases (find_report i w.db.reports)) [
    | inl missing ↦ absurd (ground arith)
    | inr (r, there) ↦ ground arith
  ]
]

missing_for_not_found-ok :
    {W A : Type 0} (x : Result A × W) (a : A) (w : W)
    → missing_for_not_found x ≡ (ok a, w)
    → x ≡ (ok a, w)
missing_for_not_found-ok (ok b, v) a w h = h
missing_for_not_found-ok (raised object_not_found, v) a w h = cc
missing_for_not_found-ok (raised _, v) a w h = h

module _ {R S : Type 0} (storage : ObjectStorage R S) (content : R → Bytes)
    (object_at : Text → Text → S → Option Bytes) (sha256 : Bytes → Text)
    (contract : IsObjectStorage storage content object_at sha256) (out : Outside)
    (bucket : Text) where
  -- A download that returned: the report, and the chunks of its object.
  download_original-ok :
      (i : ℕ) (text : Bytes) (r r' : R) (s s' : S) (w w' : World) (report : Report)
      (chunks : List Bytes) (failure : Option Exn)
      → ((x : Report)
          → find_report i w.db.reports ≡ some x
          → object_at x.object_bucket x.object_key s ≡ some text)
      → download_original storage out bucket i ((r, s), w)
        ≡ (ok (report, (chunks, failure)), ((r', s'), w'))
      → (find_report i w.db.reports ≡ some report) × IsFront text chunks failure
  unfolding download_original
  download_original-ok i text r r' s s' w w' report chunks failure stored h =
      let down = λ (x : Report). storage.download_stream x.object_bucket x.object_key in
      let rest = λ (x : Report) (v : (R × S) × World).
        missing_for_not_found (on_left (on_right (down x)) v) in
      let (rep, ((r1, s1), w1), run1, h1) =
        and_then-ok (on_right (get_report out i) ((r, s), w))
          (λ x. rest x >>= λ chunks. pure (x, chunks)) h in
      let (got, same) = on_right-ok (get_report out i) (r, s) (r1, s1) w w1 rep run1 in
      let (cs, ((r2, s2), w2), run2, h2) =
        and_then-ok (rest rep ((r1, s1), w1)) (λ chunks. pure (rep, chunks)) h1 in
      let (opened, same_w) =
        on_left-ok (on_right (down rep)) (r1, s1) (r2, s2) w1 w2 cs
          (missing_for_not_found-ok (on_left (on_right (down rep)) ((r1, s1), w1)) cs ((r2, s2), w2)
            run2) in
      let (read, same_r) = on_right-ok (down rep) r1 r2 s1 s2 cs opened in
      let there = get_report-ok out i rep w w1 got in
      let object : object_at rep.object_bucket rep.object_key s1 ≡ some text =
        ap (object_at rep.object_bucket rep.object_key) (ap (λ x. x.1) (sym same))
        ∙ stored rep there in
      let front =
        contract.download rep.object_bucket rep.object_key text s1 s2 cs.0 cs.1 object read in
      let same_report : rep ≡ report = ground arith in
      let same_chunks : cs ≡ (chunks, failure) = ground arith in
      (
        there ∙ ap some same_report,
        subst (λ (x : List Bytes × Option Exn). IsFront text x.0 x.1) same_chunks front,
      )

  -- Once register_original has returned with an id that no report had, the download of that id gives
  -- this report, and hands out the uploaded content from its front, all of it unless the download
  -- ends in StorageUnavailableError.
  pub download_original-register_original :
      (max_bytes : ℕ) (uuid : Text) (id : ℕ) (filename : Option Text) (r r1 r' : R) (s s1 s' : S)
      (w w1 w' : World) (registered report : Report) (chunks : List Bytes) (failure : Option Exn)
      → find_report id w.db.reports ≡ none
      → register_original storage out bucket max_bytes uuid id filename ((r, s), w)
        ≡ (ok registered, ((r1, s1), w1))
      → download_original storage out bucket registered.id ((r1, s1), w1)
        ≡ (ok (report, (chunks, failure)), ((r', s'), w'))
      → (report ≡ registered) × IsFront (content r) chunks failure
  download_original-register_original max_bytes uuid id filename r r1 r' s s1 s' w w1 w' registered
        report chunks failure new up down =
      let (same_id, reg) =
        register_original-IsRegistered storage content object_at sha256 contract out bucket
          max_bytes uuid id filename r r1 s s1 w w1 registered up in
      let there : find_report registered.id w1.db.reports ≡ some registered =
        ap (λ (db : Db). find_report registered.id db.reports) reg.inserted
        ∙ find_report_snoc registered.id w.db.reports registered
            (ap (λ i. find_report i w.db.reports) same_id ∙ new) refl in
      let (again, front) =
        download_original-ok registered.id (content r) r1 r' s1 s' w1 w' report chunks failure
          (λ x e.
            let same : x ≡ registered = ground arith in
            ap (λ (y : Report). object_at y.object_bucket y.object_key s1) same ∙ reg.object)
          down in
      (ground arith, front)
