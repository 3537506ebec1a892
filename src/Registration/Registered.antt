-- ===== src/Registration/Registered.antt =====
-- What `register_original` leaves when it returns.
use service_of_import.Prelude.{
  ℕ, ◌≤◌, Text, ◌≡◌, sym, ap, ◌∙◌, subst, false, Option, some, [], ◌∷◌, ◌++◌, length, any, arith,
  Bool-cases, Option-cases, inl, inr,
}
use service_of_import.Errors.{Result, ok, raised, report_persistence}
use service_of_import.Database.{Db, Report, Status}
use service_of_import.Effects.{raise, ◌>>=◌, on_left, and_then-ok, on_left-ok, on_right-ok}
use service_of_import.Steps.{World, Outside, transaction}
use service_of_import.S3.{Bytes}
use service_of_import.Storage.Contract.{ObjectStorage, IsObjectStorage}
use service_of_import.Registration.{
  object_key, pending_report, has_object, insert_report, outcome, or_compensate,
  compensating_delete, record_upload, register_original,
}
use service_of_import.Registration.Filename.{
  IsSafe, normalize_original_filename, normalize_original_filename-IsSafe,
}

-- The block of the transaction that returned: what it inserted.
inserted :
    (out : Outside) (f : ℕ → Report) (report : Report) (w w' : World)
    → (transaction out (λ now db. insert_report (f now) db) >>= outcome) w ≡ (ok report, w')
    → (report ≡ f (out.now w.calls))
      × (any (has_object report.object_bucket report.object_key) w.db.reports ≡ false)
      × (w'.db ≡ record w.db { reports = w.db.reports ++ report ∷ [] })
unfolding transaction insert_report
inserted out f report w w' h =
    let new = f (out.now w.calls) in
    elim (Option-cases (out.fault w.calls)) [
      | inr (e, broken) ↦ absurd (ground arith)
      | inl quiet ↦
          elim (Bool-cases (any (has_object new.object_bucket new.object_key) w.db.reports)) [
            | inl taken ↦ absurd (ground arith)
            | inr alone ↦
                let same : report ≡ new = ground arith in
                let change : w'.db ≡ record w.db { reports = w.db.reports ++ new ∷ [] } =
                  ground arith in
                (
                  same,
                  subst (λ r. any (has_object r.object_bucket r.object_key) w.db.reports ≡ false)
                      (sym same) alone,
                  change ∙ ap (λ r. record w.db { reports = w.db.reports ++ r ∷ [] }) (sym same),
                )
          ]
    ]

module _ {R S : Type 0} (storage : ObjectStorage R S) (content : R → Bytes)
    (object_at : Text → Text → S → Option Bytes) (sha256 : Bytes → Text)
    (contract : IsObjectStorage storage content object_at sha256) (out : Outside)
    (bucket : Text) where
  -- A pending report of the text, the one row that is new, and its object.
  pub record IsRegistered (max_bytes : ℕ) (key : Text) (text : Bytes) (db db' : Db) (s : S)
      (report : Report) : Type 0 where
    pub pending : report.status ≡ Status.pending
    pub place : (report.object_bucket ≡ bucket) × (report.object_key ≡ key)
    pub object : object_at report.object_bucket report.object_key s ≡ some text
    pub size : report.size_bytes ≡ length text
    pub checksum : report.checksum_sha256 ≡ some (sha256 text)
    pub bounded : length text ≤ max_bytes
    pub filename : IsSafe report.original_filename
    pub alone : any (has_object report.object_bucket report.object_key) db.reports ≡ false
    pub inserted : db' ≡ record db { reports = db.reports ++ report ∷ [] }

  or_compensate-ok :
      (key : Text) (x : Result Report × ((R × S) × World)) (report : Report) (w : (R × S) × World)
      → or_compensate storage out bucket key x ≡ (ok report, w)
      → x ≡ (ok report, w)
  or_compensate-ok key (ok a, w') report w h = h
  or_compensate-ok key (raised e, w') report w h =
      let (u, v, run, impossible) =
        and_then-ok (compensating_delete storage out bucket key w')
          (λ (u : Unit {0}). raise report_persistence) h in
      absurd (ground arith)

  -- When register_original returns, the object of the report is all that the source held, of at most
  -- the allowed size; the report is pending, with the object's size and digest and a safe file name;
  -- no earlier report has that object; and that report is the only change of the database.
  pub register_original-IsRegistered :
      (max_bytes : ℕ) (uuid : Text) (id : ℕ) (filename : Option Text) (r r' : R) (s s' : S)
      (w w' : World) (report : Report)
      → register_original storage out bucket max_bytes uuid id filename ((r, s), w)
        ≡ (ok report, ((r', s'), w'))
      → (report.id ≡ id) × IsRegistered max_bytes (object_key uuid) (content r) w.db w'.db s' report
  unfolding register_original pending_report
  register_original-IsRegistered max_bytes uuid id filename r r' s s' w w' report h =
      let key = object_key uuid in
      let name = normalize_original_filename filename in
      let (upload, ((r1, s1), w1), run, h1) =
        and_then-ok (on_left (storage.upload_stream max_bytes bucket key) ((r, s), w))
          (λ upload v.
            or_compensate storage out bucket key
              (record_upload storage out bucket key name id upload v))
          h in
      let (uploaded, same_w) =
        on_left-ok (storage.upload_stream max_bytes bucket key) (r, s) (r1, s1) w w1 upload run in
      let recorded =
        or_compensate-ok key (record_upload storage out bucket key name id upload ((r1, s1), w1))
          report ((r', s'), w') h1 in
      let (committed, same_s) =
        on_right-ok
          (transaction out
              (λ now db. insert_report (pending_report id name bucket key upload now) db)
            >>= outcome)
          (r1, s1) (r', s') w1 w' report recorded in
      let (shape, alone, change) =
        inserted out (pending_report id name bucket key upload) report w1 w' committed in
      let stored = contract.upload max_bytes bucket key r r1 s s1 upload uploaded in
      let store : s1 ≡ s' = ap (λ x. x.1) same_s in
      (
        ap (λ x. x.id) shape,
        record {
          pending = ap (λ x. x.status) shape;
          place = (ap (λ x. x.object_bucket) shape, ap (λ x. x.object_key) shape);
          object =
              ap (λ x. object_at x.object_bucket x.object_key s') shape
              ∙ ap (object_at bucket key) (sym store)
              ∙ stored.object;
          size = ap (λ x. x.size_bytes) shape ∙ stored.size;
          checksum = ap (λ x. x.checksum_sha256) shape ∙ ap some stored.checksum;
          bounded = stored.bounded;
          filename =
              subst (λ x. IsSafe x.original_filename) (sym shape)
                (normalize_original_filename-IsSafe filename);
          alone =
              ap
                (λ (v : World).
                  any (has_object report.object_bucket report.object_key) v.db.reports)
                same_w
              ∙ alone;
          inserted =
              change
              ∙ ap (λ (v : World). record v.db { reports = v.db.reports ++ report ∷ [] })
                  (sym same_w);
        },
      )
