-- ===== src/Registration/Unregistered.antt =====
-- What `register_original` leaves when it raises.
use service_of_import.Prelude.{
  ℕ, Text, ◌≡◌, refl, sym, ap, ◌∙◌, Option, none, any, if◌then◌else◌, arith, Bool-cases,
  Option-cases, inl, inr,
}
use service_of_import.Errors.{Exn, Result, ok, raised, report_persistence}
use service_of_import.Database.{Report}
use service_of_import.Effects.{raise, and_then, ◌>>=◌, on_left, and_then-raised, on_left-ok}
use service_of_import.Steps.{World, Outside, transaction}
use service_of_import.S3.{Bytes}
use service_of_import.Storage.{UploadResult, is_storage_unavailable}
use service_of_import.Storage.Contract.{ObjectStorage, IsObjectStorage}
use service_of_import.Registration.{
  object_key, pending_report, has_object, insert_report, outcome, compensating_delete, dropped,
  or_compensate, record_upload, register_original,
}
use service_of_import.Registration.Filename.{normalize_original_filename}

-- The block of the transaction that raised, itself or on commit: nothing changed.
not_inserted :
    (out : Outside) (f : ℕ → Report) (e : Exn) (w w' : World)
    → (transaction out (λ now db. insert_report (f now) db) >>= outcome) w ≡ (raised e, w')
    → w'.db ≡ w.db
unfolding transaction insert_report
not_inserted out f e w w' h =
    let new = f (out.now w.calls) in
    elim (Option-cases (out.fault w.calls)) [
      | inr (d, broken) ↦ ground arith
      | inl quiet ↦
          elim (Bool-cases (any (has_object new.object_bucket new.object_key) w.db.reports)) [
            | inl taken ↦ ground arith
            | inr alone ↦ absurd (ground arith)
          ]
    ]

module _ {R S : Type 0} (storage : ObjectStorage R S) (content : R → Bytes)
    (object_at : Text → Text → S → Option Bytes) (sha256 : Bytes → Text)
    (contract : IsObjectStorage storage content object_at sha256) (out : Outside)
    (bucket : Text) where
  pub data Unregistered (max_bytes : ℕ) (key : Text) (e : Exn) (r r' : R) (s s' : S) : Type 0 where
    -- The upload raised.
    not_uploaded :
        storage.upload_stream max_bytes bucket key (r, s) ≡ (raised e, (r', s'))
        → Unregistered max_bytes key e r r' s s'
    -- The object was uploaded and deleted again.
    compensated :
        e ≡ report_persistence
        → object_at bucket key s' ≡ none
        → Unregistered max_bytes key e r r' s s'
    -- The object was uploaded, and its deletion raised.
    left_behind :
        (d : Exn) (s1 : S)
        → storage.delete_object bucket key s1 ≡ (raised d, s')
        → e ≡ (if is_storage_unavailable d then report_persistence else d)
        → Unregistered max_bytes key e r r' s s'

  -- The compensation by the outcome of the deletion.
  compensation :
      (max_bytes : ℕ) (key : Text) (e : Exn) (r r1 r' : R) (s s1 s' : S) (w1 w' : World)
      (x : Result (Unit {0}) × S)
      → storage.delete_object bucket key s1 ≡ x
      → and_then
          (dropped {W = (R × S) × World} (x.0, ((r1, x.1), w1)))
          (λ (u : Unit {0}). raise {A = Report} report_persistence)
        ≡ (raised e, ((r', s'), w'))
      → (w' ≡ w1) × Unregistered max_bytes key e r r' s s'
  compensation max_bytes key e r r1 r' s s1 s' w1 w' (ok u, s2) deleted h = (
    ground arith,
    compensated (ground arith)
        (contract.delete bucket key s1 s' (deleted ∙ ap (λ t. (ok tt, t)) (ground arith))),
  )
  compensation max_bytes key e r r1 r' s s1 s' w1 w' (raised d, s2) deleted h =
      elim (Bool-cases (is_storage_unavailable d)) [
        | inl gone ↦ (
          ground arith,
          left_behind d s1 (deleted ∙ ap (λ t. (raised d, t)) (ground arith)) (ground arith),
        )
        | inr other ↦ (
          ground arith,
          left_behind d s1 (deleted ∙ ap (λ t. (raised d, t)) (ground arith)) (ground arith),
        )
      ]

  compensated-Unregistered :
      (max_bytes : ℕ) (key name : Text) (id : ℕ) (upload : UploadResult) (e : Exn) (r r1 r' : R)
      (s s1 s' : S) (w1 w' : World) (x : Result Report × World)
      → (transaction out (λ now db. insert_report (pending_report id name bucket key upload now) db)
            >>= outcome)
          w1
        ≡ x
      → or_compensate storage out bucket key (x.0, ((r1, s1), x.1)) ≡ (raised e, ((r', s'), w'))
      → (w'.db ≡ w1.db) × Unregistered max_bytes key e r r' s s'
  unfolding compensating_delete
  compensated-Unregistered max_bytes key name id upload e r r1 r' s s1 s' w1 w' (ok report, w2)
        block h =
      absurd (ground arith)
  compensated-Unregistered max_bytes key name id upload e r r1 r' s s1 s' w1 w' (raised d, w2) block
        h =
      let (same, shape) =
        compensation max_bytes key e r r1 r' s s1 s' w2 w' (storage.delete_object bucket key s1)
          refl h in
      (
        ap (λ (v : World). v.db) same
            ∙ not_inserted out (pending_report id name bucket key upload) d w1 w2 block,
        shape,
      )

  -- When register_original raises, the database is as it was, and one of three things happened. The
  -- upload raised this exception, of which nothing more is said here. The upload returned, and its
  -- object is deleted again and ReportPersistenceError is raised. Or the upload returned and the
  -- deletion raised too: then an unavailable storage is still reported as ReportPersistenceError, and
  -- any other exception of the deletion escapes.
  pub register_original-Unregistered :
      (max_bytes : ℕ) (uuid : Text) (id : ℕ) (filename : Option Text) (r r' : R) (s s' : S)
      (w w' : World) (e : Exn)
      → register_original storage out bucket max_bytes uuid id filename ((r, s), w)
        ≡ (raised e, ((r', s'), w'))
      → (w'.db ≡ w.db) × Unregistered max_bytes (object_key uuid) e r r' s s'
  unfolding register_original
  register_original-Unregistered max_bytes uuid id filename r r' s s' w w' e h =
      let key = object_key uuid in
      let name = normalize_original_filename filename in
      elim (and_then-raised (on_left (storage.upload_stream max_bytes bucket key) ((r, s), w))
        (λ upload v.
          or_compensate storage out bucket key
            (record_upload storage out bucket key name id upload v))
        h) [
          | inl failed ↦ (ground arith, not_uploaded (ground arith))
          | inr (upload, ((r1, s1), w1), run, h1) ↦
              let (uploaded, same_w) =
                on_left-ok (storage.upload_stream max_bytes bucket key) (r, s) (r1, s1) w w1 upload
                  run in
              let (kept, shape) =
                compensated-Unregistered max_bytes key name id upload e r r1 r' s s1 s' w1 w'
                  ((transaction out
                        (λ now db. insert_report (pending_report id name bucket key upload now) db)
                      >>= outcome)
                    w1)
                  refl h1 in
              (kept ∙ ap (λ (v : World). v.db) (sym same_w), shape)
        ]
