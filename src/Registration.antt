-- ===== src/Registration.antt =====
-- app/services/reports.py: `ReportService`, over any object storage. Its world is the source and the
-- store beside the database. The name of an upload (uuid4) and the id that the database gives to a
-- new report are arguments.
pub mod Filename
pub mod Registered
pub mod Unregistered
pub mod Listing
pub mod Original
pub mod Tests
use service_of_import.Prelude.{
  ℕ, Text, codes, text_eq, Bool, true, false, ◌&&◌, Option, none, some, List, [], ◌∷◌, ◌++◌, any,
  if◌then◌else◌,
}
use service_of_import.Errors.{
  Exn, Result, ok, raised, object_not_found, report_not_found, report_persistence,
  original_object_missing, database_error,
}
use service_of_import.Database.{Db, Report, Status}
use service_of_import.Apply.{find_report}
use service_of_import.Effects.{Eff, pure, raise, and_then, ◌>>=◌, ◌>>◌, on_left, on_right}
use service_of_import.Steps.{World, Outside, transaction}
use service_of_import.S3.{Bytes}
use service_of_import.Storage.{UploadResult, is_storage_unavailable}
use service_of_import.Storage.Contract.{ObjectStorage}
use service_of_import.Registration.Filename.{normalize_original_filename}

-- `f"reports/{uuid4()}/original.csv"`
unfoldable pub object_key : Text → Text
object_key uuid = codes "reports/" ++ (uuid ++ codes "/original.csv")

unfoldable pub pending_report : ℕ → Text → Text → Text → UploadResult → ℕ → Report
pending_report id filename bucket key upload now = record {
  id = id;
  status = Status.pending;
  original_filename = filename;
  object_bucket = bucket;
  object_key = key;
  size_bytes = upload.size_bytes;
  checksum_sha256 = some upload.checksum_sha256;
  created_at = now;
  processing_started_at = none;
  finished_at = none;
  row_count = 0;
  error_count = 0;
  stocks_created = 0;
  stocks_updated = 0;
  stocks_zeroed = 0;
  failure_kind = none;
  failure_message = none;
}

-- The unique constraint on `object_bucket` and `object_key`.
abbrev pub has_object : Text → Text → Report → Bool
has_object bucket key r = text_eq r.object_bucket bucket && text_eq r.object_key key

-- `session.add(report)`; `session.flush()`
unfoldable pub insert_report : Report → Db → Result Report × Db
insert_report report db =
    if any (has_object report.object_bucket report.object_key) db.reports
    then (raised database_error, db)
    else (ok report, record db { reports = db.reports ++ report ∷ [] })

-- The outcome of the block of a transaction.
abbrev pub outcome {ℓ} : {W : Type 0} {A : Type ℓ} → Result A → Eff W A
outcome r w = (r, w)

abbrev pub found : Option Report → Result Report
found none = raised report_not_found
found (some report) = ok report

unfoldable pub get_report : Outside → ℕ → Eff World Report
get_report out i = transaction out (λ now db. (found (find_report i db.reports), db)) >>= outcome

-- `except StorageUnavailableError` of `_compensating_delete`
abbrev pub dropped : {W : Type 0} → Result (Unit {0}) × W → Result (Unit {0}) × W
dropped (ok u, w) = (ok u, w)
dropped (raised e, w) = if is_storage_unavailable e then (ok tt, w) else (raised e, w)

-- `except ObjectNotFoundError` of `download_original`
abbrev pub missing_for_not_found {ℓ} : {W : Type 0} {A : Type ℓ} → Result A × W → Result A × W
missing_for_not_found (raised object_not_found, w) = (raised original_object_missing, w)
missing_for_not_found x = x

module _ {R S : Type 0} (storage : ObjectStorage R S) (out : Outside) (bucket : Text) where
  unfoldable pub compensating_delete : Text → Eff ((R × S) × World) (Unit {0})
  compensating_delete key w = dropped (on_left (on_right (storage.delete_object bucket key)) w)

  -- The second `try` of `register_original`, by the outcome of its body.
  abbrev pub or_compensate :
      Text → Result Report × ((R × S) × World) → Result Report × ((R × S) × World)
  or_compensate key (ok report, w) = (ok report, w)
  or_compensate key (raised e, w) =
      and_then (compensating_delete key w) (λ (u : Unit {0}). raise report_persistence)

  abbrev pub record_upload : Text → Text → ℕ → UploadResult → Eff ((R × S) × World) Report
  record_upload key filename id upload = on_right (
      transaction out
        (λ now db. insert_report (pending_report id filename bucket key upload now) db)
      >>= outcome)

  unfoldable pub register_original : ℕ → Text → ℕ → Option Text → Eff ((R × S) × World) Report
  unfolding normalize_original_filename compensating_delete pending_report insert_report object_key
  register_original max_upload_bytes uuid id filename =
      on_left (storage.upload_stream max_upload_bytes bucket (object_key uuid)) >>= λ upload w.
      or_compensate (object_key uuid)
        (record_upload (object_key uuid) (normalize_original_filename filename) id upload w)

  unfoldable pub download_original : ℕ → Eff ((R × S) × World) (Report × (List Bytes × Option Exn))
  download_original i = on_right (get_report out i) >>= λ report.
      (λ w.
        missing_for_not_found
          (on_left (on_right (storage.download_stream report.object_bucket report.object_key)) w))
      >>= λ chunks. pure (report, chunks)
