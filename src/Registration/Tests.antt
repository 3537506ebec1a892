-- ===== src/Registration/Tests.antt =====
-- Registrations of a small file, with a service in memory.
use service_of_import.Prelude.{
  ◌≡◌, refl, arith, codes, Option, none, some, List, [], ◌∷◌, take, drop, filter, any, text_eq,
}
use service_of_import.Errors.{Exn, Result, ok, raised, report_persistence, database_error}
use service_of_import.Database.{Db, Report}
use service_of_import.Apply.{find_report}
use service_of_import.Steps.{World, Outside, transaction}
use service_of_import.S3.{Bytes}
use service_of_import.S3.Memory.{
  State, file, file-IsStream, memory, view, memory-IsS3, empty_service,
}
use service_of_import.Storage.{upload_stream, download_stream, delete_object}
use service_of_import.Storage.Contract.{ObjectStorage, IsFront}
use service_of_import.Storage.Implements.{s3_storage, s3_storage-IsObjectStorage}
use service_of_import.Registration.{
  object_key, register_original, download_original, pending_report, get_report,
}
use service_of_import.Registration.Filename.{
  IsSafe, normalize_original_filename, normalize_original_filename-IsSafe,
  normalize_original_filename_safe,
}
use service_of_import.Registration.Registered.{IsRegistered, register_original-IsRegistered}
use service_of_import.Registration.Unregistered.{Unregistered, register_original-Unregistered}
use service_of_import.Registration.Original.{download_original-register_original}

normalize_original_filename-IsSafe_example :
    IsSafe (normalize_original_filename (some (codes "..\\reports/stock\n.csv")))
normalize_original_filename-IsSafe_example =
    normalize_original_filename-IsSafe (some (codes "..\\reports/stock\n.csv"))

normalize_original_filename_safe_example :
    normalize_original_filename (some (97 ∷ 46 ∷ 98 ∷ [])) ≡ 97 ∷ 46 ∷ 98 ∷ []
normalize_original_filename_safe_example =
    normalize_original_filename_safe (97 ∷ 46 ∷ 98 ∷ []) (ground arith) (λ e. cc)

normalize_path :
    normalize_original_filename (some (codes "..\\reports/stock\n.csv")) ≡ codes "stock.csv"
unfolding normalize_original_filename codes take filter text_eq
normalize_path = refl

abbrev storage : ObjectStorage Bytes State
storage = s3_storage file memory (λ b. b)

abbrev tables : Db
tables = record {
  reports = [];
  warehouses = record { rows = []; next_id = 1 };
  products = record { rows = []; next_id = 1 };
  stock_balances = [];
  staging_rows = [];
  report_errors = [];
}

abbrev start : World
start = record { db = tables; calls = 0 }

abbrev quiet : Outside
quiet = record { fault = λ _. none; now = λ _. 7 }

abbrev broken : Outside
broken = record { fault = λ _. some database_error; now = λ _. 7 }

abbrev run : Outside → Result Report × ((Bytes × State) × World)
run out =
    register_original storage out (codes "b") 5 (codes "u") 1 none
      ((7 ∷ 8 ∷ 9 ∷ [], empty_service), start)

abbrev kept : Report
kept =
    pending_report 1 (codes "original.csv") (codes "b") (object_key (codes "u"))
      (record { size_bytes = 3; checksum_sha256 = 7 ∷ 8 ∷ 9 ∷ [] }) 7

register_quiet : run quiet ≡ (ok kept, (((run quiet).1.0.0, (run quiet).1.0.1), (run quiet).1.1))
unfolding register_original upload_stream take drop text_eq transaction any codes filter
register_quiet = refl

register_broken :
    run broken
    ≡ (raised report_persistence, (((run broken).1.0.0, (run broken).1.0.1), (run broken).1.1))
unfolding register_original upload_stream take drop text_eq transaction any codes filter
    delete_object
register_broken = refl

register_original-IsRegistered_example :
    (kept.id ≡ 1)
    × IsRegistered storage
        (λ r. r)
        view.object_at
        (λ b. b)
        (s3_storage-IsObjectStorage file (λ r. r) file-IsStream memory view memory-IsS3 (λ b. b))
        quiet
        (codes "b")
        5
        (object_key (codes "u"))
        (7 ∷ 8 ∷ 9 ∷ [])
        tables
        (run quiet).1.1.db
        (run quiet).1.0.1
        kept
register_original-IsRegistered_example =
    register_original-IsRegistered storage (λ r. r) view.object_at (λ b. b)
      (s3_storage-IsObjectStorage file (λ r. r) file-IsStream memory view memory-IsS3 (λ b. b))
      quiet (codes "b") 5 (codes "u") 1 none (7 ∷ 8 ∷ 9 ∷ []) (run quiet).1.0.0 empty_service
      (run quiet).1.0.1 start (run quiet).1.1 kept register_quiet

register_original-Unregistered_example :
    ((run broken).1.1.db ≡ tables)
    × Unregistered storage
        (λ r. r)
        view.object_at
        (λ b. b)
        (s3_storage-IsObjectStorage file (λ r. r) file-IsStream memory view memory-IsS3 (λ b. b))
        broken
        (codes "b")
        5
        (object_key (codes "u"))
        report_persistence
        (7 ∷ 8 ∷ 9 ∷ [])
        (run broken).1.0.0
        empty_service
        (run broken).1.0.1
register_original-Unregistered_example =
    register_original-Unregistered storage (λ r. r) view.object_at (λ b. b)
      (s3_storage-IsObjectStorage file (λ r. r) file-IsStream memory view memory-IsS3 (λ b. b))
      broken (codes "b") 5 (codes "u") 1 none (7 ∷ 8 ∷ 9 ∷ []) (run broken).1.0.0 empty_service
      (run broken).1.0.1 start (run broken).1.1 report_persistence register_broken

no_reports : find_report 1 tables.reports ≡ none
unfolding find_report
no_reports = refl

abbrev fetched : Result (Report × (List Bytes × Option Exn)) × ((Bytes × State) × World)
fetched =
    download_original storage quiet (codes "b") 1
      (((run quiet).1.0.0, (run quiet).1.0.1), (run quiet).1.1)

fetched_quiet :
    fetched
    ≡ (ok (kept, ((7 ∷ 8 ∷ 9 ∷ []) ∷ [], none)), ((fetched.1.0.0, fetched.1.0.1), fetched.1.1))
unfolding download_original get_report find_report download_stream register_original upload_stream
    take drop text_eq transaction any codes filter
fetched_quiet = refl

download_original-register_original_example :
    (kept ≡ kept) × IsFront (7 ∷ 8 ∷ 9 ∷ []) ((7 ∷ 8 ∷ 9 ∷ []) ∷ []) none
unfolding pending_report
download_original-register_original_example =
    download_original-register_original storage (λ r. r) view.object_at (λ b. b)
      (s3_storage-IsObjectStorage file (λ r. r) file-IsStream memory view memory-IsS3 (λ b. b))
      quiet (codes "b") 5 (codes "u") 1 none (7 ∷ 8 ∷ 9 ∷ []) (run quiet).1.0.0 fetched.1.0.0
      empty_service (run quiet).1.0.1 fetched.1.0.1 start (run quiet).1.1 fetched.1.1 kept kept
      ((7 ∷ 8 ∷ 9 ∷ []) ∷ []) none no_reports register_quiet fetched_quiet
