-- ===== src/Storage/Tests.antt =====
-- Uploads of small files to a service in memory, and a download behind one.
use service_of_import.Prelude.{
  ℕ, ◌<◌, arith, ◌≡◌, refl, false, Text, codes, Option, none, some, List, [], ◌∷◌, length,
}
use service_of_import.Errors.{Exn, Result, ok}
use service_of_import.S3.{Bytes}
use service_of_import.S3.Memory.{
  State, file, file-IsStream, file-IsSound, memory, view, memory-IsS3, memory-IsAvailable,
  empty_service,
}
use service_of_import.Storage.{
  UploadResult, upload_stream, upload_by, upload_first, upload_parts, read_part, fill_part,
  upload_part_size, download_stream,
}
use service_of_import.Storage.Contract.{IsStored, IsFront}
use service_of_import.Storage.Stored.{upload_stream-IsStored}
use service_of_import.Storage.Total.{Verdict, upload_stream-Verdict}
use service_of_import.Storage.Download.{download_stream-upload_stream}

abbrev digest : Bytes → Text
digest b = length b ∷ b

abbrev uploaded : ℕ → Result UploadResult × (Bytes × State)
uploaded max_bytes =
    upload_stream file memory digest max_bytes (codes "b") (codes "k")
      (7 ∷ 8 ∷ 9 ∷ [], empty_service)

abbrev three_bytes : UploadResult
three_bytes = record { size_bytes = 3; checksum_sha256 = 3 ∷ 7 ∷ 8 ∷ 9 ∷ [] }

upload_three : uploaded 5 ≡ (ok three_bytes, ((uploaded 5).1.0, (uploaded 5).1.1))
unfolding upload_stream upload_by upload_first upload_parts read_part fill_part
    service_of_import.Prelude.take service_of_import.Prelude.drop service_of_import.Prelude.text_eq
upload_three = refl

upload_stream-IsStored_example :
    IsStored view.object_at digest
      (codes "b")
      (codes "k")
      (7 ∷ 8 ∷ 9 ∷ [])
      5
      (uploaded 5).1.1
      three_bytes
upload_stream-IsStored_example =
    upload_stream-IsStored file (λ r. r) file-IsStream memory view memory-IsS3 digest 5 (codes "b")
      (codes "k") (7 ∷ 8 ∷ 9 ∷ []) (uploaded 5).1.0 empty_service (uploaded 5).1.1 three_bytes
      upload_three

upload_stream-Verdict_example : Verdict false (uploaded 5)
unfolding upload_part_size
upload_stream-Verdict_example =
    upload_stream-Verdict file (λ r. r) file-IsStream file-IsSound memory view memory-IsS3
      memory-IsAvailable digest 5 (codes "b") (codes "k") (7 ∷ 8 ∷ 9 ∷ []) empty_service
      (omega arith)

abbrev downloaded : Result (List Bytes × Option Exn) × State
downloaded = download_stream memory (codes "b") (codes "k") (uploaded 5).1.1

download_three : downloaded ≡ (ok ((7 ∷ 8 ∷ 9 ∷ []) ∷ [], none), downloaded.1)
unfolding download_stream upload_stream upload_by upload_first upload_parts read_part fill_part
    service_of_import.Prelude.take service_of_import.Prelude.drop service_of_import.Prelude.text_eq
    codes
download_three = refl

download_stream-upload_stream_example : IsFront (7 ∷ 8 ∷ 9 ∷ []) ((7 ∷ 8 ∷ 9 ∷ []) ∷ []) none
download_stream-upload_stream_example =
    download_stream-upload_stream memory view memory-IsS3 file (λ r. r) file-IsStream digest 5
      (codes "b") (codes "k") (7 ∷ 8 ∷ 9 ∷ []) (uploaded 5).1.0 empty_service (uploaded 5).1.1
      downloaded.1 three_bytes ((7 ∷ 8 ∷ 9 ∷ []) ∷ []) none upload_three download_three
