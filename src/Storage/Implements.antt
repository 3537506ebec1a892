-- ===== src/Storage/Implements.antt =====
-- `S3ObjectStorage` keeps the contract of `ObjectStorage`.
use service_of_import.Prelude.{Text, ◌≡◌, refl, arith}
use service_of_import.Errors.{Result, ok, raised}
use service_of_import.S3.{Bytes, Stream, IsStream, Client, View, IsS3}
use service_of_import.Storage.{
  upload_stream, download_stream, delete_object, is_available, unavailable_for_boto,
}
use service_of_import.Storage.Contract.{ObjectStorage, IsObjectStorage}
use service_of_import.Storage.Stored.{upload_stream-IsStored}
use service_of_import.Storage.Download.{opened-IsFront}

-- The methods of `S3ObjectStorage`.
abbrev pub s3_storage : {R S : Type 0} → Stream R → Client S → (Bytes → Text) → ObjectStorage R S
s3_storage source client sha256 = record {
  upload_stream = upload_stream source client sha256;
  download_stream = download_stream client;
  delete_object = delete_object client;
  is_available = is_available client;
}

unavailable_for_boto-tt :
    {S : Type 0} (x : Result (Unit {0}) × S) (s : S)
    → unavailable_for_boto x ≡ (ok tt, s)
    → x ≡ (ok tt, s)
unavailable_for_boto-tt (ok a, w) s h = h
unavailable_for_boto-tt (raised e, w) s h = absurd (ground arith)

pub s3_storage-IsObjectStorage :
    {R S : Type 0} (source : Stream R) (content : R → Bytes) (lawful : IsStream source content)
    (client : Client S) (v : View S) (s3 : IsS3 client v) (sha256 : Bytes → Text)
    → IsObjectStorage (s3_storage source client sha256) content v.object_at sha256
unfolding download_stream delete_object
s3_storage-IsObjectStorage source content lawful client v s3 sha256 = record {
  upload = upload_stream-IsStored source content lawful client v s3 sha256;
  download = λ b k text s s' chunks failure stored h.
      opened-IsFront client v s3 b k text s s' (client.get_object b k s) chunks failure stored refl
        h;
  delete =
      λ b k s s' h. s3.delete b k s s' (unavailable_for_boto-tt (client.delete_object b k s) s' h);
}
