-- ===== src/Storage.antt =====
-- app/services/storage.py: `S3ObjectStorage`, over any client and any source. `sha256` is the digest
-- in hexadecimal of all that the hash object of hashlib was updated with.
pub mod Contract
pub mod Parts
pub mod Stored
pub mod Numbered
pub mod Total
pub mod Download
pub mod Failures
pub mod Implements
pub mod Tests
use service_of_import.Prelude.{
  ℕ, zero, suc, ◌+◌, ◌-◌, ◌*◌, ◌^◌, Text, codes, text_eq, Bool, true, false, ◌||◌, Option, none,
  some, List, [], ◌∷◌, ◌++◌, length, leb, ltb, if◌then◌else◌, any,
}
use service_of_import.Errors.{
  Exn, Result, ok, raised, file_too_large, storage_unavailable, object_not_found, boto_core_error,
  client_error, value_error,
}
use service_of_import.Effects.{Eff, pure, raise, and_then, ◌>>=◌, ◌>>◌, on_left, on_right}
use service_of_import.S3.{Bytes, Stream, Client, PartTag, Body}

unfoldable pub max_upload_bytes : ℕ
max_upload_bytes = 1073741824

unfoldable pub upload_part_size : ℕ
upload_part_size = 8 * 1024 * 1024

pub record UploadResult : Type 0 where
  pub size_bytes : ℕ
  pub checksum_sha256 : Text

-- `except (BotoCoreError, ClientError)`
abbrev pub is_boto_error : Exn → Bool
is_boto_error boto_core_error = true
is_boto_error (client_error code) = true
is_boto_error _ = false

-- `isinstance(exc, StorageUnavailableError)`
abbrev pub is_storage_unavailable : Exn → Bool
is_storage_unavailable storage_unavailable = true
is_storage_unavailable object_not_found = true
is_storage_unavailable _ = false

-- `except (BotoCoreError, ClientError) as exc: raise StorageUnavailableError from exc`
abbrev pub unavailable_for_boto {ℓ} : {W : Type 0} {A : Type ℓ} → Result A × W → Result A × W
unavailable_for_boto (ok a, w) = (ok a, w)
unavailable_for_boto (raised e, w) =
    if is_boto_error e then (raised storage_unavailable, w) else (raised e, w)

-- What a chunk does to the part that is being read.
abbrev pub add_chunk : {R : Type 0} → ℕ → Bytes → (Bytes → Eff R Bytes) → Bytes → Eff R Bytes
add_chunk requested_size part rest [] = pure part
add_chunk requested_size part rest (c ∷ chunk) =
    if ltb requested_size (length (c ∷ chunk))
    then raise storage_unavailable
    else rest (part ++ (c ∷ chunk))

module _ {R : Type 0} (source : Stream R) (part_size : ℕ) where
  -- The loop of `_read_part`, on fuel. Each of its rounds adds a byte, so `part_size` rounds fill it.
  unfoldable pub fill_part : ℕ → Bytes → Eff R Bytes
  fill_part zero part = pure part
  fill_part (suc fuel) part =
      let requested_size = part_size - length part in
      let next = source.read requested_size >>= add_chunk requested_size part (fill_part fuel) in
      if ltb (length part) part_size then next else pure part

  unfoldable pub read_part : Eff R Bytes
  unfolding fill_part
  read_part = fill_part part_size []

module _ {R S : Type 0} (source : Stream R) (client : Client S) (sha256 : Bytes → Text) where
  module _ (part_size max_bytes : ℕ) (bucket key upload_id : Text) where
    -- The loop over parts, and the completion behind it, on fuel. `hashed` is what the hash object
    -- was updated with. Each round adds a byte to the size, which stays at most `max_bytes`.
    unfoldable pub upload_parts :
        ℕ → Bytes → ℕ → ℕ → Bytes → List PartTag → Eff (R × S) UploadResult
    upload_parts zero part total_size part_number hashed parts = raise value_error
    upload_parts (suc fuel) [] total_size part_number hashed parts = do
      on_right (client.complete_multipart_upload bucket key upload_id parts)
      pure (record { size_bytes = total_size; checksum_sha256 = sha256 hashed })
    upload_parts (suc fuel) (c ∷ part) total_size part_number hashed parts =
        let total = total_size + length (c ∷ part) in
        let next : Eff (R × S) UploadResult =
          on_right (client.upload_part bucket key upload_id part_number (c ∷ part)) >>= λ etag.
          on_left (read_part source part_size) >>= λ next_part.
          upload_parts fuel next_part total (part_number + 1) (hashed ++ (c ∷ part))
            (parts ++ record { etag = etag; part_number = part_number } ∷ []) in
        if ltb max_bytes total then raise file_too_large else next

  -- `_abort_multipart_upload`: an exception of the client is logged and dropped.
  unfoldable pub abort_upload : Text → Text → Option Text → R × S → R × S
  abort_upload bucket key none w = w
  abort_upload bucket key (some upload_id) w =
      (on_right (client.abort_multipart_upload bucket key upload_id) w).1

  -- What the handlers of `upload_stream` raise for an exception.
  abbrev pub upload_error : Exn → Exn
  upload_error file_too_large = file_too_large
  upload_error e = if is_storage_unavailable e then e else storage_unavailable

  abbrev pub with_abort :
      Text → Text → Option Text → Result UploadResult × (R × S) → Result UploadResult × (R × S)
  with_abort bucket key upload_id (ok r, w) = (ok r, w)
  with_abort bucket key upload_id (raised e, w) =
      (raised (upload_error e), abort_upload bucket key upload_id w)

  module _ (part_size max_bytes : ℕ) (bucket key : Text) where
    -- The `try` behind the creation of the upload, by its outcome.
    abbrev pub upload_created : Bytes → Result Text × (R × S) → Result UploadResult × (R × S)
    upload_created first_part (raised e, w) = with_abort bucket key none (raised e, w)
    upload_created first_part (ok upload_id, w) = with_abort bucket key (some upload_id) (
        upload_parts part_size max_bytes bucket key upload_id (max_bytes + 2) first_part 0 1 [] []
          w)

    unfoldable pub upload_first : Bytes → Eff (R × S) UploadResult
    unfolding upload_parts abort_upload
    upload_first [] w =
        and_then (unavailable_for_boto (on_right (client.put_object bucket key []) w))
          (λ (u : Unit {0}). pure (record { size_bytes = 0; checksum_sha256 = sha256 [] }))
    upload_first (c ∷ part) w =
        upload_created (c ∷ part) (on_right (client.create_multipart_upload bucket key) w)

    -- `upload_stream` with the sizes as arguments.
    unfoldable pub upload_by : Eff (R × S) UploadResult
    unfolding upload_first read_part
    upload_by = on_left (read_part source part_size) >>= upload_first

  unfoldable pub upload_stream : ℕ → Text → Text → Eff (R × S) UploadResult
  unfolding upload_by upload_part_size
  upload_stream max_bytes bucket key = upload_by upload_part_size max_bytes bucket key

-- The codes that mean a missing object.
unfoldable pub is_not_found : Text → Bool
is_not_found code =
    text_eq code (codes "404")
    || text_eq code (codes "NoSuchBucket")
    || text_eq code (codes "NoSuchKey")
    || text_eq code (codes "NotFound")

abbrev pub download_error : Exn → Exn
download_error (client_error code) =
    if is_not_found code then object_not_found else storage_unavailable
download_error boto_core_error = storage_unavailable
download_error e = e

-- The generator `chunks`: what it yields, and what it raises behind that, if it raises.
unfoldable pub body_chunks : List (Result Bytes) → List Bytes × Option Exn
body_chunks [] = ([], none)
body_chunks (raised e ∷ reads) = ([], some storage_unavailable)
body_chunks (ok [] ∷ reads) = ([], none)
body_chunks (ok (c ∷ chunk) ∷ reads) =
    let (chunks, failure) = body_chunks reads in ((c ∷ chunk) ∷ chunks, failure)

abbrev pub opened : {S : Type 0} → Result Body × S → Result (List Bytes × Option Exn) × S
opened (ok body, s) = (ok (body_chunks body.reads), s)
opened (raised e, s) = (raised (download_error e), s)

abbrev pub answers : {S : Type 0} → Result (Unit {0}) × S → Result Bool × S
answers (ok u, s) = (ok true, s)
answers (raised e, s) = if is_boto_error e then (ok false, s) else (raised e, s)

module _ {S : Type 0} (client : Client S) where
  unfoldable pub download_stream : Text → Text → Eff S (List Bytes × Option Exn)
  unfolding body_chunks is_not_found
  download_stream bucket key s = opened (client.get_object bucket key s)

  unfoldable pub delete_object : Text → Text → Eff S (Unit {0})
  delete_object bucket key s = unavailable_for_boto (client.delete_object bucket key s)

  unfoldable pub is_available : Text → Eff S Bool
  is_available bucket s = answers (client.head_bucket bucket s)
