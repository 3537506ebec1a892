-- ===== src/Storage/Failures.antt =====
-- How an upload fails, whatever the source and the service do.
use service_of_import.Prelude.{ℕ, Text, ◌≡◌, true, ◌⊎◌, [], if◌then◌else◌}
use service_of_import.Errors.{Exn, ok, raised, file_too_large, storage_unavailable}
use service_of_import.S3.{Bytes, Stream, Client}
use service_of_import.Storage.{is_boto_error, is_storage_unavailable, read_part}

-- The two exceptions that the handlers of the upload let out.
abbrev pub IsUploadError : Exn → Type 0
IsUploadError e = (e ≡ file_too_large) ⊎ (is_storage_unavailable e ≡ true)

module _ {R S : Type 0} (source : Stream R) (client : Client S) (sha256 : Bytes → Text) where
  module _ (bucket key : Text) (size : ℕ) where
    -- The ways in which an upload raises `e`, and the store that it leaves.
    pub data Failure (r : R) (s : S) (e : Exn) (s' : S) : Type 0 where
      -- The first part cannot be read: the exception is that of the source.
      unread : (r' : R) → read_part source size r ≡ (raised e, r') → s' ≡ s → Failure r s e s'
      -- An empty object cannot be put.
      not_put :
          (d : Exn)
          → client.put_object bucket key [] s ≡ (raised d, s')
          → e ≡ (if is_boto_error d then storage_unavailable else d)
          → Failure r s e s'
      -- The upload cannot be created.
      not_created :
          (d : Exn)
          → client.create_multipart_upload bucket key s ≡ (raised d, s')
          → IsUploadError e
          → Failure r s e s'
      -- A created upload fails, and the service is told to abort it.
      aborted :
          (id : Text) (s1 s2 : S)
          → client.create_multipart_upload bucket key s ≡ (ok id, s1)
          → IsUploadError e
          → s' ≡ (client.abort_multipart_upload bucket key id s2).1
          → Failure r s e s'
