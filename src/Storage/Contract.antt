-- ===== src/Storage/Contract.antt =====
-- app/services/storage.py: the protocol `ObjectStorage`, with what the services rely on.
use service_of_import.Prelude.{
  ℕ, ◌≤◌, Text, ◌≡◌, ◌⊎◌, Bool, Option, none, some, List, [], ◌++◌, length,
}
use mathlib.Core.List.{flatten}
use service_of_import.Errors.{Exn, ok, storage_unavailable}
use service_of_import.Effects.{Eff}
use service_of_import.S3.{Bytes}
use service_of_import.Storage.{UploadResult}

-- `R` is the state of the source that is uploaded, and `S` that of the store.
pub record ObjectStorage (R S : Type 0) : Type 0 where
  pub upload_stream : ℕ → Text → Text → Eff (R × S) UploadResult
  pub download_stream : Text → Text → Eff S (List Bytes × Option Exn)
  pub delete_object : Text → Text → Eff S (Unit {0})
  pub is_available : Text → Eff S Bool

-- The object is the text, and the result tells its size and digest.
pub record IsStored {S : Type 0} (object_at : Text → Text → S → Option Bytes)
    (sha256 : Bytes → Text) (bucket key : Text) (text : Bytes) (max_bytes : ℕ) (s : S)
    (res : UploadResult) : Type 0 where
  pub object : object_at bucket key s ≡ some text
  pub size : res.size_bytes ≡ length text
  pub checksum : res.checksum_sha256 ≡ sha256 text
  pub bounded : length text ≤ max_bytes

-- What a download has handed out of a text before it ended: its front, and all of it unless the
-- download failed, which it does with StorageUnavailableError.
pub record IsFront (text : Bytes) (chunks : List Bytes) (failure : Option Exn) : Type 0 where
  pub rest : Bytes
  pub front : text ≡ flatten chunks ++ rest
  pub end : ((failure ≡ none) × (rest ≡ [])) ⊎ (failure ≡ some storage_unavailable)

pub record IsObjectStorage {R S : Type 0} (storage : ObjectStorage R S) (content : R → Bytes)
    (object_at : Text → Text → S → Option Bytes) (sha256 : Bytes → Text) : Type 0 where
  pub upload :
      (max_bytes : ℕ) (bucket key : Text) (r r' : R) (s s' : S) (res : UploadResult)
      → storage.upload_stream max_bytes bucket key (r, s) ≡ (ok res, (r', s'))
      → IsStored object_at sha256 bucket key (content r) max_bytes s' res
  pub download :
      (bucket key : Text) (text : Bytes) (s s' : S) (chunks : List Bytes) (failure : Option Exn)
      → object_at bucket key s ≡ some text
      → storage.download_stream bucket key s ≡ (ok (chunks, failure), s')
      → IsFront text chunks failure
  pub delete :
      (bucket key : Text) (s s' : S)
      → storage.delete_object bucket key s ≡ (ok tt, s')
      → object_at bucket key s' ≡ none
