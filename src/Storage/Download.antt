-- ===== src/Storage/Download.antt =====
-- What `download_stream` hands out of a stored object.
use service_of_import.Prelude.{
  ℕ, Text, ◌≡◌, refl, sym, ap, ◌∙◌, Option, some, List, [], ◌∷◌, ◌++◌, append_assoc, arith, subst,
  inl, inr,
}
use mathlib.Core.List.{flatten}
use service_of_import.Errors.{Exn, Result, ok, raised}
use service_of_import.S3.{Bytes, Stream, IsStream, Client, View, IsS3, Body, IsBody}
use service_of_import.Storage.{UploadResult, body_chunks, download_stream, opened, upload_stream}
use service_of_import.Storage.Contract.{IsFront}
use service_of_import.Storage.Stored.{upload_stream-IsStored}

body_chunks-IsFront :
    (reads : List (Result Bytes)) (text : Bytes)
    → IsBody reads text
    → IsFront text (body_chunks reads).0 (body_chunks reads).1
unfolding body_chunks flatten
body_chunks-IsFront [] text h = record { rest = []; front = h; end = inl (refl, refl) }
body_chunks-IsFront (raised e ∷ reads) text h = record { rest = text; front = refl; end = inr refl }
body_chunks-IsFront (ok [] ∷ reads) text h = record { rest = []; front = h; end = inl (refl, refl) }
body_chunks-IsFront (ok (c ∷ chunk) ∷ reads) text (rest, e, h) =
    let ih = body_chunks-IsFront reads rest h in
    record {
      rest = ih.rest;
      front =
          e
          ∙ ap (λ l. (c ∷ chunk) ++ l) ih.front
          ∙ sym (append_assoc (c ∷ chunk) (flatten (body_chunks reads).0) ih.rest);
      end = ih.end;
    }

module _ {S : Type 0} (client : Client S) (v : View S) (s3 : IsS3 client v) where
  pub opened-IsFront :
      (b k : Text) (text : Bytes) (s s' : S) (x : Result Body × S) (chunks : List Bytes)
      (failure : Option Exn)
      → v.object_at b k s ≡ some text
      → client.get_object b k s ≡ x
      → opened x ≡ (ok (chunks, failure), s')
      → IsFront text chunks failure
  opened-IsFront b k text s s' (raised e, s1) chunks failure stored got h = cc
  opened-IsFront b k text s s' (ok body, s1) chunks failure stored got h =
      let same : body_chunks body.reads ≡ (chunks, failure) = ground arith in
      subst (λ (p : List Bytes × Option Exn). IsFront text p.0 p.1) same
        (body_chunks-IsFront body.reads text (s3.get b k text body s s1 stored got))

  -- A download of what an upload has just stored hands out the content of the source from its front,
  -- in order, and the whole of it unless it ends in StorageUnavailableError, the only exception that
  -- its chunks raise.
  pub download_stream-upload_stream :
      {R : Type 0} (source : Stream R) (content : R → Bytes) (lawful : IsStream source content)
      (sha256 : Bytes → Text) (max_bytes : ℕ) (bucket key : Text) (r r' : R) (s s' s'' : S)
      (res : UploadResult) (chunks : List Bytes) (failure : Option Exn)
      → upload_stream source client sha256 max_bytes bucket key (r, s) ≡ (ok res, (r', s'))
      → download_stream client bucket key s' ≡ (ok (chunks, failure), s'')
      → IsFront (content r) chunks failure
  unfolding download_stream
  download_stream-upload_stream source content lawful sha256 max_bytes bucket key r r' s s' s'' res
        chunks failure up down =
      let stored =
        upload_stream-IsStored source content lawful client v s3 sha256 max_bytes bucket key r r' s
          s' res up in
      opened-IsFront bucket key (content r) s' s'' (client.get_object bucket key s') chunks failure
        stored.object refl down
