-- ===== src/S3.antt =====
-- What app/services/storage.py calls and does not implement: the stream that it reads, the S3 client
-- of boto3 and the body of a response, as records of operations, with what their documentation says
-- as laws. Nothing is assumed of a call of the client that raises.
pub mod Memory
use service_of_import.Prelude.{
  ℕ, zero, suc, ◌+◌, ◌*◌, ◌≤◌, ◌<◌, Text, ◌≡◌, ◌≢◌, ◌⊎◌, Option, none, some, List, [], ◌∷◌, ◌++◌,
  map, length,
}
use service_of_import.Errors.{Exn, Result, ok, raised}
use service_of_import.Effects.{Eff}

abbrev pub Bytes : Type 0
Bytes = List ℕ

-- `source.read(size)`
pub record Stream (R : Type 0) : Type 0 where
  pub read : ℕ → Eff R Bytes

-- What is left of a stream: a read takes a piece off its front, and an empty piece, of a read of
-- more than 0 bytes, marks the end.
pub record IsStream {R : Type 0} (s : Stream R) (content : R → Bytes) : Type 0 where
  pub piece : (n : ℕ) (r r' : R) (b : Bytes) → s.read n r ≡ (ok b, r') → content r ≡ b ++ content r'
  pub end : (n : ℕ) (r r' : R) → 0 < n → s.read n r ≡ (ok [], r') → content r' ≡ []

-- A stream whose reads never fail and return at most what was asked for.
abbrev pub IsSound : {R : Type 0} → Stream R → Type 0
IsSound {R} s =
    (n : ℕ) (r : R) → (b : Bytes) × (r' : R) × (s.read n r ≡ (ok b, r')) × (length b ≤ n)

-- An entry of `MultipartUpload={"Parts": parts}`.
pub record PartTag : Type 0 where
  pub etag : Text
  pub part_number : ℕ

-- The outcome of `get_object`: what the reads of the body return, in order, up to the empty one.
pub record Body : Type 0 where
  pub reads : List (Result Bytes)

pub record Client (S : Type 0) : Type 0 where
  pub put_object : Text → Text → Bytes → Eff S (Unit {0})
  pub create_multipart_upload : Text → Text → Eff S Text
  pub upload_part : Text → Text → Text → ℕ → Bytes → Eff S Text
  pub complete_multipart_upload : Text → Text → Text → List PartTag → Eff S (Unit {0})
  pub abort_multipart_upload : Text → Text → Text → Eff S (Unit {0})
  pub get_object : Text → Text → Eff S Body
  pub delete_object : Text → Text → Eff S (Unit {0})
  pub head_bucket : Text → Eff S (Unit {0})

pub record Part : Type 0 where
  pub tag : PartTag
  pub body : Bytes

-- What can be seen of the service: the object at a key, and the parts of an upload that is open.
pub record View (S : Type 0) : Type 0 where
  pub object_at : Text → Text → S → Option Bytes
  pub parts_of : Text → S → Option (List Part)

abbrev pub tags : List Part → List PartTag
tags [] = []
tags (p ∷ ps) = p.tag ∷ tags ps

abbrev pub joined : List Part → Bytes
joined [] = []
joined (p ∷ ps) = p.body ++ joined ps

-- The reads of a body give a text from its front, and its end unless one of them fails.
abbrev pub IsBody : List (Result Bytes) → Bytes → Type 0
IsBody [] text = text ≡ []
IsBody (raised e ∷ reads) text = Unit
IsBody (ok [] ∷ reads) text = text ≡ []
IsBody (ok (c ∷ chunk) ∷ reads) text =
    (rest : Bytes) × (text ≡ (c ∷ chunk) ++ rest) × IsBody reads rest

pub record IsS3 {S : Type 0} (c : Client S) (v : View S) : Type 0 where
  pub put :
      (b k : Text) (body : Bytes) (s s' : S)
      → c.put_object b k body s ≡ (ok tt, s')
      → v.object_at b k s' ≡ some body
  pub create :
      (b k id : Text) (s s' : S)
      → c.create_multipart_upload b k s ≡ (ok id, s')
      → v.parts_of id s' ≡ some []
  pub upload :
      (b k id etag : Text) (n : ℕ) (body : Bytes) (ps : List Part) (s s' : S)
      → v.parts_of id s ≡ some ps
      → c.upload_part b k id n body s ≡ (ok etag, s')
      → v.parts_of id s'
        ≡ some (ps ++ record { tag = record { etag = etag; part_number = n }; body = body } ∷ [])
  pub complete :
      (b k id : Text) (ps : List Part) (s s' : S)
      → v.parts_of id s ≡ some ps
      → c.complete_multipart_upload b k id (tags ps) s ≡ (ok tt, s')
      → (v.object_at b k s' ≡ some (joined ps)) × (v.parts_of id s' ≡ none)
  pub abort :
      (b k id : Text) (s s' : S)
      → c.abort_multipart_upload b k id s ≡ (ok tt, s')
      → v.parts_of id s' ≡ none
  pub get :
      (b k : Text) (text : Bytes) (body : Body) (s s' : S)
      → v.object_at b k s ≡ some text
      → c.get_object b k s ≡ (ok body, s')
      → IsBody body.reads text
  pub delete :
      (b k : Text) (s s' : S) → c.delete_object b k s ≡ (ok tt, s') → v.object_at b k s' ≡ none

-- The smallest part that may have parts behind it, and the largest number of a part.
abbrev pub min_part_bytes : ℕ
min_part_bytes = 5 * 1024 * 1024

abbrev pub max_part_number : ℕ
max_part_number = 10000

-- Numbered from `n`, none above the largest number, all but the last large enough.
abbrev pub IsComplete : ℕ → List Part → Type 0
IsComplete n [] = Unit
IsComplete n (p ∷ ps) =
    (p.tag.part_number ≡ n)
    × (n ≤ max_part_number)
    × ((ps ≡ []) ⊎ (min_part_bytes ≤ length p.body))
    × IsComplete (suc n) ps

-- A service that answers: it refuses only uploads that are not open, and parts that break the rules.
pub record IsAvailable {S : Type 0} (c : Client S) (v : View S) : Type 0 where
  pub put : (b k : Text) (body : Bytes) (s : S) → (s' : S) × (c.put_object b k body s ≡ (ok tt, s'))
  pub create :
      (b k : Text) (s : S)
      → (id : Text) × (s' : S) × (c.create_multipart_upload b k s ≡ (ok id, s'))
  pub upload :
      (b k id : Text) (n : ℕ) (body : Bytes) (ps : List Part) (s : S)
      → v.parts_of id s ≡ some ps
      → (etag : Text) × (s' : S) × (c.upload_part b k id n body s ≡ (ok etag, s'))
  pub complete :
      (b k id : Text) (ps : List Part) (s : S)
      → v.parts_of id s ≡ some ps
      → ps ≢ []
      → IsComplete 1 ps
      → (s' : S) × (c.complete_multipart_upload b k id (tags ps) s ≡ (ok tt, s'))
  pub abort : (b k id : Text) (s : S) → (s' : S) × (c.abort_multipart_upload b k id s ≡ (ok tt, s'))
