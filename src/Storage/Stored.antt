-- ===== src/Storage/Stored.antt =====
-- What the service holds behind an upload that returned.
use service_of_import.Prelude.{
  ℕ, zero, suc, ◌+◌, ◌≤◌, ◌<◌, Text, ◌≡◌, refl, sym, ap, ◌∙◌, subst, false, Option, some, List, [],
  ◌∷◌, ◌++◌, length, length-append, append_assoc, append-nil, ltb, arith, Bool-cases, inl, inr,
}
use service_of_import.Errors.{Result, ok, raised}
use service_of_import.Effects.{pure, ◌>>=◌, on_left, on_right, and_then-ok, on_left-ok, on_right-ok}
use service_of_import.S3.{Bytes, Stream, IsStream, Client, View, IsS3, Part, PartTag, tags, joined}
use service_of_import.Storage.{
  UploadResult, read_part, upload_parts, upload_created, upload_first, upload_by, with_abort,
  unavailable_for_boto, upload_stream, upload_part_size,
}
use service_of_import.Storage.Contract.{IsStored}
use service_of_import.Storage.Parts.{IsPart, read_part-IsPart}

pub joined_snoc : (ps : List Part) (p : Part) → joined (ps ++ p ∷ []) ≡ joined ps ++ p.body
joined_snoc [] p = append-nil p.body
joined_snoc (q ∷ ps) p =
    ap (λ l. q.body ++ l) (joined_snoc ps p) ∙ sym (append_assoc q.body (joined ps) p.body)

pub tags_snoc : (ps : List Part) (p : Part) → tags (ps ++ p ∷ []) ≡ tags ps ++ p.tag ∷ []
tags_snoc [] p = refl
tags_snoc (q ∷ ps) p = ap (λ l. q.tag ∷ l) (tags_snoc ps p)

module _ {R S : Type 0} (source : Stream R) (content : R → Bytes) (lawful : IsStream source content)
    (client : Client S) (v : View S) (s3 : IsS3 client v) (sha256 : Bytes → Text) where
  module _ (part_size max_bytes : ℕ) (positive : 0 < part_size) (bucket key id : Text) where
    -- What the loop keeps: the open upload has the parts whose tags it collects, which together are
    -- what was hashed and counted, and an empty part means the end of the stream.
    record IsRunning (part : Bytes) (total : ℕ) (hashed : Bytes) (parts : List PartTag) (r : R)
        (s : S) : Type 0 where
      uploaded : List Part
      upload_is_open : v.parts_of id s ≡ some uploaded
      same_tags : parts ≡ tags uploaded
      same_bytes : joined uploaded ≡ hashed
      counted : total ≡ length hashed
      small : total ≤ max_bytes
      at_end : part ≡ [] → content r ≡ []

    IsRunning-next :
        (part next : Bytes) (c total n : ℕ) (hashed : Bytes) (parts : List PartTag) (etag : Text)
        (r r' : R) (s s' : S)
        → IsRunning (c ∷ part) total hashed parts r s
        → ltb max_bytes (total + length (c ∷ part)) ≡ false
        → client.upload_part bucket key id n (c ∷ part) s ≡ (ok etag, s')
        → IsPart source content lawful part_size [] next r r'
        → IsRunning next
            (total + length (c ∷ part))
            (hashed ++ (c ∷ part))
            (parts ++ record { etag = etag; part_number = n } ∷ [])
            r'
            s'
    IsRunning-next part next c total n hashed parts etag r r' s s' h fits up p =
        let new : Part = record {
          tag = record { etag = etag; part_number = n };
          body = c ∷ part;
        } in
        record {
          uploaded = h.uploaded ++ new ∷ [];
          upload_is_open =
              s3.upload bucket key id etag n (c ∷ part) h.uploaded s s' h.upload_is_open up;
          same_tags = ap (λ l. l ++ new.tag ∷ []) h.same_tags ∙ sym (tags_snoc h.uploaded new);
          same_bytes = joined_snoc h.uploaded new ∙ ap (λ l. l ++ (c ∷ part)) h.same_bytes;
          counted = omega (arith, h.counted, length-append hashed (c ∷ part));
          small = ground arith;
          at_end = λ e. p.whole (omega (arith, ap length e, positive));
        }

    upload_parts-IsStored :
        (fuel : ℕ) (part : Bytes) (total n : ℕ) (hashed : Bytes) (parts : List PartTag) (r r' : R)
        (s s' : S) (res : UploadResult)
        → IsRunning part total hashed parts r s
        → upload_parts source client sha256 part_size max_bytes bucket key id fuel part total n
            hashed parts
            (r, s)
          ≡ (ok res, (r', s'))
        → IsStored v.object_at sha256 bucket key (hashed ++ (part ++ content r)) max_bytes s' res
    unfolding upload_parts
    upload_parts-IsStored zero part total n hashed parts r r' s s' res h e = absurd (ground arith)
    upload_parts-IsStored (suc fuel) [] total n hashed parts r r' s s' res h e =
        let (u, (r1, s1), run, h1) =
          and_then-ok (on_right (client.complete_multipart_upload bucket key id parts) (r, s))
            (λ (u : Unit {0}).
              pure (record { size_bytes = total; checksum_sha256 = sha256 hashed }))
            e in
        let (completed, same) =
          on_right-ok (client.complete_multipart_upload bucket key id parts) r r1 s s1 u run in
        let result : res ≡ record { size_bytes = total; checksum_sha256 = sha256 hashed } =
          ground arith in
        let (object, closed) = s3.complete bucket key id h.uploaded s s1 h.upload_is_open (
          subst (λ t. client.complete_multipart_upload bucket key id t s ≡ (ok tt, s1)) h.same_tags
            completed) in
        let whole : hashed ++ content r ≡ hashed =
          ap (λ l. hashed ++ l) (h.at_end refl) ∙ append-nil hashed in
        record {
          object =
              ap (v.object_at bucket key) (ground arith)
              ∙ object
              ∙ ap some (h.same_bytes ∙ sym whole);
          size = ap (λ x. x.size_bytes) result ∙ h.counted ∙ ap length (sym whole);
          checksum = ap (λ x. x.checksum_sha256) result ∙ ap sha256 (sym whole);
          bounded = omega (arith, h.small, h.counted, ap length whole);
        }
    upload_parts-IsStored (suc fuel) (c ∷ part) total n hashed parts r r' s s' res h e =
        elim (Bool-cases (ltb max_bytes (total + length (c ∷ part)))) [
          | inl large ↦ absurd (ground arith)
          | inr fits ↦
              let tag =
                λ (etag : Text). let t : PartTag = record { etag = etag; part_number = n } in t in
              let rest = λ (etag : Text) (next : Bytes).
                upload_parts source client sha256 part_size max_bytes bucket key id fuel next
                  (total + length (c ∷ part)) (n + 1) (hashed ++ (c ∷ part))
                  (parts ++ tag etag ∷ []) in
              let (etag, (r1, s1), run1, h1) =
                and_then-ok (on_right (client.upload_part bucket key id n (c ∷ part)) (r, s))
                  (λ (etag : Text). on_left (read_part source part_size) >>= rest etag)
                  (ground arith) in
              let (up, same_r) =
                on_right-ok (client.upload_part bucket key id n (c ∷ part)) r r1 s s1 etag run1 in
              let (next, (r2, s2), run2, h2) =
                and_then-ok (on_left (read_part source part_size) (r1, s1)) (rest etag) h1 in
              let (read, same_s) = on_left-ok (read_part source part_size) r1 r2 s1 s2 next run2 in
              let p = read_part-IsPart source content lawful part_size next r1 r2 read in
              let taken : content r ≡ next ++ content r2 = ap content same_r ∙ p.taken in
              let running =
                IsRunning-next part next c total n hashed parts etag r1 r2 s s2
                  (subst (λ x. IsRunning (c ∷ part) total hashed parts x s) same_r h) fits
                  (subst (λ x. client.upload_part bucket key id n (c ∷ part) s ≡ (ok etag, x))
                    same_s up)
                  p in
              subst (λ t. IsStored v.object_at sha256 bucket key t max_bytes s' res)
                (append_assoc hashed (c ∷ part) (next ++ content r2)
                  ∙ ap (λ l. hashed ++ ((c ∷ part) ++ l)) (sym taken))
                (upload_parts-IsStored fuel next (total + length (c ∷ part)) (n + 1)
                  (hashed ++ (c ∷ part)) (parts ++ tag etag ∷ []) r2 r' s2 s' res running h2)
        ]

  with_abort-ok :
      (b k : Text) (o : Option Text) (x : Result UploadResult × (R × S)) (res : UploadResult)
      (w : R × S)
      → with_abort source client sha256 b k o x ≡ (ok res, w)
      → x ≡ (ok res, w)
  with_abort-ok b k o (ok a, w') res w h = h
  with_abort-ok b k o (raised e, w') res w h = cc

  unavailable_for_boto-ok :
      (x : Result (Unit {0}) × (R × S)) (u : Unit {0}) (w : R × S)
      → unavailable_for_boto x ≡ (ok u, w)
      → x ≡ (ok u, w)
  unavailable_for_boto-ok (ok a, w') u w h = h
  unavailable_for_boto-ok (raised e, w') u w h = absurd (ground arith)

  module _ (part_size max_bytes : ℕ) (positive : 0 < part_size) (bucket key : Text) where
    upload_created-IsStored :
        (c : ℕ) (part : Bytes) (r1 r' : R) (s s' : S) (x : Result Text × S) (res : UploadResult)
        → client.create_multipart_upload bucket key s ≡ x
        → upload_created source client sha256 part_size max_bytes bucket key
            (c ∷ part)
            (x.0, (r1, x.1))
          ≡ (ok res, (r', s'))
        → IsStored v.object_at sha256 bucket key ((c ∷ part) ++ content r1) max_bytes s' res
    upload_created-IsStored c part r1 r' s s' (raised e, s1) res created h = cc
    upload_created-IsStored c part r1 r' s s' (ok id, s1) res created h =
        upload_parts-IsStored part_size max_bytes positive bucket key id (max_bytes + 2) (c ∷ part)
          0 1 [] [] r1 r' s1 s' res
          (record {
            uploaded = [];
            upload_is_open = s3.create bucket key id s s1 created;
            same_tags = refl;
            same_bytes = refl;
            counted = refl;
            small = omega arith;
            at_end = λ e. cc;
          })
          (with_abort-ok bucket key (some id) _ res (r', s') h)

    upload_first-IsStored :
        (first : Bytes) (r r1 r' : R) (s s' : S) (res : UploadResult)
        → IsPart source content lawful part_size [] first r r1
        → upload_first source client sha256 part_size max_bytes bucket key first (r1, s)
          ≡ (ok res, (r', s'))
        → IsStored v.object_at sha256 bucket key (content r) max_bytes s' res
    unfolding upload_first
    upload_first-IsStored [] r r1 r' s s' res p h =
        let empty : content r ≡ [] = p.taken ∙ p.whole positive in
        let result : UploadResult = record { size_bytes = 0; checksum_sha256 = sha256 [] } in
        let (u, (r2, s2), run, h1) =
          and_then-ok (unavailable_for_boto (on_right (client.put_object bucket key []) (r1, s)))
            (λ (u : Unit {0}). pure result) h in
        let (put, same) = on_right-ok (client.put_object bucket key []) r1 r2 s s2 u (
          unavailable_for_boto-ok (on_right (client.put_object bucket key []) (r1, s)) u (r2, s2)
            run) in
        let same_result : res ≡ result = ground arith in
        record {
          object =
              ap (v.object_at bucket key) (ground arith)
              ∙ s3.put bucket key [] s s2 put
              ∙ ap some (sym empty);
          size = ap (λ x. x.size_bytes) same_result ∙ ap length (sym empty);
          checksum = ap (λ x. x.checksum_sha256) same_result ∙ ap sha256 (sym empty);
          bounded = omega (arith, ap length empty);
        }
    upload_first-IsStored (c ∷ part) r r1 r' s s' res p h =
        subst (λ t. IsStored v.object_at sha256 bucket key t max_bytes s' res) (sym p.taken)
          (upload_created-IsStored c part r1 r' s s' (client.create_multipart_upload bucket key s)
            res refl h)

    upload_by-IsStored :
        (r r' : R) (s s' : S) (res : UploadResult)
        → upload_by source client sha256 part_size max_bytes bucket key (r, s) ≡ (ok res, (r', s'))
        → IsStored v.object_at sha256 bucket key (content r) max_bytes s' res
    unfolding upload_by
    upload_by-IsStored r r' s s' res h =
        let (first, (r1, s1), run, h1) =
          and_then-ok (on_left (read_part source part_size) (r, s))
            (upload_first source client sha256 part_size max_bytes bucket key) h in
        let (read, same_s) = on_left-ok (read_part source part_size) r r1 s s1 first run in
        upload_first-IsStored first r r1 r' s1 s' res
          (read_part-IsPart source content lawful part_size first r r1 read) h1

  -- When upload_stream returns, the object at the key is all that the source still held, of at most
  -- `max_bytes` bytes, and the result tells its number of bytes and the digest of exactly these bytes;
  -- for a source that hands out its content in order, and a service that stores what it acknowledges.
  pub upload_stream-IsStored :
      (max_bytes : ℕ) (bucket key : Text) (r r' : R) (s s' : S) (res : UploadResult)
      → upload_stream source client sha256 max_bytes bucket key (r, s) ≡ (ok res, (r', s'))
      → IsStored v.object_at sha256 bucket key (content r) max_bytes s' res
  unfolding upload_stream
  upload_stream-IsStored max_bytes bucket key r r' s s' res h =
      upload_by-IsStored upload_part_size max_bytes (omega arith) bucket key r r' s s' res h
