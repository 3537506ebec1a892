-- ===== src/Storage/Total.antt =====
-- Uploads that meet no failure outside: which return, and which are refused for their size.
use service_of_import.Prelude.{
  ℕ, zero, suc, ◌+◌, ◌*◌, ◌≤◌, ◌<◌, Text, ◌≡◌, ◌≢◌, refl, sym, ap, ◌∙◌, false, some, List, [], ◌∷◌,
  ◌++◌, length, length-append, ltb, arith, Bool, true, Bool-cases, inl, inr,
}
use service_of_import.Errors.{Result, ok, raised, file_too_large}
use service_of_import.S3.{
  Bytes, Stream, IsStream, IsSound, Client, View, IsS3, IsAvailable, Part, PartTag, tags, joined,
  IsComplete, min_part_bytes, max_part_number,
}
use service_of_import.Storage.{
  UploadResult, upload_parts, upload_first, upload_by, with_abort, abort_upload, upload_stream,
  upload_part_size,
}
use service_of_import.Storage.Parts.{IsPart, read_part-IsPart, read_part-Reads}
use service_of_import.Storage.Stored.{joined_snoc, tags_snoc}
use service_of_import.Storage.Numbered.{
  Full, Numbered, Full-snoc, Numbered-snoc, Full-IsComplete, length-joined-Full, nil_of_length,
  snoc-ne_nil,
}

-- `total` bytes in all are refused if they are more than `max_bytes`, and accepted otherwise.
abbrev Decides : {W : Type 0} → ℕ → ℕ → Result UploadResult × W → Type 0
Decides {W} total max_bytes x =
    (total ≤ max_bytes → (res : UploadResult) × (w : W) × (x ≡ (ok res, w)))
    × (max_bytes < total → (w : W) × (x ≡ (raised file_too_large, w)))

module _ {R S : Type 0} (source : Stream R) (content : R → Bytes) (lawful : IsStream source content)
    (sound : IsSound source) (client : Client S) (v : View S) (s3 : IsS3 client v)
    (available : IsAvailable client v) (sha256 : Bytes → Text) (size max_bytes : ℕ)
    (positive : 0 < size) (large : min_part_bytes ≤ size)
    (few : (k : ℕ) → k * size ≤ max_bytes → k < max_part_number) (bucket key : Text) where
  record IsFilling (id : Text) (part : Bytes) (total n all_bytes : ℕ) (parts : List PartTag) (r : R)
      (s : S) : Type 0 where
    uploaded : List Part
    upload_is_open : v.parts_of id s ≡ some uploaded
    same_tags : parts ≡ tags uploaded
    counted : total ≡ length (joined uploaded)
    small : total ≤ max_bytes
    next_number : n ≡ 1 + length uploaded
    numbered : Numbered 1 uploaded
    full : part ≢ [] → Full size uploaded
    complete : part ≡ [] → (uploaded ≢ []) × IsComplete 1 uploaded
    short : length part < size → content r ≡ []
    part-le : length part ≤ size
    left : total + length part + length (content r) ≡ all_bytes

  IsFilling-next :
      (id : Text) (c : ℕ) (part next : Bytes) (total n all_bytes : ℕ) (parts : List PartTag)
      (etag : Text) (r r' : R) (s s' : S)
      → IsFilling id (c ∷ part) total n all_bytes parts r s
      → ltb max_bytes (total + length (c ∷ part)) ≡ false
      → client.upload_part bucket key id n (c ∷ part) s ≡ (ok etag, s')
      → IsPart source content lawful size [] next r r'
      → IsFilling id next
          (total + length (c ∷ part))
          (n + 1)
          all_bytes
          (parts ++ record { etag = etag; part_number = n } ∷ [])
          r'
          s'
  IsFilling-next id c part next total n all_bytes parts etag r r' s s' h fits up p =
      let new : Part = record { tag = record { etag = etag; part_number = n }; body = c ∷ part } in
      let ps = h.uploaded in
      let full : Full size ps = h.full (λ e. cc) in
      let numbered : Numbered 1 (ps ++ new ∷ []) =
        Numbered-snoc 1 ps new h.numbered h.next_number in
      let few_parts : length ps < max_part_number =
        few (length ps) (omega (arith, h.small, h.counted, length-joined-Full size ps full)) in
      let joined_bytes = ap length (joined_snoc ps new) ∙ length-append (joined ps) (c ∷ part) in
      let taken = ap length p.taken ∙ length-append next (content r') in
      let part_bytes : length (c ∷ part) ≤ size = h.part-le in
      record {
        uploaded = ps ++ new ∷ [];
        upload_is_open = s3.upload bucket key id etag n (c ∷ part) ps s s' h.upload_is_open up;
        same_tags = ap (λ l. l ++ new.tag ∷ []) h.same_tags ∙ sym (tags_snoc ps new);
        counted = omega (arith, h.counted, joined_bytes);
        small = ground arith;
        next_number = omega (arith, h.next_number, length-append ps (new ∷ []));
        numbered = numbered;
        full = λ some_bytes. elim (Bool-cases (ltb (length (c ∷ part)) size)) [
          | inl less ↦
              let none_left = ap length (h.short (ground arith)) in
              absurd (some_bytes (nil_of_length next (omega (arith, taken, none_left))))
          | inr same ↦ Full-snoc size ps new full (ground arith)
        ];
        complete = λ at_end. (
          snoc-ne_nil ps new,
          Full-IsComplete size 1 ps new large full numbered (omega (arith, few_parts)),
        );
        short = p.whole;
        part-le = p.bounded;
        left = omega (arith, h.left, taken);
      }

  upload_parts-Decides :
      (fuel : ℕ) (id : Text) (part : Bytes) (total n all_bytes : ℕ) (hashed : Bytes)
      (parts : List PartTag) (r : R) (s : S)
      → max_bytes + 2 ≤ total + fuel
      → IsFilling id part total n all_bytes parts r s
      → Decides all_bytes max_bytes (
          upload_parts source client sha256 size max_bytes bucket key id fuel part total n hashed
            parts
            (r, s))
  unfolding upload_parts
  upload_parts-Decides zero id part total n all_bytes hashed parts r s enough h =
      absurd (omega (arith, h.small))
  upload_parts-Decides (suc fuel) id [] total n all_bytes hashed parts r s enough h =
      let (some_parts, complete) = h.complete refl in
      let (s', run) =
        available.complete bucket key id h.uploaded s h.upload_is_open some_parts complete in
      let none_left = ap length (h.short positive) in
      (
        λ fits. (
          record { size_bytes = total; checksum_sha256 = sha256 hashed },
          (r, s'),
          rw h.same_tags (rw run refl),
        ),
        λ large. absurd (omega (arith, h.left, h.small, none_left)),
      )
  upload_parts-Decides (suc fuel) id (c ∷ part) total n all_bytes hashed parts r s enough h =
      elim (Bool-cases (ltb max_bytes (total + length (c ∷ part)))) [
        | inl too_large ↦
            (λ fits. absurd (ground (arith, h.left)), λ large. ((r, s), rw too_large refl))
        | inr fits ↦
            let (etag, s1, up) =
              available.upload bucket key id n (c ∷ part) h.uploaded s h.upload_is_open in
            let (next, r1, read) = read_part-Reads source size sound r in
            let p = read_part-IsPart source content lawful size next r r1 read in
            let ih =
              upload_parts-Decides fuel id next (total + length (c ∷ part)) (n + 1) all_bytes
                (hashed ++ (c ∷ part)) (parts ++ record { etag = etag; part_number = n } ∷ []) r1 s1
                (omega arith)
                (IsFilling-next id c part next total n all_bytes parts etag r r1 s s1 h fits up
                  p) in
            rw fits (rw up (rw read ih))
      ]

  with_abort-Decides :
      (b k id : Text) (all_bytes : ℕ) (x : Result UploadResult × (R × S))
      → Decides all_bytes max_bytes x
      → Decides all_bytes max_bytes (with_abort source client sha256 b k (some id) x)
  with_abort-Decides b k id all_bytes (ok res, w) h =
      (λ fits. (res, w, refl), λ large. let (w', e) = h.1 large in cc)
  with_abort-Decides b k id all_bytes (raised e, w) h = (
    λ fits. let (res, w', e') = h.0 fits in cc,
    λ large.
        let (w', e') = h.1 large in
        (abort_upload source client sha256 b k (some id) w, ground arith),
  )

  upload_first-Decides :
      (first : Bytes) (r r1 : R) (s : S)
      → IsPart source content lawful size [] first r r1
      → Decides
          (length (content r))
          max_bytes
          (upload_first source client sha256 size max_bytes bucket key first (r1, s))
  unfolding upload_first
  upload_first-Decides [] r r1 s p =
      let (s', put) = available.put bucket key [] s in
      let empty = ap length (p.taken ∙ p.whole positive) in
      (
        λ fits. (record { size_bytes = 0; checksum_sha256 = sha256 [] }, (r1, s'), rw put refl),
        λ large. absurd (omega (arith, empty)),
      )
  upload_first-Decides (c ∷ part) r r1 s p =
      let (id, s1, created) = available.create bucket key s in
      let loop =
        upload_parts-Decides (max_bytes + 2) id (c ∷ part) 0 1 (length (content r)) [] [] r1 s1
          (omega arith)
          (record {
            uploaded = [];
            upload_is_open = s3.create bucket key id s s1 created;
            same_tags = refl;
            counted = refl;
            small = omega arith;
            next_number = refl;
            numbered = tt;
            full = λ e. tt;
            complete = λ e. cc;
            short = p.whole;
            part-le = p.bounded;
            left = omega (arith, ap length p.taken, length-append (c ∷ part) (content r1));
          }) in
      rw created (with_abort-Decides bucket key id (length (content r)) _ loop)

  upload_by-Decides :
      (r : R) (s : S)
      → Decides
          (length (content r))
          max_bytes
          (upload_by source client sha256 size max_bytes bucket key (r, s))
  unfolding upload_by
  upload_by-Decides r s =
      let (first, r1, read) = read_part-Reads source size sound r in
      rw read (
        upload_first-Decides first r r1 s
          (read_part-IsPart source content lawful size first r r1 read))

abbrev pub Verdict : {W : Type 0} → Bool → Result UploadResult × W → Type 0
Verdict {W} true x = (w : W) × (x ≡ (raised file_too_large, w))
Verdict {W} false x = (res : UploadResult) × (w : W) × (x ≡ (ok res, w))

Decides-Verdict :
    {W : Type 0} (total max_bytes : ℕ) (x : Result UploadResult × W)
    → Decides total max_bytes x
    → Verdict (ltb max_bytes total) x
Decides-Verdict total max_bytes x d = elim (Bool-cases (ltb max_bytes total)) [
  | inl large ↦ rw large (d.1 (ground (arith, large)))
  | inr small ↦ rw small (d.0 (ground (arith, small)))
]

-- An upload that meets no failure outside comes to an end: it returns if the source holds at most
-- `max_bytes` bytes, and raises FileTooLargeError if it holds more. So its parts are numbered from 1,
-- are few enough, and are all large enough but the last, as the service demands; for a limit below
-- 10000 parts of 8 MiB.
pub upload_stream-Verdict :
    {R S : Type 0} (source : Stream R) (content : R → Bytes) (lawful : IsStream source content)
    (sound : IsSound source) (client : Client S) (v : View S) (s3 : IsS3 client v)
    (available : IsAvailable client v) (sha256 : Bytes → Text) (max_bytes : ℕ) (bucket key : Text)
    (r : R) (s : S)
    → max_bytes < max_part_number * upload_part_size
    → Verdict
        (ltb max_bytes (length (content r)))
        (upload_stream source client sha256 max_bytes bucket key (r, s))
unfolding upload_stream
upload_stream-Verdict source content lawful sound client v s3 available sha256 max_bytes bucket key
      r s few =
    Decides-Verdict (length (content r)) max_bytes
      (upload_by source client sha256 upload_part_size max_bytes bucket key (r, s))
      (upload_by-Decides source content lawful sound client v s3 available sha256 upload_part_size
        max_bytes (omega arith) (omega arith) (λ k h. omega arith) bucket key r s)
