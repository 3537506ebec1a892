-- ===== src/Storage/Parts.antt =====
-- `_read_part`: what a part holds of the stream.
use service_of_import.Prelude.{
  ℕ, zero, suc, ◌+◌, ◌-◌, ◌≤◌, ◌<◌, ◌≡◌, refl, sym, ap, ◌∙◌, false, [], ◌∷◌, ◌++◌, length,
  length-append, append_assoc, ltb, arith, Bool-cases, inl, inr,
}
use service_of_import.Errors.{ok}
use service_of_import.Effects.{Eff, pure, and_then-ok}
use service_of_import.S3.{Bytes, Stream, IsStream, IsSound}
use service_of_import.Storage.{add_chunk, fill_part, read_part}

module _ {R : Type 0} (source : Stream R) (content : R → Bytes) (lawful : IsStream source content)
    (size : ℕ) where
  -- What a part holds: the front of the stream, up to the size, and the whole of a shorter one.
  pub record IsPart (part out : Bytes) (r r' : R) : Type 0 where
    pub taken : part ++ content r ≡ out ++ content r'
    pub bounded : length out ≤ size
    pub whole : length out < size → content r' ≡ []

  pure-IsPart :
      (part out : Bytes) (r r' : R)
      → length part ≤ size
      → (length part < size → content r ≡ [])
      → pure part r ≡ (ok out, r')
      → IsPart part out r r'
  pure-IsPart part out r r' short whole h = record {
    taken = ground arith;
    bounded = ground arith;
    whole = λ small. ap content (ground arith) ∙ whole (ground arith);
  }

  -- What is behind a read that returned `b`.
  chunk-IsPart :
      (fuel : ℕ) (part b out : Bytes) (r r1 r' : R)
      → length part < size
      → source.read (size - length part) r ≡ (ok b, r1)
      → add_chunk (size - length part) part (fill_part source size fuel) b r1 ≡ (ok out, r')
      → ((b' : Bytes)
          → 0 < length b'
          → length (part ++ b') ≤ size
          → fill_part source size fuel (part ++ b') r1 ≡ (ok out, r')
          → IsPart (part ++ b') out r1 r')
      → IsPart part out r r'
  chunk-IsPart fuel part [] out r r1 r' short read h ih =
      let p =
        pure-IsPart part out r1 r' (omega arith)
          (λ small. lawful.end (size - length part) r r1 (omega arith) read) h in
      record {
        taken = ap (λ l. part ++ l) (lawful.piece (size - length part) r r1 [] read) ∙ p.taken;
        bounded = p.bounded;
        whole = p.whole;
      }
  chunk-IsPart fuel part (c ∷ b) out r r1 r' short read h ih =
      elim (Bool-cases (ltb (size - length part) (length (c ∷ b)))) [
        | inl long ↦ absurd (ground arith)
        | inr fits ↦
            let p =
              ih (c ∷ b) (omega arith) (ground (arith, length-append part (c ∷ b)))
                (ground arith) in
            record {
              taken =
                  ap (λ l. part ++ l) (lawful.piece (size - length part) r r1 (c ∷ b) read)
                  ∙ sym (append_assoc part (c ∷ b) (content r1))
                  ∙ p.taken;
              bounded = p.bounded;
              whole = p.whole;
            }
      ]

  fill_part-IsPart :
      (fuel : ℕ) (part out : Bytes) (r r' : R)
      → size ≤ length part + fuel
      → length part ≤ size
      → fill_part source size fuel part r ≡ (ok out, r')
      → IsPart part out r r'
  unfolding fill_part
  fill_part-IsPart zero part out r r' full short h =
      pure-IsPart part out r r' short (λ small. absurd (omega arith)) h
  fill_part-IsPart (suc fuel) part out r r' full short h =
      elim (Bool-cases (ltb (length part) size)) [
        | inr done ↦ pure-IsPart part out r r' short (λ small. absurd (ground arith)) (ground arith)
        | inl more ↦
            let requested = size - length part in
            let (b, r1, read, h1) =
              and_then-ok (source.read requested r)
                (add_chunk requested part (fill_part source size fuel)) (ground arith) in
            chunk-IsPart fuel part b out r r1 r' (ground arith) read h1 (λ b' some_bytes fits h2.
              fill_part-IsPart fuel (part ++ b') out r1 r' (omega (arith, length-append part b'))
                fits h2)
      ]

  pub read_part-IsPart :
      (out : Bytes) (r r' : R) → read_part source size r ≡ (ok out, r') → IsPart [] out r r'
  unfolding read_part
  read_part-IsPart out r r' h = fill_part-IsPart size [] out r r' (omega arith) (omega arith) h

module _ {R : Type 0} (source : Stream R) (size : ℕ) where
  abbrev Reads : Eff R Bytes → R → Type 0
  Reads m r = (out : Bytes) × (r' : R) × (m r ≡ (ok out, r'))

  add_chunk-Reads :
      (requested : ℕ) (part b : Bytes) (rest : Bytes → Eff R Bytes) (r : R)
      → length b ≤ requested
      → ((p : Bytes) → Reads (rest p) r)
      → Reads (add_chunk requested part rest b) r
  add_chunk-Reads requested part [] rest r fits h = (part, r, refl)
  add_chunk-Reads requested part (c ∷ b) rest r fits h =
      let not_long : ltb requested (length (c ∷ b)) ≡ false = ground arith in
      rw not_long (h (part ++ (c ∷ b)))

  fill_part-Reads :
      IsSound source → (fuel : ℕ) (part : Bytes) (r : R) → Reads (fill_part source size fuel part) r
  unfolding fill_part
  fill_part-Reads sound zero part r = (part, r, refl)
  fill_part-Reads sound (suc fuel) part r = elim (Bool-cases (ltb (length part) size)) [
    | inr done ↦ rw done (part, r, refl)
    | inl more ↦
        let (b, r1, read, fits) = sound (size - length part) r in
        rw more (
          rw read (
            add_chunk-Reads (size - length part) part b (fill_part source size fuel) r1 fits
              (λ p. fill_part-Reads sound fuel p r1)))
  ]

  pub read_part-Reads :
      IsSound source → (r : R) → (out : Bytes) × (r' : R) × (read_part source size r ≡ (ok out, r'))
  unfolding read_part
  read_part-Reads sound r = fill_part-Reads sound size [] r
