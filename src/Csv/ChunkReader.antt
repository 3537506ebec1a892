-- ===== src/Csv/ChunkReader.antt =====
-- app/services/csv_validation.py: `ChunkIteratorIO`. `current` is what is left of the current chunk
-- behind `_offset`, and `chunks` what the iterator gives next, or raises.
mod Tests
use service_of_import.Prelude.{
  ℕ, ◌+◌, ◌-◌, ◌≤◌, ◌≡◌, refl, sym, ap, ap₂, ◌∙◌, ◌⊎◌, inl, inr, Bool-cases, List, [], ◌∷◌, ◌++◌,
  append_assoc, append-nil, take, drop, take-append-drop, subst, length, length-take, length-append,
  leb, if◌then◌else◌, arith, true, false,
}
use service_of_import.Errors.{Result, ok, raised}
use service_of_import.Effects.{Eff, pure, raise, and_then, ◌>>=◌, ◌>>◌, and_then-ok}
use service_of_import.S3.{Bytes}

pub record ChunkReader : Type 0 where
  pub current : Bytes
  pub chunks : List (Result Bytes)

module _ {W : Type 0} (before_next_chunk : Eff W (Unit {0})) where
  -- `readinto` with a buffer of `wanted` bytes: what it writes, and the reader behind it. A round of the
  -- loop that ends in a full buffer is the last, and any other one uses up the current chunk.
  unfoldable pub readinto : ℕ → Bytes → List (Result Bytes) → Eff W (Bytes × ChunkReader)
  readinto wanted current [] =
      if leb wanted (length current)
      then pure (take wanted current, record { current = drop wanted current; chunks = [] })
      else (before_next_chunk >> pure (current, record { current = []; chunks = [] }))
  readinto wanted current (raised e ∷ chunks) =
      if leb wanted (length current)
      then pure (
        take wanted current,
        record { current = drop wanted current; chunks = raised e ∷ chunks },
      )
      else (before_next_chunk >> raise e)
  readinto wanted current (ok chunk ∷ chunks) =
      let rest = readinto (wanted - length current) chunk chunks in
      if leb wanted (length current)
      then pure (
        take wanted current,
        record { current = drop wanted current; chunks = ok chunk ∷ chunks },
      )
      else (before_next_chunk >> (rest >>= λ r. pure (current ++ r.0, r.1)))

-- What the iterator still gives, up to an exception.
abbrev pub text_of : List (Result Bytes) → Bytes
text_of [] = []
text_of (raised e ∷ chunks) = []
text_of (ok chunk ∷ chunks) = chunk ++ text_of chunks

abbrev pub remaining : ChunkReader → Bytes
remaining r = r.current ++ text_of r.chunks

-- What was written is the front of what was left, and as long as the buffer unless nothing is left.
pub record IsRead (wanted : ℕ) (before out : Bytes) (r : ChunkReader) : Type 0 where
  pub front : out ++ remaining r ≡ before
  pub full : (length out ≡ wanted) ⊎ ((length out ≤ wanted) × (remaining r ≡ []))

full-IsRead :
    (wanted : ℕ) (current : Bytes) (chunks : List (Result Bytes))
    → wanted ≤ length current
    → IsRead wanted
        (current ++ text_of chunks)
        (take wanted current)
        (record { current = drop wanted current; chunks = chunks })
full-IsRead wanted current chunks h = record {
  front =
      sym (append_assoc (take wanted current) (drop wanted current) (text_of chunks))
      ∙ ap (λ l. l ++ text_of chunks) (take-append-drop wanted current);
  full = inl (omega (arith, length-take wanted current));
}

IsRead-eq :
    (wanted : ℕ) (before out out' : Bytes) (r r' : ChunkReader)
    → IsRead wanted before out r
    → out ≡ out'
    → r ≡ r'
    → IsRead wanted before out' r'
IsRead-eq wanted before out out' r r' h e f =
    subst (λ o. IsRead wanted before o r') e (subst (IsRead wanted before out) f h)

-- A piece in front of a read.
behind-IsRead :
    (wanted : ℕ) (current before out : Bytes) (r : ChunkReader)
    → length current ≤ wanted
    → IsRead (wanted - length current) before out r
    → IsRead wanted (current ++ before) (current ++ out) r
behind-IsRead wanted current before out r short h = record {
  front = append_assoc current out (remaining r) ∙ ap (λ l. current ++ l) h.front;
  full = elim h.full [
    | inl e ↦ inl (omega (arith, length-append current out, e))
    | inr (fits, none_left) ↦ inr (omega (arith, length-append current out, fits), none_left)
  ];
}

module _ {W : Type 0} (before_next_chunk : Eff W (Unit {0})) where
  -- When readinto returns, it has written the front of what was left of the chunks, and filled the
  -- buffer unless nothing is left: no byte is lost, repeated or moved, and a short read is the last.
  pub readinto-IsRead :
      (wanted : ℕ) (current : Bytes) (chunks : List (Result Bytes)) (w w' : W) (out : Bytes)
      (r : ChunkReader)
      → readinto before_next_chunk wanted current chunks w ≡ (ok (out, r), w')
      → IsRead wanted (current ++ text_of chunks) out r
  unfolding readinto
  readinto-IsRead wanted current [] w w' out r h = elim (Bool-cases (leb wanted (length current))) [
    | inl fits ↦
        IsRead-eq wanted (current ++ text_of ([])) (take wanted current) out
          (record { current = drop wanted current; chunks = [] }) r
          (full-IsRead wanted current ([]) (ground (arith, fits))) (ground arith) (ground arith)
    | inr short ↦
        let at_end : Unit {0} → Eff W (Bytes × ChunkReader) =
          λ u. pure (current, record { current = []; chunks = [] }) in
        let reduced : and_then (before_next_chunk w) at_end ≡ (ok (out, r), w') = ground arith in
        let (u, v, run, h1) = and_then-ok (before_next_chunk w) at_end reduced in
        IsRead-eq wanted (current ++ []) current out (record { current = []; chunks = [] }) r
          (record { front = refl; full = inr (ground (arith, short), refl) }) (ground arith)
          (ground arith)
  ]
  readinto-IsRead wanted current (raised e ∷ chunks) w w' out r h =
      elim (Bool-cases (leb wanted (length current))) [
        | inl fits ↦
            IsRead-eq wanted (current ++ text_of (raised e ∷ chunks)) (take wanted current) out
              (record { current = drop wanted current; chunks = raised e ∷ chunks }) r
              (full-IsRead wanted current (raised e ∷ chunks) (ground (arith, fits))) (ground arith)
              (ground arith)
        | inr short ↦
            let failing : Unit {0} → Eff W (Bytes × ChunkReader) = λ u. raise e in
            let reduced : and_then (before_next_chunk w) failing ≡ (ok (out, r), w') =
              ground arith in
            let (u, v, run, h1) = and_then-ok (before_next_chunk w) failing reduced in
            absurd (ground arith)
      ]
  readinto-IsRead wanted current (ok chunk ∷ chunks) w w' out r h =
      elim (Bool-cases (leb wanted (length current))) [
        | inl fits ↦
            IsRead-eq wanted (current ++ text_of (ok chunk ∷ chunks)) (take wanted current) out
              (record { current = drop wanted current; chunks = ok chunk ∷ chunks }) r
              (full-IsRead wanted current (ok chunk ∷ chunks) (ground (arith, fits))) (ground arith)
              (ground arith)
        | inr short ↦
            let next = readinto before_next_chunk (wanted - length current) chunk chunks in
            let join : Bytes × ChunkReader → Eff W (Bytes × ChunkReader) =
              λ r. pure (current ++ r.0, r.1) in
            let behind : Unit {0} → Eff W (Bytes × ChunkReader) = λ u. next >>= join in
            let reduced : and_then (before_next_chunk w) behind ≡ (ok (out, r), w') =
              ground arith in
            let (u, v, run, h1) = and_then-ok (before_next_chunk w) behind reduced in
            let (x, v2, run2, h2) = and_then-ok (next v) join h1 in
            IsRead-eq wanted (current ++ (chunk ++ text_of chunks)) (current ++ x.0) out x.1 r
              (behind-IsRead wanted current (chunk ++ text_of chunks) x.0 x.1
                (ground (arith, short))
                (readinto-IsRead (wanted - length current) chunk chunks v v2 x.0 x.1 run2))
              (ground arith) (ground arith)
      ]
