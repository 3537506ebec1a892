-- ===== src/Csv/Records/Storage.antt =====
-- `append_piece`: however the text of a record is cut into pieces, the parts hold the whole text
-- while it fits, and its preview from then on.
use service_of_import.Prelude.{
  ℕ, ◌-◌, ◌≤◌, ◌<◌, Text, ◌≡◌, refl, sym, ap, ◌∙◌, true, false, List, [], ◌∷◌, ◌++◌, append-nil,
  length, length-append, take, take-append_short, take-append_long, flatten_snoc, arith, leb, ltb,
  Bool-cases, inl, inr, if◌then◌else◌,
}
use mathlib.Core.List.{flatten}
use service_of_import.Csv.Records.{Limits, Buffer, empty_buffer, append_piece, logical_record}
use service_of_import.Csv.Records.Machine.{bounded_record}

pub record IsStored (limits : Limits) (text : Text) (b : Buffer) : Type 0 where
  pub whole :
      b.truncated ≡ false
      → (flatten b.parts ≡ text)
        × (b.stored_chars ≡ length text)
        × (length text ≤ limits.max_record_chars)
  pub cut :
      b.truncated ≡ true
      → (flatten b.parts ≡ take limits.preview_chars (take limits.max_record_chars text))
        × (limits.max_record_chars < length text)

pub empty-IsStored : (limits : Limits) → IsStored limits [] empty_buffer
unfolding flatten
empty-IsStored limits = record { whole = λ _. (refl, refl, omega arith); cut = λ e. cc }

module _ (limits : Limits) where
  -- The parts with what still fits of a piece.
  flatten_fitting :
      (parts : List Text) (r : ℕ) (piece : Text)
      → flatten (if ltb 0 r then parts ++ take r piece ∷ [] else parts)
        ≡ flatten parts ++ take r piece
  unfolding take
  flatten_fitting parts r piece = elim (Bool-cases (ltb 0 r)) [
    | inl some_room ↦ rw some_room (flatten_snoc parts (take r piece))
    | inr full ↦
        let e : r ≡ 0 = ground arith in
        rw full (sym (append-nil (flatten parts)) ∙ ap (λ k. flatten parts ++ take k piece) (sym e))
  ]

  pub append_piece-IsStored :
      (text piece : Text) (b : Buffer)
      → IsStored limits text b
      → IsStored limits (text ++ piece) (append_piece limits piece b)
  unfolding append_piece flatten take
  append_piece-IsStored text [] b h = rw (append-nil text) h
  append_piece-IsStored text (c ∷ piece) b h = elim (Bool-cases b.truncated) [
    | inl over ↦
        let (kept, long) = h.cut over in
        rw over (record {
          whole = λ e. cc;
          cut = λ _. (
            kept
                ∙ ap (take limits.preview_chars) (
                    sym (take-append_short limits.max_record_chars text (c ∷ piece) (omega arith))),
            omega (arith, length-append text (c ∷ piece)),
          );
        })
    | inr fits ↦
        let (kept, stored, le) = h.whole fits in
        elim (Bool-cases (leb (length (c ∷ piece)) (limits.max_record_chars - b.stored_chars))) [
          | inl room ↦
              rw (fits, room)
                (record {
                  whole = λ _. (
                    flatten_snoc b.parts (c ∷ piece) ∙ ap (λ t. t ++ c ∷ piece) kept,
                    omega (arith, length-append text (c ∷ piece)),
                    ground (arith, length-append text (c ∷ piece)),
                  );
                  cut = λ e. cc;
                })
          | inr full ↦
              rw (fits, full)
                (record {
                  whole = λ e. cc;
                  cut = λ _. (
                    append-nil _
                        ∙ ap (take limits.preview_chars) (
                            flatten_fitting b.parts (limits.max_record_chars - b.stored_chars)
                              (c ∷ piece)
                            ∙ cc (kept, stored)
                            ∙ sym (take-append_long limits.max_record_chars text (c ∷ piece) le)),
                    ground (arith, length-append text (c ∷ piece)),
                  );
                })
        ]
  ]

-- The record that a buffer makes is the whole text, or the preview of a text that is too long.
pub logical_record-bounded :
    (limits : Limits) (text : Text) (b : Buffer)
    → IsStored limits text b
    → logical_record b (length text) ≡ bounded_record limits text
unfolding bounded_record
logical_record-bounded limits text b h = elim (Bool-cases b.truncated) [
  | inl over ↦ let (kept, long) = h.cut over in ground arith
  | inr fits ↦ let (kept, stored, le) = h.whole fits in ground arith
]
