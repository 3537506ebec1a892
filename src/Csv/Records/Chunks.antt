-- ===== src/Csv/Records/Chunks.antt =====
-- The splitter over chunks does what the machine does over the whole text.
use service_of_import.Prelude.{
  ℕ, ◌+◌, ◌-◌, ◌≤◌, Text, ◌≡◌, ◌≢◌, refl, sym, ap, ap₂, ◌∙◌, true, false, ◌&&◌, List, [], ◌∷◌, ◌++◌,
  append_assoc, append-nil, length, length-append, take, drop, take_prefix, drop_prefix, arith,
  ◌==◌, All, Bool-cases, inl, inr, if◌then◌else◌, map,
}
use mathlib.Core.List.{flatten, map-append}
use service_of_import.Csv.Records.{
  Limits, Flags, Splitter, is_special, normal_flags, after_normal, special_flags, slice,
  logical_record, yield_record, count_match, on_match, scan, trailing, process_chunk,
  splitter_start, last_record, read_chunks, iter_logical_records, append_piece,
}
use service_of_import.Csv.Records.Machine.{
  Machine, machine_start, feed, feed_all, feed_all-append, feed_normal, feed_skipped, feed_inside,
  feed_boundary, close, split_records, bounded_record,
}
use service_of_import.Csv.Records.Storage.{
  IsStored, empty-IsStored, append_piece-IsStored, logical_record-bounded,
}

normal_flags_idem : (f : Flags) → normal_flags (normal_flags f) ≡ normal_flags f
unfolding normal_flags
normal_flags_idem f = ground arith

-- One more normal character.
normal_flags-after_normal :
    (n : ℕ) (f : Flags) → normal_flags (after_normal n f) ≡ after_normal (n + 1) f
unfolding after_normal
normal_flags-after_normal n f = ground (arith, normal_flags_idem f)

after_normal_none : (n : ℕ) (f : Flags) → n ≡ 0 → f ≡ after_normal n f
unfolding after_normal
after_normal_none n f h = ground arith

nil_of_length {ℓ} : {A : Type ℓ} (xs : List A) → length xs ≡ 0 → xs ≡ []
nil_of_length [] h = refl
nil_of_length (x ∷ xs) h = absurd (omega arith)

-- The ways of one match through the splitter.
module _ (limits : Limits) (chunk : Text) (index c : ℕ) (s : Splitter) where
  on_match_skipped :
      (s.skip_lf_after_cr && (index == s.segment_start && c == 10)) ≡ true
      → on_match limits chunk index c s ≡ record s {
        skip_lf_after_cr = false;
        segment_start = index + 1;
        counted_start = index + 1;
      }
  unfolding on_match
  on_match_skipped e = rw e

  abbrev counted : Flags → Splitter
  counted f = record s {
    record_chars = s.record_chars + (index - s.counted_start) + 1;
    flags = f;
    skip_lf_after_cr = false;
    counted_start = index + 1;
  }

  module _ (f : Flags) (flags : f ≡ after_normal (index - s.counted_start) s.flags) where
    on_match_inside :
        (s.skip_lf_after_cr && (index == s.segment_start && c == 10)) ≡ false
        → (special_flags c f).1 ≡ false
        → on_match limits chunk index c s ≡ counted (special_flags c f).0
    unfolding on_match count_match
    on_match_inside no_skip inside = rw (no_skip, ← flags, inside)

    on_match_boundary :
        (s.skip_lf_after_cr && (index == s.segment_start && c == 10)) ≡ false
        → (special_flags c f).1 ≡ true
        → on_match limits chunk index c s
          ≡ yield_record limits chunk index c (counted (special_flags c f).0)
    unfolding on_match count_match
    on_match_boundary no_skip ends = rw (no_skip, ← flags, ends)

module _ (limits : Limits) (chunk : Text) where
  -- Between two characters of a chunk, with `rest` still to be scanned from position `index`: what
  -- is stored is `kept`, and `pending` stands between `segment_start` and `index`.
  record Agrees (rest : Text) (index : ℕ) (s : Splitter) (m : Machine) (ys : List Text)
      : Type 0 where
    done : Text
    pending : Text
    kept : Text
    chunk_parts : chunk ≡ done ++ (pending ++ rest)
    segment : s.segment_start ≡ length done
    position : index ≡ length done + length pending
    counted_le : s.counted_start ≤ index
    segment_le : s.segment_start ≤ s.counted_start
    text : m.text ≡ kept ++ pending
    stored : IsStored limits kept s.buffer
    chars : s.record_chars + (index - s.counted_start) ≡ length m.text
    flags : m.flags ≡ after_normal (index - s.counted_start) s.flags
    skip : m.skip_lf ≡ (s.skip_lf_after_cr && index == s.segment_start)
    just_skipped : s.skip_lf_after_cr ≡ true → s.counted_start ≡ s.segment_start
    out : s.yielded ≡ map (bounded_record limits) ys

  module _ (c : ℕ) (rest : Text) (index : ℕ) (s : Splitter) (m : Machine) (ys : List Text) where
    chunk_shift :
        (a : Agrees (c ∷ rest) index s m ys) → chunk ≡ a.done ++ ((a.pending ++ c ∷ []) ++ rest)
    chunk_shift a =
        a.chunk_parts ∙ ap (λ t. a.done ++ t) (sym (append_assoc a.pending (c ∷ []) rest))

    -- The segment up to and with `c`.
    slice_pending :
        (a : Agrees (c ∷ rest) index s m ys)
        → slice chunk s.segment_start (index + 1) ≡ a.pending ++ c ∷ []
    slice_pending a =
        let width : index + 1 - s.segment_start ≡ length (a.pending ++ c ∷ []) =
          omega (arith, a.segment, a.position, length-append a.pending (c ∷ [])) in
        ap₂ (λ n t. take n t) width
          (ap₂ (λ n t. drop n t) a.segment (chunk_shift a) ∙ drop_prefix a.done _)
        ∙ take_prefix (a.pending ++ c ∷ []) rest

    -- A normal character changes nothing yet.
    normal-Agrees :
        is_special c ≡ false
        → Agrees (c ∷ rest) index s m ys
        → Agrees rest (index + 1) s (feed c m).0 (ys ++ (feed c m).1)
    normal-Agrees normal a =
        let more : index - s.counted_start + 1 ≡ index + 1 - s.counted_start =
          omega (arith, a.counted_le) in
        rw (feed_normal c m normal) (record {
          done = a.done;
          pending = a.pending ++ c ∷ [];
          kept = a.kept;
          chunk_parts = chunk_shift a;
          segment = a.segment;
          position = omega (arith, a.position, length-append a.pending (c ∷ []));
          counted_le = omega (arith, a.counted_le);
          segment_le = a.segment_le;
          text = ap (λ t. t ++ c ∷ []) a.text ∙ append_assoc a.kept a.pending (c ∷ []);
          stored = a.stored;
          chars = omega (arith, a.chars, a.counted_le, length-append m.text (c ∷ []));
          flags =
              ap normal_flags a.flags
              ∙ normal_flags-after_normal _ _
              ∙ ap (λ n. after_normal n s.flags) more;
          skip = ground (arith, a.counted_le, a.segment_le);
          just_skipped = a.just_skipped;
          out = a.out ∙ ap (map (bounded_record limits)) (sym (append-nil ys));
        })

    -- The end of the scanned part moves behind `c`.
    chunk_done :
        (a : Agrees (c ∷ rest) index s m ys)
        → chunk ≡ (a.done ++ (a.pending ++ c ∷ [])) ++ ([] ++ rest)
    chunk_done a = chunk_shift a ∙ sym (append_assoc a.done (a.pending ++ c ∷ []) rest)

    length-done :
        (a : Agrees (c ∷ rest) index s m ys) → index + 1 ≡ length (a.done ++ (a.pending ++ c ∷ []))
    length-done a = omega (
      arith,
      a.position,
      length-append a.done (a.pending ++ c ∷ []),
      length-append a.pending (c ∷ []),
    )

    -- The splitter and the machine test for the same LF.
    skip_tests :
        (a : Agrees (c ∷ rest) index s m ys)
        → (s.skip_lf_after_cr && (index == s.segment_start && c == 10)) ≡ (m.skip_lf && c == 10)
    skip_tests a = ground (arith, a.skip)

    skipped-Agrees :
        (m.skip_lf && c == 10) ≡ true
        → Agrees (c ∷ rest) index s m ys
        → Agrees rest
            (index + 1)
            (on_match limits chunk index c s)
            (feed c m).0
            (ys ++ (feed c m).1)
    skipped-Agrees skips a =
        let at_start : index ≡ s.segment_start = ground (arith, a.skip) in
        let no_pending : a.pending ≡ [] =
          nil_of_length a.pending (omega (arith, a.position, a.segment)) in
        let none_left : index - s.counted_start ≡ index + 1 - (index + 1) =
          omega (arith, a.counted_le, a.segment_le) in
        let same_text : a.kept ≡ m.text =
          sym (a.text ∙ ap (λ t. a.kept ++ t) no_pending ∙ append-nil a.kept) in
        rw (on_match_skipped limits chunk index c s (skip_tests a ∙ skips), feed_skipped c m skips)
          (record {
            done = a.done ++ (a.pending ++ c ∷ []);
            pending = [];
            kept = m.text;
            chunk_parts = chunk_done a;
            segment = length-done a;
            position = omega (arith, length-done a);
            counted_le = omega arith;
            segment_le = omega arith;
            text = sym (append-nil m.text);
            stored = rw same_text at a.stored;
            chars = omega (arith, a.chars);
            flags = a.flags ∙ ap (λ n. after_normal n s.flags) none_left;
            skip = refl;
            just_skipped = λ e. cc;
            out = a.out ∙ ap (map (bounded_record limits)) (sym (append-nil ys));
          })

    inside-Agrees :
        (m.skip_lf && c == 10) ≡ false
        → is_special c ≡ true
        → (special_flags c m.flags).1 ≡ false
        → Agrees (c ∷ rest) index s m ys
        → Agrees rest
            (index + 1)
            (on_match limits chunk index c s)
            (feed c m).0
            (ys ++ (feed c m).1)
    inside-Agrees no_skip special inside a =
        rw
          (
            on_match_inside limits chunk index c s m.flags a.flags (skip_tests a ∙ no_skip) inside,
            feed_inside c m no_skip special inside,
          )
          (record {
            done = a.done;
            pending = a.pending ++ c ∷ [];
            kept = a.kept;
            chunk_parts = chunk_shift a;
            segment = a.segment;
            position = omega (arith, a.position, length-append a.pending (c ∷ []));
            counted_le = omega arith;
            segment_le = omega (arith, a.segment_le, a.counted_le);
            text = ap (λ t. t ++ c ∷ []) a.text ∙ append_assoc a.kept a.pending (c ∷ []);
            stored = a.stored;
            chars = omega (arith, a.chars, length-append m.text (c ∷ []));
            flags = after_normal_none _ _ (omega arith);
            skip = refl;
            just_skipped = λ e. cc;
            out = a.out ∙ ap (map (bounded_record limits)) (sym (append-nil ys));
          })

    -- The record that is yielded is the one whose text the machine yields.
    yielded_record :
        (a : Agrees (c ∷ rest) index s m ys)
        → logical_record
            (append_piece limits (slice chunk s.segment_start (index + 1)) s.buffer)
            (s.record_chars + (index - s.counted_start) + 1)
          ≡ bounded_record limits (m.text ++ c ∷ [])
    yielded_record a =
        let whole : a.kept ++ slice chunk s.segment_start (index + 1) ≡ m.text ++ c ∷ [] =
          ap (λ t. a.kept ++ t) (slice_pending a)
          ∙ sym (append_assoc a.kept a.pending (c ∷ []))
          ∙ ap (λ t. t ++ c ∷ []) (sym a.text) in
        let chars : s.record_chars + (index - s.counted_start) + 1 ≡ length (m.text ++ c ∷ []) =
          omega (arith, a.chars, length-append m.text (c ∷ [])) in
        rw chars (
          logical_record-bounded limits (m.text ++ c ∷ []) _ (
            rw whole at (
              append_piece-IsStored limits a.kept (slice chunk s.segment_start (index + 1)) s.buffer
                a.stored)))

    boundary-Agrees :
        (m.skip_lf && c == 10) ≡ false
        → is_special c ≡ true
        → (special_flags c m.flags).1 ≡ true
        → Agrees (c ∷ rest) index s m ys
        → Agrees rest
            (index + 1)
            (on_match limits chunk index c s)
            (feed c m).0
            (ys ++ (feed c m).1)
    unfolding yield_record
    boundary-Agrees no_skip special ends a =
        rw
          (
            on_match_boundary limits chunk index c s m.flags a.flags (skip_tests a ∙ no_skip) ends,
            feed_boundary c m no_skip special ends,
          )
          (record {
            done = a.done ++ (a.pending ++ c ∷ []);
            pending = [];
            kept = [];
            chunk_parts = chunk_done a;
            segment = length-done a;
            position = omega (arith, length-done a);
            counted_le = omega arith;
            segment_le = omega arith;
            text = refl;
            stored = empty-IsStored limits;
            chars = omega arith;
            flags = after_normal_none _ _ (omega arith);
            skip = ground arith;
            just_skipped = λ e. refl;
            out =
                ap₂ (λ l r. l ++ r ∷ []) a.out (yielded_record a)
                ∙ sym (map-append (bounded_record limits) ys ((m.text ++ c ∷ []) ∷ []));
          })

    step-Agrees :
        Agrees (c ∷ rest) index s m ys
        → Agrees rest
            (index + 1)
            (if is_special c then on_match limits chunk index c s else s)
            (feed c m).0
            (ys ++ (feed c m).1)
    step-Agrees a = elim (Bool-cases (is_special c)) [
      | inr normal ↦ rw normal (normal-Agrees normal a)
      | inl special ↦ rw special (elim (Bool-cases (m.skip_lf && c == 10)) [
        | inl skips ↦ skipped-Agrees skips a
        | inr no_skip ↦ elim (Bool-cases (special_flags c m.flags).1) [
          | inl ends ↦ boundary-Agrees no_skip special ends a
          | inr inside ↦ inside-Agrees no_skip special inside a
        ]
      ])
    ]

  scan-Agrees :
      (rest : Text) (index end : ℕ) (s : Splitter) (m : Machine) (ys : List Text)
      → index + length rest ≡ end
      → Agrees rest index s m ys
      → Agrees [] end
          (scan limits chunk rest index s)
          (feed_all m rest).0
          (ys ++ (feed_all m rest).1)
  unfolding scan feed_all
  scan-Agrees [] index end s m ys e a =
      let at_end : index ≡ end = omega arith in rw (append-nil ys, ← at_end) a
  scan-Agrees (c ∷ rest) index end s m ys e a =
      rw (← append_assoc ys (feed c m).1 (feed_all (feed c m).0 rest).1) (
        scan-Agrees rest (index + 1) end _ (feed c m).0 (ys ++ (feed c m).1) (omega arith)
          (step-Agrees c rest index s m ys a))

module _ (limits : Limits) where
  -- Between two chunks.
  record Rests (s : Splitter) (m : Machine) (ys : List Text) : Type 0 where
    stored : IsStored limits m.text s.buffer
    chars : s.record_chars ≡ length m.text
    flags : m.flags ≡ s.flags
    skip : m.skip_lf ≡ s.skip_lf_after_cr
    out : s.yielded ≡ map (bounded_record limits) ys

  trailing-Rests :
      (chunk : Text) (s : Splitter) (m : Machine) (ys : List Text)
      → Agrees limits chunk [] (length chunk) s m ys
      → Rests (trailing limits chunk s) m ys
  unfolding trailing
  trailing-Rests chunk s m ys a =
      let rest_of : drop s.segment_start chunk ≡ a.pending =
        ap₂ (λ n t. drop n t) a.segment a.chunk_parts
        ∙ drop_prefix a.done _
        ∙ append-nil a.pending in
      record {
        stored =
            rw (rest_of, a.text) (append_piece-IsStored limits a.kept a.pending s.buffer a.stored);
        chars = a.chars;
        flags = a.flags;
        skip = ground (arith, a.skip, a.just_skipped, a.counted_le, a.segment_le);
        out = a.out;
      }

  process_chunk-Rests :
      (chunk : Text) (s : Splitter) (m : Machine) (ys : List Text)
      → Rests s m ys
      → Rests (process_chunk limits chunk s) (feed_all m chunk).0 (ys ++ (feed_all m chunk).1)
  unfolding process_chunk
  process_chunk-Rests chunk s m ys r = trailing-Rests chunk _ _ _ (
      scan-Agrees limits chunk chunk 0 (length chunk)
        (record s { segment_start = 0; counted_start = 0 }) m ys (omega arith)
        (record {
          done = [];
          pending = [];
          kept = m.text;
          chunk_parts = refl;
          segment = refl;
          position = omega arith;
          counted_le = omega arith;
          segment_le = omega arith;
          text = sym (append-nil m.text);
          stored = r.stored;
          chars = omega (arith, r.chars);
          flags = r.flags ∙ after_normal_none (0 - 0) s.flags (omega arith);
          skip = ground (arith, r.skip);
          just_skipped = λ e. refl;
          out = r.out;
        }))

  last_record-lem :
      (s : Splitter) (m : Machine) (ys : List Text)
      → Rests s m ys
      → last_record s ≡ map (bounded_record limits) (ys ++ close m)
  unfolding last_record close
  last_record-lem s m ys r = elim (Bool-cases (length m.text == 0)) [
    | inl nothing ↦
        rw (r.chars, nothing) (r.out ∙ ap (map (bounded_record limits)) (sym (append-nil ys)))
    | inr some_text ↦
        rw (r.chars, some_text)
          (ap₂ (λ l x. l ++ x ∷ []) r.out (logical_record-bounded limits m.text s.buffer r.stored)
            ∙ sym (map-append (bounded_record limits) ys (m.text ∷ [])))
  ]

  read_chunks-lem :
      (chunks : List Text) (s : Splitter) (m : Machine) (ys : List Text)
      → All (λ t. t ≢ []) chunks
      → Rests s m ys
      → read_chunks limits chunks s
        ≡ map
            (bounded_record limits)
            ((ys ++ (feed_all m (flatten chunks)).1) ++ close (feed_all m (flatten chunks)).0)
  unfolding read_chunks flatten
  read_chunks-lem [] s m ys h r = unfold feed_all in rw (append-nil ys) (last_record-lem s m ys r)
  read_chunks-lem ([] ∷ chunks) s m ys h r = absurd (h.0 refl)
  read_chunks-lem ((c ∷ chunk) ∷ chunks) s m ys h r =
      let here = feed_all m (c ∷ chunk) in
      rw (feed_all-append m (c ∷ chunk) (flatten chunks)) (
        rw (← append_assoc ys here.1 (feed_all here.0 (flatten chunks)).1) (
          read_chunks-lem chunks (process_chunk limits (c ∷ chunk) s) here.0 (ys ++ here.1) h.1
            (process_chunk-Rests (c ∷ chunk) s m ys r)))

-- However the text is cut into chunks that are not empty, the splitter yields, in order, one record
-- for each record of the machine that reads the whole text character by character: its whole text
-- if it has at most `max_record_chars` characters, its preview and the mark `truncated` if it has
-- more, and in both cases its number of characters.
pub iter_logical_records-split :
    (limits : Limits) (chunks : List Text)
    → All (λ t. t ≢ []) chunks
    → iter_logical_records limits chunks
      ≡ map (bounded_record limits) (split_records (flatten chunks))
unfolding iter_logical_records split_records
iter_logical_records-split limits chunks h =
    read_chunks-lem limits chunks splitter_start machine_start [] h (record {
      stored = empty-IsStored limits;
      chars = refl;
      flags = refl;
      skip = refl;
      out = refl;
    })
