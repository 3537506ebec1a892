-- ===== src/Csv/Records.antt =====
-- `_iter_logical_records`: the text stream, read in chunks, is cut into logical records. The
-- generator's nonlocal variables are the fields of `Splitter`, in groups, and what it yields is
-- appended to `yielded`. The chunk is scanned from match to match of `_CSV_SPECIAL_CHARACTER`: the
-- positions between the matches do nothing.
pub mod Machine
pub mod Storage
pub mod Chunks
use service_of_import.Prelude.{
  ℕ, ◌+◌, ◌-◌, Text, Bool, true, false, ◌&&◌, ◌||◌, not, List, [], ◌∷◌, ◌++◌, length, take, drop,
  ltb, leb, ◌==◌, if◌then◌else◌,
}
use mathlib.Core.List.{flatten}
use service_of_import.Csv.Issue.{LogicalCsvRecord}

pub record Limits : Type 0 where
  pub max_record_chars : ℕ
  pub preview_chars : ℕ

-- `parts`, `stored_chars`, `truncated`
pub record Buffer : Type 0 where
  pub parts : List Text
  pub stored_chars : ℕ
  pub truncated : Bool

-- `in_quotes`, `quote_pending`, `at_field_start`
pub record Flags : Type 0 where
  pub in_quotes : Bool
  pub quote_pending : Bool
  pub at_field_start : Bool

pub record Splitter : Type 0 where
  pub buffer : Buffer
  pub record_chars : ℕ
  pub flags : Flags
  pub skip_lf_after_cr : Bool
  pub segment_start : ℕ
  pub counted_start : ℕ
  pub yielded : List LogicalCsvRecord

abbrev pub empty_buffer : Buffer
empty_buffer = record { parts = []; stored_chars = 0; truncated = false }

abbrev pub record_start : Flags
record_start = record { in_quotes = false; quote_pending = false; at_field_start = true }

unfoldable pub append_piece : Limits → Text → Buffer → Buffer
append_piece limits [] b = b
append_piece limits (c ∷ piece) b =
    let remaining = limits.max_record_chars - b.stored_chars in
    let parts = if ltb 0 remaining then b.parts ++ take remaining (c ∷ piece) ∷ [] else b.parts in
    let preview = take limits.preview_chars (flatten parts) in
    if b.truncated
    then b
    else if leb (length (c ∷ piece)) remaining
    then record {
      parts = b.parts ++ (c ∷ piece) ∷ [];
      stored_chars = b.stored_chars + length (c ∷ piece);
      truncated = false;
    }
    else record { parts = preview ∷ []; stored_chars = length preview; truncated = true }

-- `_CSV_SPECIAL_CHARACTER`: a quote, a comma, CR or LF.
unfoldable pub is_special : ℕ → Bool
is_special c = c == 34 || c == 44 || c == 13 || c == 10

-- What normal characters do to the flags.
unfoldable pub normal_flags : Flags → Flags
normal_flags f =
    let closed = f.in_quotes && f.quote_pending in
    let in_quotes = f.in_quotes && not closed in
    record {
      in_quotes = in_quotes;
      quote_pending = f.quote_pending && not closed;
      at_field_start = f.at_field_start && in_quotes;
    }

-- `normal_chars` of them since the last match.
unfoldable pub after_normal : ℕ → Flags → Flags
after_normal normal_chars f = if normal_chars == 0 then f else normal_flags f

-- The branches of the `while reprocess` loop outside quotes; true is `is_boundary`.
unfoldable pub unquoted_special : ℕ → Flags → Flags × Bool
unquoted_special character f =
    if character == 13 || character == 10
    then (f, true)
    else if character == 44
    then (record f { at_field_start = true }, false)
    else if character == 34 && f.at_field_start
    then (record f { in_quotes = true; at_field_start = false }, false)
    else (record f { at_field_start = false }, false)

-- The loop runs a second time only behind a closing quote.
unfoldable pub special_flags : ℕ → Flags → Flags × Bool
unfolding unquoted_special
special_flags character f =
    if f.in_quotes
    then (if f.quote_pending
        then (if character == 34
            then (record f { quote_pending = false }, false)
            else unquoted_special character (record f { in_quotes = false; quote_pending = false }))
        else if character == 34
        then (record f { quote_pending = true }, false)
        else (f, false))
    else unquoted_special character f

-- `chunk[start:end]`
abbrev pub slice : Text → ℕ → ℕ → Text
slice chunk start end = take (end - start) (drop start chunk)

abbrev pub logical_record : Buffer → ℕ → LogicalCsvRecord
logical_record b record_chars = record {
  text = flatten b.parts;
  char_count = record_chars;
  truncated = b.truncated;
}

-- `if is_boundary:`
unfoldable pub yield_record : Limits → Text → ℕ → ℕ → Splitter → Splitter
yield_record limits chunk index character s =
    let b = append_piece limits (slice chunk s.segment_start (index + 1)) s.buffer in
    record {
      buffer = empty_buffer;
      record_chars = 0;
      flags = record_start;
      skip_lf_after_cr = character == 13;
      segment_start = index + 1;
      counted_start = index + 1;
      yielded = s.yielded ++ logical_record b s.record_chars ∷ [];
    }

-- The body of the loop over matches behind the test of `skip_lf_after_cr`, with that flag cleared.
unfoldable pub count_match : Limits → Text → ℕ → ℕ → Splitter → Splitter
unfolding special_flags after_normal yield_record
count_match limits chunk index character s =
    let normal_chars = index - s.counted_start in
    let (flags, is_boundary) = special_flags character (after_normal normal_chars s.flags) in
    let counted : Splitter = record s {
      record_chars = s.record_chars + normal_chars + 1;
      flags = flags;
      skip_lf_after_cr = false;
      counted_start = index + 1;
    } in
    if is_boundary then yield_record limits chunk index character counted else counted

unfoldable pub on_match : Limits → Text → ℕ → ℕ → Splitter → Splitter
unfolding count_match
on_match limits chunk index character s =
    if s.skip_lf_after_cr && (index == s.segment_start && character == 10)
    then record s { skip_lf_after_cr = false; segment_start = index + 1; counted_start = index + 1 }
    else count_match limits chunk index character s

unfoldable pub scan : Limits → Text → Text → ℕ → Splitter → Splitter
unfolding on_match is_special
scan limits chunk [] index s = s
scan limits chunk (c ∷ rest) index s =
    scan limits chunk rest (index + 1) (if is_special c then on_match limits chunk index c s else s)

-- What stands behind the last match of a chunk.
unfoldable pub trailing : Limits → Text → Splitter → Splitter
trailing limits chunk s =
    let trailing_chars = length chunk - s.counted_start in
    record s {
      buffer = append_piece limits (drop s.segment_start chunk) s.buffer;
      record_chars = s.record_chars + trailing_chars;
      flags = after_normal trailing_chars s.flags;
      skip_lf_after_cr = s.skip_lf_after_cr && trailing_chars == 0;
    }

unfoldable pub process_chunk : Limits → Text → Splitter → Splitter
unfolding scan trailing
process_chunk limits chunk s =
    trailing limits chunk
      (scan limits chunk chunk 0 (record s { segment_start = 0; counted_start = 0 }))

abbrev pub splitter_start : Splitter
splitter_start = record {
  buffer = empty_buffer;
  record_chars = 0;
  flags = record_start;
  skip_lf_after_cr = false;
  segment_start = 0;
  counted_start = 0;
  yielded = [];
}

-- The last record, if the text does not end with a line end.
unfoldable pub last_record : Splitter → List LogicalCsvRecord
last_record s =
    if s.record_chars == 0
    then s.yielded
    else s.yielded ++ logical_record s.buffer s.record_chars ∷ []

-- The reads of the text stream, up to the first that returns nothing.
unfoldable pub read_chunks : Limits → List Text → Splitter → List LogicalCsvRecord
unfolding last_record process_chunk
read_chunks limits [] s = last_record s
read_chunks limits ([] ∷ chunks) s = last_record s
read_chunks limits ((c ∷ chunk) ∷ chunks) s =
    read_chunks limits chunks (process_chunk limits (c ∷ chunk) s)

unfoldable pub iter_logical_records : Limits → List Text → List LogicalCsvRecord
unfolding read_chunks
iter_logical_records limits chunks = read_chunks limits chunks splitter_start
