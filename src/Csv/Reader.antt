-- ===== src/Csv/Reader.antt =====
-- Python's `csv.reader(io.StringIO(text, newline=""), delimiter=",", strict=True)`, as
-- `_parse_record` uses it: the state machine of CPython 3.12's `_csv`, with its field size limit.
use service_of_import.Prelude.{
  ℕ, Text, Bool, true, false, ◌||◌, not, List, [], ◌∷◌, ◌++◌, length, leb, ◌==◌, if◌then◌else◌,
}

pub data ReaderState : Type 0 where
  start_record start_field in_field in_quoted_field quote_in_quoted_field eat_crnl : ReaderState

-- A `csv.Error`: "field larger than field limit", or any other.
pub data ReaderError : Type 0 where
  field_limit bad_syntax : ReaderError

pub data Parsed {ℓ} (A : Type ℓ) : Type ℓ where
  parsed : A → Parsed A
  failed : ReaderError → Parsed A

abbrev pub and_then {ℓ κ} : {A : Type ℓ} {B : Type κ} → Parsed A → (A → Parsed B) → Parsed B
and_then (parsed a) f = f a
and_then (failed e) f = failed e

pub record Reader : Type 0 where
  pub state : ReaderState
  pub field : Text
  pub fields : List Text

abbrev pub reset : Reader
reset = record { state = start_record; field = []; fields = [] }

-- `parse_save_field`, and the state that follows.
abbrev pub save_field : ReaderState → Reader → Reader
save_field state r = record { state = state; field = []; fields = r.fields ++ r.field ∷ [] }

-- `parse_add_char`
unfoldable pub add_char : ℕ → ℕ → ReaderState → Reader → Parsed Reader
add_char limit c state r =
    if leb limit (length r.field)
    then failed field_limit
    else parsed (record r { state = state; field = r.field ++ c ∷ [] })

abbrev pub is_newline : ℕ → Bool
is_newline c = c == 10 || c == 13

-- `parse_process_char` by state; the delimiter is 44 and the quote 34.
unfoldable pub process_start_field : ℕ → ℕ → Reader → Parsed Reader
process_start_field limit c r =
    if is_newline c
    then parsed (save_field eat_crnl r)
    else if c == 34
    then parsed (record r { state = in_quoted_field })
    else if c == 44
    then parsed (save_field start_field r)
    else add_char limit c in_field r

unfoldable pub process_char : ℕ → ℕ → Reader → ReaderState → Parsed Reader
unfolding process_start_field
process_char limit c r start_record =
    if is_newline c then parsed (record r { state = eat_crnl }) else process_start_field limit c r
process_char limit c r start_field = process_start_field limit c r
process_char limit c r in_field =
    if is_newline c
    then parsed (save_field eat_crnl r)
    else if c == 44
    then parsed (save_field start_field r)
    else add_char limit c in_field r
process_char limit c r in_quoted_field =
    if c == 34
    then parsed (record r { state = quote_in_quoted_field })
    else add_char limit c in_quoted_field r
process_char limit c r quote_in_quoted_field =
    if c == 34
    then add_char limit c in_quoted_field r
    else if c == 44
    then parsed (save_field start_field r)
    else if is_newline c
    then parsed (save_field eat_crnl r)
    else failed bad_syntax
process_char limit c r eat_crnl =
    if is_newline c then parsed (record r { state = eat_crnl }) else failed bad_syntax

-- The end of a line of the input.
unfoldable pub process_eol : Reader → ReaderState → Reader
process_eol r start_record = r
process_eol r start_field = save_field start_record r
process_eol r in_field = save_field start_record r
process_eol r in_quoted_field = r
process_eol r quote_in_quoted_field = save_field start_record r
process_eol r eat_crnl = record r { state = start_record }

unfoldable pub process_line : ℕ → Text → Reader → Parsed Reader
unfolding process_char process_eol
process_line limit [] r = parsed (process_eol r r.state)
process_line limit (c ∷ line) r =
    and_then (process_char limit c r r.state) (process_line limit line)

-- What one `next(reader)` gives: a row and the lines behind it, StopIteration, or `csv.Error`.
pub data Outcome : Type 0 where
  row : List Text → List Text → Outcome
  stop : Outcome
  error : ReaderError → Outcome

abbrev pub at_record_start : ReaderState → Bool
at_record_start start_record = true
at_record_start _ = false

abbrev pub in_quotes : ReaderState → Bool
in_quotes in_quoted_field = true
in_quotes _ = false

unfoldable pub next_row : ℕ → List Text → Reader → Outcome
unfolding process_line
next_row limit [] r =
    if not (length r.field == 0) || in_quotes r.state then error bad_syntax else stop
next_row limit (line ∷ lines) r = elim (process_line limit line r) [
  | failed e ↦ error e
  | parsed r' ↦ if at_record_start r'.state then row r'.fields lines else next_row limit lines r'
]

-- The lines of a StringIO that was opened with newline="": they end with LF, CR LF or CR, kept.
-- `pending` is the line so far, and `after_cr` says that it ends with CR.
unfoldable pub split_lines : Text → Bool → Text → List Text
split_lines pending after_cr [] = if length pending == 0 then [] else pending ∷ []
split_lines pending after_cr (c ∷ s) =
    let ended = split_lines [] false s in
    let fresh = split_lines (c ∷ []) (c == 13) s in
    let longer = split_lines (pending ++ c ∷ []) (c == 13) s in
    if after_cr
    then (if c == 10 then (pending ++ c ∷ []) ∷ ended else pending ∷ fresh)
    else if c == 10
    then (pending ++ c ∷ []) ∷ ended
    else longer

abbrev pub lines_of : Text → List Text
lines_of s = split_lines [] false s
