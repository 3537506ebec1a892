-- ===== src/Csv/Quantity.antt =====
-- Python's `str.strip`, `re.fullmatch` of INTEGER_PATTERN and `int` on text, as `_validate_row` uses
-- them. CPython 3.12 refuses to convert more than 4300 digits (`sys.get_int_max_str_digits`).
use service_of_import.Prelude.{
  ℕ, ◌+◌, ◌-◌, ◌*◌, Text, Bool, true, false, ◌&&◌, ◌||◌, not, [], ◌∷◌, leb, ltb, ◌==◌, length,
  if◌then◌else◌,
}
use service_of_import.Errors.{Result, ok, raised, value_error}
use mathlib.Core.List.{reverse}

-- `str.isspace` of one code point.
unfoldable pub is_space : ℕ → Bool
is_space c =
    (leb 9 c && leb c 13)
    || (leb 28 c && leb c 32)
    || c == 133
    || c == 160
    || c == 5760
    || (leb 8192 c && leb c 8202)
    || c == 8232
    || c == 8233
    || c == 8239
    || c == 8287
    || c == 12288

unfoldable pub lstrip : Text → Text
lstrip [] = []
lstrip (c ∷ s) = if is_space c then lstrip s else c ∷ s

unfoldable pub strip : Text → Text
unfolding lstrip
strip s = reverse (lstrip (reverse (lstrip s)))

unfoldable pub is_digit : ℕ → Bool
is_digit c = leb 48 c && leb c 57

unfoldable pub all_digits : Text → Bool
all_digits [] = true
all_digits (c ∷ s) = is_digit c && all_digits s

-- What follows an optional sign.
unfoldable pub unsigned : Text → Text
unsigned [] = []
unsigned (c ∷ s) = if c == 43 || c == 45 then s else c ∷ s

-- `INTEGER_PATTERN.fullmatch`
unfoldable pub is_integer : Text → Bool
is_integer s = all_digits (unsigned s) && not (length (unsigned s) == 0)

-- `negsuc n` is -(n + 1).
pub data ℤ : Type 0 where
  pos : ℕ → ℤ
  negsuc : ℕ → ℤ

abbrev pub negate : ℕ → ℤ
negate n = if n == 0 then pos 0 else negsuc (n - 1)

unfoldable pub decimal_value : ℕ → Text → ℕ
decimal_value acc [] = acc
decimal_value acc (c ∷ s) = decimal_value (acc * 10 + (c - 48)) s

abbrev pub int_max_str_digits : ℕ
int_max_str_digits = 4300

abbrev is_minus : Text → Bool
is_minus [] = false
is_minus (c ∷ s) = c == 45

-- `int(s)` of a text that matches INTEGER_PATTERN.
unfoldable pub int_of : Text → Result ℤ
int_of s =
    let n = decimal_value 0 (unsigned s) in
    if ltb int_max_str_digits (length (unsigned s))
    then raised value_error
    else ok (if is_minus s then negate n else pos n)
