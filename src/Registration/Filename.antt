-- ===== src/Registration/Filename.antt =====
-- app/services/reports.py: `normalize_original_filename`, on code points.
use service_of_import.Prelude.{
  ℕ, ◌≤◌, ◌<◌, Text, codes, text_eq, text_eq_iff, ◌≡◌, ◌≢◌, refl, ap, Bool, true, false, ◌&&◌, not,
  Option, none, some, List, [], ◌∷◌, ◌==◌, leb, map, filter, take, take_all, length, length-take,
  All, All-filter, All-take, filter-All, filter-All_eq, All-map, All-both, if◌then◌else◌, arith,
  Bool-cases, inl, inr,
}

-- `replace("\\", "/")`
unfoldable pub forward_slashes : Text → Text
forward_slashes s = map (λ c. if c == 92 then 47 else c) s

-- A character in front of a text that is split at "/".
abbrev add_char : ℕ → List Text → List Text
add_char c [] = []
add_char c (part ∷ parts) = if c == 47 then [] ∷ part ∷ parts else (c ∷ part) ∷ parts

-- `split("/")`
unfoldable pub split : Text → List Text
split [] = [] ∷ []
split (c ∷ s) = add_char c (split s)

-- The parts of a path that pathlib keeps.
abbrev pub is_name : Text → Bool
is_name [] = false
is_name (c ∷ s) = not (text_eq (c ∷ s) (46 ∷ []))

unfoldable pub last : Text → List Text → Text
last s [] = s
last s (t ∷ ts) = last t ts

-- `PurePosixPath(s).name`
unfoldable pub posix_name : Text → Text
posix_name s = last [] (filter is_name (split s))

-- `" " <= character != "\x7f"`
abbrev pub is_printable : ℕ → Bool
is_printable c = leb 32 c && not (c == 127)

abbrev or_default : Text → Text
or_default [] = codes "original.csv"
or_default (c ∷ s) = c ∷ s

abbrev given : Option Text → Text
given none = []
given (some s) = s

unfoldable pub normalize_original_filename : Option Text → Text
unfolding forward_slashes split last posix_name
normalize_original_filename filename =
    or_default (take 255 (filter is_printable (posix_name (forward_slashes (given filename)))))

-- No separator of any system.
abbrev Plain : ℕ → Type 0
Plain c = (c ≢ 47) × (c ≢ 92)

abbrev pub IsSafe : Text → Type 0
IsSafe s =
    (0 < length s) × (length s ≤ 255) × All (λ c. (32 ≤ c) × (c ≢ 127) × (c ≢ 47) × (c ≢ 92)) s

forward_slashes-All : (s : Text) → All (λ c. c ≢ 92) (forward_slashes s)
unfolding forward_slashes
forward_slashes-All [] = tt
forward_slashes-All (c ∷ s) = (
  elim (Bool-cases (c == 92)) [ inl e ↦ rw e (omega arith) | inr e ↦ rw e (ground arith) ],
  forward_slashes-All s,
)

add_char-All :
    (c : ℕ) (parts : List Text)
    → c ≢ 92
    → All (All Plain) parts
    → All (All Plain) (add_char c parts)
add_char-All c [] h k = tt
add_char-All c (part ∷ parts) h k = elim (Bool-cases (c == 47)) [
  | inl e ↦ rw e (tt, k)
  | inr e ↦ rw e (((ground arith, h), k.0), k.1)
]

split-All : (s : Text) → All (λ c. c ≢ 92) s → All (All Plain) (split s)
unfolding split
split-All [] h = (tt, tt)
split-All (c ∷ s) h = add_char-All c (split s) h.0 (split-All s h.1)

last-All : (P : Text → Type 0) (s : Text) (ts : List Text) → P s → All P ts → P (last s ts)
unfolding last
last-All P s [] h k = h
last-All P s (t ∷ ts) h k = last-All P t ts k.0 k.1

or_default-IsSafe :
    (s : Text)
    → length s ≤ 255
    → All (λ c. (32 ≤ c) × (c ≢ 127) × (c ≢ 47) × (c ≢ 92)) s
    → IsSafe (or_default s)
unfolding codes
or_default-IsSafe [] h k = ground arith
or_default-IsSafe (c ∷ s) h k = (omega arith, h, k)

-- Whatever a client sends as the name of its file, the name that is kept has between 1 and 255
-- characters, none of them a slash, a backslash, a control character below the space, or DEL.
pub normalize_original_filename-IsSafe :
    (filename : Option Text) → IsSafe (normalize_original_filename filename)
unfolding normalize_original_filename
normalize_original_filename-IsSafe filename =
    let name = posix_name (forward_slashes (given filename)) in
    let printed = filter is_printable name in
    let plain : All Plain name =
      last-All (All Plain) [] (filter is_name (split (forward_slashes (given filename)))) tt (
        All-filter (All Plain) is_name (split (forward_slashes (given filename)))
          (split-All (forward_slashes (given filename)) (forward_slashes-All (given filename)))) in
    let safe : All (λ c. (32 ≤ c) × (c ≢ 127) × (c ≢ 47) × (c ≢ 92)) printed =
      All-map (λ c. (is_printable c ≡ true) × Plain c)
        (λ c. (32 ≤ c) × (c ≢ 127) × (c ≢ 47) × (c ≢ 92)) printed
        (λ c h. (ground (arith, h.0), ground (arith, h.0), h.1.0, h.1.1))
        (All-both (λ c. is_printable c ≡ true) Plain printed (filter-All is_printable name)
          (All-filter Plain is_printable name plain)) in
    or_default-IsSafe (take 255 printed) (omega (arith, length-take 255 printed))
      (All-take (λ c. (32 ≤ c) × (c ≢ 127) × (c ≢ 47) × (c ≢ 92)) 255 printed safe)

or_default_some : (s : Text) → 0 < length s → or_default s ≡ s
or_default_some [] h = absurd (omega arith)
or_default_some (c ∷ s) h = refl

forward_slashes-Plain : (s : Text) → All Plain s → forward_slashes s ≡ s
unfolding forward_slashes
forward_slashes-Plain [] h = refl
forward_slashes-Plain (c ∷ s) h =
    let e : (c == 92) ≡ false = ground (arith, h.0.1) in
    rw e (ap (λ l. c ∷ l) (forward_slashes-Plain s h.1))

split-Plain : (s : Text) → All Plain s → split s ≡ s ∷ []
unfolding split
split-Plain [] h = refl
split-Plain (c ∷ s) h =
    let e : (c == 47) ≡ false = ground (arith, h.0.0) in rw (split-Plain s h.1, e) refl

is_name_some : (s : Text) → 0 < length s → s ≢ 46 ∷ [] → is_name s ≡ true
is_name_some [] h k = absurd (omega arith)
is_name_some (c ∷ s) h k = elim (Bool-cases (text_eq (c ∷ s) (46 ∷ []))) [
  | inl e ↦ absurd (k ((text_eq_iff (c ∷ s) (46 ∷ [])).0 e))
  | inr e ↦ rw e refl
]

-- A name that is safe already is kept, but for the single dot, which names no file.
pub normalize_original_filename_safe :
    (s : Text) → IsSafe s → s ≢ 46 ∷ [] → normalize_original_filename (some s) ≡ s
unfolding normalize_original_filename posix_name filter last
normalize_original_filename_safe s h k =
    let plain : All Plain s =
      All-map (λ c. (32 ≤ c) × (c ≢ 127) × (c ≢ 47) × (c ≢ 92)) Plain s (λ c h. (h.2, h.3)) h.2 in
    let printable : All (λ c. is_printable c ≡ true) s =
      All-map (λ c. (32 ≤ c) × (c ≢ 127) × (c ≢ 47) × (c ≢ 92)) (λ c. is_printable c ≡ true) s
        (λ c h. ground (arith, h.0, h.1)) h.2 in
    rw (forward_slashes-Plain s plain, split-Plain s plain, is_name_some s h.0 k)
      (rw (filter-All_eq is_printable s printable, take_all 255 s h.1) (or_default_some s h.0))
