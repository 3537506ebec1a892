-- ===== src/Csv/RawData/Bounds.antt =====
-- The characters that `_bounded_raw_data` keeps of a rejected record.
use service_of_import.Prelude.{
  ◌||◌, ◌==◌, ℕ, ◌+◌, ◌-◌, ◌≤◌, min, Text, ◌≡◌, refl, true, false, List, [], ◌∷◌, ◌++◌, length,
  take, length-append, length-take, arith, ltb, leb, Bool-cases, inl, inr,
}
use service_of_import.Csv.Issue.{RawDict, RawValue, Scalar, str, int, flag, scalar, list, set_key}
use service_of_import.Csv.RawData.{
  bounded_raw_text, Bounded, ListPass, bounded_items, DictPass, bounded_value, bounded_entries,
  bounded_raw_data, truncation_marker, truncated_key,
}

-- What one text takes up is what is counted, and is within both limits.
pub record IsBounded (value_limit remaining : ℕ) (b : Bounded) : Type 0 where
  pub counted : b.used ≡ length b.text
  pub within_value : b.used ≤ value_limit
  pub within_rest : b.used ≤ remaining

pub bounded_raw_text-IsBounded :
    (value : Text) (l r : ℕ) → IsBounded l r (bounded_raw_text value l r)
unfolding bounded_raw_text
bounded_raw_text-IsBounded value l r = elim (Bool-cases (leb (length value) (min l r))) [
  | inl fits ↦
      rw fits (record { counted = refl; within_value = ground arith; within_rest = ground arith })
  | inr long ↦ elim (Bool-cases (leb (min l r) 0)) [
    | inl spent ↦
        rw (long, spent)
          (record { counted = refl; within_value = omega arith; within_rest = omega arith })
    | inr left ↦ elim (Bool-cases (ltb (length truncation_marker) (min l r))) [
      | inl room ↦
          rw (long, left, room)
            (within _ (
              ground (
                arith,
                length-append (take (min l r - length truncation_marker) value) truncation_marker,
                length-take (min l r - length truncation_marker) value,
              )))
      | inr tight ↦ rw (long, left, tight) (within _ (omega (arith, length-take (min l r) value)))
    ]
  ]
]
  where
    within :
        (t : Text)
        → length t ≤ min l r
        → IsBounded l r (record { text = t; used = length t; was_truncated = true })
    within t h = record { counted = refl; within_value = omega arith; within_rest = omega arith }

-- The characters of the texts in a value.
unfoldable pub scalar_chars : Scalar → ℕ
scalar_chars (str t) = length t
scalar_chars (int n) = 0
scalar_chars (flag b) = 0

unfoldable pub scalars_chars : List Scalar → ℕ
scalars_chars [] = 0
scalars_chars (v ∷ vs) = scalar_chars v + scalars_chars vs

unfoldable pub value_chars : RawValue → ℕ
unfolding scalar_chars scalars_chars
value_chars (scalar v) = scalar_chars v
value_chars (list vs) = scalars_chars vs

unfoldable pub dict_chars : RawDict → ℕ
unfolding value_chars
dict_chars [] = 0
dict_chars ((k, v) ∷ d) = value_chars v + dict_chars d

scalars_chars-append :
    (vs ws : List Scalar) → scalars_chars (vs ++ ws) ≡ scalars_chars vs + scalars_chars ws
unfolding scalars_chars
scalars_chars-append [] ws = omega arith
scalars_chars-append (v ∷ vs) ws = omega (arith, scalars_chars-append vs ws)

dict_chars-set_key :
    (d : RawDict) (k : Text) (v : RawValue)
    → dict_chars (set_key d k v) ≤ dict_chars d + value_chars v
unfolding dict_chars set_key
dict_chars-set_key [] k v = omega arith
dict_chars-set_key ((j, w) ∷ d) k v = ground (arith, dict_chars-set_key d k v)

-- The loop over a list never keeps more than the characters that were left.
bounded_items-le :
    (l : ℕ) (items : List Scalar) (p : ListPass)
    → scalars_chars (bounded_items l items p).bounded_values + (bounded_items l items p).remaining
      ≤ scalars_chars p.bounded_values + p.remaining
unfolding bounded_items scalars_chars scalar_chars
bounded_items-le l [] p = omega arith
bounded_items-le l (str item ∷ items) p = elim (Bool-cases (p.remaining == 0)) [
  | inl spent ↦ rw spent (omega arith)
  | inr left ↦ rw left (
      let b = bounded_raw_text item l p.remaining in
      let h = bounded_raw_text-IsBounded item l p.remaining in
      omega (
        arith,
        h.counted,
        h.within_rest,
        scalars_chars-append p.bounded_values (str b.text ∷ []),
        bounded_items-le l items (record {
          bounded_values = p.bounded_values ++ str b.text ∷ [];
          remaining = p.remaining - b.used;
          truncated = p.truncated || b.was_truncated;
        }),
      ))
]
bounded_items-le l (int n ∷ items) p = omega (
  arith,
  scalars_chars-append p.bounded_values (int n ∷ []),
  bounded_items-le l items (record p { bounded_values = p.bounded_values ++ int n ∷ [] }),
)
bounded_items-le l (flag n ∷ items) p = omega (
  arith,
  scalars_chars-append p.bounded_values (flag n ∷ []),
  bounded_items-le l items (record p { bounded_values = p.bounded_values ++ flag n ∷ [] }),
)

bounded_value-le :
    (l : ℕ) (k : Text) (v : RawValue) (p : DictPass)
    → dict_chars (bounded_value l k v p).result + (bounded_value l k v p).remaining
      ≤ dict_chars p.result + p.remaining
unfolding bounded_value value_chars scalars_chars scalar_chars
bounded_value-le l k (scalar (str t)) p =
    let b = bounded_raw_text t l p.remaining in
    let h = bounded_raw_text-IsBounded t l p.remaining in
    omega (arith, h.counted, h.within_rest, dict_chars-set_key p.result k (scalar (str b.text)))
bounded_value-le l k (scalar (int n)) p =
    omega (arith, dict_chars-set_key p.result k (scalar (int n)))
bounded_value-le l k (scalar (flag n)) p =
    omega (arith, dict_chars-set_key p.result k (scalar (flag n)))
bounded_value-le l k (list vs) p =
    let start : ListPass = record {
      bounded_values = [];
      remaining = p.remaining;
      truncated = p.truncated;
    } in
    omega (
      arith,
      bounded_items-le l vs start,
      dict_chars-set_key p.result k (list (bounded_items l vs start).bounded_values),
    )

bounded_entries-le :
    (l : ℕ) (d : RawDict) (p : DictPass)
    → dict_chars (bounded_entries l d p).result + (bounded_entries l d p).remaining
      ≤ dict_chars p.result + p.remaining
unfolding bounded_entries
bounded_entries-le l [] p = omega arith
bounded_entries-le l ((k, v) ∷ d) p =
    omega (arith, bounded_value-le l k v p, bounded_entries-le l d (bounded_value l k v p))

-- The texts that are stored with an issue have at most `total_limit` characters together.
pub bounded_raw_data-le :
    (raw_data : RawDict) (value_limit total_limit : ℕ)
    → dict_chars (bounded_raw_data raw_data value_limit total_limit) ≤ total_limit
unfolding bounded_raw_data
bounded_raw_data-le raw_data value_limit total_limit =
    let start : DictPass = record { result = []; remaining = total_limit; truncated = false } in
    let p = bounded_entries value_limit raw_data start in
    let le : dict_chars p.result + p.remaining ≤ total_limit =
      unfold dict_chars in omega (arith, bounded_entries-le value_limit raw_data start) in
    let flagged = dict_chars-set_key p.result truncated_key (scalar (flag true)) in
    elim (Bool-cases p.truncated) [
      | inl e ↦ rw e (unfold value_chars scalar_chars in omega (arith, flagged))
      | inr e ↦ rw e (omega arith)
    ]
