-- ===== src/Csv/RawData.antt =====
-- `_bounded_raw_data` and `_bounded_raw_text`: what of a rejected record is stored with an issue.
pub mod Bounds
use service_of_import.Prelude.{
  ℕ, ◌-◌, ◌+◌, min, Text, codes, Bool, true, false, ◌||◌, not, Option, some, List, [], ◌∷◌, ◌++◌,
  length, take, leb, ltb, ◌==◌, if◌then◌else◌,
}
use service_of_import.Csv.Issue.{RawDict, RawValue, Scalar, str, int, flag, scalar, list, set_key}

unfoldable pub truncation_marker : Text
unfolding codes
truncation_marker = codes "...[truncated]"

pub record Bounded : Type 0 where
  pub text : Text
  pub used : ℕ
  pub was_truncated : Bool

unfoldable pub bounded_raw_text : Text → ℕ → ℕ → Bounded
bounded_raw_text value value_limit remaining =
    let allowed = min value_limit remaining in
    let shortened = take (allowed - length truncation_marker) value ++ truncation_marker in
    let cut = take allowed value in
    if leb (length value) allowed
    then record { text = value; used = length value; was_truncated = false }
    else if leb allowed 0
    then record { text = []; used = 0; was_truncated = not (length value == 0) }
    else if ltb (length truncation_marker) allowed
    then record { text = shortened; used = length shortened; was_truncated = true }
    else record { text = cut; used = length cut; was_truncated = true }

-- The loop over a list value: the values kept so far, the characters left, the flag.
pub record ListPass : Type 0 where
  pub bounded_values : List Scalar
  pub remaining : ℕ
  pub truncated : Bool

unfoldable pub bounded_items : ℕ → List Scalar → ListPass → ListPass
bounded_items value_limit [] p = p
bounded_items value_limit (str item ∷ items) p =
    let b = bounded_raw_text item value_limit p.remaining in
    let rest = bounded_items value_limit items (record {
      bounded_values = p.bounded_values ++ str b.text ∷ [];
      remaining = p.remaining - b.used;
      truncated = p.truncated || b.was_truncated;
    }) in
    if p.remaining == 0 then record p { truncated = true } else rest
bounded_items value_limit (int n ∷ items) p =
    bounded_items value_limit items (record p { bounded_values = p.bounded_values ++ int n ∷ [] })
bounded_items value_limit (flag b ∷ items) p =
    bounded_items value_limit items (record p { bounded_values = p.bounded_values ++ flag b ∷ [] })

-- The loop over the dict: the result so far, the characters left, the flag.
pub record DictPass : Type 0 where
  pub result : RawDict
  pub remaining : ℕ
  pub truncated : Bool

unfoldable pub bounded_value : ℕ → Text → RawValue → DictPass → DictPass
bounded_value value_limit key (scalar (str value)) p =
    let b = bounded_raw_text value value_limit p.remaining in
    record {
      result = set_key p.result key (scalar (str b.text));
      remaining = p.remaining - b.used;
      truncated = p.truncated || b.was_truncated;
    }
bounded_value value_limit key (list value) p =
    let pass =
      bounded_items value_limit value
        (record { bounded_values = []; remaining = p.remaining; truncated = p.truncated }) in
    record {
      result = set_key p.result key (list pass.bounded_values);
      remaining = pass.remaining;
      truncated = pass.truncated || not (length pass.bounded_values == length value);
    }
bounded_value value_limit key value p = record p { result = set_key p.result key value }

unfoldable pub bounded_entries : ℕ → RawDict → DictPass → DictPass
bounded_entries value_limit [] p = p
bounded_entries value_limit ((key, value) ∷ d) p =
    bounded_entries value_limit d (bounded_value value_limit key value p)

unfoldable pub truncated_key : Text
truncated_key = codes "_truncated"

unfoldable pub bounded_raw_data : RawDict → ℕ → ℕ → RawDict
unfolding bounded_entries
bounded_raw_data raw_data value_limit total_limit =
    let p =
      bounded_entries value_limit raw_data
        (record { result = []; remaining = total_limit; truncated = false }) in
    if p.truncated then set_key p.result truncated_key (scalar (flag true)) else p.result
