-- ===== src/Config/Allowed.antt =====
-- Which settings are accepted, and what that means for the validation.
use service_of_import.Prelude.{◌*◌, ltb, ◌≤◌, ◌≡◌, true, false, Bool-cases, inl, inr, arith}
use service_of_import.Errors.{ok}
use service_of_import.Csv.Stream.{bad_limits}
use service_of_import.Config.{
  Settings, fields_allowed, validate_csv_limits, load_settings, csv_limits,
}

-- What the rest of the program relies on.
pub record IsAllowed (s : Settings) : Type 0 where
  pub batch : (1 ≤ s.validation_batch_size) × (s.validation_batch_size ≤ 10000)
  pub field : (1024 ≤ s.csv_max_field_chars) × (s.csv_max_field_chars ≤ 4194304)
  pub whole_record :
      (4096 ≤ s.csv_max_record_chars)
      × (s.csv_max_record_chars ≤ 16777216)
      × (s.csv_max_field_chars ≤ s.csv_max_record_chars)
  pub raw_value : (64 ≤ s.csv_error_raw_value_chars) × (s.csv_error_raw_value_chars ≤ 16384)
  pub raw_total :
      (4 * s.csv_error_raw_value_chars ≤ s.csv_error_raw_total_chars)
      × (s.csv_error_raw_total_chars ≤ 65536)

fields_allowed-ranges :
    (s : Settings)
    → (fields_allowed s ≡ true)
    → (1 ≤ s.validation_batch_size)
      × (s.validation_batch_size ≤ 10000)
      × (1024 ≤ s.csv_max_field_chars)
      × (s.csv_max_field_chars ≤ 4194304)
      × (4096 ≤ s.csv_max_record_chars)
      × (s.csv_max_record_chars ≤ 16777216)
      × (64 ≤ s.csv_error_raw_value_chars)
      × (s.csv_error_raw_value_chars ≤ 16384)
      × (s.csv_error_raw_total_chars ≤ 65536)
unfolding fields_allowed
fields_allowed-ranges s h = (
  ground arith,
  ground arith,
  ground arith,
  ground arith,
  ground arith,
  ground arith,
  ground arith,
  ground arith,
  ground arith,
)

accepted-IsAllowed : (s : Settings) → load_settings s ≡ ok s → IsAllowed s
unfolding load_settings validate_csv_limits
accepted-IsAllowed s h = elim (Bool-cases (fields_allowed s)) [
  | inr refused ↦ absurd (ground arith)
  | inl allowed ↦
      let (b1, b2, f1, f2, r1, r2, v1, v2, t) = fields_allowed-ranges s allowed in
      elim (Bool-cases (ltb s.csv_max_record_chars s.csv_max_field_chars)) [
        | inl short ↦ absurd (ground arith)
        | inr long ↦
            elim (Bool-cases (ltb s.csv_error_raw_total_chars (4 * s.csv_error_raw_value_chars))) [
              | inl small ↦ absurd (ground arith)
              | inr large ↦ record {
                batch = (b1, b2);
                field = (f1, f2);
                whole_record = (r1, r2, ground (arith, long));
                raw_value = (v1, v2);
                raw_total = (ground (arith, large), t);
              }
            ]
      ]
]

-- With accepted settings, the validation does not refuse its limits.
pub load_settings-bad_limits :
    (s : Settings) → load_settings s ≡ ok s → bad_limits (csv_limits s) ≡ false
unfolding bad_limits csv_limits
load_settings-bad_limits s h =
    let a = accepted-IsAllowed s h in
    ground (arith, a.field.0, a.whole_record.2, a.raw_value.0, a.raw_total.0)
