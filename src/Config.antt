-- ===== src/Config.antt =====
-- app/config.py: the settings that are bounded, with the bounds that pydantic tests and the validator
-- of the model. A setting that is negative, or no number, fails its bounds too.
pub mod Allowed
use service_of_import.Prelude.{ℕ, ◌*◌, Bool, ◌&&◌, leb, ltb, if◌then◌else◌}
use service_of_import.Errors.{Result, ok, raised, value_error}
use service_of_import.Csv.Parse.{CsvLimits}

-- A finite float that is not negative: its value is `mantissa` divided by 2 ^ `shift`.
pub record Seconds : Type 0 where
  pub mantissa : ℕ
  pub shift : ℕ

pub record Settings : Type 0 where
  pub worker_poll_interval_seconds : Seconds
  pub validation_batch_size : ℕ
  pub csv_max_field_chars : ℕ
  pub csv_max_record_chars : ℕ
  pub csv_error_raw_value_chars : ℕ
  pub csv_error_raw_total_chars : ℕ

unfoldable pub default_settings : Settings
default_settings = record {
  worker_poll_interval_seconds = record { mantissa = 2; shift = 0 };
  validation_batch_size = 500;
  csv_max_field_chars = 1048576;
  csv_max_record_chars = 4194304;
  csv_error_raw_value_chars = 1024;
  csv_error_raw_total_chars = 4096;
}

-- `Field(ge=low, le=high)`; the poll interval has `Field(gt=0)`.
abbrev pub in_range : ℕ → ℕ → ℕ → Bool
in_range low high n = leb low n && leb n high

unfoldable pub fields_allowed : Settings → Bool
fields_allowed s =
    ltb 0 s.worker_poll_interval_seconds.mantissa
    && (in_range 1 10000 s.validation_batch_size
        && (in_range 1024 4194304 s.csv_max_field_chars
            && (in_range 4096 16777216 s.csv_max_record_chars
                && (in_range 64 16384 s.csv_error_raw_value_chars
                    && in_range 256 65536 s.csv_error_raw_total_chars))))

unfoldable pub validate_csv_limits : Settings → Result Settings
validate_csv_limits s =
    if ltb s.csv_max_record_chars s.csv_max_field_chars
    then raised value_error
    else (if ltb s.csv_error_raw_total_chars (4 * s.csv_error_raw_value_chars)
        then raised value_error
        else ok s)

-- `Settings()`: a failed test ends in the ValidationError of pydantic, a ValueError.
unfoldable pub load_settings : Settings → Result Settings
unfolding fields_allowed validate_csv_limits
load_settings s = if fields_allowed s then validate_csv_limits s else raised value_error

-- The limits that app/worker.py passes to the validation.
unfoldable pub csv_limits : Settings → CsvLimits
csv_limits s = record {
  max_field_chars = s.csv_max_field_chars;
  max_record_chars = s.csv_max_record_chars;
  error_raw_value_chars = s.csv_error_raw_value_chars;
  error_raw_total_chars = s.csv_error_raw_total_chars;
}
