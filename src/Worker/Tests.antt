-- ===== src/Worker/Tests.antt =====
-- Runs of the worker, and settings.
use service_of_import.Prelude.{◌≡◌, refl, arith, true, false, some, leb}
use service_of_import.Errors.{ok}
use service_of_import.Csv.Stream.{bad_limits}
use service_of_import.Config.{
  default_settings, load_settings, fields_allowed, validate_csv_limits, csv_limits,
}
use service_of_import.Config.Allowed.{load_settings-bad_limits}
use service_of_import.Effects.{Eff}
use service_of_import.Steps.{World}
use service_of_import.Validation.{Outcome}
use service_of_import.Processing.Tests.{start, outside, env, download}
use service_of_import.Worker.{run_worker_loop, process_cycle}
use service_of_import.Worker.Loop.{cycles, run_worker_loop-cycles}

load_default : load_settings default_settings ≡ ok default_settings
unfolding load_settings fields_allowed validate_csv_limits default_settings
load_default = refl

load_settings-bad_limits_example : bad_limits (csv_limits default_settings) ≡ false
load_settings-bad_limits_example = load_settings-bad_limits default_settings load_default

abbrev worker : Eff World Outcome
worker = process_cycle outside env default_settings download (λ _. true)

run_worker_loop-cycles_example :
    run_worker_loop worker (λ k. leb 2 k) 3 0 start ≡ some (cycles worker 2 start)
run_worker_loop-cycles_example =
    run_worker_loop-cycles worker (λ k. leb 2 k) 2 3 start (omega arith) (λ j below. ground arith)
      refl
