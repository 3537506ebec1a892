-- ===== src/Worker.antt =====
-- app/worker.py: the shutdown handler and the loop of the worker. `stop_event.is_set()` at the k-th
-- test of the loop is an argument, since signals arrive at any time.
pub mod Loop
pub mod Tests
use service_of_import.Prelude.{
  ℕ, Text, zero, suc, ◌+◌, Bool, true, false, Option, none, some, List, [], ◌∷◌, if◌then◌else◌,
}
use service_of_import.Errors.{Exn, Result, ok, raised}
use service_of_import.Effects.{Eff}
use service_of_import.Apply.{ApplyEnv}
use service_of_import.Config.{Settings, csv_limits}
use service_of_import.Steps.{World, Outside}
use service_of_import.Validation.{Outcome, Download}
use service_of_import.Processing.{process_next_report}

-- The event, and the list of the signals received.
pub record Shutdown : Type 0 where
  pub stop_event : Bool
  pub received_signals : List ℕ

abbrev pub first_signal : ℕ → List ℕ → List ℕ
first_signal n [] = n ∷ []
first_signal n (m ∷ signals) = m ∷ signals

-- The function that `build_shutdown_handler` returns.
unfoldable pub request_shutdown : ℕ → Shutdown → Shutdown
request_shutdown signal_number s = record {
  stop_event = true;
  received_signals = first_signal signal_number s.received_signals;
}

module _ {W : Type 0} {A : Type 0} (process_cycle : Eff W A) where
  -- The `try` around a cycle: an exception is logged and dropped.
  abbrev pub cycle : W → W
  cycle w = (process_cycle w).1

  module _ (is_set : ℕ → Bool) where
    -- The loop from its k-th test on, with fuel for its rounds: none if the fuel runs out.
    unfoldable pub run_worker_loop : ℕ → ℕ → W → Option W
    run_worker_loop zero k w = none
    run_worker_loop (suc fuel) k w =
        let rest = run_worker_loop fuel (suc k) (cycle w) in if is_set k then some w else rest

-- `process_cycle` of `main`; the answers of the advisory lock are an argument.
unfoldable pub process_cycle :
    Outside
    → (ℕ → ApplyEnv)
    → Settings
    → (Text → Text → ℕ → Download)
    → (ℕ → Bool)
    → Eff World Outcome
unfolding csv_limits
process_cycle out env settings download acquired w =
    process_next_report out env settings.validation_batch_size (csv_limits settings) download
      (acquired w.calls) w
