-- ===== src/Worker/Loop.antt =====
-- The worker ends at the first test that finds the event set, and runs a cycle before each other.
use service_of_import.Prelude.{
  ℕ, zero, suc, ◌+◌, ◌<◌, ◌≡◌, refl, ap, ◌∙◌, Bool, true, false, some, List, [], ◌∷◌, arith,
}
use mathlib.Core.List.{foldl}
use service_of_import.Effects.{Eff}
use service_of_import.Worker.{request_shutdown, cycle, run_worker_loop}

module _ {W A : Type 0} (process_cycle : Eff W A) where
  abbrev pub cycles : ℕ → W → W
  cycles zero w = w
  cycles (suc n) w = cycles n (cycle process_cycle w)

  module _ (is_set : ℕ → Bool) where
    loop_from :
        (n fuel k : ℕ) (w : W)
        → n < fuel
        → ((j : ℕ) → j < n → is_set (k + j) ≡ false)
        → is_set (k + n) ≡ true
        → run_worker_loop process_cycle is_set fuel k w ≡ some (cycles n w)
    unfolding run_worker_loop
    loop_from n zero k w enough before at = absurd (omega arith)
    loop_from zero (suc fuel) k w enough before at =
        let now : is_set k ≡ true = ap is_set (omega arith) ∙ at in rw now refl
    loop_from (suc n) (suc fuel) k w enough before at =
        let now : is_set k ≡ false = ap is_set (omega arith) ∙ before 0 (omega arith) in
        rw now (
          loop_from n fuel (suc k) (cycle process_cycle w) (omega arith)
            (λ j below. ap is_set (omega arith) ∙ before (suc j) (omega arith))
            (ap is_set (omega arith) ∙ at))

    -- When the n-th test of the stop event is the first to find it set, the loop ends there, and has
    -- run its cycle exactly n times, one after the other, whichever of them raised; any fuel above n
    -- is enough.
    pub run_worker_loop-cycles :
        (n fuel : ℕ) (w : W)
        → n < fuel
        → ((j : ℕ) → j < n → is_set j ≡ false)
        → is_set n ≡ true
        → run_worker_loop process_cycle is_set fuel 0 w ≡ some (cycles n w)
    run_worker_loop-cycles n fuel w enough before at =
        loop_from n fuel 0 w enough (λ j below. ap is_set (omega arith) ∙ before j below)
          (ap is_set (omega arith) ∙ at)

-- After any signals, the event is set, and the first signal is the only one kept.
pub request_shutdown-first :
    (n : ℕ) (signals : List ℕ)
    → foldl
        (λ s m. request_shutdown m s)
        (request_shutdown n (record { stop_event = false; received_signals = [] }))
        signals
      ≡ record { stop_event = true; received_signals = n ∷ [] }
unfolding request_shutdown
request_shutdown-first n [] = refl
request_shutdown-first n (m ∷ signals) = request_shutdown-first n signals
