-- ===== src/Systick/Tests.antt =====
-- The delay on concrete readings of the clock.
use roip.Prelude.{ℕ, ◌+◌, ◌≤◌, ◌≡◌, some, [], ◌∷◌, arith}
use roip.Systick.{ms_delay}
use roip.Systick.Delay.{at, delay_waits}

delay_waits_example :
    (t' : ℕ) × (ms_delay 3 (0 ∷ 1 ∷ 1 ∷ 0 ∷ 2 ∷ []) (at 100) ≡ some (at t')) × (100 + 3 ≤ t')
delay_waits_example =
    delay_waits 3 100 (0 ∷ 1 ∷ 1 ∷ 0 ∷ 2 ∷ []) (omega arith) (omega arith) (omega arith)
