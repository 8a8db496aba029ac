-- ===== src/Machine/Timer.antt =====
-- native/rom_probe.c, lines 1458 to 1483: the rounds of the timer are enough.
use ensoniq_eps_16_plus.Base.{ℕ, zero, suc, ◌+◌, ◌*◌, ◌^◌, ◌≤◌, ◌<◌, arith}
use ensoniq_eps_16_plus.Machine.Serial.{Serial, duart_timer_period_cycles, next_timeout}

-- A period has at least four cycles.
period-bound : (s : Serial) → 4 ≤ duart_timer_period_cycles s
unfolding duart_timer_period_cycles
period-bound s = ground arith

-- From a timeout that is due, the next one is after the cycle and at most a period after it.
next_timeout_lem :
    (left period cycle next : ℕ)
    → 1 ≤ period
    → next ≤ cycle
    → cycle < next + left * period
    → cycle + period < 2 ^ 64
    → (cycle < next_timeout left period cycle next)
      × (next_timeout left period cycle next ≤ cycle + period)
unfolding next_timeout
next_timeout_lem zero period cycle next positive due enough fits = absurd (omega arith)
next_timeout_lem (suc left) period cycle next positive due enough fits =
    ground (arith, next_timeout_lem left period cycle (next + period) positive)
