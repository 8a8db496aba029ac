-- ===== src/Kpc/Device/Clocks.antt =====
-- What the timer and the clocks of the serial ports do over many cycles.
use ensoniq_eps_16_plus.Base.{
  ℕ, zero, suc, ◌+◌, ◌-◌, ◌%◌, ◌^◌, ◌≤◌, ◌<◌, ◌≡◌, ◌⊎◌, inl, inr, refl, arith, ap, ◌∙◌, sym,
}
use ensoniq_eps_16_plus.Kpc.Device.Board.{Board}
use ensoniq_eps_16_plus.Kpc.Device.Timers.{
  timer_tick, timer_set_compare_flags, spi_tick, sci_next, sci_loop, sci_tick,
}
use ensoniq_eps_16_plus.Kpc.Device.Step.{catch_up}

-- From a counter below 65536, n cycles advance the free-running counter by n modulo 65536.
timer_counter-timer_tick :
    (n : ℕ) (d : Board)
    → d.timer_counter < 2 ^ 16
    → (timer_tick n d).timer_counter ≡ (d.timer_counter + n) % 2 ^ 16
unfolding timer_tick
timer_counter-timer_tick zero d h = omega arith
timer_counter-timer_tick (suc n) d h =
    let d1 : Board = record d { timer_counter = (d.timer_counter + 1) % 2 ^ 16 } in
    omega (
      arith,
      timer_counter-timer_tick n (timer_set_compare_flags d1) (omega (arith, counter_kept d1)),
      counter_kept d1,
    )
  where
    counter_kept : (e : Board) → (timer_set_compare_flags e).timer_counter ≡ e.timer_counter
    counter_kept e = unfold timer_set_compare_flags in ground arith

-- The fuel of the `while` loop in `sci_tick` never ends it: any fuel above the cycles gives the same.
sci_loop_fuel : (f g n : ℕ) (d : Board) → n < f → n < g → sci_loop f n d ≡ sci_loop g n d
unfolding sci_loop
sci_loop_fuel zero g n d p q = absurd (omega arith)
sci_loop_fuel (suc f) zero n d p q = absurd (omega arith)
sci_loop_fuel (suc f) (suc g) n d p q =
    ground (arith, sci_loop_fuel f g (n - d.sci_tx_cycles_remaining) (sci_next d))

sci_next_same :
    (k : ℕ) (d : Board) → sci_next (record d { sci_tx_cycles_remaining = k }) ≡ sci_next d
unfolding sci_next
sci_next_same k d = refl

-- The three ways that a round of the loop goes.
sci_cases :
    (left n : ℕ) → ((left ≡ 0) ⊎ (n ≡ 0)) ⊎ (((n < left) × (0 < n)) ⊎ ((left ≤ n) × (0 < left)))
sci_cases left n = ground arith

sci_stop :
    (f n : ℕ) (d : Board) → (d.sci_tx_cycles_remaining ≡ 0) ⊎ (n ≡ 0) → sci_loop (suc f) n d ≡ d
unfolding sci_loop
sci_stop f n d (inl e) = ground arith
sci_stop f n d (inr e) = ground arith

sci_wait :
    (f n : ℕ) (d : Board)
    → 0 < n
    → n < d.sci_tx_cycles_remaining
    → sci_loop (suc f) n d ≡ record d { sci_tx_cycles_remaining = d.sci_tx_cycles_remaining - n }
unfolding sci_loop
sci_wait f n d p q = ground arith

sci_round :
    (f n : ℕ) (d : Board)
    → 0 < d.sci_tx_cycles_remaining
    → d.sci_tx_cycles_remaining ≤ n
    → sci_loop (suc f) n d ≡ sci_loop f (n - d.sci_tx_cycles_remaining) (sci_next d)
unfolding sci_loop
sci_round f n d p q = ground arith

regroup : (m n left : ℕ) → left ≤ m → m + n - left ≡ m - left + n
regroup m n left h = omega arith

sci_loop_fuel_or :
    (f g m n : ℕ) (d : Board)
    → (d.sci_tx_cycles_remaining ≡ 0) ⊎ (m ≡ 0)
    → m + n < suc f
    → n < suc g
    → sci_loop (suc f) (m + n) d ≡ sci_loop (suc g) n d
sci_loop_fuel_or f g m n d (inl e) q r = sci_stop f (m + n) d (inl e) ∙ sym (sci_stop g n d (inl e))
sci_loop_fuel_or f g m n d (inr e) q r =
    ap (λ (t : ℕ). sci_loop (suc f) t d) (omega arith)
    ∙ sci_loop_fuel (suc f) (suc g) n d (omega arith) r

-- A wait of `m` cycles, then `n` more.
sci_waited :
    (f g m n : ℕ) (d : Board)
    → 0 < m
    → m < d.sci_tx_cycles_remaining
    → m + n < suc f
    → n < suc g
    → sci_loop (suc f) (m + n) d
      ≡ sci_loop (suc g) n (record d { sci_tx_cycles_remaining = d.sci_tx_cycles_remaining - m })
sci_waited f g m n d pos wait q r =
    let left = d.sci_tx_cycles_remaining in
    let e : Board = record d { sci_tx_cycles_remaining = left - m } in
    elim (sci_cases (left - m) n) [
      | inl (inl none_left) ↦ absurd (omega arith)
      | inl (inr no_cycles) ↦
          sci_wait f (m + n) d (omega arith) (omega arith)
          ∙ ap (λ (t : ℕ). record d { sci_tx_cycles_remaining = t }) (omega arith)
          ∙ sym (sci_stop g n e (inr no_cycles))
      | inr (inl (more, some_cycles)) ↦
          sci_wait f (m + n) d (omega arith) (omega arith)
          ∙ ap (λ (t : ℕ). record d { sci_tx_cycles_remaining = t }) (omega arith)
          ∙ sym (sci_wait g n e some_cycles more)
      | inr (inr (ends, some_left)) ↦
          sci_round f (m + n) d (omega arith) (omega arith)
          ∙ ap (λ (t : ℕ). sci_loop f t (sci_next d)) (omega arith)
          ∙ sci_loop_fuel f g (n - (left - m)) (sci_next d) (omega arith) (omega arith)
          ∙ ap (λ (b : Board). sci_loop g (n - (left - m)) b) (sym (sci_next_same (left - m) d))
          ∙ sym (sci_round g n e some_left ends)
    ]

sci_loop_add :
    (h f g m n : ℕ) (d : Board)
    → m < h
    → m + n < f
    → n < g
    → sci_loop f (m + n) d ≡ sci_loop g n (sci_loop h m d)
sci_loop_add zero f g m n d p q r = absurd (omega arith)
sci_loop_add (suc h) zero g m n d p q r = absurd (omega arith)
sci_loop_add (suc h) (suc f) zero m n d p q r = absurd (omega arith)
sci_loop_add (suc h) (suc f) (suc g) m n d p q r =
    let left = d.sci_tx_cycles_remaining in
    elim (sci_cases left m) [
      | inl stopped ↦ rw (sci_stop h m d stopped) (sci_loop_fuel_or f g m n d stopped q r)
      | inr (inl (wait, pos)) ↦ rw (sci_wait h m d pos wait) (sci_waited f g m n d pos wait q r)
      | inr (inr (go, pos)) ↦
          rw (sci_round h m d pos go, sci_round f (m + n) d pos (omega arith))
            (rw (regroup m n left go)
              (sci_loop_add h f (suc g) (m - left) n (sci_next d) (omega arith) (omega arith) r))
    ]

-- To give the serial port m + n cycles at once, or m and then n, leaves the same board, for any
-- board.
pub sci_tick_add : (m n : ℕ) (d : Board) → sci_tick (m + n) d ≡ sci_tick n (sci_tick m d)
unfolding sci_tick
sci_tick_add m n d =
    sci_loop_add (suc m) (suc (m + n)) (suc n) m n d (omega arith) (omega arith) (omega arith)

-- To give the SPI port m + n cycles at once, or m and then n, leaves the same board, for any
-- board.
spi_tick_add : (m n : ℕ) (d : Board) → spi_tick (m + n) d ≡ spi_tick n (spi_tick m d)
unfolding spi_tick
spi_tick_add m n d = ground arith

-- With a positive period, rounds enough to pass the processor's clock from the capture that is
-- due, and a clock more than a period away from 2^64, the loop of the clocked capture ends with
-- the next capture after the clock and at most one period after it.
pub catch_up_lem :
    (fuel period cycles next : ℕ)
    → 0 < period
    → cycles < next + fuel
    → next ≤ cycles
    → cycles + period < 2 ^ 64
    → (cycles < catch_up fuel period cycles next)
      × (catch_up fuel period cycles next ≤ cycles + period)
unfolding catch_up
catch_up_lem zero period cycles next p f l w = absurd (omega arith)
catch_up_lem (suc fuel) period cycles next p f l w =
    ground (arith, catch_up_lem fuel period cycles (next + period))
