-- ===== src/Machine/Host/Oscillator.antt =====
-- native/rom_probe.c, lines 570 to 588: the phase of the converter's oscillator.
use ensoniq_eps_16_plus.Base.{
  ℕ, ◌+◌, ◌-◌, ◌*◌, ◌/◌, ◌%◌, ◌^◌, ◌≤◌, ◌<◌, ◌≡◌, ◌⊎◌, inl, inr, arith, nonzero, u64, true, Option,
  none, some,
}
use native.Mathlib.Nat.{mod-add-div', mod-lt}
use native.Mathlib.Decide.{dec_lt}
use ensoniq_eps_16_plus.Machine.Host.{oscillator}

-- A poll at `cycle` of an oscillator whose next conversion is at `next`.
abbrev pub Polled : ℕ → ℕ → ℕ → Option ℕ × ℕ → Type 0
Polled period cycle next r =
    ((cycle < next) × (r ≡ (none, next)))
    ⊎ ((ticks : ℕ) × (r ≡ (some (next + ticks * period), next + ticks * period + period))
        × (next + ticks * period ≤ cycle)
        × (cycle < next + ticks * period + period))

-- For a positive period, a next conversion after cycle 0 and a clock more than a period below
-- 2^64: a poll before the next conversion gives none and leaves it as it is; a later poll gives
-- the newest conversion, a whole number of periods after the one that was next, at most the cycle
-- and less than a period before it, and the next is a period after it.
pub oscillator_lem :
    (period cycle next : ℕ)
    → 0 < period
    → 0 < next
    → cycle + period < 2 ^ 64
    → Polled period cycle next (oscillator period cycle next)
unfolding oscillator
oscillator_lem period cycle next positive begun fits =
    let started : nonzero next ≡ true = ground arith in
    let late = cycle - next in
    let ticks = late / period * period in
    let whole : late % period + ticks ≡ late = mod-add-div' late period in
    let part : late % period < period = mod-lt late positive in
    elim (dec_lt cycle next) [
      | yes early ↦ inl (early, rw started (ground arith))
      | no due ↦
          let exact : u64 (next + ticks) ≡ next + ticks = omega (arith, due) in
          let later : u64 (next + ticks + period) ≡ next + ticks + period = omega (arith, due) in
          inr (
            late / period,
            rw started (rw exact (rw later (ground arith))),
            omega (arith, due),
            omega (arith, due),
          )
    ]
