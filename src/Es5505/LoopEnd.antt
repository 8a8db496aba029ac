-- ===== src/Es5505/LoopEnd.antt =====
-- The end of the loop in native/es5505_core.c: `handle_end` in each direction.
use ensoniq_eps_16_plus.Base.{
  ℕ, ◌+◌, ◌-◌, ◌*◌, ◌/◌, ◌<◌, ◌≤◌, ◌^◌, ◌%◌, nonzero, leb, if◌then◌else◌, ◌||◌, xor, u32, sub32,
  bit_and, bit_or, bit_xor, Bool, true, false, ◌≡◌, refl, ap, ◌∙◌, arith, ◌⊎◌, inl, inr,
}
use ensoniq_eps_16_plus.Base.Bits.{bit, bit-bit_or, bit-bit_xor, bit_and_low}
use ensoniq_eps_16_plus.Base.Fields.{bit_and_mask}
use ensoniq_eps_16_plus.Base.Tests.{Bool-cases}
use ensoniq_eps_16_plus.Es5505.Core.{
  Es5505Voice, irq_enable, mask, flagged, handle_end, reverse, irq,
}

mask-mod : (n : ℕ) → mask n ≡ n % 2 ^ 31
mask-mod n =
    let e : n ≡ n / 2 ^ 31 * 2 ^ 31 + n % 2 ^ 31 = omega arith in
    ap mask e ∙ bit_and_mask 31 (n / 2 ^ 31) (n % 2 ^ 31) (omega arith)

-- Where the voice stands between its bounds, and its step is no longer than the loop and than
-- the space on both sides of it.
pub record IsLooping (v : Es5505Voice) : Type 0 where
  pub loops : bit 3 v.control ≡ true
  pub low : v.start ≤ v.accumulator
  pub high : v.accumulator ≤ v.end
  pub step : v.frequency ≤ v.end - v.start
  pub below : v.frequency ≤ v.start
  pub above : v.end + v.frequency < 2 ^ 31

-- The position after a step, before the loop is applied.
abbrev pub moved : Es5505Voice → Es5505Voice
moved v = record v {
  accumulator =
      if nonzero (bit_and v.control reverse)
      then mask (sub32 v.accumulator v.frequency)
      else mask (u32 (v.accumulator + v.frequency));
}

pub moved-forward :
    (v : Es5505Voice)
    → IsLooping v
    → nonzero (bit_and v.control reverse) ≡ false
    → (moved v).accumulator ≡ v.accumulator + v.frequency
moved-forward v h f =
    rw f (rw (mask-mod (u32 (v.accumulator + v.frequency))) (omega (arith, h.high, h.above)))

pub moved-reverse :
    (v : Es5505Voice)
    → IsLooping v
    → nonzero (bit_and v.control reverse) ≡ true
    → (moved v).accumulator ≡ v.accumulator - v.frequency
moved-reverse v h f = rw f (
    rw (mask-mod (sub32 v.accumulator v.frequency))
      (omega (arith, h.low, h.high, h.below, h.above)))

-- `loop` is one of the two modes that loop.
modes : (c : ℕ) → bit 3 c ≡ true → (bit_and c 0x18 ≡ 0x08) ⊎ (bit_and c 0x18 ≡ 0x18)
unfolding bit
modes c h = ground (
  arith,
  bit_and_low c 0x18,
  bit_and_low (c / 2) 0x0c,
  bit_and_low (c / 4) 0x06,
  bit_and_low (c / 8) 0x03,
  bit_and_low (c / 16) 0x01,
  bit_and_mask 0 (c / 32) 0 (omega arith),
)

bit-flagged : (c : ℕ) → bit 3 (flagged c) ≡ bit 3 c
unfolding bit
bit-flagged c = ite-bit (nonzero (bit_and c irq_enable))
  where
    or-false : (b : Bool) → (b || bit 3 irq) ≡ b
    or-false true = refl
    or-false false = refl

    ite-bit : (b : Bool) → bit 3 (if b then bit_or c irq else c) ≡ bit 3 c
    ite-bit true = bit-bit_or 3 c irq ∙ or-false (bit 3 c)
    ite-bit false = refl

bit-turned : (c : ℕ) → bit 3 (bit_xor c reverse) ≡ bit 3 c
unfolding bit xor
bit-turned c = bit-bit_xor 3 c reverse ∙ xor-false (bit 3 c)
  where
    xor-false : (b : Bool) → xor b (bit 3 reverse) ≡ b
    xor-false true = refl
    xor-false false = refl

-- A position inside the bounds.
pub record Inside (v w : Es5505Voice) : Type 0 where
  pub start : w.start ≡ v.start
  pub end : w.end ≡ v.end
  pub frequency : w.frequency ≡ v.frequency
  pub loops : bit 3 w.control ≡ bit 3 v.control
  pub low : w.start ≤ w.accumulator
  pub high : w.accumulator ≤ w.end

inside :
    (v : Es5505Voice) (c a : ℕ)
    → bit 3 c ≡ bit 3 v.control
    → v.start ≤ a
    → a ≤ v.end
    → Inside v (record v { control = c; accumulator = a })
inside v c a e low high = record {
  start = refl;
  end = refl;
  frequency = refl;
  loops = e;
  low = low;
  high = high;
}

pub handle_end-forward :
    (v : Es5505Voice)
    → nonzero (bit_and v.control reverse) ≡ false
    → bit 3 v.control ≡ true
    → v.start ≤ v.accumulator
    → v.accumulator ≤ v.end + (v.end - v.start)
    → v.start ≤ v.end
    → v.accumulator < 2 ^ 31
    → Inside v (handle_end v)
unfolding handle_end
handle_end-forward v d l low high order bound =
    go (Bool-cases (leb v.accumulator v.end)) (modes v.control l)
  where
    go :
        (leb v.accumulator v.end ≡ true) ⊎ (leb v.accumulator v.end ≡ false)
        → (bit_and v.control 0x18 ≡ 0x08) ⊎ (bit_and v.control 0x18 ≡ 0x18)
        → Inside v (handle_end v)
    go (inl before) mode =
        rw d (rw before (inside v v.control v.accumulator refl low (ground arith)))
    go (inr past) (inl mode) =
        let e : mask (sub32 (u32 (v.start + v.accumulator)) v.end)
            ≡ v.start + (v.accumulator - v.end) =
          mask-mod _ ∙ ground arith in
        rw d (
          rw past (
            rw mode (
              inside v (flagged v.control) _ (bit-flagged v.control) (omega (arith, e))
                (ground (arith, e)))))
    go (inr past) (inr mode) =
        let e : mask (sub32 v.end (sub32 v.accumulator v.end)) ≡ v.end - (v.accumulator - v.end) =
          mask-mod _ ∙ ground arith in
        rw d (
          rw past (
            rw mode (
              inside v (bit_xor (flagged v.control) reverse) _
                (bit-turned (flagged v.control) ∙ bit-flagged v.control) (ground (arith, e))
                (ground (arith, e)))))

pub handle_end-reverse :
    (v : Es5505Voice)
    → nonzero (bit_and v.control reverse) ≡ true
    → bit 3 v.control ≡ true
    → v.accumulator ≤ v.end
    → v.start ≤ v.accumulator + (v.end - v.start)
    → v.start ≤ v.end
    → v.end + v.end < 2 ^ 32
    → v.start + v.start < 2 ^ 31 + v.accumulator
    → Inside v (handle_end v)
unfolding handle_end
handle_end-reverse v d l high low order bound bound2 =
    go (Bool-cases (leb v.start v.accumulator)) (modes v.control l)
  where
    go :
        (leb v.start v.accumulator ≡ true) ⊎ (leb v.start v.accumulator ≡ false)
        → (bit_and v.control 0x18 ≡ 0x08) ⊎ (bit_and v.control 0x18 ≡ 0x18)
        → Inside v (handle_end v)
    go (inl after) mode =
        rw d (rw after (inside v v.control v.accumulator refl (ground arith) high))
    go (inr past) (inl mode) =
        let e : mask (sub32 v.end (sub32 v.start v.accumulator))
            ≡ v.end - (v.start - v.accumulator) =
          mask-mod _ ∙ ground arith in
        rw d (
          rw past (
            rw mode (
              inside v (flagged v.control) _ (bit-flagged v.control) (ground (arith, e))
                (ground (arith, e)))))
    go (inr past) (inr mode) =
        let e : mask (u32 (v.start + sub32 v.start v.accumulator))
            ≡ v.start + (v.start - v.accumulator) =
          mask-mod _ ∙ ground arith in
        rw d (
          rw past (
            rw mode (
              inside v (bit_xor (flagged v.control) reverse) _
                (bit-turned (flagged v.control) ∙ bit-flagged v.control) (ground (arith, e))
                (ground (arith, e)))))
