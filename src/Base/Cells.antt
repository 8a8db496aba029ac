-- ===== src/Base/Cells.antt =====
-- Masks of 32 digits: to set a digit, to clear one, and the widths of the results.
use Prim.Native.Nat.{ℕ, zero, suc, ◌-◌, ◌/◌, ◌^◌, ◌≤◌, ◌<◌, bit_and, bit_or, bit_and-bitwise}
use mathlib.Core.Path.{◌≡◌, refl, ◌∙◌}
use mathlib.Core.Bool.{Bool, true, false, not, ◌&&◌, ◌||◌}
use native.Mathlib.Nat.{pow-suc}
use native.Mathlib.Omega.{arith}
use ensoniq_eps_16_plus.Base.Tests.{◌==◌, if◌then◌else◌}
use ensoniq_eps_16_plus.Base.Bits.{
  bit, bit-bit_or, bit-bit_and, bit_or_low, bit_and_low, tested_below, tested_below_lem,
}

-- Results are as wide as the operands.
bit_or-lt : (k a b : ℕ) → a < 2 ^ k → b < 2 ^ k → bit_or a b < 2 ^ k
bit_or-lt zero a b h h' =
    let e : a ≡ 0 = omega arith in let f : b ≡ 0 = omega arith in rw e (rw f (omega arith))
bit_or-lt (suc k) a b h h' = omega (
  arith,
  bit_or_low a b,
  pow-suc 2 k,
  bit_or-lt k (a / 2) (b / 2) (omega (arith, pow-suc 2 k)) (omega (arith, pow-suc 2 k)),
)

bit_and-le : (k a b : ℕ) → a < 2 ^ k → bit_and a b ≤ a
bit_and-le zero a b h = let e : a ≡ 0 = omega arith in rw e (simp bit_and-bitwise (omega arith))
bit_and-le (suc k) a b h =
    omega (arith, bit_and_low a b, bit_and-le k (a / 2) (b / 2) (omega (arith, pow-suc 2 k)))

pub pow-lt : (n c : ℕ) → c < n → 2 ^ c < 2 ^ n
pow-lt zero c h = absurd (omega arith)
pow-lt (suc n) zero h = omega (arith, pow-suc 2 n, pow-lt_zero n)
  where
    pow-lt_zero : (n : ℕ) → 1 ≤ 2 ^ n
    pow-lt_zero zero = omega arith
    pow-lt_zero (suc n) = omega (arith, pow-suc 2 n, pow-lt_zero n)
pow-lt (suc n) (suc c) h = omega (arith, pow-suc 2 n, pow-suc 2 c, pow-lt n c (omega arith))

-- `mask | 1 << c` and `mask & ~(1 << c)`, with the cells below 22.
pub with_cell-lt : (c mask : ℕ) → c < 22 → mask < 2 ^ 22 → bit_or mask (2 ^ c) < 2 ^ 22
with_cell-lt c mask h fits = bit_or-lt 22 mask (2 ^ c) fits (pow-lt 22 c h)

pub without_cell-lt : (c mask : ℕ) → mask < 2 ^ 22 → bit_and mask (2 ^ 32 - 1 - 2 ^ c) < 2 ^ 22
without_cell-lt c mask fits = omega (arith, bit_and-le 22 mask (2 ^ 32 - 1 - 2 ^ c) fits)

-- The digits of the two masks of a cell, by evaluation.
abbrev agree : Bool → Bool → Bool
agree a b = if a then b else not b

agree_lem : (a b : Bool) → agree a b ≡ true → a ≡ b
agree_lem true true h = refl
agree_lem true false h = cc
agree_lem false true h = cc
agree_lem false false h = refl

single_table : tested_below 22 (λ c. tested_below 22 (λ i. agree (bit i (2 ^ c)) (i == c))) ≡ true
unfolding tested_below bit
single_table = refl

others_table :
    tested_below 22 (λ c. tested_below 22 (λ i. agree (bit i (2 ^ 32 - 1 - 2 ^ c)) (not (i == c))))
    ≡ true
unfolding tested_below bit
others_table = refl

bit_single : (i c : ℕ) → i < 22 → c < 22 → bit i (2 ^ c) ≡ (i == c)
bit_single i c hi hc =
    agree_lem _ _ (tested_below_lem 22 _ i (tested_below_lem 22 _ c single_table hc) hi)

bit_others : (i c : ℕ) → i < 22 → c < 22 → bit i (2 ^ 32 - 1 - 2 ^ c) ≡ not (i == c)
bit_others i c hi hc =
    agree_lem _ _ (tested_below_lem 22 _ i (tested_below_lem 22 _ c others_table hc) hi)

pub bit-with_cell :
    (i c mask : ℕ) → i < 22 → c < 22 → bit i (bit_or mask (2 ^ c)) ≡ (bit i mask || (i == c))
bit-with_cell i c mask hi hc = bit-bit_or i mask (2 ^ c) ∙ rw (bit_single i c hi hc) refl

pub bit-without_cell :
    (i c mask : ℕ)
    → i < 22
    → c < 22
    → bit i (bit_and mask (2 ^ 32 - 1 - 2 ^ c)) ≡ (bit i mask && not (i == c))
bit-without_cell i c mask hi hc =
    bit-bit_and i mask (2 ^ 32 - 1 - 2 ^ c) ∙ rw (bit_others i c hi hc) refl

-- The same for the 16 lamps of a bank.
lamp_table :
    tested_below 16 (λ c. tested_below 16 (λ i. agree (bit i (2 ^ 16 - 1 - 2 ^ c)) (not (i == c))))
    ≡ true
unfolding tested_below bit
lamp_table = refl

pub bit-with_lamp :
    (i c lamps : ℕ) → i < 16 → c < 16 → bit i (bit_or lamps (2 ^ c)) ≡ (bit i lamps || (i == c))
bit-with_lamp i c lamps hi hc = bit-with_cell i c lamps (omega arith) (omega arith)

pub bit-without_lamp :
    (i c lamps : ℕ)
    → i < 16
    → c < 16
    → bit i (bit_and lamps (2 ^ 16 - 1 - 2 ^ c)) ≡ (bit i lamps && not (i == c))
bit-without_lamp i c lamps hi hc =
    let others : bit i (2 ^ 16 - 1 - 2 ^ c) ≡ not (i == c) =
      agree_lem _ _ (tested_below_lem 16 _ i (tested_below_lem 16 _ c lamp_table hc) hi) in
    bit-bit_and i lamps (2 ^ 16 - 1 - 2 ^ c) ∙ rw others refl
