-- ===== src/Base/Bits.antt =====
-- The binary digits of a number, and the laws of `&`, `|` and `^` by digits.
use Prim.Native.Nat.{
  ℕ, zero, suc, ◌+◌, ◌*◌, ◌/◌, ◌%◌, ◌^◌, ◌≤◌, ◌<◌, min, max, bit_and, bit_or, bit_xor, digits,
  bitwise, differ, bit_and-bitwise, bit_or-bitwise, bit_xor-bitwise,
}
use mathlib.Core.Path.{◌≡◌, refl, ◌∙◌, ap}
use mathlib.Core.Bool.{Bool, true, ◌&&◌, ◌||◌, xor}
use native.Mathlib.Nat.{le_refl, pow-suc, div-div-eq-div-mul}
use native.Mathlib.Omega.{arith}
use ensoniq_eps_16_plus.Base.Tests.{◌!=◌, leb, nonzero}
use ensoniq_eps_16_plus.Base.Order.{lt_wf}
use mathlib.Core.WellFounded

none_left : (a : ℕ) → a ≤ 0 → a ≡ 0
none_left a le = omega arith

-- One equation for the lowest digit, with the fuel of the definition dropped.
module _ (z : ℕ → ℕ) (f : ℕ → ℕ → ℕ) where
  digits_enough :
      (fuel more a b : ℕ) → a ≤ fuel → fuel ≤ more → digits z f more a b ≡ digits z f fuel a b
  digits_enough zero zero a b enough le = refl
  digits_enough zero (suc more) a b enough le = rw (none_left a enough) refl
  digits_enough (suc fuel) zero a b enough le = absurd (omega arith)
  digits_enough (suc fuel) (suc more) zero b enough le = refl
  digits_enough (suc fuel) (suc more) (suc a) b enough le =
      rw (digits_enough fuel more (suc a / 2) (b / 2) (omega arith) (omega arith))

  bitwise_low :
      (a b : ℕ)
      → bitwise z f (suc a) b ≡ bitwise z f (suc a / 2) (b / 2) * 2 + f (suc a % 2) (b % 2)
  bitwise_low a b =
      omega (arith, digits_enough (suc a / 2) a (suc a / 2) (b / 2) (le_refl _) (omega arith))

pub bit_or_low : (a b : ℕ) → bit_or a b ≡ bit_or (a / 2) (b / 2) * 2 + max (a % 2) (b % 2)
bit_or_low zero b = simp bit_or-bitwise (omega arith)
bit_or_low (suc a) b = simp bit_or-bitwise (bitwise_low (λ y. y) max a b)

pub bit_and_low : (a b : ℕ) → bit_and a b ≡ bit_and (a / 2) (b / 2) * 2 + min (a % 2) (b % 2)
bit_and_low zero b = simp bit_and-bitwise (omega arith)
bit_and_low (suc a) b = simp bit_and-bitwise (bitwise_low (λ y. 0) min a b)

differ_lem : (a b : ℕ) → differ (a % 2) (b % 2) ≡ (a + b) % 2
differ_lem a b = go (a % 2) (b % 2) (omega arith) (omega arith) ∙ omega arith
  where
    go : (p q : ℕ) → p < 2 → q < 2 → differ p q ≡ (p + q) % 2
    go zero zero hp hq = refl
    go zero (suc zero) hp hq = refl
    go zero (suc (suc q)) hp hq = absurd (omega arith)
    go (suc zero) zero hp hq = refl
    go (suc zero) (suc zero) hp hq = refl
    go (suc zero) (suc (suc q)) hp hq = absurd (omega arith)
    go (suc (suc p)) q hp hq = absurd (omega arith)

pub bit_xor_low : (a b : ℕ) → bit_xor a b ≡ bit_xor (a / 2) (b / 2) * 2 + (a + b) % 2
bit_xor_low zero b = simp bit_xor-bitwise (omega arith)
bit_xor_low (suc a) b =
    simp bit_xor-bitwise (omega (arith, bitwise_low (λ y. y) differ a b, differ_lem (suc a) b))

-- Digit `k`, counted from the lowest.
unfoldable pub bit : ℕ → ℕ → Bool
bit zero x = x % 2 != 0
bit (suc k) x = bit k (x / 2)

pub bit-bit_and : (k a b : ℕ) → bit k (bit_and a b) ≡ (bit k a && bit k b)
unfolding bit
bit-bit_and zero a b = ground (arith, bit_and_low a b)
bit-bit_and (suc k) a b =
    let half : bit_and a b / 2 ≡ bit_and (a / 2) (b / 2) = omega (arith, bit_and_low a b) in
    rw half (bit-bit_and k (a / 2) (b / 2))

pub bit-bit_or : (k a b : ℕ) → bit k (bit_or a b) ≡ (bit k a || bit k b)
unfolding bit
bit-bit_or zero a b = ground (arith, bit_or_low a b)
bit-bit_or (suc k) a b =
    let half : bit_or a b / 2 ≡ bit_or (a / 2) (b / 2) = omega (arith, bit_or_low a b) in
    rw half (bit-bit_or k (a / 2) (b / 2))

pub bit-bit_xor : (k a b : ℕ) → bit k (bit_xor a b) ≡ xor (bit k a) (bit k b)
unfolding bit xor
bit-bit_xor zero a b = ground (arith, bit_xor_low a b)
bit-bit_xor (suc k) a b =
    let half : bit_xor a b / 2 ≡ bit_xor (a / 2) (b / 2) = omega (arith, bit_xor_low a b) in
    rw half (bit-bit_xor k (a / 2) (b / 2))

pub bit_and-zero : (a : ℕ) → bit_and a 0 ≡ 0
bit_and-zero a = WellFounded.induction lt_wf {C = λ n. bit_and n 0 ≡ 0} a λ n ih. go n ih
  where
    go : (n : ℕ) → ((m : ℕ) → m < n → bit_and m 0 ≡ 0) → bit_and n 0 ≡ 0
    go zero ih = refl
    go (suc n) ih = omega (arith, bit_and_low (suc n) 0, ih (suc n / 2) (omega arith))

-- `(x & (1 << k)) != 0`
pub nonzero-bit_and : (k x : ℕ) → nonzero (bit_and x (2 ^ k)) ≡ bit k x
unfolding bit
nonzero-bit_and zero x = ground (arith, bit_and_low x 1, bit_and-zero (x / 2))
nonzero-bit_and (suc k) x =
    let low : bit_and x (2 ^ suc k) ≡ bit_and (x / 2) (2 ^ k) * 2 =
      step (2 ^ suc k) (2 ^ k) (omega (arith, pow-suc 2 k)) in
    rw low (double (bit_and (x / 2) (2 ^ k)) ∙ nonzero-bit_and k (x / 2))
  where
    step : (p q : ℕ) → p ≡ 2 * q → bit_and x p ≡ bit_and (x / 2) q * 2
    step p q e = let half : p / 2 ≡ q = omega arith in bit_and_low x p ∙ rw half (omega arith)

    double : (n : ℕ) → nonzero (n * 2) ≡ nonzero n
    double n = ground arith

-- A conversion to a byte keeps the digits of a byte.
pub bit-u8 : (k x : ℕ) → k < 8 → bit k (x % 2 ^ 8) ≡ bit k x
unfolding bit
bit-u8 zero x h = ground arith
bit-u8 (suc zero) x h = ground arith
bit-u8 (suc (suc zero)) x h = ground arith
bit-u8 (suc (suc (suc zero))) x h = ground arith
bit-u8 (suc (suc (suc (suc zero)))) x h = ground arith
bit-u8 (suc (suc (suc (suc (suc zero))))) x h = ground arith
bit-u8 (suc (suc (suc (suc (suc (suc zero)))))) x h = ground arith
bit-u8 (suc (suc (suc (suc (suc (suc (suc zero))))))) x h = ground arith
bit-u8 (suc (suc (suc (suc (suc (suc (suc (suc k)))))))) x h = absurd (omega arith)

-- The sign bit of a byte and of a word.
pub bit-top8 : (x : ℕ) → x < 2 ^ 8 → bit 7 x ≡ leb 0x80 x
unfolding bit
bit-top8 x h = ground arith

pub bit-top16 : (x : ℕ) → x < 2 ^ 16 → bit 15 x ≡ leb 0x8000 x
unfolding bit
bit-top16 x h = ground arith

-- The masks that the programs write as numerals.
pub test_0x01 : (x : ℕ) → nonzero (bit_and x 0x01) ≡ bit 0 x
test_0x01 x = nonzero-bit_and 0 x

pub test_0x02 : (x : ℕ) → nonzero (bit_and x 0x02) ≡ bit 1 x
test_0x02 x = nonzero-bit_and 1 x

pub test_0x04 : (x : ℕ) → nonzero (bit_and x 0x04) ≡ bit 2 x
test_0x04 x = nonzero-bit_and 2 x

pub test_0x08 : (x : ℕ) → nonzero (bit_and x 0x08) ≡ bit 3 x
test_0x08 x = nonzero-bit_and 3 x

test_0x10 : (x : ℕ) → nonzero (bit_and x 0x10) ≡ bit 4 x
test_0x10 x = nonzero-bit_and 4 x

test_0x40 : (x : ℕ) → nonzero (bit_and x 0x40) ≡ bit 6 x
test_0x40 x = nonzero-bit_and 6 x

pub test_0x80 : (x : ℕ) → nonzero (bit_and x 0x80) ≡ bit 7 x
test_0x80 x = nonzero-bit_and 7 x

pub test_0x8000 : (x : ℕ) → nonzero (bit_and x 0x8000) ≡ bit 15 x
test_0x8000 x = nonzero-bit_and 15 x

pub test_0x20 : (x : ℕ) → nonzero (bit_and x 0x20) ≡ bit 5 x
test_0x20 x = nonzero-bit_and 5 x

-- A digit by arithmetic.
pub bit-div : (k x : ℕ) → bit k x ≡ (x / 2 ^ k % 2 != 0)
unfolding bit
bit-div zero x = ground arith
bit-div (suc k) x =
    let e : x / 2 / 2 ^ k ≡ x / 2 ^ suc k =
      div-div-eq-div-mul x 2 (2 ^ k) ∙ ap (λ (d : ℕ). x / d) (omega (arith, pow-suc 2 k)) in
    rw (bit-div k (x / 2)) (rw e refl)

-- A test that holds of every number below a bound, by evaluation.
unfoldable pub tested_below : ℕ → (ℕ → Bool) → Bool
tested_below zero test = true
tested_below (suc bound) test = test bound && tested_below bound test

pub tested_below_lem :
    (bound : ℕ) (test : ℕ → Bool) (v : ℕ)
    → tested_below bound test ≡ true
    → v < bound
    → test v ≡ true
unfolding tested_below
tested_below_lem zero test v all below = absurd (omega arith)
tested_below_lem (suc bound) test v all below = ground (arith, tested_below_lem bound test v)
