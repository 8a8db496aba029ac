-- ===== src/Base/Fields.antt =====
-- Fields of digits: to join two of them, to mask one, and to cancel one.
use Prim.Native.Nat.{
  ℕ, zero, suc, ◌+◌, ◌-◌, ◌*◌, ◌/◌, ◌^◌, ◌<◌, bit_and, bit_or, bit_xor, bit_or-bitwise,
}
use mathlib.Core.Path.{◌≡◌, refl, sym, ◌∙◌, ap}
use native.Mathlib.Nat.{pow-suc}
use native.Mathlib.Omega.{arith}
use ensoniq_eps_16_plus.Base.Order.{lt_wf}
use mathlib.Core.WellFounded
use ensoniq_eps_16_plus.Base.Bits.{bit_or_low, bit_and_low, bit_xor_low, bit_and-zero}

bit_or-zero : (a : ℕ) → bit_or a 0 ≡ a
bit_or-zero a = WellFounded.induction lt_wf {C = λ n. bit_or n 0 ≡ n} a λ n ih. go n ih
  where
    go : (n : ℕ) → ((m : ℕ) → m < n → bit_or m 0 ≡ m) → bit_or n 0 ≡ n
    go zero ih = refl
    go (suc n) ih = omega (arith, bit_or_low (suc n) 0, ih (suc n / 2) (omega arith))

-- `(high << k) | low` joins two fields that do not meet.
pub bit_or_join : (k high low : ℕ) → low < 2 ^ k → bit_or (high * 2 ^ k) low ≡ high * 2 ^ k + low
bit_or_join zero high low h = ground (arith, bit_or-zero high)
bit_or_join (suc k) high low h =
    let twice : high * 2 ^ suc k ≡ 2 * (high * 2 ^ k) =
      omega (arith, ap (λ (t : ℕ). high * t) (pow-suc 2 k)) in
    ground (
      arith,
      bit_or_low (high * 2 ^ suc k) low,
      twice,
      pow-suc 2 k,
      bit_or_join k high (low / 2) (omega (arith, pow-suc 2 k)),
    )

-- `a & b` fits where `b` fits.
pub bit_and-lt : (k a b : ℕ) → b < 2 ^ k → bit_and a b < 2 ^ k
bit_and-lt zero a b h = let e : b ≡ 0 = omega arith in rw e (omega (arith, bit_and-zero a))
bit_and-lt (suc k) a b h =
    omega (
      arith,
      bit_and_low a b,
      pow-suc 2 k,
      bit_and-lt k (a / 2) (b / 2) (omega (arith, pow-suc 2 k)),
    )

bit_xor-same : (a : ℕ) → bit_xor a a ≡ 0
bit_xor-same a = WellFounded.induction lt_wf {C = λ n. bit_xor n n ≡ 0} a λ n ih. go n ih
  where
    go : (n : ℕ) → ((m : ℕ) → m < n → bit_xor m m ≡ 0) → bit_xor n n ≡ 0
    go zero ih = refl
    go (suc n) ih = omega (arith, bit_xor_low (suc n) (suc n), ih (suc n / 2) (omega arith))

-- The high field of a number cancels against itself.
pub bit_xor_cancel :
    (k high low : ℕ) → low < 2 ^ k → bit_xor (high * 2 ^ k + low) (high * 2 ^ k) ≡ low
bit_xor_cancel zero high low h =
    let e : low ≡ 0 = omega arith in
    let f : high * 1 + low ≡ high * 1 = omega (arith, e) in rw f (bit_xor-same (high * 1) ∙ sym e)
bit_xor_cancel (suc k) high low h =
    let twice : high * 2 ^ suc k ≡ 2 * (high * 2 ^ k) =
      omega (arith, ap (λ (t : ℕ). high * t) (pow-suc 2 k)) in
    let left : (high * 2 ^ suc k + low) / 2 ≡ high * 2 ^ k + low / 2 = omega (arith, twice) in
    let right : high * 2 ^ suc k / 2 ≡ high * 2 ^ k = omega (arith, twice) in
    let rest : bit_xor ((high * 2 ^ suc k + low) / 2) (high * 2 ^ suc k / 2) ≡ low / 2 =
      rw left (rw right (bit_xor_cancel k high (low / 2) (omega (arith, pow-suc 2 k)))) in
    omega (arith, bit_xor_low (high * 2 ^ suc k + low) (high * 2 ^ suc k), rest, twice)

-- `x & ((1 << k) - 1)` is the field of the lowest `k` digits.
pub bit_and_mask : (k high low : ℕ) → low < 2 ^ k → bit_and (high * 2 ^ k + low) (2 ^ k - 1) ≡ low
bit_and_mask zero high low h =
    let e : low ≡ 0 = omega arith in rw e (bit_and-zero (high * 2 ^ 0 + 0))
bit_and_mask (suc k) high low h =
    let twice : high * 2 ^ suc k ≡ 2 * (high * 2 ^ k) =
      omega (arith, ap (λ (t : ℕ). high * t) (pow-suc 2 k)) in
    let left : (high * 2 ^ suc k + low) / 2 ≡ high * 2 ^ k + low / 2 = omega (arith, twice) in
    let right : (2 ^ suc k - 1) / 2 ≡ 2 ^ k - 1 = omega (arith, pow-suc 2 k) in
    let rest : bit_and ((high * 2 ^ suc k + low) / 2) ((2 ^ suc k - 1) / 2) ≡ low / 2 =
      rw left (rw right (bit_and_mask k high (low / 2) (omega (arith, pow-suc 2 k)))) in
    omega (arith, bit_and_low (high * 2 ^ suc k + low) (2 ^ suc k - 1), rest, twice, pow-suc 2 k)

zero-bit_or : (m : ℕ) → bit_or 0 m ≡ m
zero-bit_or m = simp bit_or-bitwise refl

pub bit_or_comm : (a b : ℕ) → bit_or a b ≡ bit_or b a
bit_or_comm a b =
    WellFounded.induction lt_wf {C = λ n. (m : ℕ) → bit_or n m ≡ bit_or m n} a (λ n ih. go n ih) b
  where
    go :
        (n : ℕ)
        → ((k : ℕ) → k < n → (m : ℕ) → bit_or k m ≡ bit_or m k)
        → (m : ℕ) → bit_or n m ≡ bit_or m n
    go zero ih m = zero-bit_or m ∙ sym (bit_or-zero m)
    go (suc n) ih m =
        omega
          (arith, bit_or_low (suc n) m, bit_or_low m (suc n), ih (suc n / 2) (omega arith) (m / 2))
