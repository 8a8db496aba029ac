-- ===== src/Es5505/Halves.antt =====
-- The two halves of an address register of native/es5505_core.c.
use ensoniq_eps_16_plus.Base.{
  ℕ, zero, suc, ◌+◌, ◌-◌, ◌*◌, ◌/◌, ◌%◌, ◌<◌, ◌^◌, bit_and, bit_or, ◌≡◌, ap, ap₂, ◌∙◌, arith,
}
use native.Mathlib.Nat.{pow-suc}
use ensoniq_eps_16_plus.Base.Bits.{bit_and_low}
use ensoniq_eps_16_plus.Base.Fields.{bit_and_mask, bit_or_join, bit_or_comm}
use ensoniq_eps_16_plus.Es5505.Registers.{set_high, set_low}

pub mask_low : (k h p n : ℕ) → p < 2 ^ k → n ≡ h * 2 ^ k + p → bit_and n (2 ^ k - 1) ≡ p
mask_low k h p n lt e = rw e (bit_and_mask k h p lt)

mask13 : (n : ℕ) → bit_and n 0x1fff ≡ n % 2 ^ 13
mask13 n = mask_low 13 (n / 2 ^ 13) (n % 2 ^ 13) n (omega arith) (omega arith)

mask16 : (n : ℕ) → bit_and n 0xffff ≡ n % 2 ^ 16
mask16 n = mask_low 16 (n / 2 ^ 16) (n % 2 ^ 16) n (omega arith) (omega arith)

mask18 : (n : ℕ) → bit_and n 0x3ffff ≡ n % 2 ^ 18
mask18 n = mask_low 18 (n / 2 ^ 18) (n % 2 ^ 18) n (omega arith) (omega arith)

set_high-sum : (a v : ℕ) → set_high a v ≡ v % 2 ^ 13 * 2 ^ 18 + a % 2 ^ 18
set_high-sum a v =
    ap₂ (λ x y. bit_or x (y * 2 ^ 18)) (mask18 a) (mask13 v)
    ∙ bit_or_comm (a % 2 ^ 18) (v % 2 ^ 13 * 2 ^ 18)
    ∙ bit_or_join 18 (v % 2 ^ 13) (a % 2 ^ 18) (omega arith)

-- A mask without its lowest digits.
mask_high : (k h p m : ℕ) → p < 2 ^ k → bit_and (h * 2 ^ k + p) (m * 2 ^ k) ≡ bit_and h m * 2 ^ k
mask_high zero h p m lt =
    let e : h * 1 + p ≡ h = omega arith in
    let f : m * 1 ≡ m = omega arith in rw e (rw f (omega arith))
mask_high (suc k) h p m lt =
    let double : (t : ℕ) → t * 2 ^ suc k ≡ 2 * (t * 2 ^ k) =
      λ t. omega (arith, ap (λ (u : ℕ). t * u) (pow-suc 2 k)) in
    let left : (h * 2 ^ suc k + p) / 2 ≡ h * 2 ^ k + p / 2 = omega (arith, double h) in
    let right : m * 2 ^ suc k / 2 ≡ m * 2 ^ k = omega (arith, double m) in
    let rest : bit_and ((h * 2 ^ suc k + p) / 2) (m * 2 ^ suc k / 2) ≡ bit_and h m * 2 ^ k =
      rw left (rw right (mask_high k h (p / 2) m (omega (arith, pow-suc 2 k)))) in
    omega
      (arith, bit_and_low (h * 2 ^ suc k + p) (m * 2 ^ suc k), rest, double m, double (bit_and h m))

mask_high18 : (a : ℕ) → bit_and a 0x7ffc0000 ≡ a / 2 ^ 18 % 2 ^ 13 * 2 ^ 18
mask_high18 a =
    let e : a ≡ a / 2 ^ 18 * 2 ^ 18 + a % 2 ^ 18 = omega arith in
    ap (λ t. bit_and t 0x7ffc0000) e
    ∙ mask_high 18 (a / 2 ^ 18) (a % 2 ^ 18) 0x1fff (omega arith)
    ∙ ap (λ t. t * 2 ^ 18) (mask13 (a / 2 ^ 18))

set_low-sum : (a v : ℕ) → v < 2 ^ 16 → set_low a v ≡ a / 2 ^ 18 % 2 ^ 13 * 2 ^ 18 + v * 2 ^ 2
set_low-sum a v h =
    ap (λ x. bit_or x (v * 2 ^ 2)) (mask_high18 a)
    ∙ bit_or_join 18 (a / 2 ^ 18 % 2 ^ 13) (v * 2 ^ 2) (omega arith)

-- The two halves of an address as they are read.
abbrev high_half : ℕ → ℕ
high_half a = bit_and (a / 2 ^ 18) 0x1fff

abbrev low_half : ℕ → ℕ
low_half a = bit_and (a / 2 ^ 2) 0xffff

pub high_half-set_high : (a v : ℕ) → high_half (set_high a v) ≡ bit_and v 0x1fff
high_half-set_high a v = mask13 _ ∙ omega (arith, set_high-sum a v, mask13 v)

pub low_half-set_high : (a v : ℕ) → low_half (set_high a v) ≡ low_half a
low_half-set_high a v = mask16 _ ∙ omega (arith, set_high-sum a v, mask16 (a / 2 ^ 2))

pub high_half-set_low : (a v : ℕ) → v < 2 ^ 16 → high_half (set_low a v) ≡ high_half a
high_half-set_low a v h = mask13 _ ∙ omega (arith, set_low-sum a v h, mask13 (a / 2 ^ 18))

pub low_half-set_low : (a v : ℕ) → v < 2 ^ 16 → low_half (set_low a v) ≡ v
low_half-set_low a v h = mask16 _ ∙ omega (arith, set_low-sum a v h)
