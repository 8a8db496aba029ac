-- ===== src/Es5510/Product.antt =====
-- native/es5510_core.c, lines 283 to 305: the product and its sum as signed arithmetic.
use ensoniq_eps_16_plus.Base.{
  ℕ, ◌+◌, ◌-◌, ◌*◌, ◌^◌, ◌≤◌, ◌<◌, ltb, if◌then◌else◌, u64, true, false, ◌⊎◌, inl, inr, Bool-cases,
  ◌≡◌, ap, arith,
}
use native.Mathlib.Nat.{mul-le-mul, mul-le-mul_right, add-mul, mul-add, mul_comm}
use ensoniq_eps_16_plus.Base.Int.{pos_part, neg_part, ◌*ℤ◌, int24, int64}
use ensoniq_eps_16_plus.Es5510.Word.{sext24, to_int64}
use ensoniq_eps_16_plus.Es5510.Scaling.{sext24_lem}

-- The product of two signed values, with the shift of the fraction.
abbrev product64 : ℕ → ℕ → ℕ → ℕ
product64 c d scale = u64 (u64 (to_int64 (sext24 c) * to_int64 (sext24 d)) * scale)

-- The word of an operand, and of the product of two of them by their signs.
wide :
    (c : ℕ)
    → c < 2 ^ 24
    → to_int64 (sext24 c) ≡ (if ltb c 0x800000 then c else c + (2 ^ 64 - 2 ^ 24))
wide c lc = rw (sext24_lem c lc) (ground arith)

module _ (m n : ℕ) (lm : m ≤ 2 ^ 23) (ln : n ≤ 2 ^ 23) where
  bounded : m * n ≤ 2 ^ 46
  bounded = mul-le-mul lm ln

  minus_plus : (2 ^ 64 - m) * n ≡ 2 ^ 64 * n - m * n
  minus_plus =
      let whole : m + (2 ^ 64 - m) ≡ 2 ^ 64 = omega arith in
      omega (arith, add-mul m (2 ^ 64 - m) n, ap (λ (t : ℕ). t * n) whole)

  minus_minus : (2 ^ 64 - m) * (2 ^ 64 - n) ≡ 2 ^ 64 * (2 ^ 64 - m - n) + m * n
  minus_minus =
      let whole : n + (2 ^ 64 - n) ≡ 2 ^ 64 = omega arith in
      let small : m ≤ 2 ^ 64 = omega arith in
      omega (
        arith,
        mul-le-mul_right n small,
        minus_plus,
        mul-add (2 ^ 64 - m) n (2 ^ 64 - n),
        ap (λ (t : ℕ). (2 ^ 64 - m) * t) whole,
      )

-- The product of the words of two values is the word of their product.
pub product_lem :
    (c d : ℕ) (lc : c < 2 ^ 24) (ld : d < 2 ^ 24)
    → (int64 (u64 (to_int64 (sext24 c) * to_int64 (sext24 d))) ≡ int24 c *ℤ int24 d)
      × (pos_part (int24 c *ℤ int24 d) ≤ 2 ^ 46)
      × (neg_part (int24 c *ℤ int24 d) ≤ 2 ^ 46)
product_lem c d lc ld =
    rw (wide c lc) (rw (wide d ld) (go (Bool-cases (ltb c 0x800000)) (Bool-cases (ltb d 0x800000))))
  where
    go :
        ((ltb c 0x800000 ≡ true) ⊎ (ltb c 0x800000 ≡ false))
        → ((ltb d 0x800000 ≡ true) ⊎ (ltb d 0x800000 ≡ false))
        → (int64 (
              u64 (
                (if ltb c 0x800000 then c else c + (2 ^ 64 - 2 ^ 24))
                * (if ltb d 0x800000 then d else d + (2 ^ 64 - 2 ^ 24))))
            ≡ int24 c *ℤ int24 d)
          × (pos_part (int24 c *ℤ int24 d) ≤ 2 ^ 46)
          × (neg_part (int24 c *ℤ int24 d) ≤ 2 ^ 46)
    go (inl p) (inl q) = ground (arith, bounded c d (ground arith) (ground arith))
    go (inl p) (inr q) = ground (
      arith,
      bounded c (2 ^ 24 - d) (ground arith) (ground arith),
      minus_plus (2 ^ 24 - d) c (ground arith) (ground arith),
      mul_comm c (2 ^ 24 - d),
    )
    go (inr p) (inl q) = ground (
      arith,
      bounded (2 ^ 24 - c) d (ground arith) (ground arith),
      minus_plus (2 ^ 24 - c) d (ground arith) (ground arith),
    )
    go (inr p) (inr q) = ground (
      arith,
      bounded (2 ^ 24 - c) (2 ^ 24 - d) (ground arith) (ground arith),
      minus_minus (2 ^ 24 - c) (2 ^ 24 - d) (ground arith) (ground arith),
    )
