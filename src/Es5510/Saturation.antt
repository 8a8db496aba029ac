-- ===== src/Es5510/Saturation.antt =====
-- native/es5510_core.c, lines 61 to 131: sums, differences and comparisons as signed arithmetic.
use ensoniq_eps_16_plus.Base.{
  ℕ, ◌+◌, ◌%◌, ◌^◌, ◌<◌, ◌≢◌, ◌==◌, u32, bit_and, ◌≡◌, refl, ◌∙◌, ap, arith,
}
use ensoniq_eps_16_plus.Base.Int.{◌+ℤ◌, ◌-ℤ◌, ltb_ℤ, int24, clamp24}
use ensoniq_eps_16_plus.Base.Bits.{bit, test_0x20}
use ensoniq_eps_16_plus.Es5510.Word.{sign24, add24, negate24, saturate24, alu_operation}
use ensoniq_eps_16_plus.Es5510.Flags.{
  low24, sign24_lem, overflows_lem, add24_value, add24_v, add24_lt, add24_z, negate24_lem,
}

-- The saturated sum of any two values.
saturated :
    (a b flags : ℕ)
    → a < 2 ^ 24
    → b < 2 ^ 24
    → int24 ((saturate24 ((add24 a b flags).0) (sign24 a) ((add24 a b flags).1)).0)
      ≡ clamp24 (int24 a +ℤ int24 b)
unfolding saturate24
saturated a b flags la lb =
    rw (test_0x20 ((add24 a b flags).1) ∙ add24_v a b flags ∙ overflows_lem a b la lb) (
      rw (add24_value a b flags la lb)
        (rw (low24 ((a + b) % 2 ^ 24)) (rw (sign24_lem a) (ground arith))))

pub alu_add_saturates :
    (a b flags : ℕ)
    → a < 2 ^ 24
    → b < 2 ^ 24
    → int24 ((alu_operation 0 a b flags).0) ≡ clamp24 (int24 a +ℤ int24 b)
unfolding alu_operation
alu_add_saturates a b flags la lb = saturated a b flags la lb

-- The negated value, unless it is the lowest.
int24-negate24 :
    (a b : ℕ)
    → a < 2 ^ 24
    → b < 2 ^ 24
    → b ≢ 0x800000
    → int24 a +ℤ int24 (negate24 b) ≡ int24 a -ℤ int24 b
int24-negate24 a b la lb other = rw (negate24_lem b lb) (ground arith)

pub alu_subtract_saturates :
    (a b flags : ℕ)
    → a < 2 ^ 24
    → b < 2 ^ 24
    → b ≢ 0x800000
    → int24 ((alu_operation 1 a b flags).0) ≡ clamp24 (int24 a -ℤ int24 b)
unfolding alu_operation
alu_subtract_saturates a b flags la lb other =
    saturated a (negate24 b) flags la (rw (negate24_lem b lb) (omega arith))
    ∙ ap clamp24 (int24-negate24 a b la lb other)

-- Operation 4 leaves its operand, and compares.
pub alu_compare :
    (a b flags : ℕ)
    → a < 2 ^ 24
    → b < 2 ^ 24
    → b ≢ 0x800000
    → ((alu_operation 4 a b flags).0 ≡ a)
      × (bit 4 ((alu_operation 4 a b flags).1) ≡ ltb_ℤ (int24 a) (int24 b))
      × (bit 3 ((alu_operation 4 a b flags).1) ≡ (a == b))
unfolding alu_operation
alu_compare a b flags la lb other = (
  refl,
  add24_lt a (negate24 b) flags
      ∙ rw (overflows_lem a (negate24 b) la bound) (
          rw (sign24_lem (u32 (bit_and a 0xffffff + bit_and (negate24 b) 0xffffff)))
            (rw (low24 a) (rw (low24 (negate24 b)) (rw (negate24_lem b lb) (ground arith))))),
  add24_z a (negate24 b) flags
      ∙ rw (add24_value a (negate24 b) flags la bound) (rw (negate24_lem b lb) (ground arith)),
)
  where
    bound : negate24 b < 2 ^ 24
    bound = rw (negate24_lem b lb) (omega arith)
