-- ===== src/Es5510/Signed.antt =====
-- native/es5510_core.c, lines 98 to 131: the arithmetic operations on signed numbers.
use ensoniq_eps_16_plus.Base.{ℕ, ◌^◌, ◌<◌, ◌==◌, ◌≡◌, ◌≢◌}
use ensoniq_eps_16_plus.Base.Int.{pos, ◌+ℤ◌, ◌-ℤ◌, ◌*ℤ◌, ltb_ℤ, int24, clamp24}
use ensoniq_eps_16_plus.Base.Bits.{bit}
use ensoniq_eps_16_plus.Es5510.Word.{alu_operation}
use ensoniq_eps_16_plus.Es5510.Saturation.{alu_add_saturates, alu_subtract_saturates, alu_compare}
use ensoniq_eps_16_plus.Es5510.Scaling.{alu_shift_saturates}

-- For two 24-bit values, the second not the lowest: operations 0 and 1 give the signed sum and
-- difference, saturated to 24 bits; operation 4 sets LT if the first is below the second as
-- signed numbers, and Z if they are equal; operations 10 and 11 give four times and 256 times the
-- second, saturated.
pub alu_operation_lem :
    (a b flags : ℕ)
    → a < 2 ^ 24
    → b < 2 ^ 24
    → b ≢ 0x800000
    → (int24 ((alu_operation 0 a b flags).0) ≡ clamp24 (int24 a +ℤ int24 b))
      × (int24 ((alu_operation 1 a b flags).0) ≡ clamp24 (int24 a -ℤ int24 b))
      × (bit 4 ((alu_operation 4 a b flags).1) ≡ ltb_ℤ (int24 a) (int24 b))
      × (bit 3 ((alu_operation 4 a b flags).1) ≡ (a == b))
      × (int24 ((alu_operation 10 a b flags).0) ≡ clamp24 (int24 b *ℤ pos 4))
      × (int24 ((alu_operation 11 a b flags).0) ≡ clamp24 (int24 b *ℤ pos 256))
alu_operation_lem a b flags la lb other =
    let compared = alu_compare a b flags la lb other in
    let shifted = alu_shift_saturates a b flags lb in
    (
      alu_add_saturates a b flags la lb,
      alu_subtract_saturates a b flags la lb other,
      compared.1,
      compared.2,
      shifted.0,
      shifted.1,
    )
