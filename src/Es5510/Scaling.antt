-- ===== src/Es5510/Scaling.antt =====
-- native/es5510_core.c, lines 45 to 48, 86 to 96, 133 to 137 and 285 to 293: shifts, rounding and
-- products as signed arithmetic.
use ensoniq_eps_16_plus.Base.{
  ℕ, ◌+◌, ◌*◌, ◌/◌, ◌%◌, ◌^◌, ◌<◌, ltb, if◌then◌else◌, u32, u64, bit_and, bit_or, ◌≡◌, ◌∙◌, ap,
  arith,
}
use ensoniq_eps_16_plus.Base.Int.{pos, pos_part, neg_part, sub_ℕ, ◌*ℤ◌, int16, int24, clamp24}
use ensoniq_eps_16_plus.Base.Fields.{bit_or_join, bit_or_comm, bit_and_mask}
use ensoniq_eps_16_plus.Es5510.Word.{sext24, to_int64, shift_left, alu_operation, round24to16}
use ensoniq_eps_16_plus.Es5510.Flags.{low24, sign24_lem}

-- The extension of the sign.
pub sext24_lem : (x : ℕ) → x < 2 ^ 24 → sext24 x ≡ (if ltb x 0x800000 then x else x + 0xff000000)
unfolding sext24
sext24_lem x lx =
    let joined : bit_or x 0xff000000 ≡ 0xff000000 + x =
      bit_or_comm x 0xff000000 ∙ bit_or_join 24 0xff x lx in
    let low : bit_and x 0xffffff ≡ x = low24 x ∙ omega arith in
    rw low (rw (sign24_lem x) (rw joined (ground arith)))

pub alu_shift_saturates :
    (a b flags : ℕ)
    → b < 2 ^ 24
    → (int24 ((alu_operation 10 a b flags).0) ≡ clamp24 (int24 b *ℤ pos 4))
      × (int24 ((alu_operation 11 a b flags).0) ≡ clamp24 (int24 b *ℤ pos 256))
unfolding alu_operation shift_left
alu_shift_saturates a b flags lb = (
  rw (sext24_lem b lb) (
      rw (low24 (u32 (u64 (to_int64 (if ltb b 0x800000 then b else b + 0xff000000) * 2 ^ 2))))
        (ground arith)),
  rw (sext24_lem b lb) (
      rw (low24 (u32 (u64 (to_int64 (if ltb b 0x800000 then b else b + 0xff000000) * 2 ^ 8))))
        (ground arith)),
)

low8 : (x : ℕ) → bit_and x 0xff ≡ x % 2 ^ 8
low8 x =
    let e : x ≡ x / 2 ^ 8 * 2 ^ 8 + x % 2 ^ 8 = omega arith in
    ap (λ (y : ℕ). bit_and y 0xff) e ∙ bit_and_mask 8 (x / 2 ^ 8) (x % 2 ^ 8) (omega arith)

round24to16_lem :
    (x : ℕ)
    → x < 2 ^ 24
    → int16 (round24to16 x) ≡ sub_ℕ (pos_part (int24 x) / 256) (neg_part (int24 x) / 256)
unfolding round24to16
round24to16_lem x lx = rw (sext24_lem x lx) (rw (low8 x) (ground arith))
