-- ===== src/Es5510/Accumulator.antt =====
-- native/es5510_core.c, lines 162 to 167 and 283 to 305: the accumulator as a signed number.
use ensoniq_eps_16_plus.Base.{
  ℕ, ◌+◌, ◌-◌, ◌*◌, ◌/◌, ◌^◌, ◌≤◌, ◌<◌, nonzero, leb, if◌then◌else◌, u64, bit_and, Bool, true,
  false, not, ◌||◌, ◌≡◌, ◌∙◌, ap, arith,
}
use ensoniq_eps_16_plus.Base.Int.{
  ℤ, pos, negsuc, pos_part, neg_part, ◌+ℤ◌, ◌*ℤ◌, ltb_ℤ, int24, int64, clamp24, floor_div,
}
use ensoniq_eps_16_plus.Es5510.Word.{sext24, to_int64, lt_int64, minus_int64}
use ensoniq_eps_16_plus.Es5510.Core.{Es5510Core}
use ensoniq_eps_16_plus.Es5510.Registers.{mac_high}
use ensoniq_eps_16_plus.Es5510.Process.{multiply}
use ensoniq_eps_16_plus.Es5510.Flags.{low24}
use ensoniq_eps_16_plus.Es5510.Product.{product_lem}

-- The shift of the fraction, one digit or two by bit 22 of the signal register.
abbrev pub fraction : ℕ → ℤ
fraction sigreg = if nonzero (bit_and sigreg 0x400000) then pos 2 else pos 4

scaled :
    (w sigreg : ℕ)
    → w < 2 ^ 64
    → pos_part (int64 w) ≤ 2 ^ 46
    → neg_part (int64 w) ≤ 2 ^ 46
    → int64 (u64 (w * 2 ^ (if nonzero (bit_and sigreg 0x400000) then 1 else 2)))
      ≡ int64 w *ℤ fraction sigreg
scaled w sigreg lw p n = elim (nonzero (bit_and sigreg 0x400000)) [
  | true ↦ ground arith
  | false ↦ ground arith
]

scaled_small :
    (w sigreg : ℕ)
    → w < 2 ^ 64
    → pos_part (int64 w) ≤ 2 ^ 46
    → neg_part (int64 w) ≤ 2 ^ 46
    → (pos_part (int64 (u64 (w * 2 ^ (if nonzero (bit_and sigreg 0x400000) then 1 else 2))))
        ≤ 2 ^ 48)
      × (neg_part (int64 (u64 (w * 2 ^ (if nonzero (bit_and sigreg 0x400000) then 1 else 2))))
          ≤ 2 ^ 48)
scaled_small w sigreg lw p n = elim (nonzero (bit_and sigreg 0x400000)) [
  | true ↦ ground arith
  | false ↦ ground arith
]

-- The sum of two words in range.
summed :
    (v w : ℕ)
    → v < 2 ^ 64
    → w < 2 ^ 64
    → pos_part (int64 v) ≤ 2 ^ 48
    → neg_part (int64 v) ≤ 2 ^ 48
    → pos_part (int64 w) ≤ 2 ^ 62
    → neg_part (int64 w) ≤ 2 ^ 62
    → int64 (u64 (v + w)) ≡ int64 v +ℤ int64 w
summed v w lv lw pv nv pw nw = ground arith

-- The 48 digits of an accumulator hold its number.
abbrev pub fits48 : ℤ → Bool
fits48 z = not (ltb_ℤ z (negsuc (2 ^ 47 - 1)) || ltb_ℤ (pos (2 ^ 47 - 1)) z)

overflow_lem :
    (w : ℕ)
    → w < 2 ^ 64
    → (lt_int64 w (minus_int64 (2 ^ 47)) || not (lt_int64 w (2 ^ 47))) ≡ not (fits48 (int64 w))
overflow_lem w lw = ground arith

high_lem :
    (w : ℕ)
    → w < 2 ^ 64
    → int24 (
        if not (fits48 (int64 w))
        then (if leb (2 ^ 63) w then 0x800000 else 0x7fffff)
        else bit_and (w / 2 ^ 24) 0xffffff)
      ≡ clamp24 (floor_div (int64 w) (2 ^ 24))
high_lem w lw = rw (low24 (w / 2 ^ 24)) (ground arith)

-- The exact sum of the accumulator and the product.
abbrev pub exact : Es5510Core → ℤ
exact core =
    let product = int24 core.mac.c_value *ℤ int24 core.mac.d_value *ℤ fraction core.sigreg in
    if core.mac.accumulate then product +ℤ int64 core.machl else product

abbrev product_word : Es5510Core → ℕ
product_word core = u64 (
    u64 (to_int64 (sext24 core.mac.c_value) * to_int64 (sext24 core.mac.d_value))
    * 2 ^ (if nonzero (bit_and core.sigreg 0x400000) then 1 else 2))

result_word : Es5510Core → ℕ
result_word core =
    if core.mac.accumulate then u64 (product_word core + core.machl) else product_word core

result_word_lem :
    (core : Es5510Core)
    → core.mac.c_value < 2 ^ 24
    → core.mac.d_value < 2 ^ 24
    → core.machl < 2 ^ 64
    → pos_part (int64 core.machl) ≤ 2 ^ 62
    → neg_part (int64 core.machl) ≤ 2 ^ 62
    → int64 (result_word core) ≡ exact core
unfolding result_word
result_word_lem core lc ld lm pm nm = chosen core.mac.accumulate
  where
    p :
        (int64 (u64 (to_int64 (sext24 core.mac.c_value) * to_int64 (sext24 core.mac.d_value)))
          ≡ int24 core.mac.c_value *ℤ int24 core.mac.d_value)
        × (pos_part (int24 core.mac.c_value *ℤ int24 core.mac.d_value) ≤ 2 ^ 46)
        × (neg_part (int24 core.mac.c_value *ℤ int24 core.mac.d_value) ≤ 2 ^ 46)
    p = product_lem core.mac.c_value core.mac.d_value lc ld

    w : ℕ
    w = u64 (to_int64 (sext24 core.mac.c_value) * to_int64 (sext24 core.mac.d_value))

    product :
        int64 (product_word core)
        ≡ int24 core.mac.c_value *ℤ int24 core.mac.d_value *ℤ fraction core.sigreg
    product =
        scaled w core.sigreg (omega arith) (rw (p.0) (p.1)) (rw (p.0) (p.2))
        ∙ ap (λ (z : ℤ). z *ℤ fraction core.sigreg) (p.0)

    small :
        (pos_part (int64 (product_word core)) ≤ 2 ^ 48)
        × (neg_part (int64 (product_word core)) ≤ 2 ^ 48)
    small = scaled_small w core.sigreg (omega arith) (rw (p.0) (p.1)) (rw (p.0) (p.2))

    chosen :
        (accumulate : Bool)
        → int64 (if accumulate then u64 (product_word core + core.machl) else product_word core) ≡ (
            if accumulate
            then int24 core.mac.c_value *ℤ int24 core.mac.d_value *ℤ fraction core.sigreg
              +ℤ int64 core.machl
            else int24 core.mac.c_value *ℤ int24 core.mac.d_value *ℤ fraction core.sigreg)
    chosen true =
        summed (product_word core) core.machl (omega arith) lm (small.0) (small.1) pm nm
        ∙ ap (λ (z : ℤ). z +ℤ int64 core.machl) product
    chosen false = product

result_word-lt : (core : Es5510Core) → result_word core < 2 ^ 64
unfolding result_word
result_word-lt core = ground arith

-- For two 24-bit factors and an accumulator of at most 62 bits: the new accumulator is the signed
-- product, shifted by one digit or two as the signal register says, added to the old one where
-- the instruction accumulates; the overflow flag says whether it leaves 48 bits; and register
-- 0xf3 reads its upper half, rounded down and saturated to 24 bits.
pub multiply_lem :
    (core : Es5510Core)
    → core.mac.c_value < 2 ^ 24
    → core.mac.d_value < 2 ^ 24
    → core.machl < 2 ^ 64
    → pos_part (int64 core.machl) ≤ 2 ^ 62
    → neg_part (int64 core.machl) ≤ 2 ^ 62
    → (int64 (multiply core).machl ≡ exact core)
      × ((multiply core).mac_overflow ≡ not (fits48 (exact core)))
      × (int24 (mac_high (multiply core)) ≡ clamp24 (floor_div (exact core) (2 ^ 24)))
unfolding multiply result_word
multiply_lem core lc ld lm pm nm = (word, over, high)
  where
    word : int64 (result_word core) ≡ exact core
    word = result_word_lem core lc ld lm pm nm

    over : (multiply core).mac_overflow ≡ not (fits48 (exact core))
    over =
        overflow_lem (result_word core) (result_word-lt core) ∙ ap (λ (z : ℤ). not (fits48 z)) word

    high : int24 (mac_high (multiply core)) ≡ clamp24 (floor_div (exact core) (2 ^ 24))
    high =
        rw (overflow_lem (result_word core) (result_word-lt core))
          (high_lem (result_word core) (result_word-lt core))
        ∙ ap (λ (z : ℤ). clamp24 (floor_div z (2 ^ 24))) word
