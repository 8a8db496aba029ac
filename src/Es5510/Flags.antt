-- ===== src/Es5510/Flags.antt =====
-- native/es5510_core.c, lines 56 to 73: the digits of the flags, and the sum with its flags.
use ensoniq_eps_16_plus.Base.{
  ℕ, zero, suc, bit_xor, ◌+◌, ◌-◌, ◌*◌, ◌/◌, ◌%◌, ◌^◌, ◌<◌, ◌==◌, ◌!=◌, nonzero, if◌then◌else◌,
  as_int, u8, u32, bit_and, Bool, true, false, not, ◌&&◌, ◌||◌, ◌≡◌, refl, ◌∙◌, ap, arith,
}
use ensoniq_eps_16_plus.Base.Bits.{
  bit, bit_xor_low, bit-bit_and, bit-bit_or, bit-div, nonzero-bit_and,
}
use ensoniq_eps_16_plus.Base.Fields.{bit_and_mask}
use native.Mathlib.Nat.{pow-suc}
use ensoniq_eps_16_plus.Base.Int.{pos, negsuc, ◌+ℤ◌, ltb_ℤ, int24}
use ensoniq_eps_16_plus.Es5510.Word.{flag_v, flag_lt, flag_z, sign24, set_flag, add24, negate24}

pub low24 : (x : ℕ) → bit_and x 0xffffff ≡ x % 2 ^ 24
low24 x =
    let e : x ≡ x / 2 ^ 24 * 2 ^ 24 + x % 2 ^ 24 = omega arith in
    ap (λ (y : ℕ). bit_and y 0xffffff) e ∙ bit_and_mask 24 (x / 2 ^ 24) (x % 2 ^ 24) (omega arith)

pub sign24_lem : (x : ℕ) → sign24 x ≡ (x / 2 ^ 23 % 2 != 0)
sign24_lem x = nonzero-bit_and 23 x ∙ bit-div 23 x

carry24 : (x : ℕ) → nonzero (bit_and x 0x1000000) ≡ (x / 2 ^ 24 % 2 != 0)
carry24 x = nonzero-bit_and 24 x ∙ bit-div 24 x

-- The digit that a flag stands for, and the others.
set_flag_same :
    (k flag : ℕ) (enabled : Bool) (flags : ℕ)
    → bit k flag ≡ true
    → bit k (u8 (255 - flag)) ≡ false
    → bit k (set_flag flag enabled flags) ≡ enabled
unfolding set_flag
set_flag_same k flag true flags on off = ground (arith, bit-bit_or k flags flag)
set_flag_same k flag false flags on off = ground (arith, bit-bit_and k flags (u8 (255 - flag)))

set_flag_other :
    (k flag : ℕ) (enabled : Bool) (flags : ℕ)
    → bit k flag ≡ false
    → bit k (u8 (255 - flag)) ≡ true
    → bit k (set_flag flag enabled flags) ≡ bit k flags
unfolding set_flag
set_flag_other k flag true flags off on = ground (arith, bit-bit_or k flags flag)
set_flag_other k flag false flags off on = ground (arith, bit-bit_and k flags (u8 (255 - flag)))

-- `x ^ mask` for a mask of ones.
bit_xor_ones : (k x : ℕ) → x < 2 ^ k → bit_xor x (2 ^ k - 1) ≡ 2 ^ k - 1 - x
bit_xor_ones zero x h = let e : x ≡ 0 = omega arith in rw e refl
bit_xor_ones (suc k) x h =
    let half : (2 ^ suc k - 1) / 2 ≡ 2 ^ k - 1 = omega (arith, pow-suc 2 k) in
    let rest : bit_xor (x / 2) ((2 ^ suc k - 1) / 2) ≡ 2 ^ k - 1 - x / 2 =
      rw half (bit_xor_ones k (x / 2) (omega (arith, pow-suc 2 k))) in
    omega (arith, bit_xor_low x (2 ^ suc k - 1), rest, pow-suc 2 k)

complement24 : (b : ℕ) → b < 2 ^ 24 → bit_xor b 0xffffff ≡ 2 ^ 24 - 1 - b
complement24 b lb = bit_xor_ones 24 b lb

-- The sign of the sum of two values.
abbrev sum_sign : ℕ → ℕ → Bool
sum_sign a b = sign24 (u32 (bit_and a 0xffffff + bit_and b 0xffffff))

-- The sum of two signed values leaves the range.
abbrev overflows : ℕ → ℕ → Bool
overflows a b =
    as_int (sign24 a) == as_int (sign24 b) && not (as_int (sign24 a) == as_int (sum_sign a b))

pub add24_value : (a b flags : ℕ) → a < 2 ^ 24 → b < 2 ^ 24 → (add24 a b flags).0 ≡ (a + b) % 2 ^ 24
unfolding add24 bit
add24_value a b flags la lb =
    low24 (u32 (bit_and a 0xffffff + bit_and b 0xffffff)) ∙ omega (arith, low24 a, low24 b)

pub overflows_lem :
    (a b : ℕ)
    → a < 2 ^ 24
    → b < 2 ^ 24
    → overflows a b
      ≡ (ltb_ℤ (pos 0x7fffff) (int24 a +ℤ int24 b) || ltb_ℤ (int24 a +ℤ int24 b) (negsuc 0x7fffff))
overflows_lem a b la lb = rw (sign24_lem a) (
    rw (sign24_lem b) (
      rw (sign24_lem (u32 (bit_and a 0xffffff + bit_and b 0xffffff)))
        (rw (low24 a) (rw (low24 b) (ground arith)))))

pub add24_v : (a b flags : ℕ) → bit 5 ((add24 a b flags).1) ≡ overflows a b
unfolding add24 bit
add24_v a b flags = set_flag_other 5 flag_lt _ _ refl refl ∙ set_flag_same 5 flag_v _ _ refl refl

pub add24_lt :
    (a b flags : ℕ)
    → bit 4 ((add24 a b flags).1) ≡ (if overflows a b then not (sum_sign a b) else sum_sign a b)
unfolding add24 bit
add24_lt a b flags = set_flag_same 4 flag_lt _ _ refl refl

pub add24_z : (a b flags : ℕ) → bit 3 ((add24 a b flags).1) ≡ ((add24 a b flags).0 == 0)
unfolding add24 bit
add24_z a b flags =
    set_flag_other 3 flag_lt _ _ refl refl
    ∙ set_flag_other 3 flag_v _ _ refl refl
    ∙ set_flag_same 3 flag_z _ _ refl refl

pub negate24_lem : (b : ℕ) → b < 2 ^ 24 → negate24 b ≡ (2 ^ 24 - b) % 2 ^ 24
unfolding negate24
negate24_lem b lb = low24 _ ∙ omega (arith, complement24 b lb)
