-- ===== src/Base/Int.antt =====
-- Signed integers over the native numbers, under the library's names: its ℤ stands on another ℕ.
use Prim.Native.Nat.{ℕ, suc, ◌+◌, ◌-◌, ◌*◌, ◌/◌, ◌%◌, ◌^◌}
use mathlib.Core.Bool.{Bool}
use ensoniq_eps_16_plus.Base.Tests.{ltb, leb, if◌then◌else◌}

-- `negsuc n` is -(n + 1).
pub data ℤ : Type 0 where
  pos : ℕ → ℤ
  negsuc : ℕ → ℤ

abbrev pub pos_part : ℤ → ℕ
pos_part (pos n) = n
pos_part (negsuc n) = 0

abbrev pub neg_part : ℤ → ℕ
neg_part (pos n) = 0
neg_part (negsuc n) = suc n

-- a - b, as an integer.
abbrev pub sub_ℕ : ℕ → ℕ → ℤ
sub_ℕ a b = if leb b a then pos (a - b) else negsuc (b - a - 1)

infixl 65 ◌+ℤ◌ ◌-ℤ◌
infixl 70 ◌*ℤ◌
abbrev pub ◌+ℤ◌ : ℤ → ℤ → ℤ
a +ℤ b = sub_ℕ (pos_part a + pos_part b) (neg_part a + neg_part b)

abbrev pub ◌-ℤ◌ : ℤ → ℤ → ℤ
a -ℤ b = sub_ℕ (pos_part a + neg_part b) (neg_part a + pos_part b)

abbrev pub ◌*ℤ◌ : ℤ → ℤ → ℤ
a *ℤ b =
    sub_ℕ (pos_part a * pos_part b + neg_part a * neg_part b)
      (pos_part a * neg_part b + neg_part a * pos_part b)

abbrev pub ltb_ℤ : ℤ → ℤ → Bool
ltb_ℤ a b = ltb (pos_part a + neg_part b) (pos_part b + neg_part a)

-- What a word of 16, 24 and 64 digits is as a signed number.
abbrev pub int16 : ℕ → ℤ
int16 x = if ltb x 0x8000 then pos x else negsuc (0xffff - x)

abbrev pub int24 : ℕ → ℤ
int24 x = if ltb x 0x800000 then pos x else negsuc (0xffffff - x)

-- The nearest number that 24 digits hold.
abbrev pub clamp24 : ℤ → ℤ
clamp24 a =
    if ltb_ℤ (pos 0x7fffff) a
    then pos 0x7fffff
    else if ltb_ℤ a (negsuc 0x7fffff)
    then negsuc 0x7fffff
    else a

abbrev pub int64 : ℕ → ℤ
int64 x = if ltb x (2 ^ 63) then pos x else negsuc (2 ^ 64 - 1 - x)

-- The quotient, rounded down.
abbrev pub floor_div : ℤ → ℕ → ℤ
floor_div (pos n) d = pos (n / d)
floor_div (negsuc n) d = negsuc (n / d)

-- A word of 32 digits as a signed number, and the word of a number.
abbrev pub int32 : ℕ → ℤ
int32 x = if ltb x (2 ^ 31) then pos x else negsuc (2 ^ 32 - 1 - x)

abbrev pub word32 : ℤ → ℕ
word32 (pos n) = n % 2 ^ 32
word32 (negsuc n) = 2 ^ 32 - 1 - n % 2 ^ 32

-- The result of an operation on `int32_t`, with the wrap-around of the machine.
abbrev pub wrap32 : ℤ → ℤ
wrap32 a = int32 (word32 a)

-- The quotient of C, rounded to zero.
abbrev pub quotient : ℤ → ℕ → ℤ
quotient a d = sub_ℕ (pos_part a / d) (neg_part a / d)
