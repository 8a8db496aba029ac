-- ===== src/Es5510/Word.antt =====
-- native/es5510_core.c, lines 45 to 137: the arithmetic of the signal processor. An `int32_t` and
-- an `int64_t` are the words of their 32 and 64 digits.
use ensoniq_eps_16_plus.Base.{
  ℕ, ◌+◌, ◌-◌, ◌*◌, ◌/◌, ◌^◌, ◌==◌, nonzero, ltb, if◌then◌else◌, as_int, u8, u16, u32, u64, bit_and,
  bit_or, bit_xor, Bool, false, not, ◌&&◌, ◌||◌,
}

abbrev flag_n : ℕ
flag_n = 0x80

abbrev flag_c : ℕ
flag_c = 0x40

abbrev pub flag_v : ℕ
flag_v = 0x20

abbrev pub flag_lt : ℕ
flag_lt = 0x10

abbrev pub flag_z : ℕ
flag_z = 0x08

abbrev pub flag_not : ℕ
flag_not = 0x04

-- `FLAG_N | FLAG_C | FLAG_V | FLAG_LT | FLAG_Z`
abbrev pub flag_mask : ℕ
flag_mask = 0xf8

-- The sign of a 24-bit value.
abbrev pub sign24 : ℕ → Bool
sign24 value = nonzero (bit_and value 0x800000)

unfoldable pub sext24 : ℕ → ℕ
sext24 value = let low = bit_and value 0xffffff in if sign24 low then bit_or low 0xff000000 else low

unfoldable pub sext48 : ℕ → ℕ
sext48 value =
    let low = bit_and value 0xffffffffffff in
    if nonzero (bit_and low 0x800000000000) then bit_or low 0xffff000000000000 else low

-- Conversion of an `int32_t` to an `int64_t`.
abbrev pub to_int64 : ℕ → ℕ
to_int64 value = if ltb value (2 ^ 31) then value else value + (2 ^ 64 - 2 ^ 32)

-- The order of two values of type `int64_t`.
abbrev pub lt_int64 : ℕ → ℕ → Bool
lt_int64 a b = ltb (u64 (a + 2 ^ 63)) (u64 (b + 2 ^ 63))

-- `-n` as an `int64_t`.
abbrev pub minus_int64 : ℕ → ℕ
minus_int64 n = 2 ^ 64 - n

unfoldable pub set_flag : ℕ → Bool → ℕ → ℕ
set_flag flag enabled flags = if enabled then bit_or flags flag else bit_and flags (u8 (255 - flag))

-- A function that changes the flags takes them last, and returns them beside its result.
unfoldable pub add24 : ℕ → ℕ → ℕ → ℕ × ℕ
add24 a b flags =
    let sum = u32 (bit_and a 0xffffff + bit_and b 0xffffff) in
    let a_sign = sign24 a in
    let b_sign = sign24 b in
    let result_sign = sign24 sum in
    let overflow = as_int a_sign == as_int b_sign && not (as_int a_sign == as_int result_sign) in
    let with_c = set_flag flag_c (nonzero (bit_and sum 0x1000000)) flags in
    let with_n = set_flag flag_n result_sign with_c in
    let with_z = set_flag flag_z (bit_and sum 0xffffff == 0) with_n in
    let with_v = set_flag flag_v overflow with_z in
    let with_lt = set_flag flag_lt (if overflow then not result_sign else result_sign) with_v in
    (bit_and sum 0xffffff, with_lt)

unfoldable pub negate24 : ℕ → ℕ
negate24 value = bit_and (u32 (bit_xor value 0xffffff + 1)) 0xffffff

unfoldable pub saturate24 : ℕ → Bool → ℕ → ℕ × ℕ
saturate24 value negative flags =
    if nonzero (bit_and flags flag_v)
    then (
      (if negative then 0x800000 else 0x7fffff),
      set_flag flag_z false (set_flag flag_n negative flags),
    )
    else (bit_and value 0xffffff, flags)

unfoldable pub shift_left : ℕ → ℕ → ℕ → ℕ × ℕ
shift_left value shift flags =
    let shifted = u64 (to_int64 (sext24 value) * 2 ^ shift) in
    let overflow = lt_int64 0x7fffff shifted || lt_int64 shifted (minus_int64 0x800000) in
    let result =
      if overflow
      then (if lt_int64 shifted 0 then 0x800000 else 0x7fffff)
      else bit_and (u32 shifted) 0xffffff in
    let with_c =
      set_flag flag_c (nonzero (bit_and (bit_and value 0xffffff / 2 ^ (24 - shift)) 1)) flags in
    let with_v = set_flag flag_v overflow with_c in
    let with_n = set_flag flag_n (sign24 result) with_v in
    (result, set_flag flag_z (result == 0) with_n)

-- The last lines of the three logical operations.
abbrev pub logical : ℕ → ℕ → ℕ × ℕ
logical result flags =
    (result, set_flag flag_z (result == 0) (set_flag flag_n (sign24 result) flags))

unfoldable pub alu_operation : ℕ → ℕ → ℕ → ℕ → ℕ × ℕ
alu_operation op a b flags =
    let minus = add24 a (negate24 b) flags in
    let plus = add24 a b flags in
    if op == 0
    then saturate24 plus.0 (sign24 a) plus.1
    else if op == 1
    then saturate24 minus.0 (sign24 a) minus.1
    else if op == 2
    then plus
    else if op == 3
    then minus
    else if op == 4
    then (a, minus.1)
    else if op == 5
    then logical (bit_and a b) flags
    else if op == 6
    then logical (bit_or a b) flags
    else if op == 7
    then logical (bit_xor a b) flags
    else if op == 8
    then (let result = if sign24 b then bit_xor 0xffffff b else b in
        let with_c = set_flag flag_c (sign24 b) (bit_and flags (u8 (255 - flag_n))) in
        (result, set_flag flag_z (bit_and result 0xffffff == 0) with_c))
    else if op == 9
    then (b, flags)
    else if op == 10
    then shift_left b 2 flags
    else if op == 11
    then shift_left b 8 flags
    else if op == 12
    then (
      bit_and (u32 (b * 2 ^ 15)) 0x7fffff,
      set_flag flag_c (sign24 b) (bit_and flags (u8 (255 - flag_n))),
    )
    else if op == 13
    then add24 0x7fffff (negate24 b) flags
    else if op == 14
    then (
      bit_or (b / 2) (bit_and b 0x800000),
      set_flag flag_c (nonzero (bit_and b 1)) (set_flag flag_n (sign24 b) flags),
    )
    else (0, flags)

-- The shift of an `int32_t` to the right by 8 keeps its sign.
unfoldable pub round24to16 : ℕ → ℕ
round24to16 value =
    let signed_value = sext24 value in
    let negative = not (ltb signed_value (2 ^ 31)) in
    let add = negative && nonzero (bit_and value 0xff) in
    let shifted =
      if negative then signed_value / 2 ^ 8 + (2 ^ 32 - 2 ^ 24) else signed_value / 2 ^ 8 in
    u16 (shifted + as_int add)
