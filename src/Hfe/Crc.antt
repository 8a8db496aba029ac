-- ===== src/Hfe/Crc.antt =====
-- The checksum of native/hfe_disk.c: what it detects; and the order of the digits in a byte.
use ensoniq_eps_16_plus.Base.{
  ℕ, ◌+◌, ◌<◌, ◌^◌, ◌*◌, ◌/◌, ◌==◌, ◌&&◌, u8, u16, bit_xor, List, [], ◌∷◌, ◌++◌, ◌≡◌, refl, ap, ◌∙◌,
  arith, Bool, true,
}
use ensoniq_eps_16_plus.Base.Bits.{tested_below, tested_below_lem}
use ensoniq_eps_16_plus.Base.Fields.{bit_xor_cancel}
use ensoniq_eps_16_plus.Base.Tests.{==_iff}
use ensoniq_eps_16_plus.Hfe.Codec.{crc_shift, crc_shifts, crc_byte, crc16, reverse_bits}

abbrev twice_reversed : ℕ → Bool
twice_reversed v = reverse_bits (reverse_bits v) == v

reversals : tested_below 256 twice_reversed ≡ true
unfolding tested_below reverse_bits
reversals = refl

-- To reverse the order of the digits of a byte twice gives the byte.
reverse_bits-reverse_bits : (v : ℕ) → v < 2 ^ 8 → reverse_bits (reverse_bits v) ≡ v
reverse_bits-reverse_bits v h =
    (==_iff (reverse_bits (reverse_bits v)) v).0 (tested_below_lem 256 twice_reversed v reversals h)

crc16-++ : (xs ys : List ℕ) (c : ℕ) → crc16 (xs ++ ys) c ≡ crc16 ys (crc16 xs c)
unfolding crc16
crc16-++ [] ys c = refl
crc16-++ (x ∷ xs) ys c = crc16-++ xs ys (crc_byte c x)

abbrev shifted_out : ℕ → Bool
shifted_out l = crc_shifts 8 l == l * 2 ^ 8 && crc_byte (l * 2 ^ 8) l == 0

low_bytes : tested_below 256 shifted_out ≡ true
unfolding tested_below crc_byte crc_shift
low_bytes = refl

low_byte : (l : ℕ) → l < 2 ^ 8 → (crc_shifts 8 l ≡ l * 2 ^ 8) × (crc_byte (l * 2 ^ 8) l ≡ 0)
low_byte l h = ground (arith, tested_below_lem 256 shifted_out l low_bytes h)

high_byte : (h l : ℕ) → h < 2 ^ 8 → l < 2 ^ 8 → crc_byte (h * 2 ^ 8 + l) h ≡ l * 2 ^ 8
unfolding crc_byte
high_byte h l hh hl =
    let e : u16 (h * 2 ^ 8) ≡ h * 2 ^ 8 = omega arith in
    ap (λ t. crc_shifts 8 (bit_xor (h * 2 ^ 8 + l) t)) e
    ∙ ap (crc_shifts 8) (bit_xor_cancel 8 h l hl)
    ∙ (low_byte l hl).0

-- The checksum of a word by its own bytes is zero.
own_bytes : (w : ℕ) → w < 2 ^ 16 → crc_byte (crc_byte w (u8 (w / 2 ^ 8))) (u8 w) ≡ 0
own_bytes w h =
    let split : w ≡ u8 (w / 2 ^ 8) * 2 ^ 8 + u8 w = omega arith in
    ap (λ t. crc_byte (crc_byte t (u8 (w / 2 ^ 8))) (u8 w)) split
    ∙ ap (λ t. crc_byte t (u8 w)) (high_byte (u8 (w / 2 ^ 8)) (u8 w) (omega arith) (omega arith))
    ∙ (low_byte (u8 w) (omega arith)).1

crc_shift-lt : (c : ℕ) → crc_shift c < 2 ^ 16
unfolding crc_shift
crc_shift-lt c = ground arith

crc16-lt : (xs : List ℕ) (c : ℕ) → c < 2 ^ 16 → crc16 xs c < 2 ^ 16
unfolding crc16 crc_byte
crc16-lt [] c h = h
crc16-lt (x ∷ xs) c h = crc16-lt xs (crc_byte c x) (crc_shift-lt _)

-- From a checksum below 65536, a field that is followed by its own checksum, the high byte first,
-- has the checksum 0.
crc16-residue :
    (field : List ℕ) (c : ℕ)
    → c < 2 ^ 16
    → crc16 (field ++ u8 (crc16 field c / 2 ^ 8) ∷ u8 (crc16 field c) ∷ []) c ≡ 0
unfolding crc16
crc16-residue field c h =
    crc16-++ field (u8 (crc16 field c / 2 ^ 8) ∷ u8 (crc16 field c) ∷ []) c
    ∙ own_bytes (crc16 field c) (crc16-lt field c h)
