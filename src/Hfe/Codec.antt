-- ===== src/Hfe/Codec.antt =====
-- native/hfe_disk.c, lines 23 to 70 and 388 to 394: numbers in bytes, the checksum, and MFM words.
-- A pointer into a buffer is the function that gives the byte at each offset from it.
use ensoniq_eps_16_plus.Base.{
  ℕ, zero, suc, ◌+◌, ◌-◌, ◌*◌, ◌/◌, ◌^◌, nonzero, ltb, if◌then◌else◌, u8, u16, bit_and, bit_or,
  bit_xor, ◌||◌, List, [], ◌∷◌, Option, none, some, update,
}

abbrev pub Buffer : Type 0
Buffer = ℕ → ℕ

-- `p + offset`
abbrev pub advance : Buffer → ℕ → Buffer
advance p offset i = p (offset + i)

unfoldable pub le16 : Buffer → ℕ
le16 p = u16 (bit_or (p 0) (p 1 * 2 ^ 8))

unfoldable pub be16 : Buffer → ℕ
be16 p = u16 (bit_or (p 0 * 2 ^ 8) (p 1))

-- One round of the inner loop of `crc16`.
unfoldable pub crc_shift : ℕ → ℕ
crc_shift crc =
    if nonzero (bit_and crc 0x8000) then u16 (bit_xor (crc * 2) 0x1021) else u16 (crc * 2)

abbrev pub crc_shifts : ℕ → ℕ → ℕ
crc_shifts zero crc = crc
crc_shifts (suc n) crc = crc_shifts n (crc_shift crc)

unfoldable pub crc_byte : ℕ → ℕ → ℕ
crc_byte crc byte = crc_shifts 8 (bit_xor crc (u16 (byte * 2 ^ 8)))

-- `crc16` over the bytes `data[0..size)`.
unfoldable pub crc16 : List ℕ → ℕ → ℕ
crc16 [] crc = crc
crc16 (byte ∷ data_bytes) crc = crc16 data_bytes (crc_byte crc byte)

unfoldable pub reverse_bits : ℕ → ℕ
reverse_bits value =
    let v1 = u8 (bit_or (bit_and value 0x55 * 2) (bit_and (value / 2) 0x55)) in
    let v2 = u8 (bit_or (bit_and v1 0x33 * 2 ^ 2) (bit_and (v1 / 2 ^ 2) 0x33)) in
    u8 (bit_or (v2 * 2 ^ 4) (v2 / 2 ^ 4))

-- The loop of `decode_word`: bits 14, 12, ..., 0, with the rounds left.
abbrev pub decode_bits : ℕ → ℕ → ℕ → ℕ
decode_bits zero word value = value
decode_bits (suc n) word value =
    decode_bits n word (u8 (bit_or (value * 2) (bit_and (word / 2 ^ (2 * n)) 1)))

unfoldable pub decode_word : Buffer → ℕ
unfolding be16
decode_word encoded = decode_bits 8 (be16 encoded) 0

unfoldable pub put_le16 : Buffer → ℕ → ℕ → Buffer
put_le16 target at value = update (update target at (u8 value)) (at + 1) (u8 (value / 2 ^ 8))

unfoldable pub put_be24 : Buffer → ℕ → ℕ → Buffer
put_be24 target at value =
    update (update (update target at (u8 (value / 2 ^ 16))) (at + 1) (u8 (value / 2 ^ 8))) (at + 2)
      (u8 value)

unfoldable pub put_be32 : Buffer → ℕ → ℕ → Buffer
put_be32 target at value =
    let t1 = update target at (u8 (value / 2 ^ 24)) in
    let t2 = update t1 (at + 1) (u8 (value / 2 ^ 16)) in
    let t3 = update t2 (at + 2) (u8 (value / 2 ^ 8)) in update t3 (at + 3) (u8 value)

-- The loop of `decode_bytes` at byte `offset`, with the bytes left.
unfoldable pub decode_from : Buffer → ℕ → ℕ → List ℕ
decode_from stream offset zero = []
decode_from stream offset (suc n) =
    decode_word (advance stream offset) ∷ decode_from stream (offset + 2) n

-- `none` is the 0 of a field that runs out of the stream.
unfoldable pub decode_bytes : Buffer → ℕ → ℕ → ℕ → Option (List ℕ)
decode_bytes stream stream_size offset count =
    if ltb stream_size offset || ltb ((stream_size - offset) / 2) count
    then none
    else some (decode_from stream offset count)
