-- ===== src/Hfe/Mfm.antt =====
-- native/hfe_disk.c, lines 206 to 289: the MFM stream and the layout of one side of a track.
use ensoniq_eps_16_plus.Base.{
  ℕ, zero, suc, ◌+◌, ◌-◌, ◌*◌, ◌/◌, ◌%◌, ◌^◌, ◌==◌, nonzero, as_int, ltb, if◌then◌else◌, u8, u16,
  bit_and, bit_or, not, ◌||◌, List, [], ◌∷◌, Option, none, some, update,
}
use ensoniq_eps_16_plus.Hfe.Codec.{Buffer, crc16}

pub record MfmStream : Type 0 where
  pub bytes : Buffer
  pub size : ℕ
  pub capacity : ℕ
  pub previous_data_bit : ℕ

-- `none` is the 0 of a full stream.
infixl 5 ◌>>=◌
abbrev pub ◌>>=◌ : {A B : Type 0} → Option A → (A → Option B) → Option B
none >>= f = none
some a >>= f = f a

unfoldable pub mfm_word : ℕ → MfmStream → Option MfmStream
mfm_word word stream =
    let b1 = update stream.bytes stream.size (u8 (word / 2 ^ 8)) in
    let b2 = update b1 (stream.size + 1) (u8 word) in
    if ltb stream.capacity (stream.size + 2)
    then none
    else some (record stream { bytes = b2; size = stream.size + 2 })

-- The loop of `mfm_byte` over bits 7 to 0, with the rounds left: the word and the last data bit.
abbrev pub mfm_bits : ℕ → ℕ → ℕ → ℕ → ℕ × ℕ
mfm_bits zero value previous word = (word, previous)
mfm_bits (suc n) value previous word =
    let data_bit = bit_and (value / 2 ^ n) 1 in
    let clock_bit = as_int (not (nonzero previous || nonzero data_bit)) in
    let word1 = u16 (bit_or (word * 2) clock_bit) in
    mfm_bits n value data_bit (u16 (bit_or (word1 * 2) data_bit))

unfoldable pub mfm_byte : ℕ → MfmStream → Option MfmStream
unfolding mfm_word
mfm_byte value stream =
    let (word, previous) = mfm_bits 8 value stream.previous_data_bit 0 in
    mfm_word word (record stream { previous_data_bit = previous })

unfoldable pub mfm_repeat : ℕ → ℕ → MfmStream → Option MfmStream
mfm_repeat value zero stream = some stream
mfm_repeat value (suc count) stream = mfm_byte value stream >>= mfm_repeat value count

unfoldable pub mfm_sync_a1 : MfmStream → Option MfmStream
mfm_sync_a1 stream = mfm_word 0x4489 (record stream { previous_data_bit = 1 })

-- A loop that encodes the bytes of an array.
unfoldable pub mfm_bytes : List ℕ → MfmStream → Option MfmStream
mfm_bytes [] stream = some stream
mfm_bytes (value ∷ values) stream = mfm_byte value stream >>= mfm_bytes values

-- The `count` bytes of `p` from `offset` on.
abbrev pub slice : Buffer → ℕ → ℕ → List ℕ
slice p offset zero = []
slice p offset (suc count) = p offset ∷ slice p (offset + 1) count

-- The checksum of a field runs over the three sync bytes, the mark and the field.
abbrev pub sync_crc : ℕ
sync_crc = crc16 (0xa1 ∷ 0xa1 ∷ 0xa1 ∷ []) 0xffff

abbrev sector_id : ℕ → ℕ → ℕ → List ℕ
sector_id track side sector = 0xfe ∷ u8 track ∷ u8 side ∷ u8 sector ∷ 2 ∷ []

unfoldable pub sync_mark : MfmStream → Option MfmStream
sync_mark stream = do
  s0 ← mfm_repeat 0x00 12 stream
  s1 ← mfm_sync_a1 s0
  s2 ← mfm_sync_a1 s1
  mfm_sync_a1 s2

unfoldable pub encode_id : ℕ → ℕ → ℕ → MfmStream → Option MfmStream
encode_id track side sector stream = do
  let id = sector_id track side sector
  let id_crc = crc16 id sync_crc
  s1 ← sync_mark stream
  s2 ← mfm_bytes id s1
  s3 ← mfm_byte (u8 (id_crc / 2 ^ 8)) s2
  s4 ← mfm_byte (u8 id_crc) s3
  mfm_repeat 0x4e 22 s4

unfoldable pub encode_sector_data : List ℕ → MfmStream → Option MfmStream
encode_sector_data sector_data stream = do
  let data_crc = crc16 sector_data (crc16 (0xfb ∷ []) sync_crc)
  s1 ← sync_mark stream
  s2 ← mfm_byte 0xfb s1
  s3 ← mfm_bytes sector_data s2
  s4 ← mfm_byte (u8 (data_crc / 2 ^ 8)) s3
  s5 ← mfm_byte (u8 data_crc) s4
  mfm_repeat 0x4e 40 s5

-- The sector that stands at a position of the track.
unfoldable pub sector_at : ℕ → ℕ → ℕ → ℕ
sector_at track side position = ((track * 6 + side * 8) % 10 + position) % 10

-- The loop over the ten positions, with the positions left.
unfoldable pub encode_sectors : Buffer → ℕ → ℕ → ℕ → ℕ → MfmStream → Option MfmStream
encode_sectors logical track side zero position stream = some stream
encode_sectors logical track side (suc n) position stream = do
  let sector = sector_at track side position
  let block = (track * 2 + side) * 10 + sector
  s1 ← encode_id track side sector stream
  s2 ← encode_sector_data (slice logical (block * 512) 512) s1
  encode_sectors logical track side n (position + 1) s2

-- The side is padded to its full size; `none` is a side that does not fit, or not evenly.
unfoldable pub encode_track_side : Buffer → ℕ → ℕ → Buffer → ℕ → Option MfmStream
encode_track_side logical track side encoded encoded_size = do
  let start : MfmStream = record {
    bytes = encoded;
    size = 0;
    capacity = encoded_size;
    previous_data_bit = 0;
  }
  s1 ← mfm_repeat 0x4e 80 start
  s2 ← encode_sectors logical track side 10 0 s1
  let padding = encoded_size - s2.size
  s3 ←
      if ltb encoded_size s2.size || nonzero (padding % 2)
      then none
      else mfm_repeat 0x4e (padding / 2) s2
  if s3.size == encoded_size then some s3 else none
