-- ===== src/Hfe/Encode.antt =====
-- native/hfe_disk.c, lines 291 to 362: the HFE image of a disk.
use ensoniq_eps_16_plus.Base.{
  ℕ, zero, suc, ◌+◌, ◌-◌, ◌*◌, ◌/◌, ◌%◌, ◌!=◌, ltb, leb, if◌then◌else◌, ◌&&◌, ◌⊎◌, inl, inr, List,
  [], ◌∷◌, none, some, update,
}
use ensoniq_eps_16_plus.Hfe.Codec.{Buffer, put_le16, reverse_bits}
use ensoniq_eps_16_plus.Hfe.Mfm.{encode_track_side}
use ensoniq_eps_16_plus.Hfe.Image.{disk_size, store}

abbrev header_blocks : ℕ
header_blocks = 2

abbrev track_blocks : ℕ
track_blocks = 49

abbrev track_length : ℕ
track_length = 49 * 512

abbrev side_length : ℕ
side_length = 49 * 256

abbrev pub image_size : ℕ
image_size = (2 + 80 * 49) * 512

-- `"HXCPICFE"`
abbrev signature : List ℕ
signature = 0x48 ∷ 0x58 ∷ 0x43 ∷ 0x50 ∷ 0x49 ∷ 0x43 ∷ 0x46 ∷ 0x45 ∷ []

pub data EncodeError : Type 0 where
  bad_logical_size : EncodeError
  bad_encoding : ℕ → EncodeError

unfoldable pub hfe_header : Buffer → Buffer
hfe_header image =
    let named = update (store image 0 signature) 8 0 in
    let shaped = update (update (update named 9 80) 10 2) 11 0 in
    let timed = put_le16 (put_le16 shaped 12 250) 14 0 in
    put_le16 (update (update timed 16 7) 17 1) 18 1

-- The two sides in turns of 256 bytes, the digits of each byte in the reverse order.
abbrev interleave : ℕ → Buffer → Buffer → Buffer → Buffer
interleave start side0 side1 image i =
    if leb start i && ltb i (start + track_length)
    then (let at = i - start in
        let source = at / 512 * 256 + at % 256 in
        reverse_bits (if ltb (at % 512) 256 then side0 source else side1 source))
    else image i

-- The image and the two buffers of the sides, which each track uses again.
pub record Encoding : Type 0 where
  pub side0 : Buffer
  pub side1 : Buffer
  pub image : Buffer

unfoldable pub encode_track : Buffer → ℕ → Encoding → EncodeError ⊎ Encoding
encode_track logical track e =
    let start_block : ℕ = header_blocks + track * track_blocks in
    let entry : ℕ = 512 + track * 4 in
    let listed = put_le16 (put_le16 e.image entry start_block) (entry + 2) track_length in
    elim (encode_track_side logical track 0 e.side0 side_length) [
      | none ↦ inl (bad_encoding track)
      | some s0 ↦ elim (encode_track_side logical track 1 e.side1 side_length) [
        | none ↦ inl (bad_encoding track)
        | some s1 ↦ inr (record {
          side0 = s0.bytes;
          side1 = s1.bytes;
          image = interleave (start_block * 512) s0.bytes s1.bytes listed;
        })
      ]
    ]

-- The loop over the tracks, with the tracks left.
unfoldable pub encode_tracks : Buffer → ℕ → ℕ → Encoding → EncodeError ⊎ Encoding
encode_tracks logical zero track e = inr e
encode_tracks logical (suc left) track e = elim (encode_track logical track e) [
  | inl error ↦ inl error
  | inr encoded ↦ encode_tracks logical left (track + 1) encoded
]

-- The image has `image_size` bytes. The buffers of the sides start with what `memory` holds.
unfoldable pub encode_hfe : Buffer → Buffer → ℕ → EncodeError ⊎ Buffer
encode_hfe memory logical logical_size =
    if logical_size != disk_size
    then inl bad_logical_size
    else elim (encode_tracks logical 80 0
        (record { side0 = memory; side1 = memory; image = hfe_header (λ i. 0xff) })) [
          | inl error ↦ inl error
          | inr e ↦ inr e.image
        ]
