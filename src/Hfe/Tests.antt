-- ===== src/Hfe/Tests.antt =====
-- Runs of native/hfe_disk.c.
use ensoniq_eps_16_plus.Base.{
  ℕ, zero, suc, ◌+◌, ◌*◌, ◌/◌, ◌≡◌, ◌≢◌, refl, arith, List, [], ◌∷◌, none, some, inr, ltb, ◌%◌,
  ◌==◌, if◌then◌else◌, bit_and,
}
use ensoniq_eps_16_plus.Hfe.Codec.{Buffer, be16, decode_bytes}
use ensoniq_eps_16_plus.Hfe.Mfm.{MfmStream, mfm_bytes}
use ensoniq_eps_16_plus.Hfe.Image.{check_efe, has_efe_signature, create_from_efe, disk_size}
use ensoniq_eps_16_plus.Hfe.RoundTrip.{
  no_bytes, more_bytes, word_of, decode_bytes-mfm_bytes, mfm_bits_lem,
}
use ensoniq_eps_16_plus.Hfe.Chain.{be24_at, create_from_efe_lem}

abbrev stream : MfmStream
stream = record { bytes = λ i. 0; size = 6; capacity = 64; previous_data_bit = 1 }

bytes_example :
    (t : MfmStream) × (mfm_bytes (0xa1 ∷ 0xfe ∷ []) stream ≡ some t)
    × (decode_bytes t.bytes t.size 6 2 ≡ some (0xa1 ∷ 0xfe ∷ []))
bytes_example =
    decode_bytes-mfm_bytes (0xa1 ∷ 0xfe ∷ []) stream
      (more_bytes (omega arith) (more_bytes (omega arith) no_bytes)) (omega arith) (omega arith)

bits_example :
    (bit_and (word_of 0xa1 0) (word_of 0xa1 0 / 2) ≡ 0)
    × (word_of 0xa1 0 ≢ 0x4489)
    × (word_of 0xa1 0 ≢ 0x8944)
bits_example = mfm_bits_lem 0xa1 0 (omega arith) (omega arith)

-- An EFE file of a header and two blocks.
abbrev header : List ℕ
header = 0x0d ∷ 0x0a ∷ 0x45 ∷ 0x70 ∷ 0x73 ∷ 0x20 ∷ 0x46 ∷ 0x69 ∷ 0x6c ∷ 0x65 ∷ 0x3a ∷ []

abbrev nth : List ℕ → ℕ → ℕ
nth [] i = 0x41
nth (v ∷ vs) zero = v
nth (v ∷ vs) (suc i) = nth vs i

abbrev efe : Buffer
efe i =
    if i == 0x31
    then 0x1a
    else if i == 0x34
    then 0
    else if i == 0x35
    then 2
    else if i == 0x36
    then 0
    else if i == 0x37
    then 2
    else nth header i

efe_passes : check_efe efe 1536 ≡ inr 2
unfolding check_efe has_efe_signature be16
efe_passes = refl

disk_example :
    (disk : Buffer) × (create_from_efe efe 1536 (λ i. i) disk_size ≡ (none, disk))
    × (be24_at disk ((5 + (15 + 1) / 170) * 512 + (15 + 1) % 170 * 3)
        ≡ (if ltb (1 + 1) 2 then 15 + 1 + 1 else 1))
    × (disk (15 * 512 + 700) ≡ efe (512 + 700))
disk_example = create_from_efe_lem efe (λ i. i) 1536 2 1 700 efe_passes (omega arith) (omega arith)
