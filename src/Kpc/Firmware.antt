-- ===== src/Kpc/Firmware.antt =====
-- native/kpc_firmware.c: the EPROM image of the controller. A file is what `fopen` and `fread` make
-- of it: nothing if it cannot be opened, else its bytes and whether a read error was met.
use ensoniq_eps_16_plus.Base.{
  ℕ, zero, suc, ◌+◌, ◌-◌, ◌*◌, ◌^◌, ◌==◌, ◌!=◌, ltb, u16, bit_or, if◌then◌else◌, Bool, true, false,
  not, ◌||◌, ◌&&◌, List, [], ◌∷◌, Option, none, some,
}

abbrev eprom_size : ℕ
eprom_size = 0x8000

abbrev program_offset : ℕ
program_offset = 0x6000

pub record KpcFirmware : Type 0 where
  pub eprom : ℕ → ℕ
  pub reset_vector : ℕ
  pub loaded : Bool

pub record RomFile : Type 0 where
  pub bytes : List ℕ
  pub read_error : Bool

abbrev pub length : List ℕ → ℕ
length [] = 0
length (b ∷ bs) = suc (length bs)

-- The array that `fread` fills over zeros.
abbrev pub byte_at : List ℕ → ℕ → ℕ
byte_at [] i = 0
byte_at (b ∷ bs) zero = b
byte_at (b ∷ bs) (suc i) = byte_at bs i

-- Whether the first `n` bytes are all 0xff.
abbrev erased : ℕ → List ℕ → Bool
erased zero bs = true
erased (suc n) [] = false
erased (suc n) (b ∷ bs) = b == 0xff && erased n bs

-- `none` is a failure; the error texts are left out.
unfoldable pub firmware_load : Option RomFile → Option KpcFirmware
firmware_load none = none
firmware_load (some file) =
    let eprom = byte_at file.bytes in
    let reset_vector = u16 (bit_or (eprom (eprom_size - 2) * 2 ^ 8) (eprom (eprom_size - 1))) in
    if file.read_error
    then none
    else if length file.bytes != eprom_size
    then none
    else if not (erased program_offset file.bytes)
    then none
    else if ltb reset_vector 0xe000
    then none
    else some (record { eprom = eprom; reset_vector = reset_vector; loaded = true })

unfoldable pub firmware_read : KpcFirmware → ℕ → ℕ
firmware_read firmware address =
    if not firmware.loaded || ltb address 0xe000
    then 0xff
    else firmware.eprom (program_offset + (address - 0xe000))
