-- ===== src/Machine/Scsi.antt =====
-- native/rom_probe.c, lines 2328 to 2358 and 2407 to 2562: the SCSI controller. A file is its bytes
-- and its size; a seek inside it succeeds. The traces are left out.
use ensoniq_eps_16_plus.Base.{
  ℕ, ◌+◌, ◌-◌, ◌*◌, ◌/◌, ◌^◌, ◌==◌, ltb, leb, if◌then◌else◌, nonzero, u8, u32, bit_and, bit_or,
  Bool, true, false, ◌&&◌, ◌||◌, List, [], ◌∷◌, Option, none, some, update,
}
use ensoniq_eps_16_plus.Machine.Dmac.{Machine, dmac_pcl_write}

abbrev pub set_scsi : ℕ → ℕ → Machine → Machine
set_scsi reg value m = record m { scsi_registers = update m.scsi_registers reg value }

unfoldable pub scsi_raise_interrupt : Machine → Machine
scsi_raise_interrupt m =
    dmac_pcl_write 1 false (record m { scsi_aux_status = bit_or m.scsi_aux_status 0x80 })

unfoldable pub scsi_clear_interrupt : Machine → Machine
scsi_clear_interrupt m =
    dmac_pcl_write 1 true (record m { scsi_aux_status = bit_and m.scsi_aux_status 0x7f })

-- A command that ends with a status.
abbrev pub finish_command : ℕ → Machine → Machine
finish_command status m = scsi_raise_interrupt (set_scsi 0x17 status (set_scsi 0x18 0 m))

-- The count of the bytes that are left, and the end of the transfer with the last of them.
abbrev pub count_down : ℕ → Machine → Machine
count_down remaining m =
    let counted =
      set_scsi 0x14 (u8 remaining)
        (set_scsi 0x13 (u8 (remaining / 2 ^ 8)) (set_scsi 0x12 (u8 (remaining / 2 ^ 16)) m)) in
    if remaining == 0 then finish_command 0x16 counted else counted

-- `fgetc(scsi_image)`: 0 stands for the end of the file.
abbrev pub file_byte : Machine → ℕ
file_byte m = elim m.scsi_image [
  | none ↦ 0
  | some bytes ↦ if ltb m.scsi_position m.scsi_image_size then bytes m.scsi_position else 0
]

abbrev pub next_position : Machine → ℕ
next_position m =
    if ltb m.scsi_position m.scsi_image_size then m.scsi_position + 1 else m.scsi_position

-- A byte of the stream is taken.
abbrev pub take_stream : Machine → Machine
take_stream m =
    let left = m.scsi_stream_remaining - 1 in
    count_down (u32 left)
      (record m { scsi_position = next_position m; scsi_stream_remaining = left })

unfoldable pub scsi_dma_read8 : Machine → ℕ × Machine
scsi_dma_read8 m =
    if nonzero m.scsi_stream_remaining
    then (file_byte m, take_stream m)
    else if nonzero m.scsi_dma_padding_remaining
    then (0, record m { scsi_dma_padding_remaining = m.scsi_dma_padding_remaining - 1 })
    else (0, m)

-- `none` is a file that does not open; else its bytes and its size.
unfoldable scsi_mount_image : Option ((ℕ → ℕ) × ℕ) → Machine → Bool × Machine
scsi_mount_image none m = (false, m)
scsi_mount_image (some (bytes, size)) m =
    if size == 0 || nonzero (bit_and size 511)
    then (false, m)
    else (true, record m { scsi_image = some bytes; scsi_position = 0; scsi_image_size = size })

-- The answer to INQUIRY.
abbrev inquiry : List ℕ
inquiry =
    0x00 ∷ 0x80 ∷ 0x01 ∷ 0x01 ∷ 31 ∷ 0 ∷ 0 ∷ 0 ∷ 0x45 ∷ 0x4e ∷ 0x53 ∷ 0x4f ∷ 0x4e ∷ 0x49 ∷ 0x51
    ∷ 0x20 ∷ 0 ∷ 0 ∷ 0x43 ∷ 0x44 ∷ 0x2d ∷ 0x52 ∷ 0x4f ∷ 0x4d ∷ 0x20 ∷ 0x45 ∷ 0x50 ∷ 0x53 ∷ 0x20
    ∷ 0x20 ∷ 0x20 ∷ 0x20 ∷ 0x31 ∷ 0x2e ∷ 0x30 ∷ 0x20 ∷ []

-- The bytes of a list from 0 on, and zeros after it.
abbrev pub listed : List ℕ → ℕ → ℕ
listed [] i = 0
listed (v ∷ vs) i = if i == 0 then v else listed vs (i - 1)

-- REQUEST SENSE and INQUIRY fill the buffer of at most 256 bytes.
unfoldable pub scsi_discover : Machine → Machine
scsi_discover m =
    let size = if ltb 256 (m.scsi_registers 7) then 256 else m.scsi_registers 7 in
    let answer : ℕ → ℕ =
      if m.scsi_registers 3 == 0x03 then (λ i. if i == 0 then 0x70 else 0) else listed inquiry in
    set_scsi 0x17 (if nonzero size then 0x00 else 0x16) (record m {
      scsi_buffer = λ i. if ltb i size then answer i else m.scsi_buffer i;
      scsi_buffer_size = size;
      scsi_aux_status = if nonzero size then 0x01 else 0x80;
    })

abbrev pub scsi_lba : Machine → ℕ
scsi_lba m =
    bit_or
      (bit_or (bit_or (m.scsi_registers 5 * 2 ^ 24) (m.scsi_registers 6 * 2 ^ 16))
        (m.scsi_registers 7 * 2 ^ 8))
      (m.scsi_registers 8)

abbrev pub scsi_blocks : Machine → ℕ
scsi_blocks m = bit_or (m.scsi_registers 10 * 2 ^ 8) (m.scsi_registers 11)

-- READ (10): a stream that lies inside the image, or a selection that times out.
unfoldable pub scsi_start_read : Machine → Machine
scsi_start_read m =
    let offset = scsi_lba m * 512 in
    let bytes = scsi_blocks m * 512 in
    if nonzero bytes && leb offset m.scsi_image_size && leb bytes (m.scsi_image_size - offset)
    then set_scsi 0x17 0
        (record m { scsi_position = offset; scsi_stream_remaining = bytes; scsi_aux_status = 0x01 })
    else finish_command 0x42 m

abbrev pub has_image : Machine → Bool
has_image m = elim m.scsi_image [ none ↦ false | some bytes ↦ true ]

unfoldable pub scsi_command : ℕ → Machine → Machine
scsi_command command before =
    let m : Machine = record before {
      scsi_buffer_position = 0;
      scsi_buffer_size = 0;
      scsi_stream_remaining = 0;
      scsi_dma_padding_remaining = 0;
    } in
    let selected = bit_and command 0x7f == 0x09 && bit_and (m.scsi_registers 0x15) 7 == 0 in
    if command == 0
    then finish_command 0x00 m
    else if selected && (m.scsi_registers 3 == 0x03 || m.scsi_registers 3 == 0x12)
    then scsi_discover m
    else if selected && m.scsi_registers 3 == 0x00
    then finish_command 0x16 m
    else if selected && m.scsi_registers 3 == 0x28 && has_image m
    then scsi_start_read m
    else finish_command 0x42 m

-- What is read from a register.
abbrev scsi_value : ℕ → Machine → ℕ
scsi_value reg m =
    if reg == 0x19 && ltb m.scsi_buffer_position m.scsi_buffer_size
    then m.scsi_buffer m.scsi_buffer_position
    else if reg == 0x19 && nonzero m.scsi_stream_remaining
    then file_byte m
    else m.scsi_registers reg

-- What a read of a register does to the transfer.
abbrev scsi_advance : ℕ → Machine → Machine
scsi_advance reg m =
    if reg == 0x19 && ltb m.scsi_buffer_position m.scsi_buffer_size
    then count_down (m.scsi_buffer_size - (m.scsi_buffer_position + 1))
        (record m { scsi_buffer_position = m.scsi_buffer_position + 1 })
    else if reg == 0x19 && nonzero m.scsi_stream_remaining
    then take_stream m
    else m

unfoldable pub scsi_read8 : ℕ → Machine → ℕ × Machine
scsi_read8 address m =
    let reg = bit_and m.scsi_address 0x1f in
    let advanced = scsi_advance reg m in
    let cleared = if reg == 0x17 then scsi_clear_interrupt advanced else advanced in
    if bit_and address 2 == 0 then (m.scsi_aux_status, m) else (
      scsi_value reg m,
      if ltb reg 0x19 then record cleared { scsi_address = reg + 1 } else cleared,
    )

unfoldable pub scsi_write8 : ℕ → ℕ → Machine → Machine
scsi_write8 address value m =
    let reg = bit_and m.scsi_address 0x1f in
    let written = set_scsi reg value m in
    let done = if reg == 0x18 then scsi_command value written else written in
    if bit_and address 2 == 0
    then record m { scsi_address = bit_and value 0x1f }
    else if ltb reg 0x19
    then record done { scsi_address = reg + 1 }
    else done
