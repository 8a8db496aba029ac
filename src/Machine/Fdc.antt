-- ===== src/Machine/Fdc.antt =====
-- native/rom_probe.c, lines 2082 to 2209: the floppy disk controller. The traces are left out.
use ensoniq_eps_16_plus.Base.{
  ℕ, ◌+◌, ◌-◌, ◌*◌, ◌/◌, ◌^◌, ◌==◌, ◌!=◌, ltb, leb, if◌then◌else◌, nonzero, u32, bit_and, bit_xor,
  true, false, ◌&&◌, ◌||◌, none, some, update,
}
use ensoniq_eps_16_plus.Machine.Dmac.{Machine, dmac_pcl_write}

abbrev pub fdc_base : ℕ
fdc_base = 0x2c0000

abbrev pub fdc_register : ℕ → ℕ
fdc_register address = bit_and ((address - fdc_base) / 2) 3

-- A command that steps the head, or an interrupt, reports track 0.
abbrev pub fdc_status : Machine → ℕ
fdc_status m =
    if nonzero m.fdc_remaining
    then 0x03
    else if nonzero m.fdc_error_status
    then m.fdc_error_status
    else if (bit_and m.fdc_last_command 0x80 == 0 || bit_and m.fdc_last_command 0xf0 == 0xd0)
        && m.fdc_physical_track == 0
    then 0x04
    else 0x00

-- After the last byte the controller interrupts.
abbrev pub finish_byte : Machine → Machine
finish_byte m = if m.fdc_remaining == 0 then dmac_pcl_write 0 false m else m

abbrev pub next_byte : Machine → Machine
next_byte m = elim m.fdc_data [ none ↦ m | some at ↦ record m { fdc_data = some (at + 1) } ]

abbrev pub byte_at_data : Machine → ℕ
byte_at_data m = elim m.fdc_data [ none ↦ 0 | some at ↦ m.disk_image at ]

unfoldable pub fdc_read : ℕ → Machine → ℕ × Machine
fdc_read address m =
    let reg = fdc_register address in
    let moved = next_byte m in
    if reg == 0
    then (fdc_status m, dmac_pcl_write 0 true m)
    else if reg == 1
    then (m.fdc_track, m)
    else if reg == 2
    then (m.fdc_sector, m)
    else if m.fdc_remaining == 0
    then (0, m)
    else (
      byte_at_data m,
      finish_byte (record moved {
        fdc_data_reads = u32 (m.fdc_data_reads + 1);
        fdc_remaining = m.fdc_remaining - 1;
      }),
    )

unfoldable pub floppy_side : Machine → ℕ
floppy_side m = bit_xor (bit_and (m.duart_output / 2) 1) 1

-- A step of the head, between tracks 0 and 79.
abbrev pub step_head : ℕ → ℕ → Machine → Machine
step_head command_type value m =
    let inwards =
      if leb 6 command_type
      then false
      else if leb 4 command_type && leb command_type 5
      then true
      else m.fdc_step_inwards in
    let next = if inwards then m.fdc_physical_track + 1 else m.fdc_physical_track - 1 in
    let clamped = if ltb 79 next then 79 else next in
    dmac_pcl_write 0 false (record m {
      fdc_step_inwards = inwards;
      fdc_physical_track = clamped;
      fdc_track = if nonzero (bit_and value 0x10) then clamped else m.fdc_track;
    })

-- The number of the sector at the head.
abbrev pub block_at_head : Machine → ℕ
block_at_head m = (m.fdc_physical_track * 2 + floppy_side m) * 10 + m.fdc_sector

-- READ SECTOR and WRITE SECTOR.
abbrev pub start_sector : Machine → Machine
start_sector m =
    let block = block_at_head m in
    if m.disk_sector_status block != 0
    then dmac_pcl_write 0 false (record m {
      fdc_data = none;
      fdc_remaining = 0;
      fdc_error_status = m.disk_sector_status block;
    })
    else record m {
      fdc_data = some (block * 512);
      fdc_remaining = 512;
      fdc_reads = u32 (m.fdc_reads + 1);
    }

-- The rest of a write to the command register.
unfoldable pub fdc_command : ℕ → Machine → Machine
fdc_command value m =
    let command_type = value / 2 ^ 4 in
    let sought = if ltb m.fdc_data_register 80 then m.fdc_data_register else 79 in
    let idle = record m { fdc_remaining = 0 } in
    if command_type == 0
    then dmac_pcl_write 0 false (record m { fdc_physical_track = 0; fdc_track = 0 })
    else if command_type == 1
    then dmac_pcl_write 0 false (record m { fdc_physical_track = sought; fdc_track = sought })
    else if leb 2 command_type && leb command_type 7
    then step_head command_type value m
    else if command_type == 0xd
    then (if nonzero (bit_and value 0x08) then dmac_pcl_write 0 false idle else idle)
    else if (bit_and value 0xe0 == 0x80 || bit_and value 0xe0 == 0xa0)
        && m.disk_loaded
        && ltb m.fdc_physical_track 80
        && ltb m.fdc_sector 10
    then start_sector m
    else idle

-- A byte that goes to the disk.
abbrev pub write_byte : ℕ → Machine → Machine
write_byte value m = elim m.fdc_data [
  | none ↦ m
  | some at ↦ record m { disk_image = update m.disk_image at value; fdc_data = some (at + 1) }
]

unfoldable pub fdc_write : ℕ → ℕ → Machine → Machine
fdc_write address word m =
    let reg = fdc_register address in
    let value = bit_and word 0xff in
    let written = write_byte value m in
    let accepted =
      dmac_pcl_write 0 true (record m { fdc_last_command = value; fdc_error_status = 0 }) in
    if reg == 1
    then record m { fdc_track = value }
    else if reg == 2
    then record m { fdc_sector = value }
    else if reg == 3 && nonzero m.fdc_remaining && bit_and m.fdc_last_command 0xe0 == 0xa0
    then finish_byte (record written { fdc_remaining = m.fdc_remaining - 1 })
    else if reg == 3
    then record m { fdc_data_register = value }
    else fdc_command value accepted
