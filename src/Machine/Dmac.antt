-- ===== src/Machine/Dmac.antt =====
-- native/rom_probe.c, lines 175 to 220 and 2211 to 2326: the state of the main machine's disk and
-- transfer devices, and the registers of the transfer controller. The traces are left out.
use ensoniq_eps_16_plus.Base.{
  ℕ, ◌+◌, ◌-◌, ◌*◌, ◌/◌, ◌^◌, ◌==◌, ltb, leb, if◌then◌else◌, nonzero, as_int, u8, u16, u64, bit_and,
  bit_or, Bool, false, not, ◌&&◌, ◌||◌, Option, none, some, update,
}

-- `fdc_data` is a place in `disk_image`, and `none` a null pointer. The direction of a step is
-- `fdc_step_inwards`, for 1 and -1. `scsi_position` is the place of the file's next byte.
pub record Machine : Type 0 where
  pub disk_image : ℕ → ℕ
  pub disk_sector_status : ℕ → ℕ
  pub disk_loaded : Bool
  pub duart_output : ℕ
  pub fdc_track : ℕ
  pub fdc_physical_track : ℕ
  pub fdc_sector : ℕ
  pub fdc_data_register : ℕ
  pub fdc_last_command : ℕ
  pub fdc_error_status : ℕ
  pub fdc_step_inwards : Bool
  pub fdc_data : Option ℕ
  pub fdc_remaining : ℕ
  pub fdc_data_reads : ℕ
  pub fdc_reads : ℕ
  pub dmac_registers : ℕ → ℕ → ℕ
  pub dmac_irq_channel : Option ℕ
  pub dmac_transfers : ℕ
  pub dmac_pcl_level : ℕ → Bool
  pub low_ram : ℕ → ℕ
  pub sample_ram : ℕ → ℕ
  pub os_ram : ℕ → ℕ
  pub rom : ℕ → ℕ
  pub sample_ram_write_bytes : ℕ
  pub scsi_registers : ℕ → ℕ
  pub scsi_address : ℕ
  pub scsi_aux_status : ℕ
  pub scsi_buffer : ℕ → ℕ
  pub scsi_buffer_position : ℕ
  pub scsi_buffer_size : ℕ
  pub scsi_image : Option (ℕ → ℕ)
  pub scsi_position : ℕ
  pub scsi_image_size : ℕ
  pub scsi_stream_remaining : ℕ
  pub scsi_dma_padding_remaining : ℕ

-- `registers[channel][reg] = value`
abbrev set_register : ℕ → ℕ → ℕ → Machine → Machine
set_register channel reg value m = record m {
  dmac_registers = update m.dmac_registers channel (update (m.dmac_registers channel) reg value);
}

abbrev is_channel : Option ℕ → ℕ → Bool
is_channel none channel = false
is_channel (some c) channel = c == channel

-- The first channel to interrupt holds the line.
abbrev pub claim : ℕ → Bool → Machine → Machine
claim channel wanted m = elim m.dmac_irq_channel [
  | none ↦ if wanted then record m { dmac_irq_channel = some channel } else m
  | some c ↦ m
]

unfoldable pub dmac_get16 : Machine → ℕ → ℕ → ℕ
dmac_get16 m channel offset =
    bit_or (m.dmac_registers channel offset * 2 ^ 8) (m.dmac_registers channel (offset + 1))

-- The level of a channel's line: a fall sets PCT, and interrupts where it is to.
unfoldable pub dmac_pcl_write : ℕ → Bool → Machine → Machine
dmac_pcl_write channel state m =
    let old_state = m.dmac_pcl_level channel in
    let levelled = record m { dmac_pcl_level = update m.dmac_pcl_level channel state } in
    let status = m.dmac_registers channel 0 in
    let mode = bit_and (m.dmac_registers channel 4) 0x07 in
    let fallen = set_register channel 0 (bit_and status 0xfe) levelled in
    let counted =
      if mode == 0 || mode == 1
      then set_register channel 0 (bit_or (bit_and status 0xfe) 0x02) levelled
      else fallen in
    if as_int state == as_int old_state
    then m
    else if state
    then set_register channel 0 (bit_or status 0x01) levelled
    else claim channel (mode == 1 && nonzero (bit_and (m.dmac_registers channel 7) 0x08)) counted

unfoldable pub dmac_get32 : Machine → ℕ → ℕ → ℕ
dmac_get32 m channel offset =
    bit_or (dmac_get16 m channel offset * 2 ^ 16) (dmac_get16 m channel (offset + 2))

unfoldable pub dmac_set16 : ℕ → ℕ → ℕ → Machine → Machine
dmac_set16 channel offset value m =
    set_register channel (offset + 1) (u8 value)
      (set_register channel offset (u8 (value / 2 ^ 8)) m)

unfoldable pub dmac_set32 : ℕ → ℕ → ℕ → Machine → Machine
dmac_set32 channel offset value m =
    dmac_set16 channel (offset + 2) (u16 value) (dmac_set16 channel offset (u16 (value / 2 ^ 16)) m)

unfoldable pub dmac_read8 : Machine → ℕ → ℕ
dmac_read8 m address =
    let offset = address - 0x240000 in
    m.dmac_registers (bit_and (offset / 2 ^ 6) 3) (bit_and offset 0x3f)

-- The line of the channel is let go.
abbrev release : ℕ → Machine → Machine
release channel m =
    if is_channel m.dmac_irq_channel channel then record m { dmac_irq_channel = none } else m

-- A write of the status clears the digits that it has set.
abbrev write_status : ℕ → ℕ → Machine → Machine
write_status channel value m =
    let c =
      set_register channel 0 (bit_and (m.dmac_registers channel 0) (255 - bit_and value 0xf6)) m in
    let d = if nonzero (bit_and value 0x10) then set_register channel 1 0 c else c in
    if bit_and (d.dmac_registers channel 0) 0xf2 == 0 then release channel d else d

-- The commands of register 7: start, abort, and the mask of the interrupt.
abbrev write_control : ℕ → ℕ → Machine → Machine
write_control channel value m =
    let started =
      if nonzero (bit_and value 0x80)
      then set_register channel 0 (bit_or (bit_and (m.dmac_registers channel 0) 0x1f) 0x08) m
      else m in
    let aborted =
      if nonzero (bit_and value 0x10)
      then set_register channel 7 (bit_and (started.dmac_registers channel 7) 0x3f)
          (set_register channel 0 (bit_and (started.dmac_registers channel 0) 0xf7) started)
      else started in
    if not (nonzero (bit_and value 0x08)) then release channel aborted else aborted

unfoldable pub dmac_write8 : ℕ → ℕ → Machine → Machine
dmac_write8 address value m =
    let offset = address - 0x240000 in
    let channel = bit_and (offset / 2 ^ 6) 3 in
    let reg = bit_and offset 0x3f in
    let written = set_register channel reg value m in
    if reg == 0
    then write_status channel value m
    else if reg == 7
    then write_control channel value written
    else written

unfoldable pub dmac_memory_write8 : ℕ → ℕ → Machine → Machine
dmac_memory_write8 address value m =
    let a = bit_and address 0xffffff in
    if ltb a 0x8000
    then record m { low_ram = update m.low_ram a value }
    else if leb 0x580000 a && ltb a (0x580000 + 0x280000)
    then record m {
      sample_ram = update m.sample_ram (a - 0x580000) value;
      sample_ram_write_bytes = u64 (m.sample_ram_write_bytes + 1);
    }
    else if leb 0xff0000 a
    then record m { os_ram = update m.os_ram (a - 0xff0000) value }
    else m

unfoldable pub dmac_memory_read8 : Machine → ℕ → ℕ
dmac_memory_read8 m address =
    let a = bit_and address 0xffffff in
    if ltb a 0x8000
    then m.low_ram a
    else if leb 0x580000 a && ltb a (0x580000 + 0x280000)
    then m.sample_ram (a - 0x580000)
    else if leb 0xff0000 a
    then m.os_ram (a - 0xff0000)
    else if leb 0xc00000 a && ltb a (0xc00000 + 0x20000)
    then m.rom (a - 0xc00000)
    else 0

unfoldable pub dmac_complete : ℕ → Machine → Machine
dmac_complete channel m =
    let status =
      set_register channel 0 (bit_and (bit_or (m.dmac_registers channel 0) 0xe0) 0xf7) m in
    let idle = set_register channel 7 (bit_and (m.dmac_registers channel 7) 0x3f) status in
    claim channel (nonzero (bit_and (m.dmac_registers channel 7) 0x08)) idle
