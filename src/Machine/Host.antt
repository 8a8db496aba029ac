-- ===== src/Machine/Host.antt =====
-- native/rom_probe.c, lines 538 to 654 and 1145 to 1252: the registers through which the main machine
-- loads the signal processor's program and reads what it samples. The samples come from the host's
-- own clock, as in the plug-in; the branch for a live host, which works in floating point, is left
-- out.
pub mod Latches
pub mod RegisterPort
pub mod ProgramPort
pub mod Oscillator
mod Tests
use ensoniq_eps_16_plus.Base.{
  ℕ, zero, suc, ◌+◌, ◌-◌, ◌*◌, ◌/◌, ◌%◌, ◌^◌, ◌==◌, nonzero, ltb, leb, if◌then◌else◌, u8, u16, u32,
  u64, bit_and, bit_or, Bool, true, false, not, ◌&&◌, ◌||◌, update, Option, none, some,
}
use ensoniq_eps_16_plus.Es5510.Core.{
  Es5510Core, es5510_core_set_halted, es5510_core_set_host_serial, es5510_core_dram_address,
}
use ensoniq_eps_16_plus.Es5510.Registers.{es5510_core_read_reg, es5510_core_write_reg}
use ensoniq_eps_16_plus.Es5510.Process.{es5510_core_process}

pub record Host : Type 0 where
  pub es5510 : Es5510Core
  pub gpr_latch : ℕ
  pub instruction_latch : ℕ
  pub dil_latch : ℕ
  pub dol_latch : ℕ
  pub dadr_latch : ℕ
  pub reads_ram : Bool
  pub dram_reads : ℕ
  pub dram_writes : ℕ
  pub gpr_writes : ℕ
  pub instruction_writes : ℕ
  pub host_serial : ℕ
  pub host_serial_writes : ℕ
  pub upload_active : Bool
  pub access_until : ℕ
  pub deterministic_input : Bool
  pub input_next_cycle : ℕ
  pub input_last_poll_cycle : ℕ
  pub input_polls : ℕ
  pub input_valid : ℕ
  pub input_bypass : ℕ

-- The oscillator of the converter: the cycle of the newest conversion, if one is due, and the cycle
-- of the next.
unfoldable pub oscillator : ℕ → ℕ → ℕ → Option ℕ × ℕ
oscillator period cycle next =
    let begun = if nonzero next then next else cycle in
    let conversion = u64 (begun + (cycle - begun) / period * period) in
    if ltb cycle begun then (none, begun) else (some conversion, u64 (conversion + period))

-- The seven divisors that the sampling program selects; any other selector counts as 3.
unfoldable pub selector_of : ℕ → ℕ
selector_of value =
    let selector = bit_and value 0xff in if ltb selector 2 || ltb 8 selector then 3 else selector

-- A sample of 16 digits goes through the program that is loaded, or is returned as it is.
unfoldable pub convert : ℕ → ℕ → Host → ℕ × Host
convert selector input h =
    let counted : Host = record h { input_valid = u64 (h.input_valid + 1) } in
    let inputs = λ (i : ℕ). if i == 0 then input else 0 in
    let run = (es5510_core_process inputs h.es5510).1 in
    if not h.es5510.halted && not h.upload_active && leb 2 selector && leb selector 8
    then (bit_or (bit_and (run.gpr 0x80) 0xffff00) 0x01, record counted { es5510 = run })
    else (bit_or (u32 (input * 2 ^ 8)) 0x01, counted)

abbrev es5510_write_register : ℕ → ℕ → Host → Host
es5510_write_register index value h = record h {
  es5510 = es5510_core_write_reg index (bit_and value 0xffffff) h.es5510;
}

abbrev register_of : ℕ → ℕ
register_of address = bit_and ((address - 0x260000) / 2) 0xff

-- Byte `n` of a latch, counted from the lowest.
abbrev pub latch_byte : ℕ → ℕ → ℕ
latch_byte n latch = bit_and (latch / 2 ^ (n * 8)) 0xff

-- Byte `n` of a latch of `width` digits is replaced.
unfoldable pub put_latch : ℕ → ℕ → ℕ → ℕ → ℕ
put_latch width n value latch =
    bit_or (bit_and latch (2 ^ width - 1 - 0xff * 2 ^ (n * 8))) (value * 2 ^ (n * 8))

-- The last byte of the address makes the access to the delay memory.
unfoldable access_dram : Host → Host
access_dram h =
    let place = es5510_core_dram_address h.es5510 h.dadr_latch in
    if h.reads_ram
    then record h {
      dil_latch = u16 (h.es5510.dram place) * 2 ^ 8;
      dram_reads = u32 (h.dram_reads + 1);
    }
    else record h {
      es5510 = record h.es5510 { dram = update h.es5510.dram place (u16 (h.dol_latch / 2 ^ 8)) };
      dram_writes = u32 (h.dram_writes + 1);
    }

unfoldable host_control : ℕ → Host → Host
host_control value h =
    let cleared : Host =
      if nonzero (bit_and value 0x02) && h.es5510.halted
      then record h { es5510 = record h.es5510 { dram = λ place. 0 } }
      else h in
    if nonzero (bit_and value 0x01)
    then record cleared { upload_active = false; es5510 = es5510_core_set_halted 0 cleared.es5510 }
    else cleared

unfoldable store_register : ℕ → Host → Host
store_register value h = record (es5510_write_register value h.gpr_latch h) {
  gpr_writes = u32 (h.gpr_writes + 1);
}

-- The host's sample for a rate and a cycle is a parameter, and so is the cycle of the bus.
module _ (audio_input_sample : ℕ → ℕ → Option ℕ) (now : ℕ) where
  -- Without an input of the host the sample is 0.
  unfoldable pub host_sample : ℕ → ℕ → Host → Option ℕ
  host_sample rate cycle h = if h.deterministic_input then audio_input_sample rate cycle else some 0

  unfoldable pub es5510_sampling_input : Host → ℕ × Host
  unfolding host_sample
  es5510_sampling_input h =
      let selector = selector_of (h.es5510.gpr 0x81) in
      let divider = selector * 7 in
      let ticked : Option ℕ × ℕ = oscillator (divider * 16) now h.input_next_cycle in
      let polled : Host = record h {
        input_polls = u64 (h.input_polls + 1);
        input_last_poll_cycle = now;
        input_next_cycle = ticked.1;
      } in
      elim ticked.0 [
        | none ↦ (0, polled)
        | some cycle ↦ elim (host_sample (625000 / divider) cycle h) [
          | none ↦ (0, polled)
          | some input ↦ convert selector (u16 input) polled
        ]
      ]

  -- The low four digits of the three memory addresses read as ones.
  unfoldable pub es5510_read_register : ℕ → Host → ℕ × Host
  es5510_read_register index h =
      let bypassed : Host = record h { input_bypass = u64 (h.input_bypass + 1) } in
      if ltb index 0xc0
      then (if index == 0x80 && not h.upload_active
          then es5510_sampling_input h
          else (bit_and (h.es5510.gpr index) 0xffffff, if index == 0x80 then bypassed else h))
      else if index == 0xf4
      then (es5510_core_read_reg h.es5510 index, h)
      else if index == 0xf5
      then (bit_or h.es5510.dlength 0x0f, h)
      else if index == 0xf6
      then (bit_or h.es5510.abase 0x0f, h)
      else if index == 0xf7
      then (bit_or h.es5510.bbase 0x0f, h)
      else (es5510_core_read_reg h.es5510 index, h)

  unfoldable pub es5510_read : ℕ → Host → ℕ × Host
  es5510_read address before =
      let offset = register_of address in
      let h : Host =
        if before.upload_active && leb offset 8
        then record before { access_until = u64 (now + 250000) }
        else before in
      if not (nonzero (bit_and address 1))
      then (0, before)
      else if leb offset 2
      then (latch_byte (2 - offset) h.gpr_latch, h)
      else if leb offset 8
      then (latch_byte (8 - offset) h.instruction_latch, h)
      else if leb offset 11
      then (latch_byte (11 - offset) h.dil_latch, h)
      else if leb offset 14
      then ((if offset == 14 then 0xff else latch_byte (14 - offset) h.dol_latch), h)
      else if leb offset 17
      then (latch_byte (17 - offset) h.dadr_latch, h)
      else if offset == 0x16
      then (0x27, h)
      else (0, h)

  -- The processor stops while a program is loaded.
  unfoldable pub hold_upload : Host → Host
  hold_upload h = record h {
    upload_active = true;
    access_until = u64 (now + 250000);
    es5510 = es5510_core_set_halted 1 h.es5510;
  }

  -- A register and an instruction are selected for reading.
  unfoldable pub select_register : ℕ → Host → Host
  select_register value h =
      let fetched : Host =
        if ltb value 160 then record h { instruction_latch = h.es5510.instruction value } else h in
      let read : ℕ × Host = es5510_read_register value fetched in
      if ltb value 192 || leb 0xea value then record (read.1) { gpr_latch = read.0 } else fetched

  unfoldable pub store_instruction : ℕ → Host → Host
  unfolding hold_upload
  store_instruction value h =
      let held = hold_upload h in
      let program =
        update held.es5510.instruction value (bit_and h.instruction_latch 0xffffffffffff) in
      if ltb value 160
      then record held {
        es5510 = record held.es5510 { instruction = program };
        instruction_writes = u32 (h.instruction_writes + 1);
      }
      else h

  unfoldable pub es5510_write : ℕ → ℕ → Host → Host
  unfolding access_dram hold_upload host_control store_register store_instruction
  es5510_write address value h =
      let offset = register_of address in
      let addressed : Host = record h {
        dadr_latch = put_latch 32 (17 - offset) value h.dadr_latch;
      } in
      if not (nonzero (bit_and address 1))
      then h
      else if leb offset 2
      then record h { gpr_latch = put_latch 32 (2 - offset) value h.gpr_latch }
      else if leb 3 offset && leb offset 8
      then record h { instruction_latch = put_latch 64 (8 - offset) value h.instruction_latch }
      else if leb 12 offset && leb offset 14
      then record h { dol_latch = put_latch 32 (14 - offset) value h.dol_latch }
      else if leb 15 offset && leb offset 17
      then (if offset == 15 then access_dram addressed else addressed)
      else if offset == 0x12
      then host_control value h
      else if offset == 0x14
      then record h { reads_ram = nonzero (bit_and value 0x80) }
      else if offset == 0x18
      then record h {
        host_serial = value;
        host_serial_writes = u32 (h.host_serial_writes + 1);
        es5510 = es5510_core_set_host_serial value h.es5510;
      }
      else if offset == 0x1f
      then hold_upload h
      else if offset == 0x80
      then select_register value h
      else if offset == 0xa0
      then store_register value h
      else if offset == 0xc0
      then store_instruction value h
      else if offset == 0xe0
      then store_register value (store_instruction value h)
      else h
