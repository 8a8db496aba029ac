-- ===== src/Machine/Bus.antt =====
-- native/rom_probe.c, lines 1137 to 1143, 2590 to 2615 and 2838 to 2951: the accesses of the 68000 to
-- memory and devices. The traces are left out. Where C leaves the order of two reads open, the one of
-- the lower address comes first.
use ensoniq_eps_16_plus.Base.{
  ℕ, ◌+◌, ◌-◌, ◌*◌, ◌/◌, ◌%◌, ◌^◌, nonzero, ltb, leb, if◌then◌else◌, u8, u16, u64, bit_and, bit_or,
  Bool, not, ◌&&◌, update,
}
use ensoniq_eps_16_plus.Machine.Dmac.{Machine, dmac_write8}
use ensoniq_eps_16_plus.Machine.Fdc.{fdc_base, fdc_write}
use ensoniq_eps_16_plus.Machine.Scsi.{scsi_write8}
use ensoniq_eps_16_plus.Machine.Service.{raw_read8}

-- The devices that have states of their own: reads as for `raw_read8`, and writes of a value to an
-- address.
pub record Devices : Type 0 where
  pub es5505_read16 : ℕ → Machine → ℕ × Machine
  pub es5510_read : ℕ → Machine → ℕ × Machine
  pub duart_read : ℕ → Machine → ℕ × Machine
  pub es5505_write16 : ℕ → ℕ → Machine → Machine
  pub es5510_write : ℕ → ℕ → Machine → Machine
  pub duart_write : ℕ → ℕ → Machine → Machine

-- A byte into the sample memory.
abbrev pub put_sample : ℕ → ℕ → Machine → Machine
put_sample offset value m = record m {
  sample_ram = update m.sample_ram offset (u8 value);
  sample_ram_write_bytes = u64 (m.sample_ram_write_bytes + 1);
}

abbrev pub put_low : ℕ → ℕ → Machine → Machine
put_low offset value m = record m { low_ram = update m.low_ram offset (u8 value) }

abbrev pub put_os : ℕ → ℕ → Machine → Machine
put_os offset value m = record m { os_ram = update m.os_ram offset (u8 value) }

-- The four bytes of a word, the highest first.
unfoldable pub put_word : (ℕ → ℕ → Machine → Machine) → ℕ → ℕ → Machine → Machine
put_word put_at at value m = put_at (at + 3) value (
    put_at (at + 2) (value / 2 ^ 8)
      (put_at (at + 1) (value / 2 ^ 16) (put_at at (value / 2 ^ 24) m)))

-- `program_space` is the wish of the processor to read its program.
module _ (devices : Devices) (program_space : Bool) where
  open devices use {
    es5505_read16, es5510_read, duart_read, es5505_write16, es5510_write, duart_write,
  }

  unfoldable pub m68k_read_memory_8 : ℕ → Machine → ℕ × Machine
  m68k_read_memory_8 address m =
      raw_read8 es5505_read16 es5510_read duart_read program_space address m

  unfoldable pub m68k_read_memory_16 : ℕ → Machine → ℕ × Machine
  m68k_read_memory_16 address m =
      let high : ℕ × Machine = m68k_read_memory_8 address m in
      let low : ℕ × Machine = m68k_read_memory_8 (address + 1) (high.1) in
      (bit_or (high.0 * 2 ^ 8) (low.0), low.1)

  unfoldable pub m68k_read_memory_32 : ℕ → Machine → ℕ × Machine
  m68k_read_memory_32 word m =
      let address = bit_and word 0xffffff in
      let high : ℕ × Machine = m68k_read_memory_16 address m in
      let low : ℕ × Machine = m68k_read_memory_16 (address + 2) (high.1) in
      (bit_or (high.0 * 2 ^ 16) (low.0), low.1)

  -- Half of a register of the voice chip is written with the other half as it reads.
  unfoldable pub es5505_write8 : ℕ → ℕ → Machine → Machine
  es5505_write8 address value m =
      let aligned = address - address % 2 in
      let current : ℕ × Machine = es5505_read16 aligned m in
      let updated =
        if nonzero (bit_and address 1)
        then bit_or (bit_and (current.0) 0xff00) value
        else bit_or (bit_and (current.0) 0x00ff) (u16 (value * 2 ^ 8)) in
      es5505_write16 aligned updated (current.1)

  unfoldable pub m68k_write_memory_8 : ℕ → ℕ → Machine → Machine
  m68k_write_memory_8 word value m =
      let address = bit_and word 0xffffff in
      if leb 0x200000 address && ltb address (0x200000 + 0x20)
      then es5505_write8 address (u8 value) m
      else if leb 0x260000 address && ltb address (0x260000 + 0x200)
      then es5510_write address (u8 value) m
      else if leb 0x240000 address && ltb address 0x240100
      then dmac_write8 address (u8 value) m
      else if leb 0x280000 address && ltb address (0x280000 + 0x20)
      then duart_write address value m
      else if leb fdc_base address && ltb address (fdc_base + 8)
      then fdc_write address value m
      else if leb 0x300000 address && ltb address (0x300000 + 4)
      then scsi_write8 address (u8 value) m
      else if ltb address 0x8000 && not program_space
      then put_low address value m
      else if leb 0x580000 address && ltb address (0x580000 + 0x280000)
      then put_sample (address - 0x580000) value m
      else if leb 0xff0000 address
      then put_os (address - 0xff0000) value m
      else m

  -- Writes of several bytes reach the voice chip, the transfer controller and the memories only.
  unfoldable pub m68k_write_memory_16 : ℕ → ℕ → Machine → Machine
  m68k_write_memory_16 word value m =
      let address = bit_and word 0xffffff in
      let high = value / 2 ^ 8 in
      if leb 0x200000 address && ltb (address + 1) (0x200000 + 0x20)
      then es5505_write16 address (u16 value) m
      else if leb 0x240000 address && ltb (address + 1) 0x240100
      then dmac_write8 (address + 1) (u8 value) (dmac_write8 address (u8 high) m)
      else if ltb (address + 1) 0x8000 && not program_space
      then put_low (address + 1) value (put_low address high m)
      else if leb 0x580000 address && ltb (address + 1) (0x580000 + 0x280000)
      then put_sample (address - 0x580000 + 1) value (put_sample (address - 0x580000) high m)
      else if leb 0xff0000 address && ltb (address + 1) (0xff0000 + 0x10000)
      then put_os (address - 0xff0000 + 1) value (put_os (address - 0xff0000) high m)
      else m

  unfoldable pub m68k_write_memory_32 : ℕ → ℕ → Machine → Machine
  m68k_write_memory_32 word value m =
      let address = bit_and word 0xffffff in
      if leb 0x200000 address && ltb (address + 3) (0x200000 + 0x20)
      then es5505_write16 (address + 2) (u16 value)
          (es5505_write16 address (u16 (value / 2 ^ 16)) m)
      else if leb 0x240000 address && ltb (address + 3) 0x240100
      then put_word (λ at byte. dmac_write8 at (u8 byte)) address value m
      else if ltb (address + 3) 0x8000 && not program_space
      then put_word put_low address value m
      else if leb 0x580000 address && ltb (address + 3) (0x580000 + 0x280000)
      then put_word put_sample (address - 0x580000) value m
      else if leb 0xff0000 address && ltb (address + 3) (0xff0000 + 0x10000)
      then put_word put_os (address - 0xff0000) value m
      else m
