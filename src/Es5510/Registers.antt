-- ===== src/Es5510/Registers.antt =====
-- native/es5510_core.c, lines 155 to 219: the register file of the signal processor.
use ensoniq_eps_16_plus.Base.{
  ℕ, zero, suc, ◌+◌, ◌-◌, ◌*◌, ◌/◌, ◌%◌, ◌^◌, ◌==◌, nonzero, ltb, leb, if◌then◌else◌, u16, u32, u64,
  bit_and, bit_or, Bool, false, ◌&&◌, update,
}
use ensoniq_eps_16_plus.Es5510.Word.{flag_mask, flag_not, sext48}
use ensoniq_eps_16_plus.Es5510.Core.{Es5510Core}

-- `serial_index`: the two halves of a port change places.
abbrev serial_index : ℕ → ℕ
serial_index n = if n % 2 == 0 then n + 1 else n - 1

-- `core->machl < 0`
abbrev machl_negative : Es5510Core → Bool
machl_negative core = leb (2 ^ 63) core.machl

-- The upper half of the accumulator, with saturation.
abbrev pub mac_high : Es5510Core → ℕ
mac_high core =
    if core.mac_overflow
    then (if machl_negative core then 0x800000 else 0x7fffff)
    else bit_and (core.machl / 2 ^ 24) 0xffffff

abbrev mac_low : Es5510Core → ℕ
mac_low core =
    if core.mac_overflow
    then (if machl_negative core then 0 else 0xffffff)
    else bit_and core.machl 0xffffff

unfoldable pub es5510_core_read_reg : Es5510Core → ℕ → ℕ
es5510_core_read_reg core reg =
    if ltb reg 0xc0
    then bit_and (core.gpr reg) 0xffffff
    else if leb 0xea reg && leb reg 0xf1
    then u32 (core.serial (serial_index (reg - 0xea)) * 2 ^ 8)
    else if reg == 0xf2
    then mac_low core
    else if reg == 0xf3
    then mac_high core
    else if reg == 0xf4
    then u32 (core.dil * 2 ^ 8)
    else if reg == 0xf5
    then bit_and core.dlength 0xffffff
    else if reg == 0xf6
    then bit_and core.abase 0xffffff
    else if reg == 0xf7
    then bit_and core.bbase 0xffffff
    else if reg == 0xf8
    then bit_and core.dbase 0xffffff
    else if reg == 0xf9
    then bit_and core.sigreg 0xffffff
    else if reg == 0xfa
    then u32 (core.ccr * 2 ^ 16)
    else if reg == 0xfb
    then u32 (core.cmr * 2 ^ 16)
    else if reg == 0xfc
    then 0xffffff
    else if reg == 0xfd
    then 0x800000
    else if reg == 0xfe
    then 0x7fffff
    else 0

-- The loop that counts the ones below the lowest zero: `left` more digits to look at.
unfoldable pub count_low_ones : ℕ → ℕ → ℕ → ℕ
count_low_ones zero low_ones value = low_ones
count_low_ones (suc left) low_ones value =
    let rest = count_low_ones left (low_ones + 1) value in
    if nonzero (bit_and (value / 2 ^ low_ones) 1) then rest else low_ones

-- Register 0xf4 sets the size of the memory by the ones at its end.
unfoldable pub write_memory_size : ℕ → Es5510Core → Es5510Core
write_memory_size value core =
    let low_ones = count_low_ones 24 0 value in
    let size = 0xffffff / 2 ^ (24 - low_ones) in
    let mask = bit_and 0xffffff (2 ^ 32 - 1 - size) in
    record core {
      memshift = low_ones;
      memsiz = size;
      memmask = mask;
      memincrement = 2 ^ low_ones;
      dbase = bit_and core.dbase mask;
    }

-- The write of a masked value.
abbrev write_value : ℕ → ℕ → Es5510Core → Es5510Core
write_value reg value core =
    if ltb reg 0xc0
    then record core { gpr = update core.gpr reg value }
    else if leb 0xea reg && leb reg 0xf1
    then record core {
      serial = update core.serial (serial_index (reg - 0xea)) (u16 (value / 2 ^ 8));
    }
    else if reg == 0xf2
    then record core { machl = sext48 (bit_or (bit_and core.machl 0xffffff000000) value) }
    else if reg == 0xf3
    then record core {
      machl = sext48 (bit_or (u64 (value * 2 ^ 24)) (bit_and core.machl 0xffffff));
      mac_overflow = false;
    }
    else if reg == 0xf4
    then write_memory_size value core
    else if reg == 0xf5
    then record core { dlength = value }
    else if reg == 0xf6
    then record core { abase = value }
    else if reg == 0xf7
    then record core { bbase = value }
    else if reg == 0xf8
    then record core { dbase = value }
    else if reg == 0xf9
    then record core { sigreg = value }
    else if reg == 0xfa
    then record core { ccr = bit_and (value / 2 ^ 16) flag_mask }
    else if reg == 0xfb
    then record core { cmr = bit_and (value / 2 ^ 16) (bit_or flag_mask flag_not) }
    else core

unfoldable pub es5510_core_write_reg : ℕ → ℕ → Es5510Core → Es5510Core
es5510_core_write_reg reg value core = write_value reg (bit_and value 0xffffff) core
