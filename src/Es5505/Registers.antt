-- ===== src/Es5505/Registers.antt =====
-- native/es5505_core.c, lines 111 to 148 and 163 to 208: the register file of the chip.
use ensoniq_eps_16_plus.Base.{
  ℕ, ◌+◌, ◌*◌, ◌/◌, ◌^◌, ◌==◌, ltb, leb, if◌then◌else◌, u16, bit_and, bit_or, none, some, update,
}
use ensoniq_eps_16_plus.Es5505.Core.{Es5505Voice, Es5505Core}

-- The voice of the page, `&core->voices[core->page & 31]`.
abbrev pub paged : Es5505Core → Es5505Voice
paged core = core.voices (bit_and core.page 31)

-- Pages 0x20 to 0x3f.
abbrev read_poles : Es5505Voice → ℕ → ℕ
read_poles voice reg =
    if reg == 0
    then bit_or voice.control 0xf000
    else if reg == 1
    then u16 voice.pole4
    else if reg == 2
    then u16 voice.pole3
    else if reg == 3
    then u16 voice.pole3_previous
    else if reg == 4
    then u16 voice.pole2
    else if reg == 5
    then u16 voice.pole2_previous
    else if reg == 6
    then u16 voice.pole1
    else 0

-- Pages 0 to 0x1f.
abbrev pub read_voice : Es5505Voice → ℕ → ℕ
read_voice voice reg =
    if reg == 0
    then bit_or voice.control 0xf000
    else if reg == 1
    then u16 (voice.frequency / 2)
    else if reg == 2
    then bit_and (voice.start / 2 ^ 18) 0x1fff
    else if reg == 3
    then bit_and (voice.start / 2 ^ 2) 0xffff
    else if reg == 4
    then bit_and (voice.end / 2 ^ 18) 0x1fff
    else if reg == 5
    then bit_and (voice.end / 2 ^ 2) 0xffff
    else if reg == 6
    then voice.k2
    else if reg == 7
    then voice.k1
    else if reg == 8
    then u16 (voice.left_volume * 2 ^ 8)
    else if reg == 9
    then u16 (voice.right_volume * 2 ^ 8)
    else if reg == 10
    then bit_and (voice.accumulator / 2 ^ 18) 0x1fff
    else if reg == 11
    then bit_and (voice.accumulator / 2 ^ 2) 0xffff
    else 0

-- Pages 0x40 and above.
abbrev read_mode : Es5505Core → ℕ → ℕ
read_mode core reg =
    if reg == 8
    then bit_or core.mode 0x07f8
    else if reg == 9
    then elim core.port_reader [ none ↦ 0 | some value ↦ bit_and value 0xffc0 ]
    else 0

unfoldable pub es5505_core_read : ℕ → Es5505Core → ℕ × Es5505Core
es5505_core_read register_index core =
    let reg = bit_and register_index 15 in
    if reg == 13
    then (core.active_voice, core)
    else if reg == 14
    then (core.irq_vector, record core { irq_vector = 0x80 })
    else if reg == 15
    then (core.page, core)
    else if leb 0x40 core.page
    then (read_mode core reg, core)
    else if leb 0x20 core.page
    then (read_poles (paged core) reg, core)
    else (read_voice (paged core) reg, core)

-- `(int16_t)value` as an `int32_t`.
abbrev pub extended : ℕ → ℕ
extended value = if ltb value 0x8000 then value else value + 0xffff0000

abbrev write_poles : ℕ → ℕ → Es5505Voice → Es5505Voice
write_poles reg value voice =
    if reg == 0
    then record voice { control = bit_or value 0xf000 }
    else if reg == 1
    then record voice { pole4 = extended value }
    else if reg == 2
    then record voice { pole3 = extended value }
    else if reg == 3
    then record voice { pole3_previous = extended value }
    else if reg == 4
    then record voice { pole2 = extended value }
    else if reg == 5
    then record voice { pole2_previous = extended value }
    else if reg == 6
    then record voice { pole1 = extended value }
    else voice

-- The two halves of an address register.
abbrev pub set_high : ℕ → ℕ → ℕ
set_high address value = bit_or (bit_and address 0x0003ffff) (bit_and value 0x1fff * 2 ^ 18)

abbrev pub set_low : ℕ → ℕ → ℕ
set_low address value = bit_or (bit_and address 0x7ffc0000) (value * 2 ^ 2)

abbrev pub write_voice : ℕ → ℕ → Es5505Voice → Es5505Voice
write_voice reg value voice =
    if reg == 0
    then record voice { control = bit_or value 0xf000 }
    else if reg == 1
    then record voice { frequency = bit_and value 0xfffe * 2 }
    else if reg == 2
    then record voice { start = set_high voice.start value }
    else if reg == 3
    then record voice { start = set_low voice.start (bit_and value 0xffe0) }
    else if reg == 4
    then record voice { end = set_high voice.end value }
    else if reg == 5
    then record voice { end = set_low voice.end (bit_and value 0xffe0) }
    else if reg == 6
    then record voice { k2 = bit_and value 0xfff0 }
    else if reg == 7
    then record voice { k1 = bit_and value 0xfff0 }
    else if reg == 8
    then record voice { left_volume = value / 2 ^ 8 }
    else if reg == 9
    then record voice { right_volume = value / 2 ^ 8 }
    else if reg == 10
    then record voice { accumulator = set_high voice.accumulator value }
    else if reg == 11
    then record voice { accumulator = set_low voice.accumulator value }
    else voice

unfoldable pub es5505_core_write : ℕ → ℕ → Es5505Core → Es5505Core
es5505_core_write register_index value core =
    let reg = bit_and register_index 15 in
    let voice = paged core in
    let with_voice : Es5505Voice → Es5505Core =
      λ v. record core { voices = update core.voices (bit_and core.page 31) v } in
    if reg == 13
    then record core { active_voice = bit_and value 31 }
    else if reg == 15
    then record core { page = bit_and value 0x7f }
    else if reg == 14
    then core
    else if leb 0x40 core.page
    then if reg == 8
      then record core { mode = bit_or (bit_and core.mode 0x07f8) (bit_and value 0xf807) }
      else core
    else if leb 0x20 core.page
    then with_voice (write_poles reg value voice)
    else with_voice (write_voice reg value voice)
