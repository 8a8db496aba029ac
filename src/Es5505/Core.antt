-- ===== src/Es5505/Core.antt =====
-- native/es5505_core.h and native/es5505_core.c, lines 60 to 109, 150 to 160 and 221 to 231: the
-- state of the chip, and the motion of a voice through its sample. A pole of the filter, an
-- `int32_t`, is the word of its 32 digits.
use ensoniq_eps_16_plus.Base.{
  ℕ, ◌+◌, ◌-◌, ◌*◌, ◌/◌, ◌^◌, ◌==◌, nonzero, leb, if◌then◌else◌, u8, u32, sub32, bit_and, bit_or,
  bit_xor, Bool, not, ◌&&◌, Option, none, update,
}

abbrev loop_enable : ℕ
loop_enable = 0x0008

abbrev bidirectional : ℕ
bidirectional = 0x0010

abbrev pub irq_enable : ℕ
irq_enable = 0x0020

abbrev pub reverse : ℕ
reverse = 0x0040

abbrev pub irq : ℕ
irq = 0x0080

abbrev accumulator_mask : ℕ
accumulator_mask = 0x7fffffff

pub record Es5505Voice : Type 0 where
  pub control : ℕ
  pub frequency : ℕ
  pub start : ℕ
  pub end : ℕ
  pub accumulator : ℕ
  pub k1 : ℕ
  pub k2 : ℕ
  pub left_volume : ℕ
  pub right_volume : ℕ
  pub pole1 : ℕ
  pub pole2 : ℕ
  pub pole2_previous : ℕ
  pub pole3 : ℕ
  pub pole3_previous : ℕ
  pub pole4 : ℕ

-- The port reader is a hook of the host: `none` where none is set, else what it returns now.
pub record Es5505Core : Type 0 where
  pub voices : ℕ → Es5505Voice
  pub volume_table : ℕ → ℕ
  pub page : ℕ
  pub active_voice : ℕ
  pub irq_vector : ℕ
  pub mode : ℕ
  pub port_reader : Option ℕ

-- Past the end, the interrupt is flagged where it is enabled.
abbrev pub flagged : ℕ → ℕ
flagged control = if nonzero (bit_and control irq_enable) then bit_or control irq else control

abbrev pub mask : ℕ → ℕ
mask accumulator = bit_and accumulator accumulator_mask

-- `loop` is read before the interrupt is flagged.
unfoldable pub handle_end : Es5505Voice → Es5505Voice
handle_end v =
    let loop = bit_and v.control (bit_or loop_enable bidirectional) in
    let f = record v { control = flagged v.control } in
    let stop = record f { control = bit_or f.control 1 } in
    let turned = bit_xor f.control reverse in
    if not (nonzero (bit_and v.control reverse))
    then (if leb v.accumulator v.end
        then v
        else if loop == loop_enable
        then record f { accumulator = mask (sub32 (u32 (f.start + f.accumulator)) f.end) }
        else if loop == bit_or loop_enable bidirectional
        then record f {
          accumulator = mask (sub32 f.end (sub32 f.accumulator f.end));
          control = turned;
        }
        else stop)
    else (if leb v.start v.accumulator
        then v
        else if loop == loop_enable
        then record f { accumulator = mask (sub32 f.end (sub32 f.start f.accumulator)) }
        else if loop == bit_or loop_enable bidirectional
        then record f {
          accumulator = mask (u32 (f.start + sub32 f.start f.accumulator));
          control = turned;
        }
        else stop)

-- A voice as `es5505_core_init` leaves it: `memset` and three assignments.
abbrev pub initial_voice : Es5505Voice
initial_voice = record {
  control = 0xf003;
  frequency = 0;
  start = 0;
  end = 0;
  accumulator = 0;
  k1 = 0;
  k2 = 0;
  left_volume = 0x80;
  right_volume = 0x80;
  pole1 = 0;
  pole2 = 0;
  pole2_previous = 0;
  pole3 = 0;
  pole3_previous = 0;
  pole4 = 0;
}

abbrev pub volume : ℕ → ℕ
volume value = u32 (bit_or (bit_and value 15) 16 * 2 ^ 11) / 2 ^ (16 - value / 2 ^ 4)

unfoldable pub es5505_core_init : Es5505Core
es5505_core_init = record {
  voices = λ voice. initial_voice;
  volume_table = volume;
  page = 0;
  active_voice = 31;
  irq_vector = 0x80;
  mode = 0;
  port_reader = none;
}

unfoldable es5505_core_set_port_reader : Option ℕ → Es5505Core → Es5505Core
es5505_core_set_port_reader reader core = record core { port_reader = reader }

unfoldable es5505_core_irq_pending : Es5505Core → Bool
es5505_core_irq_pending core = not (nonzero (bit_and core.irq_vector 0x80))

unfoldable es5505_core_output_divider : Es5505Core → ℕ
es5505_core_output_divider core = u32 (16 * u32 (core.active_voice + 1))

unfoldable es5505_core_output_rate : Es5505Core → ℕ → ℕ
unfolding es5505_core_output_divider
es5505_core_output_rate core clock_rate = clock_rate / es5505_core_output_divider core

-- What `es5505_core_render_buses` does to voice `index` after its sample is mixed: it advances,
-- and an interrupt that it flags takes the vector when that is free.
unfoldable pub move_voice : ℕ → Es5505Core → Es5505Core
unfolding handle_end
move_voice index core =
    let voice = core.voices index in
    let moved = record voice {
      accumulator =
          if nonzero (bit_and voice.control reverse)
          then mask (sub32 voice.accumulator voice.frequency)
          else mask (u32 (voice.accumulator + voice.frequency));
    } in
    let ended = handle_end moved in
    if nonzero (bit_and ended.control irq) && nonzero (bit_and core.irq_vector 0x80)
    then record core {
      voices = update core.voices index (record ended { control = bit_and ended.control 0xff7f });
      irq_vector = u8 index;
    }
    else record core { voices = update core.voices index ended }
