-- ===== src/Es5505/Render.antt =====
-- native/es5505_core.c, lines 17 to 58 and 201 to 262: the filters and the mixing of the voices.
use ensoniq_eps_16_plus.Base.{
  ℕ, zero, suc, ◌+◌, ◌-◌, ◌*◌, ◌/◌, ◌^◌, ◌==◌, if◌then◌else◌, nonzero, ltb, ◌&&◌, u32, bit_and,
  Option, none, some, update,
}
use ensoniq_eps_16_plus.Base.Int.{
  ℤ, pos, ◌+ℤ◌, ◌-ℤ◌, ◌*ℤ◌, int16, int32, word32, wrap32, quotient, floor_div,
}
use ensoniq_eps_16_plus.Es5505.Core.{Es5505Voice, Es5505Core, move_voice}

-- A sample is a signed number; each operation wraps around as an `int32_t`.
unfoldable pub lowpass : ℤ → ℕ → ℤ → ℤ
lowpass sample cutoff state =
    let product = wrap32 (pos (cutoff / 2 ^ 4) *ℤ wrap32 (sample -ℤ state)) in
    wrap32 (quotient product 4096 +ℤ state)

unfoldable pub highpass : ℤ → ℕ → ℤ → ℤ → ℤ
highpass sample cutoff state previous =
    let product = wrap32 (pos (cutoff / 2 ^ 4) *ℤ state) in
    wrap32 (wrap32 (wrap32 (sample -ℤ previous) +ℤ quotient product 8192) +ℤ quotient state 2)

-- A step of the third pole and one of the fourth.
abbrev put_pole3 : ℤ → Es5505Voice → Es5505Voice
put_pole3 sample v = record v { pole3_previous = v.pole3; pole3 = word32 sample }

abbrev finish_filter : ℤ → Es5505Voice → ℤ × Es5505Voice
finish_filter sample v = (sample, record v { pole4 = word32 sample })

unfoldable pub filter_sample : Es5505Voice → ℤ → ℤ × Es5505Voice
filter_sample voice sample =
    let first = lowpass sample voice.k1 (int32 voice.pole1) in
    let second = lowpass first voice.k1 (int32 voice.pole2) in
    let v : Es5505Voice = record voice {
      pole1 = word32 first;
      pole2_previous = voice.pole2;
      pole2 = word32 second;
    } in
    let mode = bit_and (v.control / 2 ^ 10) 3 in
    let high3 = highpass second v.k2 (int32 v.pole3) (int32 v.pole2_previous) in
    let low3_k1 = lowpass second v.k1 (int32 v.pole3) in
    let low3_k2 = lowpass second v.k2 (int32 v.pole3) in
    if mode == 0
    then finish_filter (highpass high3 v.k2 (int32 v.pole4) (int32 v.pole3)) (put_pole3 high3 v)
    else if mode == 1
    then finish_filter (highpass low3_k1 v.k2 (int32 v.pole4) (int32 v.pole3)) (put_pole3 low3_k1 v)
    else if mode == 2
    then finish_filter (lowpass low3_k2 v.k2 (int32 v.pole4)) (put_pole3 low3_k2 v)
    else finish_filter (lowpass low3_k1 v.k2 (int32 v.pole4)) (put_pole3 low3_k1 v)

-- The two samples around the position, weighed by its fraction.
unfoldable pub interpolate : ℤ → ℤ → ℕ → ℤ
interpolate first second fraction =
    floor_div (wrap32 (first *ℤ pos (2048 - fraction) +ℤ second *ℤ pos fraction)) (2 ^ 11)

-- A bus with one voice more.
abbrev mix : ℕ → ℤ → ℕ → (ℕ → ℤ) → ℕ → ℤ
mix output sample volume outputs =
    update outputs output
      (wrap32 (outputs output +ℤ floor_div (wrap32 (sample *ℤ pos volume)) (2 ^ 11)))

-- The samples come from a hook of the host: `none` where none is set.
module _ (sample_reader : ℕ → ℕ → ℕ) where
  -- A voice that is not stopped adds to its bus and moves on.
  unfoldable pub render_voice : ℕ → (ℕ → ℤ) × Es5505Core → (ℕ → ℤ) × Es5505Core
  render_voice index (outputs, core) =
      let voice = core.voices index in
      let address = voice.accumulator / 2 ^ 11 in
      let fraction = bit_and voice.accumulator (2 ^ 11 - 1) in
      let bank = bit_and (voice.control / 2 ^ 2) 1 in
      let first = int16 (sample_reader bank address) in
      let second = int16 (sample_reader bank (u32 (address + 1))) in
      let filtered : ℤ × Es5505Voice = filter_sample voice (interpolate first second fraction) in
      let bus = bit_and (voice.control / 2 ^ 8) 3 in
      let left = mix (bus * 2) filtered.0 (core.volume_table voice.left_volume) outputs in
      let both = mix (bus * 2 + 1) filtered.0 (core.volume_table voice.right_volume) left in
      let stepped : Es5505Core = record core { voices = update core.voices index filtered.1 } in
      if nonzero (bit_and voice.control 3)
      then (outputs, core)
      else (both, move_voice index stepped)

  -- The loop over the voices below `count`, upwards.
  unfoldable pub render_voices : ℕ → (ℕ → ℤ) × Es5505Core → (ℕ → ℤ) × Es5505Core
  render_voices zero s = s
  render_voices (suc count) s = render_voice count (render_voices count s)

-- `outputs[..][frame]` of one frame: the eight outputs start at 0.
unfoldable pub render_frame : Option (ℕ → ℕ → ℕ) → Es5505Core → (ℕ → ℤ) × Es5505Core
render_frame reader core =
    let silence : ℕ → ℤ = λ output. pos 0 in
    elim reader [
      | none ↦ (silence, core)
      | some sample_reader ↦ render_voices sample_reader (core.active_voice + 1) (silence, core)
    ]

-- A frame's outputs stand in the arrays at its index.
abbrev pub put_frame : ℕ → (ℕ → ℤ) → (ℕ → ℕ → ℤ) → ℕ → ℕ → ℤ
put_frame frame column outputs output i =
    if i == frame && ltb output 8 then column output else outputs output i

-- The loop over the frames from an index on, with the frames left.
unfoldable pub render_frames :
    Option (ℕ → ℕ → ℕ) → ℕ → ℕ → (ℕ → ℕ → ℤ) → Es5505Core → (ℕ → ℕ → ℤ) × Es5505Core
render_frames reader zero frame outputs core = (outputs, core)
render_frames reader (suc left) frame outputs core =
    let rendered : (ℕ → ℤ) × Es5505Core = render_frame reader core in
    render_frames reader left (frame + 1) (put_frame frame rendered.0 outputs) rendered.1

unfoldable pub es5505_core_render_buses :
    Option (ℕ → ℕ → ℕ) → ℕ → (ℕ → ℕ → ℤ) → Es5505Core → (ℕ → ℕ → ℤ) × Es5505Core
unfolding render_frames
es5505_core_render_buses reader frames outputs core = render_frames reader frames 0 outputs core

-- What a rendering changes: the chip, the scratch arrays `buses`, and the caller's two arrays.
pub record Rendering : Type 0 where
  pub core : Es5505Core
  pub buses : ℕ → ℕ → ℤ
  pub left : ℕ → ℤ
  pub right : ℕ → ℤ

-- The loop over `bus`, which adds the outputs `bus * 2 + side` up from 0.
unfoldable pub sum_buses : ℕ → ℕ → (ℕ → ℤ) → ℤ
sum_buses zero side outputs = pos 0
sum_buses (suc bus) side outputs = wrap32 (sum_buses bus side outputs +ℤ outputs (bus * 2 + side))

-- The loop over the frames of a chunk, upwards.
unfoldable pub mix_frames : ℕ → ℕ → Rendering → Rendering
mix_frames zero offset r = r
mix_frames (suc frame) offset r =
    let before = mix_frames frame offset r in
    let outputs : ℕ → ℤ = λ output. before.buses output frame in
    record before {
      left = update before.left (offset + frame) (sum_buses 4 0 outputs);
      right = update before.right (offset + frame) (sum_buses 4 1 outputs);
    }

-- The loop over chunks of 256 frames, with rounds enough for chunks of one.
unfoldable pub render_chunks : Option (ℕ → ℕ → ℕ) → ℕ → ℕ → ℕ → Rendering → Rendering
render_chunks reader zero offset frames r = r
render_chunks reader (suc rounds) offset frames r =
    let chunk = if ltb (frames - offset) 256 then frames - offset else 256 in
    let rendered : (ℕ → ℕ → ℤ) × Es5505Core =
      es5505_core_render_buses reader chunk r.buses r.core in
    let mixed = mix_frames chunk offset (record r { core = rendered.1; buses = rendered.0 }) in
    let rest = render_chunks reader rounds (offset + chunk) frames mixed in
    if ltb offset frames then rest else r

-- `scratch` is what the arrays of a chunk hold at first.
unfoldable pub es5505_core_render :
    Option (ℕ → ℕ → ℕ) → ℕ → (ℕ → ℕ → ℤ) → (ℕ → ℤ) → (ℕ → ℤ) → Es5505Core → Rendering
es5505_core_render reader frames scratch left right core =
    render_chunks reader frames 0 frames
      (record { core = core; buses = scratch; left = left; right = right })
