-- ===== src/Es5505/Tests.antt =====
-- Runs of native/es5505_core.c.
use ensoniq_eps_16_plus.Base.{ℕ, some, ◌+◌, ltb}
use ensoniq_eps_16_plus.Base.Int.{pos, ◌+ℤ◌, wrap32}
use ensoniq_eps_16_plus.Es5505.Core.{es5505_core_init}
use ensoniq_eps_16_plus.Es5505.Render.{es5505_core_render, es5505_core_render_buses}
use ensoniq_eps_16_plus.Es5505.Chunks.{es5505_core_render_lem}
use ensoniq_eps_16_plus.Base.{refl, arith}
use ensoniq_eps_16_plus.Base.Bits.{bit}
use ensoniq_eps_16_plus.Es5505.Core.{
  Es5505Voice, Es5505Core, initial_voice, es5505_core_init, move_voice,
}
use ensoniq_eps_16_plus.Base.{◌≡◌, ◌<◌, ◌==◌, if◌then◌else◌}
use ensoniq_eps_16_plus.Es5505.Registers.{es5505_core_read, es5505_core_write}
use ensoniq_eps_16_plus.Es5505.ReadBack.{kept, es5505_core_read-es5505_core_write}
use ensoniq_eps_16_plus.Es5505.LoopEnd.{IsLooping}
use ensoniq_eps_16_plus.Es5505.Voice.{move_voice-IsLooping}

-- A voice near the end of a loop in both directions.
abbrev voice : Es5505Voice
voice = record initial_voice {
  control = 0xf018;
  frequency = 3000;
  start = 100000;
  end = 200000;
  accumulator = 199000;
}

voice-IsLooping : IsLooping voice
unfolding bit
voice-IsLooping = record {
  loops = refl;
  low = omega arith;
  high = omega arith;
  step = omega arith;
  below = omega arith;
  above = omega arith;
}

abbrev core : Es5505Core
core = record es5505_core_init { voices = λ i. voice }

move_example : IsLooping ((move_voice 4 core).voices 7)
move_example = move_voice-IsLooping 4 7 core voice-IsLooping voice-IsLooping

core_page : core.page < 0x20
unfolding es5505_core_init
core_page = omega arith

read_back_example :
    (es5505_core_read 3 (es5505_core_write 2 0x1234 core)).0
    ≡ (if 3 == 2 then kept 2 0x1234 else (es5505_core_read 3 core).0)
read_back_example =
    es5505_core_read-es5505_core_write 2 3 0x1234 core (omega arith) (omega arith) (omega arith)
      core_page

-- More frames than a chunk has.
abbrev tone : ℕ → ℕ → ℕ
tone bank address = address

render_example :
    let t =
      es5505_core_render
        (some tone)
        300
        (λ o j. pos 0)
        (λ i. pos 1)
        (λ i. pos 2)
        es5505_core_init in
    let all = es5505_core_render_buses (some tone) 300 (λ o j. pos 0) es5505_core_init in
    (t.left 270 ≡ (
      if ltb 270 300
      then wrap32 (all.0 0 270 +ℤ all.0 2 270 +ℤ all.0 4 270 +ℤ all.0 6 270)
      else pos 1))
    × (t.right 270 ≡ (
        if ltb 270 300
        then wrap32 (all.0 1 270 +ℤ all.0 3 270 +ℤ all.0 5 270 +ℤ all.0 7 270)
        else pos 2))
    × (t.buses 3 (256 + 4) ≡ pos 0)
    × (t.core ≡ all.1)
render_example =
    es5505_core_render_lem (some tone) 300 270 3 4 (λ o j. pos 0) (λ o j. pos 0) (λ i. pos 1)
      (λ i. pos 2) es5505_core_init
