-- ===== src/Es5505/Voice.antt =====
-- The loop of a voice of native/es5505_core.c: the position stays inside the sample's bounds.
use ensoniq_eps_16_plus.Base.{
  ℕ, ◌==◌, nonzero, ◌&&◌, bit_and, Bool, true, false, ◌≡◌, refl, ◌∙◌, arith, ◌⊎◌, inl, inr, update,
}
use ensoniq_eps_16_plus.Base.Bits.{bit, bit-bit_and}
use ensoniq_eps_16_plus.Base.Tests.{Bool-cases}
use ensoniq_eps_16_plus.Es5505.Core.{Es5505Voice, Es5505Core, handle_end, move_voice, reverse, irq}
use ensoniq_eps_16_plus.Es5505.LoopEnd.{
  IsLooping, Inside, moved, moved-forward, moved-reverse, handle_end-forward, handle_end-reverse,
}

-- A voice that loops, in either mode and either direction, still loops after a step: its position
-- is again between the bounds of the sample.
handle_end-IsLooping : (v : Es5505Voice) → IsLooping v → IsLooping (handle_end (moved v))
handle_end-IsLooping v h = keeps (go (Bool-cases (nonzero (bit_and v.control reverse))))
  where
    keeps : Inside (moved v) (handle_end (moved v)) → IsLooping (handle_end (moved v))
    keeps i = record {
      loops = i.loops ∙ h.loops;
      low = i.low;
      high = i.high;
      step = omega (arith, i.start, i.end, i.frequency, h.step);
      below = omega (arith, i.start, i.frequency, h.below);
      above = omega (arith, i.end, i.frequency, h.above);
    }

    go :
        (nonzero (bit_and v.control reverse) ≡ true) ⊎ (nonzero (bit_and v.control reverse) ≡ false)
        → Inside (moved v) (handle_end (moved v))
    go (inr d) =
        let e = moved-forward v h d in
        handle_end-forward (moved v) d h.loops (omega (arith, e, h.low))
          (omega (arith, e, h.high, h.step)) (omega (arith, h.low, h.high))
          (omega (arith, e, h.high, h.above))
    go (inl d) =
        let e = moved-reverse v h d in
        handle_end-reverse (moved v) d h.loops (omega (arith, e, h.high))
          (omega (arith, e, h.low, h.high, h.step, h.below)) (omega (arith, h.low, h.high))
          (omega (arith, h.above)) (omega (arith, e, h.low, h.high, h.below, h.above))

bit-cleared : (c : ℕ) → bit 3 (bit_and c 0xff7f) ≡ bit 3 c
unfolding bit
bit-cleared c = bit-bit_and 3 c 0xff7f ∙ and-true (bit 3 c)
  where
    and-true : (b : Bool) → (b && bit 3 0xff7f) ≡ b
    and-true true = refl
    and-true false = refl

cleared-IsLooping :
    (v : Es5505Voice) → IsLooping v → IsLooping (record v { control = bit_and v.control 0xff7f })
cleared-IsLooping v h = record {
  loops = bit-cleared v.control ∙ h.loops;
  low = h.low;
  high = h.high;
  step = h.step;
  below = h.below;
  above = h.above;
}

update-IsLooping :
    (vs : ℕ → Es5505Voice) (i j : ℕ) (w : Es5505Voice)
    → IsLooping w
    → IsLooping (vs j)
    → IsLooping (update vs i w j)
update-IsLooping vs i j w new old = elim (Bool-cases (j == i)) [
  | inl e ↦ rw e new
  | inr e ↦ rw e old
]

-- After a step of a voice that loops with its position between its bounds, its step no longer
-- than the loop and than the space below and above it (31 bits), each voice that was in that
-- state is in it again, whatever its direction and whether the loop turns.
pub move_voice-IsLooping :
    (i j : ℕ) (core : Es5505Core)
    → IsLooping (core.voices i)
    → IsLooping (core.voices j)
    → IsLooping ((move_voice i core).voices j)
unfolding move_voice
move_voice-IsLooping i j core hi hj =
    let w = handle_end (moved (core.voices i)) in
    let h : IsLooping w = handle_end-IsLooping (core.voices i) hi in
    elim (Bool-cases (nonzero (bit_and w.control irq) && nonzero (bit_and core.irq_vector 0x80))) [
      | inl e ↦ rw e (update-IsLooping core.voices i j _ (cleared-IsLooping w h) hj)
      | inr e ↦ rw e (update-IsLooping core.voices i j w h hj)
    ]
