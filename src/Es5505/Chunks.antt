-- ===== src/Es5505/Chunks.antt =====
-- native/es5505_core.c, lines 201 to 257: the chunks of a rendering do not show, and stay in their
-- arrays.
use ensoniq_eps_16_plus.Base.{
  ℕ, zero, suc, ◌+◌, ◌-◌, ◌≤◌, ◌<◌, ◌⊎◌, inl, inr, ◌≡◌, ltb, if◌then◌else◌, refl, sym, ◌∙◌, ap,
  arith, Option, true, false,
}
use native.Mathlib.Decide.{dec_lt}
use ensoniq_eps_16_plus.Base.Int.{ℤ, ◌+ℤ◌, wrap32}
use ensoniq_eps_16_plus.Es5505.Core.{Es5505Core}
use ensoniq_eps_16_plus.Es5505.Render.{
  Rendering, es5505_core_render_buses, sum_buses, mix_frames, render_chunks, es5505_core_render,
}
use ensoniq_eps_16_plus.Es5505.Mixing.{
  sum_left, sum_right, mix_frames-kept, mix_frames-outside, mix_frames-inside,
}
use ensoniq_eps_16_plus.Es5505.Frames.{
  core_after, column, core_after-add, column-add, buses-inside, buses-outside, buses-core, sums_of,
}

module _ (reader : Option (ℕ → ℕ → ℕ)) where
  -- From a rendering whose next frame is `offset` to one of `frames` frames.
  record IsRendered (offset frames : ℕ) (r t : Rendering) : Type 0 where
    sums :
        (k : ℕ)
        → k < frames - offset
        → (t.left (offset + k) ≡ sum_buses 4 0 (column reader k r.core))
          × (t.right (offset + k) ≡ sum_buses 4 1 (column reader k r.core))
    kept : (i : ℕ) → (i < offset) ⊎ (frames ≤ i) → (t.left i ≡ r.left i) × (t.right i ≡ r.right i)
    scratch : (o j : ℕ) → 256 ≤ j → t.buses o j ≡ r.buses o j
    state : t.core ≡ core_after reader (frames - offset) r.core

  -- A chunk, and then the others.
  -- The chip and the scratch arrays after a chunk, and its sums.
  abbrev chunk_of : ℕ → ℕ → Rendering → Rendering
  chunk_of chunk offset r =
      let b : (ℕ → ℕ → ℤ) × Es5505Core = es5505_core_render_buses reader chunk r.buses r.core in
      mix_frames chunk offset (record r { core = b.1; buses = b.0 })

  chunk_of-core :
      (chunk offset : ℕ) (r : Rendering)
      → (chunk_of chunk offset r).core ≡ core_after reader chunk r.core
  chunk_of-core chunk offset r =
      let b : (ℕ → ℕ → ℤ) × Es5505Core = es5505_core_render_buses reader chunk r.buses r.core in
      (mix_frames-kept chunk offset (record r { core = b.1; buses = b.0 })).1
      ∙ buses-core reader chunk r.buses r.core

  chunk_of-scratch :
      (chunk offset o j : ℕ) (r : Rendering)
      → chunk ≤ j
      → (chunk_of chunk offset r).buses o j ≡ r.buses o j
  chunk_of-scratch chunk offset o j r h =
      let b : (ℕ → ℕ → ℤ) × Es5505Core = es5505_core_render_buses reader chunk r.buses r.core in
      ap (λ (a : ℕ → ℕ → ℤ). a o j)
        (mix_frames-kept chunk offset (record r { core = b.1; buses = b.0 })).0
      ∙ buses-outside reader chunk o j r.buses r.core h

  chunk_of-sums :
      (chunk offset k : ℕ) (r : Rendering)
      → k < chunk
      → let m = chunk_of chunk offset r in
        (m.left (offset + k) ≡ sum_buses 4 0 (column reader k r.core))
        × (m.right (offset + k) ≡ sum_buses 4 1 (column reader k r.core))
  chunk_of-sums chunk offset k r h =
      let b : (ℕ → ℕ → ℤ) × Es5505Core = es5505_core_render_buses reader chunk r.buses r.core in
      let mixed = mix_frames-inside chunk offset k (record r { core = b.1; buses = b.0 }) h in
      let sums =
        sums_of reader k k r.core b.0
          (λ o low. buses-inside reader chunk o k r.buses r.core h low) in
      (mixed.0 ∙ sums.0, mixed.1 ∙ sums.1)

  chunk_of-IsRendered :
      (chunk offset frames : ℕ) (r t : Rendering)
      → chunk ≤ 256
      → offset + chunk ≤ frames
      → IsRendered (offset + chunk) frames (chunk_of chunk offset r) t
      → IsRendered offset frames r t
  chunk_of-IsRendered chunk offset frames r t small fits rest =
      let m = chunk_of chunk offset r in
      let core = chunk_of-core chunk offset r in
      record {
        sums = λ k h. elim (dec_lt k chunk) [
          | yes below ↦
              let same = rest.kept (offset + k) (inl (omega (arith, below))) in
              let sums = chunk_of-sums chunk offset k r below in (same.0 ∙ sums.0, same.1 ∙ sums.1)
          | no far ↦
              let j = k - chunk in
              let e : offset + k ≡ offset + chunk + j = omega (arith, far) in
              let sums = rest.sums j (omega (arith, far, h)) in
              let col : column reader j m.core ≡ column reader k r.core =
                ap (λ (c : Es5505Core). column reader j c) core
                ∙ column-add reader chunk j k r.core (omega (arith, far)) in
              (
                ap (λ (i : ℕ). t.left i) e ∙ sums.0 ∙ ap (λ (c : ℕ → ℤ). sum_buses 4 0 c) col,
                ap (λ (i : ℕ). t.right i) e ∙ sums.1 ∙ ap (λ (c : ℕ → ℤ). sum_buses 4 1 c) col,
              )
        ];
        kept = λ i h.
            let same = rest.kept i (ground (arith, h)) in
            let b : (ℕ → ℕ → ℤ) × Es5505Core =
              es5505_core_render_buses reader chunk r.buses r.core in
            let out =
              mix_frames-outside chunk offset i (record r { core = b.1; buses = b.0 })
                (ground (arith, h, fits)) in
            (same.0 ∙ out.0, same.1 ∙ out.1);
        scratch = λ o j h.
            rest.scratch o j h ∙ chunk_of-scratch chunk offset o j r (omega (arith, h, small));
        state =
            rest.state
            ∙ ap (λ (c : Es5505Core). core_after reader (frames - (offset + chunk)) c) core
            ∙ core_after-add reader chunk (frames - (offset + chunk)) (frames - offset) r.core
                (omega (arith, fits));
      }

  none_left : (offset frames : ℕ) (r : Rendering) → offset ≡ frames → IsRendered offset frames r r
  unfolding core_after
  none_left offset frames r e =
      let n : 0 ≡ frames - offset = omega (arith, e) in
      record {
        sums = λ k h. absurd (omega (arith, e, h));
        kept = λ i h. (refl, refl);
        scratch = λ o j h. refl;
        state = ap (λ (j : ℕ). core_after reader j r.core) n;
      }

  render_chunks-IsRendered :
      (rounds offset frames : ℕ) (r : Rendering)
      → offset ≤ frames
      → frames ≤ offset + rounds
      → IsRendered offset frames r (render_chunks reader rounds offset frames r)
  unfolding render_chunks
  render_chunks-IsRendered zero offset frames r within enough =
      none_left offset frames r (omega (arith, within, enough))
  render_chunks-IsRendered (suc rounds) offset frames r within enough =
      let chunk = if ltb (frames - offset) 256 then frames - offset else 256 in
      let small : chunk ≤ 256 = ground arith in
      let fits : offset + chunk ≤ frames = ground (arith, within) in
      elim (dec_lt offset frames) [
        | yes more ↦
            let go_on : ltb offset frames ≡ true = ground (arith, more) in
            let some_frames : 1 ≤ chunk = ground (arith, more) in
            let rest =
              render_chunks-IsRendered rounds (offset + chunk) frames (chunk_of chunk offset r) fits
                (omega (arith, enough, some_frames)) in
            rw (go_on, render_chunks) (chunk_of-IsRendered chunk offset frames r _ small fits rest)
        | no end ↦
            let stop : ltb offset frames ≡ false = ground (arith, end) in
            rw (stop, render_chunks) (none_left offset frames r (omega (arith, within, end)))
      ]

  -- For any samples, number of frames, arrays and state: es5505_core_render, which works in
  -- chunks of 256 frames, gives in each of these frames the sums of outputs 0, 2, 4 and 6 on
  -- the left and of 1, 3, 5 and 7 on the right, as 32-bit words, that es5505_core_render_buses
  -- gives for all frames at once; it writes no other place of the two arrays, and no place of
  -- its own arrays from 256 on; and it leaves the same state.
  pub es5505_core_render_lem :
      (frames k o j : ℕ) (scratch outputs : ℕ → ℕ → ℤ) (left right : ℕ → ℤ) (core : Es5505Core)
      → let t = es5505_core_render reader frames scratch left right core in
        let all = es5505_core_render_buses reader frames outputs core in
        (t.left k ≡ (
          if ltb k frames
          then wrap32 (all.0 0 k +ℤ all.0 2 k +ℤ all.0 4 k +ℤ all.0 6 k)
          else left k))
        × (t.right k ≡ (
            if ltb k frames
            then wrap32 (all.0 1 k +ℤ all.0 3 k +ℤ all.0 5 k +ℤ all.0 7 k)
            else right k))
        × (t.buses o (256 + j) ≡ scratch o (256 + j))
        × (t.core ≡ all.1)
  unfolding es5505_core_render
  es5505_core_render_lem frames k o j scratch outputs left right core =
      let r : Rendering = record { core = core; buses = scratch; left = left; right = right } in
      let all = es5505_core_render_buses reader frames outputs core in
      let end = render_chunks reader frames 0 frames r in
      let t = render_chunks-IsRendered frames 0 frames r (omega arith) (omega arith) in
      let e : frames - 0 ≡ frames = omega arith in
      let scratch_kept = t.scratch o (256 + j) (omega arith) in
      let state =
        t.state
        ∙ ap (λ (n : ℕ). core_after reader n core) e
        ∙ sym (buses-core reader frames outputs core) in
      elim (dec_lt k frames) [
        | yes h ↦
            let inside : ltb k frames ≡ true = ground (arith, h) in
            let sums = t.sums k (omega (arith, h)) in
            let same =
              sums_of reader k k core all.0
                (λ n low. buses-inside reader frames n k outputs core h low) in
            let f : k ≡ 0 + k = omega arith in
            rw inside (
              ap (λ (i : ℕ). end.left i) f ∙ sums.0 ∙ sym same.0 ∙ sum_left (λ n. all.0 n k),
              ap (λ (i : ℕ). end.right i) f ∙ sums.1 ∙ sym same.1 ∙ sum_right (λ n. all.0 n k),
              scratch_kept,
              state,
            )
        | no h ↦
            let outside : ltb k frames ≡ false = ground (arith, h) in
            let kept = t.kept k (inr (omega (arith, h))) in
            rw outside (kept.0, kept.1, scratch_kept, state)
      ]
