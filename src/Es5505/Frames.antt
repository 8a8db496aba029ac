-- ===== src/Es5505/Frames.antt =====
-- native/es5505_core.c, lines 202 to 234: the frames of a rendering, one by one.
use ensoniq_eps_16_plus.Base.{
  ℕ, zero, suc, ◌+◌, ◌≤◌, ◌<◌, ◌⊎◌, inl, inr, ◌≡◌, refl, ◌∙◌, ap, arith, Option,
}
use ensoniq_eps_16_plus.Base.Int.{ℤ}
use ensoniq_eps_16_plus.Es5505.Core.{Es5505Core}
use ensoniq_eps_16_plus.Es5505.Render.{
  render_frame, render_frames, es5505_core_render_buses, sum_buses,
}

-- The chip after the first frames, and the outputs of the frame that follows them.
module _ (reader : Option (ℕ → ℕ → ℕ)) where
  unfoldable pub core_after : ℕ → Es5505Core → Es5505Core
  core_after zero core = core
  core_after (suc n) core = core_after n (render_frame reader core).1

  unfoldable pub column : ℕ → Es5505Core → ℕ → ℤ
  column n core = (render_frame reader (core_after n core)).0

  pub core_after-add :
      (m n k : ℕ) (core : Es5505Core)
      → k ≡ m + n
      → core_after n (core_after m core) ≡ core_after k core
  unfolding core_after
  core_after-add zero n k core e =
      let f : n ≡ k = omega (arith, e) in ap (λ (j : ℕ). core_after j core) f
  core_after-add (suc m) n zero core e = absurd (omega (arith, e))
  core_after-add (suc m) n (suc k) core e =
      core_after-add m n k (render_frame reader core).1 (omega (arith, e))

  render_frames-core :
      (left frame : ℕ) (outputs : ℕ → ℕ → ℤ) (core : Es5505Core)
      → (render_frames reader left frame outputs core).1 ≡ core_after left core
  unfolding core_after render_frames
  render_frames-core zero frame outputs core = refl
  render_frames-core (suc left) frame outputs core =
      render_frames-core left (frame + 1) _ (render_frame reader core).1

  -- Other places are as they were.
  render_frames-outside :
      (left frame o i : ℕ) (outputs : ℕ → ℕ → ℤ) (core : Es5505Core)
      → (i < frame) ⊎ (frame + left ≤ i)
      → (render_frames reader left frame outputs core).0 o i ≡ outputs o i
  unfolding render_frames
  render_frames-outside zero frame o i outputs core h = refl
  render_frames-outside (suc left) frame o i outputs core h =
      render_frames-outside left (frame + 1) o i _ (render_frame reader core).1 (ground arith)
      ∙ ground arith

  render_frames-inside :
      (left frame o k : ℕ) (outputs : ℕ → ℕ → ℤ) (core : Es5505Core)
      → k < left
      → o < 8
      → (render_frames reader left frame outputs core).0 o (frame + k) ≡ column k core o
  unfolding core_after render_frames column
  render_frames-inside zero frame o k outputs core h low = absurd (omega arith)
  render_frames-inside (suc left) frame o zero outputs core h low =
      render_frames-outside left (frame + 1) o (frame + 0) _ (render_frame reader core).1
        (inl (omega arith))
      ∙ ground arith
  render_frames-inside (suc left) frame o (suc k) outputs core h low =
      let e : frame + suc k ≡ frame + 1 + k = omega arith in
      rw e
        (render_frames-inside left (frame + 1) o k _ (render_frame reader core).1 (omega arith) low)

  -- A chunk: its frames stand at the start of the scratch arrays.
  pub buses-inside :
      (n o k : ℕ) (outputs : ℕ → ℕ → ℤ) (core : Es5505Core)
      → k < n
      → o < 8
      → (es5505_core_render_buses reader n outputs core).0 o k ≡ column k core o
  unfolding es5505_core_render_buses
  buses-inside n o k outputs core h low =
      let e : k ≡ 0 + k = omega arith in
      ap (λ (j : ℕ). (render_frames reader n 0 outputs core).0 o j) e
      ∙ render_frames-inside n 0 o k outputs core h low

  -- The sums of a frame that stands in arrays.
  pub sums_of :
      (k i : ℕ) (core : Es5505Core) (b : ℕ → ℕ → ℤ)
      → ((o : ℕ) → o < 8 → b o i ≡ column k core o)
      → (sum_buses 4 0 (λ o. b o i) ≡ sum_buses 4 0 (column k core))
        × (sum_buses 4 1 (λ o. b o i) ≡ sum_buses 4 1 (column k core))
  unfolding sum_buses
  sums_of k i core b h = (
    rw (h 0 (omega arith))
        (rw (h 2 (omega arith)) (rw (h 4 (omega arith)) (rw (h 6 (omega arith)) refl))),
    rw (h 1 (omega arith))
        (rw (h 3 (omega arith)) (rw (h 5 (omega arith)) (rw (h 7 (omega arith)) refl))),
  )

  pub buses-outside :
      (n o i : ℕ) (outputs : ℕ → ℕ → ℤ) (core : Es5505Core)
      → n ≤ i
      → (es5505_core_render_buses reader n outputs core).0 o i ≡ outputs o i
  unfolding es5505_core_render_buses
  buses-outside n o i outputs core h =
      render_frames-outside n 0 o i outputs core (inr (omega (arith, h)))

  pub buses-core :
      (n : ℕ) (outputs : ℕ → ℕ → ℤ) (core : Es5505Core)
      → (es5505_core_render_buses reader n outputs core).1 ≡ core_after n core
  unfolding es5505_core_render_buses
  buses-core n outputs core = render_frames-core n 0 outputs core

  pub column-add :
      (m n k : ℕ) (core : Es5505Core) → k ≡ m + n → column n (core_after m core) ≡ column k core
  unfolding column
  column-add m n k core e =
      ap (λ (c : Es5505Core). (render_frame reader c).0) (core_after-add m n k core e)
