-- ===== src/Es5505/Mixing.antt =====
-- native/es5505_core.c, lines 246 to 255: the sums of a chunk.
use ensoniq_eps_16_plus.Base.{
  ℕ, zero, suc, ◌+◌, ◌≤◌, ◌<◌, ◌⊎◌, ◌≡◌, ◌==◌, refl, ◌∙◌, ap, arith, true, false,
}
use native.Mathlib.Decide.{dec_lt}
use ensoniq_eps_16_plus.Base.Int.{ℤ, pos, negsuc, ◌+ℤ◌, wrap32}
use ensoniq_eps_16_plus.Es5505.Render.{Rendering, sum_buses, mix_frames}

-- To wrap a sum on the way does not show in the end.
wrap32-add : (a b : ℤ) → wrap32 (wrap32 a +ℤ b) ≡ wrap32 (a +ℤ b)
wrap32-add a b = ground arith

zero_add : (a : ℤ) → pos 0 +ℤ a ≡ a
zero_add (pos n) = ground arith
zero_add (negsuc n) = ground arith

wrap32-next : (t u b : ℤ) → wrap32 t ≡ wrap32 u → wrap32 (wrap32 t +ℤ b) ≡ wrap32 (u +ℤ b)
wrap32-next t u b e = ap (λ (v : ℤ). wrap32 (v +ℤ b)) e ∙ wrap32-add u b

-- Four summands, wrapped one by one from 0.
wrap32-sum :
    (a b c d : ℤ)
    → wrap32 (wrap32 (wrap32 (wrap32 (pos 0 +ℤ a) +ℤ b) +ℤ c) +ℤ d) ≡ wrap32 (a +ℤ b +ℤ c +ℤ d)
wrap32-sum a b c d =
    wrap32-next _ _ d (wrap32-next _ _ c (wrap32-next (pos 0 +ℤ a) a b (ap wrap32 (zero_add a))))

pub sum_left : (o : ℕ → ℤ) → sum_buses 4 0 o ≡ wrap32 (o 0 +ℤ o 2 +ℤ o 4 +ℤ o 6)
unfolding sum_buses
sum_left o = wrap32-sum (o 0) (o 2) (o 4) (o 6)

pub sum_right : (o : ℕ → ℤ) → sum_buses 4 1 o ≡ wrap32 (o 1 +ℤ o 3 +ℤ o 5 +ℤ o 7)
unfolding sum_buses
sum_right o = wrap32-sum (o 1) (o 3) (o 5) (o 7)

-- The sums of a chunk, in both arrays: what stays, the rest of the arrays, and the sums.
pub mix_frames-kept :
    (n offset : ℕ) (r : Rendering)
    → let t = mix_frames n offset r in (t.buses ≡ r.buses) × (t.core ≡ r.core)
unfolding mix_frames
mix_frames-kept zero offset r = (refl, refl)
mix_frames-kept (suc n) offset r = mix_frames-kept n offset r

pub mix_frames-outside :
    (n offset i : ℕ) (r : Rendering)
    → (i < offset) ⊎ (offset + n ≤ i)
    → let t = mix_frames n offset r in (t.left i ≡ r.left i) × (t.right i ≡ r.right i)
unfolding mix_frames
mix_frames-outside zero offset i r h = (refl, refl)
mix_frames-outside (suc n) offset i r h =
    let ih = mix_frames-outside n offset i r (ground arith) in
    let other : (i == offset + n) ≡ false = ground arith in rw other ih

pub mix_frames-inside :
    (n offset k : ℕ) (r : Rendering)
    → k < n
    → let t = mix_frames n offset r in
      (t.left (offset + k) ≡ sum_buses 4 0 (λ o. r.buses o k))
      × (t.right (offset + k) ≡ sum_buses 4 1 (λ o. r.buses o k))
unfolding mix_frames
mix_frames-inside zero offset k r h = absurd (omega arith)
mix_frames-inside (suc n) offset k r h = elim (dec_lt k n) [
  | yes below ↦
      let other : (offset + k == offset + n) ≡ false = ground (arith, below) in
      rw other (mix_frames-inside n offset k r below)
  | no last ↦
      let here : (offset + k == offset + n) ≡ true = ground (arith, last) in
      let e : n ≡ k = omega (arith, last) in
      let same = (mix_frames-kept n offset r).0 in
      rw here (
        ap (λ (b : ℕ → ℕ → ℤ). sum_buses 4 0 (λ o. b o n)) same
            ∙ ap (λ (j : ℕ). sum_buses 4 0 (λ o. r.buses o j)) e,
        ap (λ (b : ℕ → ℕ → ℤ). sum_buses 4 1 (λ o. b o n)) same
            ∙ ap (λ (j : ℕ). sum_buses 4 1 (λ o. r.buses o j)) e,
      )
]
