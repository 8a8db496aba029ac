-- ===== src/M68hc11/Arithmetic.antt =====
-- The multiplication and the division of native/m68hc11_core.c.
use ensoniq_eps_16_plus.Base.{
  ℕ, ◌+◌, ◌*◌, ◌/◌, ◌^◌, ◌<◌, ◌≡◌, refl, arith, ◌∙◌, ap, u8, u16, Bool, true, false,
}
use native.Mathlib.Nat.{mul-le-mul}
use ensoniq_eps_16_plus.Base.Fields.{bit_or_join}
use ensoniq_eps_16_plus.M68hc11.Core.{
  Core, ◌>>=◌, ◌>>◌, gets, when, put_a, put_b, put_ccr, get_d, set_d, finish,
}
use ensoniq_eps_16_plus.M68hc11.Flags.{clear_ccr, raise_ccr}
use ensoniq_eps_16_plus.M68hc11.Inherent.{mul}

module _ {M : Type 0} where
  d_of : (c : Core M) → c.a < 2 ^ 8 → c.b < 2 ^ 8 → (get_d c).0 ≡ c.a * 2 ^ 8 + c.b
  unfolding get_d
  d_of c ha hb = ap u16 (bit_or_join 8 c.a c.b hb) ∙ omega arith

  -- A conditional change of the condition codes leaves the accumulators alone.
  kept :
      (t : Bool) (m : ℕ) (c : Core M)
      → ((when t (raise_ccr m) c).1.a ≡ c.a) × ((when t (raise_ccr m) c).1.b ≡ c.b)
  unfolding when raise_ccr put_ccr gets ◌>>=◌
  kept true m c = (refl, refl)
  kept false m c = (refl, refl)

  halves-mul :
      (c : Core M)
      → ((mul c).1.a ≡ u8 (u16 (c.a * c.b) / 2 ^ 8)) × ((mul c).1.b ≡ u8 (u16 (c.a * c.b)))
  unfolding mul ◌>>=◌ ◌>>◌ gets set_d put_a put_b clear_ccr put_ccr finish
  halves-mul c = kept _ _ _

  -- For a core whose two accumulators are bytes, D after MUL is the product of A and B before
  -- it, without loss.
  pub get_d-mul : (c : Core M) → c.a < 2 ^ 8 → c.b < 2 ^ 8 → (get_d (mul c).1).0 ≡ c.a * c.b
  get_d-mul c ha hb =
      let h = halves-mul c in
      let bound : c.a * c.b < 2 ^ 16 = omega (
        arith,
        mul-le-mul {n₁ = c.a} {m₁ = c.b} {n₂ = 255} {m₂ = 255} (omega arith) (omega arith),
      ) in
      d_of (mul c).1 (omega (arith, h.0)) (omega (arith, h.1)) ∙ omega (arith, h.0, h.1, bound)
