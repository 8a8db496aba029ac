-- ===== src/M68hc11/Timing/Wide.antt =====
-- Each instruction of Wide.antt returns the cycles that it adds to the counter.
use ensoniq_eps_16_plus.Base.{ℕ}
use ensoniq_eps_16_plus.M68hc11.Core.{Bus, S}
use ensoniq_eps_16_plus.M68hc11.Wide.{
  cpd_immediate, cpy_immediate, cpx_immediate, ldy_immediate, lds_immediate, ldx_immediate,
  ldd_immediate, ldd_extended, ldx_from, stx_direct, std_to, addd_immediate, addd_extended,
}
use ensoniq_eps_16_plus.M68hc11.Effects.{BusKeeps, Silent, Timed}
use ensoniq_eps_16_plus.M68hc11.Helpers.{helpers}

module _ {M : Type 0} ⦃bus : Bus M⦄ {P : M → Type 0} (k : BusKeeps bus P) where
  pub Timed-cpd_immediate : Timed P cpd_immediate
  unfolding cpd_immediate
  Timed-cpd_immediate = search helpers depth 30

  pub Timed-cpy_immediate : Timed P cpy_immediate
  unfolding cpy_immediate
  Timed-cpy_immediate = search helpers depth 30

  pub Timed-cpx_immediate : Timed P cpx_immediate
  unfolding cpx_immediate
  Timed-cpx_immediate = search helpers depth 30

  pub Timed-ldy_immediate : Timed P ldy_immediate
  unfolding ldy_immediate
  Timed-ldy_immediate = search helpers depth 30

  pub Timed-lds_immediate : Timed P lds_immediate
  unfolding lds_immediate
  Timed-lds_immediate = search helpers depth 30

  pub Timed-ldx_immediate : Timed P ldx_immediate
  unfolding ldx_immediate
  Timed-ldx_immediate = search helpers depth 30

  pub Timed-ldd_immediate : Timed P ldd_immediate
  unfolding ldd_immediate
  Timed-ldd_immediate = search helpers depth 30

  pub Timed-ldd_extended : Timed P ldd_extended
  unfolding ldd_extended
  Timed-ldd_extended = search helpers depth 30

  pub Timed-ldx_from : (mode : S M ℕ) (n : ℕ) → Silent P mode → Timed P (ldx_from mode n)
  unfolding ldx_from
  Timed-ldx_from mode n h = search helpers depth 30

  pub Timed-stx_direct : Timed P stx_direct
  unfolding stx_direct
  Timed-stx_direct = search helpers depth 30

  pub Timed-std_to : (mode : S M ℕ) (n : ℕ) → Silent P mode → Timed P (std_to mode n)
  unfolding std_to
  Timed-std_to mode n h = search helpers depth 30

  pub Timed-addd_immediate : Timed P addd_immediate
  unfolding addd_immediate
  Timed-addd_immediate = search helpers depth 30

  pub Timed-addd_extended : Timed P addd_extended
  unfolding addd_extended
  Timed-addd_extended = search helpers depth 30
