-- ===== src/M68hc11/Timing/Accumulator.antt =====
-- Each instruction of Accumulator.antt returns the cycles that it adds to the counter.
use ensoniq_eps_16_plus.M68hc11.Core.{Bus}
use ensoniq_eps_16_plus.M68hc11.Accumulator.{
  coma, comb, asla, aslb, inca, incb, decb, tsta, tstb, clra, clrb, cmpa_immediate, cmpb_immediate,
  anda_immediate, oraa_immediate, andb_immediate, eorb_immediate, adda_immediate, adca_immediate,
}
use ensoniq_eps_16_plus.M68hc11.Effects.{BusKeeps, Timed}
use ensoniq_eps_16_plus.M68hc11.Helpers.{helpers}

module _ {M : Type 0} ⦃bus : Bus M⦄ {P : M → Type 0} (k : BusKeeps bus P) where
  pub Timed-coma : Timed P coma
  unfolding coma
  Timed-coma = search helpers depth 30

  pub Timed-comb : Timed P comb
  unfolding comb
  Timed-comb = search helpers depth 30

  pub Timed-asla : Timed P asla
  unfolding asla
  Timed-asla = search helpers depth 30

  pub Timed-aslb : Timed P aslb
  unfolding aslb
  Timed-aslb = search helpers depth 30

  pub Timed-inca : Timed P inca
  unfolding inca
  Timed-inca = search helpers depth 30

  pub Timed-incb : Timed P incb
  unfolding incb
  Timed-incb = search helpers depth 30

  pub Timed-decb : Timed P decb
  unfolding decb
  Timed-decb = search helpers depth 30

  pub Timed-tsta : Timed P tsta
  unfolding tsta
  Timed-tsta = search helpers depth 30

  pub Timed-tstb : Timed P tstb
  unfolding tstb
  Timed-tstb = search helpers depth 30

  pub Timed-clra : Timed P clra
  unfolding clra
  Timed-clra = search helpers depth 30

  pub Timed-clrb : Timed P clrb
  unfolding clrb
  Timed-clrb = search helpers depth 30

  pub Timed-cmpa_immediate : Timed P cmpa_immediate
  unfolding cmpa_immediate
  Timed-cmpa_immediate = search helpers depth 30

  pub Timed-cmpb_immediate : Timed P cmpb_immediate
  unfolding cmpb_immediate
  Timed-cmpb_immediate = search helpers depth 30

  pub Timed-anda_immediate : Timed P anda_immediate
  unfolding anda_immediate
  Timed-anda_immediate = search helpers depth 30

  pub Timed-oraa_immediate : Timed P oraa_immediate
  unfolding oraa_immediate
  Timed-oraa_immediate = search helpers depth 30

  pub Timed-andb_immediate : Timed P andb_immediate
  unfolding andb_immediate
  Timed-andb_immediate = search helpers depth 30

  pub Timed-eorb_immediate : Timed P eorb_immediate
  unfolding eorb_immediate
  Timed-eorb_immediate = search helpers depth 30

  pub Timed-adda_immediate : Timed P adda_immediate
  unfolding adda_immediate
  Timed-adda_immediate = search helpers depth 30

  pub Timed-adca_immediate : Timed P adca_immediate
  unfolding adca_immediate
  Timed-adca_immediate = search helpers depth 30
