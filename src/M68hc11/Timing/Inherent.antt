-- ===== src/M68hc11/Timing/Inherent.antt =====
-- Each instruction of Inherent.antt returns the cycles that it adds to the counter.
use ensoniq_eps_16_plus.M68hc11.Inherent.{
  nop, idiv, tap, tpa, inx, dex, clv, sev, clc, sec, cli, sei, sba, tab, tba, aba, tsx, abx, mul,
  xgdx, dey, xgdy,
}
use ensoniq_eps_16_plus.M68hc11.Effects.{Timed}
use ensoniq_eps_16_plus.M68hc11.Helpers.{helpers}

module _ {M : Type 0} {P : M → Type 0} where
  pub Timed-nop : Timed P nop
  unfolding nop
  Timed-nop = search helpers depth 30

  pub Timed-idiv : Timed P idiv
  unfolding idiv
  Timed-idiv = search helpers depth 30

  pub Timed-tap : Timed P tap
  unfolding tap
  Timed-tap = search helpers depth 30

  pub Timed-tpa : Timed P tpa
  unfolding tpa
  Timed-tpa = search helpers depth 30

  pub Timed-inx : Timed P inx
  unfolding inx
  Timed-inx = search helpers depth 30

  pub Timed-dex : Timed P dex
  unfolding dex
  Timed-dex = search helpers depth 30

  pub Timed-clv : Timed P clv
  unfolding clv
  Timed-clv = search helpers depth 30

  pub Timed-sev : Timed P sev
  unfolding sev
  Timed-sev = search helpers depth 30

  pub Timed-clc : Timed P clc
  unfolding clc
  Timed-clc = search helpers depth 30

  pub Timed-sec : Timed P sec
  unfolding sec
  Timed-sec = search helpers depth 30

  pub Timed-cli : Timed P cli
  unfolding cli
  Timed-cli = search helpers depth 30

  pub Timed-sei : Timed P sei
  unfolding sei
  Timed-sei = search helpers depth 30

  pub Timed-sba : Timed P sba
  unfolding sba
  Timed-sba = search helpers depth 30

  pub Timed-tab : Timed P tab
  unfolding tab
  Timed-tab = search helpers depth 30

  pub Timed-tba : Timed P tba
  unfolding tba
  Timed-tba = search helpers depth 30

  pub Timed-aba : Timed P aba
  unfolding aba
  Timed-aba = search helpers depth 30

  pub Timed-tsx : Timed P tsx
  unfolding tsx
  Timed-tsx = search helpers depth 30

  pub Timed-abx : Timed P abx
  unfolding abx
  Timed-abx = search helpers depth 30

  pub Timed-mul : Timed P mul
  unfolding mul
  Timed-mul = search helpers depth 30

  pub Timed-xgdx : Timed P xgdx
  unfolding xgdx
  Timed-xgdx = search helpers depth 30

  pub Timed-dey : Timed P dey
  unfolding dey
  Timed-dey = search helpers depth 30

  pub Timed-xgdy : Timed P xgdy
  unfolding xgdy
  Timed-xgdy = search helpers depth 30
