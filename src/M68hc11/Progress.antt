-- ===== src/M68hc11/Progress.antt =====
-- native/m68hc11_core.c, `m68hc11_step`: each instruction takes from 1 to 41 cycles, unless its opcode
-- is illegal.
use ensoniq_eps_16_plus.Base.{
  ℕ, ◌≤◌, ◌≡◌, ◌⊎◌, inl, inr, refl, arith, leb, ◌==◌, bit_and, if◌then◌else◌, Bool, true, false,
  ◌&&◌, List,
}
use ensoniq_eps_16_plus.Base.Switch.{AllHandlers, switch-All}
use ensoniq_eps_16_plus.M68hc11.Core.{
  Bus, Core, S, ◌>>=◌, ◌>>◌, fetch8, put_last_opcode, finish, stop_illegal,
}
use ensoniq_eps_16_plus.M68hc11.Flags.{load_a, load_b}
use ensoniq_eps_16_plus.M68hc11.Inherent.{
  nop, idiv, tap, tpa, inx, dex, clv, sev, clc, sec, cli, sei, sba, tab, tba, aba, tsx, abx, mul,
  xgdx, dey, xgdy,
}
use ensoniq_eps_16_plus.M68hc11.Accumulator.{
  coma, comb, asla, aslb, inca, incb, decb, tsta, tstb, clra, clrb, cmpa_immediate, cmpb_immediate,
  anda_immediate, oraa_immediate, andb_immediate, eorb_immediate, adda_immediate, adca_immediate,
}
use ensoniq_eps_16_plus.M68hc11.Memory.{
  branch, branch_bits, bset_direct, bclr_direct, pulb, pula, psha, pshb, rts, rti, pull_registers,
  jmp_indexed, jmp_extended, bsr, jsr_extended, clr_extended, store_a, store_b, load_a_from,
  load_b_from, compare_a, compare_b, addb_extended,
}
use ensoniq_eps_16_plus.M68hc11.Wide.{
  cpd_immediate, cpy_immediate, cpx_immediate, ldy_immediate, lds_immediate, ldx_immediate,
  ldd_immediate, ldd_extended, ldx_from, stx_direct, std_to, addd_immediate, addd_extended,
}
use ensoniq_eps_16_plus.M68hc11.Step.{
  page_1a, page_18, page_low, page_middle, page_high, prefixed, execute, step, enter_interrupt,
  interrupt,
}

-- From every core, the action takes from 1 to 41 cycles, or leaves the core stopped.
pub record Moves {M : Type 0} (m : S M ℕ) : Type 0 where
  pub at : (c : Core M) → ((1 ≤ (m c).0) × ((m c).0 ≤ 41)) ⊎ ((m c).1.illegal ≡ true)

module _ {M : Type 0} where
  Moves-finish : (n : ℕ) → (leb 1 n && leb n 41) ≡ true → Moves {M = M} (finish n)
  unfolding finish
  Moves-finish n h = record { at = λ c. inl (ground arith) }

  Moves-stop_illegal : Moves {M = M} stop_illegal
  unfolding stop_illegal
  Moves-stop_illegal = record { at = λ c. inr refl }

  Moves-bind : {A : Type 0} (m : S M A) (f : A → S M ℕ) → ((a : A) → Moves (f a)) → Moves (m >>= f)
  unfolding ◌>>=◌
  Moves-bind m f h = record { at = λ c. (h (m c).0).at (m c).1 }

  Moves-then : {A : Type 0} (m : S M A) (n : S M ℕ) → Moves n → Moves (m >> n)
  unfolding ◌>>◌
  Moves-then m n h = record { at = λ c. h.at (m c).1 }

  Moves-if : (b : Bool) (m n : S M ℕ) → Moves m → Moves n → Moves (if b then m else n)
  Moves-if true m n hm hn = hm
  Moves-if false m n hm hn = hn

ruleset ends = (Moves-finish, Moves-stop_illegal, Moves-bind, Moves-then, refl)

module _ (M : Type 0) ⦃bus : Bus M⦄ where
  page_1a-Moves : AllHandlers (Moves {M = M}) page_1a
  unfolding page_1a cpd_immediate
  page_1a-Moves = search ends depth 60

  page_18-Moves : AllHandlers (Moves {M = M}) page_18
  unfolding page_18 dey cpy_immediate xgdy store_a load_a_from ldy_immediate load_b_from store_b
      load_a load_b
  page_18-Moves = search ends depth 60

  page_low-Moves : AllHandlers (Moves {M = M}) page_low
  unfolding page_low nop idiv tap tpa inx dex clv sev clc sec cli sei sba tab tba aba tsx abx mul
      branch_bits bset_direct bclr_direct pulb pula psha pshb rts rti pull_registers
  page_low-Moves = search ends depth 100

  page_middle-Moves : AllHandlers (Moves {M = M}) page_middle
  unfolding page_middle coma comb asla inca tsta clra decb incb aslb tstb clrb jmp_indexed
      jmp_extended clr_extended cmpa_immediate anda_immediate oraa_immediate adda_immediate bsr
      lds_immediate cpx_immediate xgdx load_a adca_immediate load_a_from compare_a store_a
      jsr_extended
  page_middle-Moves = search ends depth 100

  page_high-Moves : AllHandlers (Moves {M = M}) page_high
  unfolding page_high ldd_immediate addd_immediate andb_immediate cmpb_immediate load_b
      eorb_immediate load_b_from store_b compare_b ldx_from stx_direct std_to addb_extended
      ldd_extended addd_extended ldx_immediate
  page_high-Moves = search ends depth 100

  branch-Moves : (opcode : ℕ) → Moves {M = M} (branch opcode)
  unfolding branch
  branch-Moves opcode = search ends depth 10

  prefixed-Moves :
      (page : List (ℕ × S M ℕ)) → AllHandlers (Moves {M = M}) page → Moves {M = M} (prefixed page)
  unfolding prefixed
  prefixed-Moves page h =
      search (ends, λ (t : ℕ). switch-All Moves t page stop_illegal h Moves-stop_illegal)

  execute-Moves : (opcode : ℕ) → Moves {M = M} (execute opcode)
  unfolding execute
  execute-Moves opcode = Moves-if (opcode == 0x1a) _ _ (prefixed-Moves page_1a page_1a-Moves) (
      Moves-if (opcode == 0x18) _ _ (prefixed-Moves page_18 page_18-Moves) (
        Moves-if (bit_and opcode 0xf0 == 0x20) _ _ (branch-Moves opcode) (
          switch-All Moves opcode page_low _ page_low-Moves (
            switch-All Moves opcode page_middle _ page_middle-Moves
              (switch-All Moves opcode page_high _ page_high-Moves Moves-stop_illegal)))))

  fetch_execute-Moves : Moves {M = M} (do opcode ← fetch8; put_last_opcode opcode; execute opcode)
  fetch_execute-Moves = search (ends, execute-Moves)

  pub step-Moves : Moves {M = M} step
  unfolding step
  step-Moves = record { at = λ c. go c c.illegal refl }
    where
      run : S M ℕ
      run = do opcode ← fetch8; put_last_opcode opcode; execute opcode

      go :
          (c : Core M) (b : Bool)
          → c.illegal ≡ b
          → let r : ℕ × Core M = if b then (0, c) else run c in
            ((1 ≤ r.0) × (r.0 ≤ 41)) ⊎ (r.1.illegal ≡ true)
      go c true e = inr e
      go c false e = fetch_execute-Moves.at c

  enter_interrupt-cycles : (vector : ℕ) (c : Core M) → (enter_interrupt vector c).0 ≡ 12
  unfolding enter_interrupt ◌>>=◌ ◌>>◌ finish
  enter_interrupt-cycles vector c = refl

  pub interrupt-cycles : (vector : ℕ) (c : Core M) → (interrupt vector c).0 ≤ 12
  unfolding interrupt
  interrupt-cycles vector c = ground (arith, enter_interrupt-cycles vector c)

  pub interrupt-illegal : (vector : ℕ) (c : Core M) → c.illegal ≡ true → interrupt vector c ≡ (0, c)
  unfolding interrupt
  interrupt-illegal vector c e = rw e refl
