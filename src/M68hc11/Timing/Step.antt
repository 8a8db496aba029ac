-- ===== src/M68hc11/Timing/Step.antt =====
-- The whole of `m68hc11_step` and `m68hc11_interrupt`: width, memory and cycles.
use ensoniq_eps_16_plus.Base.{List, ℕ, ◌+◌, ◌≡◌, u64, ◌||◌, ◌==◌, bit_and}
use ensoniq_eps_16_plus.Base.Switch.{AllHandlers, switch-All}
use ensoniq_eps_16_plus.M68hc11.Core.{
  Bus, Core, S, ◌>>=◌, ◌>>◌, fetch8, put_last_opcode, ccr_i, stop_illegal,
}
use ensoniq_eps_16_plus.M68hc11.Flags.{flag}
use ensoniq_eps_16_plus.M68hc11.Step.{
  page_1a, page_18, page_low, page_middle, page_high, prefixed, execute, step, interrupt,
  enter_interrupt,
}
use ensoniq_eps_16_plus.M68hc11.Effects.{
  BusKeeps, IsWord, Timed, Timed-unless, Timed-if, Timed-stop_illegal,
}
use ensoniq_eps_16_plus.M68hc11.Helpers.{helpers}
use ensoniq_eps_16_plus.M68hc11.Timing.Inherent.{
  Timed-nop, Timed-idiv, Timed-tap, Timed-tpa, Timed-inx, Timed-dex, Timed-clv, Timed-sev,
  Timed-clc, Timed-sec, Timed-cli, Timed-sei, Timed-sba, Timed-tab, Timed-tba, Timed-aba, Timed-tsx,
  Timed-abx, Timed-mul, Timed-xgdx, Timed-dey, Timed-xgdy,
}
use ensoniq_eps_16_plus.M68hc11.Timing.Accumulator.{
  Timed-coma, Timed-comb, Timed-asla, Timed-aslb, Timed-inca, Timed-incb, Timed-decb, Timed-tsta,
  Timed-tstb, Timed-clra, Timed-clrb, Timed-cmpa_immediate, Timed-cmpb_immediate,
  Timed-anda_immediate, Timed-oraa_immediate, Timed-andb_immediate, Timed-eorb_immediate,
  Timed-adda_immediate, Timed-adca_immediate,
}
use ensoniq_eps_16_plus.M68hc11.Timing.Memory.{
  Timed-branch, Timed-branch_bits, Timed-bset_direct, Timed-bclr_direct, Timed-pulb, Timed-pula,
  Timed-psha, Timed-pshb, Timed-rts, Timed-rti, Timed-jmp_indexed, Timed-jmp_extended, Timed-bsr,
  Timed-jsr_extended, Timed-clr_extended, Timed-store_a, Timed-store_b, Timed-load_a_from,
  Timed-load_b_from, Timed-compare_a, Timed-compare_b, Timed-addb_extended,
}
use ensoniq_eps_16_plus.M68hc11.Timing.Wide.{
  Timed-cpd_immediate, Timed-cpy_immediate, Timed-cpx_immediate, Timed-ldy_immediate,
  Timed-lds_immediate, Timed-ldx_immediate, Timed-ldd_immediate, Timed-ldd_extended, Timed-ldx_from,
  Timed-stx_direct, Timed-std_to, Timed-addd_immediate, Timed-addd_extended,
}

ruleset inherent_rules = (
  Timed-nop, Timed-idiv, Timed-tap, Timed-tpa, Timed-inx, Timed-dex, Timed-clv, Timed-sev,
  Timed-clc, Timed-sec, Timed-cli, Timed-sei, Timed-sba, Timed-tab, Timed-tba, Timed-aba, Timed-tsx,
  Timed-abx, Timed-mul, Timed-xgdx, Timed-dey, Timed-xgdy,
)

ruleset accumulator_rules = (
  Timed-coma, Timed-comb, Timed-asla, Timed-aslb, Timed-inca, Timed-incb, Timed-decb, Timed-tsta,
  Timed-tstb, Timed-clra, Timed-clrb, Timed-cmpa_immediate, Timed-cmpb_immediate,
  Timed-anda_immediate, Timed-oraa_immediate, Timed-andb_immediate, Timed-eorb_immediate,
  Timed-adda_immediate, Timed-adca_immediate,
)

ruleset memory_rules = (
  Timed-branch, Timed-branch_bits, Timed-bset_direct, Timed-bclr_direct, Timed-pulb, Timed-pula,
  Timed-psha, Timed-pshb, Timed-rts, Timed-rti, Timed-jmp_indexed, Timed-jmp_extended, Timed-bsr,
  Timed-jsr_extended, Timed-clr_extended, Timed-store_a, Timed-store_b, Timed-load_a_from,
  Timed-load_b_from, Timed-compare_a, Timed-compare_b, Timed-addb_extended, Timed-cpd_immediate,
  Timed-cpy_immediate, Timed-cpx_immediate, Timed-ldy_immediate, Timed-lds_immediate,
  Timed-ldx_immediate, Timed-ldd_immediate, Timed-ldd_extended, Timed-ldx_from, Timed-stx_direct,
  Timed-std_to, Timed-addd_immediate, Timed-addd_extended,
)

module _ {M : Type 0} ⦃bus : Bus M⦄ {P : M → Type 0} (k : BusKeeps bus P) where
  page_1a-Timed : AllHandlers (Timed P) page_1a
  unfolding page_1a
  page_1a-Timed = search memory_rules

  page_18-Timed : AllHandlers (Timed P) page_18
  unfolding page_18
  page_18-Timed = search (inherent_rules, memory_rules, helpers) depth 30

  page_low-Timed : AllHandlers (Timed P) page_low
  unfolding page_low
  page_low-Timed = search (inherent_rules, memory_rules) depth 60

  page_middle-Timed : AllHandlers (Timed P) page_middle
  unfolding page_middle
  page_middle-Timed = search (inherent_rules, accumulator_rules, memory_rules, helpers) depth 60

  page_high-Timed : AllHandlers (Timed P) page_high
  unfolding page_high
  page_high-Timed = search (accumulator_rules, memory_rules, helpers) depth 60

  prefixed-Timed : (page : List (ℕ × S M ℕ)) → AllHandlers (Timed P) page → Timed P (prefixed page)
  unfolding prefixed
  prefixed-Timed page h =
      search (helpers, λ (t : ℕ). switch-All (Timed P) t page stop_illegal h Timed-stop_illegal)

  execute-Timed : (opcode : ℕ) → Timed P (execute opcode)
  unfolding execute
  execute-Timed opcode = Timed-if (opcode == 0x1a) _ _ (prefixed-Timed page_1a page_1a-Timed) (
      Timed-if (opcode == 0x18) _ _ (prefixed-Timed page_18 page_18-Timed) (
        Timed-if (bit_and opcode 0xf0 == 0x20) _ _ (Timed-branch k opcode) (
          switch-All (Timed P) opcode page_low _ page_low-Timed (
            switch-All (Timed P) opcode page_middle _ page_middle-Timed
              (switch-All (Timed P) opcode page_high _ page_high-Timed Timed-stop_illegal)))))

  fetch_execute-Timed : Timed P (do opcode ← fetch8; put_last_opcode opcode; execute opcode)
  fetch_execute-Timed = search (helpers, execute-Timed)

  step-Timed : Timed P step
  unfolding step
  step-Timed = Timed-unless (λ c. c.illegal) _ fetch_execute-Timed

  enter_interrupt-Timed : (vector : ℕ) → Timed P (enter_interrupt vector)
  unfolding enter_interrupt
  enter_interrupt-Timed vector = search helpers depth 40

  interrupt-Timed : (vector : ℕ) → Timed P (interrupt vector)
  unfolding interrupt
  interrupt-Timed vector =
      Timed-unless (λ c. c.illegal || flag ccr_i c) _ (enter_interrupt-Timed vector)

  -- Over a bus whose accesses keep a property of the memory, and from a core whose registers
  -- are within their widths and whose memory has the property, one instruction leaves every
  -- register within its width and the memory with the property, and adds to the 64-bit cycle
  -- counter exactly the cycles that it returns.
  pub step_effect :
      (c : Core M)
      → IsWord c
      → P c.mem
      → IsWord (step c).1 × P (step c).1.mem × ((step c).1.cycles ≡ u64 (c.cycles + (step c).0))
  step_effect c w p = step-Timed.at c w p

  -- Over a bus whose accesses keep a property of the memory, and from a core whose registers
  -- are within their widths and whose memory has the property, a call of the interrupt entry,
  -- taken or refused, leaves every register within its width and the memory with the property,
  -- and adds to the 64-bit cycle counter exactly the cycles that it returns.
  pub interrupt_effect :
      (vector : ℕ) (c : Core M)
      → IsWord c
      → P c.mem
      → IsWord (interrupt vector c).1
        × P (interrupt vector c).1.mem
        × ((interrupt vector c).1.cycles ≡ u64 (c.cycles + (interrupt vector c).0))
  interrupt_effect vector c w p = (interrupt-Timed vector).at c w p
