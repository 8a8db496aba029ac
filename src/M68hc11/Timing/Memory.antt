-- ===== src/M68hc11/Timing/Memory.antt =====
-- Each instruction of Memory.antt returns the cycles that it adds to the counter.
use ensoniq_eps_16_plus.Base.{ℕ}
use ensoniq_eps_16_plus.M68hc11.Core.{Bus, S}
use ensoniq_eps_16_plus.M68hc11.Memory.{
  branch, branch_bits, bset_direct, bclr_direct, pulb, pula, psha, pshb, rts, pull_registers, rti,
  jmp_indexed, jmp_extended, bsr, jsr_extended, clr_extended, store_a, store_b, load_a_from,
  load_b_from, compare_a, compare_b, addb_extended,
}
use ensoniq_eps_16_plus.M68hc11.Effects.{BusKeeps, Silent, Timed}
use ensoniq_eps_16_plus.M68hc11.Helpers.{helpers}

module _ {M : Type 0} ⦃bus : Bus M⦄ {P : M → Type 0} (k : BusKeeps bus P) where
  pub Timed-branch : (v : ℕ) → Timed P (branch v)
  unfolding branch
  Timed-branch v = search helpers depth 30

  pub Timed-branch_bits : (v : ℕ) → Timed P (branch_bits v)
  unfolding branch_bits
  Timed-branch_bits v = search helpers depth 30

  pub Timed-bset_direct : Timed P bset_direct
  unfolding bset_direct
  Timed-bset_direct = search helpers depth 30

  pub Timed-bclr_direct : Timed P bclr_direct
  unfolding bclr_direct
  Timed-bclr_direct = search helpers depth 30

  pub Timed-pulb : Timed P pulb
  unfolding pulb
  Timed-pulb = search helpers depth 30

  pub Timed-pula : Timed P pula
  unfolding pula
  Timed-pula = search helpers depth 30

  pub Timed-psha : Timed P psha
  unfolding psha
  Timed-psha = search helpers depth 30

  pub Timed-pshb : Timed P pshb
  unfolding pshb
  Timed-pshb = search helpers depth 30

  pub Timed-rts : Timed P rts
  unfolding rts
  Timed-rts = search helpers depth 30

  Timed-pull_registers : Timed P pull_registers
  unfolding pull_registers
  Timed-pull_registers = search helpers depth 30

  pub Timed-rti : Timed P rti
  unfolding rti
  Timed-rti = search (helpers, Timed-pull_registers) depth 30

  pub Timed-jmp_indexed : Timed P jmp_indexed
  unfolding jmp_indexed
  Timed-jmp_indexed = search helpers depth 30

  pub Timed-jmp_extended : Timed P jmp_extended
  unfolding jmp_extended
  Timed-jmp_extended = search helpers depth 30

  pub Timed-bsr : Timed P bsr
  unfolding bsr
  Timed-bsr = search helpers depth 30

  pub Timed-jsr_extended : Timed P jsr_extended
  unfolding jsr_extended
  Timed-jsr_extended = search helpers depth 30

  pub Timed-clr_extended : Timed P clr_extended
  unfolding clr_extended
  Timed-clr_extended = search helpers depth 30

  pub Timed-store_a : (mode : S M ℕ) (n : ℕ) → Silent P mode → Timed P (store_a mode n)
  unfolding store_a
  Timed-store_a mode n h = search helpers depth 30

  pub Timed-store_b : (mode : S M ℕ) (n : ℕ) → Silent P mode → Timed P (store_b mode n)
  unfolding store_b
  Timed-store_b mode n h = search helpers depth 30

  pub Timed-load_a_from : (mode : S M ℕ) (n : ℕ) → Silent P mode → Timed P (load_a_from mode n)
  unfolding load_a_from
  Timed-load_a_from mode n h = search helpers depth 30

  pub Timed-load_b_from : (mode : S M ℕ) (n : ℕ) → Silent P mode → Timed P (load_b_from mode n)
  unfolding load_b_from
  Timed-load_b_from mode n h = search helpers depth 30

  pub Timed-compare_a : (mode : S M ℕ) (n : ℕ) → Silent P mode → Timed P (compare_a mode n)
  unfolding compare_a
  Timed-compare_a mode n h = search helpers depth 30

  pub Timed-compare_b : (mode : S M ℕ) (n : ℕ) → Silent P mode → Timed P (compare_b mode n)
  unfolding compare_b
  Timed-compare_b mode n h = search helpers depth 30

  pub Timed-addb_extended : Timed P addb_extended
  unfolding addb_extended
  Timed-addb_extended = search helpers depth 30
