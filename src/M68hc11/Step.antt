-- ===== src/M68hc11/Step.antt =====
-- native/m68hc11_core.c, lines 160 to 745: initialisation, reset, interrupts and `m68hc11_step`.
-- The two prefix pages and the main switch are tables in the order of the source.
use ensoniq_eps_16_plus.Base.{ℕ, ◌+◌, ◌==◌, if◌then◌else◌, bit_and, false, ◌||◌}
use ensoniq_eps_16_plus.M68hc11.Core.{
  Bus, Core, S, ◌>>=◌, ◌>>◌, gets, put_pc, finish, read16, fetch8, fetch16, push8, push16, ccr_s,
  ccr_i, ccr_x, stop_illegal, put_last_opcode,
}
use ensoniq_eps_16_plus.M68hc11.Flags.{raise_ccr, load_a, load_b, flag}
use ensoniq_eps_16_plus.Base.{List, [], ◌∷◌}
use ensoniq_eps_16_plus.Base.Switch.{switch}
use ensoniq_eps_16_plus.M68hc11.Inherent.{
  nop, idiv, tap, tpa, inx, dex, clv, sev, clc, sec, cli, sei, sba, tab, tba, aba, tsx, abx, mul,
  xgdx, dey, xgdy,
}
use ensoniq_eps_16_plus.M68hc11.Accumulator.{
  coma, comb, asla, aslb, inca, incb, decb, tsta, tstb, clra, clrb, cmpa_immediate, cmpb_immediate,
  anda_immediate, oraa_immediate, andb_immediate, eorb_immediate, adda_immediate, adca_immediate,
}
use ensoniq_eps_16_plus.M68hc11.Memory.{
  branch, branch_bits, bset_direct, bclr_direct, pulb, pula, psha, pshb, rts, rti, jmp_indexed,
  jmp_extended, bsr, jsr_extended, clr_extended, indexed_x, indexed_y, store_a, store_b,
  load_a_from, load_b_from, compare_a, compare_b, addb_extended,
}
use ensoniq_eps_16_plus.M68hc11.Wide.{
  cpd_immediate, cpy_immediate, cpx_immediate, ldy_immediate, lds_immediate, ldx_immediate,
  ldd_immediate, ldd_extended, ldx_from, stx_direct, std_to, addd_immediate, addd_extended,
}

module _ {M : Type 0} where
  unfoldable pub init : M → Core M
  init mem = record {
    a = 0;
    b = 0;
    ccr = 0;
    x = 0;
    y = 0;
    sp = 0;
    pc = 0;
    cycles = 0;
    last_opcode = 0;
    illegal = false;
    mem = mem;
  }

module _ {M : Type 0} ⦃bus : Bus M⦄ where
  -- `core->ccr` is set before the vector is read, and the counters after it.
  unfoldable pub reset : Core M → Core M
  reset core =
      let cleared = record core {
        a = 0;
        b = 0;
        x = 0;
        y = 0;
        sp = 0;
        ccr = ccr_s + ccr_x + ccr_i;
      } in
      let (vector, c) = read16 0xfffe cleared in
      record c { pc = vector; cycles = 3; last_opcode = 0; illegal = false }

  -- The registers go onto the stack in the order that RTI takes them back in reverse.
  unfoldable pub enter_interrupt : ℕ → S M ℕ
  enter_interrupt vector = do
    pc ← gets λ c. c.pc
    push16 pc
    y ← gets λ c. c.y
    push16 y
    x ← gets λ c. c.x
    push16 x
    a ← gets λ c. c.a
    push8 a
    b ← gets λ c. c.b
    push8 b
    ccr ← gets λ c. c.ccr
    push8 ccr
    raise_ccr ccr_i
    target ← read16 vector
    put_pc target
    finish 12

  unfoldable pub interrupt : ℕ → S M ℕ
  interrupt vector core =
      if core.illegal || flag ccr_i core then (0, core) else enter_interrupt vector core

  unfoldable pub page_1a : List (ℕ × S M ℕ)
  page_1a = (0x83, cpd_immediate) ∷ []

  unfoldable pub page_18 : List (ℕ × S M ℕ)
  page_18 =
      (0x09, dey)
      ∷ (0x8c, cpy_immediate)
      ∷ (0x8f, xgdy)
      ∷ (0xa7, store_a indexed_y 5)
      ∷ (0xa6, load_a_from indexed_y 5)
      ∷ (0xce, ldy_immediate)
      ∷ (0xe6, load_b_from indexed_y 5)
      ∷ (0xe7, store_b indexed_y 5)
      ∷ []

  -- Opcodes 0x01 to 0x3d.
  unfoldable pub page_low : List (ℕ × S M ℕ)
  page_low =
      (0x01, nop)
      ∷ (0x02, idiv)
      ∷ (0x06, tap)
      ∷ (0x07, tpa)
      ∷ (0x08, inx)
      ∷ (0x09, dex)
      ∷ (0x0a, clv)
      ∷ (0x0b, sev)
      ∷ (0x0c, clc)
      ∷ (0x0d, sec)
      ∷ (0x0e, cli)
      ∷ (0x0f, sei)
      ∷ (0x10, sba)
      ∷ (0x12, branch_bits 0x12)
      ∷ (0x13, branch_bits 0x13)
      ∷ (0x14, bset_direct)
      ∷ (0x15, bclr_direct)
      ∷ (0x16, tab)
      ∷ (0x17, tba)
      ∷ (0x1b, aba)
      ∷ (0x30, tsx)
      ∷ (0x33, pulb)
      ∷ (0x32, pula)
      ∷ (0x36, psha)
      ∷ (0x37, pshb)
      ∷ (0x39, rts)
      ∷ (0x3a, abx)
      ∷ (0x3b, rti)
      ∷ (0x3d, mul)
      ∷ []

  -- Opcodes 0x43 to 0x8f and 0x96 to 0xbd.
  unfoldable pub page_middle : List (ℕ × S M ℕ)
  page_middle =
      (0x43, coma)
      ∷ (0x48, asla)
      ∷ (0x4c, inca)
      ∷ (0x4d, tsta)
      ∷ (0x4f, clra)
      ∷ (0x5a, decb)
      ∷ (0x5c, incb)
      ∷ (0x53, comb)
      ∷ (0x58, aslb)
      ∷ (0x5d, tstb)
      ∷ (0x5f, clrb)
      ∷ (0x6e, jmp_indexed)
      ∷ (0x7e, jmp_extended)
      ∷ (0x7f, clr_extended)
      ∷ (0x81, cmpa_immediate)
      ∷ (0x84, anda_immediate)
      ∷ (0x8a, oraa_immediate)
      ∷ (0x8b, adda_immediate)
      ∷ (0x8d, bsr)
      ∷ (0x8e, lds_immediate)
      ∷ (0x8c, cpx_immediate)
      ∷ (0x8f, xgdx)
      ∷ (0x86, (fetch8 >>= λ value. load_a value 2))
      ∷ (0x89, adca_immediate)
      ∷ (0x96, load_a_from fetch8 3)
      ∷ (0xa1, compare_a indexed_x 4)
      ∷ (0xa6, load_a_from indexed_x 4)
      ∷ (0xb6, load_a_from fetch16 4)
      ∷ (0x97, store_a fetch8 3)
      ∷ (0xa7, store_a indexed_x 4)
      ∷ (0xb7, store_a fetch16 4)
      ∷ (0xbd, jsr_extended)
      ∷ []

  -- Opcodes from 0xc1 on.
  unfoldable pub page_high : List (ℕ × S M ℕ)
  page_high =
      (0xcc, ldd_immediate)
      ∷ (0xc3, addd_immediate)
      ∷ (0xc4, andb_immediate)
      ∷ (0xc1, cmpb_immediate)
      ∷ (0xc6, (fetch8 >>= λ value. load_b value 2))
      ∷ (0xc8, eorb_immediate)
      ∷ (0xd6, load_b_from fetch8 3)
      ∷ (0xe6, load_b_from indexed_x 4)
      ∷ (0xf6, load_b_from fetch16 4)
      ∷ (0xd7, store_b fetch8 3)
      ∷ (0xd1, compare_b fetch8 3)
      ∷ (0xde, ldx_from fetch8 4)
      ∷ (0xdf, stx_direct)
      ∷ (0xe7, store_b indexed_x 4)
      ∷ (0xed, std_to indexed_x 5)
      ∷ (0xee, ldx_from indexed_x 5)
      ∷ (0xf7, store_b fetch16 4)
      ∷ (0xfb, addb_extended)
      ∷ (0xfc, ldd_extended)
      ∷ (0xf3, addd_extended)
      ∷ (0xf1, compare_b fetch16 4)
      ∷ (0xfd, std_to fetch16 5)
      ∷ (0xce, ldx_immediate)
      ∷ []

  -- A prefix byte: the second byte selects from a page of its own.
  unfoldable pub prefixed : List (ℕ × S M ℕ) → S M ℕ
  prefixed page = do
    page_opcode ← fetch8
    put_last_opcode page_opcode
    switch page_opcode page stop_illegal

  unfoldable pub execute : ℕ → S M ℕ
  execute opcode =
      if opcode == 0x1a
      then prefixed page_1a
      else if opcode == 0x18
      then prefixed page_18
      else if bit_and opcode 0xf0 == 0x20
      then branch opcode
      else switch opcode page_low (switch opcode page_middle (switch opcode page_high stop_illegal))

  unfoldable pub step : S M ℕ
  step core =
      if core.illegal
      then (0, core)
      else (do opcode ← fetch8; put_last_opcode opcode; execute opcode) core
