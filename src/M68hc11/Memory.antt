-- ===== src/M68hc11/Memory.antt =====
-- native/m68hc11_core.c, `m68hc11_step`: branches, jumps, the stack, loads and stores.
-- Where an operand and a memory read stand in one C expression, they are taken from left to right.
use ensoniq_eps_16_plus.Base.{
  ℕ, ◌+◌, ◌-◌, ◌==◌, ltb, if◌then◌else◌, u8, u16, sub8, bit_and, bit_or, not, ◌&&◌, ◌||◌,
}
use ensoniq_eps_16_plus.M68hc11.Core.{
  Bus, S, ◌>>=◌, ◌>>◌, gets, when, put_a, put_b, put_ccr, put_x, put_y, put_pc, finish, read8,
  write8, fetch8, fetch16, push8, pull8, push16, pull16, ccr_c, ccr_v, ccr_z, ccr_n, ccr_x,
}
use ensoniq_eps_16_plus.M68hc11.Flags.{
  clear_ccr, raise_ccr, set_nzv8, set_sub8, set_add8, load_a, load_b, flag, branch_condition,
}

-- `(uint16_t)(pc + offset)` for an `int8_t` offset given by its byte.
abbrev add_offset : ℕ → ℕ → ℕ
add_offset pc offset = u16 (pc + (if ltb offset 0x80 then offset else 0xff00 + offset))

module _ {M : Type 0} ⦃bus : Bus M⦄ where
  -- `core->pc = (uint16_t)(core->pc + offset);`
  unfoldable pub jump_by : ℕ → S M (Unit {0})
  jump_by offset = do pc ← gets λ c. c.pc; put_pc (add_offset pc offset)

  unfoldable pub branch : ℕ → S M ℕ
  branch opcode = do
    offset ← fetch8
    taken ← gets λ c. branch_condition c opcode
    when taken (jump_by offset)
    finish 3

  unfoldable pub branch_bits : ℕ → S M ℕ
  branch_bits opcode = do
    address ← fetch8
    mask ← fetch8
    offset ← fetch8
    value ← read8 address
    let bits_set = bit_and value mask == mask
    when ((opcode == 0x12 && bits_set) || (opcode == 0x13 && not bits_set)) (jump_by offset)
    finish 6

  unfoldable pub bset_direct : S M ℕ
  bset_direct = do
    address ← fetch8
    value ← read8 address
    mask ← fetch8
    let result = u8 (bit_or value mask)
    write8 address result
    set_nzv8 result
    finish 6

  unfoldable pub bclr_direct : S M ℕ
  bclr_direct = do
    address ← fetch8
    value ← read8 address
    mask ← fetch8
    let result = u8 (bit_and value (255 - mask))
    write8 address result
    set_nzv8 result
    finish 6

  unfoldable pub pulb : S M ℕ
  pulb = do value ← pull8; put_b value; finish 4

  unfoldable pub pula : S M ℕ
  pula = do value ← pull8; put_a value; finish 4

  unfoldable pub psha : S M ℕ
  psha = do a ← gets λ c. c.a; push8 a; finish 3

  unfoldable pub pshb : S M ℕ
  pshb = do b ← gets λ c. c.b; push8 b; finish 3

  unfoldable pub rts : S M ℕ
  rts = do target ← pull16; put_pc target; finish 5

  -- RTI from the second byte of the frame on.
  unfoldable pub pull_registers : S M ℕ
  pull_registers = do
    b ← pull8
    put_b b
    a ← pull8
    put_a a
    x ← pull16
    put_x x
    y ← pull16
    put_y y
    pc ← pull16
    put_pc pc
    finish 12

  unfoldable pub rti : S M ℕ
  rti = do
    x_was_set ← gets (flag ccr_x)
    ccr ← pull8
    put_ccr ccr
    when (not x_was_set) (clear_ccr ccr_x)
    pull_registers

  unfoldable pub jmp_indexed : S M ℕ
  jmp_indexed = do x ← gets λ c. c.x; offset ← fetch8; put_pc (x + offset); finish 3

  unfoldable pub jmp_extended : S M ℕ
  jmp_extended = do target ← fetch16; put_pc target; finish 3

  unfoldable pub bsr : S M ℕ
  bsr = do offset ← fetch8; pc ← gets λ c. c.pc; push16 pc; jump_by offset; finish 6

  unfoldable pub jsr_extended : S M ℕ
  jsr_extended = do target ← fetch16; pc ← gets λ c. c.pc; push16 pc; put_pc target; finish 6

  unfoldable pub clr_extended : S M ℕ
  clr_extended = do
    address ← fetch16
    write8 address 0
    clear_ccr (ccr_n + ccr_v + ccr_c)
    raise_ccr ccr_z
    finish 5

  -- The addressing modes.
  unfoldable pub indexed_x : S M ℕ
  indexed_x = do x ← gets λ c. c.x; offset ← fetch8; gets λ _. u16 (x + offset)

  unfoldable pub indexed_y : S M ℕ
  indexed_y = do y ← gets λ c. c.y; offset ← fetch8; gets λ _. u16 (y + offset)

  -- STAA and STAB, LDAA and LDAB, CMPA and CMPB, by the addressing mode and the cycles.
  unfoldable pub store_a : S M ℕ → ℕ → S M ℕ
  store_a mode cycles = do
    address ← mode
    a ← gets λ c. c.a
    write8 address a
    set_nzv8 a
    finish cycles

  unfoldable pub store_b : S M ℕ → ℕ → S M ℕ
  store_b mode cycles = do
    address ← mode
    b ← gets λ c. c.b
    write8 address b
    set_nzv8 b
    finish cycles

  unfoldable pub load_a_from : S M ℕ → ℕ → S M ℕ
  load_a_from mode cycles = do address ← mode; value ← read8 address; load_a value cycles

  unfoldable pub load_b_from : S M ℕ → ℕ → S M ℕ
  load_b_from mode cycles = do address ← mode; value ← read8 address; load_b value cycles

  unfoldable pub compare_a : S M ℕ → ℕ → S M ℕ
  compare_a mode cycles = do
    address ← mode
    value ← read8 address
    a ← gets λ c. c.a
    set_sub8 a value (sub8 a value)
    finish cycles

  unfoldable pub compare_b : S M ℕ → ℕ → S M ℕ
  compare_b mode cycles = do
    address ← mode
    value ← read8 address
    b ← gets λ c. c.b
    set_sub8 b value (sub8 b value)
    finish cycles

  unfoldable pub addb_extended : S M ℕ
  addb_extended = do
    address ← fetch16
    left ← gets λ c. c.b
    right ← read8 address
    let result = u8 (left + right)
    put_b result
    set_add8 left right result
    finish 4
