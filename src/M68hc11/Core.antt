-- ===== src/M68hc11/Core.antt =====
-- native/m68hc11_core.c, lines 1 to 133: the state, memory access, the stack, loads.
-- The callbacks `read8` and `write8` are the record `Bus`, and the `memory_context` that they get
-- is the field `mem`. A function that takes `M68hc11Core *core` is an action `S M A`: it maps a
-- core to its result and the core that it leaves.
use ensoniq_eps_16_plus.Base.{ℕ, ◌+◌, ◌*◌, ◌/◌, ◌^◌, u8, u16, u64, sub16}
use ensoniq_eps_16_plus.Base.{bit_or, Bool, true, false}

-- What the core is given: a read may change the context, as a device's status read does.
pub record Bus (M : Type 0) : Type 0 where
  pub read8 : M → ℕ → ℕ × M
  pub write8 : M → ℕ → ℕ → M

pub record Core (M : Type 0) : Type 0 where
  pub a : ℕ
  pub b : ℕ
  pub ccr : ℕ
  pub x : ℕ
  pub y : ℕ
  pub sp : ℕ
  pub pc : ℕ
  pub cycles : ℕ
  pub last_opcode : ℕ
  pub illegal : Bool
  pub mem : M

-- The bits of the condition code register.
abbrev pub ccr_c : ℕ
ccr_c = 0x01

abbrev pub ccr_v : ℕ
ccr_v = 0x02

abbrev pub ccr_z : ℕ
ccr_z = 0x04

abbrev pub ccr_n : ℕ
ccr_n = 0x08

abbrev pub ccr_i : ℕ
ccr_i = 0x10

abbrev pub ccr_h : ℕ
ccr_h = 0x20

abbrev pub ccr_x : ℕ
ccr_x = 0x40

abbrev pub ccr_s : ℕ
ccr_s = 0x80

abbrev pub S : Type 0 → Type 0 → Type 0
S M A = Core M → A × Core M

module _ {M : Type 0} where
  infixl 5 ◌>>=◌ ◌>>◌
  unfoldable pub ◌>>=◌ : {A B : Type 0} → S M A → (A → S M B) → S M B
  ◌>>=◌ m f c = f (m c).0 (m c).1

  unfoldable pub ◌>>◌ : {A B : Type 0} → S M A → S M B → S M B
  ◌>>◌ m k c = k (m c).1

  unfoldable pub gets : {A : Type 0} → (Core M → A) → S M A
  gets f c = (f c, c)

  -- `if (test) action;`
  unfoldable pub when : Bool → S M (Unit {0}) → S M (Unit {0})
  when true m c = m c
  when false m c = (tt, c)

  -- Assignments. Each converts the value to the width of the register.
  unfoldable pub put_a : ℕ → S M (Unit {0})
  put_a v c = (tt, record c { a = u8 v })

  unfoldable pub put_b : ℕ → S M (Unit {0})
  put_b v c = (tt, record c { b = u8 v })

  unfoldable pub put_ccr : ℕ → S M (Unit {0})
  put_ccr v c = (tt, record c { ccr = u8 v })

  unfoldable pub put_x : ℕ → S M (Unit {0})
  put_x v c = (tt, record c { x = u16 v })

  unfoldable pub put_y : ℕ → S M (Unit {0})
  put_y v c = (tt, record c { y = u16 v })

  unfoldable pub put_sp : ℕ → S M (Unit {0})
  put_sp v c = (tt, record c { sp = u16 v })

  unfoldable pub put_pc : ℕ → S M (Unit {0})
  put_pc v c = (tt, record c { pc = u16 v })

  unfoldable pub put_last_opcode : ℕ → S M (Unit {0})
  put_last_opcode v c = (tt, record c { last_opcode = u8 v })

  -- `core->illegal = 1; return 0;`
  unfoldable pub stop_illegal : S M ℕ
  stop_illegal c = (0, record c { illegal = true })

  unfoldable pub finish : ℕ → S M ℕ
  finish n c = (n, record c { cycles = u64 (c.cycles + n) })

  unfoldable pub get_d : S M ℕ
  get_d c = (u16 (bit_or (c.a * 2 ^ 8) c.b), c)

  unfoldable pub set_d : ℕ → S M (Unit {0})
  unfolding put_a put_b
  set_d value = do put_a (value / 2 ^ 8); put_b value

module _ {M : Type 0} ⦃bus : Bus M⦄ where
  unfoldable pub read8 : ℕ → S M ℕ
  read8 address c = let (value, mem') = bus.read8 c.mem address in (value, record c { mem = mem' })

  unfoldable pub write8 : ℕ → ℕ → S M (Unit {0})
  write8 address value c = (tt, record c { mem = bus.write8 c.mem address value })

  unfoldable pub read16 : ℕ → S M ℕ
  unfolding read8 gets
  read16 address = do
    high ← read8 address
    low ← read8 (u16 (address + 1))
    gets λ _. u16 (bit_or (high * 2 ^ 8) low)

  unfoldable pub fetch8 : S M ℕ
  unfolding gets put_pc read8
  fetch8 = do pc ← gets λ c. c.pc; put_pc (pc + 1); read8 pc

  unfoldable pub fetch16 : S M ℕ
  unfolding gets put_pc read16
  fetch16 = do
    pc ← gets λ c. c.pc
    value ← read16 pc
    pc' ← gets λ c. c.pc
    put_pc (pc' + 2)
    gets λ _. value

  unfoldable pub push8 : ℕ → S M (Unit {0})
  unfolding gets put_sp write8
  push8 value = do sp ← gets λ c. c.sp; write8 sp value; put_sp (sub16 sp 1)

  unfoldable pub pull8 : S M ℕ
  unfolding gets put_sp read8
  pull8 = do sp ← gets λ c. c.sp; put_sp (sp + 1); sp' ← gets λ c. c.sp; read8 sp'

  unfoldable pub push16 : ℕ → S M (Unit {0})
  unfolding push8
  push16 value = do push8 (u8 value); push8 (u8 (value / 2 ^ 8))

  unfoldable pub pull16 : S M ℕ
  unfolding pull8 gets
  pull16 = do high ← pull8; low ← pull8; gets λ _. u16 (bit_or (high * 2 ^ 8) low)
