-- ===== src/M68hc11/Inherent.antt =====
-- native/m68hc11_core.c, `m68hc11_step`: the instructions that work on registers and flags alone.
use ensoniq_eps_16_plus.Base.{
  ℕ, ◌+◌, ◌*◌, ◌/◌, ◌%◌, ◌==◌, nonzero, u8, u16, sub8, sub16, bit_and, not,
}
use ensoniq_eps_16_plus.M68hc11.Core.{
  S, ◌>>=◌, ◌>>◌, gets, when, put_a, put_b, put_ccr, put_x, put_y, finish, get_d, set_d, ccr_c,
  ccr_v, ccr_z, ccr_n, ccr_i,
}
use ensoniq_eps_16_plus.M68hc11.Flags.{clear_ccr, raise_ccr, set_nzv8, set_sub8, set_add8}

module _ {M : Type 0} where
  unfoldable pub nop : S M ℕ
  nop = finish 2

  unfoldable pub idiv : S M ℕ
  idiv = do
    dividend ← get_d
    divisor ← gets λ c. c.x
    clear_ccr (ccr_z + ccr_v + ccr_c)
    when (divisor == 0) (put_x 0xffff >> raise_ccr (ccr_v + ccr_c))
    when (not (divisor == 0)) (do
      put_x (u16 (dividend / divisor))
      set_d (u16 (dividend % divisor))
      x ← gets λ c. c.x
      when (x == 0) (raise_ccr ccr_z))
    finish 41

  unfoldable pub tap : S M ℕ
  tap = do a ← gets λ c. c.a; put_ccr a; finish 2

  unfoldable pub tpa : S M ℕ
  tpa = do ccr ← gets λ c. c.ccr; put_a ccr; finish 2

  -- `if (core->x) core->ccr &= ~Z; else core->ccr |= Z;`
  unfoldable pub zero_flag_of_x : S M (Unit {0})
  zero_flag_of_x = do
    x ← gets λ c. c.x
    when (nonzero x) (clear_ccr ccr_z)
    when (not (nonzero x)) (raise_ccr ccr_z)

  unfoldable pub inx : S M ℕ
  inx = do x ← gets λ c. c.x; put_x (x + 1); zero_flag_of_x; finish 3

  unfoldable pub dex : S M ℕ
  dex = do x ← gets λ c. c.x; put_x (sub16 x 1); zero_flag_of_x; finish 3

  unfoldable pub clv : S M ℕ
  clv = do clear_ccr ccr_v; finish 2

  unfoldable pub sev : S M ℕ
  sev = do raise_ccr ccr_v; finish 2

  unfoldable pub clc : S M ℕ
  clc = do clear_ccr ccr_c; finish 2

  unfoldable pub sec : S M ℕ
  sec = do raise_ccr ccr_c; finish 2

  unfoldable pub cli : S M ℕ
  cli = do clear_ccr ccr_i; finish 2

  unfoldable pub sei : S M ℕ
  sei = do raise_ccr ccr_i; finish 2

  unfoldable pub sba : S M ℕ
  sba = do
    left ← gets λ c. c.a
    right ← gets λ c. c.b
    let result = sub8 left right
    put_a result
    set_sub8 left right result
    finish 2

  unfoldable pub tab : S M ℕ
  tab = do a ← gets λ c. c.a; put_b a; b ← gets λ c. c.b; set_nzv8 b; finish 2

  unfoldable pub tba : S M ℕ
  tba = do b ← gets λ c. c.b; put_a b; a ← gets λ c. c.a; set_nzv8 a; finish 2

  unfoldable pub aba : S M ℕ
  aba = do
    left ← gets λ c. c.a
    right ← gets λ c. c.b
    let result = u8 (left + right)
    put_a result
    set_add8 left right result
    finish 2

  unfoldable pub tsx : S M ℕ
  tsx = do sp ← gets λ c. c.sp; put_x (sp + 1); finish 3

  unfoldable pub abx : S M ℕ
  abx = do x ← gets λ c. c.x; b ← gets λ c. c.b; put_x (x + b); finish 3

  unfoldable pub mul : S M ℕ
  mul = do
    a ← gets λ c. c.a
    b ← gets λ c. c.b
    let result = u16 (a * b)
    set_d result
    clear_ccr ccr_c
    when (nonzero (bit_and result 0x0080)) (raise_ccr ccr_c)
    finish 10

  unfoldable pub xgdx : S M ℕ
  xgdx = do d ← get_d; x ← gets λ c. c.x; set_d x; put_x d; finish 3

  -- Page 0x18.
  unfoldable pub dey : S M ℕ
  dey = do
    previous ← gets λ c. c.y
    put_y (sub16 previous 1)
    clear_ccr (ccr_n + ccr_z + ccr_v)
    y ← gets λ c. c.y
    when (y == 0) (raise_ccr ccr_z)
    when (nonzero (bit_and y 0x8000)) (raise_ccr ccr_n)
    when (previous == 0x8000) (raise_ccr ccr_v)
    finish 4

  unfoldable pub xgdy : S M ℕ
  xgdy = do d ← get_d; y ← gets λ c. c.y; set_d y; put_y d; finish 4
