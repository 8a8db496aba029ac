-- ===== src/M68hc11/Wide.antt =====
-- native/m68hc11_core.c, `m68hc11_step`: the instructions on sixteen-bit registers.
use ensoniq_eps_16_plus.Base.{ℕ, ◌+◌, ◌/◌, ◌^◌, u8, u16, sub16}
use ensoniq_eps_16_plus.M68hc11.Core.{
  Bus, S, ◌>>=◌, ◌>>◌, gets, put_x, put_y, put_sp, finish, get_d, set_d, write8, read16, fetch8,
  fetch16,
}
use ensoniq_eps_16_plus.M68hc11.Flags.{set_nzv16, set_sub16, set_add16}

module _ {M : Type 0} ⦃bus : Bus M⦄ where
  unfoldable pub cpd_immediate : S M ℕ
  cpd_immediate = do value ← fetch16; d ← get_d; set_sub16 d value (sub16 d value); finish 5

  unfoldable pub cpy_immediate : S M ℕ
  cpy_immediate = do value ← fetch16; y ← gets λ c. c.y; set_sub16 y value (sub16 y value); finish 5

  unfoldable pub cpx_immediate : S M ℕ
  cpx_immediate = do value ← fetch16; x ← gets λ c. c.x; set_sub16 x value (sub16 x value); finish 4

  unfoldable pub ldy_immediate : S M ℕ
  ldy_immediate = do value ← fetch16; put_y value; y ← gets λ c. c.y; set_nzv16 y; finish 4

  unfoldable pub lds_immediate : S M ℕ
  lds_immediate = do value ← fetch16; put_sp value; sp ← gets λ c. c.sp; set_nzv16 sp; finish 3

  unfoldable pub ldx_immediate : S M ℕ
  ldx_immediate = do value ← fetch16; put_x value; x ← gets λ c. c.x; set_nzv16 x; finish 3

  unfoldable pub ldd_immediate : S M ℕ
  ldd_immediate = do value ← fetch16; set_d value; set_nzv16 value; finish 3

  unfoldable pub ldd_extended : S M ℕ
  ldd_extended = do
    address ← fetch16
    value ← read16 address
    set_d value
    set_nzv16 value
    finish 5

  -- LDX direct and LDX indexed by X.
  unfoldable pub ldx_from : S M ℕ → ℕ → S M ℕ
  ldx_from mode cycles = do
    address ← mode
    value ← read16 address
    put_x value
    x ← gets λ c. c.x
    set_nzv16 x
    finish cycles

  unfoldable pub stx_direct : S M ℕ
  stx_direct = do
    address ← fetch8
    x ← gets λ c. c.x
    write8 address (u8 (x / 2 ^ 8))
    write8 (u16 (address + 1)) (u8 x)
    set_nzv16 x
    finish 4

  -- STD indexed by X and STD extended.
  unfoldable pub std_to : S M ℕ → ℕ → S M ℕ
  std_to mode cycles = do
    address ← mode
    a ← gets λ c. c.a
    write8 address a
    b ← gets λ c. c.b
    write8 (u16 (address + 1)) b
    d ← get_d
    set_nzv16 d
    finish cycles

  unfoldable pub addd_immediate : S M ℕ
  addd_immediate = do
    left ← get_d
    right ← fetch16
    let result = u16 (left + right)
    set_d result
    set_add16 left right result
    finish 4

  unfoldable pub addd_extended : S M ℕ
  addd_extended = do
    address ← fetch16
    left ← get_d
    right ← read16 address
    let result = u16 (left + right)
    set_d result
    set_add16 left right result
    finish 6
