-- ===== src/M68hc11/Accumulator.antt =====
-- native/m68hc11_core.c, `m68hc11_step`: the instructions on one accumulator.
use ensoniq_eps_16_plus.Base.{
  ℕ, ◌+◌, ◌-◌, ◌*◌, ◌==◌, nonzero, as_int, u8, u16, sub8, bit_and, bit_or, bit_xor, not,
}
use ensoniq_eps_16_plus.M68hc11.Core.{
  Bus, S, ◌>>=◌, ◌>>◌, gets, when, put_a, put_b, finish, fetch8, ccr_c, ccr_v, ccr_z, ccr_n, ccr_h,
}
use ensoniq_eps_16_plus.M68hc11.Flags.{
  clear_ccr, raise_ccr, set_nzv8, set_sub8, set_add8, flag, same,
}

module _ {M : Type 0} where
  unfoldable pub coma : S M ℕ
  coma = do
    a ← gets λ c. c.a
    put_a (255 - a)
    a' ← gets λ c. c.a
    set_nzv8 a'
    raise_ccr ccr_c
    finish 2

  unfoldable pub comb : S M ℕ
  comb = do
    b ← gets λ c. c.b
    put_b (255 - b)
    b' ← gets λ c. c.b
    set_nzv8 b'
    raise_ccr ccr_c
    finish 2

  unfoldable pub asla : S M ℕ
  asla = do
    previous ← gets λ c. c.a
    put_a (previous * 2)
    clear_ccr (ccr_n + ccr_z + ccr_v + ccr_c)
    a ← gets λ c. c.a
    when (a == 0) (raise_ccr ccr_z)
    when (nonzero (bit_and a 0x80)) (raise_ccr ccr_n)
    when (nonzero (bit_and previous 0x80)) (raise_ccr ccr_c)
    n ← gets (flag ccr_n)
    c ← gets (flag ccr_c)
    when (not (same n c)) (raise_ccr ccr_v)
    finish 2

  unfoldable pub aslb : S M ℕ
  aslb = do
    previous ← gets λ c. c.b
    put_b (previous * 2)
    clear_ccr (ccr_n + ccr_z + ccr_v + ccr_c)
    b ← gets λ c. c.b
    when (b == 0) (raise_ccr ccr_z)
    when (nonzero (bit_and b 0x80)) (raise_ccr ccr_n)
    when (nonzero (bit_and previous 0x80)) (raise_ccr ccr_c)
    n ← gets (flag ccr_n)
    c ← gets (flag ccr_c)
    when (not (same n c)) (raise_ccr ccr_v)
    finish 2

  unfoldable pub inca : S M ℕ
  inca = do
    previous ← gets λ c. c.a
    put_a (previous + 1)
    clear_ccr (ccr_n + ccr_z + ccr_v)
    a ← gets λ c. c.a
    when (a == 0) (raise_ccr ccr_z)
    when (nonzero (bit_and a 0x80)) (raise_ccr ccr_n)
    when (previous == 0x7f) (raise_ccr ccr_v)
    finish 2

  unfoldable pub incb : S M ℕ
  incb = do
    previous ← gets λ c. c.b
    put_b (previous + 1)
    clear_ccr (ccr_n + ccr_z + ccr_v)
    b ← gets λ c. c.b
    when (b == 0) (raise_ccr ccr_z)
    when (nonzero (bit_and b 0x80)) (raise_ccr ccr_n)
    when (previous == 0x7f) (raise_ccr ccr_v)
    finish 2

  unfoldable pub decb : S M ℕ
  decb = do
    previous ← gets λ c. c.b
    put_b (sub8 previous 1)
    clear_ccr (ccr_n + ccr_z + ccr_v)
    b ← gets λ c. c.b
    when (b == 0) (raise_ccr ccr_z)
    when (nonzero (bit_and b 0x80)) (raise_ccr ccr_n)
    when (previous == 0x80) (raise_ccr ccr_v)
    finish 2

  unfoldable pub tsta : S M ℕ
  tsta = do a ← gets λ c. c.a; set_nzv8 a; clear_ccr ccr_c; finish 2

  unfoldable pub tstb : S M ℕ
  tstb = do b ← gets λ c. c.b; set_nzv8 b; clear_ccr ccr_c; finish 2

  unfoldable pub clra : S M ℕ
  clra = do put_a 0; clear_ccr (ccr_n + ccr_v + ccr_c); raise_ccr ccr_z; finish 2

  unfoldable pub clrb : S M ℕ
  clrb = do put_b 0; clear_ccr (ccr_n + ccr_v + ccr_c); raise_ccr ccr_z; finish 2

module _ {M : Type 0} ⦃bus : Bus M⦄ where
  unfoldable pub cmpa_immediate : S M ℕ
  cmpa_immediate = do value ← fetch8; a ← gets λ c. c.a; set_sub8 a value (sub8 a value); finish 2

  unfoldable pub cmpb_immediate : S M ℕ
  cmpb_immediate = do value ← fetch8; b ← gets λ c. c.b; set_sub8 b value (sub8 b value); finish 2

  unfoldable pub anda_immediate : S M ℕ
  anda_immediate = do
    a ← gets λ c. c.a
    value ← fetch8
    put_a (bit_and a value)
    a' ← gets λ c. c.a
    set_nzv8 a'
    finish 2

  unfoldable pub oraa_immediate : S M ℕ
  oraa_immediate = do
    a ← gets λ c. c.a
    value ← fetch8
    put_a (bit_or a value)
    a' ← gets λ c. c.a
    set_nzv8 a'
    finish 2

  unfoldable pub andb_immediate : S M ℕ
  andb_immediate = do
    b ← gets λ c. c.b
    value ← fetch8
    put_b (bit_and b value)
    b' ← gets λ c. c.b
    set_nzv8 b'
    finish 2

  unfoldable pub eorb_immediate : S M ℕ
  eorb_immediate = do
    b ← gets λ c. c.b
    value ← fetch8
    put_b (bit_xor b value)
    b' ← gets λ c. c.b
    set_nzv8 b'
    finish 2

  unfoldable pub adda_immediate : S M ℕ
  adda_immediate = do
    left ← gets λ c. c.a
    right ← fetch8
    let result = u8 (left + right)
    put_a result
    set_add8 left right result
    finish 2

  unfoldable pub adca_immediate : S M ℕ
  adca_immediate = do
    left ← gets λ c. c.a
    right ← fetch8
    carry_flag ← gets (flag ccr_c)
    let carry = as_int carry_flag
    let sum = u16 (left + right + carry)
    let result = u8 sum
    put_a result
    clear_ccr (ccr_h + ccr_n + ccr_z + ccr_v + ccr_c)
    when (nonzero (bit_and (bit_and left 0x0f + bit_and right 0x0f + carry) 0x10)) (raise_ccr ccr_h)
    when (result == 0) (raise_ccr ccr_z)
    when (nonzero (bit_and result 0x80)) (raise_ccr ccr_n)
    when (nonzero (bit_and (bit_and (0xff - bit_xor left right) (bit_xor left result)) 0x80))
        (raise_ccr ccr_v)
    when (nonzero (bit_and sum 0x100)) (raise_ccr ccr_c)
    finish 2
