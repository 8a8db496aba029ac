-- ===== src/M68hc11/Flags.antt =====
-- native/m68hc11_core.c, lines 25 to 158: the condition codes, and the tests of the branches.
use ensoniq_eps_16_plus.Base.{ℕ, ◌+◌, ◌-◌, ◌==◌, nonzero, ltb}
use ensoniq_eps_16_plus.Base.{bit_and, bit_or, bit_xor, Bool, true, false, not, ◌&&◌, ◌||◌}
use ensoniq_eps_16_plus.Base.{[], ◌∷◌}
use ensoniq_eps_16_plus.Base.Switch.{switch}
use ensoniq_eps_16_plus.M68hc11.Core.{
  Core, S, ◌>>=◌, ◌>>◌, gets, when, put_a, put_b, put_ccr, finish, ccr_c, ccr_v, ccr_z, ccr_n,
  ccr_h,
}

-- Equality of two truth values, `n == v`.
abbrev pub same : Bool → Bool → Bool
same true q = q
same false q = not q

module _ {M : Type 0} where
  -- `core->ccr &= (uint8_t)~mask` and `core->ccr |= mask`
  unfoldable pub clear_ccr : ℕ → S M (Unit {0})
  unfolding gets put_ccr
  clear_ccr mask = do ccr ← gets λ c. c.ccr; put_ccr (bit_and ccr (255 - mask))

  unfoldable pub raise_ccr : ℕ → S M (Unit {0})
  unfolding gets put_ccr
  raise_ccr mask = do ccr ← gets λ c. c.ccr; put_ccr (bit_or ccr mask)

  unfoldable pub set_nzv8 : ℕ → S M (Unit {0})
  unfolding clear_ccr raise_ccr when
  set_nzv8 value = do
    clear_ccr (ccr_n + ccr_z + ccr_v)
    when (value == 0) (raise_ccr ccr_z)
    when (nonzero (bit_and value 0x80)) (raise_ccr ccr_n)

  unfoldable pub set_nzv16 : ℕ → S M (Unit {0})
  unfolding clear_ccr raise_ccr when
  set_nzv16 value = do
    clear_ccr (ccr_n + ccr_z + ccr_v)
    when (value == 0) (raise_ccr ccr_z)
    when (nonzero (bit_and value 0x8000)) (raise_ccr ccr_n)

  unfoldable pub set_sub8 : ℕ → ℕ → ℕ → S M (Unit {0})
  unfolding clear_ccr raise_ccr when
  set_sub8 left right result = do
    clear_ccr (ccr_n + ccr_z + ccr_v + ccr_c)
    when (result == 0) (raise_ccr ccr_z)
    when (nonzero (bit_and result 0x80)) (raise_ccr ccr_n)
    when (nonzero (bit_and (bit_and (bit_xor left right) (bit_xor left result)) 0x80))
        (raise_ccr ccr_v)
    when (ltb left right) (raise_ccr ccr_c)

  unfoldable pub set_sub16 : ℕ → ℕ → ℕ → S M (Unit {0})
  unfolding clear_ccr raise_ccr when
  set_sub16 left right result = do
    clear_ccr (ccr_n + ccr_z + ccr_v + ccr_c)
    when (result == 0) (raise_ccr ccr_z)
    when (nonzero (bit_and result 0x8000)) (raise_ccr ccr_n)
    when (nonzero (bit_and (bit_and (bit_xor left right) (bit_xor left result)) 0x8000))
        (raise_ccr ccr_v)
    when (ltb left right) (raise_ccr ccr_c)

  -- `~(left ^ right)` is taken on the width of the operands; the masks below keep one bit of it.
  unfoldable pub set_add16 : ℕ → ℕ → ℕ → S M (Unit {0})
  unfolding clear_ccr raise_ccr when
  set_add16 left right result = do
    let wide = left + right
    clear_ccr (ccr_n + ccr_z + ccr_v + ccr_c)
    when (result == 0) (raise_ccr ccr_z)
    when (nonzero (bit_and result 0x8000)) (raise_ccr ccr_n)
    when (nonzero (bit_and (bit_and (0xffff - bit_xor left right) (bit_xor left result)) 0x8000))
        (raise_ccr ccr_v)
    when (ltb 0xffff wide) (raise_ccr ccr_c)

  unfoldable pub set_add8 : ℕ → ℕ → ℕ → S M (Unit {0})
  unfolding clear_ccr raise_ccr when
  set_add8 left right result = do
    let wide = left + right
    clear_ccr (ccr_h + ccr_n + ccr_z + ccr_v + ccr_c)
    when (ltb 0x0f (bit_and left 0x0f + bit_and right 0x0f)) (raise_ccr ccr_h)
    when (result == 0) (raise_ccr ccr_z)
    when (nonzero (bit_and result 0x80)) (raise_ccr ccr_n)
    when (nonzero (bit_and (bit_and (0xff - bit_xor left right) (bit_xor left result)) 0x80))
        (raise_ccr ccr_v)
    when (ltb 0xff wide) (raise_ccr ccr_c)

  unfoldable pub load_a : ℕ → ℕ → S M ℕ
  load_a value cycles = do put_a value; set_nzv8 value; finish cycles

  unfoldable pub load_b : ℕ → ℕ → S M ℕ
  load_b value cycles = do put_b value; set_nzv8 value; finish cycles

  -- A flag of the condition code register, as `(core->ccr & mask) != 0`.
  abbrev pub flag : ℕ → Core M → Bool
  flag mask core = nonzero (bit_and core.ccr mask)

  unfoldable pub branch_condition : Core M → ℕ → Bool
  unfolding switch
  branch_condition core opcode =
      let c = flag ccr_c core in
      let v = flag ccr_v core in
      let z = flag ccr_z core in
      let n = flag ccr_n core in
      switch (bit_and opcode 0x0f)
        ((0x0, true)
          ∷ (0x1, false)
          ∷ (0x2, not c && not z)
          ∷ (0x3, c || z)
          ∷ (0x4, not c)
          ∷ (0x5, c)
          ∷ (0x6, not z)
          ∷ (0x7, z)
          ∷ (0x8, not v)
          ∷ (0x9, v)
          ∷ (0xa, not n)
          ∷ (0xb, n)
          ∷ (0xc, same n v)
          ∷ (0xd, not (same n v))
          ∷ (0xe, not z && same n v)
          ∷ [])
        (z || not (same n v))
