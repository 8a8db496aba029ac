-- ===== src/M68hc11/Compare.antt =====
-- The condition codes that a comparison leaves, and what the conditional branches make of them.
use ensoniq_eps_16_plus.Base.{
  ℕ, ◌+◌, ◌-◌, ◌%◌, ◌^◌, ◌<◌, ◌≡◌, refl, arith, ltb, leb, ◌==◌, ◌!=◌, ◌∙◌,
}
use ensoniq_eps_16_plus.Base.{sub8, sub16, Bool, true, false, ◌&&◌, ◌||◌, xor}
use ensoniq_eps_16_plus.Base.Bits.{
  bit, bit-bit_and, bit-bit_or, bit-bit_xor, bit-u8, bit-top8, bit-top16, test_0x01, test_0x02,
  test_0x04, test_0x08, test_0x80, test_0x8000,
}
use ensoniq_eps_16_plus.M68hc11.Core.{Core, ◌>>=◌, ◌>>◌, when, ccr_c, ccr_v, ccr_z, ccr_n}
use ensoniq_eps_16_plus.M68hc11.Flags.{
  clear_ccr, raise_ccr, set_sub8, set_sub16, flag, same, branch_condition,
}

zero_ok : 0 < 8
zero_ok = omega arith

one_ok : 1 < 8
one_ok = omega arith

two_ok : 2 < 8
two_ok = omega arith

three_ok : 3 < 8
three_ok = omega arith

module _ {M : Type 0} where
  -- Each digit of the register after `if (test) ccr |= mask` and after `ccr &= ~mask`.
  pub bit-raise :
      (k : ℕ)
      → k < 8
      → (mask : ℕ) (test : Bool) (c : Core M)
      → bit k (when test (raise_ccr mask) c).1.ccr ≡ (bit k c.ccr || (test && bit k mask))
  unfolding when raise_ccr ◌>>=◌
  bit-raise k h mask true c = bit-u8 k _ h ∙ bit-bit_or k c.ccr mask
  bit-raise k h mask false c = ground arith

  pub bit-clear :
      (k : ℕ)
      → k < 8
      → (mask : ℕ) (c : Core M)
      → bit k (clear_ccr mask c).1.ccr ≡ (bit k c.ccr && bit k (255 - mask))
  unfolding clear_ccr ◌>>=◌
  bit-clear k h mask c = bit-u8 k _ h ∙ bit-bit_and k c.ccr (255 - mask)

  -- The four flags after `set_sub8`.
  sub8_z : (l r v : ℕ) (c : Core M) → flag ccr_z (set_sub8 l r v c).1 ≡ (v == 0)
  unfolding set_sub8 ◌>>◌
  sub8_z l r v c =
      simp (test_0x04, set_sub8, ◌>>◌, bit-raise 2 two_ok, bit-clear 2 two_ok)
        (unfold bit in ground arith)

  sub8_c : (l r v : ℕ) (c : Core M) → flag ccr_c (set_sub8 l r v c).1 ≡ ltb l r
  unfolding set_sub8 ◌>>◌
  sub8_c l r v c =
      simp (test_0x01, set_sub8, ◌>>◌, bit-raise 0 zero_ok, bit-clear 0 zero_ok)
        (unfold bit in ground arith)

  sub8_n : (l r v : ℕ) (c : Core M) → v < 2 ^ 8 → flag ccr_n (set_sub8 l r v c).1 ≡ leb 0x80 v
  unfolding set_sub8 ◌>>◌
  sub8_n l r v c h =
      simp
        (
          test_0x08,
          set_sub8,
          ◌>>◌,
          bit-raise 3 three_ok,
          bit-clear 3 three_ok,
          test_0x80,
          bit-top8 v h,
        )
        (unfold bit in ground arith)

  sub8_v :
      (l r v : ℕ) (c : Core M)
      → l < 2 ^ 8
      → r < 2 ^ 8
      → v < 2 ^ 8
      → flag ccr_v (set_sub8 l r v c).1
        ≡ (xor (leb 0x80 l) (leb 0x80 r) && xor (leb 0x80 l) (leb 0x80 v))
  unfolding set_sub8 ◌>>◌
  sub8_v l r v c hl hr hv =
      simp
        (
          test_0x02,
          set_sub8,
          ◌>>◌,
          bit-raise 1 one_ok,
          bit-clear 1 one_ok,
          test_0x80,
          bit-bit_and,
          bit-bit_xor,
          bit-top8 l hl,
          bit-top8 r hr,
          bit-top8 v hv,
        )
        (unfold bit xor in ground arith)

  -- The four flags after `set_sub16`.
  sub16_z : (l r v : ℕ) (c : Core M) → flag ccr_z (set_sub16 l r v c).1 ≡ (v == 0)
  unfolding set_sub16 ◌>>◌
  sub16_z l r v c =
      simp (test_0x04, set_sub16, ◌>>◌, bit-raise 2 two_ok, bit-clear 2 two_ok)
        (unfold bit in ground arith)

  sub16_c : (l r v : ℕ) (c : Core M) → flag ccr_c (set_sub16 l r v c).1 ≡ ltb l r
  unfolding set_sub16 ◌>>◌
  sub16_c l r v c =
      simp (test_0x01, set_sub16, ◌>>◌, bit-raise 0 zero_ok, bit-clear 0 zero_ok)
        (unfold bit in ground arith)

  sub16_n : (l r v : ℕ) (c : Core M) → v < 2 ^ 16 → flag ccr_n (set_sub16 l r v c).1 ≡ leb 0x8000 v
  unfolding set_sub16 ◌>>◌
  sub16_n l r v c h =
      simp
        (
          test_0x08,
          set_sub16,
          ◌>>◌,
          bit-raise 3 three_ok,
          bit-clear 3 three_ok,
          test_0x8000,
          bit-top16 v h,
        )
        (unfold bit in ground arith)

  sub16_v :
      (l r v : ℕ) (c : Core M)
      → l < 2 ^ 16
      → r < 2 ^ 16
      → v < 2 ^ 16
      → flag ccr_v (set_sub16 l r v c).1
        ≡ (xor (leb 0x8000 l) (leb 0x8000 r) && xor (leb 0x8000 l) (leb 0x8000 v))
  unfolding set_sub16 ◌>>◌
  sub16_v l r v c hl hr hv =
      simp
        (
          test_0x02,
          set_sub16,
          ◌>>◌,
          bit-raise 1 one_ok,
          bit-clear 1 one_ok,
          test_0x8000,
          bit-bit_and,
          bit-bit_xor,
          bit-top16 l hl,
          bit-top16 r hr,
          bit-top16 v hv,
        )
        (unfold bit xor in ground arith)

-- A byte and a word read as signed numbers, moved up by 128 and by 32768, so that their order is
-- the order of the natural numbers.
abbrev pub signed8 : ℕ → ℕ
signed8 v = (v + 0x80) % 2 ^ 8

abbrev pub signed16 : ℕ → ℕ
signed16 v = (v + 0x8000) % 2 ^ 16

-- The answers of the branches that compare, as comparisons of `l` with `r`: unsigned, and signed by the
-- order of `sl` and `sr`.
pub record Answers {M : Type 0} (l r sl sr : ℕ) (c : Core M) : Type 0 where
  pub bra : branch_condition c 0x20 ≡ true
  pub brn : branch_condition c 0x21 ≡ false
  pub bhi : branch_condition c 0x22 ≡ ltb r l
  pub bls : branch_condition c 0x23 ≡ leb l r
  pub bcc : branch_condition c 0x24 ≡ leb r l
  pub bcs : branch_condition c 0x25 ≡ ltb l r
  pub bne : branch_condition c 0x26 ≡ (l != r)
  pub beq : branch_condition c 0x27 ≡ (l == r)
  pub bge : branch_condition c 0x2c ≡ leb sr sl
  pub blt : branch_condition c 0x2d ≡ ltb sl sr
  pub bgt : branch_condition c 0x2e ≡ ltb sr sl
  pub ble : branch_condition c 0x2f ≡ leb sl sr

-- From the four flags to the answers.
module _ {M : Type 0} (c : Core M) (l r sl sr : ℕ) (z : flag ccr_z c ≡ (l == r))
    (lower : flag ccr_c c ≡ ltb l r) (signed : same (flag ccr_n c) (flag ccr_v c) ≡ leb sr sl)
    (one_to_one : (l == r) ≡ (sl == sr)) where
  answers : Answers l r sl sr c
  unfolding branch_condition
  answers = record {
    bra = refl;
    brn = refl;
    bhi = rw (z, lower) (ground arith);
    bls = rw (z, lower) (ground arith);
    bcc = rw lower (ground arith);
    bcs = lower;
    bne = rw z (ground arith);
    beq = z;
    bge = signed;
    blt = rw signed (ground arith);
    bgt = rw (z, signed, one_to_one) (ground arith);
    ble = rw (z, signed, one_to_one) (ground arith);
  }

module _ {M : Type 0} where
  -- For two bytes and any core: after set_sub8 sets the flags of the difference of the two,
  -- BRA, BRN, BHI, BLS, BCC, BCS, BNE, BEQ, BGE, BLT, BGT and BLE answer the comparison of the
  -- two operands that each is named for, unsigned or signed.
  pub branch_condition-set_sub8 :
      (l r : ℕ) (c : Core M)
      → l < 2 ^ 8
      → r < 2 ^ 8
      → Answers l r (signed8 l) (signed8 r) (set_sub8 l r (sub8 l r) c).1
  branch_condition-set_sub8 l r c hl hr =
      answers (set_sub8 l r (sub8 l r) c).1 l r (signed8 l) (signed8 r)
        (sub8_z l r (sub8 l r) c ∙ ground arith) (sub8_c l r (sub8 l r) c)
        (rw (sub8_n l r (sub8 l r) c (omega arith), sub8_v l r (sub8 l r) c hl hr (omega arith))
          (unfold xor in ground arith))
        (ground arith)

  -- For two 16-bit words and any core: after set_sub16 sets the flags of the difference of the
  -- two, BRA, BRN, BHI, BLS, BCC, BCS, BNE, BEQ, BGE, BLT, BGT and BLE answer the comparison of
  -- the two operands that each is named for, unsigned or signed.
  pub branch_condition-set_sub16 :
      (l r : ℕ) (c : Core M)
      → l < 2 ^ 16
      → r < 2 ^ 16
      → Answers l r (signed16 l) (signed16 r) (set_sub16 l r (sub16 l r) c).1
  branch_condition-set_sub16 l r c hl hr =
      answers (set_sub16 l r (sub16 l r) c).1 l r (signed16 l) (signed16 r)
        (sub16_z l r (sub16 l r) c ∙ ground arith) (sub16_c l r (sub16 l r) c)
        (rw (sub16_n l r (sub16 l r) c (omega arith), sub16_v l r (sub16 l r) c hl hr (omega arith))
          (unfold xor in ground arith))
        (ground arith)
