-- ===== src/M68hc11/Frame.antt =====
-- The frame that an interrupt of native/m68hc11_core.c leaves on the stack.
use ensoniq_eps_16_plus.Base.{
  ℕ, ◌*◌, ◌/◌, ◌^◌, ◌<◌, ◌≡◌, refl, arith, ◌==◌, if◌then◌else◌, nonzero, u8, u16, List, [], ◌∷◌,
  bit_or, bit_and, true,
}
use ensoniq_eps_16_plus.Base.Bits.{tested_below, tested_below_lem}
use ensoniq_eps_16_plus.Base.Fields.{bit_or_join}
use ensoniq_eps_16_plus.M68hc11.Core.{Core}

-- The nine bytes of an interrupt frame, the last pushed first.
pub record Frame : Type 0 where
  pub ccr : ℕ
  pub b : ℕ
  pub a : ℕ
  pub x : ℕ
  pub y : ℕ
  pub pc : ℕ

abbrev pub tail_bytes : Frame → List ℕ
tail_bytes f =
    f.b
    ∷ f.a
    ∷ u8 (f.x / 2 ^ 8)
    ∷ u8 f.x
    ∷ u8 (f.y / 2 ^ 8)
    ∷ u8 f.y
    ∷ u8 (f.pc / 2 ^ 8)
    ∷ u8 f.pc
    ∷ []

abbrev pub frame_bytes : Frame → List ℕ
frame_bytes f = f.ccr ∷ tail_bytes f

-- The registers but the stack pointer are those of the frame.
pub record Restored {M : Type 0} (f : Frame) (c : Core M) : Type 0 where
  pub b : c.b ≡ f.b
  pub a : c.a ≡ f.a
  pub x : c.x ≡ f.x
  pub y : c.y ≡ f.y
  pub pc : c.pc ≡ f.pc

pub record IsFrame (f : Frame) : Type 0 where
  pub ccr : f.ccr < 2 ^ 8
  pub b : f.b < 2 ^ 8
  pub a : f.a < 2 ^ 8
  pub x : f.x < 2 ^ 16
  pub y : f.y < 2 ^ 16
  pub pc : f.pc < 2 ^ 16

-- Two pulled bytes make the word that was pushed.
pub join_bytes :
    (hi lo v : ℕ)
    → hi ≡ u8 (v / 2 ^ 8)
    → lo ≡ u8 v
    → v < 2 ^ 16
    → u16 (u16 (bit_or (hi * 2 ^ 8) lo)) ≡ v
join_bytes hi lo v p q h =
    rw (p, q) (rw (bit_or_join 8 (u8 (v / 2 ^ 8)) (u8 v) (omega arith)) (omega arith))

abbrev pub frame_of : {M : Type 0} → Core M → Frame
frame_of c = record { ccr = c.ccr; b = c.b; a = c.a; x = c.x; y = c.y; pc = c.pc }

-- Setting the I mask does not touch the X mask, and clearing a clear X mask changes nothing.
x_mask_table :
    tested_below 256 (λ ccr.
      if nonzero (bit_and (u8 (bit_or ccr 0x10)) 0x40) then true else bit_and ccr 0xbf == ccr)
    ≡ true
unfolding tested_below
x_mask_table = refl

pub x_mask :
    (ccr : ℕ)
    → ccr < 2 ^ 8
    → (if nonzero (bit_and (u8 (bit_or ccr 0x10)) 0x40) then ccr else bit_and ccr 0xbf) ≡ ccr
x_mask ccr h = ground (
  arith,
  tested_below_lem 256
      (λ ccr.
        if nonzero (bit_and (u8 (bit_or ccr 0x10)) 0x40) then true else bit_and ccr 0xbf == ccr)
      ccr x_mask_table h,
)
