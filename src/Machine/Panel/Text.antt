-- ===== src/Machine/Panel/Text.antt =====
-- native/rom_probe.c, lines 1580 to 2013: the cells of the display and their points.
use ensoniq_eps_16_plus.Base.{
  ℕ, zero, suc, ◌^◌, ◌≤◌, ◌<◌, ◌≡◌, refl, arith, ltb, if◌then◌else◌, Bool, false, Option, none,
  some, update,
}
use ensoniq_eps_16_plus.Base.Bits.{bit}
use ensoniq_eps_16_plus.Base.Cells.{with_cell-lt, without_cell-lt, bit-with_cell, bit-without_cell}
use ensoniq_eps_16_plus.Machine.Panel.State.{
  panel_dotted_digit, with_cell, without_cell, meter_cell, marked,
}

-- A cell shows a character from 0x20 to 0x7c, and a digit if its point is lit.
abbrev IsCell : ℕ → Bool → Type 0
IsCell glyph point =
    (0x20 ≤ glyph) × (glyph ≤ 0x7c) × (if point then (0x30 ≤ glyph) × (glyph ≤ 0x39) else Unit)

-- The 22 cells, the end of the text, and the points.
pub record IsText (display : ℕ → ℕ) (points : ℕ) : Type 0 where
  pub cells : (cell : ℕ) → cell < 22 → IsCell (display cell) (bit cell points)
  pub terminated : display 22 ≡ 0
  pub narrow : points < 2 ^ 22

-- A character without a point, and one with a point that is a digit.
pub IsText-put :
    (c glyph : ℕ) (display : ℕ → ℕ) (points : ℕ)
    → c < 22
    → 0x20 ≤ glyph
    → glyph ≤ 0x7c
    → IsText display points
    → IsText (update display c glyph) (without_cell c points)
IsText-put c glyph display points hc low high t = record {
  cells = λ i hi. rw (bit-without_cell i c points hi hc) (ground (arith, t.cells i hi));
  terminated = ground (arith, t.terminated);
  narrow = without_cell-lt c points t.narrow;
}

pub IsText-put_digit :
    (c glyph : ℕ) (display : ℕ → ℕ) (points : ℕ)
    → c < 22
    → 0x30 ≤ glyph
    → glyph ≤ 0x39
    → IsText display points
    → IsText (update display c glyph) (with_cell c points)
IsText-put_digit c glyph display points hc low high t = record {
  cells = λ i hi. rw (bit-with_cell i c points hi hc) (ground (arith, t.cells i hi));
  terminated = ground (arith, t.terminated);
  narrow = with_cell-lt c points hc t.narrow;
}

bit_zero : (k : ℕ) → bit k 0 ≡ false
unfolding bit
bit_zero zero = refl
bit_zero (suc k) = bit_zero k

-- A display without points.
IsText-plain :
    (display : ℕ → ℕ)
    → ((cell : ℕ) → cell < 22 → (0x20 ≤ display cell) × (display cell ≤ 0x7c))
    → display 22 ≡ 0
    → IsText display 0
IsText-plain display plain ended = record {
  cells = λ i hi. rw (bit_zero i) ((plain i hi).0, (plain i hi).1, tt);
  terminated = ended;
  narrow = omega arith;
}

pub IsText-blank : IsText (λ cell. if ltb cell 22 then 0x20 else 0) 0
IsText-blank = IsText-plain _ (λ i hi. ground arith) refl

pub IsText-meter :
    (threshold : Option ℕ) (level : ℕ) (display : ℕ → ℕ)
    → IsText
        (update
          (marked threshold (λ cell. if ltb cell 22 then meter_cell level cell else display cell))
          22
          0)
        0
IsText-meter none level display = IsText-plain _ (λ i hi. ground arith) refl
IsText-meter (some t) level display = IsText-plain _ (λ i hi. ground arith) refl

-- The digits that have a point.
pub dotted_digit_bounds :
    (code digit : ℕ) → panel_dotted_digit code ≡ some digit → (0x30 ≤ digit) × (digit ≤ 0x39)
unfolding panel_dotted_digit
dotted_digit_bounds code digit e = ground arith
