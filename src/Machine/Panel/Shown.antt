-- ===== src/Machine/Panel/Shown.antt =====
-- native/rom_probe.c, lines 1778 to 1989: what a byte shows keeps the bounds of the display.
use ensoniq_eps_16_plus.Base.{
  ℕ, ◌-◌, ◌≤◌, ◌<◌, ◌≡◌, refl, arith, ◌==◌, leb, if◌then◌else◌, Bool, true, false, Option, none,
  some, update, ◌&&◌,
}
use ensoniq_eps_16_plus.Machine.Panel.State.{
  Panel, panel_dotted_digit, with_cell, without_cell, meter_cell,
}
use ensoniq_eps_16_plus.Machine.Panel.Write.{
  home_cursor, clear_display, set_indicator, open_field, put_cell, put_in_field, is_at,
  unmark_threshold, mark_threshold,
}
use ensoniq_eps_16_plus.Machine.Panel.Text.{
  IsText, IsText-blank, IsText-put, IsText-put_digit, dotted_digit_bounds,
}
use ensoniq_eps_16_plus.Base.Cells.{pow-lt, with_cell-lt, without_cell-lt}
use ensoniq_eps_16_plus.Machine.Panel.Invariant.{IsPanel, Within, segment_of-lt}

pub shows : (p : Panel) → IsPanel 21 p → IsPanel 22 p
shows p h = ground arith

pub choice :
    (b : Bool) (p q : Panel) → IsPanel 22 p → IsPanel 22 q → IsPanel 22 (if b then p else q)
choice true p q f g = f
choice false p q f g = g

home_cursor-IsPanel : (p : Panel) → IsPanel 21 p → IsPanel 22 (home_cursor p)
unfolding home_cursor
home_cursor-IsPanel p h = ground arith

pub home-IsPanel :
    (p : Panel)
    → IsPanel 21 p
    → IsPanel 22 (record (home_cursor p) { indicator_command_pending = 0 })
unfolding home_cursor
home-IsPanel p h = ground arith

pub clear_display-IsPanel : (now : ℕ) (p : Panel) → IsPanel 21 p → IsPanel 22 (clear_display now p)
unfolding clear_display
clear_display-IsPanel now p h = ground (arith, IsText-blank)

pub set_indicator-IsPanel :
    (value : ℕ) (p : Panel) → IsPanel 21 p → IsPanel 22 (set_indicator value p)
unfolding set_indicator
set_indicator-IsPanel value p h = ground arith

pub open_field-IsPanel : (p : Panel) → IsPanel 21 p → IsPanel 22 (open_field p)
unfolding open_field
open_field-IsPanel p h = ground (arith, segment_of-lt p.edit_cursor, pow-lt 22 p.cursor)

mark_segment-IsPanel :
    (p : Panel)
    → IsPanel 21 p
    → IsPanel 21 (record p {
      segment_mask =
          if p.full_segments
          then with_cell p.cursor p.segment_mask
          else without_cell p.cursor p.segment_mask;
    })
mark_segment-IsPanel p h =
    ground (arith, with_cell-lt p.cursor p.segment_mask, without_cell-lt p.cursor p.segment_mask)

pub put_cell-IsPanel :
    (now glyph : ℕ) (p : Panel)
    → 0x20 ≤ glyph
    → glyph ≤ 0x7c
    → IsPanel 21 p
    → IsPanel 22 (put_cell now glyph false p)
unfolding put_cell
put_cell-IsPanel now glyph p low high h =
    ground (arith, IsText-put p.cursor glyph p.display p.decimal_mask)

put_digit-IsPanel :
    (now glyph : ℕ) (p : Panel)
    → 0x30 ≤ glyph
    → glyph ≤ 0x39
    → IsPanel 21 p
    → IsPanel 22 (put_cell now glyph true p)
unfolding put_cell
put_digit-IsPanel now glyph p low high h =
    ground (arith, IsText-put_digit p.cursor glyph p.display p.decimal_mask)

pub put_in_field-IsPanel :
    (now value : ℕ) (p : Panel) → IsPanel 21 p → IsPanel 22 (put_in_field now value p)
unfolding put_in_field
put_in_field-IsPanel now value p h = go (panel_dotted_digit value) refl
  where
    marked : Panel
    marked = record p {
      segment_mask =
          if p.full_segments
          then with_cell p.cursor p.segment_mask
          else without_cell p.cursor p.segment_mask;
    }

    plain :
        (b : Bool)
        → (leb 0x20 value && leb value 0x5f) ≡ b
        → IsPanel 22 (if b then put_cell now value false marked else p)
    plain true e =
        put_cell-IsPanel now value marked (ground arith) (ground arith) (mark_segment-IsPanel p h)
    plain false e = shows p h

    go :
        (o : Option ℕ)
        → panel_dotted_digit value ≡ o
        → IsPanel 22 (elim o [
          | some digit ↦ put_cell now digit true marked
          | none ↦ if leb 0x20 value && leb value 0x5f then put_cell now value false marked else p
        ])
    go none e = plain (leb 0x20 value && leb value 0x5f) refl
    go (some digit) e =
        let bounds = dotted_digit_bounds value digit e in
        put_digit-IsPanel now digit marked bounds.0 bounds.1 (mark_segment-IsPanel p h)

-- A cell of the meter or the marker at a position.
IsText-mark :
    (position level : ℕ) (p : Panel)
    → position < 22
    → IsText p.display p.decimal_mask
    → IsText
        (update p.display position (meter_cell level position))
        (without_cell position p.decimal_mask)
      × IsText (update p.display position 0x2a) (without_cell position p.decimal_mask)
IsText-mark position level p h t = (
  IsText-put position (meter_cell level position) p.display p.decimal_mask h (ground arith)
      (ground arith) t,
  IsText-put position 0x2a p.display p.decimal_mask h (omega arith) (omega arith) t,
)

unmark_threshold-IsPanel :
    (position : ℕ) (old : Option ℕ) (p : Panel)
    → IsPanel 21 p
    → IsPanel 21 (unmark_threshold position old p)
unfolding unmark_threshold
unmark_threshold-IsPanel position none p h = h
unmark_threshold-IsPanel position (some old) p h = ground (arith, IsText-mark old p.level_value p)

moved_marker :
    (o : Option ℕ) (position : ℕ) → Within 21 o → Within 21 (if is_at o position then none else o)
moved_marker none position w = tt
moved_marker (some c) position w = ground arith

-- A marker is set, or taken away.
set_marker-IsPanel :
    (now position : ℕ) (p : Panel)
    → position < 22
    → IsPanel 21 p
    → IsPanel 22 (record p {
      display = update p.display position 0x2a;
      decimal_mask = without_cell position p.decimal_mask;
      threshold_position = some position;
      display_dirty = true;
      last_change_cycle = now;
    })
set_marker-IsPanel now position p below h = ground (arith, IsText-mark position 0 p)

erase_marker-IsPanel :
    (now position : ℕ) (p : Panel)
    → position < 22
    → IsPanel 21 p
    → IsPanel 22 (record p {
      display = update p.display position (meter_cell p.level_value position);
      decimal_mask = without_cell position p.decimal_mask;
      threshold_position =
          if is_at p.threshold_position position then none else p.threshold_position;
      display_dirty = true;
      last_change_cycle = now;
    })
erase_marker-IsPanel now position p below h = record {
  text = (IsText-mark position p.level_value p below h.text).0;
  cursor = omega (arith, h.cursor);
  address = h.address;
  start = h.start;
  end = h.end;
  edit = h.edit;
  threshold = moved_marker p.threshold_position position h.threshold;
  segments = h.segments;
  state = h.state;
  setup = h.setup;
  level = h.level;
  lamp = h.lamp;
}

pub mark_threshold-IsPanel :
    (now value : ℕ) (p : Panel)
    → 1 ≤ p.last_tx
    → p.last_tx ≤ 22
    → IsPanel 21 p
    → IsPanel 22 (mark_threshold now value p)
unfolding mark_threshold
mark_threshold-IsPanel now value p low high h = go (value == 0x5e)
  where
    position : ℕ
    position = p.last_tx - 1

    unmarked : Panel
    unmarked = unmark_threshold position p.threshold_position p

    go :
        (b : Bool)
        → IsPanel 22
            (record (if b
              then record p {
                display = update p.display position (meter_cell p.level_value position);
                decimal_mask = without_cell position p.decimal_mask;
                threshold_position =
                    if is_at p.threshold_position position then none else p.threshold_position;
              }
              else record unmarked {
                display = update unmarked.display position 0x2a;
                decimal_mask = without_cell position unmarked.decimal_mask;
                threshold_position = some position;
              }) { display_dirty = true; last_change_cycle = now })
    go true = erase_marker-IsPanel now position p (omega arith) h
    go false =
        set_marker-IsPanel now position unmarked (omega arith)
          (unmark_threshold-IsPanel position p.threshold_position p h)
