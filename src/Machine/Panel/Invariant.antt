-- ===== src/Machine/Panel/Invariant.antt =====
-- native/rom_probe.c, lines 1580 to 2032: the bounds that the display of the panel keeps, and the
-- stages of a byte before it is shown.
use ensoniq_eps_16_plus.Base.{
  ℕ, ◌^◌, ◌≤◌, ◌<◌, ◌≡◌, ◌⊎◌, arith, ltb, if◌then◌else◌, Bool, true, false, Option, none, some,
}
use ensoniq_eps_16_plus.Machine.Panel.State.{Panel, panel_render_level_meter}
use ensoniq_eps_16_plus.Machine.Panel.Cursor.{
  Motion, cursor_command, resolve_address, place_cursor, resume_field, moved_left, moved_right,
  segment_of,
}
use ensoniq_eps_16_plus.Machine.Panel.Level.{
  resolve_level, level_setup, hold_level, is_threshold_pair,
}
use ensoniq_eps_16_plus.Machine.Panel.Write.{publish_complete}
use ensoniq_eps_16_plus.Machine.Panel.Text.{IsText, IsText-meter}
use ensoniq_eps_16_plus.Base.Cells.{pow-lt}

-- A position, if there is one, is at most a bound.
abbrev pub Within : ℕ → Option ℕ → Type 0
Within bound none = Unit
Within bound (some cell) = cell ≤ bound

-- The cursor is at most `most`: 21 between two bytes, and 22 after a character in the last cell.
pub record IsPanel (most : ℕ) (p : Panel) : Type 0 where
  pub text : IsText p.display p.decimal_mask
  pub cursor : p.cursor ≤ most
  pub address : p.cell_address < 22
  pub start : Within 21 p.cursor_start
  pub end : Within 22 p.cursor_end
  pub edit : Within 21 p.edit_cursor
  pub threshold : Within 21 p.threshold_position
  pub segments : p.segment_mask < 2 ^ 22
  pub state : p.command_state ≤ 6
  pub setup : p.level_setup_state ≤ 3
  pub level : p.level_value ≤ 14
  pub lamp :
      (p.indicator_command_pending ≡ 0)
      ⊎ ((0x74 ≤ p.indicator_command_pending) × (p.indicator_command_pending ≤ 0x7c))

pub segment_of-lt : (edit : Option ℕ) → Within 21 edit → segment_of edit < 2 ^ 22
segment_of-lt none h = omega arith
segment_of-lt (some c) h = pow-lt 22 c (omega arith)

-- The branches of a command.
abbrev AfterMotion : Motion → Type 0
AfterMotion m = IsPanel 21 m.panel

either :
    (b : Bool) (m n : Motion) → AfterMotion m → AfterMotion n → AfterMotion (if b then m else n)
either true m n f g = f
either false m n f g = g

in_state-IsPanel :
    (n : ℕ) (p : Panel) → n ≤ 6 → IsPanel 21 p → IsPanel 21 (record p { command_state = n })
in_state-IsPanel n p le h = ground arith

place_cursor-IsPanel :
    (edit : Option ℕ) (p : Panel) → Within 21 edit → IsPanel 21 p → IsPanel 21 (place_cursor edit p)
unfolding place_cursor
place_cursor-IsPanel none p w h = ground arith
place_cursor-IsPanel (some c) p w h = ground (arith, pow-lt 22 c)

moved_right-Within : (edit : Option ℕ) → Within 21 edit → Within 21 (moved_right edit)
moved_right-Within none w = tt
moved_right-Within (some c) w = ground arith

moved_left-Within : (edit : Option ℕ) → Within 21 edit → Within 21 (moved_left edit)
moved_left-Within none w = tt
moved_left-Within (some c) w = omega arith

resume_field-IsPanel : (p : Panel) → IsPanel 21 p → IsPanel 21 (resume_field p)
unfolding resume_field
resume_field-IsPanel p h = ground arith

show_segment-IsPanel :
    (p : Panel)
    → IsPanel 21 p
    → IsPanel 21 (record p { segment_mask = segment_of p.edit_cursor; command_state = 0 })
show_segment-IsPanel p h = ground (arith, segment_of-lt p.edit_cursor)

pub cursor_command-IsPanel :
    (value : ℕ) (p : Panel) → IsPanel 21 p → IsPanel 21 (cursor_command value p).panel
unfolding cursor_command
cursor_command-IsPanel value p h =
    let right =
      place_cursor-IsPanel (moved_right p.edit_cursor) p (moved_right-Within _ h.edit) h in
    let left = place_cursor-IsPanel (moved_left p.edit_cursor) p (moved_left-Within _ h.edit) h in
    let resumed = resume_field-IsPanel p h in
    let segment = show_segment-IsPanel p h in
    let state = λ (n : ℕ) (le : n ≤ 6). in_state-IsPanel n p le h in
    let two = state 2 (omega arith) in
    let three = state 3 (omega arith) in
    let four = state 4 (omega arith) in
    let five = state 5 (omega arith) in
    let six = state 6 (omega arith) in let zeroth = state 0 (omega arith) in search either depth 24

pub resolve_address-IsPanel :
    (value : ℕ) (p : Panel) → IsPanel 21 p → IsPanel 21 (resolve_address value p)
unfolding resolve_address
resolve_address-IsPanel value p h = ground arith

pub level_setup-IsPanel :
    (value : ℕ) (p : Panel) → IsPanel 21 p → IsPanel 21 ((level_setup value p).1)
unfolding level_setup
level_setup-IsPanel value p h = ground arith

pub hold_level-IsPanel :
    (value : ℕ) (setup : Bool) (p : Panel) → IsPanel 21 p → IsPanel 21 (hold_level value setup p)
unfolding hold_level
hold_level-IsPanel value setup p h = ground arith

meter-IsPanel :
    (now value : ℕ) (p : Panel) → IsPanel 21 p → IsPanel 21 (panel_render_level_meter now value p)
unfolding panel_render_level_meter
meter-IsPanel now value p h = record {
  text = IsText-meter p.threshold_position (if ltb 0x0e value then 0x0e else value) p.display;
  cursor = h.cursor;
  address = h.address;
  start = tt;
  end = tt;
  edit = h.edit;
  threshold = h.threshold;
  segments = omega arith;
  state = h.state;
  setup = h.setup;
  level = ground arith;
  lamp = h.lamp;
}

pub resolve_level-IsPanel :
    (now value : ℕ) (p : Panel) → IsPanel 21 p → IsPanel 21 (resolve_level now value p)
unfolding resolve_level
resolve_level-IsPanel now value p h =
    go p.level_pending (is_threshold_pair value p) _ (meter-IsPanel now p.level_pending_value p h)
  where
    go :
        (a b : Bool) (m : Panel)
        → IsPanel 21 m
        → IsPanel 21 (if a then record (if b then p else m) { level_pending = false } else p)
    go true true m g = ground arith
    go true false m g = ground arith
    go false b m g = h

pub publish_complete-IsPanel :
    (complete : Bool) (p : Panel) → IsPanel 22 p → IsPanel 21 (publish_complete complete p)
unfolding publish_complete
publish_complete-IsPanel complete p h = ground arith

pub sent-IsPanel :
    (value : ℕ) (p : Panel) → IsPanel 21 p → IsPanel 21 (record p { last_tx = value })
sent-IsPanel value p h = ground arith
