-- ===== src/Machine/Panel/State.antt =====
-- native/rom_probe.c, lines 164 to 183, 670 to 683 and 1580 to 1605: the display of the panel as
-- the main machine keeps it, its digits with a point, its meter, and what it publishes. A position
-- that is -1 in the source is `none`.
use ensoniq_eps_16_plus.Base.{
  ℕ, ◌-◌, ◌^◌, ◌==◌, ltb, if◌then◌else◌, bit_and, bit_or, Bool, true, false, Option, none, some,
  update,
}

-- What the display shows when it is published.
pub record Frame : Type 0 where
  pub cells : ℕ → ℕ
  pub points : ℕ
  pub first : Option ℕ
  pub last : Option ℕ
  pub segments : ℕ

pub record Panel : Type 0 where
  pub display : ℕ → ℕ
  pub decimal_mask : ℕ
  pub display_dirty : Bool
  pub last_change_cycle : ℕ
  pub cursor : ℕ
  pub cursor_start : Option ℕ
  pub cursor_end : Option ℕ
  pub cursor_active : Bool
  pub width_pending : Bool
  pub width_known : Bool
  pub segment_mask : ℕ
  pub full_segments : Bool
  pub noncell_parameter_pending : Bool
  pub cell_address_pending : Bool
  pub cell_address : ℕ
  pub edit_cursor : Option ℕ
  pub command_state : ℕ
  pub cursor_positioned : Bool
  pub text_mode_pending : Bool
  pub threshold_position : Option ℕ
  pub level_active : Bool
  pub level_setup_state : ℕ
  pub level_pending : Bool
  pub level_pending_value : ℕ
  pub level_value : ℕ
  pub indicator_on : ℕ → ℕ
  pub indicator_flash : ℕ → ℕ
  pub indicator_command_pending : ℕ
  pub last_tx : ℕ
  pub published : Frame

-- The display is published as the plug-in takes it.
unfoldable pub publish_display : Panel → Panel
publish_display p = record p {
  published = record {
    cells = p.display;
    points = p.decimal_mask;
    first = p.cursor_start;
    last = p.cursor_end;
    segments = p.segment_mask;
  };
}

-- `1 << cell`, and a mask with one of its digits set or cleared.
abbrev pub with_cell : ℕ → ℕ → ℕ
with_cell cell mask = bit_or mask (2 ^ cell)

abbrev pub without_cell : ℕ → ℕ → ℕ
without_cell cell mask = bit_and mask (2 ^ 32 - 1 - 2 ^ cell)

unfoldable pub panel_dotted_digit : ℕ → Option ℕ
panel_dotted_digit code =
    if code == 0x21
    then some 0x30
    else if code == 0x23
    then some 0x31
    else if code == 0x25
    then some 0x32
    else if code == 0x28
    then some 0x33
    else if code == 0x29
    then some 0x34
    else if code == 0x3a
    then some 0x35
    else if code == 0x3b
    then some 0x36
    else if code == 0x5b
    then some 0x37
    else if code == 0x5c
    then some 0x38
    else if code == 0x5d
    then some 0x39
    else none

-- A cell of the meter: a bar, or a space.
abbrev pub meter_cell : ℕ → ℕ → ℕ
meter_cell level cell = if ltb cell level then 0x7c else 0x20

-- `if (position >= 0 && position < 22) display[position] = '*'`
abbrev pub marked : Option ℕ → (ℕ → ℕ) → ℕ → ℕ
marked none cells = cells
marked (some position) cells = if ltb position 22 then update cells position 0x2a else cells

unfoldable pub panel_render_level_meter : ℕ → ℕ → Panel → Panel
unfolding publish_display
panel_render_level_meter now value p =
    let level = if ltb 0x0e value then 0x0e else value in
    let cells = λ (cell : ℕ). if ltb cell 22 then meter_cell level cell else p.display cell in
    let shown = publish_display (record p {
      level_value = level;
      display = update (marked p.threshold_position cells) 22 0;
      decimal_mask = 0;
      cursor_start = none;
      cursor_end = none;
      cursor_active = false;
      segment_mask = 0;
      display_dirty = true;
      last_change_cycle = now;
    }) in
    record shown { display_dirty = false }
