-- ===== src/Machine/Panel/Write.antt =====
-- native/rom_probe.c, lines 1778 to 2007 and 2032: what a byte for the panel does to its display.
use ensoniq_eps_16_plus.Base.{
  ℕ, ◌+◌, ◌-◌, ◌/◌, ◌%◌, ◌^◌, ◌==◌, nonzero, ltb, leb, if◌then◌else◌, bit_and, bit_or, Bool, true,
  false, not, ◌&&◌, ◌||◌, Option, none, some, update,
}
use ensoniq_eps_16_plus.Machine.Panel.State.{
  Panel, publish_display, panel_dotted_digit, with_cell, without_cell, meter_cell,
}
use ensoniq_eps_16_plus.Machine.Panel.Cursor.{cursor_command, resolve_address, is_known, segment_of}
use ensoniq_eps_16_plus.Machine.Panel.Level.{resolve_level, level_setup, hold_level}

-- What 0x72 0x00 and 'f' both reset.
unfoldable pub home_cursor : Panel → Panel
home_cursor p = record p {
  cursor = 0;
  cursor_start = none;
  cursor_end = none;
  cursor_active = false;
  width_pending = false;
  width_known = false;
  segment_mask = 0;
  full_segments = false;
  noncell_parameter_pending = false;
  cell_address_pending = false;
  edit_cursor = none;
  command_state = 0;
  cursor_positioned = false;
  text_mode_pending = false;
}

unfoldable pub clear_display : ℕ → Panel → Panel
unfolding publish_display home_cursor
clear_display now p =
    let unmarked : Panel = record p { threshold_position = none } in
    let shown = if p.display_dirty then publish_display unmarked else unmarked in
    record (home_cursor shown) {
      display = λ cell. if ltb cell 22 then 0x20 else 0;
      decimal_mask = 0;
      display_dirty = true;
      last_change_cycle = now;
    }

-- A lamp is switched off, on, or to flash.
unfoldable pub set_indicator : ℕ → Panel → Panel
set_indicator value p =
    let command = p.indicator_command_pending - 0x74 in
    let bank = command / 3 in
    let operation = command % 3 in
    let lamp = 2 ^ bit_and value 0x0f in
    let is_off = if bank == 0 then operation == 0 else operation == 1 in
    let is_on = if bank == 0 then operation == 1 else operation == 0 in
    let cleared = λ (lamps : ℕ → ℕ). update lamps bank (bit_and (lamps bank) (2 ^ 16 - 1 - lamp)) in
    let lit = λ (lamps : ℕ → ℕ). update lamps bank (bit_or (lamps bank) lamp) in
    record p {
      indicator_on = if is_off then cleared p.indicator_on else lit p.indicator_on;
      indicator_flash =
          if is_off || is_on then cleared p.indicator_flash else lit p.indicator_flash;
      indicator_command_pending = 0;
    }

-- 0x62 begins a field at the cursor.
unfoldable pub open_field : Panel → Panel
open_field p =
    let edit = if is_known p.edit_cursor then p.edit_cursor else some p.cursor in
    record p {
      cursor_start = some p.cursor;
      cursor_end = some p.cursor;
      cursor_active = true;
      width_pending = false;
      width_known = false;
      segment_mask = if p.cursor_positioned then segment_of edit else 0;
      full_segments = false;
      edit_cursor = edit;
      cursor_positioned = false;
    }

-- A character goes to the cursor, with its point.
unfoldable pub put_cell : ℕ → ℕ → Bool → Panel → Panel
put_cell now glyph point p = record p {
  display = update p.display p.cursor glyph;
  decimal_mask =
      if point then with_cell p.cursor p.decimal_mask else without_cell p.cursor p.decimal_mask;
  cursor = p.cursor + 1;
  display_dirty = true;
  last_change_cycle = now;
  cursor_end = if p.cursor_active && not p.width_known then some (p.cursor + 1) else p.cursor_end;
}

unfoldable pub put_in_field : ℕ → ℕ → Panel → Panel
unfolding put_cell
put_in_field now value p =
    let marked : Panel = record p {
      segment_mask =
          if p.full_segments
          then with_cell p.cursor p.segment_mask
          else without_cell p.cursor p.segment_mask;
    } in
    elim (panel_dotted_digit value) [
      | some digit ↦ put_cell now digit true marked
      | none ↦ if leb 0x20 value && leb value 0x5f then put_cell now value false marked else p
    ]

-- `threshold_position == position`
abbrev pub is_at : Option ℕ → ℕ → Bool
is_at none position = false
is_at (some cell) position = cell == position

-- The marker that was shown gives way to the meter.
unfoldable pub unmark_threshold : ℕ → Option ℕ → Panel → Panel
unmark_threshold position none p = p
unmark_threshold position (some old) p =
    if ltb old 22 && not (old == position) && p.display old == 0x2a
    then record p {
      display = update p.display old (meter_cell p.level_value old);
      decimal_mask = without_cell old p.decimal_mask;
    }
    else p

-- The pair of a cell, counted from 1, and 0x2a or 0x5e.
unfoldable pub mark_threshold : ℕ → ℕ → Panel → Panel
unfolding unmark_threshold
mark_threshold now value p =
    let position = p.last_tx - 1 in
    let unmarked = unmark_threshold position p.threshold_position p in
    let changed : Panel =
      if value == 0x5e
      then record p {
        display = update p.display position (meter_cell p.level_value position);
        decimal_mask = without_cell position p.decimal_mask;
        threshold_position =
            if is_at p.threshold_position position then none else p.threshold_position;
      }
      else record unmarked {
        display = update unmarked.display position 0x2a;
        decimal_mask = without_cell position unmarked.decimal_mask;
        threshold_position = some position;
      } in
    record changed { display_dirty = true; last_change_cycle = now }

abbrev is_glyph : ℕ → Bool
is_glyph value = leb 0x20 value && leb value 0x5f

-- A byte that belongs to no command: a character of the field, a marker, an address, a character.
unfoldable pub write_cell : ℕ → ℕ → Panel → Panel
unfolding put_in_field mark_threshold put_cell
write_cell now value p =
    if p.cursor_active && ltb p.cursor 22
    then put_in_field now value p
    else if not p.cursor_active
        && (value == 0x2a || value == 0x5e)
        && leb 1 p.last_tx
        && leb p.last_tx 22
    then mark_threshold now value p
    else if not p.cursor_active && not p.level_active && leb value 0x15
    then record p { cell_address_pending = true; cell_address = value }
    else if is_glyph value && ltb p.cursor 22
    then put_cell now value false p
    else p

-- The commands of a field, and the two parameters that precede it.
unfoldable pub write_field : ℕ → ℕ → Panel → Panel
unfolding open_field write_cell
write_field now value p =
    if value == 0x62
    then open_field p
    else if value == 0x63 && is_known p.cursor_start
    then record p { command_state = 1; cursor_active = false; width_pending = false }
    else if value == 0x60 && p.cursor_active && p.last_tx == 0x62
    then record p { width_pending = true }
    else if value == 0x60 && not p.cursor_active
    then record p { text_mode_pending = true }
    else if p.width_pending && ltb value 0x20
    then record p {
      width_pending = false;
      width_known = false;
      full_segments = value == 0x03;
      segment_mask = 0;
    }
    else if value == 0x72 && p.cursor_active
    then record p { cursor_active = false; width_pending = false }
    else write_cell now value p

unfoldable pub write_display : ℕ → ℕ → Bool → Panel → Panel
unfolding home_cursor clear_display set_indicator write_field
write_display now value in_command p =
    if value == 0x00 && p.last_tx == 0x72
    then record (home_cursor p) { indicator_command_pending = 0 }
    else if value == 0x66
    then clear_display now p
    else if in_command
    then p
    else if p.text_mode_pending
    then record p { text_mode_pending = false }
    else if nonzero p.indicator_command_pending
    then set_indicator value p
    else if not p.cursor_active && leb 0x74 value && leb value 0x7c
    then record p { indicator_command_pending = value }
    else if p.noncell_parameter_pending
    then record p { noncell_parameter_pending = false }
    else if not p.cursor_active && (value == 0x12 || value == 0x15)
    then record p { noncell_parameter_pending = true }
    else write_field now value p

-- A full display, or the end of a motion, is published; the cursor goes back to the first cell.
unfoldable pub publish_complete : Bool → Panel → Panel
unfolding publish_display
publish_complete complete p =
    if leb 22 p.cursor || complete
    then record (publish_display p) {
      display_dirty = false;
      cursor = if leb 22 p.cursor then 0 else p.cursor;
    }
    else p

unfoldable pub panel_write : ℕ → ℕ → Panel → Panel
panel_write now value p =
    let moved = cursor_command value p in
    let set_up = level_setup value (resolve_level now value (resolve_address value moved.panel)) in
    let held = hold_level value (set_up.0) (set_up.1) in
    let written = write_display now value moved.is_command held in
    record (publish_complete moved.is_complete written) { last_tx = value }
