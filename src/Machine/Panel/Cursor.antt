-- ===== src/Machine/Panel/Cursor.antt =====
-- native/rom_probe.c, lines 1654 to 1733: the commands that move the cursor, and the address of a
-- cell that waits for the byte after it.
use ensoniq_eps_16_plus.Base.{
  ℕ, ◌+◌, ◌-◌, ◌^◌, ◌==◌, nonzero, ltb, leb, if◌then◌else◌, bit_and, Bool, true, false, ◌&&◌, ◌||◌,
  Option, none, some,
}
use ensoniq_eps_16_plus.Machine.Panel.State.{Panel}

-- The segment under the cursor, and a position in place of the cursor's.
abbrev pub segment_of : Option ℕ → ℕ
segment_of none = 0
segment_of (some cell) = 2 ^ cell

abbrev position_or : ℕ → Option ℕ → ℕ
position_or cursor none = cursor
position_or cursor (some cell) = cell

abbrev pub is_known : Option ℕ → Bool
is_known none = false
is_known (some cell) = true

abbrev pub moved_right : Option ℕ → Option ℕ
moved_right none = none
moved_right (some cell) = some (if ltb cell 21 then cell + 1 else cell)

abbrev pub moved_left : Option ℕ → Option ℕ
moved_left none = none
moved_left (some cell) = some (cell - 1)

-- The end of a motion.
unfoldable pub place_cursor : Option ℕ → Panel → Panel
place_cursor edit p = record p {
  edit_cursor = edit;
  cursor = position_or p.cursor edit;
  segment_mask = segment_of edit;
  cursor_positioned = true;
  command_state = 0;
}

abbrev has_segment : ℕ → Option ℕ → Bool
has_segment mask none = false
has_segment mask (some cell) = nonzero (bit_and mask (2 ^ cell))

-- A byte after 0x63 that begins no command is the first of the field.
unfoldable pub resume_field : Panel → Panel
resume_field p = record p {
  cursor = position_or p.cursor p.cursor_start;
  cursor_active = is_known p.cursor_start;
  width_pending = false;
  width_known = true;
  full_segments = has_segment p.segment_mask p.cursor_start;
  command_state = 0;
}

-- What a byte is to the cursor: a byte of a command, and the last of one.
pub record Motion : Type 0 where
  pub is_command : Bool
  pub is_complete : Bool
  pub panel : Panel

abbrev pub motion : Bool → Bool → Panel → Motion
motion command complete p = record { is_command = command; is_complete = complete; panel = p }

unfoldable pub cursor_command : ℕ → Panel → Motion
unfolding place_cursor resume_field
cursor_command value p =
    let state = p.command_state in
    let in_state = λ (next : ℕ). motion true false (record p { command_state = next }) in
    if state == 0
    then motion false false p
    else if state == 1 && value == 0x6a
    then in_state 2
    else if state == 1 && value == 0x69
    then in_state 3
    else if state == 1 && value == 0x72
    then in_state 5
    else if state == 2 && value == 0x67
    then motion true true (place_cursor (moved_right p.edit_cursor) p)
    else if state == 3 && value == 0x65
    then in_state 4
    else if state == 4 && value == 0x67
    then motion true true (place_cursor (moved_left p.edit_cursor) p)
    else if state == 5 && value == 0x67
    then in_state 6
    else if state == 6 && value == 0x72
    then motion true true (record p { segment_mask = segment_of p.edit_cursor; command_state = 0 })
    else if state == 1
    then motion false false (resume_field p)
    else in_state 0

unfoldable pub resolve_address : ℕ → Panel → Panel
resolve_address value p =
    let is_prefix = value == 0x60 in
    let is_field = value == 0x62 && p.last_tx == 0x01 in
    let placed =
      if (leb 0x20 value && leb value 0x5f) || is_field then p.cell_address else p.cursor in
    if p.cell_address_pending
    then record p { cursor = placed; cell_address_pending = is_prefix || p.text_mode_pending }
    else p
