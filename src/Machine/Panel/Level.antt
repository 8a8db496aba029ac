-- ===== src/Machine/Panel/Level.antt =====
-- native/rom_probe.c, lines 1735 to 1789: a level that waits for the byte after it, the command that
-- switches the meter on, and a byte that may be a level.
use ensoniq_eps_16_plus.Base.{
  ℕ, ◌==◌, nonzero, leb, if◌then◌else◌, Bool, true, false, not, ◌&&◌, ◌||◌,
}
use ensoniq_eps_16_plus.Machine.Panel.State.{Panel, panel_render_level_meter}

-- The level and the byte are the address of the threshold's marker.
abbrev pub is_threshold_pair : ℕ → Panel → Bool
is_threshold_pair value p =
    p.level_pending
    && (value == 0x2a || value == 0x5e)
    && p.last_tx == p.level_pending_value
    && leb 1 p.level_pending_value
    && leb p.level_pending_value 22

unfoldable pub resolve_level : ℕ → ℕ → Panel → Panel
resolve_level now value p =
    if p.level_pending
    then record (if is_threshold_pair value p
        then p
        else panel_render_level_meter now p.level_pending_value p) { level_pending = false }
    else p

-- The states of the command 0x15 0x73 0x00 0xf7, and whether the byte belongs to it.
unfoldable pub level_setup : ℕ → Panel → Bool × Panel
level_setup value p =
    let state = p.level_setup_state in
    if value == 0x66
    then (
      false,
      record p {
        level_active = false;
        level_setup_state = 0;
        level_pending = false;
        level_value = 0;
      },
    )
    else if state == 0 && value == 0x15
    then (true, record p { level_setup_state = 1 })
    else if state == 1 && value == 0x73
    then (true, record p { level_setup_state = 2 })
    else if state == 2 && value == 0x00
    then (true, record p { level_setup_state = 3 })
    else if state == 3 && value == 0xf7
    then (true, record p { level_setup_state = 0; level_active = true })
    else if nonzero state
    then (value == 0x15, record p { level_setup_state = if value == 0x15 then 1 else 0 })
    else (false, p)

unfoldable pub hold_level : ℕ → Bool → Panel → Panel
hold_level value setup_byte p =
    let is_parameter =
      nonzero p.indicator_command_pending
      || p.width_pending
      || p.noncell_parameter_pending
      || (value == 0x00 && p.last_tx == 0x72) in
    if p.level_active && not setup_byte && not is_parameter && leb value 0x0e
    then record p { level_pending = true; level_pending_value = value }
    else p
