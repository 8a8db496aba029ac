-- ===== src/Kpc/Device/Panel.antt =====
-- native/kpc_device.c, lines 112 to 188 and 266 to 287: the key transitions that the matrix scans
-- of the firmware see.
use ensoniq_eps_16_plus.Base.{
  ℕ, ◌==◌, ◌!=◌, nonzero, ltb, if◌then◌else◌, sub8, sub32, u8, bit_xor, Bool, true, false, ◌&&◌,
  ◌||◌,
}
use ensoniq_eps_16_plus.Kpc.Device.Board.{Board}

-- `--device->panel_transfers_remaining`
abbrev decrement : ℕ → ℕ
decrement n = sub32 n 1

-- The state of the panel's return line.
abbrev to_idle : Board → Board
to_idle d = record d { panel_transition_phase = 0; spi_receive_value = 0 }

unfoldable pub phase_6 : ℕ → Board → Board
phase_6 value d =
    let d1 =
      if d.panel_scan_command_valid
      then d
      else record d { panel_scan_command = value; panel_scan_command_valid = true } in
    let matching = d1.panel_scan_command_valid && value == d1.panel_scan_command in
    let d2 = record d1 {
      spi_transfer_receive_value = if matching then d1.panel_event_receive_value else 0;
    } in
    let left = decrement d2.panel_transfers_remaining in
    if matching
    then record d2 {
      panel_transfers_remaining = left;
      panel_transition_phase = if left == 0 then 7 else d2.panel_transition_phase;
    }
    else d2

unfoldable pub phase_7 : ℕ → Board → Board
phase_7 value d =
    let d1 = record d { spi_transfer_receive_value = 0 } in if value == 0xff then to_idle d1 else d1

unfoldable pub phase_1 : ℕ → Board → Board
phase_1 value d =
    let d1 =
      if d.panel_scan_command == 0 && value != 0xff && value != 0
      then record d { panel_scan_command = value }
      else d in
    let left = decrement d1.panel_transfers_remaining in
    if value == d1.panel_scan_command
    then record d1 {
      panel_transfers_remaining = if left == 0 then 1 else left;
      panel_transition_phase = if left == 0 then 2 else d1.panel_transition_phase;
    }
    else d1

unfoldable pub phase_2 : ℕ → Board → Board
phase_2 value d =
    let d1 = record d { spi_transfer_receive_value = 0 } in
    let left = decrement d1.panel_transfers_remaining in
    let d2 = record d1 { panel_transfers_remaining = left } in
    if value == 0xff then (if left == 0 then to_idle d2 else d2) else d1

unfoldable pub phase_3 : Board → Board
phase_3 d =
    let left = decrement d.panel_transfers_remaining in
    record d {
      panel_transfers_remaining = left;
      panel_transition_phase = if left == 0 then 4 else d.panel_transition_phase;
      spi_receive_value = if left == 0 then d.panel_tail_receive_value else d.spi_receive_value;
    }

unfoldable pub phase_5 : Board → Board
phase_5 d =
    let left =
      if nonzero d.panel_transfers_remaining
      then decrement d.panel_transfers_remaining
      else d.panel_transfers_remaining in
    let d1 = record d { panel_transfers_remaining = left } in if left == 0 then to_idle d1 else d1

-- The chain of tests on the phase in `device_write8`.
unfoldable pub panel_transfer : ℕ → Board → Board
panel_transfer value d =
    if d.panel_transition_phase == 6
    then phase_6 value d
    else if d.panel_transition_phase == 7
    then phase_7 value d
    else if d.panel_transition_phase == 1 && nonzero d.panel_transfers_remaining
    then phase_1 value d
    else if d.panel_transition_phase == 2
    then phase_2 value d
    else if d.panel_transition_phase == 3 && nonzero d.panel_transfers_remaining
    then phase_3 d
    else if d.panel_transition_phase == 4
    then to_idle d
    else if d.panel_transition_phase == 5
    then phase_5 d
    else d

unfoldable pub kpc_device_panel_transition : Board → ℕ → Bool → Bool × Board
kpc_device_panel_transition d matrix_code pressed =
    if ltb 0x3f matrix_code || nonzero d.panel_transition_phase
    then (false, d)
    else let release_value = sub8 1 matrix_code in
      let event = if pressed then u8 (bit_xor release_value 0x40) else release_value in
      (
        true,
        record d {
          panel_event_receive_value = event;
          spi_receive_value = event;
          panel_transition_phase = 1;
          panel_transfers_remaining = 3;
          panel_scan_command = 0;
          panel_scan_command_valid = false;
        },
      )

unfoldable pub kpc_device_panel_transition_complete : Board → Board
kpc_device_panel_transition_complete d = record d {
  spi_receive_value = 0;
  panel_transition_phase = 0;
  panel_transfers_remaining = 0;
  panel_scan_command = 0;
  panel_scan_command_valid = false;
}
