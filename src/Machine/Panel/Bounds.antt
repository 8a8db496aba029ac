-- ===== src/Machine/Panel/Bounds.antt =====
-- native/rom_probe.c, lines 1629 to 2032: each byte keeps the bounds of the display of the panel.
use ensoniq_eps_16_plus.Base.{
  ℕ, not, ◌||◌, ◌≤◌, ◌≡◌, refl, arith, ◌==◌, ltb, leb, if◌then◌else◌, Bool, true, false, ◌&&◌,
}
use ensoniq_eps_16_plus.Machine.Panel.State.{Panel}
use ensoniq_eps_16_plus.Machine.Panel.Write.{write_cell, write_field, write_display, panel_write}
use ensoniq_eps_16_plus.Machine.Panel.Invariant.{
  IsPanel, cursor_command-IsPanel, resolve_address-IsPanel, level_setup-IsPanel, hold_level-IsPanel,
  resolve_level-IsPanel, publish_complete-IsPanel, sent-IsPanel,
}
use ensoniq_eps_16_plus.Machine.Panel.Shown.{
  shows, choice, home-IsPanel, clear_display-IsPanel, set_indicator-IsPanel, open_field-IsPanel,
  put_cell-IsPanel, put_in_field-IsPanel, mark_threshold-IsPanel,
}

-- A branch, with the test that chose it.
chosen :
    (b : Bool) (p q : Panel)
    → (b ≡ true → IsPanel 22 p)
    → IsPanel 22 q
    → IsPanel 22 (if b then p else q)
chosen true p q f g = f refl
chosen false p q f g = g

write_cell-IsPanel :
    (now value : ℕ) (p : Panel) → IsPanel 21 p → IsPanel 22 (write_cell now value p)
unfolding write_cell
write_cell-IsPanel now value p h =
    chosen (p.cursor_active && ltb p.cursor 22) _ _ (λ e. put_in_field-IsPanel now value p h)
      (chosen
        (not p.cursor_active
          && (value == 0x2a || value == 0x5e)
          && leb 1 p.last_tx
          && leb p.last_tx 22)
        _ _ (λ e. mark_threshold-IsPanel now value p (ground (arith, e)) (ground (arith, e)) h)
        (chosen (not p.cursor_active && not p.level_active && leb value 0x15) _ _
          (λ e. addressed (ground (arith, e)))
          (chosen (leb 0x20 value && leb value 0x5f && ltb p.cursor 22) _ _
            (λ e. put_cell-IsPanel now value p (ground (arith, e)) (ground (arith, e)) h)
            (shows p h))))
  where
    addressed :
        value ≤ 0x15 → IsPanel 22 (record p { cell_address_pending = true; cell_address = value })
    addressed le = ground arith

write_field-IsPanel :
    (now value : ℕ) (p : Panel) → IsPanel 21 p → IsPanel 22 (write_field now value p)
unfolding write_field
write_field-IsPanel now value p h =
    let cell = write_cell-IsPanel now value p h in
    let opened = open_field-IsPanel p h in
    let command : IsPanel 22
        (record p { command_state = 1; cursor_active = false; width_pending = false }) =
      ground arith in
    let width : IsPanel 22 (record p { width_pending = true }) = ground arith in
    let mode : IsPanel 22 (record p { text_mode_pending = true }) = ground arith in
    let segments : IsPanel 22 (record p {
      width_pending = false;
      width_known = false;
      full_segments = value == 0x03;
      segment_mask = 0;
    }) =
      ground arith in
    let closed : IsPanel 22 (record p { cursor_active = false; width_pending = false }) =
      ground arith in
    search choice depth 20

write_display-IsPanel :
    (now value : ℕ) (in_command : Bool) (p : Panel)
    → IsPanel 21 p
    → IsPanel 22 (write_display now value in_command p)
unfolding write_display
write_display-IsPanel now value in_command p h =
    let field = write_field-IsPanel now value p h in
    let home = home-IsPanel p h in
    let cleared = clear_display-IsPanel now p h in
    let unchanged = shows p h in
    let indicator = set_indicator-IsPanel value p h in
    let text : IsPanel 22 (record p { text_mode_pending = false }) = ground arith in
    let parameter : IsPanel 22 (record p { noncell_parameter_pending = false }) = ground arith in
    let command : IsPanel 22 (record p { noncell_parameter_pending = true }) = ground arith in
    let lamp =
      chosen (not p.cursor_active && leb 0x74 value && leb value 0x7c)
        (record p { indicator_command_pending = value }) _
        (λ e. pending (ground (arith, e)) (ground (arith, e)))
        (choice p.noncell_parameter_pending _ _ parameter
          (choice (not p.cursor_active && (value == 0x12 || value == 0x15)) _ _ command field)) in
    search choice depth 20
  where
    pending :
        0x74 ≤ value → value ≤ 0x7c → IsPanel 22 (record p { indicator_command_pending = value })
    pending low high = ground arith

-- Any byte of the panel's channel, sent at any cycle, leaves a display that has these bounds in
-- them again: the cursor, the edit cursor, the threshold and the start of the field are at most
-- 21 and its end at most 22, the cell address is below 22, the segment mask and the mask of
-- points have 22 digits, the 22 cells hold characters from 0x20 to 0x7c, digits where a point is
-- lit, and a 0 stands after them, the pending lamp command is 0 or from 0x74 to 0x7c, and the
-- states and the level of the meter are in their ranges.
pub panel_write-IsPanel :
    (now value : ℕ) (p : Panel) → IsPanel 21 p → IsPanel 21 (panel_write now value p)
unfolding panel_write
panel_write-IsPanel now value p h =
    let moved = cursor_command-IsPanel value p h in
    let addressed = resolve_address-IsPanel value _ moved in
    let resolved = resolve_level-IsPanel now value _ addressed in
    let set_up = level_setup-IsPanel value _ resolved in
    let held = hold_level-IsPanel value _ _ set_up in
    sent-IsPanel value _ (publish_complete-IsPanel _ _ (write_display-IsPanel now value _ _ held))
