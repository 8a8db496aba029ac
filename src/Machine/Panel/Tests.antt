-- ===== src/Machine/Panel/Tests.antt =====
-- Runs of the display of the panel.
use ensoniq_eps_16_plus.Base.{
  ℕ, zero, suc, ◌+◌, ltb, if◌then◌else◌, false, ◌≡◌, refl, none, List, [], ◌∷◌, inl, arith, ◌*◌,
  ◌==◌, ◌&&◌,
}
use ensoniq_eps_16_plus.Base.Bits.{bit}
use ensoniq_eps_16_plus.Machine.Panel.Text.{IsText-blank}
use ensoniq_eps_16_plus.Machine.Panel.Invariant.{IsPanel}
use ensoniq_eps_16_plus.Machine.Panel.Bounds.{panel_write-IsPanel}
use ensoniq_eps_16_plus.Machine.Panel.Page.{
  value_at, ShowsPage, panel_write_all, panel_write_all-page,
}
use ensoniq_eps_16_plus.Machine.Panel.Lamps.{IsQuiet, lights, panel_write-lamp}
use ensoniq_eps_16_plus.Machine.Panel.State.{Panel, panel_dotted_digit, panel_render_level_meter}
use ensoniq_eps_16_plus.Machine.Panel.Cursor.{cursor_command, resolve_address}
use ensoniq_eps_16_plus.Machine.Panel.Level.{resolve_level, level_setup, hold_level}
use ensoniq_eps_16_plus.Machine.Panel.Write.{write_display, publish_complete, panel_write}

-- The display after a reset.
abbrev pub blank : Panel
blank = record {
  display = λ cell. if ltb cell 22 then 0x20 else 0;
  decimal_mask = 0;
  display_dirty = false;
  last_change_cycle = 0;
  cursor = 0;
  cursor_start = none;
  cursor_end = none;
  cursor_active = false;
  width_pending = false;
  width_known = false;
  segment_mask = 0;
  full_segments = false;
  noncell_parameter_pending = false;
  cell_address_pending = false;
  cell_address = 0;
  edit_cursor = none;
  command_state = 0;
  cursor_positioned = false;
  text_mode_pending = false;
  threshold_position = none;
  level_active = false;
  level_setup_state = 0;
  level_pending = false;
  level_pending_value = 0;
  level_value = 0;
  indicator_on = λ bank. 0;
  indicator_flash = λ bank. 0;
  indicator_command_pending = 0;
  last_tx = 0;
  published = record { cells = λ cell. 0; points = 0; first = none; last = none; segments = 0 };
}

sent : List ℕ → Panel → Panel
sent [] p = p
sent (v ∷ vs) p = sent vs (panel_write 7 v p)

shown : ℕ → ℕ → (ℕ → ℕ) → List ℕ
shown zero from cells = []
shown (suc n) from cells = cells from ∷ shown n (from + 1) cells

-- An addressed field: "21" in cells 20 and 21, as 0x14 0x32 0x31.
field_run : shown 2 20 (sent (0x14 ∷ 0x32 ∷ 0x31 ∷ []) blank).published.cells ≡ 0x32 ∷ 0x31 ∷ []
unfolding panel_write cursor_command resolve_address resolve_level level_setup hold_level
    write_display publish_complete panel_dotted_digit panel_render_level_meter sent shown
field_run = refl

-- A field with a digit and its point, and the cursor moved to the right.
digit_run : shown 2 0 (sent (0x62 ∷ 0x23 ∷ 0x30 ∷ 0x72 ∷ []) blank).display ≡ 0x31 ∷ 0x30 ∷ []
unfolding panel_write cursor_command resolve_address resolve_level level_setup hold_level
    write_display publish_complete panel_dotted_digit panel_render_level_meter sent shown
digit_run = refl

motion_run : (sent (0x62 ∷ 0x30 ∷ 0x72 ∷ 0x63 ∷ 0x6a ∷ 0x67 ∷ []) blank).published.segments ≡ 2
unfolding panel_write cursor_command resolve_address resolve_level level_setup hold_level
    write_display publish_complete panel_dotted_digit panel_render_level_meter sent
motion_run = refl

-- The meter shows three bars after the byte that follows the level.
meter_run :
    shown 4 0 (sent (0x15 ∷ 0x73 ∷ 0x00 ∷ 0xf7 ∷ 0x03 ∷ 0xf7 ∷ []) blank).published.cells
    ≡ 0x7c ∷ 0x7c ∷ 0x7c ∷ 0x20 ∷ []
unfolding panel_write cursor_command resolve_address resolve_level level_setup hold_level
    write_display publish_complete panel_dotted_digit panel_render_level_meter sent shown
meter_run = refl

blank-IsPanel : IsPanel 21 blank
blank-IsPanel = record {
  text = IsText-blank;
  cursor = omega arith;
  address = omega arith;
  start = tt;
  end = tt;
  edit = tt;
  threshold = tt;
  segments = omega arith;
  state = omega arith;
  setup = omega arith;
  level = omega arith;
  lamp = inl refl;
}

panel_write-IsPanel_example : IsPanel 21 (panel_write 7 0x41 blank)
panel_write-IsPanel_example = panel_write-IsPanel 7 0x41 blank blank-IsPanel

-- " PLAY ROOT KEY  " and six digits.
abbrev page : List (ℕ × ℕ)
page =
    (1, 0x20)
    ∷ (2, 0x50)
    ∷ (3, 0x4c)
    ∷ (4, 0x41)
    ∷ (5, 0x59)
    ∷ (6, 0x20)
    ∷ (7, 0x52)
    ∷ (8, 0x4f)
    ∷ (9, 0x4f)
    ∷ (10, 0x54)
    ∷ (11, 0x20)
    ∷ (12, 0x4b)
    ∷ (13, 0x45)
    ∷ (14, 0x59)
    ∷ (15, 0x20)
    ∷ (16, 0x20)
    ∷ (17, 0x30)
    ∷ (18, 0x31)
    ∷ (19, 0x32)
    ∷ (20, 0x33)
    ∷ (21, 0x34)
    ∷ (22, 0x35)
    ∷ []

page_example : ShowsPage (value_at page) (panel_write_all ((0, 0x66) ∷ page) blank)
page_example = panel_write_all-page 0 page blank refl refl (omega arith)

blank-IsQuiet : IsQuiet blank
blank-IsQuiet = record { state = refl; active = refl; mode = refl }

-- The command 0x79 and the index 5: lamp 5 of bank 1 flashes.
lamp_example :
    let q = panel_write 9 5 (panel_write 8 (0x74 + 3 * 1 + 2) blank) in
    (bit 5 (q.indicator_on 1)
      ≡ (if 1 == 1 && 5 == 5 then lights 1 2 else bit 5 (blank.indicator_on 1)))
    × (bit 5 (q.indicator_flash 1)
        ≡ (if 1 == 1 && 5 == 5 then 2 == 2 else bit 5 (blank.indicator_flash 1)))
lamp_example =
    panel_write-lamp 8 9 1 2 5 1 5 blank (omega arith) (omega arith) (omega arith) (omega arith)
      blank-IsQuiet refl
