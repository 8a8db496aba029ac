-- ===== src/Machine/Panel/Lamps.antt =====
-- native/rom_probe.c, lines 1840 to 1867: the lamps of the panel, by bank and index.
use ensoniq_eps_16_plus.Base.{
  ℕ, ◌+◌, ◌-◌, ◌*◌, ◌/◌, ◌%◌, ◌≤◌, ◌<◌, ◌≡◌, refl, sym, ◌∙◌, ap, arith, ◌==◌, if◌then◌else◌, Bool,
  false, not, ◌&&◌, bit_and,
}
use ensoniq_eps_16_plus.Base.Bits.{bit}
use ensoniq_eps_16_plus.Base.Fields.{bit_and_mask}
use ensoniq_eps_16_plus.Base.Cells.{bit-with_lamp, bit-without_lamp}
use ensoniq_eps_16_plus.Machine.Panel.State.{Panel, panel_render_level_meter}
use ensoniq_eps_16_plus.Machine.Panel.Cursor.{motion, cursor_command, resolve_address}
use ensoniq_eps_16_plus.Machine.Panel.Level.{resolve_level, level_setup, hold_level}
use ensoniq_eps_16_plus.Machine.Panel.Write.{
  set_indicator, write_display, publish_complete, panel_write,
}

-- No command of the cursor or of the text mode is open, and no field.
pub record IsQuiet (p : Panel) : Type 0 where
  pub state : p.command_state ≡ 0
  pub active : p.cursor_active ≡ false
  pub mode : p.text_mode_pending ≡ false

-- Two states with the same lamps and the same command for them, the second of them quiet.
record Keeps (p q : Panel) : Type 0 where
  on : q.indicator_on ≡ p.indicator_on
  flash : q.indicator_flash ≡ p.indicator_flash
  command : q.indicator_command_pending ≡ p.indicator_command_pending
  last : q.last_tx ≡ p.last_tx
  quiet : IsQuiet q

address-Keeps : (value : ℕ) (p : Panel) → IsQuiet p → Keeps p (resolve_address value p)
unfolding resolve_address
address-Keeps value p h = ground arith

level-Keeps : (now value : ℕ) (p q : Panel) → Keeps p q → Keeps p (resolve_level now value q)
unfolding resolve_level panel_render_level_meter
level-Keeps now value p q h = ground arith

setup-Keeps : (value : ℕ) (p q : Panel) → Keeps p q → Keeps p ((level_setup value q).1)
unfolding level_setup
setup-Keeps value p q h = ground arith

hold-Keeps : (value : ℕ) (b : Bool) (p q : Panel) → Keeps p q → Keeps p (hold_level value b q)
unfolding hold_level
hold-Keeps value b p q h = ground arith

no_command : (value : ℕ) (p : Panel) → IsQuiet p → cursor_command value p ≡ motion false false p
unfolding cursor_command
no_command value p h = ground (arith, h.state)

-- A byte for a quiet display is shown in a state with the same lamps.
module _ (now value : ℕ) (p : Panel) (h : IsQuiet p) where
  held : Panel
  held =
      let set_up = level_setup value (resolve_level now value (resolve_address value p)) in
      hold_level value (set_up.0) (set_up.1)

  held-Keeps : Keeps p held
  unfolding held
  held-Keeps =
      hold-Keeps value _ p _
        (setup-Keeps value p _ (level-Keeps now value p _ (address-Keeps value p h)))

  quiet_write :
      panel_write now value p
      ≡ record (publish_complete false (write_display now value false held)) { last_tx = value }
  unfolding panel_write held
  quiet_write = rw (no_command value p h) refl

-- The command of a bank and an operation opens a wait for the lamp.
command_shown :
    (now command : ℕ) (q : Panel)
    → 0x74 ≤ command
    → command ≤ 0x7c
    → IsQuiet q
    → q.indicator_command_pending ≡ 0
    → write_display now command false q ≡ record q { indicator_command_pending = command }
unfolding write_display
command_shown now command q low high h idle = ground (arith, h.active, h.mode, idle)

command_byte :
    (now command : ℕ) (p : Panel)
    → 0x74 ≤ command
    → command ≤ 0x7c
    → IsQuiet p
    → p.indicator_command_pending ≡ 0
    → let q = panel_write now command p in
      IsQuiet q
      × (q.indicator_on ≡ p.indicator_on)
      × (q.indicator_flash ≡ p.indicator_flash)
      × (q.indicator_command_pending ≡ command)
      × (q.last_tx ≡ command)
unfolding publish_complete
command_byte now command p low high h idle =
    let k = held-Keeps now command p h in
    let shown =
      command_shown now command (held now command p h) low high k.quiet (k.command ∙ idle) in
    rw (quiet_write now command p h) (
      rw shown (
        ground (arith, k.quiet),
        ground (arith, k.on),
        ground (arith, k.flash),
        ground arith,
        refl,
      ))

-- The byte after it goes to the lamps.
lamp_shown :
    (now value : ℕ) (q : Panel)
    → value < 16
    → IsQuiet q
    → 0x74 ≤ q.indicator_command_pending
    → q.last_tx ≡ q.indicator_command_pending
    → write_display now value false q ≡ set_indicator value q
unfolding write_display
lamp_shown now value q below h pending last = ground (arith, h.mode)

lamp_byte :
    (now value : ℕ) (p : Panel)
    → value < 16
    → IsQuiet p
    → 0x74 ≤ p.indicator_command_pending
    → p.last_tx ≡ p.indicator_command_pending
    → let q = panel_write now value p in
      (q.indicator_on ≡ (set_indicator value p).indicator_on)
      × (q.indicator_flash ≡ (set_indicator value p).indicator_flash)
      × (q.indicator_command_pending ≡ 0)
unfolding publish_complete set_indicator
lamp_byte now value p below h pending last =
    let k = held-Keeps now value p h in
    let shown =
      lamp_shown now value (held now value p h) below k.quiet (omega (arith, k.command))
        (k.last ∙ last ∙ sym k.command) in
    rw (quiet_write now value p h)
      (rw shown (ground (arith, k.on, k.command), ground (arith, k.flash, k.command), ground arith))

-- Operation 0 switches a lamp of bank 0 off, and operation 1 one of the other banks.
abbrev pub lights : ℕ → ℕ → Bool
lights bank operation = not (operation == (if bank == 0 then 0 else 1))

set_indicator_lem :
    (bank operation index b i : ℕ) (p : Panel)
    → operation < 3
    → index < 16
    → i < 16
    → p.indicator_command_pending ≡ 0x74 + 3 * bank + operation
    → let q = set_indicator index p in
      (bit i (q.indicator_on b)
        ≡ (if b == bank && i == index then lights bank operation else bit i (p.indicator_on b)))
      × (bit i (q.indicator_flash b)
          ≡ (if b == bank && i == index then operation == 2 else bit i (p.indicator_flash b)))
unfolding set_indicator
set_indicator_lem bank operation index b i p three low hi command =
    let e : 0 + index ≡ index = omega arith in
    let lamp : bit_and index 0x0f ≡ index = rw e at (bit_and_mask 4 0 index low) in
    let first : (p.indicator_command_pending - 0x74) / 3 ≡ bank = omega (arith, command) in
    let second : (p.indicator_command_pending - 0x74) % 3 ≡ operation = omega (arith, command) in
    let on = p.indicator_on bank in
    let flash = p.indicator_flash bank in
    rw lamp (
      rw first (
        rw second (
          ground (arith, bit-with_lamp i index on, bit-without_lamp i index on),
          ground (arith, bit-with_lamp i index flash, bit-without_lamp i index flash),
        )))

-- For a bank below 3, an operation below 3 and an index below 16, on a display that waits for no
-- lamp and has no field, cursor command or text mode open: after the command byte and the index,
-- the lamp of that bank and index is lit as the operation says (bank 0: off, on, flashing; banks
-- 1 and 2: on, off, flashing), it flashes exactly after operation 2, and every other lamp is as
-- before.
pub panel_write-lamp :
    (first second bank operation index b i : ℕ) (p : Panel)
    → bank < 3
    → operation < 3
    → index < 16
    → i < 16
    → IsQuiet p
    → p.indicator_command_pending ≡ 0
    → let q = panel_write second index (panel_write first (0x74 + 3 * bank + operation) p) in
      (bit i (q.indicator_on b)
        ≡ (if b == bank && i == index then lights bank operation else bit i (p.indicator_on b)))
      × (bit i (q.indicator_flash b)
          ≡ (if b == bank && i == index then operation == 2 else bit i (p.indicator_flash b)))
panel_write-lamp first second bank operation index b i p three low below hi h idle =
    let command = 0x74 + 3 * bank + operation in
    let opened = command_byte first command p (omega arith) (omega arith) h idle in
    let q = panel_write first command p in
    let done =
      lamp_byte second index q below opened.0 (omega (arith, opened.3)) (opened.4 ∙ sym opened.3) in
    let lem = set_indicator_lem bank operation index b i q low below hi opened.3 in
    (
      ap (λ (lamps : ℕ → ℕ). bit i (lamps b)) done.0
          ∙ lem.0
          ∙ ap
              (λ (lamps : ℕ → ℕ).
                if b == bank && i == index then lights bank operation else bit i (lamps b))
              opened.1,
      ap (λ (lamps : ℕ → ℕ). bit i (lamps b)) done.1
          ∙ lem.1
          ∙ ap
              (λ (lamps : ℕ → ℕ).
                if b == bank && i == index then operation == 2 else bit i (lamps b))
              opened.2,
    )
