-- ===== src/Machine/Link.antt =====
-- native/rom_probe.c, lines 1607 to 2080: the writes of the serial controller, with the display of
-- the panel and the controller of the keypad, or its stand-in, at the other end. The traces and the
-- host's own display are left out, and so is the end of the processor's time slice.
pub mod Physical
pub mod Rings
pub mod Channel
pub mod Service
mod Tests
use ensoniq_eps_16_plus.Base.{
  ℕ, zero, suc, ◌+◌, ◌-◌, ◌*◌, ◌/◌, ◌%◌, ◌^◌, ◌==◌, nonzero, ltb, leb, if◌then◌else◌, u64, bit_and,
  bit_or, Bool, true, false, not, ◌&&◌, ◌||◌, update, List, [], ◌∷◌, Option, none, some,
}
use ensoniq_eps_16_plus.M68hc11.Core.{Core}
use ensoniq_eps_16_plus.Kpc.Legacy.{
  KpcLegacy, kpc_legacy_reply, kpc_legacy_observe_tx, kpc_legacy_cancel_load,
}
use ensoniq_eps_16_plus.Kpc.Device.Board.{KpcDevice}
use ensoniq_eps_16_plus.Kpc.Device.Serial.{kpc_device_receive}
use ensoniq_eps_16_plus.Machine.Serial.{
  Serial, Ring, panel_schedule_at, panel_byte_cycles, midi_byte_cycles, duart_timer_start,
  duart_refresh_irq_line,
}
use ensoniq_eps_16_plus.Machine.Panel.State.{Panel}
use ensoniq_eps_16_plus.Machine.Panel.Write.{panel_write}

pub record Link : Type 0 where
  pub serial : Serial
  pub panel : Panel
  pub kpc : KpcLegacy
  pub kpc_device : KpcDevice
  pub kpc_firmware_execution : Bool
  pub midi_tx : ℕ → ℕ
  pub midi_tx_count : ℕ
  pub panel_tx : ℕ → ℕ
  pub panel_tx_count : ℕ
  pub pick_instrument_seen : Bool
  pub file_loaded_seen : Bool
  pub duart_output : ℕ
  pub physical_queue : Ring
  pub physical_expected : ℕ
  pub physical_active : Bool
  pub physical_saw_code : Bool
  pub physical_next_cycle : ℕ

-- `strstr` on the display, whose text ends at cell 22: does a text begin at a cell, and at one of
-- the cells from `from` on?
abbrev begins_at : List ℕ → (ℕ → ℕ) → ℕ → Bool
begins_at [] display cell = true
begins_at (c ∷ cs) display cell = display cell == c && begins_at cs display (cell + 1)

unfoldable pub occurs : ℕ → ℕ → List ℕ → (ℕ → ℕ) → Bool
occurs zero from text display = false
occurs (suc left) from text display =
    begins_at text display from || occurs left (from + 1) text display

-- "PICK INSTRUMENT BUTTON" and "FILE LOADED".
abbrev pick_instrument : List ℕ
pick_instrument =
    0x50 ∷ 0x49 ∷ 0x43 ∷ 0x4b ∷ 0x20 ∷ 0x49 ∷ 0x4e ∷ 0x53 ∷ 0x54 ∷ 0x52 ∷ 0x55 ∷ 0x4d ∷ 0x45 ∷ 0x4e
    ∷ 0x54 ∷ 0x20 ∷ 0x42 ∷ 0x55 ∷ 0x54 ∷ 0x54 ∷ 0x4f ∷ 0x4e ∷ []

abbrev file_loaded : List ℕ
file_loaded = 0x46 ∷ 0x49 ∷ 0x4c ∷ 0x45 ∷ 0x20 ∷ 0x4c ∷ 0x4f ∷ 0x41 ∷ 0x44 ∷ 0x45 ∷ 0x44 ∷ []

-- The texts that the machine looks for. The first has 22 characters, the second 11.
unfoldable pub notice_texts : Link → Link
notice_texts l =
    let loaded = occurs 12 0 file_loaded l.panel.display in
    record l {
      pick_instrument_seen = l.pick_instrument_seen || begins_at pick_instrument l.panel.display 0;
      file_loaded_seen = l.file_loaded_seen || loaded;
      kpc = if loaded then kpc_legacy_cancel_load l.kpc else l.kpc;
    }

-- The stand-in's reply, and its sign that it is ready.
unfoldable legacy_answer : ℕ → ℕ → Link → Link
legacy_answer cycle value l =
    let at = u64 (cycle + panel_byte_cycles) in
    let replied : ℕ × KpcLegacy = kpc_legacy_reply l.kpc value in
    let sent = (panel_schedule_at (replied.0) at l.serial).1 in
    let observed : Bool × KpcLegacy = kpc_legacy_observe_tx (replied.1) value in
    record l {
      kpc = observed.1;
      serial = if observed.0 then (panel_schedule_at 0xff at sent).1 else sent;
    }

-- A byte that the firmware's queue has no room for is lost.
unfoldable pub deliver : ℕ → ℕ → Link → Link
unfolding legacy_answer
deliver cycle value l =
    if l.kpc_firmware_execution
    then record l {
      kpc_device = record l.kpc_device { mem = (kpc_device_receive l.kpc_device.mem value).1 };
    }
    else legacy_answer cycle value l

-- THRB: a byte for the panel.
unfoldable send_panel : ℕ → ℕ → ℕ → Link → Link
send_panel now cycle value l =
    let s = duart_refresh_irq_line (record l.serial {
      tx_b_ready = false;
      tx_b_ready_cycle = u64 (cycle + panel_byte_cycles);
    }) in
    let has_room = ltb l.panel_tx_count 1024 in
    deliver cycle value (
      notice_texts (record l {
        serial = s;
        panel_tx = if has_room then update l.panel_tx l.panel_tx_count value else l.panel_tx;
        panel_tx_count = if has_room then l.panel_tx_count + 1 else l.panel_tx_count;
        panel = panel_write now value l.panel;
      }))

-- THRA: a byte for the MIDI output.
unfoldable send_midi : ℕ → ℕ → Link → Link
send_midi cycle value l =
    let has_room = ltb l.midi_tx_count 256 in
    record l {
      midi_tx = if has_room then update l.midi_tx l.midi_tx_count value else l.midi_tx;
      midi_tx_count = if has_room then l.midi_tx_count + 1 else l.midi_tx_count;
      serial = duart_refresh_irq_line (record l.serial {
        tx_a_ready = false;
        tx_a_ready_cycle = u64 (cycle + midi_byte_cycles);
      });
    }

-- A command that switches on by one bit and off by another, which has the last word.
abbrev switched : ℕ → ℕ → ℕ → Bool → Bool
switched value on off before =
    if nonzero (bit_and value off) then false else nonzero (bit_and value on) || before

-- CRA and CRB.
unfoldable command_a : ℕ → Serial → Serial
command_a value s = duart_refresh_irq_line (record s {
  rx_a_enabled = switched value 0x01 0x02 s.rx_a_enabled;
  midi_rx =
      if bit_and value 0x70 == 0x20
      then record s.midi_rx { read = 0; write = 0; count = 0 }
      else s.midi_rx;
  tx_a_enabled = switched value 0x04 0x08 s.tx_a_enabled;
})

unfoldable command_b : ℕ → Serial → Serial
command_b value s =
    duart_refresh_irq_line (record s { tx_b_enabled = switched value 0x04 0x08 s.tx_b_enabled })

-- A write at the cycle `cycle` of the bus, when the slice of the processor began at `now`.
unfoldable pub duart_write : ℕ → ℕ → ℕ → ℕ → Link → Link
unfolding send_panel send_midi command_a command_b
duart_write now cycle address word l =
    let reg = bit_and ((address - 0x280000) / 2) 15 in
    let value = bit_and word 0xff in
    let old = l.serial.duart_registers reg in
    let s : Serial = record l.serial {
      duart_registers = update l.serial.duart_registers reg value;
    } in
    let written : Link = record l { serial = s } in
    if reg == 4
    then (if not (nonzero (bit_and old 0x40)) && nonzero (bit_and value 0x40)
        then record l { serial = duart_timer_start cycle s }
        else written)
    else if reg == 2
    then record l { serial = command_a value s }
    else if reg == 3
    then send_midi cycle value written
    else if reg == 10
    then record l { serial = command_b value s }
    else if reg == 11
    then send_panel now cycle value written
    else if reg == 14
    then record written { duart_output = bit_or l.duart_output value }
    else if reg == 15
    then record written { duart_output = bit_and l.duart_output (2 ^ 32 - 1 - value) }
    else if reg == 5
    then record l { serial = duart_refresh_irq_line s }
    else written
