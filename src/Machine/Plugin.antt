-- ===== src/Machine/Plugin.antt =====
-- vst3/ProbeMachine.c, lines 338 to 353 and 711 to 870: what the plug-in's host hands to the machine and
-- takes from it. The cycle of the bus is a parameter, and the machine is initialized.
pub mod AudioQueue
pub mod Messages
mod Tests
use ensoniq_eps_16_plus.Base.{
  ℕ, zero, suc, ◌+◌, ◌-◌, ◌*◌, ◌/◌, ◌%◌, ◌^◌, ◌==◌, nonzero, ltb, leb, min, if◌then◌else◌, u64,
  bit_and, Bool, true, false, not, ◌&&◌, ◌||◌, update, List, [], ◌∷◌,
}
use ensoniq_eps_16_plus.Machine.Serial.{Serial, midi_schedule_at}
use ensoniq_eps_16_plus.Machine.Link.{Link}
use ensoniq_eps_16_plus.Machine.Link.Physical.{kpc_execution_panel_packet}

-- The ring of audio frames, of any type, and how many were lost.
pub record AudioRing {ℓ} (A : Type ℓ) : Type ℓ where
  pub frames : ℕ → A
  pub read : ℕ
  pub write : ℕ
  pub drops : ℕ

abbrev queue_capacity : ℕ
queue_capacity = 1024

module _ {ℓ} {A : Type ℓ} where
  -- A full ring loses its oldest frame.
  unfoldable pub plugin_queue_audio : A → AudioRing A → AudioRing A
  plugin_queue_audio frame q =
      let next = (q.write + 1) % queue_capacity in
      let full = next == q.read in
      record q {
        frames = update q.frames q.write frame;
        read = if full then (q.read + 1) % queue_capacity else q.read;
        write = next;
        drops = if full then u64 (q.drops + 1) else q.drops;
      }

  -- The loop that takes frames, with the room that the host has left.
  unfoldable pub eps16_probe_machine_drain_audio : ℕ → AudioRing A → List A × AudioRing A
  eps16_probe_machine_drain_audio zero q = ([], q)
  eps16_probe_machine_drain_audio (suc capacity) q =
      let rest =
        eps16_probe_machine_drain_audio capacity
          (record q { read = (q.read + 1) % queue_capacity }) in
      if q.read == q.write then ([], q) else (q.frames q.read ∷ rest.0, rest.1)

-- The bytes of a message by its status; 0 for a status that is no message of a channel.
unfoldable pub message_size : ℕ → ℕ
message_size status =
    let kind = bit_and status 0xf0 in
    if kind == 0xc0 || kind == 0xd0 then 2 else if leb 0x80 kind && leb kind 0xe0 then 3 else 0

unfoldable pub eps16_probe_machine_midi : ℕ → ℕ → ℕ → ℕ → Serial → Serial
eps16_probe_machine_midi now status data1 data2 s =
    let size = message_size status in
    let two = (midi_schedule_at data1 now ((midi_schedule_at status now s).1)).1 in
    if leb 0xf8 status
    then (midi_schedule_at status now s).1
    else if size == 0 || ltb (256 - size) s.midi_wire.count
    then s
    else if size == 3
    then (midi_schedule_at data2 now two).1
    else two

-- The bytes that the wire takes, and how many.
unfoldable eps16_probe_machine_midi_bytes : ℕ → List ℕ → Serial → ℕ × Serial
eps16_probe_machine_midi_bytes now [] s = (0, s)
eps16_probe_machine_midi_bytes now (byte ∷ bytes) s =
    let sent : Bool × Serial = midi_schedule_at byte now s in
    let rest = eps16_probe_machine_midi_bytes now bytes (sent.1) in
    if sent.0 then (rest.0 + 1, rest.1) else (0, sent.1)

-- The values of an array from an index on.
unfoldable copied : ℕ → ℕ → (ℕ → ℕ) → List ℕ
copied from zero bytes = []
copied from (suc size) bytes = bytes from ∷ copied (from + 1) size bytes

unfoldable eps16_probe_machine_drain_midi_output : ℕ → Link → List ℕ × Link
unfolding copied
eps16_probe_machine_drain_midi_output capacity l =
    let count = min l.midi_tx_count capacity in
    (
      copied 0 count l.midi_tx,
      record l {
        midi_tx = λ i. l.midi_tx (if ltb i (l.midi_tx_count - count) then i + count else i);
        midi_tx_count = l.midi_tx_count - count;
      },
    )

-- A byte of a pair for the keypad waits for the other. `pair` holds the first, if it has come.
unfoldable eps16_probe_machine_panel_byte : ℕ → ℕ → List ℕ → Link → List ℕ × Link
eps16_probe_machine_panel_byte executed value [] l = (value ∷ [], l)
eps16_probe_machine_panel_byte executed value (first ∷ rest) l =
    ([], (kpc_execution_panel_packet (first ∷ value ∷ []) executed l).1)

-- A control of the panel, of ten digits, and how it is read.
unfoldable eps16_probe_machine_analog : ℕ → ℕ → (ℕ → ℕ) → ℕ → ℕ
eps16_probe_machine_analog channel value values =
    if leb 8 channel
    then values
    else update values channel ((if ltb 1023 value then 1023 else value) * 2 ^ 6)

unfoldable eps16_probe_machine_analog_value : ℕ → (ℕ → ℕ) → ℕ
eps16_probe_machine_analog_value channel values =
    if ltb channel 8 then values channel / 2 ^ 6 else 0
