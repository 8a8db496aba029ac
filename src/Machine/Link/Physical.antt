-- ===== src/Machine/Link/Physical.antt =====
-- native/rom_probe.c, lines 1288 to 1418: the keys that wait for the controller of the keypad, the
-- bytes that it sends, and its share of the time. The environment variables that change the
-- transfers and the hold are not set.
use ensoniq_eps_16_plus.Base.{
  ℕ, zero, suc, ◌+◌, ◌-◌, ◌/◌, ◌==◌, nonzero, ltb, if◌then◌else◌, u64, bit_and, Bool, true, false,
  not, ◌&&◌, ◌||◌, List, [], ◌∷◌, Option, none, some,
}
use ensoniq_eps_16_plus.Kpc.Device.Board.{Board}
use ensoniq_eps_16_plus.Kpc.Device.Serial.{kpc_device_transmit}
use ensoniq_eps_16_plus.Kpc.Device.Panel.{
  kpc_device_panel_transition, kpc_device_panel_transition_complete,
}
use ensoniq_eps_16_plus.Kpc.Device.Step.{kpc_device_step}
use ensoniq_eps_16_plus.Machine.Serial.{
  Ring, put_byte, drop_byte, panel_schedule_at, panel_byte_cycles,
}
use ensoniq_eps_16_plus.Machine.Link.{Link}

-- The release of a key is scanned in a phase of its own.
unfoldable pub prepare_scan : Bool → Board → Board
prepare_scan pressed d = if pressed then record d { panel_transfers_remaining = 1 } else record d {
  panel_transition_phase = 6;
  panel_transfers_remaining = 1;
  panel_scan_command = 0;
  panel_scan_command_valid = false;
  spi_receive_value = 0;
}

unfoldable pub kpc_execution_start_physical : ℕ → Link → Link
unfolding prepare_scan
kpc_execution_start_physical cycle l =
    let code = l.physical_queue.bytes l.physical_queue.read in
    let pressed = nonzero (bit_and code 0x80) in
    let taken : Link = record l {
      physical_expected = code;
      physical_queue = drop_byte l.physical_queue;
    } in
    let begun : Bool × Board =
      kpc_device_panel_transition l.kpc_device.mem (bit_and code 0x3f) pressed in
    if l.physical_active || l.physical_queue.count == 0 || ltb cycle l.physical_next_cycle
    then l
    else if not begun.0
    then taken
    else record taken {
      kpc_device = record l.kpc_device { mem = prepare_scan pressed (begun.1) };
      physical_active = true;
      physical_saw_code = false;
    }

-- A byte from the controller: the code of the key that is being pressed, the 0 after it, or another.
unfoldable pub follow_key : ℕ → ℕ → Link → Link
follow_key cycle reply l =
    if l.physical_active && not l.physical_saw_code && reply == l.physical_expected
    then record l { physical_saw_code = true }
    else if l.physical_active && l.physical_saw_code && reply == 0
    then record l {
      kpc_device = record l.kpc_device {
        mem = kpc_device_panel_transition_complete l.kpc_device.mem;
      };
      physical_active = false;
      physical_saw_code = false;
      physical_next_cycle = u64 (cycle + 1000000);
    }
    else l

-- One byte that the controller has sent goes on the wire.
unfoldable pub forward : ℕ → ℕ → Board → Link → Link
forward cycle reply rest l =
    let followed =
      follow_key cycle reply (record l { kpc_device = record l.kpc_device { mem = rest } }) in
    record followed {
      serial = (panel_schedule_at reply (u64 (cycle + panel_byte_cycles)) followed.serial).1;
    }

-- The loop over the bytes that the controller has sent, with the bytes left.
unfoldable pub drain_rounds : ℕ → ℕ → Link → Link
drain_rounds zero cycle l = l
drain_rounds (suc left) cycle l =
    let sent : Option ℕ × Board = kpc_device_transmit l.kpc_device.mem in
    elim sent.0 [ some reply ↦ drain_rounds left cycle (forward cycle reply (sent.1) l) | none ↦ l ]

unfoldable pub kpc_execution_drain_transmit : ℕ → Link → Link
kpc_execution_drain_transmit cycle l = drain_rounds l.kpc_device.mem.tx_count cycle l

-- The loop over the controller's instructions, on fuel: each takes a cycle at least.
unfoldable pub execute_rounds : ℕ → ℕ → Link → Link
execute_rounds zero cycle l = l
execute_rounds (suc left) cycle l =
    let stepped : Link = record l { kpc_device = (kpc_device_step l.kpc_device).1 } in
    let drained =
      if l.physical_active then kpc_execution_drain_transmit cycle stepped else stepped in
    elim (ltb l.kpc_device.cycles (cycle / 5) && not l.kpc_device.illegal) [
      | true ↦ execute_rounds left cycle drained
      | false ↦ l
    ]

unfoldable pub kpc_execution_service : ℕ → Link → Link
kpc_execution_service cycle l =
    kpc_execution_drain_transmit cycle
      (execute_rounds (cycle / 5) cycle (kpc_execution_start_physical cycle l))

-- The loop over the pairs of a packet, up to one whose second byte is not 0.
unfoldable queue_pairs : List (ℕ × ℕ) → Ring → Bool × Ring
queue_pairs [] r = (true, r)
queue_pairs ((code, second) ∷ rest) r =
    let further = queue_pairs rest (put_byte code r) in
    if nonzero second then (false, r) else further

-- The pairs of a packet; one of an odd length has none.
unfoldable pub pairs_of : List ℕ → Option (List (ℕ × ℕ))
pairs_of [] = some []
pairs_of (code ∷ []) = none
pairs_of (code ∷ second ∷ rest) = elim (pairs_of rest) [
  | some pairs ↦ some ((code, second) ∷ pairs)
  | none ↦ none
]

abbrev pub length {ℓ} : {A : Type ℓ} → List A → ℕ
length [] = 0
length (x ∷ xs) = suc (length xs)

unfoldable queue_packet : List (ℕ × ℕ) → ℕ → Link → Bool × Link
unfolding queue_pairs
queue_packet pairs cycle l =
    let queued : Bool × Ring = queue_pairs pairs l.physical_queue in
    let filled : Link = record l { physical_queue = queued.1 } in
    if ltb (256 - l.physical_queue.count) (length pairs)
    then (false, l)
    else if not queued.0
    then (false, filled)
    else (
      true,
      record filled {
        physical_next_cycle =
            if not l.physical_active && l.physical_next_cycle == 0
            then cycle
            else l.physical_next_cycle;
      },
    )

unfoldable pub kpc_execution_panel_packet : List ℕ → ℕ → Link → Bool × Link
unfolding queue_packet
kpc_execution_panel_packet bytes cycle l = elim (pairs_of bytes) [
  | some pairs ↦ queue_packet pairs cycle l
  | none ↦ (false, l)
]
