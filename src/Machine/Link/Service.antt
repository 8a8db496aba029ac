-- ===== src/Machine/Link/Service.antt =====
-- native/rom_probe.c, lines 1288 to 1401: the controller of the keypad keeps up with the main machine.
use ensoniq_eps_16_plus.Base.{
  ℕ, zero, suc, ◌+◌, ◌-◌, ◌/◌, ◌^◌, ◌≤◌, ◌<◌, ◌≡◌, ◌⊎◌, inl, inr, refl, ◌∙◌, arith, ◌==◌, nonzero,
  ltb, if◌then◌else◌, bit_and, Bool-cases, Bool, true, false, not, ◌&&◌, ◌||◌, some,
}
use ensoniq_eps_16_plus.Kpc.Device.Board.{Board, KpcDevice}
use ensoniq_eps_16_plus.Kpc.Device.Serial.{kpc_device_transmit}
use ensoniq_eps_16_plus.Kpc.Device.Panel.{
  kpc_device_panel_transition, kpc_device_panel_transition_complete,
}
use ensoniq_eps_16_plus.Kpc.Device.Step.{kpc_device_step}
use ensoniq_eps_16_plus.Kpc.Device.Invariant.{
  IsBoard, IsBoard-complete, IsBoard-transmit, IsBoard-panel_transition,
}
use ensoniq_eps_16_plus.Kpc.Device.Running.{IsDevice, IsDevice-step}
use ensoniq_eps_16_plus.Kpc.Device.Progress.{Later, kpc_device_step-Later}
use ensoniq_eps_16_plus.Machine.Link.{Link}
use ensoniq_eps_16_plus.Machine.Link.Physical.{
  prepare_scan, kpc_execution_start_physical, follow_key, forward, drain_rounds,
  kpc_execution_drain_transmit, execute_rounds, kpc_execution_service,
}

-- The controller is sound, and its clock and its stop are those of the first state.
record Beside (l r : Link) : Type 0 where
  pub sound : IsDevice r.kpc_device
  pub clock : r.kpc_device.cycles ≡ l.kpc_device.cycles
  pub stop : r.kpc_device.illegal ≡ l.kpc_device.illegal

IsBoard-prepare_scan :
    (pressed : Bool) (d : Board)
    → IsBoard d
    → d.panel_transition_phase ≡ 1
    → IsBoard (prepare_scan pressed d)
unfolding prepare_scan
IsBoard-prepare_scan pressed d h one = ground (arith, h.rx, h.tx, h.panel)

transition-phase :
    (d : Board) (code : ℕ) (pressed : Bool)
    → let r = kpc_device_panel_transition d code pressed in
      r.0 ≡ true → r.1.panel_transition_phase ≡ 1
unfolding kpc_device_panel_transition
transition-phase d code pressed = ground arith

-- The controller with another board.
IsDevice-board :
    (device : KpcDevice) (d : Board)
    → IsDevice device
    → IsBoard d
    → IsDevice (record device { mem = d })
IsDevice-board device d h board = record { words = omega (arith, h.words); board = board }

start_physical-Beside :
    (cycle : ℕ) (l : Link) → IsDevice l.kpc_device → Beside l (kpc_execution_start_physical cycle l)
unfolding kpc_execution_start_physical
start_physical-Beside cycle l h =
    let code = l.physical_queue.bytes l.physical_queue.read in
    let pressed = nonzero (bit_and code 0x80) in
    let d = l.kpc_device.mem in
    let begun = kpc_device_panel_transition d (bit_and code 0x3f) pressed in
    let board = IsBoard-panel_transition (bit_and code 0x3f) pressed d h.board in
    let phase = transition-phase d (bit_and code 0x3f) pressed in
    let idle =
      l.physical_active || l.physical_queue.count == 0 || ltb cycle l.physical_next_cycle in
    elim (Bool-cases idle) [
      | inl e ↦ rw e (record { sound = h; clock = refl; stop = refl })
      | inr e ↦ elim (Bool-cases (begun.0)) [
        | inl on ↦ rw e (
            rw on (record {
              sound =
                  IsDevice-board l.kpc_device _ h
                    (IsBoard-prepare_scan pressed (begun.1) board (phase on));
              clock = refl;
              stop = refl;
            }))
        | inr off ↦ rw e (rw off (record { sound = h; clock = refl; stop = refl }))
      ]
    ]

-- A byte that is passed on leaves the controller beside the second state, with as many bytes to send.
forward-Beside :
    (cycle reply : ℕ) (rest : Board) (l : Link)
    → IsDevice l.kpc_device
    → IsBoard rest
    → let r = forward cycle reply rest l in Beside l r × (r.kpc_device.mem.tx_count ≡ rest.tx_count)
unfolding forward follow_key kpc_device_panel_transition_complete
forward-Beside cycle reply rest l h board =
    let completed = IsBoard-complete rest board in
    let with_rest = IsDevice-board l.kpc_device rest h board in
    let with_completed = IsDevice-board l.kpc_device _ h completed in
    elim (Bool-cases
      (l.physical_active && not l.physical_saw_code && reply == l.physical_expected)) [
        | inl e ↦ rw e (record { sound = with_rest; clock = refl; stop = refl }, refl)
        | inr e ↦ elim (Bool-cases (l.physical_active && l.physical_saw_code && reply == 0)) [
          | inl f ↦ rw e (rw f (record { sound = with_completed; clock = refl; stop = refl }, refl))
          | inr f ↦ rw e (rw f (record { sound = with_rest; clock = refl; stop = refl }, refl))
        ]
      ]

Beside-then : (l m r : Link) → Beside l m → Beside m r → Beside l r
Beside-then l m r h k = record {
  sound = k.sound;
  clock = k.clock ∙ h.clock;
  stop = k.stop ∙ h.stop;
}

transmit-some :
    (d : Board)
    → (d.tx_count == 0) ≡ false
    → let r = kpc_device_transmit d in
      (r.0 ≡ some (d.tx d.tx_read)) × (r.1.tx_count ≡ d.tx_count - 1)
unfolding kpc_device_transmit
transmit-some d e = rw e (refl, refl)

-- The rounds for all bytes leave none to send.
drain_rounds-Beside :
    (left cycle : ℕ) (l : Link)
    → IsDevice l.kpc_device
    → l.kpc_device.mem.tx_count ≡ left
    → let r = drain_rounds left cycle l in Beside l r × (r.kpc_device.mem.tx_count ≡ 0)
unfolding drain_rounds
drain_rounds-Beside zero cycle l h e = (record { sound = h; clock = refl; stop = refl }, e)
drain_rounds-Beside (suc left) cycle l h e =
    let d = l.kpc_device.mem in
    let some_left : (d.tx_count == 0) ≡ false = ground arith in
    let sent = transmit-some d some_left in
    let rest : Board = (kpc_device_transmit d).1 in
    let board = IsBoard-transmit d h.board in
    let next = forward cycle (d.tx d.tx_read) rest l in
    let beside = forward-Beside cycle (d.tx d.tx_read) rest l h board in
    let further =
      drain_rounds-Beside left cycle next (beside.0).sound (beside.1 ∙ sent.1 ∙ omega (arith, e)) in
    rw (sent.0, drain_rounds) (Beside-then l next _ beside.0 further.0, further.1)

drain_transmit-Beside :
    (cycle : ℕ) (l : Link)
    → IsDevice l.kpc_device
    → let r = kpc_execution_drain_transmit cycle l in Beside l r × (r.kpc_device.mem.tx_count ≡ 0)
unfolding kpc_execution_drain_transmit
drain_transmit-Beside cycle l h = drain_rounds-Beside l.kpc_device.mem.tx_count cycle l h refl

-- The controller has reached a cycle of its own clock, at most 52 cycles late where the rounds have
-- moved it, or has stopped.
abbrev pub Reaches : ℕ → KpcDevice → KpcDevice → Type 0
Reaches target c d =
    ((target ≤ d.cycles) × ((d.cycles ≡ c.cycles) ⊎ (d.cycles < target + 53))) ⊎ (d.illegal ≡ true)

-- What follows a step in the round.
after_step :
    (active : Bool) (cycle : ℕ) (c : KpcDevice) (stepped : Link)
    → IsDevice stepped.kpc_device
    → Later 1 53 c stepped.kpc_device
    → let r : Link = if active then kpc_execution_drain_transmit cycle stepped else stepped in
      IsDevice r.kpc_device × Later 1 53 c r.kpc_device
after_step false cycle c stepped sound later = (sound, later)
after_step true cycle c stepped sound later =
    let beside = (drain_transmit-Beside cycle stepped sound).0 in
    (
      beside.sound,
      elim later [
        | inl moved ↦ inl (omega (arith, moved, beside.clock), omega (arith, moved, beside.clock))
        | inr stopped ↦ inr (beside.stop ∙ stopped)
      ],
    )

execute_rounds-stopped :
    (left cycle : ℕ) (l : Link) → l.kpc_device.illegal ≡ true → execute_rounds left cycle l ≡ l
unfolding execute_rounds
execute_rounds-stopped zero cycle l e = refl
execute_rounds-stopped (suc left) cycle l e =
    let stay : (ltb l.kpc_device.cycles (cycle / 5) && not l.kpc_device.illegal) ≡ false =
      ground (arith, e) in
    rw (stay, execute_rounds) refl

execute_rounds-Reaches :
    (left cycle : ℕ) (l : Link)
    → cycle < 2 ^ 64
    → IsDevice l.kpc_device
    → cycle / 5 ≤ l.kpc_device.cycles + left
    → let r = execute_rounds left cycle l in
      IsDevice r.kpc_device × Reaches (cycle / 5) l.kpc_device r.kpc_device
unfolding execute_rounds
execute_rounds-Reaches zero cycle l below h enough = (h, inl (omega arith, inl refl))
execute_rounds-Reaches (suc left) cycle l below h enough =
    let stepped : Link = record l { kpc_device = (kpc_device_step l.kpc_device).1 } in
    let next : Link =
      if l.physical_active then kpc_execution_drain_transmit cycle stepped else stepped in
    elim (Bool-cases (ltb l.kpc_device.cycles (cycle / 5) && not l.kpc_device.illegal)) [
      | inl more ↦
          let early : l.kpc_device.cycles < cycle / 5 = ground (arith, more) in
          let later =
            after_step l.physical_active cycle l.kpc_device stepped (IsDevice-step l.kpc_device h)
              (kpc_device_step-Later l.kpc_device h (omega (arith, early))) in
          rw (more, execute_rounds)
            (elim later.1 [
              | inl moved ↦
                  let further =
                    execute_rounds-Reaches left cycle next below later.0
                      (omega (arith, moved, enough)) in
                  (
                    further.0,
                    elim further.1 [
                      | inl there ↦ inl (there.0, inr (ground (arith, there, moved, early)))
                      | inr stopped ↦ inr stopped
                    ],
                  )
              | inr stopped ↦
                  rw (execute_rounds-stopped left cycle next stopped) (later.0, inr stopped)
            ])
      | inr stay ↦ rw (stay, execute_rounds) (h, ground (arith, stay))
    ]

-- At any cycle of the main machine below 2^64, and from a controller in its invariant:
-- kpc_execution_service, which starts a key that waits, runs the controller and passes on what it
-- sends, leaves the controller in the invariant and with nothing left to send; and its clock has
-- reached a fifth of the cycle, and has not moved or is less than 53 cycles past it, or its
-- processor has met an illegal opcode.
pub kpc_execution_service_lem :
    (cycle : ℕ) (l : Link)
    → cycle < 2 ^ 64
    → IsDevice l.kpc_device
    → let r = kpc_execution_service cycle l in
      IsDevice r.kpc_device
      × Reaches (cycle / 5) l.kpc_device r.kpc_device
      × (r.kpc_device.mem.tx_count ≡ 0)
unfolding kpc_execution_service
kpc_execution_service_lem cycle l below h =
    let begun = start_physical-Beside cycle l h in
    let ready = kpc_execution_start_physical cycle l in
    let reached = execute_rounds-Reaches (cycle / 5) cycle ready below begun.sound (omega arith) in
    let sent = drain_transmit-Beside cycle (execute_rounds (cycle / 5) cycle ready) reached.0 in
    (
      (sent.0).sound,
      elim reached.1 [
        | inl there ↦ inl (ground (arith, there, (sent.0).clock, begun.clock))
        | inr stopped ↦ inr ((sent.0).stop ∙ stopped)
      ],
      sent.1,
    )
