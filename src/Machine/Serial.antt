-- ===== src/Machine/Serial.antt =====
-- native/rom_probe.c, lines 1254 to 1286, 1420 to 1513 and 1529 to 1578: the reads of the serial
-- controller, its timer, and the bytes that are on their way to it. The traces are left out, and
-- of the processor only the level of the interrupt line is kept.
use ensoniq_eps_16_plus.Base.{
  ℕ, zero, suc, ◌+◌, ◌-◌, ◌*◌, ◌/◌, ◌%◌, ◌^◌, ◌==◌, ltb, leb, if◌then◌else◌, nonzero, as_int, u64,
  bit_and, bit_or, Bool, true, false, not, ◌&&◌, ◌||◌, update,
}

-- A ring of bytes, and one of bytes with the cycles at which they arrive.
pub record Ring : Type 0 where
  pub bytes : ℕ → ℕ
  pub read : ℕ
  pub write : ℕ
  pub count : ℕ

pub record Wire : Type 0 where
  pub arrivals : ℕ → ℕ
  pub bytes : ℕ → ℕ
  pub read : ℕ
  pub write : ℕ
  pub count : ℕ
  pub tail_cycle : ℕ

pub record Serial : Type 0 where
  pub duart_registers : ℕ → ℕ
  pub irq_level : ℕ
  pub tx_a_enabled : Bool
  pub tx_a_ready : Bool
  pub tx_a_ready_cycle : ℕ
  pub tx_b_enabled : Bool
  pub tx_b_ready : Bool
  pub tx_b_ready_cycle : ℕ
  pub rx_a_enabled : Bool
  pub panel_rx : Ring
  pub panel_rx_consumed : ℕ
  pub panel_wire : Wire
  pub midi_rx : Ring
  pub midi_rx_consumed : ℕ
  pub midi_wire : Wire
  pub timer_pending : Bool
  pub timer_running : Bool
  pub timer_next_cycle : ℕ
  pub disk_loaded : Bool
  pub disk_change_pending : Bool

abbrev panel_rx_size : ℕ
panel_rx_size = 256

abbrev pub panel_byte_cycles : ℕ
panel_byte_cycles = 1760

abbrev pub midi_byte_cycles : ℕ
midi_byte_cycles = 3200

-- A byte goes into a ring of 256, and the oldest leaves it.
abbrev pub put_byte : ℕ → Ring → Ring
put_byte value r = record r {
  bytes = update r.bytes r.write value;
  write = (r.write + 1) % 256;
  count = r.count + 1;
}

abbrev pub drop_byte : Ring → Ring
drop_byte r = record r { read = (r.read + 1) % 256; count = r.count - 1 }

unfoldable pub panel_enqueue : ℕ → Ring → Bool × Ring
panel_enqueue value r = if r.count == panel_rx_size then (false, r) else (true, put_byte value r)

-- A byte starts on a wire of `size` places: it takes `byte_cycles`, after the byte before it.
abbrev pub schedule : ℕ → ℕ → ℕ → ℕ → Wire → Bool × Wire
schedule size byte_cycles value cycle w =
    let soonest = u64 (cycle + byte_cycles) in
    let arrival =
      if nonzero w.count && leb soonest w.tail_cycle
      then u64 (w.tail_cycle + byte_cycles)
      else soonest in
    if w.count == size then (false, w) else (
      true,
      record w {
        arrivals = update w.arrivals w.write arrival;
        bytes = update w.bytes w.write value;
        write = (w.write + 1) % size;
        count = w.count + 1;
        tail_cycle = arrival;
      },
    )

unfoldable pub panel_schedule_at : ℕ → ℕ → Serial → Bool × Serial
panel_schedule_at value cycle s =
    let scheduled : Bool × Wire = schedule 4096 panel_byte_cycles value cycle s.panel_wire in
    (scheduled.0, record s { panel_wire = scheduled.1 })

unfoldable pub midi_schedule_at : ℕ → ℕ → Serial → Bool × Serial
midi_schedule_at value cycle s =
    let scheduled : Bool × Wire = schedule 256 midi_byte_cycles value cycle s.midi_wire in
    (scheduled.0, record s { midi_wire = scheduled.1 })

-- The oldest byte of a wire, and whether it has arrived.
abbrev pub has_arrived : ℕ → Wire → Bool
has_arrived cycle w = nonzero w.count && leb (w.arrivals w.read) cycle

abbrev pub leave_wire : ℕ → Wire → Wire
leave_wire size w = record w { read = (w.read + 1) % size; count = w.count - 1 }

-- The loops over the bytes that have arrived, with as many rounds as the wire has bytes.
unfoldable pub panel_rounds : ℕ → ℕ → Serial → Serial
panel_rounds zero cycle s = s
panel_rounds (suc left) cycle s =
    let taken : Serial = record s {
      panel_rx = (panel_enqueue (s.panel_wire.bytes s.panel_wire.read) s.panel_rx).1;
      panel_wire = leave_wire 4096 s.panel_wire;
    } in
    elim (has_arrived cycle s.panel_wire && ltb s.panel_rx.count panel_rx_size) [
      | true ↦ panel_rounds left cycle taken
      | false ↦ s
    ]

unfoldable pub panel_service_wire : ℕ → Serial → Serial
panel_service_wire cycle s = panel_rounds s.panel_wire.count cycle s

-- A MIDI byte is lost if the receiver is off or full.
unfoldable pub midi_rounds : ℕ → ℕ → Serial → Serial
midi_rounds zero cycle s = s
midi_rounds (suc left) cycle s =
    let value = s.midi_wire.bytes s.midi_wire.read in
    let taken : Serial = record s {
      midi_wire = leave_wire 256 s.midi_wire;
      midi_rx =
          if s.rx_a_enabled && ltb s.midi_rx.count 256 then put_byte value s.midi_rx else s.midi_rx;
    } in
    elim (has_arrived cycle s.midi_wire) [ true ↦ midi_rounds left cycle taken | false ↦ s ]

unfoldable pub midi_service_wire : ℕ → Serial → Serial
midi_service_wire cycle s = midi_rounds s.midi_wire.count cycle s

unfoldable pub duart_timer_period_cycles : Serial → ℕ
duart_timer_period_cycles s =
    let preset = bit_or (s.duart_registers 6 * 2 ^ 8) (s.duart_registers 7) in
    let count = if preset == 0 then 1 else preset in
    let mode = bit_and (s.duart_registers 4 / 2 ^ 4) 3 in
    let timer_rate = if mode == 3 then 5000000 / 16 else 5000000 in
    (2 * count * 10000000 + timer_rate - 1) / timer_rate

unfoldable pub duart_timer_start : ℕ → Serial → Serial
duart_timer_start cycle s = record s {
  timer_running = true;
  timer_next_cycle = u64 (cycle + duart_timer_period_cycles s);
}

-- The loop that brings the timer past the cycle, with the rounds left.
unfoldable pub next_timeout : ℕ → ℕ → ℕ → ℕ → ℕ
next_timeout zero period cycle next = next
next_timeout (suc left) period cycle next =
    let later = u64 (next + period) in
    elim (leb later cycle) [ true ↦ next_timeout left period cycle later | false ↦ later ]

unfoldable pub duart_service_time : ℕ → Serial → Serial
duart_service_time cycle s =
    let ready : Serial = record s {
      tx_a_ready = s.tx_a_ready || leb s.tx_a_ready_cycle cycle;
      tx_b_ready = s.tx_b_ready || leb s.tx_b_ready_cycle cycle;
    } in
    let t = midi_service_wire cycle (panel_service_wire cycle ready) in
    if t.timer_running && leb t.timer_next_cycle cycle
    then record t {
      timer_pending = true;
      timer_next_cycle =
          next_timeout (cycle + 1) (duart_timer_period_cycles t) cycle t.timer_next_cycle;
    }
    else t

unfoldable pub duart_interrupt_status : Serial → ℕ
duart_interrupt_status s =
    as_int (s.tx_a_enabled && s.tx_a_ready)
    + as_int (nonzero s.midi_rx.count) * 0x02
    + as_int s.timer_pending * 0x08
    + as_int (s.tx_b_enabled && s.tx_b_ready) * 0x10
    + as_int (nonzero s.panel_rx.count) * 0x20

unfoldable pub duart_refresh_irq_line : Serial → Serial
duart_refresh_irq_line s = record s {
  irq_level = if nonzero (bit_and (duart_interrupt_status s) (s.duart_registers 5)) then 3 else 0;
}

unfoldable pub panel_dequeue : Serial → ℕ × Serial
panel_dequeue s =
    let taken = duart_refresh_irq_line (record s { panel_rx = drop_byte s.panel_rx }) in
    if s.panel_rx.count == 0 then (0, s) else (
      s.panel_rx.bytes s.panel_rx.read,
      record taken { panel_rx_consumed = taken.panel_rx_consumed + 1 },
    )

-- The oldest MIDI byte.
unfoldable pub midi_dequeue : Serial → ℕ × Serial
midi_dequeue s = if s.midi_rx.count == 0 then (0, s) else (
  s.midi_rx.bytes s.midi_rx.read,
  duart_refresh_irq_line
      (record s { midi_rx = drop_byte s.midi_rx; midi_rx_consumed = s.midi_rx_consumed + 1 }),
)

-- The status of a channel: it can send, and it has a byte.
abbrev channel_status : Bool → Ring → ℕ
channel_status sends r = as_int sends * 0x0c + as_int (nonzero r.count)

-- A register is read at the cycle `now` of the bus.
unfoldable pub duart_read : ℕ → ℕ → Serial → ℕ × Serial
duart_read now address before =
    let s = duart_service_time now before in
    let reg = bit_and ((address - 0x280000) / 2) 15 in
    let stopped : Serial = record s {
      timer_pending = false;
      timer_running =
          if nonzero (bit_and (s.duart_registers 4) 0x40) then s.timer_running else false;
    } in
    if reg == 5
    then (duart_interrupt_status s, s)
    else if reg == 1
    then (channel_status (s.tx_a_enabled && s.tx_a_ready) s.midi_rx, s)
    else if reg == 3
    then midi_dequeue s
    else if reg == 9
    then (channel_status (s.tx_b_enabled && s.tx_b_ready) s.panel_rx, s)
    else if reg == 11
    then panel_dequeue s
    else if reg == 13
    then (
      as_int (not s.disk_change_pending) * 0x02 + as_int (not s.disk_loaded),
      record s { disk_change_pending = false },
    )
    else if reg == 14
    then (0, duart_timer_start now s)
    else if reg == 15
    then (0, duart_refresh_irq_line stopped)
    else (s.duart_registers reg, s)
