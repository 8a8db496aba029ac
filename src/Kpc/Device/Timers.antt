-- ===== src/Kpc/Device/Timers.antt =====
-- native/kpc_device.c, lines 289 to 370: input captures, the free-running counter, and the clocks of
-- the two serial ports.
use ensoniq_eps_16_plus.Base.{
  ℕ, zero, suc, ◌+◌, ◌-◌, ◌/◌, ◌^◌, ◌==◌, ltb, if◌then◌else◌, u8, u16, u64, bit_and, bit_or,
  bit_xor, Bool, true, false, ◌||◌, update,
}
use ensoniq_eps_16_plus.Kpc.Device.Board.{
  Board, KpcDevice, spi_status, spi_data, timer_flag_1, timer_compare_4, timer_compare_5, port_a,
  device_read16_raw,
}
use ensoniq_eps_16_plus.Kpc.Device.Serial.{sci_start_transmit}

-- The stores of a capture into the register pair at `address`, with the flag `mask`.
unfoldable pub store_capture : ℕ → ℕ → ℕ → Board → Board
store_capture address mask timer_value d =
    let w1 = update d.writable address (u8 (timer_value / 2 ^ 8)) in
    let w2 = update w1 (address + 1) (u8 timer_value) in
    let w3 = update w2 port_a (bit_xor (w2 port_a) mask) in
    record d { writable = update w3 timer_flag_1 (bit_or (w3 timer_flag_1) mask) }

unfoldable pub kpc_device_input_capture : ℕ → ℕ → Board → Bool × Board
kpc_device_input_capture channel timer_value d =
    if channel == 2
    then (true, store_capture 0x1012 0x02 timer_value d)
    else if channel == 3
    then (true, store_capture 0x1014 0x01 timer_value d)
    else (false, d)

unfoldable kpc_device_set_capture_clock : ℕ → ℕ → KpcDevice → KpcDevice
kpc_device_set_capture_clock mode period device =
    let d = device.mem in
    record device {
      mem = record d {
        capture_mode = mode;
        capture_period = period;
        capture_next_cycle = u64 (device.cycles + period);
        capture_count = 0;
      };
    }

-- `if (test) device->writable[TIMER_FLAG_1] |= mask;`
abbrev raise_timer_flag : Bool → ℕ → Board → Board
raise_timer_flag test mask d =
    if test
    then record d {
      writable = update d.writable timer_flag_1 (bit_or (d.writable timer_flag_1) mask);
    }
    else d

unfoldable pub timer_set_compare_flags : Board → Board
timer_set_compare_flags d =
    let d1 = raise_timer_flag (d.timer_counter == device_read16_raw d timer_compare_4) 0x10 d in
    raise_timer_flag (d1.timer_counter == device_read16_raw d1 timer_compare_5) 0x08 d1

unfoldable pub timer_tick : ℕ → Board → Board
timer_tick zero d = d
timer_tick (suc cycles) d =
    timer_tick cycles
      (timer_set_compare_flags (record d { timer_counter = u16 (d.timer_counter + 1) }))

unfoldable pub spi_tick : ℕ → Board → Board
spi_tick cycles d =
    if d.spi_cycles_remaining == 0
    then d
    else if ltb cycles d.spi_cycles_remaining
    then record d { spi_cycles_remaining = d.spi_cycles_remaining - cycles }
    else let w = update d.writable spi_data d.spi_transfer_receive_value in
      record d {
        spi_cycles_remaining = 0;
        spi_recent_rx =
            update d.spi_recent_rx (bit_and d.spi_recent_count 0xff) d.spi_transfer_receive_value;
        spi_recent_count = u64 (d.spi_recent_count + 1);
        writable = update w spi_status (bit_or (w spi_status) 0x80);
      }

-- The pending byte starts when the shift register is free.
unfoldable pub sci_next : Board → Board
sci_next d =
    let d1 = record d { sci_tx_cycles_remaining = 0 } in
    if d.sci_tx_pending
    then sci_start_transmit (record d1 { sci_tx_pending = false }) d.sci_tx_pending_value
    else d1

-- The `while` loop of `sci_tick`, with the rounds that it may still make. A round that goes on
-- takes at least one of `cycles`.
unfoldable pub sci_loop : ℕ → ℕ → Board → Board
sci_loop zero cycles d = d
sci_loop (suc fuel) cycles d =
    let rest = sci_loop fuel (cycles - d.sci_tx_cycles_remaining) (sci_next d) in
    if d.sci_tx_cycles_remaining == 0 || cycles == 0
    then d
    else if ltb cycles d.sci_tx_cycles_remaining
    then record d { sci_tx_cycles_remaining = d.sci_tx_cycles_remaining - cycles }
    else rest

unfoldable pub sci_tick : ℕ → Board → Board
sci_tick cycles d = sci_loop (suc cycles) cycles d
