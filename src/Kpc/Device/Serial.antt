-- ===== src/Kpc/Device/Serial.antt =====
-- native/kpc_device.c, lines 48 to 75 and 248 to 264: the serial port and its two queues.
use ensoniq_eps_16_plus.Base.{
  ℕ, ◌+◌, ◌-◌, ◌*◌, ◌/◌, ◌%◌, ◌^◌, ◌==◌, nonzero, if◌then◌else◌, u8, u64, bit_and, bit_or, Bool,
  true, false, ◌&&◌, update, Option, none, some, [], ◌∷◌,
}
use ensoniq_eps_16_plus.Base.Switch.{switch}
use ensoniq_eps_16_plus.Kpc.Device.Board.{Board, queue_size, sci_baud}

unfoldable pub sci_character_cycles : Board → ℕ
unfolding switch
sci_character_cycles d =
    let baud = d.writable sci_baud in
    let prescaler = switch (bit_and (baud / 2 ^ 4) 3) ((0, 1) ∷ (1, 3) ∷ (2, 4) ∷ []) 13 in
    let divider = 2 ^ bit_and baud 7 in 11 * 16 * prescaler * divider

unfoldable pub sci_status_value : Board → ℕ
sci_status_value d = u8 (
    bit_or
      (bit_or (if d.sci_tx_pending then 0 else 0x80)
        (if nonzero d.sci_tx_cycles_remaining then 0 else 0x40))
      (if nonzero d.rx_count then 0x20 else 0))

unfoldable pub sci_start_transmit : Board → ℕ → Board
sci_start_transmit d value = if d.tx_count == queue_size then d else record d {
  sci_recent_tx = update d.sci_recent_tx (bit_and d.sci_tx_total 0xff) value;
  sci_tx_total = u64 (d.sci_tx_total + 1);
  tx = update d.tx d.tx_write value;
  tx_write = (d.tx_write + 1) % queue_size;
  tx_count = d.tx_count + 1;
  sci_tx_cycles_remaining = sci_character_cycles d;
  capture_period = if value == 0xc9 && d.capture_mode == 2 then 0 else d.capture_period;
}

-- `false` is the 0 that the function returns on a full queue.
unfoldable pub kpc_device_receive : Board → ℕ → Bool × Board
kpc_device_receive d value = if d.rx_count == queue_size then (false, d) else (
  true,
  record d {
    sci_recent_rx = update d.sci_recent_rx (bit_and d.sci_rx_total 0xff) value;
    sci_rx_total = u64 (d.sci_rx_total + 1);
    rx = update d.rx d.rx_write value;
    rx_write = (d.rx_write + 1) % queue_size;
    rx_count = d.rx_count + 1;
  },
)

-- `none` is the 0 of an empty queue, else the byte that goes through `value`.
unfoldable pub kpc_device_transmit : Board → Option ℕ × Board
kpc_device_transmit d = if d.tx_count == 0 then (none, d) else (
  some (d.tx d.tx_read),
  record d { tx_read = (d.tx_read + 1) % queue_size; tx_count = d.tx_count - 1 },
)
