-- ===== src/Kpc/Device/Bus.antt =====
-- native/kpc_device.c, lines 77 to 197: `device_read8` and `device_write8`, the processor's bus.
use ensoniq_eps_16_plus.Base.{
  ℕ, ◌+◌, ◌-◌, ◌/◌, ◌%◌, ◌^◌, ◌==◌, ltb, leb, if◌then◌else◌, u8, u64, bit_and, true, false, not,
  update,
}
use ensoniq_eps_16_plus.M68hc11.Core.{Bus}
use ensoniq_eps_16_plus.Kpc.Firmware.{firmware_read}
use ensoniq_eps_16_plus.Kpc.Device.Board.{
  Board, queue_size, sci_status, sci_data, spi_status, spi_data, timer_counter_register,
  timer_flag_1,
}
use ensoniq_eps_16_plus.Kpc.Device.Serial.{sci_status_value, sci_start_transmit}
use ensoniq_eps_16_plus.Kpc.Device.Panel.{panel_transfer}

-- A read of SCI_DATA takes the oldest byte of the receive queue.
unfoldable read_sci_data : Board → ℕ × Board
read_sci_data d = if d.rx_count == 0 then (0, d) else (
  d.rx d.rx_read,
  record d { rx_read = (d.rx_read + 1) % queue_size; rx_count = d.rx_count - 1 },
)

unfoldable read_spi_data : Board → ℕ × Board
read_spi_data d =
    let value = d.writable spi_data in
    let status = d.writable spi_status in
    (
      value,
      record d {
        writable =
            if d.spi_status_read
            then update d.writable spi_status (bit_and status (255 - 0x80))
            else d.writable;
        spi_status_read = false;
      },
    )

unfoldable pub device_read8 : Board → ℕ → ℕ × Board
unfolding read_sci_data read_spi_data
device_read8 d0 address =
    let d = record d0 { reads = u64 (d0.reads + 1) } in
    if address == sci_status
    then (sci_status_value d, d)
    else if address == sci_data
    then read_sci_data d
    else if address == spi_status
    then (d.writable spi_status, record d { spi_status_read = true })
    else if address == spi_data
    then read_spi_data d
    else if address == timer_counter_register
    then (u8 (d.timer_counter / 2 ^ 8), d)
    else if address == timer_counter_register + 1
    then (u8 d.timer_counter, d)
    else if leb 0xe000 address
    then (firmware_read d.firmware address, d)
    else (d.writable address, d)

unfoldable pub write_sci_data : Board → ℕ → Board
write_sci_data d value =
    if d.sci_tx_cycles_remaining == 0
    then sci_start_transmit d value
    else if not d.sci_tx_pending
    then record d { sci_tx_pending_value = value; sci_tx_pending = true }
    else d

unfoldable pub write_spi_data : Board → ℕ → Board
write_spi_data d value =
    let d1 = record d {
      spi_tx_trace =
          if ltb d.spi_tx_count 256
          then update d.spi_tx_trace d.spi_tx_count value
          else d.spi_tx_trace;
      spi_tx_count = u64 (d.spi_tx_count + 1);
      spi_recent_tx = update d.spi_recent_tx (bit_and d.spi_recent_count 0xff) value;
      spi_transfer_receive_value = d.spi_receive_value;
    } in
    let d2 = panel_transfer value d1 in
    let stored = update d2.writable spi_data value in
    record d2 {
      writable = update stored spi_status (bit_and (stored spi_status) (255 - 0x80));
      spi_status_read = false;
      spi_cycles_remaining = 16;
    }

unfoldable pub device_write8 : Board → ℕ → ℕ → Board
unfolding write_sci_data write_spi_data
device_write8 d0 address value =
    let d = record d0 { writes = u64 (d0.writes + 1) } in
    if address == sci_data
    then write_sci_data d value
    else if address == spi_data
    then write_spi_data d value
    else if address == timer_flag_1
    then record d {
      writable = update d.writable timer_flag_1 (bit_and (d.writable timer_flag_1) (255 - value));
    }
    else if ltb address 0xe000
    then record d { writable = update d.writable address value }
    else d

instance abbrev pub kpc_bus : Bus Board
kpc_bus = record { read8 = device_read8; write8 = device_write8 }
