-- ===== src/Kpc/Device/Board.antt =====
-- native/kpc_device.h and the constants of native/kpc_device.c. The struct `KpcDevice` holds the
-- processor and is the memory context that the processor gets. Here the rest of the struct is the
-- record `Board`, and the whole device is the processor with the board as its memory.
use ensoniq_eps_16_plus.Base.{ℕ, ◌^◌, ◌*◌, ◌+◌, Bool, u16, bit_or}
use ensoniq_eps_16_plus.M68hc11.Core.{Core}
use ensoniq_eps_16_plus.Kpc.Firmware.{KpcFirmware}

abbrev pub queue_size : ℕ
queue_size = 4096

pub record Board : Type 0 where
  pub firmware : KpcFirmware
  pub writable : ℕ → ℕ
  pub rx : ℕ → ℕ
  pub rx_read : ℕ
  pub rx_write : ℕ
  pub rx_count : ℕ
  pub tx : ℕ → ℕ
  pub tx_read : ℕ
  pub tx_write : ℕ
  pub tx_count : ℕ
  pub sci_recent_rx : ℕ → ℕ
  pub sci_recent_tx : ℕ → ℕ
  pub sci_rx_total : ℕ
  pub sci_tx_total : ℕ
  pub reads : ℕ
  pub writes : ℕ
  pub sci_tx_cycles_remaining : ℕ
  pub sci_tx_pending_value : ℕ
  pub sci_tx_pending : Bool
  pub timer_counter : ℕ
  pub spi_cycles_remaining : ℕ
  pub spi_status_read : Bool
  pub spi_receive_value : ℕ
  pub spi_transfer_receive_value : ℕ
  pub panel_transition_phase : ℕ
  pub panel_transfers_remaining : ℕ
  pub panel_scan_command : ℕ
  pub panel_scan_command_valid : Bool
  pub panel_tail_receive_value : ℕ
  pub panel_event_receive_value : ℕ
  pub panel_tail_transfers : ℕ
  pub spi_tx_trace : ℕ → ℕ
  pub spi_tx_count : ℕ
  pub spi_recent_tx : ℕ → ℕ
  pub spi_recent_rx : ℕ → ℕ
  pub spi_recent_count : ℕ
  pub capture_period : ℕ
  pub capture_next_cycle : ℕ
  pub capture_mode : ℕ
  pub capture_count : ℕ

abbrev pub KpcDevice : Type 0
KpcDevice = Core Board

-- The addresses of the registers and the bits in them.
abbrev pub sci_status : ℕ
sci_status = 0x102e

abbrev pub sci_data : ℕ
sci_data = 0x102f

abbrev pub sci_baud : ℕ
sci_baud = 0x102b

abbrev pub sci_control_2 : ℕ
sci_control_2 = 0x102d

abbrev pub spi_control : ℕ
spi_control = 0x1028

abbrev pub spi_status : ℕ
spi_status = 0x1029

abbrev pub spi_data : ℕ
spi_data = 0x102a

abbrev pub timer_mask_1 : ℕ
timer_mask_1 = 0x1022

abbrev pub timer_flag_1 : ℕ
timer_flag_1 = 0x1023

abbrev pub timer_counter_register : ℕ
timer_counter_register = 0x100e

abbrev pub timer_compare_4 : ℕ
timer_compare_4 = 0x101c

abbrev pub timer_compare_5 : ℕ
timer_compare_5 = 0x101e

abbrev pub port_a : ℕ
port_a = 0x1000

unfoldable pub device_read16_raw : Board → ℕ → ℕ
device_read16_raw d address = u16 (bit_or (d.writable address * 2 ^ 8) (d.writable (address + 1)))
