-- ===== src/Kpc/Device/Step.antt =====
-- native/kpc_device.c, lines 200 to 246 and 372 to 441: loading, reset, interrupts, stepping.
use ensoniq_eps_16_plus.Base.{
  ℕ, zero, suc, ◌+◌, ◌==◌, nonzero, leb, if◌then◌else◌, u32, u64, bit_and, false, ◌&&◌, ◌||◌,
  update, Option, none, some,
}
use ensoniq_eps_16_plus.M68hc11.Core.{ccr_i}
use ensoniq_eps_16_plus.M68hc11.Flags.{flag}
use ensoniq_eps_16_plus.M68hc11.Step
use ensoniq_eps_16_plus.Kpc.Firmware.{KpcFirmware, RomFile, firmware_load}
use ensoniq_eps_16_plus.Kpc.Device.Board.{
  Board, KpcDevice, sci_control_2, spi_control, spi_status, timer_mask_1, timer_flag_1,
}
use ensoniq_eps_16_plus.Kpc.Device.Serial.{sci_status_value}
use ensoniq_eps_16_plus.Kpc.Device.Bus.{kpc_bus}
use ensoniq_eps_16_plus.Kpc.Device.Timers.{timer_tick, spi_tick, sci_tick, kpc_device_input_capture}

-- `kpc_device_reset`, but for the processor. The traces keep what they hold.
unfoldable pub reset_board : Board → Board
reset_board d = record d {
  writable = update (λ _. 0) 0x103f 0x0d;
  rx_read = 0;
  rx_write = 0;
  rx_count = 0;
  tx_read = 0;
  tx_write = 0;
  tx_count = 0;
  sci_rx_total = 0;
  sci_tx_total = 0;
  sci_tx_cycles_remaining = 0;
  sci_tx_pending_value = 0;
  sci_tx_pending = false;
  reads = 0;
  writes = 0;
  timer_counter = 0;
  spi_cycles_remaining = 0;
  spi_status_read = false;
  spi_receive_value = 0;
  spi_transfer_receive_value = 0;
  panel_transition_phase = 0;
  panel_transfers_remaining = 1;
  panel_scan_command = 0;
  panel_scan_command_valid = false;
  panel_tail_receive_value = 0;
  panel_event_receive_value = 0;
  panel_tail_transfers = 0;
  spi_tx_count = 0;
  spi_recent_count = 0;
  capture_period = 0;
  capture_next_cycle = 0;
  capture_mode = 0;
  capture_count = 0;
}

unfoldable pub kpc_device_reset : KpcDevice → KpcDevice
kpc_device_reset device = Step.reset (Step.init (reset_board device.mem))

-- The memory that `memset` leaves before the firmware is read into it.
abbrev pub zeroed : KpcFirmware → Board
zeroed firmware = record {
  firmware = firmware;
  writable = λ _. 0;
  rx = λ _. 0;
  rx_read = 0;
  rx_write = 0;
  rx_count = 0;
  tx = λ _. 0;
  tx_read = 0;
  tx_write = 0;
  tx_count = 0;
  sci_recent_rx = λ _. 0;
  sci_recent_tx = λ _. 0;
  sci_rx_total = 0;
  sci_tx_total = 0;
  reads = 0;
  writes = 0;
  sci_tx_cycles_remaining = 0;
  sci_tx_pending_value = 0;
  sci_tx_pending = false;
  timer_counter = 0;
  spi_cycles_remaining = 0;
  spi_status_read = false;
  spi_receive_value = 0;
  spi_transfer_receive_value = 0;
  panel_transition_phase = 0;
  panel_transfers_remaining = 0;
  panel_scan_command = 0;
  panel_scan_command_valid = false;
  panel_tail_receive_value = 0;
  panel_event_receive_value = 0;
  panel_tail_transfers = 0;
  spi_tx_trace = λ _. 0;
  spi_tx_count = 0;
  spi_recent_tx = λ _. 0;
  spi_recent_rx = λ _. 0;
  spi_recent_count = 0;
  capture_period = 0;
  capture_next_cycle = 0;
  capture_mode = 0;
  capture_count = 0;
}

unfoldable pub kpc_device_load : Option RomFile → Option KpcDevice
kpc_device_load file = elim (firmware_load file) [
  | none ↦ none
  | some firmware ↦ some (kpc_device_reset (Step.init (zeroed firmware)))
]

-- The vector that `timer_resolve_interrupt` enters, if any: the source that HPRIO promotes first,
-- then the fixed order.
unfoldable pub pending_vector : Board → Option ℕ
pending_vector d =
    let priority = bit_and (d.writable 0x103c) 0x0f in
    let status = sci_status_value d in
    let control = d.writable sci_control_2 in
    let sci_pending =
      (nonzero (bit_and control 0x20) && nonzero (bit_and status 0x20))
      || (nonzero (bit_and control 0x80) && nonzero (bit_and status 0x80))
      || (nonzero (bit_and control 0x40) && nonzero (bit_and status 0x40)) in
    let spi_pending =
      nonzero (bit_and (d.writable spi_control) 0x80)
      && nonzero (bit_and (d.writable spi_status) 0x80) in
    let pending = bit_and (d.writable timer_mask_1) (d.writable timer_flag_1) in
    let ic2 = nonzero (bit_and pending 0x02) in
    let ic3 = nonzero (bit_and pending 0x01) in
    let oc4 = nonzero (bit_and pending 0x10) in
    let oc5 = nonzero (bit_and pending 0x08) in
    if priority == 4 && sci_pending
    then some 0xffd6
    else if priority == 3 && spi_pending
    then some 0xffd8
    else if priority == 9 && ic2
    then some 0xffec
    else if priority == 10 && ic3
    then some 0xffea
    else if priority == 14 && oc4
    then some 0xffe2
    else if priority == 15 && oc5
    then some 0xffe0
    else if ic2
    then some 0xffec
    else if ic3
    then some 0xffea
    else if oc4
    then some 0xffe2
    else if oc5
    then some 0xffe0
    else if spi_pending
    then some 0xffd8
    else if sci_pending
    then some 0xffd6
    else none

-- The three clocks run together.
abbrev pub tick_all : ℕ → Board → Board
tick_all cycles d = sci_tick cycles (spi_tick cycles (timer_tick cycles d))

abbrev pub on_board : (Board → Board) → KpcDevice → KpcDevice
on_board f device = record device { mem = f device.mem }

unfoldable pub enter_vector : Option ℕ → KpcDevice → KpcDevice
enter_vector none device = device
enter_vector (some vector) device =
    let (entry_cycles, device') = Step.interrupt vector device in
    if nonzero entry_cycles then on_board (tick_all entry_cycles) device' else device'

unfoldable pub timer_resolve_interrupt : KpcDevice → KpcDevice
timer_resolve_interrupt device =
    if flag ccr_i device then device else enter_vector (pending_vector device.mem) device

-- `do next += period; while (cycles >= next);` with the rounds that may still be made.
unfoldable pub catch_up : ℕ → ℕ → ℕ → ℕ → ℕ
catch_up zero period cycles next = next
catch_up (suc fuel) period cycles next =
    let next' = u64 (next + period) in
    let rest = catch_up fuel period cycles next' in if leb next' cycles then rest else next'

unfoldable pub clock_capture : KpcDevice → KpcDevice
clock_capture device =
    let d = device.mem in
    let channel =
      if d.capture_mode == 23
      then (if nonzero (bit_and d.capture_count 1) then 3 else 2)
      else d.capture_mode in
    let d' = (kpc_device_input_capture channel d.timer_counter d).1 in
    if nonzero d.capture_period && nonzero d.capture_mode && leb d.capture_next_cycle device.cycles
    then record device {
      mem = record d' {
        capture_count = u32 (d'.capture_count + 1);
        capture_next_cycle =
            catch_up (suc device.cycles) d'.capture_period device.cycles d'.capture_next_cycle;
      };
    }
    else device

unfoldable pub kpc_device_step : KpcDevice → ℕ × KpcDevice
kpc_device_step device =
    let (instruction_cycles, device1) = Step.step device in
    let device2 = on_board (tick_all instruction_cycles) device1 in
    let device3 = clock_capture device2 in (instruction_cycles, timer_resolve_interrupt device3)

-- `steps` and the device when the loop ends. The recursion counts the steps that are left.
unfoldable pub kpc_device_run : ℕ → KpcDevice → ℕ × KpcDevice
kpc_device_run zero device = (0, device)
kpc_device_run (suc step_limit) device =
    let rest = kpc_device_run step_limit (kpc_device_step device).1 in
    if device.illegal then (0, device) else (rest.0 + 1, rest.1)
