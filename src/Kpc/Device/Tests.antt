-- ===== src/Kpc/Device/Tests.antt =====
-- Runs of native/kpc_device.c from a small program in the EPROM.
use ensoniq_eps_16_plus.Base.{
  ℕ, zero, suc, ltb, ◌==◌, if◌then◌else◌, ◌+◌, ◌^◌, ◌≡◌, ◌≤◌, ◌<◌, refl, arith, u64, true, false,
  Option, some, List, [], ◌∷◌, ◌++◌,
}
use ensoniq_eps_16_plus.M68hc11.Step
use ensoniq_eps_16_plus.M68hc11.Effects.{IsWord}
use ensoniq_eps_16_plus.M68hc11.Timing.Step.{step_effect, interrupt_effect}
use ensoniq_eps_16_plus.Kpc.Firmware.{KpcFirmware, RomFile, byte_at, firmware_load}
use ensoniq_eps_16_plus.Kpc.Device.Board.{Board, KpcDevice}
use ensoniq_eps_16_plus.Kpc.Device.Serial.{kpc_device_receive}
use ensoniq_eps_16_plus.Kpc.Device.Panel.{kpc_device_panel_transition}
use ensoniq_eps_16_plus.Kpc.Device.Bus.{kpc_bus}
use ensoniq_eps_16_plus.Kpc.Device.Timers.{sci_tick}
use ensoniq_eps_16_plus.Kpc.Device.Step.{
  reset_board, zeroed, kpc_device_reset, kpc_device_step, catch_up,
}
use ensoniq_eps_16_plus.Kpc.Device.Invariant.{IsBoard, IsBoard-BusKeeps}
use ensoniq_eps_16_plus.Kpc.Device.Running.{IsDevice, IsDevice-step, IsDevice-reset}
use ensoniq_eps_16_plus.Kpc.Device.Queues.{rx_bytes, enqueue, receive_refines}
use ensoniq_eps_16_plus.Kpc.Device.Clocks.{sci_tick_add, catch_up_lem}
use ensoniq_eps_16_plus.Kpc.Device.PanelScan.{spi_writes, transition_ends}

-- The program LDAA #0x55, STAA 0x102f at 0xe000, and the reset vector 0xe000.
abbrev program : ℕ → ℕ
program offset =
    if offset == 0x6000
    then 0x86
    else if offset == 0x6001
    then 0x55
    else if offset == 0x6002
    then 0xb7
    else if offset == 0x6003
    then 0x10
    else if offset == 0x6004
    then 0x2f
    else if offset == 0x7ffe
    then 0xe0
    else 0

abbrev bytes_from : ℕ → ℕ → List ℕ
bytes_from zero offset = []
bytes_from (suc n) offset =
    (if ltb offset 0x6000 then 0xff else program offset) ∷ bytes_from n (offset + 1)

abbrev image : Option RomFile
image = some (record { bytes = bytes_from 0x8000 0; read_error = false })

abbrev firmware : KpcFirmware
firmware = record { eprom = byte_at (bytes_from 0x8000 0); reset_vector = 0xe000; loaded = true }

image_loads : firmware_load image ≡ some firmware
unfolding firmware_load
image_loads = refl

abbrev cold : KpcDevice
cold = Step.init (zeroed firmware)

reset_example : IsDevice (kpc_device_reset cold)
reset_example = IsDevice-reset cold

abbrev pub ready : KpcDevice
ready = kpc_device_reset cold

pub ready-IsDevice : IsDevice ready
ready-IsDevice = IsDevice-reset cold

IsDevice-step_example : IsDevice (kpc_device_step ready).1
IsDevice-step_example = IsDevice-step ready ready-IsDevice

step_example :
    IsWord (Step.step ready).1
    × IsBoard (Step.step ready).1.mem
    × ((Step.step ready).1.cycles ≡ u64 (ready.cycles + (Step.step ready).0))
step_example = step_effect IsBoard-BusKeeps ready ready-IsDevice.words ready-IsDevice.board

interrupt_example :
    IsWord (Step.interrupt 0xffd6 ready).1
    × IsBoard (Step.interrupt 0xffd6 ready).1.mem
    × ((Step.interrupt 0xffd6 ready).1.cycles
        ≡ u64 (ready.cycles + (Step.interrupt 0xffd6 ready).0))
interrupt_example =
    interrupt_effect IsBoard-BusKeeps 0xffd6 ready ready-IsDevice.words ready-IsDevice.board

-- A board whose queues go round the end of their arrays.
abbrev board : Board
board = record (reset_board (zeroed firmware)) {
  rx_read = 4095;
  rx_write = 1;
  rx_count = 2;
  tx_read = 4094;
  tx_write = 1;
  tx_count = 3;
  timer_counter = 65535;
  sci_tx_cycles_remaining = 100;
  spi_cycles_remaining = 20;
}

board-IsBoard : IsBoard board
unfolding reset_board
board-IsBoard = ground arith

receive_example :
    ((kpc_device_receive board 0x90).0, rx_bytes (kpc_device_receive board 0x90).1)
    ≡ enqueue (rx_bytes board) 0x90
receive_example = receive_refines board 0x90 board-IsBoard

board_idle : board.panel_transition_phase ≡ 0
unfolding reset_board
board_idle = refl

transition_example :
    (spi_writes
      (0x21 ∷ (0x30 ∷ 0x21 ∷ 0x00 ∷ 0x21 ∷ []) ++ 0xff ∷ [])
      (kpc_device_panel_transition board 0x12 true).1).panel_transition_phase
    ≡ 0
transition_example =
    transition_ends 0x21 (λ e. absurd (omega arith)) (λ e. absurd (omega arith)) 0x12 true board
      (0x30 ∷ 0x21 ∷ 0x00 ∷ 0x21 ∷ []) (omega arith) board_idle (omega arith)

board_counter : board.timer_counter < 2 ^ 16
unfolding reset_board
board_counter = omega arith

sci_example : sci_tick (60 + 70) board ≡ sci_tick 70 (sci_tick 60 board)
sci_example = sci_tick_add 60 70 board

catch_up_example : (1000 < catch_up 1001 64 1000 300) × (catch_up 1001 64 1000 300 ≤ 1000 + 64)
catch_up_example =
    catch_up_lem 1001 64 1000 300 (omega arith) (omega arith) (omega arith) (omega arith)
