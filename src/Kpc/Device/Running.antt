-- ===== src/Kpc/Device/Running.antt =====
-- The whole device keeps its invariant from reset through every step and run.
use ensoniq_eps_16_plus.Base.{
  bit_and, u32, ℕ, suc, ◌+◌, ◌^◌, ◌<◌, ◌≡◌, refl, arith, Bool, true, false, ◌==◌, nonzero,
  if◌then◌else◌, ◌&&◌, leb, Option, none, some,
}
use ensoniq_eps_16_plus.M68hc11.Core.{read16, gets, ◌>>=◌}
use ensoniq_eps_16_plus.M68hc11.Step
use ensoniq_eps_16_plus.M68hc11.Effects.{IsWord}
use ensoniq_eps_16_plus.M68hc11.Timing.Step.{step_effect, interrupt_effect}
use ensoniq_eps_16_plus.M68hc11.Helpers.{Silent-read16}
use ensoniq_eps_16_plus.Kpc.Firmware.{KpcFirmware, RomFile, firmware_load}
use ensoniq_eps_16_plus.Kpc.Device.Board.{Board, KpcDevice}
use ensoniq_eps_16_plus.Kpc.Device.Bus.{kpc_bus}
use ensoniq_eps_16_plus.Kpc.Device.Timers.{kpc_device_input_capture}
use ensoniq_eps_16_plus.Kpc.Device.Step.{
  tick_all, enter_vector, timer_resolve_interrupt, clock_capture, kpc_device_step, kpc_device_reset,
  kpc_device_load, reset_board, pending_vector, catch_up, on_board, zeroed,
}
use ensoniq_eps_16_plus.Kpc.Device.Invariant.{
  IsBoard, IsBoard-BusKeeps, IsBoard-timer_tick, IsBoard-spi_tick, IsBoard-sci_tick,
  IsBoard-input_capture,
}

-- The processor's registers are within their widths and the board is sound.
pub record IsDevice (device : KpcDevice) : Type 0 where
  pub words : IsWord device
  pub board : IsBoard device.mem

IsBoard-tick_all : (n : ℕ) (d : Board) → IsBoard d → IsBoard (tick_all n d)
IsBoard-tick_all n d h = IsBoard-sci_tick n _ (IsBoard-spi_tick n _ (IsBoard-timer_tick n d h))

pub IsDevice-tick :
    (n : ℕ) (device : KpcDevice) → IsDevice device → IsDevice (on_board (tick_all n) device)
IsDevice-tick n device h = record {
  words = omega (arith, h.words);
  board = IsBoard-tick_all n device.mem h.board;
}

IsDevice-enter_vector :
    (v : Option ℕ) (device : KpcDevice) → IsDevice device → IsDevice (enter_vector v device)
unfolding enter_vector
IsDevice-enter_vector none device h = h
IsDevice-enter_vector (some v) device h =
    let r = interrupt_effect IsBoard-BusKeeps v device h.words h.board in
    go (Step.interrupt v device).0 (Step.interrupt v device).1 (record { words = r.0; board = r.1 })
  where
    go :
        (n : ℕ) (d : KpcDevice)
        → IsDevice d
        → IsDevice (if nonzero n then on_board (tick_all n) d else d)
    go n d k = ground (arith, IsDevice-tick n d k)

IsDevice-resolve :
    (device : KpcDevice) → IsDevice device → IsDevice (timer_resolve_interrupt device)
unfolding timer_resolve_interrupt
IsDevice-resolve device h =
    ground (arith, IsDevice-enter_vector (pending_vector device.mem) device h)

pub IsDevice-clock_capture :
    (device : KpcDevice) → IsDevice device → IsDevice (clock_capture device)
unfolding clock_capture
IsDevice-clock_capture device h =
    let d = device.mem in
    let channel : ℕ =
      if d.capture_mode == 23
      then (if nonzero (bit_and d.capture_count 1) then 3 else 2)
      else d.capture_mode in
    let k = IsBoard-input_capture channel d.timer_counter d h.board in
    go (kpc_device_input_capture channel d.timer_counter d).1 k
      (nonzero d.capture_period && nonzero d.capture_mode && leb d.capture_next_cycle device.cycles)
  where
    go :
        (e : Board)
        → IsBoard e
        → (b : Bool)
        → IsDevice (
            if b
            then record device {
              mem = record e {
                capture_count = u32 (e.capture_count + 1);
                capture_next_cycle =
                    catch_up
                      (suc device.cycles)
                      e.capture_period
                      device.cycles
                      e.capture_next_cycle;
              };
            }
            else device)
    go e k true = record {
      words = omega (arith, h.words);
      board = record { rx = k.rx; tx = k.tx; panel = k.panel };
    }
    go e k false = h

-- From a device in the invariant (registers within their widths, both queues sound rings of 4096
-- bytes, the panel idle, in a scan, in the scan of a release, or at the end of one), one step,
-- which is an instruction with all its accesses to the device's registers, the three clocks, a
-- clocked capture and an interrupt, leaves the device in the invariant.
pub IsDevice-step : (device : KpcDevice) → IsDevice device → IsDevice (kpc_device_step device).1
unfolding kpc_device_step
IsDevice-step device h =
    let r = step_effect IsBoard-BusKeeps device h.words h.board in
    IsDevice-resolve _ (
      IsDevice-clock_capture _
        (IsDevice-tick _ (Step.step device).1 (record { words = r.0; board = r.1 })))

read16-lt : (a : ℕ) (c : KpcDevice) → (read16 a c).0 < 2 ^ 16
unfolding read16 gets ◌>>=◌
read16-lt a c = omega arith

IsBoard-reset : (d : Board) → IsBoard (reset_board d)
unfolding reset_board
IsBoard-reset d = ground arith

-- A reset brings any device, whatever its state, into the invariant.
pub IsDevice-reset : (device : KpcDevice) → IsDevice (kpc_device_reset device)
unfolding kpc_device_reset Step.reset Step.init
IsDevice-reset device =
    let c0 : KpcDevice = record (Step.init (reset_board device.mem)) { ccr = 0xd0 } in
    let w0 : IsWord c0 = omega arith in
    let r = (Silent-read16 IsBoard-BusKeeps 0xfffe).at c0 w0 (IsBoard-reset device.mem) in
    record { words = omega (arith, r.0, read16-lt 0xfffe c0); board = r.1 }

-- If the EPROM image loads as firmware, the device loads, and the device that is handed out is in
-- the invariant.
kpc_device_load_lem :
    (file : Option RomFile) (firmware : KpcFirmware)
    → firmware_load file ≡ some firmware
    → (device : KpcDevice) × (kpc_device_load file ≡ some device) × IsDevice device
unfolding kpc_device_load
kpc_device_load_lem file firmware e = (
  kpc_device_reset (Step.init (zeroed firmware)),
  rw (e, kpc_device_load) refl,
  IsDevice-reset (Step.init (zeroed firmware)),
)
