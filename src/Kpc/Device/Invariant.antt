-- ===== src/Kpc/Device/Invariant.antt =====
-- The invariant of the controller's board: the two queues are rings of 4096 bytes, and the panel is
-- idle, in a scan, at the end of one, or in the scan of a release, which the main machine starts by
-- setting phase 6 with one transfer left (native/rom_probe.c), or at the end of that.
use ensoniq_eps_16_plus.Base.{
  ℕ, zero, suc, ◌+◌, ◌-◌, ◌%◌, ◌≤◌, ◌<◌, ◌≡◌, ◌⊎◌, refl, arith, Bool, false, u16, u64,
}
use ensoniq_eps_16_plus.Kpc.Device.Board.{Board, queue_size}
use ensoniq_eps_16_plus.Kpc.Device.Serial.{
  sci_start_transmit, kpc_device_receive, kpc_device_transmit,
}
use ensoniq_eps_16_plus.Kpc.Device.Panel.{
  panel_transfer, kpc_device_panel_transition, kpc_device_panel_transition_complete, phase_1,
  phase_2, phase_6, phase_7,
}
use ensoniq_eps_16_plus.Kpc.Device.Bus.{
  device_read8, device_write8, write_sci_data, write_spi_data, kpc_bus,
}
use ensoniq_eps_16_plus.Kpc.Device.Timers.{
  timer_set_compare_flags, timer_tick, spi_tick, sci_next, sci_loop, sci_tick, store_capture,
  kpc_device_input_capture,
}
use ensoniq_eps_16_plus.M68hc11.Effects.{BusKeeps}

-- A ring of `queue_size` bytes: `count` of them from `read` on, and the next one goes to `write`.
pub record IsRing (read write count : ℕ) : Type 0 where
  pub read_in : read < queue_size
  pub count_in : count ≤ queue_size
  pub meets : write ≡ (read + count) % queue_size

abbrev pub IsPanel : ℕ → ℕ → Type 0
IsPanel phase left =
    ((phase ≡ 0) ⊎ (phase ≡ 7))
    ⊎ (((phase ≡ 1) × (1 ≤ left) × (left ≤ 3)) ⊎ (((phase ≡ 2) ⊎ (phase ≡ 6)) × (left ≡ 1)))

pub record IsBoard (d : Board) : Type 0 where
  pub rx : IsRing d.rx_read d.rx_write d.rx_count
  pub tx : IsRing d.tx_read d.tx_write d.tx_count
  pub panel : IsPanel d.panel_transition_phase d.panel_transfers_remaining

IsBoard-sci_start_transmit : (v : ℕ) (d : Board) → IsBoard d → IsBoard (sci_start_transmit d v)
unfolding sci_start_transmit
IsBoard-sci_start_transmit v d h = ground arith

IsBoard-receive : (v : ℕ) (d : Board) → IsBoard d → IsBoard (kpc_device_receive d v).1
unfolding kpc_device_receive
IsBoard-receive v d h = ground arith

pub IsBoard-transmit : (d : Board) → IsBoard d → IsBoard (kpc_device_transmit d).1
unfolding kpc_device_transmit
IsBoard-transmit d h = ground arith

pub IsBoard-panel_transition :
    (code : ℕ) (pressed : Bool) (d : Board)
    → IsBoard d
    → IsBoard (kpc_device_panel_transition d code pressed).1
unfolding kpc_device_panel_transition
IsBoard-panel_transition code pressed d h = ground arith

pub IsBoard-complete : (d : Board) → IsBoard d → IsBoard (kpc_device_panel_transition_complete d)
unfolding kpc_device_panel_transition_complete
IsBoard-complete d h = ground arith

IsBoard-phase_1 :
    (v : ℕ) (d : Board) → IsBoard d → d.panel_transition_phase ≡ 1 → IsBoard (phase_1 v d)
unfolding phase_1
IsBoard-phase_1 v d h e = ground arith

IsBoard-phase_2 :
    (v : ℕ) (d : Board) → IsBoard d → d.panel_transition_phase ≡ 2 → IsBoard (phase_2 v d)
unfolding phase_2
IsBoard-phase_2 v d h e = ground arith

IsBoard-phase_6 :
    (v : ℕ) (d : Board) → IsBoard d → d.panel_transition_phase ≡ 6 → IsBoard (phase_6 v d)
unfolding phase_6
IsBoard-phase_6 v d h e = ground arith

IsBoard-phase_7 :
    (v : ℕ) (d : Board) → IsBoard d → d.panel_transition_phase ≡ 7 → IsBoard (phase_7 v d)
unfolding phase_7
IsBoard-phase_7 v d h e = ground arith

IsBoard-panel_transfer : (v : ℕ) (d : Board) → IsBoard d → IsBoard (panel_transfer v d)
unfolding panel_transfer
IsBoard-panel_transfer v d h = ground (
  arith,
  IsBoard-phase_1 v d h,
  IsBoard-phase_2 v d h,
  IsBoard-phase_6 v d h,
  IsBoard-phase_7 v d h,
)

IsBoard-read8 : (a : ℕ) (d : Board) → IsBoard d → IsBoard (device_read8 d a).1
unfolding device_read8
IsBoard-read8 a d h = ground arith

IsBoard-write_sci_data : (v : ℕ) (d : Board) → IsBoard d → IsBoard (write_sci_data d v)
unfolding write_sci_data
IsBoard-write_sci_data v d h = ground (arith, IsBoard-sci_start_transmit v d h)

-- The invariant reads none of the other fields.
IsBoard-same :
    (d e : Board)
    → IsBoard d
    → e.rx_read ≡ d.rx_read
    → e.rx_write ≡ d.rx_write
    → e.rx_count ≡ d.rx_count
    → e.tx_read ≡ d.tx_read
    → e.tx_write ≡ d.tx_write
    → e.tx_count ≡ d.tx_count
    → e.panel_transition_phase ≡ d.panel_transition_phase
    → e.panel_transfers_remaining ≡ d.panel_transfers_remaining
    → IsBoard e
IsBoard-same d e h p q r s t u v w = ground arith

IsBoard-write_spi_data : (v : ℕ) (d : Board) → IsBoard d → IsBoard (write_spi_data d v)
unfolding write_spi_data
IsBoard-write_spi_data v d h =
    IsBoard-same _ _
      (IsBoard-panel_transfer v _ (IsBoard-same d _ h refl refl refl refl refl refl refl refl)) refl
      refl refl refl refl refl refl refl

IsBoard-write8 : (a v : ℕ) (d : Board) → IsBoard d → IsBoard (device_write8 d a v)
unfolding device_write8
IsBoard-write8 a v d h =
    let e : Board = record d { writes = u64 (d.writes + 1) } in
    ground (arith, IsBoard-write_sci_data v e, IsBoard-write_spi_data v e)

pub IsBoard-BusKeeps : BusKeeps kpc_bus IsBoard
IsBoard-BusKeeps = record {
  on_read = λ d a h. IsBoard-read8 a d h;
  on_write = λ d a v h. IsBoard-write8 a v d h;
}

IsBoard-timer_set_compare_flags : (d : Board) → IsBoard d → IsBoard (timer_set_compare_flags d)
unfolding timer_set_compare_flags
IsBoard-timer_set_compare_flags d h = ground arith

pub IsBoard-timer_tick : (n : ℕ) (d : Board) → IsBoard d → IsBoard (timer_tick n d)
unfolding timer_tick
IsBoard-timer_tick zero d h = h
IsBoard-timer_tick (suc n) d h = IsBoard-timer_tick n _ (
    IsBoard-timer_set_compare_flags (record d { timer_counter = u16 (d.timer_counter + 1) })
      (IsBoard-same d _ h refl refl refl refl refl refl refl refl))

pub IsBoard-spi_tick : (n : ℕ) (d : Board) → IsBoard d → IsBoard (spi_tick n d)
unfolding spi_tick
IsBoard-spi_tick n d h = ground arith

IsBoard-sci_next : (d : Board) → IsBoard d → IsBoard (sci_next d)
unfolding sci_next
IsBoard-sci_next d h = ground (
  arith,
  IsBoard-sci_start_transmit d.sci_tx_pending_value
      (record d { sci_tx_cycles_remaining = 0; sci_tx_pending = false }),
)

IsBoard-sci_loop : (fuel n : ℕ) (d : Board) → IsBoard d → IsBoard (sci_loop fuel n d)
unfolding sci_loop
IsBoard-sci_loop zero n d h = h
IsBoard-sci_loop (suc fuel) n d h = ground (
  arith,
  IsBoard-sci_loop fuel (n - d.sci_tx_cycles_remaining) (sci_next d) (IsBoard-sci_next d h),
)

pub IsBoard-sci_tick : (n : ℕ) (d : Board) → IsBoard d → IsBoard (sci_tick n d)
unfolding sci_tick
IsBoard-sci_tick n d h = IsBoard-sci_loop (suc n) n d h

pub IsBoard-input_capture :
    (channel value : ℕ) (d : Board)
    → IsBoard d
    → IsBoard (kpc_device_input_capture channel value d).1
unfolding kpc_device_input_capture store_capture
IsBoard-input_capture channel value d h = ground arith
