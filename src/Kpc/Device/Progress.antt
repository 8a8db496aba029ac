-- ===== src/Kpc/Device/Progress.antt =====
-- native/kpc_device.c, lines 200 to 246 and 400 to 441: a step takes the processor's clock on.
use ensoniq_eps_16_plus.Base.{
  ℕ, ◌+◌, ◌^◌, ◌≤◌, ◌<◌, ◌≡◌, ◌⊎◌, inl, inr, ◌∙◌, arith, true, Option, none, some,
}
use ensoniq_eps_16_plus.M68hc11.Step
use ensoniq_eps_16_plus.M68hc11.Timing.Step.{step_effect, interrupt_effect}
use ensoniq_eps_16_plus.M68hc11.Progress.{step-Moves, interrupt-cycles, interrupt-illegal}
use ensoniq_eps_16_plus.Kpc.Device.Board.{Board, KpcDevice}
use ensoniq_eps_16_plus.Kpc.Device.Bus.{kpc_bus}
use ensoniq_eps_16_plus.Kpc.Device.Step.{
  tick_all, enter_vector, timer_resolve_interrupt, clock_capture, kpc_device_step, pending_vector,
  on_board,
}
use ensoniq_eps_16_plus.Kpc.Device.Invariant.{IsBoard-BusKeeps}
use ensoniq_eps_16_plus.Kpc.Device.Running.{IsDevice, IsDevice-tick, IsDevice-clock_capture}

-- The second device is the first with a later clock, or the processor has met an illegal opcode.
abbrev pub Later : ℕ → ℕ → KpcDevice → KpcDevice → Type 0
Later least most c d =
    ((c.cycles + least ≤ d.cycles) × (d.cycles ≤ c.cycles + most)) ⊎ (d.illegal ≡ true)

enter_vector-Later :
    (v : Option ℕ) (device : KpcDevice)
    → IsDevice device
    → device.cycles + 12 < 2 ^ 64
    → Later 0 12 device (enter_vector v device)
unfolding enter_vector
enter_vector-Later none device h room = inl (omega arith, omega arith)
enter_vector-Later (some v) device h room =
    let r = interrupt_effect IsBoard-BusKeeps v device h.words h.board in
    let few = interrupt-cycles Board v device in ground (arith, r.2, few)

enter_vector-illegal :
    (v : Option ℕ) (device : KpcDevice)
    → device.illegal ≡ true
    → (enter_vector v device).illegal ≡ true
unfolding enter_vector
enter_vector-illegal none device e = e
enter_vector-illegal (some v) device e = rw (interrupt-illegal Board v device e) e

resolve-Later :
    (device : KpcDevice)
    → IsDevice device
    → device.cycles + 12 < 2 ^ 64
    → Later 0 12 device (timer_resolve_interrupt device)
unfolding timer_resolve_interrupt
resolve-Later device h room =
    ground (arith, enter_vector-Later (pending_vector device.mem) device h room)

resolve-illegal :
    (device : KpcDevice) → device.illegal ≡ true → (timer_resolve_interrupt device).illegal ≡ true
unfolding timer_resolve_interrupt
resolve-illegal device e = ground (arith, enter_vector-illegal (pending_vector device.mem) device e)

clock_capture-clock :
    (device : KpcDevice)
    → ((clock_capture device).cycles ≡ device.cycles)
      × ((clock_capture device).illegal ≡ device.illegal)
unfolding clock_capture
clock_capture-clock device = ground arith

-- A step takes from 1 to 53 cycles, those of an interrupt counted, or stops at an illegal opcode.
pub kpc_device_step-Later :
    (device : KpcDevice)
    → IsDevice device
    → device.cycles + 53 < 2 ^ 64
    → Later 1 53 device (kpc_device_step device).1
unfolding kpc_device_step
kpc_device_step-Later device h room =
    let r = step_effect IsBoard-BusKeeps device h.words h.board in
    let n = (Step.step device).0 in
    let ticked = on_board (tick_all n) (Step.step device).1 in
    let same = clock_capture-clock ticked in
    let sound =
      IsDevice-clock_capture ticked (IsDevice-tick n _ (record { words = r.0; board = r.1 })) in
    elim ((step-Moves Board).at device) [
      | inl few ↦
          let clock : (clock_capture ticked).cycles ≡ device.cycles + n =
            omega (arith, same.0, r.2, few) in
          elim (resolve-Later _ sound (omega (arith, clock, few))) [
            | inl later ↦ inl (omega (arith, later, clock, few), omega (arith, later, clock, few))
            | inr stopped ↦ inr stopped
          ]
      | inr stopped ↦ inr (resolve-illegal _ (same.1 ∙ stopped))
    ]
