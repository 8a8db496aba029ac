-- ===== src/Kpc/Legacy.antt =====
-- native/kpc_legacy.c: the stand-in for the controller that answers the main processor's serial port
-- when no controller firmware is loaded.
pub mod Display
pub mod Polling
mod Tests
use ensoniq_eps_16_plus.Base.{
  ℕ, ◌+◌, ◌-◌, ◌%◌, ◌^◌, ◌==◌, ◌!=◌, nonzero, ltb, leb, if◌then◌else◌, u32, sub64, Bool, true,
  false, not, ◌&&◌, ◌||◌,
}

pub record KpcLegacy : Type 0 where
  pub poll_cycles : ℕ
  pub last_poll_cycle : ℕ
  pub display_frames : ℕ
  pub ready_search_remaining : ℕ
  pub display_burst_remaining : ℕ
  pub load_ready_budget : ℕ
  pub calibration_polls : ℕ
  pub e7_reply : ℕ
  pub autopoll_enabled : Bool
  pub live_periodic_ready : Bool

abbrev default_poll_cycles : ℕ
default_poll_cycles = 1000000

abbrev ready_search_bytes : ℕ
ready_search_bytes = 128

abbrev display_frame_limit : ℕ
display_frame_limit = 256

abbrev load_ready_polls : ℕ
load_ready_polls = 20000

unfoldable pub kpc_legacy_init : KpcLegacy
kpc_legacy_init = record {
  poll_cycles = default_poll_cycles;
  last_poll_cycle = 0;
  display_frames = 0;
  ready_search_remaining = 0;
  display_burst_remaining = 0;
  load_ready_budget = 0;
  calibration_polls = 0;
  e7_reply = 0xff;
  autopoll_enabled = true;
  live_periodic_ready = true;
}

unfoldable pub kpc_legacy_set_poll_cycles : KpcLegacy → ℕ → KpcLegacy
kpc_legacy_set_poll_cycles kpc cycles = record kpc { poll_cycles = cycles }

unfoldable pub kpc_legacy_set_autopoll : KpcLegacy → ℕ → KpcLegacy
kpc_legacy_set_autopoll kpc enabled = record kpc { autopoll_enabled = enabled != 0 }

unfoldable pub kpc_legacy_set_live_periodic_ready : KpcLegacy → ℕ → KpcLegacy
kpc_legacy_set_live_periodic_ready kpc ready = record kpc { live_periodic_ready = ready != 0 }

unfoldable pub kpc_legacy_set_e7_reply : KpcLegacy → ℕ → KpcLegacy
kpc_legacy_set_e7_reply kpc reply = record kpc { e7_reply = reply }

pub kpc_legacy_arm_display : KpcLegacy → ℕ → KpcLegacy
kpc_legacy_arm_display kpc frames = record kpc {
  display_frames = frames;
  ready_search_remaining = if nonzero frames then ready_search_bytes else 0;
  display_burst_remaining = 0;
}

pub kpc_legacy_arm_load : KpcLegacy → KpcLegacy
unfolding kpc_legacy_arm_display
kpc_legacy_arm_load kpc =
    kpc_legacy_arm_display (record kpc { load_ready_budget = load_ready_polls }) 64

pub kpc_legacy_cancel_load : KpcLegacy → KpcLegacy
unfolding kpc_legacy_arm_display
kpc_legacy_cancel_load kpc = kpc_legacy_arm_display (record kpc { load_ready_budget = 0 }) 0

-- The function always returns 1; this is the byte that goes through `reply`.
pub kpc_legacy_reply : KpcLegacy → ℕ → ℕ × KpcLegacy
kpc_legacy_reply kpc value =
    if value == 0xfd
    then (
      if ltb kpc.calibration_polls 3 then 0xc9 else 0xff,
      record kpc { calibration_polls = u32 (kpc.calibration_polls + 1) },
    )
    else if value == 0xe7 || value == 0xf0
    then (kpc.e7_reply, kpc)
    else if value == 0x71
    then (0x00, kpc)
    else (value, kpc)

-- The delimiter 'f' of a display frame.
pub delimit : KpcLegacy → ℕ → KpcLegacy
delimit kpc value =
    let left = kpc.display_frames - 1 in
    let closed = record kpc {
      display_frames = left;
      display_burst_remaining = if nonzero left then display_frame_limit else 0;
      ready_search_remaining = 0;
    } in
    let opened = record kpc {
      display_burst_remaining = display_frame_limit;
      ready_search_remaining = 0;
    } in
    if value == 0x66 && nonzero kpc.display_frames
    then (if nonzero kpc.display_burst_remaining then closed else opened)
    else kpc

-- The rest of `kpc_legacy_observe_tx`: a byte of a burst, or of the search for one.
pub consume : KpcLegacy → ℕ → Bool × KpcLegacy
consume kpc value =
    let burst =
      if value != 0x66 then kpc.display_burst_remaining - 1 else kpc.display_burst_remaining in
    let in_burst = record kpc { display_burst_remaining = burst } in
    if nonzero kpc.display_burst_remaining
    then (if nonzero burst
        then (true, in_burst)
        else if nonzero kpc.display_frames
        then (true, record in_burst { ready_search_remaining = ready_search_bytes })
        else (false, in_burst))
    else if nonzero kpc.display_frames && nonzero kpc.ready_search_remaining
    then (true, record kpc { ready_search_remaining = kpc.ready_search_remaining - 1 })
    else (false, kpc)

pub kpc_legacy_observe_tx : KpcLegacy → ℕ → Bool × KpcLegacy
kpc_legacy_observe_tx kpc value =
    let left = kpc.display_frames - 1 in
    if value == 0xf7 && nonzero kpc.display_frames
    then (
      nonzero left,
      record kpc {
        display_frames = left;
        display_burst_remaining = 0;
        ready_search_remaining = if nonzero left then ready_search_bytes else 0;
      },
    )
    else consume (delimit kpc value) value

pub kpc_legacy_service : KpcLegacy → Bool → ℕ → ℕ → Bool → Bool × KpcLegacy
kpc_legacy_service kpc live_mode disk_reads executed transport_idle =
    let due = leb kpc.poll_cycles (sub64 executed kpc.last_poll_cycle) in
    if not transport_idle
    then (false, kpc)
    else if nonzero kpc.load_ready_budget && due
    then (
      true,
      record kpc { last_poll_cycle = executed; load_ready_budget = kpc.load_ready_budget - 1 },
    )
    else if kpc.autopoll_enabled
        && (not live_mode || kpc.live_periodic_ready)
        && leb 124 disk_reads
        && leb 50000000 executed
        && due
    then (true, record kpc { last_poll_cycle = executed })
    else (false, kpc)
