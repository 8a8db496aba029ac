-- ===== src/Kpc/Legacy/Tests.antt =====
-- Runs of native/kpc_legacy.c.
use ensoniq_eps_16_plus.Base.{ℕ, ◌+◌, ◌*◌, ◌^◌, ◌≤◌, ◌<◌, ◌≡◌, arith, true, List, [], ◌∷◌}
use ensoniq_eps_16_plus.Kpc.Legacy.{
  KpcLegacy, kpc_legacy_init, kpc_legacy_set_e7_reply, kpc_legacy_arm_display,
  kpc_legacy_observe_tx,
}
use ensoniq_eps_16_plus.Kpc.Legacy.Display.{
  IsDisplay, IsDisplay-arm, IsDisplay-observe, count, reply_all, expected_replies, reply_all_lem,
}
use ensoniq_eps_16_plus.Kpc.Legacy.Polling.{Request, polls, polls_apart}

abbrev armed : KpcLegacy
armed = kpc_legacy_arm_display kpc_legacy_init 2

armed-IsDisplay : IsDisplay armed
armed-IsDisplay = (IsDisplay-arm kpc_legacy_init 2).0

observe_example : IsDisplay (kpc_legacy_observe_tx armed 0xf6).1
observe_example = IsDisplay-observe armed 0xf6 armed-IsDisplay

init_polls :
    kpc_legacy_init.calibration_polls + count 0xfd (0xfd ∷ 0xe7 ∷ 0xfd ∷ 0x71 ∷ []) < 2 ^ 32
unfolding kpc_legacy_init
init_polls = omega arith

replies_example :
    let bytes : List ℕ = 0xfd ∷ 0xe7 ∷ 0xfd ∷ 0x71 ∷ [] in
    let kpc = kpc_legacy_init in
    (reply_all kpc bytes ≡ expected_replies kpc.e7_reply kpc.calibration_polls bytes)
    × (reply_all (kpc_legacy_set_e7_reply kpc 0) bytes
        ≡ expected_replies 0 kpc.calibration_polls bytes)
    × (kpc.e7_reply ≡ 0xff)
replies_example = reply_all_lem (0xfd ∷ 0xe7 ∷ 0xfd ∷ 0x71 ∷ []) kpc_legacy_init 0 init_polls

abbrev requests : List Request
requests =
    record { live_mode = true; disk_reads = 200; executed = 60000000; transport_idle = true }
    ∷ record { live_mode = true; disk_reads = 200; executed = 60500000; transport_idle = true }
    ∷ record { live_mode = true; disk_reads = 200; executed = 61000000; transport_idle = true }
    ∷ []

first_poll : kpc_legacy_init.last_poll_cycle ≤ 0
unfolding kpc_legacy_init
first_poll = omega arith

polls_example :
    kpc_legacy_init.last_poll_cycle + polls kpc_legacy_init requests * kpc_legacy_init.poll_cycles
    ≤ 61000000
polls_example =
    polls_apart requests kpc_legacy_init 0 61000000 first_poll (omega arith) (omega arith)
