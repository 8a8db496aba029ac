-- ===== src/Kpc/Legacy/Display.antt =====
-- The display handshake of native/kpc_legacy.c: which bytes of the main processor get a ready reply.
use ensoniq_eps_16_plus.Base.{
  ℕ, suc, ◌+◌, ◌-◌, ◌^◌, ◌≤◌, ◌<◌, ◌≡◌, ◌⊎◌, ◌≢◌, refl, arith, ◌==◌, if◌then◌else◌, List, [], ◌∷◌,
  ap₂, ltb, ◌∙◌,
}
use ensoniq_eps_16_plus.Kpc.Legacy.{
  KpcLegacy, kpc_legacy_arm_display, kpc_legacy_arm_load, kpc_legacy_cancel_load,
  kpc_legacy_observe_tx, kpc_legacy_reply, kpc_legacy_init, kpc_legacy_set_e7_reply, delimit,
  consume,
}

-- No burst and no search are open when no frame is expected, they are within their limits, and they
-- exclude one another.
pub record IsDisplay (kpc : KpcLegacy) : Type 0 where
  pub closed :
      (0 < kpc.display_frames)
      ⊎ ((kpc.display_burst_remaining ≡ 0) × (kpc.ready_search_remaining ≡ 0))
  pub apart : (kpc.display_burst_remaining ≡ 0) ⊎ (kpc.ready_search_remaining ≡ 0)
  pub burst : kpc.display_burst_remaining ≤ 256
  pub search_bytes : kpc.ready_search_remaining ≤ 128

-- To arm the display, to arm it for a load, and to cancel a load bring any state into the
-- invariant of the display handshake.
pub IsDisplay-arm :
    (kpc : KpcLegacy) (frames : ℕ)
    → IsDisplay (kpc_legacy_arm_display kpc frames)
      × IsDisplay (kpc_legacy_arm_load kpc)
      × IsDisplay (kpc_legacy_cancel_load kpc)
unfolding kpc_legacy_arm_display kpc_legacy_arm_load kpc_legacy_cancel_load
IsDisplay-arm kpc frames = (ground arith, ground arith, ground arith)

-- Every byte that is observed keeps the invariant of the display handshake: no burst and no
-- search are open when no frame is expected, at most one of them is open, and they hold at most
-- 256 and 128 bytes.
pub IsDisplay-observe :
    (kpc : KpcLegacy) (value : ℕ) → IsDisplay kpc → IsDisplay (kpc_legacy_observe_tx kpc value).1
unfolding kpc_legacy_observe_tx delimit consume
IsDisplay-observe kpc value h = ground arith

abbrev observe_all : KpcLegacy → List ℕ → KpcLegacy
observe_all kpc [] = kpc
observe_all kpc (v ∷ vs) = observe_all (kpc_legacy_observe_tx kpc v).1 vs

abbrev pub count : ℕ → List ℕ → ℕ
count v [] = 0
count v (w ∷ ws) = if w == v then suc (count v ws) else count v ws

frames_step :
    (kpc : KpcLegacy) (v : ℕ)
    → (kpc_legacy_observe_tx kpc v).1.display_frames
      ≤ kpc.display_frames - (if v == 0xf7 then 1 else 0)
unfolding kpc_legacy_observe_tx delimit consume
frames_step kpc v = ground arith

-- Over any bytes at least one expected frame ends for each 0xf7 among them, down to none, and
-- none is added.
display_frames-observe_all :
    (vs : List ℕ) (kpc : KpcLegacy)
    → (observe_all kpc vs).display_frames ≤ kpc.display_frames - count 0xf7 vs
display_frames-observe_all [] kpc = omega arith
display_frames-observe_all (v ∷ vs) kpc =
    ground (arith, frames_step kpc v, display_frames-observe_all vs (kpc_legacy_observe_tx kpc v).1)

abbrev pub reply_all : KpcLegacy → List ℕ → List ℕ
reply_all kpc [] = []
reply_all kpc (v ∷ vs) = (kpc_legacy_reply kpc v).0 ∷ reply_all (kpc_legacy_reply kpc v).1 vs

-- The reply to a byte when `polls` calibration polls have come before.
abbrev expected_reply : ℕ → ℕ → ℕ → ℕ
expected_reply e7 polls v =
    if v == 0xfd
    then (if ltb polls 3 then 0xc9 else 0xff)
    else if v == 0xe7
    then e7
    else if v == 0xf0
    then e7
    else if v == 0x71
    then 0
    else v

abbrev pub expected_replies : ℕ → ℕ → List ℕ → List ℕ
expected_replies e7 polls [] = []
expected_replies e7 polls (v ∷ vs) =
    expected_reply e7 polls v ∷ expected_replies e7 (if v == 0xfd then suc polls else polls) vs

reply_step :
    (kpc : KpcLegacy) (v : ℕ)
    → kpc.calibration_polls + 1 < 2 ^ 32 ⊎ (v ≢ 0xfd)
    → ((kpc_legacy_reply kpc v).0 ≡ expected_reply kpc.e7_reply kpc.calibration_polls v)
      × ((kpc_legacy_reply kpc v).1.e7_reply ≡ kpc.e7_reply)
      × ((kpc_legacy_reply kpc v).1.calibration_polls
          ≡ (if v == 0xfd then suc kpc.calibration_polls else kpc.calibration_polls))
unfolding kpc_legacy_reply
reply_step kpc v h = (ground arith, ground arith, ground arith)

replies :
    (vs : List ℕ) (kpc : KpcLegacy)
    → kpc.calibration_polls + count 0xfd vs < 2 ^ 32
    → reply_all kpc vs ≡ expected_replies kpc.e7_reply kpc.calibration_polls vs
replies [] kpc h = refl
replies (v ∷ vs) kpc h =
    let fits : (kpc.calibration_polls + 1 < 2 ^ 32) ⊎ (v ≢ 0xfd) = ground arith in
    let step = reply_step kpc v fits in
    let rest = replies vs (kpc_legacy_reply kpc v).1 (rw step.2 (ground arith)) in
    ap₂ ◌∷◌ step.0 (rest ∙ rw (step.1, step.2))

-- As long as the counter of calibration polls does not wrap, the replies to any bytes are: 0xc9
-- to the first three polls 0xfd counted from the start and 0xff to all later ones, the configured
-- reply to 0xe7 and 0xf0, 0 to 0x71, and the byte itself to any other. The configured reply is
-- the one that kpc_legacy_set_e7_reply was given, and 0xff after kpc_legacy_init.
pub reply_all_lem :
    (vs : List ℕ) (kpc : KpcLegacy) (reply : ℕ)
    → kpc.calibration_polls + count 0xfd vs < 2 ^ 32
    → (reply_all kpc vs ≡ expected_replies kpc.e7_reply kpc.calibration_polls vs)
      × (reply_all (kpc_legacy_set_e7_reply kpc reply) vs
          ≡ expected_replies reply kpc.calibration_polls vs)
      × (kpc_legacy_init.e7_reply ≡ 0xff)
unfolding kpc_legacy_set_e7_reply kpc_legacy_init
reply_all_lem vs kpc reply h =
    (replies vs kpc h, replies vs (kpc_legacy_set_e7_reply kpc reply) h, refl)
