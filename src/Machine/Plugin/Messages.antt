-- ===== src/Machine/Plugin/Messages.antt =====
-- vst3/ProbeMachine.c, lines 723 to 762: MIDI messages on their way to the serial controller.
use ensoniq_eps_16_plus.Base.{
  ℕ, suc, ◌+◌, ◌≤◌, ◌<◌, ◌≡◌, ◌⊎◌, inl, inr, refl, sym, ◌∙◌, ap, arith, ◌==◌, ltb, leb,
  if◌then◌else◌, ◌||◌, ◌&&◌, true, false, List, [], ◌∷◌, ◌++◌,
}
use mathlib.Core.List.{append_assoc, append-nil}
use ensoniq_eps_16_plus.Base.Tests.{Bool-cases}
use ensoniq_eps_16_plus.Base.Bits.{tested_below, tested_below_lem}
use native.Mathlib.Decide.{dec_lt, dec_le}
use ensoniq_eps_16_plus.Machine.Serial.{Serial, midi_schedule_at}
use ensoniq_eps_16_plus.Machine.Link.Rings.{IsWire, travelling, schedule-IsWire, schedule-full}
use ensoniq_eps_16_plus.Machine.Plugin.{message_size, eps16_probe_machine_midi}

abbrev on_wire : Serial → List ℕ
on_wire s = travelling 256 s.midi_wire

abbrev pub length {ℓ} : {A : Type ℓ} → List A → ℕ
length [] = 0
length (x ∷ xs) = suc (length xs)

-- The bytes of a message, by its status: one from 0xf8 on, three from 0x80 to 0xbf and from 0xe0 to
-- 0xef, two from 0xc0 to 0xdf, and else none.
abbrev pub message : ℕ → ℕ → ℕ → List ℕ
message status data1 data2 =
    if leb 0xf8 status
    then status ∷ []
    else if ltb status 0x80 || leb 0xf0 status
    then []
    else if leb 0xc0 status && ltb status 0xe0
    then status ∷ data1 ∷ []
    else status ∷ data1 ∷ data2 ∷ []

-- A byte for a wire that has room.
sent :
    (value now : ℕ) (s : Serial)
    → IsWire 256 s.midi_wire
    → s.midi_wire.count < 256
    → let t = (midi_schedule_at value now s).1 in
      IsWire 256 t.midi_wire
      × (on_wire t ≡ on_wire s ++ value ∷ [])
      × (t.midi_wire.count ≡ s.midi_wire.count + 1)
unfolding midi_schedule_at
sent value now s h room =
    let r = schedule-IsWire 256 3200 value now s.midi_wire h room in (r.1, r.2, r.3)

-- The message is on the wire, whole, or the wire is as it was.
abbrev pub AllOrNothing : List ℕ → Serial → Serial → Type 0
AllOrNothing bytes s t =
    IsWire 256 t.midi_wire
    × (((s.midi_wire.count + length bytes ≤ 256) × (on_wire t ≡ on_wire s ++ bytes))
        ⊎ ((256 < s.midi_wire.count + length bytes) × (t ≡ s)))

stays :
    (value now : ℕ) (s : Serial) → s.midi_wire.count ≡ 256 → (midi_schedule_at value now s).1 ≡ s
unfolding midi_schedule_at
stays value now s full = rw (schedule-full 256 3200 value now s.midi_wire full) (ground arith)

one_byte :
    (value now : ℕ) (s : Serial)
    → IsWire 256 s.midi_wire
    → AllOrNothing (value ∷ []) s (midi_schedule_at value now s).1
one_byte value now s h = elim (dec_lt s.midi_wire.count 256) [
  | yes room ↦ let r = sent value now s h room in (r.0, inl (omega (arith, room), r.1))
  | no full ↦
      let e : s.midi_wire.count ≡ 256 = omega (arith, full, h.count) in
      let same = stays value now s e in rw same (h, inr (omega (arith, e), refl))
]

two_bytes :
    (a b now : ℕ) (s : Serial)
    → IsWire 256 s.midi_wire
    → s.midi_wire.count + 2 ≤ 256
    → let t = (midi_schedule_at b now (midi_schedule_at a now s).1).1 in
      IsWire 256 t.midi_wire
      × (on_wire t ≡ on_wire s ++ a ∷ b ∷ [])
      × (t.midi_wire.count ≡ s.midi_wire.count + 2)
two_bytes a b now s h room =
    let first = sent a now s h (omega (arith, room)) in
    let second = sent b now _ first.0 (omega (arith, room, first.2)) in
    (
      second.0,
      second.1
          ∙ ap (λ (l : List ℕ). l ++ b ∷ []) first.1
          ∙ append_assoc (on_wire s) (a ∷ []) (b ∷ []),
      omega (arith, first.2, second.2),
    )

three_bytes :
    (a b c now : ℕ) (s : Serial)
    → IsWire 256 s.midi_wire
    → s.midi_wire.count + 3 ≤ 256
    → let t = (midi_schedule_at c now (midi_schedule_at b now (midi_schedule_at a now s).1).1).1 in
      IsWire 256 t.midi_wire × (on_wire t ≡ on_wire s ++ a ∷ b ∷ c ∷ [])
three_bytes a b c now s h room =
    let two = two_bytes a b now s h (omega (arith, room)) in
    let third = sent c now _ two.0 (omega (arith, room, two.2)) in
    (
      third.0,
      third.1
          ∙ ap (λ (l : List ℕ). l ++ c ∷ []) two.1
          ∙ append_assoc (on_wire s) (a ∷ b ∷ []) (c ∷ []),
    )

-- The sizes of the messages of channels.
abbrev size_of : ℕ → ℕ
size_of status =
    if ltb status 0x80 || leb 0xf0 status
    then 0
    else if leb 0xc0 status && ltb status 0xe0
    then 2
    else 3

size_table : tested_below 0xf8 (λ status. message_size status == size_of status) ≡ true
unfolding tested_below message_size
size_table = refl

message_size-size_of : (status : ℕ) → status < 0xf8 → message_size status ≡ size_of status
message_size-size_of status h =
    ground (arith, tested_below_lem 0xf8 (λ v. message_size v == size_of v) status size_table h)

message_size-cases :
    (status data1 data2 : ℕ)
    → leb 0xf8 status ≡ false
    → let bytes = message status data1 data2 in
      ((message_size status ≡ 0) × (bytes ≡ []))
      ⊎ ((message_size status ≡ 2) × (bytes ≡ status ∷ data1 ∷ []))
      ⊎ ((message_size status ≡ 3) × (bytes ≡ status ∷ data1 ∷ data2 ∷ []))
message_size-cases status data1 data2 channel =
    let size = message_size-size_of status (ground (arith, channel)) in
    elim (Bool-cases (ltb status 0x80 || leb 0xf0 status)) [
      | inl other ↦ inl (size ∙ rw other refl, rw channel (rw other refl))
      | inr note ↦ elim (Bool-cases (leb 0xc0 status && ltb status 0xe0)) [
        | inl two ↦ inr (inl (size ∙ rw note (rw two refl), rw channel (rw note (rw two refl))))
        | inr three ↦
            inr (inr (size ∙ rw note (rw three refl), rw channel (rw note (rw three refl))))
      ]
    ]

-- From a wire of 256 places that is sound: eps16_probe_machine_midi puts the whole message on the
-- wire, after the bytes that are there (one byte for a status from 0xf8 on, two for 0xc0 to 0xdf,
-- three for the others from 0x80 to 0xef, and none for any other status), or, exactly when the
-- wire has no room for all of it, changes nothing.
pub midi_lem :
    (now status data1 data2 : ℕ) (s : Serial)
    → IsWire 256 s.midi_wire
    → AllOrNothing
        (message status data1 data2)
        s
        (eps16_probe_machine_midi now status data1 data2 s)
unfolding eps16_probe_machine_midi
midi_lem now status data1 data2 s h = elim (Bool-cases (leb 0xf8 status)) [
  | inl system ↦ rw system (one_byte status now s h)
  | inr channel ↦ elim (message_size-cases status data1 data2 channel) [
    | inl (none, bytes) ↦
        rw bytes
          (rw channel (rw none (h, inl (omega (arith, h.count), sym (append-nil (on_wire s))))))
    | inr (inl (two, bytes)) ↦ elim (dec_le s.midi_wire.count 254) [
      | yes room ↦
          let open_wire : ltb 254 s.midi_wire.count ≡ false = ground arith in
          let r = two_bytes status data1 now s h (omega (arith, room)) in
          rw bytes (rw channel (rw two (rw open_wire (r.0, inl (omega (arith, room), r.1)))))
      | no full ↦
          let closed : ltb 254 s.midi_wire.count ≡ true = ground arith in
          rw bytes (rw channel (rw two (rw closed (h, inr (omega (arith, full), refl)))))
    ]
    | inr (inr (three, bytes)) ↦ elim (dec_le s.midi_wire.count 253) [
      | yes room ↦
          let open_wire : ltb 253 s.midi_wire.count ≡ false = ground arith in
          let r = three_bytes status data1 data2 now s h (omega (arith, room)) in
          rw bytes (rw channel (rw three (rw open_wire (r.0, inl (omega (arith, room), r.1)))))
      | no full ↦
          let closed : ltb 253 s.midi_wire.count ≡ true = ground arith in
          rw bytes (rw channel (rw three (rw closed (h, inr (omega (arith, full), refl)))))
    ]
  ]
]
