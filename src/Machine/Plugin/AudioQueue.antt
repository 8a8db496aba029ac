-- ===== src/Machine/Plugin/AudioQueue.antt =====
-- vst3/ProbeMachine.c, lines 340 to 353 and 711 to 721: the ring of audio frames as a list.
use ensoniq_eps_16_plus.Base.{
  ℕ, zero, suc, ◌+◌, ◌-◌, ◌%◌, ◌<◌, ◌≡◌, ◌⊎◌, inl, inr, ◌^◌, refl, sym, ◌∙◌, ap, arith, ◌==◌, true,
  false, List, [], ◌∷◌, ◌++◌,
}
use native.Mathlib.Decide.{dec_lt}
use ensoniq_eps_16_plus.Base.Rings.{window, window-update, write_next}
use ensoniq_eps_16_plus.Machine.Plugin.{
  AudioRing, plugin_queue_audio, eps16_probe_machine_drain_audio,
}

module _ {ℓ} {A : Type ℓ} where
  -- The ring holds `count` frames, fewer than its capacity.
  pub record IsAudioRing (count : ℕ) (q : AudioRing A) : Type 0 where
    pub read : q.read < 1024
    pub room : count < 1024
    pub write : q.write ≡ (q.read + count) % 1024

  abbrev pub waiting : ℕ → AudioRing A → List A
  waiting count q = window 1024 q.frames q.read count

  abbrev pub drop : ℕ → List A → List A
  drop zero xs = xs
  drop (suc n) [] = []
  drop (suc n) (x ∷ xs) = drop n xs

  abbrev pub take : ℕ → List A → List A
  take zero xs = []
  take (suc n) [] = []
  take (suc n) (x ∷ xs) = x ∷ take n xs

  -- A frame for a ring that has room, and for a full one.
  queued :
      (frame : A) (count : ℕ) (q : AudioRing A)
      → IsAudioRing count q
      → count < 1023
      → let t = plugin_queue_audio frame q in
        IsAudioRing (suc count) t
        × (waiting (suc count) t ≡ waiting count q ++ frame ∷ [])
        × (t.drops ≡ q.drops)
  unfolding plugin_queue_audio
  queued frame count q h more =
      let next = write_next 1024 q.read count q.write h.read h.room h.write in
      let free : ((q.write + 1) % 1024 == q.read) ≡ false =
        ground (arith, next.1, h.read, h.write) in
      rw free (
        record { read = h.read; room = omega (arith, more); write = omega (arith, next.1) },
        window-update 1024 q.frames frame count q.read q.write h.read h.room h.write,
        refl,
      )

  replaced :
      (frame : A) (q : AudioRing A)
      → IsAudioRing 1023 q
      → let t = plugin_queue_audio frame q in
        IsAudioRing 1023 t
        × (waiting 1023 t ≡ drop 1 (waiting 1023 q) ++ frame ∷ [])
        × (t.drops ≡ (q.drops + 1) % 2 ^ 64)
  unfolding plugin_queue_audio
  replaced frame q h =
      let full : ((q.write + 1) % 1024 == q.read) ≡ true = ground (arith, h.read, h.write) in
      let read : (q.read + 1) % 1024 < 1024 = omega arith in
      let write : q.write ≡ ((q.read + 1) % 1024 + 1022) % 1024 = omega (arith, h.write) in
      rw full (
        record { read = read; room = omega arith; write = omega (arith, h.write) },
        window-update 1024 q.frames frame 1022 ((q.read + 1) % 1024) q.write read (omega arith)
            write,
        refl,
      )

  -- The host takes as many of the oldest frames as it has room for and as there are.
  pub drain_audio_lem :
      (capacity count : ℕ) (q : AudioRing A)
      → IsAudioRing count q
      → let r = eps16_probe_machine_drain_audio capacity q in
        (r.0 ≡ take capacity (waiting count q))
        × IsAudioRing (count - capacity) r.1
        × (waiting (count - capacity) r.1 ≡ drop capacity (waiting count q))
  unfolding eps16_probe_machine_drain_audio
  drain_audio_lem zero count q h =
      let e : count - 0 ≡ count = omega arith in (refl, rw e h, rw e refl)
  drain_audio_lem (suc capacity) zero q h =
      let e : 0 - suc capacity ≡ 0 = omega arith in
      let empty : (q.read == q.write) ≡ true = ground (arith, h.read, h.write) in
      rw empty (refl, rw e h, rw e refl)
  drain_audio_lem (suc capacity) (suc count) q h =
      let e : suc count - suc capacity ≡ count - capacity = omega arith in
      let filled : (q.read == q.write) ≡ false = ground (arith, h.read, h.write, h.room) in
      let rest : IsAudioRing count (record q { read = (q.read + 1) % 1024 }) = record {
        read = omega arith;
        room = omega (arith, h.room);
        write = omega (arith, h.write);
      } in
      let ih = drain_audio_lem capacity count (record q { read = (q.read + 1) % 1024 }) rest in
      rw filled (ap (λ (l : List A). q.frames q.read ∷ l) ih.0, rw e ih.1, rw e ih.2)

  -- A frame in the queue that its listener sees: at most 1023, and a full one loses its oldest.
  abbrev pub Queued : A → ℕ → AudioRing A → AudioRing A → Type ℓ
  Queued frame count q t =
      ((count < 1023)
        × IsAudioRing (suc count) t
        × (waiting (suc count) t ≡ waiting count q ++ frame ∷ [])
        × (t.drops ≡ q.drops))
      ⊎ ((count ≡ 1023)
          × IsAudioRing 1023 t
          × (waiting 1023 t ≡ drop 1 (waiting count q) ++ frame ∷ [])
          × (t.drops ≡ (q.drops + 1) % 2 ^ 64))

  -- For a ring that holds a count of frames below 1024, of any type: plugin_queue_audio appends
  -- the frame when there are fewer than 1023, and when there are 1023 it also loses the oldest
  -- frame and counts it; eps16_probe_machine_drain_audio returns as many of the oldest frames
  -- as the capacity allows, in order, and leaves the others. Both keep the ring sound.
  pub audio_queue_refines :
      (frame : A) (capacity count : ℕ) (q : AudioRing A)
      → IsAudioRing count q
      → let r = eps16_probe_machine_drain_audio capacity q in
        Queued frame count q (plugin_queue_audio frame q)
        × (r.0 ≡ take capacity (waiting count q))
        × IsAudioRing (count - capacity) r.1
        × (waiting (count - capacity) r.1 ≡ drop capacity (waiting count q))
  audio_queue_refines frame capacity count q h =
      let drained = drain_audio_lem capacity count q h in
      (
        elim (dec_lt count 1023) [
          | yes more ↦ let r = queued frame count q h more in inl (more, r.0, r.1, r.2)
          | no full ↦
              let e : count ≡ 1023 = omega (arith, full, h.room) in
              let r = replaced frame q (rw e at h) in
              let same = ap (λ (n : ℕ). drop 1 (waiting n q) ++ frame ∷ []) (sym e) in
              inr (e, r.0, r.1 ∙ same, r.2)
        ],
        drained.0,
        drained.1,
        drained.2,
      )
