-- ===== src/Machine/Host/ProgramPort.antt =====
-- native/rom_probe.c, lines 1145 to 1252: an instruction that is written through the port reads back
-- through it.
use ensoniq_eps_16_plus.Base.{
  ℕ, ◌+◌, ◌*◌, ◌/◌, ◌^◌, ◌<◌, ◌≡◌, refl, ◌∙◌, ap, arith, ltb, bit_and, true, update, Option,
}
use ensoniq_eps_16_plus.Es5510.Core.{es5510_core_set_halted}
use ensoniq_eps_16_plus.Machine.Host.{
  Host, es5510_read, es5510_write, es5510_read_register, select_register, put_latch, latch_byte,
}
use ensoniq_eps_16_plus.Machine.Host.Latches.{put_latch64}
use ensoniq_eps_16_plus.Machine.Host.RegisterPort.{mask_mod, write_port, read_port}

-- Six bytes, the highest first.
abbrev pub word48 : ℕ → ℕ → ℕ → ℕ → ℕ → ℕ → ℕ
word48 a b c d e f = a * 2 ^ 40 + b * 2 ^ 32 + c * 2 ^ 24 + d * 2 ^ 16 + e * 2 ^ 8 + f

abbrev six_latched : ℕ → ℕ → ℕ → ℕ → ℕ → ℕ → ℕ → ℕ
six_latched a b c d e f x =
    put_latch 64 0 f (
      put_latch 64 1 e
        (put_latch 64 2 d (put_latch 64 3 c (put_latch 64 4 b (put_latch 64 5 a x)))))

module _ (a b c d e f : ℕ) (ha : a < 256) (hb : b < 256) (hc : c < 256) (hd : d < 256)
    (he : e < 256) (hf : f < 256) where
  six_bytes :
      (x : ℕ) → x < 2 ^ 64 → bit_and (six_latched a b c d e f x) 0xffffffffffff ≡ word48 a b c d e f
  six_bytes x fits =
      let x5 = put_latch 64 5 a x in
      let x4 = put_latch 64 4 b x5 in
      let x3 = put_latch 64 3 c x4 in
      let x2 = put_latch 64 2 d x3 in
      let x1 = put_latch 64 1 e x2 in
      let e5 = put_latch64 5 a x (omega arith) ha fits in
      let e4 = put_latch64 4 b x5 (omega arith) hb (omega (arith, e5)) in
      let e3 = put_latch64 3 c x4 (omega arith) hc (omega (arith, e5, e4)) in
      let e2 = put_latch64 2 d x3 (omega arith) hd (omega (arith, e5, e4, e3)) in
      let e1 = put_latch64 1 e x2 (omega arith) he (omega (arith, e5, e4, e3, e2)) in
      let e0 = put_latch64 0 f x1 (omega arith) hf (omega (arith, e5, e4, e3, e2, e1)) in
      let masked = mask_mod 48 (put_latch 64 0 f x1) (omega arith) in
      omega (arith, e5, e4, e3, e2, e1, e0, masked)

  bytes_of_48 :
      let v = word48 a b c d e f in
      (latch_byte 5 v ≡ a)
      × (latch_byte 4 v ≡ b)
      × (latch_byte 3 v ≡ c)
      × (latch_byte 2 v ≡ d)
      × (latch_byte 1 v ≡ e)
      × (latch_byte 0 v ≡ f)
  bytes_of_48 =
      let v = word48 a b c d e f in
      (
        omega (arith, mask_mod 8 (v / 2 ^ 40) (omega arith)),
        omega (arith, mask_mod 8 (v / 2 ^ 32) (omega arith)),
        omega (arith, mask_mod 8 (v / 2 ^ 24) (omega arith)),
        omega (arith, mask_mod 8 (v / 2 ^ 16) (omega arith)),
        omega (arith, mask_mod 8 (v / 2 ^ 8) (omega arith)),
        omega (arith, mask_mod 8 (v / 1) (omega arith)),
      )

module _ (audio_input_sample : ℕ → ℕ → Option ℕ) (now : ℕ) where
  abbrev port : ℕ → ℕ → Host → Host
  port = write_port audio_input_sample now

  abbrev read : ℕ → Host → ℕ
  read = read_port audio_input_sample now

  -- Six bytes go to the latch, and the latch to a place in the program.
  abbrev pub write_instruction : ℕ → ℕ → ℕ → ℕ → ℕ → ℕ → ℕ → Host → Host
  write_instruction place a b c d e f h =
      port 0xc0 place (port 8 f (port 7 e (port 6 d (port 5 c (port 4 b (port 3 a h))))))

  latched :
      (a b c d e f : ℕ) (h : Host)
      → port 8 f (port 7 e (port 6 d (port 5 c (port 4 b (port 3 a h)))))
        ≡ record h { instruction_latch = six_latched a b c d e f h.instruction_latch }
  unfolding es5510_write
  latched a b c d e f h = refl

  stored_instruction :
      (place latch : ℕ) (h : Host)
      → place < 160
      → let q = port 0xc0 place (record h { instruction_latch = latch }) in
        (q.es5510.instruction ≡ update h.es5510.instruction place (bit_and latch 0xffffffffffff))
        × (q.es5510.halted ≡ true)
        × (q.upload_active ≡ true)
  unfolding es5510_write es5510_core_set_halted
  stored_instruction place latch h low =
      let below : ltb place 160 ≡ true = ground arith in rw below (refl, refl, refl)

  selected_instruction :
      (place : ℕ) (h : Host)
      → place < 160
      → h.upload_active ≡ true
      → (port 0x80 place h).instruction_latch ≡ h.es5510.instruction place
  unfolding es5510_write select_register es5510_read_register
  selected_instruction place h low active = ground arith

  read_latch :
      (h : Host)
      → (read 3 h ≡ latch_byte 5 h.instruction_latch)
        × (read 4 h ≡ latch_byte 4 h.instruction_latch)
        × (read 5 h ≡ latch_byte 3 h.instruction_latch)
        × (read 6 h ≡ latch_byte 2 h.instruction_latch)
        × (read 7 h ≡ latch_byte 1 h.instruction_latch)
        × (read 8 h ≡ latch_byte 0 h.instruction_latch)
  unfolding es5510_read
  read_latch h =
      (ground arith, ground arith, ground arith, ground arith, ground arith, ground arith)

  -- For a place below 160, from any state whose latch has 64 digits: when six bytes are written
  -- to the latch (registers 3 to 8 of the port) and stored (0xc0), the program holds their 48
  -- digits at the place and is otherwise as it was, and the processor is halted. When the place
  -- is then selected (0x80), with any value in the latch, reads of the latch return the six
  -- bytes in order.
  pub program_port-roundtrip :
      (place a b c d e f later : ℕ) (h : Host)
      → place < 160
      → a < 256
      → b < 256
      → c < 256
      → d < 256
      → e < 256
      → f < 256
      → h.instruction_latch < 2 ^ 64
      → let stored = write_instruction place a b c d e f h in
        let selected = port 0x80 place (record stored { instruction_latch = later }) in
        (stored.es5510.instruction ≡ update h.es5510.instruction place (word48 a b c d e f))
        × (stored.es5510.halted ≡ true)
        × (read 3 selected ≡ a)
        × (read 4 selected ≡ b)
        × (read 5 selected ≡ c)
        × (read 6 selected ≡ d)
        × (read 7 selected ≡ e)
        × (read 8 selected ≡ f)
  program_port-roundtrip place a b c d e f later h low ha hb hc hd he hf fits =
      let stored = write_instruction place a b c d e f h in
      let v = word48 a b c d e f in
      let latch = six_latched a b c d e f h.instruction_latch in
      let q = stored_instruction place latch h low in
      let same = latched a b c d e f h in
      let program : stored.es5510.instruction ≡ update h.es5510.instruction place v =
        ap (λ (k : Host). (port 0xc0 place k).es5510.instruction) same
        ∙ q.0
        ∙ ap (update h.es5510.instruction place) (six_bytes a b c d e f ha hb hc hd he hf _ fits) in
      let halted : stored.es5510.halted ≡ true =
        ap (λ (k : Host). (port 0xc0 place k).es5510.halted) same ∙ q.1 in
      let active : stored.upload_active ≡ true =
        ap (λ (k : Host). (port 0xc0 place k).upload_active) same ∙ q.2 in
      let held : stored.es5510.instruction place ≡ v = rw program (ground arith) in
      let selected = port 0x80 place (record stored { instruction_latch = later }) in
      let out : selected.instruction_latch ≡ v =
        selected_instruction place (record stored { instruction_latch = later }) low active
        ∙ held in
      let latches = read_latch selected in
      let bytes = bytes_of_48 a b c d e f ha hb hc hd he hf in
      (
        program,
        halted,
        latches.0 ∙ ap (latch_byte 5) out ∙ bytes.0,
        latches.1 ∙ ap (latch_byte 4) out ∙ bytes.1,
        latches.2 ∙ ap (latch_byte 3) out ∙ bytes.2,
        latches.3 ∙ ap (latch_byte 2) out ∙ bytes.3,
        latches.4 ∙ ap (latch_byte 1) out ∙ bytes.4,
        latches.5 ∙ ap (latch_byte 0) out ∙ bytes.5,
      )
