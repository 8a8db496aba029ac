-- ===== src/Machine/Host/RegisterPort.antt =====
-- native/rom_probe.c, lines 620 to 654 and 1145 to 1252: a register and an instruction that are
-- written through the port read back through it.
use ensoniq_eps_16_plus.Base.{
  ℕ, ◌+◌, ◌-◌, ◌*◌, ◌/◌, ◌%◌, ◌^◌, ◌<◌, ◌≡◌, ◌≢◌, refl, ◌∙◌, ap, arith, ltb, bit_and, true, update,
  Option,
}
use native.Mathlib.Nat.{mod-add-div', mod-lt}
use ensoniq_eps_16_plus.Base.Fields.{bit_and_mask}
use ensoniq_eps_16_plus.Es5510.Registers.{es5510_core_write_reg}
use ensoniq_eps_16_plus.Machine.Host.{
  Host, es5510_read, es5510_write, es5510_read_register, select_register, put_latch, latch_byte,
}
use ensoniq_eps_16_plus.Machine.Host.Latches.{put_latch32}

-- `x & ((1 << k) - 1)` is a remainder.
pub mask_mod : (k x : ℕ) → 0 < 2 ^ k → bit_and x (2 ^ k - 1) ≡ x % 2 ^ k
mask_mod k x positive =
    let e : x / 2 ^ k * 2 ^ k + x % 2 ^ k ≡ x = omega (arith, mod-add-div' x (2 ^ k)) in
    rw e at (bit_and_mask k (x / 2 ^ k) (x % 2 ^ k) (mod-lt x positive))

-- Three bytes of a latch, the highest first.
three_bytes :
    (a b c x : ℕ)
    → a < 256
    → b < 256
    → c < 256
    → x < 2 ^ 32
    → bit_and (put_latch 32 0 c (put_latch 32 1 b (put_latch 32 2 a x))) 0xffffff
      ≡ a * 2 ^ 16 + b * 2 ^ 8 + c
three_bytes a b c x ha hb hc fits =
    let first = put_latch32 2 a x (omega arith) ha fits in
    let l = put_latch 32 2 a x in
    let second = put_latch32 1 b l (omega arith) hb (omega (arith, first)) in
    let m = put_latch 32 1 b l in
    let third = put_latch32 0 c m (omega arith) hc (omega (arith, first, second)) in
    let masked = mask_mod 24 (put_latch 32 0 c m) (omega arith) in
    omega (arith, first, second, third, masked)

bytes_of_24 :
    (a b c : ℕ)
    → a < 256
    → b < 256
    → c < 256
    → let v = a * 2 ^ 16 + b * 2 ^ 8 + c in
      (latch_byte 2 v ≡ a) × (latch_byte 1 v ≡ b) × (latch_byte 0 v ≡ c)
bytes_of_24 a b c ha hb hc =
    let v = a * 2 ^ 16 + b * 2 ^ 8 + c in
    (
      omega (arith, mask_mod 8 (v / 2 ^ 16) (omega arith)),
      omega (arith, mask_mod 8 (v / 2 ^ 8) (omega arith)),
      omega (arith, mask_mod 8 (v / 1) (omega arith)),
    )

module _ (audio_input_sample : ℕ → ℕ → Option ℕ) (now : ℕ) where
  -- The odd address of a register of the port.
  abbrev pub write_port : ℕ → ℕ → Host → Host
  write_port register value =
      es5510_write audio_input_sample now (0x260000 + 2 * register + 1) value

  abbrev pub read_port : ℕ → Host → ℕ
  read_port register h = (es5510_read audio_input_sample now (0x260000 + 2 * register + 1) h).0

  -- The register file keeps 24 digits.
  stored_value :
      (reg value : ℕ) (h : Host)
      → reg < 0xc0
      → (write_port 0xa0 reg (record h { gpr_latch = value })).es5510.gpr
        ≡ update h.es5510.gpr reg (bit_and (bit_and value 0xffffff) 0xffffff)
  unfolding es5510_write es5510_core_write_reg
  stored_value reg value h low = let below : ltb reg 0xc0 ≡ true = ground arith in rw below refl

  selected_value :
      (reg : ℕ) (h : Host)
      → reg < 0xc0
      → reg ≢ 0x80
      → (write_port 0x80 reg h).gpr_latch ≡ bit_and (h.es5510.gpr reg) 0xffffff
  unfolding es5510_write select_register es5510_read_register
  selected_value reg h low other = ground arith

  read_latch :
      (h : Host)
      → (read_port 0 h ≡ latch_byte 2 h.gpr_latch)
        × (read_port 1 h ≡ latch_byte 1 h.gpr_latch)
        × (read_port 2 h ≡ latch_byte 0 h.gpr_latch)
  unfolding es5510_read
  read_latch h = (ground arith, ground arith, ground arith)

  -- Three bytes go to the latch, and the latch to a register.
  abbrev pub write_register : ℕ → ℕ → ℕ → ℕ → Host → Host
  write_register reg a b c h =
      write_port 0xa0 reg (write_port 2 c (write_port 1 b (write_port 0 a h)))

  latched :
      (a b c : ℕ) (h : Host)
      → write_port 2 c (write_port 1 b (write_port 0 a h)) ≡ record h {
        gpr_latch = put_latch 32 0 c (put_latch 32 1 b (put_latch 32 2 a h.gpr_latch));
      }
  unfolding es5510_write
  latched a b c h = refl

  -- For a register below 0xc0 other than 0x80, from any state whose latch has 32 digits: when three
  -- bytes are written to the latch (registers 0 to 2 of the port) and then stored (0xa0), the register
  -- holds their 24 digits and every other one what it held. When later, with any value in the latch,
  -- the register is selected (0x80), reads of the latch return the three bytes in order.
  pub register_port-roundtrip :
      (reg a b c later : ℕ) (h : Host)
      → reg < 0xc0
      → reg ≢ 0x80
      → a < 256
      → b < 256
      → c < 256
      → h.gpr_latch < 2 ^ 32
      → let stored = write_register reg a b c h in
        let selected = write_port 0x80 reg (record stored { gpr_latch = later }) in
        (stored.es5510.gpr ≡ update h.es5510.gpr reg (a * 2 ^ 16 + b * 2 ^ 8 + c))
        × (read_port 0 selected ≡ a)
        × (read_port 1 selected ≡ b)
        × (read_port 2 selected ≡ c)
  register_port-roundtrip reg a b c later h low other ha hb hc fits =
      let stored = write_register reg a b c h in
      let latch = put_latch 32 0 c (put_latch 32 1 b (put_latch 32 2 a h.gpr_latch)) in
      let v = a * 2 ^ 16 + b * 2 ^ 8 + c in
      let value : bit_and (bit_and latch 0xffffff) 0xffffff ≡ v =
        rw (three_bytes a b c h.gpr_latch ha hb hc fits)
          (mask_mod 24 v (omega arith) ∙ omega (arith, ha, hb, hc)) in
      let file : stored.es5510.gpr ≡ update h.es5510.gpr reg v =
        ap (λ (k : Host). (write_port 0xa0 reg k).es5510.gpr) (latched a b c h)
        ∙ stored_value reg latch h low
        ∙ ap (update h.es5510.gpr reg) value in
      let held : stored.es5510.gpr reg ≡ v = rw file (ground arith) in
      let selected = write_port 0x80 reg (record stored { gpr_latch = later }) in
      let out : selected.gpr_latch ≡ v =
        selected_value reg (record stored { gpr_latch = later }) low other
        ∙ rw held (mask_mod 24 v (omega arith) ∙ omega (arith, ha, hb, hc)) in
      let read = read_latch selected in
      let bytes = bytes_of_24 a b c ha hb hc in
      (
        file,
        read.0 ∙ ap (latch_byte 2) out ∙ bytes.0,
        read.1 ∙ ap (latch_byte 1) out ∙ bytes.1,
        read.2 ∙ ap (latch_byte 0) out ∙ bytes.2,
      )
