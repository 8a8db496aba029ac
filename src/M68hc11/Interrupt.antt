-- ===== src/M68hc11/Interrupt.antt =====
-- Interrupt entry and RTI, over a bus that behaves as memory.
use ensoniq_eps_16_plus.Base.{
  ℕ, ◌+◌, ◌-◌, ◌/◌, ◌%◌, ◌^◌, ◌<◌, ◌||◌, ◌≡◌, refl, arith, if◌then◌else◌, nonzero, u8, u16, List,
  ◌∷◌, ◌++◌, ◌∙◌, ap, bit_or, bit_and, Bool, true, false, not, Bool-cases, inl, inr,
}
use ensoniq_eps_16_plus.Base.Fields.{bit_and-lt}
use ensoniq_eps_16_plus.M68hc11.Core.{
  Bus, Core, ◌>>=◌, ◌>>◌, push8, pull8, push16, pull16, read16, ccr_x, ccr_i, when, put_a, put_b,
  put_x, put_y, put_pc, put_ccr, gets, finish,
}
use ensoniq_eps_16_plus.M68hc11.Flags.{flag, clear_ccr, raise_ccr}
use ensoniq_eps_16_plus.M68hc11.Memory.{rti, pull_registers}
use ensoniq_eps_16_plus.M68hc11.Step.{interrupt, enter_interrupt}
use ensoniq_eps_16_plus.M68hc11.Effects.{IsWord}
use ensoniq_eps_16_plus.M68hc11.Stack.{
  IsRam, Holds, length, Holds-view, Ready, Ready-push8, Ready-push16, pull8_lem,
}
use ensoniq_eps_16_plus.M68hc11.Frame.{
  Frame, tail_bytes, frame_bytes, Restored, IsFrame, join_bytes, frame_of, x_mask,
}

module _ {M : Type 0} ⦃bus : Bus M⦄ {view : M → ℕ → ℕ} (ram : IsRam bus view) where
  pull_registers_lem :
      (c : Core M) (f : Frame) (rest : List ℕ)
      → IsFrame f
      → Holds (view c.mem) c.sp (tail_bytes f ++ rest)
      → Restored f (pull_registers c).1
        × ((pull_registers c).1.ccr ≡ c.ccr)
        × Holds (view (pull_registers c).1.mem) (pull_registers c).1.sp rest
  unfolding pull_registers ◌>>=◌ ◌>>◌ put_a put_b put_x put_y put_pc finish pull16 gets
  pull_registers_lem c f rest v h =
      let t7 : List ℕ = u8 f.pc ∷ rest in
      let t6 : List ℕ = u8 (f.pc / 2 ^ 8) ∷ t7 in
      let t5 : List ℕ = u8 f.y ∷ t6 in
      let t4 : List ℕ = u8 (f.y / 2 ^ 8) ∷ t5 in
      let t3 : List ℕ = u8 f.x ∷ t4 in
      let t2 : List ℕ = u8 (f.x / 2 ^ 8) ∷ t3 in
      let h1 = pull8_lem ram c f.b (f.a ∷ t2) h in
      let c1 = (pull8 c).1 in
      let h2 = pull8_lem ram c1 f.a t2 h1.1 in
      let c2 = (pull8 c1).1 in
      let h3 = pull8_lem ram c2 (u8 (f.x / 2 ^ 8)) t3 h2.1 in
      let c3 = (pull8 c2).1 in
      let h4 = pull8_lem ram c3 (u8 f.x) t4 h3.1 in
      let c4 = (pull8 c3).1 in
      let h5 = pull8_lem ram c4 (u8 (f.y / 2 ^ 8)) t5 h4.1 in
      let c5 = (pull8 c4).1 in
      let h6 = pull8_lem ram c5 (u8 f.y) t6 h5.1 in
      let c6 = (pull8 c5).1 in
      let h7 = pull8_lem ram c6 (u8 (f.pc / 2 ^ 8)) t7 h6.1 in
      let c7 = (pull8 c6).1 in
      let h8 = pull8_lem ram c7 (u8 f.pc) rest h7.1 in
      (
        record {
          b = ap (λ (t : ℕ). u8 t) h1.0 ∙ omega arith;
          a = ap (λ (t : ℕ). u8 t) h2.0 ∙ omega arith;
          x = join_bytes _ _ f.x h3.0 h4.0 v.x;
          y = join_bytes _ _ f.y h5.0 h6.0 v.y;
          pc = join_bytes _ _ f.pc h7.0 h8.0 v.pc;
        },
        refl,
        h8.1,
      )

  -- The core when all six registers are pushed.
  abbrev saved : Core M → Core M
  saved c =
      let c3 = (push16 c.x (push16 c.y (push16 c.pc c).1).1).1 in
      (push8 c.ccr (push8 c.b (push8 c.a c3).1).1).1

  -- The frame goes onto the stack, above what was there.
  enter_interrupt-Holds :
      (vector : ℕ) (c : Core M) (rest : List ℕ)
      → c.sp < 2 ^ 16
      → length rest + 9 < 2 ^ 16
      → Holds (view c.mem) c.sp rest
      → Holds
          (view (enter_interrupt vector c).1.mem)
          (enter_interrupt vector c).1.sp
          (frame_bytes (frame_of c) ++ rest)
  unfolding enter_interrupt ◌>>=◌ ◌>>◌ gets raise_ccr finish put_pc read16 push8 push16
  enter_interrupt-Holds vector c rest hs hl h =
      let r0 : Ready ram 9 rest c = record { sp_word = hs; fits = hl; holds = h } in
      let r3 = Ready-push16 ram c.x (Ready-push16 ram c.y (Ready-push16 ram c.pc r0)) in
      let r6 = Ready-push8 ram c.ccr (Ready-push8 ram c.b (Ready-push8 ram c.a r3)) in
      let m6 = (saved c).mem in
      let m7 = (bus.read8 m6 vector).1 in
      Holds-view (view m6) (view (bus.read8 m7 (u16 (vector + 1))).1)
        (frame_bytes (frame_of c) ++ rest) (saved c).sp
        (λ b. ram.read_view m7 (u16 (vector + 1)) b ∙ ram.read_view m6 vector b) r6.holds

  -- RTI takes a frame off the stack; the X mask can be cleared by it, and not set.
  rti_lem :
      (c : Core M) (f : Frame) (rest : List ℕ)
      → IsFrame f
      → Holds (view c.mem) c.sp (frame_bytes f ++ rest)
      → Restored f (rti c).1
        × ((rti c).1.ccr ≡ (if flag ccr_x c then f.ccr else bit_and f.ccr 0xbf))
        × Holds (view (rti c).1.mem) (rti c).1.sp rest
  unfolding rti ◌>>=◌ ◌>>◌ gets put_ccr when clear_ccr
  rti_lem c f rest v h =
      let h0 = pull8_lem ram c f.ccr (tail_bytes f ++ rest) h in
      let c1 = (pull8 c).1 in
      let c2 : Core M = record c1 { ccr = u8 (pull8 c).0 } in
      go c2 (flag ccr_x c) (ap (λ (t : ℕ). u8 t) h0.0 ∙ omega arith) h0.1
    where
      go :
          (c : Core M) (x_was_set : Bool)
          → c.ccr ≡ f.ccr
          → Holds (view c.mem) c.sp (tail_bytes f ++ rest)
          → let c' = (pull_registers (when (not x_was_set) (clear_ccr ccr_x) c).1).1 in
            Restored f c'
            × (c'.ccr ≡ (if x_was_set then f.ccr else bit_and f.ccr 0xbf))
            × Holds (view c'.mem) c'.sp rest
      go c true e h = let r = pull_registers_lem c f rest v h in (r.0, r.1 ∙ e, r.2)
      go c false e h =
          let r = pull_registers_lem (clear_ccr ccr_x c).1 f rest v h in
          (
            r.0,
            r.1
                ∙ ap (λ (t : ℕ). u8 (bit_and t 0xbf)) e
                ∙ omega (arith, bit_and-lt 8 f.ccr 0xbf (omega arith)),
            r.2,
          )

  sp-enter_interrupt :
      (vector : ℕ) (c : Core M)
      → c.sp < 2 ^ 16
      → (enter_interrupt vector c).1.sp ≡ (c.sp + 2 ^ 16 - 9) % 2 ^ 16
  unfolding enter_interrupt ◌>>=◌ ◌>>◌ gets raise_ccr finish put_pc read16 push8 push16
  sp-enter_interrupt vector c h = omega arith

  sp-pull_registers : (c : Core M) → c.sp < 2 ^ 16 → (pull_registers c).1.sp ≡ (c.sp + 8) % 2 ^ 16
  unfolding pull_registers ◌>>=◌ ◌>>◌ put_a put_b put_x put_y put_pc finish pull16 gets pull8
  sp-pull_registers c h = omega arith

  sp-rti : (c : Core M) → c.sp < 2 ^ 16 → (rti c).1.sp ≡ (c.sp + 9) % 2 ^ 16
  unfolding rti ◌>>=◌ ◌>>◌ gets put_ccr clear_ccr pull8 when
  sp-rti c h = elim (Bool-cases (flag ccr_x c)) [
    | inl e ↦ rw e (sp-pull_registers _ (omega arith) ∙ omega arith)
    | inr e ↦ rw e (sp-pull_registers _ (omega arith) ∙ omega arith)
  ]

  ccr-enter_interrupt :
      (vector : ℕ) (c : Core M) → (enter_interrupt vector c).1.ccr ≡ u8 (bit_or c.ccr ccr_i)
  unfolding enter_interrupt ◌>>=◌ ◌>>◌ gets raise_ccr finish put_pc put_ccr read16 push8 push16
  ccr-enter_interrupt vector c = refl

  interrupt_enabled :
      (vector : ℕ) (c : Core M)
      → c.illegal ≡ false
      → flag ccr_i c ≡ false
      → interrupt vector c ≡ enter_interrupt vector c
  unfolding interrupt
  interrupt_enabled vector c legal enabled = go (c.illegal || flag ccr_i c) (cc)
    where
      go :
          (b : Bool)
          → b ≡ false
          → (if b then (0, c) else enter_interrupt vector c) ≡ enter_interrupt vector c
      go true e = cc
      go false e = refl

  -- Over a bus that behaves as memory, for a core that has met no illegal opcode, whose
  -- registers are within their widths, whose interrupts are enabled, and whose stack holds
  -- fewer bytes than the address space has room for beside a frame of nine: an RTI straight
  -- after the entry of an interrupt, at any vector, gives back B, A, X, Y, PC, the condition
  -- codes and the stack pointer, and the stack holds the bytes that it held.
  pub rti-interrupt :
      (vector : ℕ) (c : Core M) (rest : List ℕ)
      → IsWord c
      → c.illegal ≡ false
      → flag ccr_i c ≡ false
      → length rest + 9 < 2 ^ 16
      → Holds (view c.mem) c.sp rest
      → Restored (frame_of c) (rti (interrupt vector c).1).1
        × ((rti (interrupt vector c).1).1.ccr ≡ c.ccr)
        × ((rti (interrupt vector c).1).1.sp ≡ c.sp)
        × Holds (view (rti (interrupt vector c).1).1.mem) (rti (interrupt vector c).1).1.sp rest
  rti-interrupt vector c rest w legal enabled fits h =
      let c1 = (enter_interrupt vector c).1 in
      let v : IsFrame (frame_of c) = record {
        ccr = w.ccr_byte;
        b = w.b_byte;
        a = w.a_byte;
        x = w.x_word;
        y = w.y_word;
        pc = w.pc_word;
      } in
      let r =
        rti_lem c1 (frame_of c) rest v (enter_interrupt-Holds vector c rest w.sp_word fits h) in
      let x_kept =
        ap (λ (t : ℕ). if nonzero (bit_and t 0x40) then c.ccr else bit_and c.ccr 0xbf)
          (ccr-enter_interrupt vector c) in
      let sp1 = sp-enter_interrupt vector c w.sp_word in
      rw (interrupt_enabled vector c legal enabled) (
        r.0,
        r.1 ∙ x_kept ∙ x_mask c.ccr w.ccr_byte,
        sp-rti c1 (omega (arith, sp1)) ∙ omega (arith, sp1, w.sp_word),
        r.2,
      )
