-- ===== src/M68hc11/Stack.antt =====
-- The stack of native/m68hc11_core.c over a bus that behaves as memory: `push8` and `pull8` against
-- the list of the bytes that the stack holds.
use ensoniq_eps_16_plus.Base.{
  ℕ, suc, ◌+◌, ◌/◌, ◌%◌, ◌^◌, ◌<◌, ◌≡◌, ◌≢◌, arith, ◌==◌, if◌then◌else◌, u8, u16, sub16, List, [],
  ◌∷◌, ◌∙◌,
}
use ensoniq_eps_16_plus.M68hc11.Core.{Bus, Core, ◌>>=◌, ◌>>◌, push8, pull8, push16}

-- `view` is what a read returns: reads change nothing that it shows, and a write shows at its
-- address alone.
pub record IsRam {M : Type 0} (bus : Bus M) (view : M → ℕ → ℕ) : Type 0 where
  pub read_value : (m : M) (a : ℕ) → (bus.read8 m a).0 ≡ view m a
  pub read_view : (m : M) (a b : ℕ) → view (bus.read8 m a).1 b ≡ view m b
  pub write_view :
      (m : M) (a v b : ℕ) → view (bus.write8 m a v) b ≡ (if b == a then v else view m b)

abbrev pub length : List ℕ → ℕ
length [] = 0
length (v ∷ vs) = suc (length vs)

-- The bytes `vs` stand above the stack pointer `sp`, round the end of the address space.
abbrev pub Holds : (ℕ → ℕ) → ℕ → List ℕ → Type 0
Holds at sp [] = Unit
Holds at sp (v ∷ vs) = (at (u16 (sp + 1)) ≡ v) × Holds at (u16 (sp + 1)) vs

-- A write below the bytes, at a distance `d` that does not reach round to them, keeps them.
Holds-below :
    (before after : ℕ → ℕ) (p d : ℕ) (vs : List ℕ)
    → p < 2 ^ 16
    → ((b : ℕ) → b ≢ p → after b ≡ before b)
    → d + length vs < 2 ^ 16
    → Holds before (u16 (p + d)) vs
    → Holds after (u16 (p + d)) vs
Holds-below before after p d [] hp keep fits h = tt
Holds-below before after p d (v ∷ vs) hp keep fits h =
    let here : u16 (u16 (p + d) + 1) ≡ u16 (p + (d + 1)) = omega arith in
    let rest : Holds after (u16 (p + (d + 1))) vs =
      Holds-below before after p (d + 1) vs hp keep (omega arith) (rw here at h.1) in
    (keep _ (omega arith) ∙ h.0, rw here rest)

-- What the memory shows decides what the stack holds.
pub Holds-view :
    (before after : ℕ → ℕ) (vs : List ℕ) (sp : ℕ)
    → ((b : ℕ) → after b ≡ before b)
    → Holds before sp vs
    → Holds after sp vs
Holds-view before after [] sp keep h = tt
Holds-view before after (v ∷ vs) sp keep h =
    (keep _ ∙ h.0, Holds-view before after vs (u16 (sp + 1)) keep h.1)

module _ {M : Type 0} ⦃bus : Bus M⦄ {view : M → ℕ → ℕ} (ram : IsRam bus view) where
  -- A push puts the byte on top of what the stack holds.
  pub Holds-push8 :
      (c : Core M) (v : ℕ) (vs : List ℕ)
      → c.sp < 2 ^ 16
      → length vs < 2 ^ 16
      → Holds (view c.mem) c.sp vs
      → Holds (view (push8 v c).1.mem) (push8 v c).1.sp (v ∷ vs)
  unfolding push8 ◌>>=◌ ◌>>◌
  Holds-push8 c v vs hs hl h =
      let top : u16 (sub16 c.sp 1 % 2 ^ 16 + 1) ≡ c.sp = omega arith in
      let wr = ram.write_view c.mem c.sp v in
      let same : c.sp ≡ u16 (c.sp + 0) = omega arith in
      let kept : Holds (view (bus.write8 c.mem c.sp v)) (u16 (c.sp + 0)) vs =
        Holds-below (view c.mem) (view (bus.write8 c.mem c.sp v)) c.sp 0 vs hs
          (λ b ne. wr b ∙ ground arith) (omega arith) (rw (← same) h) in
      (rw top (wr c.sp ∙ ground arith), rw top (rw same kept))

  -- A pull returns the byte on top and leaves the others.
  pub pull8_lem :
      (c : Core M) (v : ℕ) (vs : List ℕ)
      → Holds (view c.mem) c.sp (v ∷ vs)
      → ((pull8 c).0 ≡ v) × Holds (view (pull8 c).1.mem) (pull8 c).1.sp vs
  unfolding pull8 ◌>>=◌ ◌>>◌
  pull8_lem c v vs h = (
    ram.read_value _ _ ∙ h.0,
    Holds-view _ _ vs _ (λ b. ram.read_view c.mem (u16 (c.sp + 1)) b) h.1,
  )

  -- The stack of `c` holds `vs` and has room for `n` bytes more.
  pub record Ready (n : ℕ) (vs : List ℕ) (c : Core M) : Type 0 where
    pub sp_word : c.sp < 2 ^ 16
    pub fits : length vs + n < 2 ^ 16
    pub holds : Holds (view c.mem) c.sp vs

  pub Ready-push8 :
      {n : ℕ} {vs : List ℕ} {c : Core M} (v : ℕ)
      → Ready (suc n) vs c
      → Ready n (v ∷ vs) (push8 v c).1
  Ready-push8 {n} {vs} {c} v r = record {
    sp_word = unfold push8 ◌>>◌ ◌>>=◌ in omega arith;
    fits = omega (arith, r.fits);
    holds = Holds-push8 c v vs r.sp_word (omega (arith, r.fits)) r.holds;
  }

  -- A word goes onto the stack with its low byte first.
  pub Ready-push16 :
      {n : ℕ} {vs : List ℕ} {c : Core M} (v : ℕ)
      → Ready (suc (suc n)) vs c
      → Ready n (u8 (v / 2 ^ 8) ∷ u8 v ∷ vs) (push16 v c).1
  unfolding push16 ◌>>◌
  Ready-push16 v r = Ready-push8 (u8 (v / 2 ^ 8)) (Ready-push8 (u8 v) r)
