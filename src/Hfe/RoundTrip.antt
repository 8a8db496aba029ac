-- ===== src/Hfe/RoundTrip.antt =====
-- The MFM encoding of native/hfe_disk.c and the decoding of what it writes.
use ensoniq_eps_16_plus.Base.{
  ℕ, zero, suc, ◌+◌, ◌*◌, ◌-◌, ◌<◌, ◌≢◌, ◌≤◌, ◌^◌, ◌/◌, ◌==◌, ◌!=◌, ◌&&◌, ◌||◌, ltb, bit_and, u8,
  u16, List, [], ◌∷◌, none, some, ◌≡◌, refl, ap, ap₂, bit_or, ◌∙◌, arith, Bool, true, false, update,
  if◌then◌else◌,
}
use ensoniq_eps_16_plus.Base.Bits.{tested_below, tested_below_lem}
use ensoniq_eps_16_plus.Base.Fields.{bit_or_join}
use ensoniq_eps_16_plus.Hfe.Codec.{
  Buffer, advance, be16, decode_word, decode_bits, decode_from, decode_bytes,
}
use ensoniq_eps_16_plus.Hfe.Mfm.{MfmStream, mfm_word, mfm_bits, mfm_byte, mfm_bytes}

-- The word of a byte after a data bit.
abbrev pub word_of : ℕ → ℕ → ℕ
word_of value previous = (mfm_bits 8 value previous 0).0

abbrev recovered : ℕ → ℕ → Bool
recovered previous value =
    let word = word_of value previous in
    decode_bits 8 word 0 == value
    && ltb word (2 ^ 16)
    && ltb (mfm_bits 8 value previous 0).1 2
    && bit_and word (word / 2) == 0
    && word != 0x4489
    && word != 0x8944

words : (tested_below 256 (recovered 0) && tested_below 256 (recovered 1)) ≡ true
unfolding tested_below
words = refl

recovered-all :
    (previous value : ℕ) → previous < 2 → value < 2 ^ 8 → recovered previous value ≡ true
recovered-all zero value hp hv = tested_below_lem 256 (recovered 0) value (ground (arith, words)) hv
recovered-all (suc zero) value hp hv =
    tested_below_lem 256 (recovered 1) value (ground (arith, words)) hv
recovered-all (suc (suc previous)) value hp hv = absurd (omega arith)

-- Numbers that fit in a byte.
pub data AreBytes : List ℕ → Type 0 where
  no_bytes : AreBytes []
  more_bytes : {v : ℕ} {vs : List ℕ} → v < 2 ^ 8 → AreBytes vs → AreBytes (v ∷ vs)

abbrev pub length : List ℕ → ℕ
length [] = 0
length (v ∷ vs) = suc (length vs)

be16-be : (p : Buffer) (w : ℕ) → w < 2 ^ 16 → p 0 ≡ u8 (w / 2 ^ 8) → p 1 ≡ u8 w → be16 p ≡ w
unfolding be16
be16-be p w h e0 e1 =
    ap₂ (λ a b. u16 (bit_or (a * 2 ^ 8) b)) e0 e1
    ∙ ap u16 (bit_or_join 8 (u8 (w / 2 ^ 8)) (u8 w) (omega arith))
    ∙ omega arith

decode_word-be :
    (p : Buffer) (w : ℕ)
    → w < 2 ^ 16
    → p 0 ≡ u8 (w / 2 ^ 8)
    → p 1 ≡ u8 w
    → decode_word p ≡ decode_bits 8 w 0
unfolding decode_word
decode_word-be p w h e0 e1 = ap (λ t. decode_bits 8 t 0) (be16-be p w h e0 e1)

-- The stream after a byte that fits.
abbrev after : ℕ → MfmStream → MfmStream
after v s =
    let word = word_of v s.previous_data_bit in
    record s {
      bytes = update (update s.bytes s.size (u8 (word / 2 ^ 8))) (s.size + 1) (u8 word);
      size = s.size + 2;
      previous_data_bit = (mfm_bits 8 v s.previous_data_bit 0).1;
    }

mfm_byte-after : (v : ℕ) (s : MfmStream) → s.size + 2 ≤ s.capacity → mfm_byte v s ≡ some (after v s)
unfolding mfm_byte mfm_word
mfm_byte-after v s h =
    let fits : ltb s.capacity (s.size + 2) ≡ false = ground arith in
    ap (λ b. if b then none else some (after v s)) fits

decode_word-word_of :
    (p : Buffer) (v previous : ℕ)
    → previous < 2
    → v < 2 ^ 8
    → p 0 ≡ u8 (word_of v previous / 2 ^ 8)
    → p 1 ≡ u8 (word_of v previous)
    → decode_word p ≡ v
decode_word-word_of p v previous hp hv e0 e1 =
    let h : recovered previous v ≡ true = recovered-all previous v hp hv in
    decode_word-be p (word_of v previous) (ground (arith, h)) e0 e1 ∙ ground (arith, h)

pair-kept : (a : Buffer) (n x y i : ℕ) → i < n → update (update a n x) (n + 1) y i ≡ a i
pair-kept a n x y i h = ground arith

pair-low : (a : Buffer) (n x y : ℕ) → update (update a n x) (n + 1) y (n + 0) ≡ x
pair-low a n x y = ground arith

pair-high : (a : Buffer) (n x y : ℕ) → update (update a n x) (n + 1) y (n + 1) ≡ y
pair-high a n x y = ground arith

-- What a stream holds after the bytes `vs` are written to `s`.
record Written (vs : List ℕ) (s t : MfmStream) : Type 0 where
  pub size : t.size ≡ s.size + 2 * length vs
  pub kept : (i : ℕ) → i < s.size → t.bytes i ≡ s.bytes i
  pub read : decode_from t.bytes s.size (length vs) ≡ vs

-- The bytes of a list are written one after another, and read back by `decode_from`.
mfm_bytes-Written :
    (vs : List ℕ) (s : MfmStream)
    → AreBytes vs
    → s.previous_data_bit < 2
    → s.size + 2 * length vs ≤ s.capacity
    → (t : MfmStream) × (mfm_bytes vs s ≡ some t) × Written vs s t
unfolding mfm_bytes decode_from
mfm_bytes-Written [] s no_bytes hp hc =
    (s, refl, record { size = omega arith; kept = λ i h. refl; read = refl })
mfm_bytes-Written (v ∷ vs) s (more_bytes hv hvs) hp hc =
    let word : ℕ = word_of v s.previous_data_bit in
    let high : ℕ = u8 (word / 2 ^ 8) in
    let low : ℕ = u8 word in
    let (t, run, w) =
      mfm_bytes-Written vs (after v s) hvs
        (ground (arith, recovered-all s.previous_data_bit v hp hv)) (omega arith) in
    (
      t,
      rw (mfm_byte-after v s (omega arith)) run,
      record {
        size = omega (arith, w.size);
        kept = λ i h. w.kept i (omega arith) ∙ pair-kept s.bytes s.size high low i h;
        read =
            ap₂ (λ x xs. x ∷ xs)
              (decode_word-word_of (advance t.bytes s.size) v s.previous_data_bit hp hv
                (w.kept (s.size + 0) (omega arith) ∙ pair-low s.bytes s.size high low)
                (w.kept (s.size + 1) (omega arith) ∙ pair-high s.bytes s.size high low))
              w.read;
      },
    )

-- For bytes below 256, and a stream whose last data bit is 0 or 1 and which has room for them:
-- mfm_bytes succeeds, and decode_bytes, at the place where the stream stood, returns the same
-- bytes from what it wrote.
pub decode_bytes-mfm_bytes :
    (vs : List ℕ) (s : MfmStream)
    → AreBytes vs
    → s.previous_data_bit < 2
    → s.size + 2 * length vs ≤ s.capacity
    → (t : MfmStream) × (mfm_bytes vs s ≡ some t)
      × (decode_bytes t.bytes t.size s.size (length vs) ≡ some vs)
unfolding decode_bytes
decode_bytes-mfm_bytes vs s bytes hp hc =
    let (t, run, w) = mfm_bytes-Written vs s bytes hp hc in
    let fits : (ltb t.size s.size || ltb ((t.size - s.size) / 2) (length vs)) ≡ false =
      ground (arith, w.size) in
    (
      t,
      run,
      ap (λ b. if b then none else some (decode_from t.bytes s.size (length vs))) fits
          ∙ ap some w.read,
    )

-- For a byte and a last data bit of 0 or 1, the MFM word of the byte has no two neighbouring
-- digits set, and is neither the mark of a field, 0x4489, nor 0x8944.
pub mfm_bits_lem :
    (v previous : ℕ)
    → v < 2 ^ 8
    → previous < 2
    → (bit_and (word_of v previous) (word_of v previous / 2) ≡ 0)
      × (word_of v previous ≢ 0x4489)
      × (word_of v previous ≢ 0x8944)
mfm_bits_lem v previous hv hp = ground (arith, recovered-all previous v hp hv)
