-- ===== src/Es5505/ReadBack.antt =====
-- The register file of native/es5505_core.c: what the registers of a voice read after a write.
use ensoniq_eps_16_plus.Base.{
  ℕ, zero, suc, ◌*◌, ◌/◌, ◌<◌, ◌≤◌, ◌^◌, ◌==◌, ◌||◌, leb, if◌then◌else◌, bit_and, bit_or, false,
  ◌≡◌, refl, sym, ap, ◌∙◌, arith, update,
}
use ensoniq_eps_16_plus.Base.Fields.{bit_and-lt}
use ensoniq_eps_16_plus.Es5505.Core.{Es5505Voice, Es5505Core}
use ensoniq_eps_16_plus.Es5505.Registers.{
  paged, read_voice, write_voice, es5505_core_read, es5505_core_write,
}
use ensoniq_eps_16_plus.Es5505.Halves.{
  mask_low, high_half-set_high, low_half-set_high, high_half-set_low, low_half-set_low,
}

-- What register `reg` of a voice keeps of a value.
abbrev pub kept : ℕ → ℕ → ℕ
kept reg value =
    if reg == 0
    then bit_or (bit_or value 0xf000) 0xf000
    else if reg == 1
    then bit_and value 0xfffe
    else if reg == 2 || reg == 4 || reg == 10
    then bit_and value 0x1fff
    else if reg == 3 || reg == 5
    then bit_and value 0xffe0
    else if reg == 6 || reg == 7
    then bit_and value 0xfff0
    else if reg == 8 || reg == 9
    then value / 2 ^ 8 * 2 ^ 8
    else value

-- The registers of a voice after a write of `v` to register `r`.
abbrev ReadsBack : ℕ → Type 0
ReadsBack r =
    (s v : ℕ) (w : Es5505Voice)
    → v < 2 ^ 16
    → read_voice (write_voice r v w) s ≡ (if s == r then kept r v else read_voice w s)

register_0 : ReadsBack 0
register_0 s v w h = ground arith

register_1 : ReadsBack 1
register_1 s v w h = ground (arith, bit_and-lt 16 v 0xfffe (omega arith))

register_2 : ReadsBack 2
register_2 s v w h = ground (arith, high_half-set_high w.start v, low_half-set_high w.start v)

register_3 : ReadsBack 3
register_3 s v w h =
    let lt = bit_and-lt 16 v 0xffe0 (omega arith) in
    ground (
      arith,
      high_half-set_low w.start (bit_and v 0xffe0) lt,
      low_half-set_low w.start (bit_and v 0xffe0) lt,
    )

register_6 : ReadsBack 6
register_6 s v w h = ground arith

register_8 : ReadsBack 8
register_8 s v w h = ground arith

register_4 : ReadsBack 4
register_4 s v w h = ground (arith, high_half-set_high w.end v, low_half-set_high w.end v)

register_5 : ReadsBack 5
register_5 s v w h =
    let lt = bit_and-lt 16 v 0xffe0 (omega arith) in
    ground (
      arith,
      high_half-set_low w.end (bit_and v 0xffe0) lt,
      low_half-set_low w.end (bit_and v 0xffe0) lt,
    )

register_7 : ReadsBack 7
register_7 s v w h = ground arith

register_9 : ReadsBack 9
register_9 s v w h = ground arith

register_10 : ReadsBack 10
register_10 s v w h =
    ground (arith, high_half-set_high w.accumulator v, low_half-set_high w.accumulator v)

register_11 : ReadsBack 11
register_11 s v w h =
    ground (arith, high_half-set_low w.accumulator v h, low_half-set_low w.accumulator v h)

-- A family that holds at the twelve registers of a voice.
twelve :
    (P : ℕ → Type 0)
    → P 0
    → P 1
    → P 2
    → P 3
    → P 4
    → P 5
    → P 6
    → P 7
    → P 8
    → P 9
    → P 10
    → P 11
    → (r : ℕ) → r < 12
    → P r
twelve P a b c d e f g h i j k l zero lt = a
twelve P a b c d e f g h i j k l (suc zero) lt = b
twelve P a b c d e f g h i j k l (suc (suc zero)) lt = c
twelve P a b c d e f g h i j k l (suc (suc (suc zero))) lt = d
twelve P a b c d e f g h i j k l (suc (suc (suc (suc n)))) lt = four n (omega arith)
  where
    last : (n : ℕ) → n < 4 → P (suc (suc (suc (suc (suc (suc (suc (suc n))))))))
    last zero lt = i
    last (suc zero) lt = j
    last (suc (suc zero)) lt = k
    last (suc (suc (suc zero))) lt = l
    last (suc (suc (suc (suc n)))) lt = absurd (omega arith)

    four : (n : ℕ) → n < 8 → P (suc (suc (suc (suc n))))
    four zero lt = e
    four (suc zero) lt = f
    four (suc (suc zero)) lt = g
    four (suc (suc (suc zero))) lt = h
    four (suc (suc (suc (suc n)))) lt = last n (omega arith)

write_voice_lem : (r : ℕ) → r < 12 → ReadsBack r
write_voice_lem r h =
    twelve ReadsBack register_0 register_1 register_2 register_3 register_4 register_5 register_6
      register_7 register_8 register_9 register_10 register_11 r h

mask4 : (n : ℕ) → n < 12 → bit_and n 15 ≡ n
mask4 n h = mask_low 4 0 n n (omega arith) (omega arith)

not_at : (s n : ℕ) → s < 12 → 12 ≤ n → (s == n) ≡ false
not_at s n h le = ground arith

not_from : (page n : ℕ) → page < 0x20 → 0x20 ≤ n → leb n page ≡ false
not_from page n h le = ground arith

read_page :
    (s : ℕ) (core : Es5505Core)
    → s < 12
    → core.page < 0x20
    → (es5505_core_read s core).0 ≡ read_voice (paged core) s
unfolding es5505_core_read
read_page s core h p = rw (mask4 s h) (
    rw
      (
        not_at s 13 h (omega arith),
        not_at s 14 h (omega arith),
        not_at s 15 h (omega arith),
        not_from core.page 0x40 p (omega arith),
        not_from core.page 0x20 p (omega arith),
      )
      refl)

write_page :
    (r v : ℕ) (core : Es5505Core)
    → r < 12
    → core.page < 0x20
    → es5505_core_write r v core ≡ record core {
      voices = update core.voices (bit_and core.page 31) (write_voice r v (paged core));
    }
unfolding es5505_core_write
write_page r v core h p = rw (mask4 r h) (
    rw
      (
        not_at r 13 h (omega arith),
        not_at r 14 h (omega arith),
        not_at r 15 h (omega arith),
        not_from core.page 0x40 p (omega arith),
        not_from core.page 0x20 p (omega arith),
      )
      refl)

-- On a voice page (below 0x20), for registers r and s below 12 and a 16-bit value: after the
-- value is written to register r, a read of s returns what r keeps of the value if s is r, and
-- else what it returned before the write, also where both are halves of one address.
pub es5505_core_read-es5505_core_write :
    (r s v : ℕ) (core : Es5505Core)
    → r < 12
    → s < 12
    → v < 2 ^ 16
    → core.page < 0x20
    → (es5505_core_read s (es5505_core_write r v core)).0
      ≡ (if s == r then kept r v else (es5505_core_read s core).0)
es5505_core_read-es5505_core_write r s v core hr hs hv hp =
    let k = bit_and core.page 31 in
    let written = record core { voices = update core.voices k (write_voice r v (paged core)) } in
    let same_page : update core.voices k (write_voice r v (paged core)) k
        ≡ write_voice r v (paged core) =
      ground arith in
    rw (write_page r v core hr hp) (
      read_page s written hs hp
      ∙ ap (λ w. read_voice w s) same_page
      ∙ write_voice_lem r hr s v (paged core) hv
      ∙ ap (λ t. if s == r then kept r v else t) (sym (read_page s core hs hp)))
