-- ===== src/Hfe/Seen.antt =====
-- native/hfe_disk.c, lines 396 to 551: the sectors that a side has seen.
use ensoniq_eps_16_plus.Base.{
  ℕ, ◌+◌, ◌^◌, ◌<◌, nonzero, if◌then◌else◌, bit_and, bit_or, Bool, true, false, not, ◌≢◌, ◌⊎◌, inl,
  inr, ◌≡◌, refl, sym, ◌∙◌, ap, arith, List, none, some, Bool-cases,
}
use ensoniq_eps_16_plus.Base.Bits.{bit, bit-bit_or, nonzero-bit_and, tested_below, tested_below_lem}
use ensoniq_eps_16_plus.Hfe.Codec.{advance, be16, crc16, decode_bytes}
use ensoniq_eps_16_plus.Hfe.Mfm.{sync_crc, slice}
use ensoniq_eps_16_plus.Hfe.Decode.{entry, Place, Scan, first_block, accept}
use ensoniq_eps_16_plus.Hfe.Sectors.{
  IsRead, IsScan, accept-other, accept-new, mark-keeps, pending-keeps, bit-mask,
}
use ensoniq_eps_16_plus.Hfe.Scanning.{IsKept}

-- A sector that was read before the side is kept.
pub earlier-IsKept :
    (p q : Place) (k : ℕ) → first_block q + k < first_block p → IsKept p (IsRead q k)
earlier-IsKept p q k before = record {
  forgets = λ s r. pending-keeps q k none s r;
  marks = λ block s r. mark-keeps q k block s r;
  names = λ j s l r. pending-keeps q k (some j) s r;
  accepts = λ field sector bytes s e d c r. accept-other p q k sector bytes s (λ u. omega arith) r;
}

accept-pending :
    (base sector : ℕ) (bytes : List ℕ) (s : Scan)
    → (accept base sector bytes s).pending_sector ≡ none
unfolding accept
accept-pending base sector bytes s = ground arith

seen-accept :
    (base sector : ℕ) (bytes : List ℕ) (s : Scan)
    → (accept base sector bytes s).seen
      ≡ (if nonzero (bit_and s.seen (2 ^ sector)) then s.seen else bit_or s.seen (2 ^ sector))
unfolding accept
seen-accept base sector bytes s = ground arith

accept-seen :
    (base sector k : ℕ) (bytes : List ℕ) (s : Scan)
    → bit k (accept base sector bytes s).seen ≡ true
    → (bit k s.seen ≡ true)
      ⊎ ((bit k (2 ^ sector) ≡ true) × (nonzero (bit_and s.seen (2 ^ sector)) ≡ false))
accept-seen base sector k bytes s h =
    go (nonzero (bit_and s.seen (2 ^ sector))) refl
      (ap (bit k) (sym (seen-accept base sector bytes s)) ∙ h)
  where
    go :
        (b : Bool)
        → nonzero (bit_and s.seen (2 ^ sector)) ≡ b
        → bit k (if b then s.seen else bit_or s.seen (2 ^ sector)) ≡ true
        → (bit k s.seen ≡ true)
          ⊎ ((bit k (2 ^ sector) ≡ true) × (nonzero (bit_and s.seen (2 ^ sector)) ≡ false))
    go true e h = inl h
    go false e h = elim (Bool-cases (bit k s.seen)) [
      | inl f ↦ inl f
      | inr f ↦ inr (ground (arith, h, f, bit-bit_or k s.seen (2 ^ sector)), e)
    ]

none-some : (k : ℕ) → none ≡ some k → k < 10
none-some k e = ground arith

pub unread : (k : ℕ) → k < 10 → bit k 0 ≡ false
unfolding bit tested_below
unread k l = ground (arith, tested_below_lem 10 (λ j. not (bit j 0)) k refl l)

pub complete : (k : ℕ) → k < 10 → bit k 0x03ff ≡ true
unfolding bit tested_below
complete k l = tested_below_lem 10 (λ j. bit j 0x03ff) k refl l

-- A sector that is seen after a field was accepted is read.
accepted :
    (p : Place) (k field sector : ℕ) (bytes : List ℕ) (s : Scan)
    → k < 10
    → sector < 10
    → decode_bytes p.stream p.stream_size field 515 ≡ some bytes
    → crc16 (slice (entry bytes) 0 513) sync_crc ≡ be16 (advance (entry bytes) 513)
    → IsScan p s
    → (bit k s.seen ≡ true)
      ⊎ ((bit k (2 ^ sector) ≡ true) × (nonzero (bit_and s.seen (2 ^ sector)) ≡ false))
    → IsRead p k (accept (first_block p) sector bytes s)
accepted p k field sector bytes s l m d c q (inl h) =
    accept-other p p k sector bytes s (λ u. different u) (q.read k l h)
  where
    unequal : nonzero (bit_and s.seen (2 ^ sector)) ≡ false → k ≢ sector
    unequal u e =
        let clear : bit k s.seen ≡ false = rw e (sym (nonzero-bit_and sector s.seen) ∙ u) in
        ground (arith, h, clear)

    different :
        nonzero (bit_and s.seen (2 ^ sector)) ≡ false → first_block p + k ≢ first_block p + sector
    different u e = unequal u (omega arith)
accepted p k field sector bytes s l m d c q (inr (h, u)) =
    rw (bit-mask k sector l m h) (accept-new p field sector bytes s u d c)

pub IsScan-IsKept : (p : Place) → IsKept p (IsScan p)
IsScan-IsKept p = record {
  forgets = λ s q. record {
    read = λ k l h. pending-keeps p k none s (q.read k l h);
    pending = none-some;
  };
  marks = λ block s q. record {
    read = λ k l h. mark-keeps p k block s (q.read k l h);
    pending = none-some;
  };
  names = λ j s l q. record {
    read = λ k m h. pending-keeps p k (some j) s (q.read k m h);
    pending = λ k e. ground arith;
  };
  accepts = λ field sector bytes s e d c q. record {
    read = λ k l h.
        accepted p k field sector bytes s l (q.pending sector e) d c q
          (accept-seen (first_block p) sector k bytes s h);
    pending = λ k f. none-some k (sym (accept-pending (first_block p) sector bytes s) ∙ f);
  };
}
