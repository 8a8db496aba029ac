-- ===== src/Hfe/Sectors.antt =====
-- native/hfe_disk.c, lines 453 to 535: which sectors the scan of a side has read.
use ensoniq_eps_16_plus.Base.{
  ℕ, zero, suc, ◌+◌, ◌*◌, ◌^◌, ◌≤◌, ◌<◌, ◌==◌, nonzero, bit_and, Bool, true, false, not, ◌||◌, ◌≢◌,
  ◌⊎◌, ◌≡◌, refl, ◌∙◌, ap, arith, List, Option, some, update, Bool-cases, inl, inr,
}
use ensoniq_eps_16_plus.Base.Bits.{bit, tested_below, tested_below_lem}
use ensoniq_eps_16_plus.Hfe.Codec.{Buffer, advance, be16, crc16, decode_bytes}
use ensoniq_eps_16_plus.Hfe.Mfm.{sync_crc, slice}
use ensoniq_eps_16_plus.Hfe.Image.{store}
use ensoniq_eps_16_plus.Hfe.Decode.{
  Place, Scan, first_block, entry, accept, mark_crc_error, sector_readable,
}

-- The sector stands in the buffer as a field of the stream with a right checksum has it.
pub record IsRead (p : Place) (sector : ℕ) (s : Scan) : Type 0 where
  pub status : s.sector_status (first_block p + sector) ≡ sector_readable
  pub field : ℕ
  pub bytes : List ℕ
  pub decoded : decode_bytes p.stream p.stream_size field 515 ≡ some bytes
  pub checked : crc16 (slice (entry bytes) 0 513) sync_crc ≡ be16 (advance (entry bytes) 513)
  pub held :
      (i : ℕ) → i < 512 → s.logical ((first_block p + sector) * 512 + i) ≡ entry bytes (1 + i)

store-outside :
    (target source : Buffer) (at from count i : ℕ)
    → i < at ⊎ at + count ≤ i
    → store target at (slice source from count) i ≡ target i
store-outside target source at from zero i out = refl
store-outside target source at from (suc count) i out =
    store-outside (update target at (source from)) source (at + 1) (from + 1) count i (ground arith)
    ∙ ground arith

store-inside :
    (target source : Buffer) (at from count i : ℕ)
    → i < count
    → store target at (slice source from count) (at + i) ≡ source (from + i)
store-inside target source at from zero i inside = absurd (omega arith)
store-inside target source at from (suc count) zero inside =
    ap (store (update target at (source from)) (at + 1) (slice source (from + 1) count))
      (omega arith)
    ∙ store-outside (update target at (source from)) source (at + 1) (from + 1) count at
        (omega arith)
    ∙ ground arith
store-inside target source at from (suc count) (suc i) inside =
    ap (store (update target at (source from)) (at + 1) (slice source (from + 1) count))
      (omega arith)
    ∙ store-inside (update target at (source from)) source (at + 1) (from + 1) count i (omega arith)
    ∙ ap source (omega arith)

-- The mask of a sector has no other digit.
alone : ℕ → ℕ → Bool
alone k sector = not (bit k (2 ^ sector)) || k == sector

pub bit-mask : (k sector : ℕ) → k < 10 → sector < 10 → bit k (2 ^ sector) ≡ true → k ≡ sector
unfolding alone bit tested_below
bit-mask k sector lk ls h = ground (
  arith,
  h,
  tested_below_lem 10 (alone k) sector
      (tested_below_lem 10 (λ j. tested_below 10 (alone j)) k refl lk) ls,
)

-- The state of a scan: the sectors that it has seen are read, and the ID before is one of a sector.
pub record IsScan (p : Place) (s : Scan) : Type 0 where
  pub read : (k : ℕ) → k < 10 → bit k s.seen ≡ true → IsRead p k s
  pub pending : (k : ℕ) → s.pending_sector ≡ some k → k < 10

-- A sector that is read is not touched by one of another block, or by one that was seen.
pub accept-other :
    (p q : Place) (k sector : ℕ) (bytes : List ℕ) (s : Scan)
    → (nonzero (bit_and s.seen (2 ^ sector)) ≡ false → first_block q + k ≢ first_block p + sector)
    → IsRead q k s
    → IsRead q k (accept (first_block p) sector bytes s)
unfolding accept
accept-other p q k sector bytes s other r =
    elim (Bool-cases (nonzero (bit_and s.seen (2 ^ sector)))) [
      | inl e ↦ rw e (record {
        status = r.status;
        field = r.field;
        bytes = r.bytes;
        decoded = r.decoded;
        checked = r.checked;
        held = r.held;
      })
      | inr e ↦ rw e (record {
        status = ground (arith, r.status);
        field = r.field;
        bytes = r.bytes;
        decoded = r.decoded;
        checked = r.checked;
        held = λ i l.
            store-outside s.logical (entry bytes) ((first_block p + sector) * 512) 1 512
              ((first_block q + k) * 512 + i) (apart i l (other e))
            ∙ r.held i l;
      })
    ]
  where
    apart :
        (i : ℕ)
        → i < 512
        → first_block q + k ≢ first_block p + sector
        → ((first_block q + k) * 512 + i < (first_block p + sector) * 512)
          ⊎ ((first_block p + sector) * 512 + 512 ≤ (first_block q + k) * 512 + i)
    apart i l ne = omega arith

pub accept-new :
    (p : Place) (field sector : ℕ) (bytes : List ℕ) (s : Scan)
    → nonzero (bit_and s.seen (2 ^ sector)) ≡ false
    → decode_bytes p.stream p.stream_size field 515 ≡ some bytes
    → crc16 (slice (entry bytes) 0 513) sync_crc ≡ be16 (advance (entry bytes) 513)
    → IsRead p sector (accept (first_block p) sector bytes s)
unfolding accept
accept-new p field sector bytes s e decoded checked = rw e (record {
  status = ground arith;
  field = field;
  bytes = bytes;
  decoded = decoded;
  checked = checked;
  held = λ i l. store-inside s.logical (entry bytes) ((first_block p + sector) * 512) 1 512 i l;
})

pub mark-keeps :
    (q : Place) (k block : ℕ) (s : Scan) → IsRead q k s → IsRead q k (mark_crc_error block s)
mark-keeps q k block s r = record {
  status = ground (arith, r.status);
  field = r.field;
  bytes = r.bytes;
  decoded = r.decoded;
  checked = r.checked;
  held = r.held;
}

-- Only the pending sector differs.
pub pending-keeps :
    (q : Place) (k : ℕ) (pending : Option ℕ) (s : Scan)
    → IsRead q k s
    → IsRead q k (record s { pending_sector = pending })
pending-keeps q k pending s r = record {
  status = r.status;
  field = r.field;
  bytes = r.bytes;
  decoded = r.decoded;
  checked = r.checked;
  held = r.held;
}
