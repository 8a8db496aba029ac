-- ===== src/Hfe/Integrity.antt =====
-- native/hfe_disk.c, lines 396 to 551: every sector of a disk that is decoded without tolerance.
use ensoniq_eps_16_plus.Base.{
  ℕ, ◌+◌, ◌-◌, ◌*◌, ◌<◌, ◌!=◌, if◌then◌else◌, Bool, true, false, ◌≡◌, refl, arith, none,
}
use mathlib.Core.Path.{subst}
use ensoniq_eps_16_plus.Hfe.Codec.{Buffer}
use ensoniq_eps_16_plus.Hfe.Decode.{
  DecodeError, Place, Scan, first_block, Outcome, done, broken, ◌>>>◌, place_of, decode_side,
  scan_fields, missing_sectors,
}
use ensoniq_eps_16_plus.Hfe.Sectors.{IsRead, IsScan}
use ensoniq_eps_16_plus.Hfe.Scanning.{InOutcome, scan_fields-keeps}
use ensoniq_eps_16_plus.Hfe.Seen.{earlier-IsKept, IsScan-IsKept, unread, complete}

-- The rule for a loop that goes on unless it has failed.
pub after :
    (P Q : Scan → Type 0) (o : Outcome) (f : Scan → Outcome)
    → InOutcome P o
    → ((s : Scan) → P s → InOutcome Q (f s))
    → InOutcome Q (o >>> f)
unfolding InOutcome
after P Q (done s) f a g = g s a
after P Q (broken e s) f a g = tt

-- A loop that ends with a check.
pub passed :
    (P : Scan → Type 0) (b : Bool) (e : DecodeError) (s : Scan)
    → (b ≡ false → P s)
    → InOutcome P (if b then broken e s else done s)
unfolding InOutcome
passed P true e s f = tt
passed P false e s f = f refl

pub ended : (P : Scan → Type 0) (o : Outcome) (t : Scan) → InOutcome P o → o ≡ done t → P t
unfolding InOutcome
ended P o t p e = subst (InOutcome P) e p

-- A scan of a side that ends without an error keeps this, with and without tolerance: each of the
-- ten sectors that is marked as seen has the status readable, and its 512 bytes stand in the
-- buffer as a data field of the stream has them whose checksum is right; and an ID that waits for
-- its data names a sector below 10.
pub scan_fields_lem :
    (p : Place) (left position : ℕ) (s t : Scan)
    → IsScan p s
    → scan_fields p left position s ≡ done t
    → IsScan p t
scan_fields_lem p left position s t q e =
    ended (IsScan p) _ t (scan_fields-keeps p (IsScan p) (IsScan-IsKept p) left position s q) e

-- A side: its sectors are read, and what was read before stays.
pub decode_side_lem :
    (image : Buffer) (track track_start track_size side : ℕ) (s : Scan)
    → InOutcome
        (λ t.
          (k : ℕ) → k < 10 → IsRead (place_of image false track track_start track_size side) k t)
        (decode_side image false track track_start track_size side s)
unfolding decode_side
decode_side_lem image track track_start track_size side s =
    let p = place_of image false track track_start track_size side in
    after (IsScan p) (λ t. (k : ℕ) → k < 10 → IsRead p k t) _ _
      (scan_fields-keeps p (IsScan p) (IsScan-IsKept p) (p.stream_size - 5) 0
        (record s { seen = 0; pending_sector = none })
        (record {
          read = λ k l h. absurd (ground (arith, h, unread k l));
          pending = λ k e. ground arith;
        }))
      (λ t q. passed _ (t.seen != 0x03ff) missing_sectors t (λ e k l.
        q.read k l (let seen : t.seen ≡ 0x03ff = ground (arith, e) in rw seen (complete k l))))

pub decode_side-keeps :
    (image : Buffer) (track track_start track_size side : ℕ) (s : Scan) (q : Place) (k : ℕ)
    → first_block q + k < (track * 2 + side) * 10
    → IsRead q k s
    → InOutcome (IsRead q k) (decode_side image false track track_start track_size side s)
unfolding decode_side place_of
decode_side-keeps image track track_start track_size side s q k before r =
    let p = place_of image false track track_start track_size side in
    after (IsRead q k) (IsRead q k) _ _
      (scan_fields-keeps p (IsRead q k) (earlier-IsKept p q k before) (p.stream_size - 5) 0
        (record s { seen = 0; pending_sector = none })
        (record {
          status = r.status;
          field = r.field;
          bytes = r.bytes;
          decoded = r.decoded;
          checked = r.checked;
          held = r.held;
        }))
      (λ t u. passed (IsRead q k) (t.seen != 0x03ff) missing_sectors t (λ e. u))
