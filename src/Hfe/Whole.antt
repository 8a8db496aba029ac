-- ===== src/Hfe/Whole.antt =====
-- native/hfe_disk.c, lines 396 to 551: all sectors of a disk that is decoded without tolerance.
use ensoniq_eps_16_plus.Base.{
  ℕ, zero, suc, ◌+◌, ◌*◌, ◌/◌, ◌%◌, ◌<◌, ◌==◌, ◌!=◌, ltb, if◌then◌else◌, Bool, true, false, ◌||◌,
  inl, inr, ◌≡◌, refl, sym, ◌∙◌, ap, arith, Option, none, some, Bool-cases,
}
use ensoniq_eps_16_plus.Hfe.Codec.{Buffer, advance, le16}
use ensoniq_eps_16_plus.Hfe.Decode.{
  DecodeError, bad_track, Scan, first_block, Outcome, done, broken, ◌>>>◌, place_of, start_of,
  size_of, decode_side, decode_track, decode_tracks, check_header, decode_hfe, sector_not_found,
  incomplete, sector_readable,
}
use ensoniq_eps_16_plus.Hfe.Sectors.{IsRead}
use ensoniq_eps_16_plus.Hfe.Scanning.{InOutcome}
use ensoniq_eps_16_plus.Hfe.Integrity.{after, passed, ended, decode_side_lem, decode_side-keeps}

-- Block `b` of the disk is read, from the side and track where it stands.
IsReadBlock : Buffer → ℕ → ℕ → Scan → Type 0
IsReadBlock image table b s =
    IsRead
      (place_of image false (b / 20) (start_of image table (b / 20)) (size_of image table (b / 20))
        (b / 10 % 2))
      (b % 10) s

abbrev AreReadBelow : Buffer → ℕ → ℕ → Scan → Type 0
AreReadBelow image table n s = (b : ℕ) → b < n → IsReadBlock image table b s

first_block-place_of :
    (image : Buffer) (track start size side : ℕ)
    → first_block (place_of image false track start size side) ≡ (track * 2 + side) * 10
unfolding place_of
first_block-place_of image track start size side = refl

-- A block of this side.
this_side :
    (image : Buffer) (table track side b : ℕ) (t : Scan)
    → side < 2
    → b < track * 20 + side * 10 + 10
    → ltb b (track * 20 + side * 10) ≡ false
    → ((k : ℕ)
        → k < 10
        → IsRead
            (place_of image false track
              (start_of image table track)
              (size_of image table track)
              side)
            k
            t)
    → IsReadBlock image table b t
unfolding IsReadBlock
this_side image table track side b t ls l later r =
    let e : b / 20 ≡ track = ground (arith, later) in
    let f : b / 10 % 2 ≡ side = ground (arith, later) in rw e (rw f (r (b % 10) (omega arith)))

every_block :
    (image : Buffer) (table n : ℕ) (o : Outcome)
    → ((b : ℕ) → b < n → InOutcome (IsReadBlock image table b) o)
    → InOutcome (AreReadBelow image table n) o
unfolding InOutcome
every_block image table n (done s) f = f
every_block image table n (broken e s) f = tt

-- The rule of consequence.
weaken :
    (P Q : Scan → Type 0) (o : Outcome) → ((s : Scan) → P s → Q s) → InOutcome P o → InOutcome Q o
unfolding InOutcome
weaken P Q (done s) f p = f s p
weaken P Q (broken e s) f p = tt

next_side :
    (image : Buffer) (table track side : ℕ) (s : Scan)
    → side < 2
    → AreReadBelow image table (track * 20 + side * 10) s
    → InOutcome (AreReadBelow image table (track * 20 + side * 10 + 10)) (
        decode_side image false track
          (start_of image table track)
          (size_of image table track)
          side
          s)
unfolding IsReadBlock
next_side image table track side s ls r = every_block image table _ _ (λ b l.
    elim (Bool-cases (ltb b (track * 20 + side * 10))) [
      | inl before ↦
          decode_side-keeps image track _ _ side s _ (b % 10) (kept b before)
            (r b (ground (arith, before)))
      | inr later ↦
          weaken _ _ _ (λ t. this_side image table track side b t ls l later)
            (decode_side_lem image track (start_of image table track) (size_of image table track)
              side s)
    ])
  where
    kept :
        (b : ℕ)
        → ltb b (track * 20 + side * 10) ≡ true
        → first_block (
              place_of image false
                (b / 20)
                (start_of image table (b / 20))
                (size_of image table (b / 20))
                (b / 10 % 2))
            + b % 10
          < (track * 2 + side) * 10
    kept b before =
        rw
          (first_block-place_of image (b / 20) (start_of image table (b / 20))
            (size_of image table (b / 20)) (b / 10 % 2))
          (ground (arith, before))

decode_track_lem :
    (image : Buffer) (image_size table track : ℕ) (s : Scan)
    → AreReadBelow image table (track * 20) s
    → InOutcome
        (AreReadBelow image table (track * 20 + 20))
        (decode_track image image_size table false track s)
unfolding decode_track InOutcome
decode_track_lem image image_size table track s r = refuse _ _ (
    after (AreReadBelow image table (track * 20 + 0 * 10 + 10))
      (AreReadBelow image table (track * 20 + 20)) _ _
      (next_side image table track 0 s (omega arith) (λ b l. r b (omega arith)))
      (λ t q.
        weaken (AreReadBelow image table (track * 20 + 1 * 10 + 10))
          (AreReadBelow image table (track * 20 + 20)) _ (λ u f b l. f b (omega arith))
          (next_side image table track 1 t (omega arith) (λ b l. q b (omega arith)))))
  where
    refuse :
        (b : Bool) (o : Outcome)
        → InOutcome (AreReadBelow image table (track * 20 + 20)) o
        → InOutcome
            (AreReadBelow image table (track * 20 + 20))
            (if b then broken bad_track s else o)
    refuse true o f = tt
    refuse false o f = f

decode_tracks_lem :
    (image : Buffer) (image_size table left track : ℕ) (s : Scan)
    → AreReadBelow image table (track * 20) s
    → InOutcome
        (AreReadBelow image table ((track + left) * 20))
        (decode_tracks image image_size table false left track s)
unfolding decode_tracks InOutcome
decode_tracks_lem image image_size table zero track s r = λ b l. r b (omega arith)
decode_tracks_lem image image_size table (suc left) track s r =
    after (AreReadBelow image table (track * 20 + 20))
      (AreReadBelow image table ((track + suc left) * 20)) _ _
      (decode_track_lem image image_size table track s r)
      (λ t q.
        weaken (AreReadBelow image table ((track + 1 + left) * 20)) _ _
          (λ u f b l. f b (omega arith))
          (decode_tracks_lem image image_size table left (track + 1) t (λ b l. q b (omega arith))))

decode_hfe_lem :
    (image : Buffer) (image_size : ℕ) (logical : Buffer) (logical_size : ℕ) (sector_status : ℕ → ℕ)
    (t : Scan)
    → decode_hfe image image_size logical logical_size sector_status false ≡ done t
    → (b : ℕ) → b < 1600
    → (t.total ≡ 1600) × IsReadBlock image (le16 (advance image 18) * 512) b t
unfolding decode_hfe InOutcome
decode_hfe_lem image image_size logical logical_size sector_status t e b l =
    ended (λ u. (u.total ≡ 1600) × IsReadBlock image (le16 (advance image 18) * 512) b u) _ t
      (go (check_header image image_size logical_size)) e
  where
    before : Scan
    before = record {
      logical = logical;
      sector_status = sector_status;
      total = 0;
      seen = 0;
      pending_sector = none;
    }

    cleared : Scan
    cleared = record before { logical = λ i. 0; sector_status = λ i. sector_not_found }

    table : ℕ
    table = le16 (advance image 18) * 512

    go :
        (checked : Option DecodeError)
        → InOutcome
            (λ u. (u.total ≡ 1600) × IsReadBlock image table b u)
            (elim checked [
              | some f ↦ broken f before
              | none ↦
                  decode_tracks image image_size table false 80 0 cleared
                  >>> (λ u. if u.total != 1600 || u.total == 0 then broken incomplete u else done u)
            ])
    go (some f) = tt
    go none =
        after (AreReadBelow image table 1600) _ _ _
          (decode_tracks_lem image image_size table 80 0 cleared (λ c m. absurd (omega arith)))
          (λ u q.
            passed (λ v. (v.total ≡ 1600) × IsReadBlock image table b v) _ incomplete u
              (λ f. (ground (arith, f), q b l)))

-- A decoding without tolerance that succeeds has marked every sector as readable.
pub decode_hfe-status :
    (image : Buffer) (image_size : ℕ) (logical : Buffer) (logical_size : ℕ) (sector_status : ℕ → ℕ)
    (t : Scan)
    → decode_hfe image image_size logical logical_size sector_status false ≡ done t
    → (b : ℕ) → b < 1600
    → t.sector_status b ≡ sector_readable
unfolding IsReadBlock
decode_hfe-status image image_size logical logical_size sector_status t e b l =
    let table = le16 (advance image 18) * 512 in
    let read = (decode_hfe_lem image image_size logical logical_size sector_status t e b l).1 in
    let place =
      first_block-place_of image (b / 20) (start_of image table (b / 20))
        (size_of image table (b / 20)) (b / 10 % 2) in
    let at : first_block (
            place_of image false (b / 20) (start_of image table (b / 20))
              (size_of image table (b / 20)) (b / 10 % 2))
          + b % 10
        ≡ b =
      omega (arith, place) in
    ap t.sector_status (sym at) ∙ read.status
