-- ===== src/Hfe/Scanning.antt =====
-- native/hfe_disk.c, lines 453 to 535: what the loop over the fields of a side keeps.
use ensoniq_eps_16_plus.Base.{
  ℕ, zero, suc, ◌+◌, ◌<◌, ◌==◌, ◌!=◌, leb, if◌then◌else◌, Bool, true, false, not, ◌||◌, ◌≡◌, refl,
  arith, List, Option, none, some,
}
use ensoniq_eps_16_plus.Hfe.Codec.{Buffer, advance, be16, crc16, decode_bytes}
use ensoniq_eps_16_plus.Hfe.Mfm.{sync_crc, slice}
use ensoniq_eps_16_plus.Hfe.Decode.{
  bad_id, truncated_id, bad_data, truncated_data, Place, Scan, Round, next, stop, failed,
  first_block, entry, accept, forget, mark_crc_error, is_sync, id_field, data_field, field_at,
  scan_fields, Outcome, done, broken,
}

-- What a scan keeps: a predicate that its four kinds of step keep.
pub record IsKept (p : Place) (Q : Scan → Type 0) : Type 0 where
  pub forgets : (s : Scan) → Q s → Q (forget s)
  pub marks : (block : ℕ) (s : Scan) → Q s → Q (mark_crc_error block s)
  pub names : (k : ℕ) (s : Scan) → k < 10 → Q s → Q (record s { pending_sector = some k })
  pub accepts :
      (field sector : ℕ) (bytes : List ℕ) (s : Scan)
      → s.pending_sector ≡ some sector
      → decode_bytes p.stream p.stream_size field 515 ≡ some bytes
      → crc16 (slice (entry bytes) 0 513) sync_crc ≡ be16 (advance (entry bytes) 513)
      → Q s
      → Q (accept (first_block p) sector bytes s)

InRound : (Scan → Type 0) → Round → Type 0
InRound Q (next s) = Q s
InRound Q (stop s) = Q s
InRound Q (failed e s) = Unit

unfoldable pub InOutcome : (Scan → Type 0) → Outcome → Type 0
InOutcome Q (done s) = Q s
InOutcome Q (broken e s) = Unit

on_if :
    (A : Round → Type 0) (b : Bool) (x y : Round)
    → (b ≡ true → A x)
    → (b ≡ false → A y)
    → A (if b then x else y)
on_if A true x y f g = f refl
on_if A false x y f g = g refl

module _ (p : Place) (Q : Scan → Type 0) (kept : IsKept p Q) where
  id_field-keeps : (field : ℕ) (s : Scan) → Q s → InRound Q (id_field p field s)
  unfolding id_field InRound
  id_field-keeps field s q = first_bytes (decode_bytes p.stream p.stream_size field 7)
    where
      go :
          (id : Buffer)
          → InRound Q (
              if id 1 != p.track || id 2 != p.side || leb 10 (id 3) || id 4 != 2
              then (if p.tolerant then next (forget s) else failed bad_id s)
              else if crc16 (slice id 0 5) sync_crc != be16 (advance id 5)
              then (if p.tolerant
                  then next (mark_crc_error (first_block p + id 3) s)
                  else failed bad_id s)
              else next (record s { pending_sector = some (id 3) }))
      go id =
          on_if (InRound Q) (id 1 != p.track || id 2 != p.side || leb 10 (id 3) || id 4 != 2) _ _
            (λ e. on_if (InRound Q) p.tolerant _ _ (λ t. kept.forgets s q) (λ t. tt))
            (λ e.
              on_if (InRound Q) (crc16 (slice id 0 5) sync_crc != be16 (advance id 5)) _ _
                (λ f.
                  on_if (InRound Q) p.tolerant _ _ (λ t. kept.marks (first_block p + id 3) s q)
                    (λ t. tt))
                (λ f. kept.names (id 3) s (ground (arith, e)) q))

      first_bytes :
          (read : Option (List ℕ))
          → InRound Q (elim read [
            | none ↦ failed truncated_id s
            | some bytes ↦
                (let id = entry bytes in
                  if id 1 != p.track || id 2 != p.side || leb 10 (id 3) || id 4 != 2
                  then (if p.tolerant then next (forget s) else failed bad_id s)
                  else if crc16 (slice id 0 5) sync_crc != be16 (advance id 5)
                  then (if p.tolerant
                      then next (mark_crc_error (first_block p + id 3) s)
                      else failed bad_id s)
                  else next (record s { pending_sector = some (id 3) }))
          ])
      first_bytes none = tt
      first_bytes (some bytes) = go (entry bytes)

  data_field-keeps :
      (field sector : ℕ) (s : Scan)
      → s.pending_sector ≡ some sector
      → Q s
      → InRound Q (data_field p field sector s)
  unfolding data_field InRound
  data_field-keeps field sector s pending q =
      go (decode_bytes p.stream p.stream_size field 515) refl
    where
      go :
          (read : Option (List ℕ))
          → decode_bytes p.stream p.stream_size field 515 ≡ read
          → InRound Q (elim read [
            | none ↦ failed truncated_data s
            | some bytes ↦
                if crc16 (slice (entry bytes) 0 513) sync_crc != be16 (advance (entry bytes) 513)
                then (if p.tolerant
                    then next (mark_crc_error (first_block p + sector) s)
                    else failed bad_data s)
                else next (accept (first_block p) sector bytes s)
          ])
      go none e = tt
      go (some bytes) e =
          on_if (InRound Q)
            (crc16 (slice (entry bytes) 0 513) sync_crc != be16 (advance (entry bytes) 513)) _ _
            (λ f.
              on_if (InRound Q) p.tolerant _ _ (λ t. kept.marks (first_block p + sector) s q)
                (λ t. tt))
            (λ f. kept.accepts field sector bytes s pending e (ground (arith, f)) q)

  field_at-keeps : (position : ℕ) (s : Scan) → Q s → InRound Q (field_at p position s)
  unfolding field_at InRound
  field_at-keeps position s q =
      on_if (InRound Q) (not (is_sync (advance p.stream position))) _ _ (λ e. q)
        (λ e. first_byte (decode_bytes p.stream p.stream_size (position + 6) 1))
    where
      after_id :
          (pending : Option ℕ)
          → s.pending_sector ≡ pending
          → InRound Q
              (elim pending [ none ↦ next s | some sector ↦ data_field p (position + 6) sector s ])
      after_id none e = q
      after_id (some sector) e = data_field-keeps (position + 6) sector s e q

      marked :
          (mark : ℕ)
          → InRound Q (
              if mark == 0xfe
              then id_field p (position + 6) s
              else if mark == 0xf8 || mark == 0xfb
              then elim s.pending_sector [
                | none ↦ next s
                | some sector ↦ data_field p (position + 6) sector s
              ]
              else next s)
      marked mark =
          on_if (InRound Q) (mark == 0xfe) _ _ (λ e. id_field-keeps (position + 6) s q)
            (λ e.
              on_if (InRound Q) (mark == 0xf8 || mark == 0xfb) _ _
                (λ f. after_id s.pending_sector refl) (λ f. q))

      first_byte :
          (read : Option (List ℕ))
          → InRound Q (elim read [
            | none ↦ stop s
            | some bytes ↦
                (let mark = entry bytes 0 in
                  if mark == 0xfe
                  then id_field p (position + 6) s
                  else if mark == 0xf8 || mark == 0xfb
                  then elim s.pending_sector [
                    | none ↦ next s
                    | some sector ↦ data_field p (position + 6) sector s
                  ]
                  else next s)
          ])
      first_byte none = q
      first_byte (some bytes) = marked (entry bytes 0)

  pub scan_fields-keeps :
      (left position : ℕ) (s : Scan) → Q s → InOutcome Q (scan_fields p left position s)
  unfolding scan_fields InOutcome InRound
  scan_fields-keeps zero position s q = q
  scan_fields-keeps (suc left) position s q =
      go (field_at p position s) (field_at-keeps position s q)
        (λ t r. scan_fields-keeps left (position + 1) t r)
    where
      go :
          (round : Round)
          → InRound Q round
          → ((t : Scan) → Q t → InOutcome Q (scan_fields p left (position + 1) t))
          → InOutcome Q (elim round [
            | next t ↦ scan_fields p left (position + 1) t
            | stop t ↦ done t
            | failed e t ↦ broken e t
          ])
      go (next t) r further = further t r
      go (stop t) r further = r
      go (failed e t) r further = tt
