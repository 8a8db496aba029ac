-- ===== src/Hfe/Decode.antt =====
-- native/hfe_disk.c, lines 396 to 551: the sectors of an HFE image.
use ensoniq_eps_16_plus.Base.{
  ℕ, zero, suc, ◌+◌, ◌-◌, ◌*◌, ◌/◌, ◌^◌, ◌==◌, ◌!=◌, nonzero, ltb, leb, if◌then◌else◌, bit_and,
  bit_or, Bool, not, ◌&&◌, ◌||◌, List, [], ◌∷◌, Option, none, some, update,
}
use ensoniq_eps_16_plus.Hfe.Codec.{Buffer, advance, le16, be16, crc16, reverse_bits, decode_bytes}
use ensoniq_eps_16_plus.Hfe.Mfm.{sync_crc, slice}
use ensoniq_eps_16_plus.Hfe.Image.{disk_size, store}

abbrev pub sector_readable : ℕ
sector_readable = 0x00

abbrev sector_crc_error : ℕ
sector_crc_error = 0x08

abbrev pub sector_not_found : ℕ
sector_not_found = 0x10

pub data DecodeError : Type 0 where
  bad_logical_size bad_signature bad_geometry bad_table : DecodeError
  bad_track truncated_id bad_id truncated_data bad_data missing_sectors incomplete : DecodeError

-- What the decoding fills, and where it stands. A status is set also where no buffer is given.
pub record Scan : Type 0 where
  pub logical : Buffer
  pub sector_status : ℕ → ℕ
  pub total : ℕ
  pub seen : ℕ
  pub pending_sector : Option ℕ

-- How a round of the loop over the stream ends.
pub data Round : Type 0 where
  next : Scan → Round
  stop : Scan → Round
  failed : DecodeError → Scan → Round

-- An array that `decode_bytes` filled, by its index.
abbrev pub entry : List ℕ → Buffer
entry [] i = 0
entry (v ∷ vs) i = if i == 0 then v else entry vs (i - 1)

abbrev pub is_hfe : Buffer → Bool
is_hfe image =
    image 0 == 0x48
    && image 1 == 0x58
    && image 2 == 0x43
    && image 3 == 0x50
    && image 4 == 0x49
    && image 5 == 0x43
    && image 6 == 0x46
    && image 7 == 0x45

abbrev pub is_sync : Buffer → Bool
is_sync stream =
    stream 0 == 0x44
    && stream 1 == 0x89
    && stream 2 == 0x44
    && stream 3 == 0x89
    && stream 4 == 0x44
    && stream 5 == 0x89

-- A sector with a wrong checksum; one that was read before stays readable.
abbrev pub mark_crc_error : ℕ → Scan → Scan
mark_crc_error block s = record s {
  sector_status =
      if s.sector_status block != sector_readable
      then update s.sector_status block sector_crc_error
      else s.sector_status;
  pending_sector = none;
}

abbrev pub forget : Scan → Scan
forget s = record s { pending_sector = none }

-- A data field with a right checksum counts once for each sector.
unfoldable pub accept : ℕ → ℕ → List ℕ → Scan → Scan
accept base sector bytes s =
    let block = base + sector in
    if nonzero (bit_and s.seen (2 ^ sector)) then forget s else record s {
      logical = store s.logical (block * 512) (slice (entry bytes) 1 512);
      seen = bit_or s.seen (2 ^ sector);
      sector_status = update s.sector_status block sector_readable;
      total = s.total + 1;
      pending_sector = none;
    }

-- The fields of the track and side at hand.
pub record Place : Type 0 where
  pub track : ℕ
  pub side : ℕ
  pub tolerant : Bool
  pub stream : Buffer
  pub stream_size : ℕ

-- The number of the first sector of a side.
abbrev pub first_block : Place → ℕ
first_block p = (p.track * 2 + p.side) * 10

-- The field of an ID, with mark 0xfe.
unfoldable pub id_field : Place → ℕ → Scan → Round
id_field p field s = elim (decode_bytes p.stream p.stream_size field 7) [
  | none ↦ failed truncated_id s
  | some bytes ↦
      (let id = entry bytes in
        if id 1 != p.track || id 2 != p.side || leb 10 (id 3) || id 4 != 2
        then (if p.tolerant then next (forget s) else failed bad_id s)
        else if crc16 (slice id 0 5) sync_crc != be16 (advance id 5)
        then (if p.tolerant
            then next (mark_crc_error (first_block p + id 3) s)
            else failed bad_id s)
        else next (record s { pending_sector = some (id 3) }))
]

-- The field of a sector's data, with mark 0xf8 or 0xfb, after the ID of sector `sector`.
unfoldable pub data_field : Place → ℕ → ℕ → Scan → Round
data_field p field sector s = elim (decode_bytes p.stream p.stream_size field 515) [
  | none ↦ failed truncated_data s
  | some bytes ↦
      if crc16 (slice (entry bytes) 0 513) sync_crc != be16 (advance (entry bytes) 513)
      then (if p.tolerant
          then next (mark_crc_error (first_block p + sector) s)
          else failed bad_data s)
      else next (accept (first_block p) sector bytes s)
]

unfoldable pub field_at : Place → ℕ → Scan → Round
field_at p position s =
    let field = position + 6 in
    if not (is_sync (advance p.stream position))
    then next s
    else elim (decode_bytes p.stream p.stream_size field 1) [
      | none ↦ stop s
      | some bytes ↦
          (let mark = entry bytes 0 in
            if mark == 0xfe
            then id_field p field s
            else if mark == 0xf8 || mark == 0xfb
            then elim s.pending_sector [ none ↦ next s | some sector ↦ data_field p field sector s ]
            else next s)
    ]

-- A loop that may fail: the error, if any, and what was filled.
pub data Outcome : Type 0 where
  done : Scan → Outcome
  broken : DecodeError → Scan → Outcome

-- The rest of a loop, unless it has failed.
infixl 5 ◌>>>◌
abbrev pub ◌>>>◌ : Outcome → (Scan → Outcome) → Outcome
done s >>> f = f s
broken e s >>> f = broken e s

-- The loop over the positions of the stream, with the positions left.
unfoldable pub scan_fields : Place → ℕ → ℕ → Scan → Outcome
scan_fields p zero position s = done s
scan_fields p (suc left) position s = elim (field_at p position s) [
  | next t ↦ scan_fields p left (position + 1) t
  | stop t ↦ done t
  | failed e t ↦ broken e t
]

-- The bytes of one side, 256 of each block of 512, with the blocks left: the stream and its size.
unfoldable pub gather : Buffer → ℕ → ℕ → ℕ → ℕ → ℕ → Buffer → ℕ → Buffer × ℕ
gather image track_start track_size side zero block stream stream_size = (stream, stream_size)
gather image track_start track_size side (suc left) block stream stream_size =
    let start = block + side * 256 in
    let count = if ltb 256 (track_size - start) then 256 else track_size - start in
    let more : Buffer = λ i.
      if leb stream_size i && ltb i (stream_size + count)
      then reverse_bits (image (track_start + start + (i - stream_size)))
      else stream i in
    if leb track_size start
    then gather image track_start track_size side left (block + 512) stream stream_size
    else gather image track_start track_size side left (block + 512) more (stream_size + count)

-- The side of a track of the image, with its bytes gathered.
unfoldable pub place_of : Buffer → Bool → ℕ → ℕ → ℕ → ℕ → Place
place_of image tolerant track track_start track_size side =
    let g : Buffer × ℕ =
      gather image track_start track_size side ((track_size + 511) / 512) 0 (λ i. 0) 0 in
    record { track = track; side = side; tolerant = tolerant; stream = g.0; stream_size = g.1 }

-- One side of a track: without tolerance it has all of its ten sectors.
unfoldable pub decode_side : Buffer → Bool → ℕ → ℕ → ℕ → ℕ → Scan → Outcome
decode_side image tolerant track track_start track_size side s =
    let p : Place = place_of image tolerant track track_start track_size side in
    scan_fields p (p.stream_size - 5) 0 (record s { seen = 0; pending_sector = none })
    >>> (λ t. if not tolerant && t.seen != 0x03ff then broken missing_sectors t else done t)

-- What the table of the image says of a track.
abbrev pub start_of : Buffer → ℕ → ℕ → ℕ
start_of image table track = le16 (advance image (table + track * 4)) * 512

abbrev pub size_of : Buffer → ℕ → ℕ → ℕ
size_of image table track = le16 (advance image (table + track * 4 + 2))

unfoldable pub decode_track : Buffer → ℕ → ℕ → Bool → ℕ → Scan → Outcome
decode_track image image_size table tolerant track s =
    let track_start = start_of image table track in
    let track_size = size_of image table track in
    if track_size == 0 || ltb image_size track_start || ltb (image_size - track_start) track_size
    then broken bad_track s
    else (decode_side image tolerant track track_start track_size 0 s
        >>> decode_side image tolerant track track_start track_size 1)

-- The loop over the tracks, with the tracks left.
unfoldable pub decode_tracks : Buffer → ℕ → ℕ → Bool → ℕ → ℕ → Scan → Outcome
decode_tracks image image_size table tolerant zero track s = done s
decode_tracks image image_size table tolerant (suc left) track s =
    decode_track image image_size table tolerant track s
    >>> decode_tracks image image_size table tolerant left (track + 1)

-- The checks of the header, in their order.
unfoldable pub check_header : Buffer → ℕ → ℕ → Option DecodeError
check_header image image_size logical_size =
    let rpm = le16 (advance image 14) in
    let table = le16 (advance image 18) * 512 in
    if logical_size != disk_size
    then some bad_logical_size
    else if ltb image_size 1024 || not (is_hfe image)
    then some bad_signature
    else if image 8 != 0
        || image 9 != 80
        || image 10 != 2
        || image 11 != 0
        || le16 (advance image 12) != 250
        || (rpm != 0 && rpm != 300)
    then some bad_geometry
    else if ltb table 512 || ltb image_size table || ltb (image_size - table) (image 9 * 4)
    then some bad_table
    else none

-- What the decoding leaves, with the statuses as they were where the header is refused.
unfoldable pub decode_hfe : Buffer → ℕ → Buffer → ℕ → (ℕ → ℕ) → Bool → Outcome
decode_hfe image image_size logical logical_size sector_status tolerant =
    let before : Scan = record {
      logical = logical;
      sector_status = sector_status;
      total = 0;
      seen = 0;
      pending_sector = none;
    } in
    let cleared : Scan = record before {
      logical = λ i. 0;
      sector_status = λ i. sector_not_found;
    } in
    elim (check_header image image_size logical_size) [
      | some e ↦ broken e before
      | none ↦
          decode_tracks image image_size (le16 (advance image 18) * 512) tolerant 80 0 cleared
          >>> (λ t.
              if (not tolerant && t.total != 1600) || t.total == 0
              then broken incomplete t
              else done t)
    ]
