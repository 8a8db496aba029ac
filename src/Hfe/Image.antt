-- ===== src/Hfe/Image.antt =====
-- native/hfe_disk.c, lines 72 to 204: a blank EPS disk, and one made of a single EFE file.
use ensoniq_eps_16_plus.Base.{
  ℕ, zero, suc, ◌+◌, ◌-◌, ◌*◌, ◌/◌, ◌%◌, ◌==◌, ◌!=◌, nonzero, ltb, leb, if◌then◌else◌, bit_and,
  Bool, true, false, not, ◌&&◌, ◌||◌, ◌⊎◌, inl, inr, List, [], ◌∷◌, Option, none, some, update,
}
use ensoniq_eps_16_plus.Hfe.Codec.{Buffer, advance, be16, put_be24, put_be32}

abbrev sector_size : ℕ
sector_size = 512

abbrev pub disk_size : ℕ
disk_size = 80 * 2 * 10 * 512

-- `memcpy(target + at, bytes, n)`
abbrev pub store : Buffer → ℕ → List ℕ → Buffer
store target at [] = target
store target at (v ∷ vs) = store (update target at v) (at + 1) vs

-- `memcpy(target + at, source + from, n)`
abbrev pub copy : Buffer → ℕ → Buffer → ℕ → ℕ → Buffer
copy target at source from n i =
    if leb at i && ltb i (at + n) then source (from + (i - at)) else target i

-- `for (entry = 0; entry < n; ++entry) fat[entry * 3 + 2] = 1;`
abbrev pub reserve : ℕ → Buffer → ℕ → Buffer
reserve zero target fat = target
reserve (suc n) target fat = update (reserve n target fat) (fat + n * 3 + 2) 1

-- `for (block = 5; block < 5 + n; ++block)` the signature "FB" ends the block.
abbrev pub sign : ℕ → Buffer → Buffer
sign zero target = target
sign (suc n) target = store (sign n target) ((5 + n + 1) * 512 - 2) (0x46 ∷ 0x42 ∷ [])

-- Block 0, over zeros, and the description of the device.
unfoldable pub blank_device : Buffer → ℕ → Buffer
blank_device logical logical_size =
    let cleared : Buffer = λ i. if ltb i logical_size then 0 else logical i in
    let filled : Buffer =
      λ i. if ltb i 512 then (if nonzero (bit_and i 1) then 0xb6 else 0x6d) else cleared i in
    let device = store filled 512 (
      0x00 ∷ 0x80 ∷ 0x01 ∷ 0x00 ∷ 0x00 ∷ 0x0a ∷ 0x00 ∷ 0x02 ∷ 0x00 ∷ 0x50 ∷ 0x00 ∷ 0x00 ∷ 0x02
      ∷ 0x00 ∷ 0x00 ∷ 0x00 ∷ 0x06 ∷ 0x40 ∷ 0x1e ∷ 0x02 ∷ []) in
    store
      (store (update device (512 + 30) 0xff) (512 + 31)
        (0x4e ∷ 0x45 ∷ 0x57 ∷ 0x44 ∷ 0x49 ∷ 0x53 ∷ 0x4b ∷ []))
      (512 + 38) (0x49 ∷ 0x44 ∷ [])

-- The disk is written into the caller's buffer, unless that has the wrong size.
unfoldable pub create_blank : Buffer → ℕ → Bool × Buffer
unfolding blank_device
create_blank logical logical_size =
    let labelled = blank_device logical logical_size in
    let free_blocks : ℕ = 1600 - 15 in
    let system =
      store (put_be32 labelled (2 * 512) free_blocks) (2 * 512 + 28) (0x4f ∷ 0x53 ∷ []) in
    let directory = store system (5 * 512 - 2) (0x44 ∷ 0x52 ∷ []) in
    if logical_size != disk_size
    then (false, logical)
    else (true, sign 10 (reserve 15 directory (5 * 512)))

-- The offset of a block's entry in the allocation table.
unfoldable pub fat_entry : ℕ → ℕ
fat_entry block = (5 + block / 170) * 512 + block % 170 * 3

unfoldable pub has_efe_signature : Buffer → ℕ → Bool
has_efe_signature data_bytes size =
    leb 11 size
    && data_bytes 0 == 0x0d
    && data_bytes 1 == 0x0a
    && data_bytes 2 == 0x45
    && (data_bytes 3 == 0x70 || data_bytes 3 == 0x50)
    && (data_bytes 4 == 0x73 || data_bytes 4 == 0x53)
    && data_bytes 5 == 0x20
    && data_bytes 6 == 0x46
    && data_bytes 7 == 0x69
    && data_bytes 8 == 0x6c
    && data_bytes 9 == 0x65
    && data_bytes 10 == 0x3a

-- Whether a byte of the name is neither a blank nor zero, over `n` bytes from `at`.
abbrev pub named : Buffer → ℕ → ℕ → Bool
named efe at zero = false
named efe at (suc n) = named efe at n || (efe (at + n) != 0x20 && efe (at + n) != 0)

pub data EfeError : Type 0 where
  bad_header size_mismatch too_large no_type no_name no_disk : EfeError

-- The checks of `create_from_efe` in their order; the number of data blocks if all pass.
unfoldable pub check_efe : Buffer → ℕ → EfeError ⊎ ℕ
check_efe efe efe_size =
    let data_blocks = efe_size / 512 - 1 in
    if ltb efe_size 512
      || nonzero (efe_size % 512)
      || not (has_efe_signature efe efe_size)
      || efe 0x31 != 0x1a
    then inl bad_header
    else if data_blocks == 0
        || data_blocks != be16 (advance efe 0x34)
        || data_blocks != be16 (advance efe 0x36)
    then inl size_mismatch
    else if ltb (1600 - 15) data_blocks
    then inl too_large
    else if efe 0x32 == 0
    then inl no_type
    else if not (named efe 0x12 12)
    then inl no_name
    else inr data_blocks

-- The directory entry of the file, the first after the reserved one.
unfoldable pub directory_entry : Buffer → Buffer → Buffer
directory_entry efe logical =
    let entry : ℕ = 3 * 512 + 25 in
    let e1 = update logical (entry + 2) (efe 0x32) in
    let e2 = copy e1 (entry + 3) efe 0x12 12 in
    let e3 = copy (copy e2 (entry + 15) efe 0x34 2) (entry + 17) efe 0x36 2 in
    put_be32 e3 (entry + 19) 15

-- The loop over `index` that links the blocks, with the rounds left.
unfoldable pub link : ℕ → ℕ → ℕ → Buffer → Buffer
link data_blocks zero index logical = logical
link data_blocks (suc n) index logical =
    let block = 15 + index in
    link data_blocks n (index + 1)
      (put_be24 logical (fat_entry block) (if ltb (index + 1) data_blocks then block + 1 else 1))

unfoldable pub fill_disk : Buffer → ℕ → Buffer → Buffer
fill_disk efe data_blocks blank =
    let labelled = store blank (512 + 31) (0x45 ∷ 0x46 ∷ 0x45 ∷ 0x4c ∷ 0x4f ∷ 0x41 ∷ 0x44 ∷ []) in
    let counted = put_be32 labelled (2 * 512) (1600 - 15 - data_blocks) in
    let entered = directory_entry efe counted in
    link data_blocks data_blocks 0 (copy entered (15 * 512) efe 512 (data_blocks * 512))

-- The error, if any, and the caller's buffer as the call leaves it.
unfoldable pub create_from_efe : Buffer → ℕ → Buffer → ℕ → Option EfeError × Buffer
create_from_efe efe efe_size logical logical_size =
    let made : Bool × Buffer = create_blank logical logical_size in
    elim (check_efe efe efe_size) [
      | inl e ↦ (some e, logical)
      | inr data_blocks ↦
          if made.0 then (none, fill_disk efe data_blocks made.1) else (some no_disk, made.1)
    ]
