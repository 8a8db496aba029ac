-- ===== src/Hfe/Chain.antt =====
-- The disk that native/hfe_disk.c makes of an EFE file: its chain of blocks and its data.
use ensoniq_eps_16_plus.Base.{
  ℕ, zero, suc, ◌+◌, ◌*◌, ◌-◌, ◌<◌, ◌≤◌, ◌^◌, ◌&&◌, ltb, leb, ◌≡◌, refl, [], ◌∷◌, ◌∙◌, arith, true,
  if◌then◌else◌, ◌⊎◌, inl, inr, none, ◌/◌, ◌%◌,
}
use mathlib.Core.Path.{subst}
use ensoniq_eps_16_plus.Hfe.Codec.{Buffer, put_be24, put_be32}
use ensoniq_eps_16_plus.Hfe.Image.{
  copy, store, directory_entry, disk_size, fat_entry, check_efe, create_blank, link, fill_disk,
  create_from_efe,
}

-- The number of three bytes from a place on, the high byte first.
abbrev pub be24_at : Buffer → ℕ → ℕ
be24_at logical at = logical at * 2 ^ 16 + logical (at + 1) * 2 ^ 8 + logical (at + 2)

-- The entry of a block.
abbrev fat_value : Buffer → ℕ → ℕ
fat_value logical block = be24_at logical (fat_entry block)

fat_entry-suc : (b : ℕ) → fat_entry b + 3 ≤ fat_entry (b + 1)
unfolding fat_entry
fat_entry-suc b = omega arith

fat_entry-bound : (b : ℕ) → b < 1600 → fat_entry b + 3 ≤ 15 * 512
unfolding fat_entry
fat_entry-bound b h = omega arith

put_be24-kept : (a : Buffer) (at v j : ℕ) → (j < at) ⊎ (at + 3 ≤ j) → put_be24 a at v j ≡ a j
unfolding put_be24
put_be24-kept a at v j h = ground arith

put_be24-value :
    (a : Buffer) (at v : ℕ)
    → v < 2 ^ 16
    → put_be24 a at v at * 2 ^ 16 + put_be24 a at v (at + 1) * 2 ^ 8 + put_be24 a at v (at + 2) ≡ v
unfolding put_be24
put_be24-value a at v h = ground arith

pub link-kept :
    (n m i : ℕ) (a : Buffer) (j : ℕ)
    → i + m ≤ 1585
    → (j < fat_entry (15 + i)) ⊎ (15 * 512 ≤ j)
    → link n m i a j ≡ a j
unfolding link fat_entry
link-kept n zero i a j h side = refl
link-kept n (suc m) i a j h (inl below) =
    link-kept n m (i + 1) _ j (omega arith) (inl (omega (arith, fat_entry-suc (15 + i))))
    ∙ put_be24-kept a (fat_entry (15 + i)) (if ltb (i + 1) n then 15 + i + 1 else 1) j (inl below)
link-kept n (suc m) i a j h (inr above) =
    link-kept n m (i + 1) _ j (omega arith) (inr above)
    ∙ put_be24-kept a (fat_entry (15 + i)) (if ltb (i + 1) n then 15 + i + 1 else 1) j
        (inr (omega (arith, fat_entry-bound (15 + i) (omega arith))))

fat_value-cong :
    (a b : Buffer) (block : ℕ)
    → ((j : ℕ) → j < fat_entry block + 3 → a j ≡ b j)
    → fat_value a block ≡ fat_value b block
fat_value-cong a b block h = omega (
  arith,
  h (fat_entry block) (omega arith),
  h (fat_entry block + 1) (omega arith),
  h (fat_entry block + 2) (omega arith),
)

-- The number that the entry of data block `i` of `n` holds: the next block, or 1 at the last.
abbrev next_block : ℕ → ℕ → ℕ
next_block n i = if ltb (i + 1) n then 15 + i + 1 else 1

link-value :
    (n m i k : ℕ) (a : Buffer)
    → i + m ≤ 1585
    → k < m
    → fat_value (link n m i a) (15 + (i + k)) ≡ next_block n (i + k)
unfolding link fat_entry
link-value n zero i k a h lt = absurd (omega arith)
link-value n (suc m) i zero a h lt =
    let here : Buffer = put_be24 a (fat_entry (15 + i)) (next_block n i) in
    let e : i + 0 ≡ i = omega arith in
    rw e (
      fat_value-cong (link n m (i + 1) here) here (15 + i) (λ j lt.
        link-kept n m (i + 1) here j (omega arith) (inl (omega (arith, fat_entry-suc (15 + i)))))
      ∙ put_be24-value a (fat_entry (15 + i)) (next_block n i) (ground arith))
link-value n (suc m) i (suc k) a h lt =
    let e : i + suc k ≡ i + 1 + k = omega arith in
    rw e (link-value n m (i + 1) k _ (omega arith) (omega arith))

pub check_efe-blocks :
    (efe : Buffer) (size n : ℕ) → check_efe efe size ≡ inr n → (1 ≤ n) × (n ≤ 1585)
unfolding check_efe
check_efe-blocks efe size n h = grind arith

blank_disk : (logical : Buffer) → (b : Buffer) × (create_blank logical disk_size ≡ (true, b))
unfolding create_blank
blank_disk logical = (_, refl)

create_from_efe-fill :
    (efe logical : Buffer) (size n : ℕ)
    → check_efe efe size ≡ inr n
    → create_from_efe efe size logical disk_size ≡ (none, fill_disk efe n (blank_disk logical).0)
unfolding create_from_efe
create_from_efe-fill efe logical size n h = rw (h, create_from_efe) (rw (blank_disk logical).1 refl)

fill_disk-chain :
    (efe blank : Buffer) (n i : ℕ)
    → n ≤ 1585
    → i < n
    → fat_value (fill_disk efe n blank) (15 + i) ≡ next_block n i
unfolding fill_disk
fill_disk-chain efe blank n i h lt =
    subst (λ t. fat_value (fill_disk efe n blank) (15 + t) ≡ next_block n t) (plus i)
      (link-value n n 0 i _ (omega arith) lt)
  where
    plus : (i : ℕ) → 0 + i ≡ i
    plus i = omega arith

copy-inside : (a b : Buffer) (at from n k : ℕ) → k < n → copy a at b from n (at + k) ≡ b (from + k)
copy-inside a b at from n k h =
    let inside : (leb at (at + k) && ltb (at + k) (at + n)) ≡ true = ground arith in
    let e : at + k - at ≡ k = omega arith in rw inside (rw e refl)

-- The disk of `fill_disk` before the data is copied.
abbrev labelled : Buffer → Buffer → ℕ → Buffer
labelled efe blank n =
    let name = 0x45 ∷ 0x46 ∷ 0x45 ∷ 0x4c ∷ 0x4f ∷ 0x41 ∷ 0x44 ∷ [] in
    directory_entry efe (put_be32 (store blank (512 + 31) name) (2 * 512) (1600 - 15 - n))

fill_disk-data :
    (efe blank : Buffer) (n k : ℕ)
    → n ≤ 1585
    → k < n * 512
    → fill_disk efe n blank (15 * 512 + k) ≡ efe (512 + k)
unfolding fill_disk
fill_disk-data efe blank n k h lt =
    link-kept n n 0 _ (15 * 512 + k) (omega arith) (inr (omega arith))
    ∙ copy-inside (labelled efe blank n) efe (15 * 512) 512 (n * 512) k lt

-- If an EFE file passes the checks with n data blocks, and the buffer has the size of a disk, a
-- disk is made in it, whatever it held; for each i below n, the allocation entry of block 15 + i,
-- which stands 170 to a block from block 5 on, three bytes each, holds the number of the next
-- block, or 1 at the last one; and for each k below 512 n, byte k of the data area, from block 15
-- on, is byte k of the file after its header.
pub create_from_efe_lem :
    (efe logical : Buffer) (size n i k : ℕ)
    → check_efe efe size ≡ inr n
    → i < n
    → k < n * 512
    → (disk : Buffer) × (create_from_efe efe size logical disk_size ≡ (none, disk))
      × (be24_at disk ((5 + (15 + i) / 170) * 512 + (15 + i) % 170 * 3)
          ≡ (if ltb (i + 1) n then 15 + i + 1 else 1))
      × (disk (15 * 512 + k) ≡ efe (512 + k))
unfolding fat_entry
create_from_efe_lem efe logical size n i k h hi hk =
    let (_, bound) = check_efe-blocks efe size n h in
    let blank = (blank_disk logical).0 in
    (
      fill_disk efe n blank,
      create_from_efe-fill efe logical size n h,
      fill_disk-chain efe blank n i bound hi,
      fill_disk-data efe blank n k bound hk,
    )
