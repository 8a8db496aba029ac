-- ===== src/Hfe/InPlace.antt =====
-- native/hfe_disk.c, lines 72 to 204: the disk that is made of an EFE file stays in the caller's
-- buffer.
use ensoniq_eps_16_plus.Base.{
  ℕ, zero, suc, ◌+◌, ◌*◌, ◌-◌, ◌≤◌, ◌≡◌, refl, List, [], ◌∷◌, ◌∙◌, arith, Bool, true, false,
  if◌then◌else◌, ◌⊎◌, inl, inr, Option, none, some, update, ◌!=◌, Bool-cases,
}
use ensoniq_eps_16_plus.Hfe.Codec.{Buffer, put_be32}
use ensoniq_eps_16_plus.Hfe.Image.{
  EfeError, copy, store, reserve, sign, directory_entry, disk_size, check_efe, blank_device,
  create_blank, fill_disk, create_from_efe, no_disk,
}
use ensoniq_eps_16_plus.Hfe.Chain.{link-kept, check_efe-blocks}

abbrev length : List ℕ → ℕ
length [] = 0
length (x ∷ xs) = suc (length xs)

-- Writes below a place leave it.
store-above : (vs : List ℕ) (a : Buffer) (at j : ℕ) → at + length vs ≤ j → store a at vs j ≡ a j
store-above [] a at j h = refl
store-above (v ∷ vs) a at j h =
    store-above vs (update a at v) (at + 1) j (omega arith) ∙ ground arith

reserve-above : (n : ℕ) (a : Buffer) (fat j : ℕ) → fat + n * 3 ≤ j → reserve n a fat j ≡ a j
reserve-above zero a fat j h = refl
reserve-above (suc n) a fat j h = ground (arith, reserve-above n a fat j (omega arith))

sign-above : (n : ℕ) (a : Buffer) (j : ℕ) → (5 + n + 1) * 512 ≤ j → sign n a j ≡ a j
sign-above zero a j h = refl
sign-above (suc n) a j h =
    store-above (0x46 ∷ 0x42 ∷ []) (sign n a) ((5 + n + 1) * 512 - 2) j (omega arith)
    ∙ sign-above n a j (omega arith)

put_be32-above : (a : Buffer) (at v j : ℕ) → at + 4 ≤ j → put_be32 a at v j ≡ a j
unfolding put_be32
put_be32-above a at v j h = ground arith

directory_entry-above : (efe a : Buffer) (j : ℕ) → 4 * 512 ≤ j → directory_entry efe a j ≡ a j
unfolding directory_entry
directory_entry-above efe a j h =
    put_be32-above _ (3 * 512 + 25 + 19) 15 j (omega arith) ∙ ground arith

blank_device-above :
    (logical : Buffer) (logical_size j : ℕ)
    → 1024 ≤ j
    → logical_size ≤ j
    → blank_device logical logical_size j ≡ logical j
unfolding blank_device
blank_device-above logical logical_size j h past = ground (arith, h, past)

create_blank-above :
    (logical : Buffer) (logical_size j : ℕ)
    → disk_size ≤ j
    → logical_size ≤ j
    → (create_blank logical logical_size).1 j ≡ logical j
unfolding create_blank
create_blank-above logical logical_size j h past =
    let labelled = blank_device logical logical_size in
    let counted = put_be32 labelled (2 * 512) (1600 - 15) in
    let system = store counted (2 * 512 + 28) (0x4f ∷ 0x53 ∷ []) in
    let directory = store system (5 * 512 - 2) (0x44 ∷ 0x52 ∷ []) in
    let blank = sign 10 (reserve 15 directory (5 * 512)) in
    let same : blank j ≡ logical j =
      sign-above 10 (reserve 15 directory (5 * 512)) j (omega arith)
      ∙ reserve-above 15 directory (5 * 512) j (omega arith)
      ∙ store-above (0x44 ∷ 0x52 ∷ []) system (5 * 512 - 2) j (omega arith)
      ∙ store-above (0x4f ∷ 0x53 ∷ []) counted (2 * 512 + 28) j (omega arith)
      ∙ put_be32-above labelled (2 * 512) (1600 - 15) j (omega arith)
      ∙ blank_device-above logical logical_size j (omega arith) past in
    elim (Bool-cases (logical_size != disk_size)) [ inl e ↦ rw e refl | inr e ↦ rw e same ]

fill_disk-above :
    (efe blank : Buffer) (n j : ℕ) → n ≤ 1585 → disk_size ≤ j → fill_disk efe n blank j ≡ blank j
unfolding fill_disk
fill_disk-above efe blank n j few h =
    let name : List ℕ = 0x45 ∷ 0x46 ∷ 0x45 ∷ 0x4c ∷ 0x4f ∷ 0x41 ∷ 0x44 ∷ [] in
    let named : Buffer = store blank (512 + 31) name in
    let counted : Buffer = put_be32 named (2 * 512) (1600 - 15 - n) in
    let entered : Buffer = directory_entry efe counted in
    let copied : copy entered (15 * 512) efe 512 (n * 512) j ≡ entered j = ground (arith, few, h) in
    link-kept n n 0 _ j (omega arith) (inr (omega (arith, h)))
    ∙ copied
    ∙ directory_entry-above efe counted j (omega (arith, h))
    ∙ put_be32-above named (2 * 512) (1600 - 15 - n) j (omega (arith, h))
    ∙ store-above name blank (512 + 31) j (omega (arith, h))

create_blank-wrong :
    (logical : Buffer) (logical_size : ℕ)
    → (logical_size != disk_size) ≡ true
    → create_blank logical logical_size ≡ (false, logical)
unfolding create_blank
create_blank-wrong logical logical_size e = rw (e, create_blank) refl

create_blank-right :
    (logical : Buffer) (logical_size : ℕ)
    → (logical_size != disk_size) ≡ false
    → (create_blank logical logical_size).0 ≡ true
unfolding create_blank
create_blank-right logical logical_size e = rw (e, create_blank) refl

-- A place past the buffer.
pub create_from_efe-above :
    (efe : Buffer) (size : ℕ) (logical : Buffer) (logical_size j : ℕ)
    → logical_size ≤ j
    → (create_from_efe efe size logical logical_size).1 j ≡ logical j
unfolding create_from_efe
create_from_efe-above efe size logical logical_size j past = go (check_efe efe size) refl
  where
    made : Bool × Buffer
    made = create_blank logical logical_size

    go :
        (r : EfeError ⊎ ℕ)
        → check_efe efe size ≡ r
        → let end : Option EfeError × Buffer = elim r [
          | inl e ↦ (some e, logical)
          | inr n ↦ if made.0 then (none, fill_disk efe n made.1) else (some no_disk, made.1)
        ] in
          end.1 j ≡ logical j
    go (inl e) h = refl
    go (inr n) h = elim (Bool-cases (logical_size != disk_size)) [
      | inl wrong ↦ rw (create_blank-wrong logical logical_size wrong) refl
      | inr right ↦
          let size_right : logical_size ≡ disk_size = ground (arith, right) in
          let past_disk : disk_size ≤ j = omega (arith, size_right, past) in
          rw (create_blank-right logical logical_size right) (
            fill_disk-above efe made.1 n j (check_efe-blocks efe size n h).1 past_disk
            ∙ create_blank-above logical logical_size j past_disk past)
    ]

-- A failure leaves the buffer.
pub create_from_efe-failed :
    (efe : Buffer) (size : ℕ) (logical : Buffer) (logical_size : ℕ)
    → let r = create_from_efe efe size logical logical_size in (r.0 ≡ none) ⊎ (r.1 ≡ logical)
unfolding create_from_efe
create_from_efe-failed efe size logical logical_size = go (check_efe efe size)
  where
    made : Bool × Buffer
    made = create_blank logical logical_size

    go :
        (r : EfeError ⊎ ℕ)
        → let end : Option EfeError × Buffer = elim r [
          | inl e ↦ (some e, logical)
          | inr n ↦ if made.0 then (none, fill_disk efe n made.1) else (some no_disk, made.1)
        ] in
          (end.0 ≡ none) ⊎ (end.1 ≡ logical)
    go (inl e) = inr refl
    go (inr n) = elim (Bool-cases (logical_size != disk_size)) [
      | inl wrong ↦ rw (create_blank-wrong logical logical_size wrong) (inr refl)
      | inr right ↦ rw (create_blank-right logical logical_size right) (inl refl)
    ]
