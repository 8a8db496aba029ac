-- ===== src/Hfe/Saving.antt =====
-- native/hfe_disk.c, lines 364 to 386 and 630 to 661: a failed save leaves what was there.
use ensoniq_eps_16_plus.Base.{
  ℕ, ◌!=◌, if◌then◌else◌, Bool, true, false, ◌⊎◌, inl, inr, List, [], ◌∷◌, ◌≡◌, refl, arith, Option,
  none, some,
}
use ensoniq_eps_16_plus.Hfe.Codec.{Buffer}
use ensoniq_eps_16_plus.Hfe.Image.{disk_size}
use ensoniq_eps_16_plus.Hfe.Encode.{EncodeError, encode_hfe, image_size}
use ensoniq_eps_16_plus.Hfe.Files.{
  Eps16DiskFormat, img, hfe, efe, FileCalls, save_atomic, eps16_disk_save,
}

-- What the calls do to the file at the path, and that they write what they are given.
pub record IsFileSystem {W : Type 0} (calls : FileCalls W)
    (target temporary : W → Option (Buffer × ℕ)) : Type 0 where
  pub opening : (w : W) → target ((calls.open_temporary w).1) ≡ target w
  pub writing :
      (bytes : Buffer) (size : ℕ) (w : W)
      → target ((calls.write_temporary bytes size w).1) ≡ target w
  pub written :
      (bytes : Buffer) (size : ℕ) (w : W)
      → (calls.open_temporary w).0 ≡ true
      → (calls.write_temporary bytes size ((calls.open_temporary w).1)).0 ≡ true
      → temporary ((calls.write_temporary bytes size ((calls.open_temporary w).1)).1)
        ≡ some (bytes, size)
  pub closing : (w : W) → target ((calls.close_temporary w).1) ≡ target w
  pub closed :
      (w : W)
      → (calls.close_temporary w).0 ≡ true
      → temporary ((calls.close_temporary w).1) ≡ temporary w
  pub renaming :
      (w : W)
      → target ((calls.rename_temporary w).1)
        ≡ (if (calls.rename_temporary w).0 then temporary w else target w)
  pub removing : (w : W) → target (calls.remove_temporary w) ≡ target w

-- The file that a save is to leave.
pub saved_as : Buffer → Option Buffer → ℕ → Eps16DiskFormat → Option (Buffer × ℕ)
saved_as memory none logical_size format = none
saved_as memory (some bytes) logical_size img = some (bytes, logical_size)
saved_as memory (some bytes) logical_size efe = none
saved_as memory (some bytes) logical_size hfe = elim (encode_hfe memory bytes logical_size) [
  | inl e ↦ none
  | inr encoded ↦ some (encoded, image_size)
]

module _ {W : Type 0} (calls : FileCalls W) (target temporary : W → Option (Buffer × ℕ))
    (laws : IsFileSystem calls target temporary) where
  save_atomic_lem :
      (bytes : Buffer) (size : ℕ) (w : W)
      → target ((save_atomic calls bytes size w).1)
        ≡ (if (save_atomic calls bytes size w).0 then some (bytes, size) else target w)
  unfolding save_atomic
  save_atomic_lem bytes size w =
      let o : Bool × W = calls.open_temporary w in
      let wr : Bool × W = calls.write_temporary bytes size o.1 in
      let cl : Bool × W = calls.close_temporary wr.1 in
      let rn : Bool × W = calls.rename_temporary cl.1 in
      ground (
        arith,
        laws.opening w,
        laws.writing bytes size o.1,
        laws.written bytes size w,
        laws.closing wr.1,
        laws.closed wr.1,
        laws.renaming cl.1,
        laws.removing o.1,
        laws.removing cl.1,
        laws.removing rn.1,
      )

  checked :
      (b : Bool) (r : Bool × W) (w : W) (file : Option (Buffer × ℕ))
      → target (r.1) ≡ (if r.0 then file else target w)
      → target ((if b then (false, w) else r).1)
        ≡ (if (if b then (false, w) else r).0 then file else target w)
  checked true r w file h = refl
  checked false r w file h = h

  -- If opening, writing, closing and removing the temporary file leave the file at the path as
  -- it is, what was written to it stays, and a rename puts it at the path or, if it fails,
  -- leaves that as it is: a save that reports success leaves the whole image at the path, and
  -- one that reports failure leaves what was there.
  pub eps16_disk_save_lem :
      (memory : Buffer) (path : Option (List ℕ)) (logical : Option Buffer) (logical_size : ℕ)
      (format : Eps16DiskFormat) (w : W)
      → target ((eps16_disk_save calls memory path logical logical_size format w).1) ≡ (
          if (eps16_disk_save calls memory path logical logical_size format w).0
          then saved_as memory logical logical_size format
          else target w)
  unfolding eps16_disk_save saved_as
  eps16_disk_save_lem memory none logical logical_size format w = refl
  eps16_disk_save_lem memory (some []) logical logical_size format w = refl
  eps16_disk_save_lem memory (some (c ∷ cs)) none logical_size format w = refl
  eps16_disk_save_lem memory (some (c ∷ cs)) (some bytes) logical_size img w =
      checked (logical_size != disk_size) (save_atomic calls bytes logical_size w) w _
        (save_atomic_lem bytes logical_size w)
  eps16_disk_save_lem memory (some (c ∷ cs)) (some bytes) logical_size efe w =
      checked (logical_size != disk_size) (false, w) w none refl
  eps16_disk_save_lem memory (some (c ∷ cs)) (some bytes) logical_size hfe w =
      go (encode_hfe memory bytes logical_size)
    where
      result : EncodeError ⊎ Buffer → Bool × W
      result e = if logical_size != disk_size then (false, w) else elim e [
        | inl error ↦ (false, w)
        | inr encoded ↦ save_atomic calls encoded image_size w
      ]

      file : EncodeError ⊎ Buffer → Option (Buffer × ℕ)
      file e = elim e [ inl error ↦ none | inr encoded ↦ some (encoded, image_size) ]

      go :
          (e : EncodeError ⊎ Buffer)
          → target ((result e).1) ≡ (if (result e).0 then file e else target w)
      go (inl e) = checked (logical_size != disk_size) (false, w) w none refl
      go (inr encoded) =
          checked (logical_size != disk_size) (save_atomic calls encoded image_size w) w
            (some (encoded, image_size)) (save_atomic_lem encoded image_size w)
