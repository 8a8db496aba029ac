-- ===== src/Hfe/DiskTests.antt =====
-- Runs of the decoding, of a load and of a save.
use ensoniq_eps_16_plus.Base.{
  ℕ, zero, suc, if◌then◌else◌, true, false, ◌≡◌, refl, arith, List, [], ◌∷◌, Option, none, some,
}
use ensoniq_eps_16_plus.Hfe.Codec.{
  Buffer, decode_bytes, decode_from, decode_word, crc16, crc_byte, crc_shift,
}
use ensoniq_eps_16_plus.Hfe.Image.{disk_size, has_efe_signature}
use ensoniq_eps_16_plus.Hfe.Decode.{
  Place, Scan, done, field_at, id_field, scan_fields, sector_not_found,
}
use ensoniq_eps_16_plus.Hfe.Sectors.{IsScan}
use ensoniq_eps_16_plus.Hfe.Seen.{unread}
use ensoniq_eps_16_plus.Hfe.Integrity.{scan_fields_lem}
use ensoniq_eps_16_plus.Hfe.Files.{
  img, DiskFile, Load, LoadError, load_image, disk_load, FileCalls, eps16_disk_save,
}
use ensoniq_eps_16_plus.Hfe.Saving.{IsFileSystem, saved_as, eps16_disk_save_lem}

abbrev item : List ℕ → ℕ → ℕ
item [] i = 0
item (v ∷ vs) zero = v
item (v ∷ vs) (suc i) = item vs i

-- The ID of sector 3, as a track side has it.
abbrev id_stream : Buffer
id_stream = item (
    0x44 ∷ 0x89 ∷ 0x44 ∷ 0x89 ∷ 0x44 ∷ 0x89 ∷ 0x55 ∷ 0x54 ∷ 0xaa ∷ 0xaa ∷ 0xaa ∷ 0xaa ∷ 0xaa ∷ 0xa5
    ∷ 0x2a ∷ 0xa4 ∷ 0x44 ∷ 0x52 ∷ 0xaa ∷ 0x51 ∷ [])

abbrev id_place : Place
id_place = record { track = 0; side = 0; tolerant = true; stream = id_stream; stream_size = 20 }

abbrev nothing_seen : Scan
nothing_seen = record {
  logical = λ i. 0;
  sector_status = λ i. sector_not_found;
  total = 0;
  seen = 0;
  pending_sector = none;
}

id_seen :
    scan_fields id_place 15 0 nothing_seen ≡ done (record nothing_seen { pending_sector = some 3 })
unfolding scan_fields field_at id_field decode_bytes decode_from decode_word crc16 crc_byte
    crc_shift
id_seen = refl

nothing_seen-IsScan : IsScan id_place nothing_seen
nothing_seen-IsScan = record {
  read = λ k l h. absurd (ground (arith, h, unread k l));
  pending = λ k e. ground arith;
}

scan_fields_example : IsScan id_place (record nothing_seen { pending_sector = some 3 })
scan_fields_example =
    scan_fields_lem id_place 15 0 nothing_seen (record nothing_seen { pending_sector = some 3 })
      nothing_seen-IsScan id_seen

-- A file of a wrong size that is no image.
abbrev wrong_load : Load
wrong_load =
    disk_load (λ i. 0) (DiskFile.contents (λ i. 0) 12) (λ i. i) disk_size (λ i. 3) false img

wrong_file : wrong_load.error ≡ some LoadError.wrong_size
unfolding disk_load load_image has_efe_signature
wrong_file = refl

-- A file system with the file at the path and the one beside it.
abbrev Disk : Type 0
Disk = Option (Buffer × ℕ) × Option (Buffer × ℕ)

abbrev disk_calls : FileCalls Disk
disk_calls = record {
  open_temporary = λ w. (true, (w.0, some ((λ i. 0), 0)));
  write_temporary = λ bytes size w. (true, (w.0, some (bytes, size)));
  close_temporary = λ w. (true, w);
  rename_temporary = λ w. (true, (w.1, none));
  remove_temporary = λ w. (w.0, none);
}

disk_calls-IsFileSystem : IsFileSystem disk_calls (λ w. w.0) (λ w. w.1)
disk_calls-IsFileSystem = record {
  opening = λ w. refl;
  writing = λ bytes size w. refl;
  written = λ bytes size w o e. refl;
  closing = λ w. refl;
  closed = λ w e. refl;
  renaming = λ w. refl;
  removing = λ w. refl;
}

save_example :
    (eps16_disk_save disk_calls
      (λ i. 0)
      (some (0x61 ∷ []))
      (some (λ i. i))
      disk_size
      img
      (none, none)).1.0
    ≡ (if (eps16_disk_save disk_calls
          (λ i. 0)
          (some (0x61 ∷ []))
          (some (λ i. i))
          disk_size
          img
          (none, none)).0
        then saved_as (λ i. 0) (some (λ i. i)) disk_size img
        else none)
save_example =
    eps16_disk_save_lem disk_calls (λ w. w.0) (λ w. w.1) disk_calls-IsFileSystem (λ i. 0)
      (some (0x61 ∷ [])) (some (λ i. i)) disk_size img (none, none)
