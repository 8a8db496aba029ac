-- ===== src/Hfe/Files.antt =====
-- native/hfe_disk.c, lines 364 to 386 and 553 to 661: loading and saving of disk images.
use ensoniq_eps_16_plus.Base.{
  ℕ, ◌==◌, ◌!=◌, leb, if◌then◌else◌, Bool, true, false, not, ◌&&◌, inl, inr, List, [], ◌∷◌, Option,
  none, some,
}
use ensoniq_eps_16_plus.Hfe.Codec.{Buffer}
use ensoniq_eps_16_plus.Hfe.Image.{EfeError, disk_size, copy, has_efe_signature, create_from_efe}
use ensoniq_eps_16_plus.Hfe.Encode.{encode_hfe, image_size}
use ensoniq_eps_16_plus.Hfe.Decode.{
  Outcome, DecodeError, done, broken, is_hfe, sector_readable, decode_hfe,
}

pub data Eps16DiskFormat : Type 0 where
  img hfe efe : Eps16DiskFormat

-- What the calls that open, measure and read the file gave.
pub data DiskFile : Type 0 where
  not_opened not_measured not_read : DiskFile
  contents : Buffer → ℕ → DiskFile

pub data LoadError : Type 0 where
  cannot_open no_size cannot_read wrong_size bad_status : LoadError
  bad_hfe : DecodeError → LoadError
  bad_efe : EfeError → LoadError

-- The result, and the buffers of the caller as the call leaves them.
pub record Load : Type 0 where
  pub error : Option LoadError
  pub logical : Buffer
  pub sector_status : ℕ → ℕ
  pub format : Eps16DiskFormat

abbrev pub refused : LoadError → Load → Load
refused e before = record before { error = some e }

-- The file is the image, and all sectors are readable.
abbrev pub loaded : Buffer → ℕ → Load → Load
loaded source logical_size before = record before {
  logical = copy before.logical 0 source 0 logical_size;
  sector_status = λ i. sector_readable;
  format = img;
}

-- The decoded sectors are copied once all is well.
unfoldable pub end_hfe : ℕ → Load → Outcome → Load
end_hfe logical_size before (broken e s) = record before {
  error = some (bad_hfe e);
  sector_status = s.sector_status;
}
end_hfe logical_size before (done s) = record before {
  logical = copy before.logical 0 s.logical 0 logical_size;
  sector_status = s.sector_status;
  format = hfe;
}

-- The buffer is the caller's own.
unfoldable pub end_efe : Load → Option EfeError × Buffer → Load
end_efe before (some e, made) = record before { error = some (bad_efe e); logical = made }
end_efe before (none, made) = record before {
  logical = made;
  sector_status = λ i. sector_readable;
  format = efe;
}

-- `memory` is what the buffer for the decoded sectors holds at first.
unfoldable pub load_hfe : Buffer → Buffer → ℕ → ℕ → Bool → Load → Load
load_hfe memory image length logical_size tolerant before =
    end_hfe logical_size before
      (decode_hfe image length memory logical_size before.sector_status tolerant)

unfoldable pub load_image : Buffer → Buffer → ℕ → ℕ → Bool → Load → Load
load_image memory image length logical_size tolerant before =
    if leb 8 length && is_hfe image
    then load_hfe memory image length logical_size tolerant before
    else if has_efe_signature image length
    then end_efe before (create_from_efe image length before.logical logical_size)
    else if length == logical_size
    then loaded image logical_size before
    else refused wrong_size before

unfoldable pub disk_load : Buffer → DiskFile → Buffer → ℕ → (ℕ → ℕ) → Bool → Eps16DiskFormat → Load
disk_load memory file logical logical_size sector_status tolerant format =
    let before : Load = record {
      error = none;
      logical = logical;
      sector_status = sector_status;
      format = format;
    } in
    elim file [
      | not_opened ↦ refused cannot_open before
      | not_measured ↦ refused no_size before
      | not_read ↦ refused cannot_read before
      | contents image length ↦ load_image memory image length logical_size tolerant before
    ]

-- No statuses are given, and none come back.
unfoldable eps16_disk_load : Buffer → DiskFile → Buffer → ℕ → Eps16DiskFormat → Load
eps16_disk_load memory file logical logical_size format =
    disk_load memory file logical logical_size (λ i. 0) false format

-- `none` is a null pointer to the statuses.
unfoldable eps16_disk_load_physical :
    Buffer → DiskFile → Buffer → ℕ → Option (ℕ → ℕ) → ℕ → Eps16DiskFormat → Load
eps16_disk_load_physical memory file logical logical_size sector_status sector_status_size format =
    let before : Load = record {
      error = none;
      logical = logical;
      sector_status = λ i. 0;
      format = format;
    } in
    elim sector_status [
      | none ↦ refused bad_status before
      | some status ↦
          if sector_status_size != 1600
          then refused bad_status (record before { sector_status = status })
          else disk_load memory file logical logical_size status true format
    ]

-- The calls that save a file under another name and rename it, on a state `W` of the file system.
-- A call gives whether it succeeded, and the state that it leaves.
pub record FileCalls (W : Type 0) : Type 0 where
  pub open_temporary : W → Bool × W
  pub write_temporary : Buffer → ℕ → W → Bool × W
  pub close_temporary : W → Bool × W
  pub rename_temporary : W → Bool × W
  pub remove_temporary : W → W

module _ {W : Type 0} (calls : FileCalls W) where
  -- Whether the data was saved.
  unfoldable pub save_atomic : Buffer → ℕ → W → Bool × W
  save_atomic bytes size w =
      let opened : Bool × W = calls.open_temporary w in
      let written : Bool × W =
        if opened.0 then calls.write_temporary bytes size opened.1 else opened in
      let closed : Bool × W =
        if opened.0 then calls.close_temporary written.1 else (true, written.1) in
      let ok : Bool = opened.0 && written.0 && closed.0 in
      let renamed : Bool × W = if ok then calls.rename_temporary closed.1 else (false, closed.1) in
      if not renamed.0 then (false, calls.remove_temporary renamed.1) else (true, renamed.1)

  -- `none` is a null pointer, and `[]` an empty path.
  unfoldable pub eps16_disk_save :
      Buffer → Option (List ℕ) → Option Buffer → ℕ → Eps16DiskFormat → W → Bool × W
  eps16_disk_save memory path logical logical_size format w = elim path [
    | none ↦ (false, w)
    | some [] ↦ (false, w)
    | some (c ∷ cs) ↦ elim logical [
      | none ↦ (false, w)
      | some bytes ↦ if logical_size != disk_size then (false, w) else elim format [
        | img ↦ save_atomic bytes logical_size w
        | efe ↦ (false, w)
        | hfe ↦ elim (encode_hfe memory bytes logical_size) [
          | inl e ↦ (false, w)
          | inr encoded ↦ save_atomic encoded image_size w
        ]
      ]
    ]
  ]
