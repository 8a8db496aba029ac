-- ===== src/Hfe/Loading.antt =====
-- native/hfe_disk.c, lines 553 to 614: what a load does to the caller's buffers.
use ensoniq_eps_16_plus.Base.{ℕ, Bool, true, ◌⊎◌, ◌≡◌, none}
use ensoniq_eps_16_plus.Hfe.Codec.{Buffer}
use ensoniq_eps_16_plus.Hfe.Files.{Eps16DiskFormat, Load}

-- The load has succeeded, and the sector is readable unless that was not asked for; or the buffer
-- and the format are the caller's.
abbrev pub IsSettled : Bool → ℕ → Buffer → Eps16DiskFormat → Load → Type 0
IsSettled tolerant block logical format l =
    ((l.error ≡ none) × ((tolerant ≡ true) ⊎ (l.sector_status block ≡ 0)))
    ⊎ ((l.logical ≡ logical) × (l.format ≡ format))

-- And the place past the buffer is as it was.
abbrev IsLoad : Bool → ℕ → ℕ → Load → Load → Type 0
IsLoad tolerant block place before l =
    IsSettled tolerant block before.logical before.format l
    × (l.logical place ≡ before.logical place)
