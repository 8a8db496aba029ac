-- ===== src/Hfe/Skew.antt =====
-- The order of the sectors on a track that native/hfe_disk.c encodes.
use ensoniq_eps_16_plus.Base.{ℕ, ◌+◌, ◌-◌, ◌*◌, ◌%◌, ◌<◌, ◌≡◌, ◌↔◌, arith}
use ensoniq_eps_16_plus.Hfe.Mfm.{sector_at}

-- For any track and side, each sector below 10 stands at exactly one of the ten positions of the
-- track: the sector number less the skew of the track, modulo 10.
sector_at_lem :
    (track side sector position : ℕ)
    → sector < 10
    → position < 10
    → (sector_at track side position ≡ sector)
      ↔ (position ≡ (sector + 10 - (track * 6 + side * 8) % 10) % 10)
unfolding sector_at
sector_at_lem track side sector position hs hp = (λ e. omega arith, λ e. omega arith)
