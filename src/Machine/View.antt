-- ===== src/Machine/View.antt =====
-- native/rom_probe.c, lines 2082 to 2209: what the transfer controller leaves of the disk controller.
use ensoniq_eps_16_plus.Base.{
  ℕ, if◌then◌else◌, Bool, true, false, ◌≡◌, refl, ◌∙◌, Option, none, some,
}
use ensoniq_eps_16_plus.Machine.Dmac.{Machine, claim, dmac_pcl_write}

-- What the controller of transfers leaves.
abbrev pub View : Type 0
View = Option ℕ × ℕ × ℕ × (ℕ → ℕ) × Bool × ℕ × (ℕ → ℕ) × ℕ

abbrev pub view : Machine → View
view m = (
  m.fdc_data, m.fdc_remaining, m.fdc_physical_track, m.disk_image, m.disk_loaded, m.fdc_sector,
  m.disk_sector_status, m.duart_output,
)

chosen :
    (b : Bool) (m n k : Machine)
    → view n ≡ view m
    → view k ≡ view m
    → view (if b then n else k) ≡ view m
chosen true m n k f g = f
chosen false m n k f g = g

view-claim : (channel : ℕ) (wanted : Bool) (m : Machine) → view (claim channel wanted m) ≡ view m
view-claim channel wanted m = go m.dmac_irq_channel wanted
  where
    go :
        (irq : Option ℕ) (b : Bool)
        → view (elim irq [
          | none ↦ if b then record m { dmac_irq_channel = some channel } else m
          | some c ↦ m
        ])
          ≡ view m
    go none true = refl
    go none false = refl
    go (some c) b = refl

claimed :
    (channel : ℕ) (wanted : Bool) (m n : Machine)
    → view n ≡ view m
    → view (claim channel wanted n) ≡ view m
claimed channel wanted m n e = view-claim channel wanted n ∙ e

pub view-dmac_pcl_write :
    (channel : ℕ) (state : Bool) (m : Machine) → view (dmac_pcl_write channel state m) ≡ view m
unfolding dmac_pcl_write
view-dmac_pcl_write channel state m = search (chosen, claimed)
