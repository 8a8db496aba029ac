-- ===== src/Machine/Floppy.antt =====
-- native/rom_probe.c, lines 2082 to 2209: the disk controller stays inside the disk.
use ensoniq_eps_16_plus.Base.{
  ℕ, zero, suc, ◌+◌, ◌-◌, ◌*◌, ◌/◌, ◌^◌, ◌≤◌, ◌<◌, ◌!=◌, nonzero, u32, ltb, if◌then◌else◌, bit_and,
  bit_xor, Bool, true, false, ◌&&◌, ◌≡◌, refl, sym, ap, arith, Option, none, some,
}
use mathlib.Core.Path.{subst}
use ensoniq_eps_16_plus.Base.Bits.{bit_and_low, bit_and-zero}
use ensoniq_eps_16_plus.Machine.Dmac.{Machine, dmac_pcl_write}
use ensoniq_eps_16_plus.Machine.Fdc.{
  fdc_command, floppy_side, step_head, start_sector, block_at_head,
}
use ensoniq_eps_16_plus.Machine.View.{View, view, view-dmac_pcl_write}

-- What is left of a transfer lies inside the disk's 1600 sectors of 512 bytes.
unfoldable pub InDisk : Option ℕ → ℕ → Type 0
InDisk none remaining = remaining ≡ 0
InDisk (some at) remaining = at + remaining ≤ 1600 * 512

pub record IsFloppy (m : Machine) : Type 0 where
  pub window : InDisk m.fdc_data m.fdc_remaining
  pub remaining : m.fdc_remaining ≤ 512
  pub head : m.fdc_physical_track < 80

same_view : (m n : Machine) → view n ≡ view m → IsFloppy m → IsFloppy n
same_view m n e f = record {
  window = subst (λ (v : View). InDisk (v.0) (v.1)) (sym e) f.window;
  remaining = rw (ap (λ (v : View). v.1) e) f.remaining;
  head = rw (ap (λ (v : View). v.2) e) f.head;
}

pub pcl :
    (channel : ℕ) (state : Bool) (m : Machine)
    → IsFloppy m
    → IsFloppy (dmac_pcl_write channel state m)
pcl channel state m f = same_view m _ (view-dmac_pcl_write channel state m) f

pub on_if :
    (b : Bool) (m n : Machine)
    → (b ≡ true → IsFloppy m)
    → (b ≡ false → IsFloppy n)
    → IsFloppy (if b then m else n)
on_if true m n f g = f refl
on_if false m n f g = g refl

-- A number and a byte are taken off.
pub InDisk-next :
    (at : Option ℕ) (remaining : ℕ)
    → nonzero remaining ≡ true
    → InDisk at remaining
    → InDisk (elim at [ none ↦ none | some a ↦ some (a + 1) ]) (remaining - 1)
unfolding InDisk
InDisk-next none remaining more w = ground (arith, w, more)
InDisk-next (some a) remaining more w = ground (arith, w, more)

empty_window : (at : Option ℕ) (remaining : ℕ) → InDisk at remaining → InDisk at 0
unfolding InDisk
empty_window none remaining w = refl
empty_window (some a) remaining w = omega (arith, w)

side-bound : (m : Machine) → floppy_side m ≤ 1
unfolding floppy_side
side-bound m =
    let one : bit_and (m.duart_output / 2) 1 ≤ 1 =
      omega (arith, bit_and_low (m.duart_output / 2) 1, bit_and-zero (m.duart_output / 2 / 2)) in
    flipped _ one
  where
    flipped : (b : ℕ) → b ≤ 1 → bit_xor b 1 ≤ 1
    flipped zero h = omega arith
    flipped (suc zero) h = omega arith
    flipped (suc (suc b)) h = absurd (omega arith)

idle-IsFloppy : (m : Machine) → IsFloppy m → IsFloppy (record m { fdc_remaining = 0 })
idle-IsFloppy m f = record {
  window = empty_window m.fdc_data m.fdc_remaining f.window;
  remaining = omega arith;
  head = f.head;
}

at_track :
    (m : Machine) (track register : ℕ)
    → track < 80
    → IsFloppy m
    → IsFloppy (record m { fdc_physical_track = track; fdc_track = register })
at_track m track register l f = record { window = f.window; remaining = f.remaining; head = l }

step_head-IsFloppy :
    (command_type value : ℕ) (m : Machine) → IsFloppy m → IsFloppy (step_head command_type value m)
step_head-IsFloppy command_type value m f =
    pcl 0 false _ (record { window = f.window; remaining = f.remaining; head = ground arith })

no_data-IsFloppy :
    (m : Machine) (status : ℕ)
    → IsFloppy m
    → IsFloppy (record m { fdc_data = none; fdc_remaining = 0; fdc_error_status = status })
unfolding InDisk
no_data-IsFloppy m status f = record { window = refl; remaining = omega arith; head = f.head }

sector-IsFloppy :
    (m : Machine) (reads : ℕ)
    → m.fdc_sector < 10
    → IsFloppy m
    → IsFloppy (record m {
      fdc_data = some (block_at_head m * 512);
      fdc_remaining = 512;
      fdc_reads = reads;
    })
unfolding InDisk
sector-IsFloppy m reads l f = record {
  window = omega (arith, side-bound m, f.head);
  remaining = omega arith;
  head = f.head;
}

start_sector-IsFloppy : (m : Machine) → m.fdc_sector < 10 → IsFloppy m → IsFloppy (start_sector m)
start_sector-IsFloppy m l f =
    on_if (m.disk_sector_status (block_at_head m) != 0)
      (dmac_pcl_write 0 false (record m {
        fdc_data = none;
        fdc_remaining = 0;
        fdc_error_status = m.disk_sector_status (block_at_head m);
      }))
      (record m {
        fdc_data = some (block_at_head m * 512);
        fdc_remaining = 512;
        fdc_reads = u32 (m.fdc_reads + 1);
      })
      (λ e. pcl 0 false _ (no_data-IsFloppy m (m.disk_sector_status (block_at_head m)) f))
      (λ e. sector-IsFloppy m (u32 (m.fdc_reads + 1)) l f)

pub either : (b : Bool) (m n : Machine) → IsFloppy m → IsFloppy n → IsFloppy (if b then m else n)
either true m n f g = f
either false m n f g = g

-- The sector's number is checked before the transfer.
guarded :
    (a b c : Bool) (m n : Machine)
    → IsFloppy m
    → IsFloppy n
    → IsFloppy (if a && b && c && ltb m.fdc_sector 10 then start_sector m else n)
guarded a b c m n f g =
    on_if (a && b && c && ltb m.fdc_sector 10) (start_sector m) n
      (λ e. start_sector-IsFloppy m (ground (arith, e)) f) (λ e. g)

pub fdc_command-IsFloppy : (value : ℕ) (m : Machine) → IsFloppy m → IsFloppy (fdc_command value m)
unfolding fdc_command
fdc_command-IsFloppy value m f =
    let sought : ℕ = if ltb m.fdc_data_register 80 then m.fdc_data_register else 79 in
    let l : sought < 80 = ground arith in
    let restored = pcl 0 false _ (at_track m 0 0 (omega arith) f) in
    let moved = pcl 0 false _ (at_track m sought sought l f) in
    let stepped = step_head-IsFloppy (value / 2 ^ 4) value m f in
    let idle = idle-IsFloppy m f in
    let interrupted = pcl 0 false _ idle in search (guarded, either) depth 12
