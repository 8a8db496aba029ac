-- ===== src/Machine/Sector.antt =====
-- native/rom_probe.c, lines 2100 to 2110 and 2177 to 2204: the bytes of a sector, read one by one.
use ensoniq_eps_16_plus.Base.{
  ℕ, zero, suc, ◌+◌, ◌-◌, ◌*◌, ◌/◌, ◌<◌, ◌==◌, u32, ltb, if◌then◌else◌, bit_and, bit_xor, Bool,
  true, false, ◌&&◌, ◌≡◌, refl, ◌∙◌, ap, ap₂, arith, List, [], ◌∷◌, Option, some,
}
use ensoniq_eps_16_plus.Machine.Dmac.{Machine, dmac_pcl_write}
use ensoniq_eps_16_plus.Machine.Fdc.{
  fdc_base, fdc_read, fdc_write, fdc_command, floppy_side, block_at_head, start_sector, finish_byte,
  next_byte, byte_at_data,
}
use ensoniq_eps_16_plus.Machine.View.{View, view, view-dmac_pcl_write}

-- Reads of the data register.
pub read_bytes : ℕ → Machine → List ℕ × Machine
read_bytes zero m = ([], m)
read_bytes (suc n) m =
    let first : ℕ × Machine = fdc_read (fdc_base + 6) m in
    let rest : List ℕ × Machine = read_bytes n first.1 in (first.0 ∷ rest.0, rest.1)

-- The bytes of an array.
unfoldable pub bytes_of : (ℕ → ℕ) → ℕ → ℕ → List ℕ
bytes_of a at zero = []
bytes_of a at (suc n) = a at ∷ bytes_of a (at + 1) n

view-finish_byte : (m : Machine) → view (finish_byte m) ≡ view m
view-finish_byte m = go (m.fdc_remaining == 0)
  where
    go : (b : Bool) → view (if b then dmac_pcl_write 0 false m else m) ≡ view m
    go true = view-dmac_pcl_write 0 false m
    go false = refl

abbrev moved : Machine → Machine
moved m = record (next_byte m) {
  fdc_data_reads = u32 (m.fdc_data_reads + 1);
  fdc_remaining = m.fdc_remaining - 1;
}

-- The view of a machine with another place in the disk.
abbrev with_data : Option ℕ → ℕ → Machine → View
with_data at n m = (
  at, n, m.fdc_physical_track, m.disk_image, m.disk_loaded, m.fdc_sector, m.disk_sector_status,
  m.duart_output,
)

view-moved :
    (m : Machine) (at n : ℕ)
    → m.fdc_data ≡ some at
    → m.fdc_remaining ≡ suc n
    → view (moved m) ≡ with_data (some (at + 1)) n m
view-moved m at n d r = rw d (ap (λ (k : ℕ). with_data (some (at + 1)) k m) (omega (arith, r)))

abbrev read_result : Machine → ℕ → ℕ × Machine
read_result m at = (m.disk_image at, finish_byte (moved m))

-- One read.
read_one :
    (m : Machine) (at n : ℕ)
    → m.fdc_data ≡ some at
    → m.fdc_remaining ≡ suc n
    → fdc_read (fdc_base + 6) m ≡ read_result m at
unfolding fdc_read
read_one m at n d r = go (m.fdc_remaining == 0) (ground (arith, r))
  where
    go :
        (b : Bool)
        → b ≡ false
        → (if b then (0, m) else (byte_at_data m, finish_byte (moved m))) ≡ read_result m at
    go true e = absurd (ground (arith, e))
    go false e = ap (λ (x : ℕ). (x, finish_byte (moved m))) (rw d refl)

read_bytes_lem :
    (n at : ℕ) (m : Machine)
    → m.fdc_data ≡ some at
    → m.fdc_remaining ≡ n
    → ((read_bytes n m).0 ≡ bytes_of m.disk_image at n) × ((read_bytes n m).1.fdc_remaining ≡ 0)
unfolding read_bytes bytes_of
read_bytes_lem zero at m d r = (refl, r)
read_bytes_lem (suc n) at m d r =
    let after : Machine = finish_byte (moved m) in
    let e : fdc_read (fdc_base + 6) m ≡ read_result m at = read_one m at n d r in
    let v : view after ≡ with_data (some (at + 1)) n m =
      view-finish_byte (moved m) ∙ view-moved m at n d r in
    let ih =
      read_bytes_lem n (at + 1) after (ap (λ (w : View). w.0) v) (ap (λ (w : View). w.1) v) in
    (
      ap₂ (λ (x : ℕ) (xs : List ℕ). x ∷ xs) (ap (λ (p : ℕ × Machine). p.0) e)
          (ap (λ (p : ℕ × Machine). (read_bytes n (p.1)).0) e
            ∙ ih.0
            ∙ ap (λ (w : View). bytes_of (w.3) (at + 1) n) v),
      ap (λ (p : ℕ × Machine). (read_bytes n (p.1)).1.fdc_remaining) e ∙ ih.1,
    )

started_lem :
    (b : Bool) (p n : Machine)
    → b ≡ true
    → p.disk_sector_status (block_at_head p) ≡ 0
    → let s : Machine = if b then start_sector p else n in
      (s.fdc_data ≡ some (block_at_head p * 512))
      × (s.fdc_remaining ≡ 512)
      × (s.disk_image ≡ p.disk_image)
started_lem true p n e status = rw status (refl, refl, refl)
started_lem false p n e status = absurd (ground (arith, e))

-- On a machine with a disk, whose head is at a track below 80, whose sector register is below 10,
-- and whose sector there is readable: after READ SECTOR, 512 reads of the data register give the
-- 512 bytes of that sector in their order, and no byte is left.
pub read_sector_lem :
    (m : Machine)
    → m.disk_loaded ≡ true
    → m.fdc_physical_track < 80
    → m.fdc_sector < 10
    → m.disk_sector_status (block_at_head m) ≡ 0
    → let started = fdc_write fdc_base 0x80 m in
      ((read_bytes 512 started).0 ≡ bytes_of m.disk_image (block_at_head m * 512) 512)
      × ((read_bytes 512 started).1.fdc_remaining ≡ 0)
unfolding fdc_write fdc_command floppy_side
read_sector_lem m loaded head sector status =
    let p : Machine =
      dmac_pcl_write 0 true (record m { fdc_last_command = 0x80; fdc_error_status = 0 }) in
    let v : view p ≡ view m =
      view-dmac_pcl_write 0 true (record m { fdc_last_command = 0x80; fdc_error_status = 0 }) in
    let ready : Bool = p.disk_loaded && ltb p.fdc_physical_track 80 && ltb p.fdc_sector 10 in
    let is_ready : ready ≡ true =
      ap (λ (w : View). w.4 && ltb (w.2) 80 && ltb (w.5) 10) v
      ∙ ground (arith, loaded, head, sector) in
    let block : block_at_head p ≡ block_at_head m =
      ap (λ (w : View). (w.2 * 2 + bit_xor (bit_and (w.7 / 2) 1) 1) * 10 + w.5) v in
    let readable : p.disk_sector_status (block_at_head p) ≡ 0 =
      ap₂ (λ (w : View) (b : ℕ). (w.6) b) v block ∙ status in
    let started : Machine = if ready then start_sector p else record p { fdc_remaining = 0 } in
    let facts = started_lem ready p (record p { fdc_remaining = 0 }) is_ready readable in
    let read = read_bytes_lem 512 (block_at_head p * 512) started facts.0 facts.1 in
    (
      read.0
          ∙ ap₂ (λ (image : ℕ → ℕ) (b : ℕ). bytes_of image (b * 512) 512)
              (facts.2 ∙ ap (λ (w : View). w.3) v) block,
      read.1,
    )
