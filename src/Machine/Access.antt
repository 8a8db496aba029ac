-- ===== src/Machine/Access.antt =====
-- native/rom_probe.c, lines 2082 to 2209: each read and write of the disk controller keeps it inside the disk.
use ensoniq_eps_16_plus.Base.{
  ℕ, ◌+◌, ◌-◌, ◌==◌, nonzero, u32, if◌then◌else◌, bit_and, Bool, true, false, ◌&&◌, ◌≡◌, refl, sym,
  arith, Option, none, some,
}
use mathlib.Core.Path.{subst}
use ensoniq_eps_16_plus.Machine.Dmac.{Machine, dmac_pcl_write}
use ensoniq_eps_16_plus.Machine.Fdc.{
  fdc_read, fdc_write, fdc_status, fdc_register, byte_at_data, finish_byte, next_byte, write_byte,
}
use ensoniq_eps_16_plus.Machine.Floppy.{
  IsFloppy, InDisk, pcl, on_if, either, InDisk-next, fdc_command-IsFloppy,
}

finish-IsFloppy : (m : Machine) → IsFloppy m → IsFloppy (finish_byte m)
finish-IsFloppy m f = on_if _ _ _ (λ e. pcl 0 false m f) (λ e. f)

-- The next byte of a transfer, read or written.
next_data :
    (m : Machine) → (next_byte m).fdc_data ≡ elim m.fdc_data [ none ↦ none | some a ↦ some (a + 1) ]
next_data m = ground arith

next_head : (m : Machine) → (next_byte m).fdc_physical_track ≡ m.fdc_physical_track
next_head m = ground arith

next-IsFloppy :
    (m : Machine) (reads : ℕ)
    → nonzero m.fdc_remaining ≡ true
    → IsFloppy m
    → IsFloppy
        (record (next_byte m) { fdc_data_reads = reads; fdc_remaining = m.fdc_remaining - 1 })
next-IsFloppy m reads more f = record {
  window =
      subst (λ (d : Option ℕ). InDisk d (m.fdc_remaining - 1)) (sym (next_data m))
        (InDisk-next m.fdc_data m.fdc_remaining more f.window);
  remaining = omega (arith, f.remaining);
  head = rw (next_head m) f.head;
}

write_data :
    (value : ℕ) (m : Machine)
    → (write_byte value m).fdc_data ≡ elim m.fdc_data [ none ↦ none | some a ↦ some (a + 1) ]
write_data value m = ground arith

write_head :
    (value : ℕ) (m : Machine) → (write_byte value m).fdc_physical_track ≡ m.fdc_physical_track
write_head value m = ground arith

write-IsFloppy :
    (value : ℕ) (m : Machine)
    → nonzero m.fdc_remaining ≡ true
    → IsFloppy m
    → IsFloppy (record (write_byte value m) { fdc_remaining = m.fdc_remaining - 1 })
write-IsFloppy value m more f = record {
  window =
      subst (λ (d : Option ℕ). InDisk d (m.fdc_remaining - 1)) (sym (write_data value m))
        (InDisk-next m.fdc_data m.fdc_remaining more f.window);
  remaining = omega (arith, f.remaining);
  head = rw (write_head value m) f.head;
}

abbrev AfterRead : ℕ × Machine → Type 0
AfterRead r = IsFloppy (r.1)

either_pair :
    (b : Bool) (r s : ℕ × Machine) → AfterRead r → AfterRead s → AfterRead (if b then r else s)
either_pair true r s f g = f
either_pair false r s f g = g

read_rest :
    (m : Machine)
    → IsFloppy m
    → AfterRead (
        if m.fdc_remaining == 0 then (0, m) else (
          byte_at_data m,
          finish_byte (record (next_byte m) {
            fdc_data_reads = u32 (m.fdc_data_reads + 1);
            fdc_remaining = m.fdc_remaining - 1;
          }),
        ))
read_rest m f = go (m.fdc_remaining == 0) refl
  where
    moved : Machine
    moved = record (next_byte m) {
      fdc_data_reads = u32 (m.fdc_data_reads + 1);
      fdc_remaining = m.fdc_remaining - 1;
    }

    go :
        (b : Bool)
        → (m.fdc_remaining == 0) ≡ b
        → AfterRead (if b then (0, m) else (byte_at_data m, finish_byte moved))
    go true e = f
    go false e = finish-IsFloppy moved (next-IsFloppy m _ (ground (arith, e)) f)

fdc_read-IsFloppy : (address : ℕ) (m : Machine) → IsFloppy m → IsFloppy ((fdc_read address m).1)
unfolding fdc_read
fdc_read-IsFloppy address m f =
    let read : AfterRead (fdc_status m, dmac_pcl_write 0 true m) = pcl 0 true m f in
    let track : AfterRead (m.fdc_track, m) = f in
    let sector : AfterRead (m.fdc_sector, m) = f in
    let rest = read_rest m f in
    either_pair (fdc_register address == 0) _ _ read (
      either_pair (fdc_register address == 1) _ _ track
        (either_pair (fdc_register address == 2) _ _ sector rest))

write_rest :
    (a b : Bool) (value : ℕ) (m n : Machine)
    → IsFloppy m
    → IsFloppy n
    → IsFloppy (
        if a && nonzero m.fdc_remaining && b
        then finish_byte (record (write_byte value m) { fdc_remaining = m.fdc_remaining - 1 })
        else n)
write_rest a b value m n f g =
    on_if (a && nonzero m.fdc_remaining && b)
      (finish_byte (record (write_byte value m) { fdc_remaining = m.fdc_remaining - 1 })) n
      (λ e. finish-IsFloppy _ (write-IsFloppy value m (ground (arith, e)) f)) (λ e. g)

-- Fields that the transfer does not depend on.
register-IsFloppy :
    (m : Machine) (track sector register command status : ℕ)
    → IsFloppy m
    → IsFloppy (record m {
      fdc_track = track;
      fdc_sector = sector;
      fdc_data_register = register;
      fdc_last_command = command;
      fdc_error_status = status;
    })
register-IsFloppy m track sector register command status f = record {
  window = f.window;
  remaining = f.remaining;
  head = f.head;
}

fdc_write-IsFloppy :
    (address word : ℕ) (m : Machine) → IsFloppy m → IsFloppy (fdc_write address word m)
unfolding fdc_write
fdc_write-IsFloppy address word m f =
    let value : ℕ = bit_and word 0xff in
    let track =
      register-IsFloppy m value m.fdc_sector m.fdc_data_register m.fdc_last_command
        m.fdc_error_status f in
    let sector =
      register-IsFloppy m m.fdc_track value m.fdc_data_register m.fdc_last_command
        m.fdc_error_status f in
    let register =
      register-IsFloppy m m.fdc_track m.fdc_sector value m.fdc_last_command m.fdc_error_status f in
    let accepted = register-IsFloppy m m.fdc_track m.fdc_sector m.fdc_data_register value 0 f in
    let command = fdc_command-IsFloppy value _ (pcl 0 true _ accepted) in
    search (write_rest, either) depth 12

-- From a disk controller whose transfer has at most 512 bytes left, all inside the disk's 1600
-- sectors, or no place and no bytes left, and whose head is at a track below 80: a read of any
-- register and a write of any value to any register leave it in such a state.
pub access-IsFloppy :
    (read_address write_address word : ℕ) (m : Machine)
    → IsFloppy m
    → IsFloppy ((fdc_read read_address m).1) × IsFloppy (fdc_write write_address word m)
access-IsFloppy read_address write_address word m f =
    (fdc_read-IsFloppy read_address m f, fdc_write-IsFloppy write_address word m f)
