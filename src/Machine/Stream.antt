-- ===== src/Machine/Stream.antt =====
-- native/rom_probe.c, lines 2338 to 2358 and 2469 to 2500: the blocks of a SCSI read, byte by byte.
use ensoniq_eps_16_plus.Base.{
  ℕ, zero, suc, ◌+◌, ◌-◌, ◌*◌, ◌/◌, ◌^◌, ◌≤◌, ◌<◌, ◌==◌, nonzero, u8, if◌then◌else◌, bit_and, Bool,
  true, false, ◌&&◌, ◌||◌, ◌≡◌, refl, sym, ◌∙◌, ap, ap₂, arith, List, [], ◌∷◌, Option, none, some,
}
use ensoniq_eps_16_plus.Machine.Dmac.{Machine, claim, dmac_pcl_write}
use ensoniq_eps_16_plus.Machine.Scsi.{
  set_scsi, scsi_raise_interrupt, finish_command, count_down, file_byte, next_position, take_stream,
  scsi_dma_read8, scsi_command, scsi_start_read, scsi_lba, scsi_blocks, has_image,
}
use ensoniq_eps_16_plus.Machine.Sector.{bytes_of}

-- The stream of a machine: the file, the place in it, its size, and what is left to read.
abbrev Stream : Type 0
Stream = Option (ℕ → ℕ) × ℕ × ℕ × ℕ

abbrev stream : Machine → Stream
stream m = (m.scsi_image, m.scsi_position, m.scsi_image_size, m.scsi_stream_remaining)

chosen :
    (b : Bool) (m n k : Machine)
    → stream n ≡ stream m
    → stream k ≡ stream m
    → stream (if b then n else k) ≡ stream m
chosen true m n k f g = f
chosen false m n k f g = g

claimed :
    (channel : ℕ) (wanted : Bool) (m n : Machine)
    → stream n ≡ stream m
    → stream (claim channel wanted n) ≡ stream m
claimed channel wanted m n e = go n.dmac_irq_channel wanted ∙ e
  where
    go :
        (irq : Option ℕ) (b : Bool)
        → stream (elim irq [
          | none ↦ if b then record n { dmac_irq_channel = some channel } else n
          | some c ↦ n
        ])
          ≡ stream n
    go none true = refl
    go none false = refl
    go (some c) b = refl

stream-dmac_pcl_write :
    (channel : ℕ) (state : Bool) (m : Machine) → stream (dmac_pcl_write channel state m) ≡ stream m
unfolding dmac_pcl_write
stream-dmac_pcl_write channel state m = search (chosen, claimed)

stream-finish_command : (status : ℕ) (m : Machine) → stream (finish_command status m) ≡ stream m
unfolding scsi_raise_interrupt
stream-finish_command status m = stream-dmac_pcl_write 1 false _

stream-count_down : (remaining : ℕ) (m : Machine) → stream (count_down remaining m) ≡ stream m
stream-count_down remaining m = go (remaining == 0)
  where
    counted : Machine
    counted =
        set_scsi 0x14 (u8 remaining)
          (set_scsi 0x13 (u8 (remaining / 2 ^ 8)) (set_scsi 0x12 (u8 (remaining / 2 ^ 16)) m))

    go : (b : Bool) → stream (if b then finish_command 0x16 counted else counted) ≡ stream m
    go true = stream-finish_command 0x16 counted
    go false = refl

stream-take_stream :
    (bytes : ℕ → ℕ) (n : ℕ) (m : Machine)
    → m.scsi_stream_remaining ≡ suc n
    → m.scsi_position + suc n ≤ m.scsi_image_size
    → stream (take_stream m) ≡ (m.scsi_image, m.scsi_position + 1, m.scsi_image_size, n)
stream-take_stream bytes n m r inside =
    let e : next_position m ≡ m.scsi_position + 1 = ground (arith, inside) in
    let f : m.scsi_stream_remaining - 1 ≡ n = omega (arith, r) in
    stream-count_down _ _ ∙ ap₂ (λ (p k : ℕ). (m.scsi_image, p, m.scsi_image_size, k)) e f

-- Reads by the transfer controller.
pub dma_bytes : ℕ → Machine → List ℕ × Machine
dma_bytes zero m = ([], m)
dma_bytes (suc n) m =
    let first : ℕ × Machine = scsi_dma_read8 m in
    let rest : List ℕ × Machine = dma_bytes n first.1 in (first.0 ∷ rest.0, rest.1)

abbrev taken : Machine → ℕ × Machine
taken m = (file_byte m, take_stream m)

dma_one : (n : ℕ) (m : Machine) → m.scsi_stream_remaining ≡ suc n → scsi_dma_read8 m ≡ taken m
unfolding scsi_dma_read8
dma_one n m r = go (nonzero m.scsi_stream_remaining) (ground (arith, r))
  where
    rest : ℕ × Machine
    rest =
        if nonzero m.scsi_dma_padding_remaining
        then (0, record m { scsi_dma_padding_remaining = m.scsi_dma_padding_remaining - 1 })
        else (0, m)

    go : (b : Bool) → b ≡ true → (if b then taken m else rest) ≡ taken m
    go true e = refl
    go false e = absurd (ground (arith, e))

file_byte_lem :
    (bytes : ℕ → ℕ) (m : Machine)
    → m.scsi_image ≡ some bytes
    → m.scsi_position < m.scsi_image_size
    → file_byte m ≡ bytes m.scsi_position
file_byte_lem bytes m image inside = rw image (ground (arith, inside))

dma_bytes_lem :
    (bytes : ℕ → ℕ) (n : ℕ) (m : Machine)
    → m.scsi_image ≡ some bytes
    → m.scsi_stream_remaining ≡ n
    → m.scsi_position + n ≤ m.scsi_image_size
    → ((dma_bytes n m).0 ≡ bytes_of bytes m.scsi_position n)
      × ((dma_bytes n m).1.scsi_stream_remaining ≡ 0)
unfolding dma_bytes bytes_of
dma_bytes_lem bytes zero m image r inside = (refl, r)
dma_bytes_lem bytes (suc n) m image r inside =
    let after : Machine = take_stream m in
    let e : scsi_dma_read8 m ≡ taken m = dma_one n m r in
    let v : stream after ≡ (m.scsi_image, m.scsi_position + 1, m.scsi_image_size, n) =
      stream-take_stream bytes n m r inside in
    let place : after.scsi_position ≡ m.scsi_position + 1 = ap (λ (w : Stream). w.1) v in
    let size : after.scsi_image_size ≡ m.scsi_image_size = ap (λ (w : Stream). w.2) v in
    let ih =
      dma_bytes_lem bytes n after (ap (λ (w : Stream). w.0) v ∙ image) (ap (λ (w : Stream). w.3) v)
        (omega (arith, place, size, inside)) in
    (
      ap₂ (λ (x : ℕ) (xs : List ℕ). x ∷ xs)
          (ap (λ (p : ℕ × Machine). p.0) e ∙ file_byte_lem bytes m image (omega (arith, inside)))
          (ap (λ (p : ℕ × Machine). (dma_bytes n (p.1)).0) e
            ∙ ih.0
            ∙ ap (λ (at : ℕ). bytes_of bytes at n) place),
      ap (λ (p : ℕ × Machine). (dma_bytes n (p.1)).1.scsi_stream_remaining) e ∙ ih.1,
    )

abbrev cleared : Machine → Machine
cleared m = record m {
  scsi_buffer_position = 0;
  scsi_buffer_size = 0;
  scsi_stream_remaining = 0;
  scsi_dma_padding_remaining = 0;
}

fourth :
    (b0 b1 b2 b3 : Bool) (x0 x1 x2 x3 x4 : Machine)
    → b0 ≡ false
    → b1 ≡ false
    → b2 ≡ false
    → b3 ≡ true
    → (if b0 then x0 else if b1 then x1 else if b2 then x2 else if b3 then x3 else x4) ≡ x3
fourth b0 b1 b2 b3 x0 x1 x2 x3 x4 e0 e1 e2 e3 = rw e0 (rw e1 (rw e2 (rw e3 refl)))

stream-scsi_start_read :
    (m : Machine)
    → 0 < scsi_blocks m
    → (scsi_lba m + scsi_blocks m) * 512 ≤ m.scsi_image_size
    → stream (scsi_start_read m)
      ≡ (m.scsi_image, scsi_lba m * 512, m.scsi_image_size, scsi_blocks m * 512)
unfolding scsi_start_read
stream-scsi_start_read m some_blocks inside = go _ (ground (arith, some_blocks, inside))
  where
    read : Machine
    read = set_scsi 0x17 0 (record m {
      scsi_position = scsi_lba m * 512;
      scsi_stream_remaining = scsi_blocks m * 512;
      scsi_aux_status = 0x01;
    })

    go :
        (b : Bool)
        → b ≡ true
        → stream (if b then read else finish_command 0x42 m)
          ≡ (m.scsi_image, scsi_lba m * 512, m.scsi_image_size, scsi_blocks m * 512)
    go true e = refl
    go false e = absurd (ground (arith, e))

command_lem :
    (bytes : ℕ → ℕ) (command : ℕ) (m : Machine)
    → bit_and command 0x7f ≡ 0x09
    → bit_and (m.scsi_registers 0x15) 7 ≡ 0
    → m.scsi_registers 3 ≡ 0x28
    → m.scsi_image ≡ some bytes
    → scsi_command command m ≡ scsi_start_read (cleared m)
unfolding scsi_command
command_lem bytes command m c target op image =
    fourth _ _ _ _ _ _ _ _ _ (not_reset (command == 0) refl) no_discovery no_test is_read
  where
    selected : Bool
    selected = bit_and command 0x7f == 0x09 && bit_and (m.scsi_registers 0x15) 7 == 0

    no_discovery : (selected && (m.scsi_registers 3 == 0x03 || m.scsi_registers 3 == 0x12)) ≡ false
    no_discovery = ground (arith, op)

    no_test : (selected && m.scsi_registers 3 == 0x00) ≡ false
    no_test = ground (arith, op)

    is_read : (selected && m.scsi_registers 3 == 0x28 && has_image m) ≡ true
    is_read = rw image (ground (arith, c, target, op))

    not_reset : (b : Bool) → (command == 0) ≡ b → b ≡ false
    not_reset true e =
        let z : command ≡ 0 = ground (arith, e) in
        let n : bit_and 0 0x7f ≡ 0x09 = ap (λ (x : ℕ). bit_and x 0x7f) (sym z) ∙ c in
        absurd (omega (arith, n))
    not_reset false e = refl

-- On a machine with a SCSI medium, whose registers hold a READ (10) for target 0 of at least one
-- block, all of it inside the medium: after the command, as many reads by the transfer controller
-- as the blocks have bytes give these bytes of the medium in their order, and no byte is left.
pub read_blocks_lem :
    (bytes : ℕ → ℕ) (command : ℕ) (m : Machine)
    → bit_and command 0x7f ≡ 0x09
    → bit_and (m.scsi_registers 0x15) 7 ≡ 0
    → m.scsi_registers 3 ≡ 0x28
    → m.scsi_image ≡ some bytes
    → 0 < scsi_blocks m
    → (scsi_lba m + scsi_blocks m) * 512 ≤ m.scsi_image_size
    → ((dma_bytes (scsi_blocks m * 512) (scsi_command command m)).0
        ≡ bytes_of bytes (scsi_lba m * 512) (scsi_blocks m * 512))
      × ((dma_bytes (scsi_blocks m * 512) (scsi_command command m)).1.scsi_stream_remaining ≡ 0)
read_blocks_lem bytes command m c target op image some_blocks inside =
    let n : ℕ = scsi_blocks m * 512 in
    let e : scsi_command command m ≡ scsi_start_read (cleared m) =
      command_lem bytes command m c target op image in
    let s = stream-scsi_start_read (cleared m) some_blocks inside in
    let started : Machine = scsi_start_read (cleared m) in
    let place : started.scsi_position ≡ scsi_lba m * 512 = ap (λ (w : Stream). w.1) s in
    let size : started.scsi_image_size ≡ m.scsi_image_size = ap (λ (w : Stream). w.2) s in
    let read =
      dma_bytes_lem bytes n started (ap (λ (w : Stream). w.0) s ∙ image)
        (ap (λ (w : Stream). w.3) s) (omega (arith, place, size, inside)) in
    (
      ap (λ (k : Machine). (dma_bytes n k).0) e
          ∙ read.0
          ∙ ap (λ (at : ℕ). bytes_of bytes at n) place,
      ap (λ (k : Machine). (dma_bytes n k).1.scsi_stream_remaining) e ∙ read.1,
    )
