-- ===== src/Machine/Memory.antt =====
-- native/rom_probe.c, lines 2590 to 2615 and 2838 to 2951: the three memories as cells.
use ensoniq_eps_16_plus.Base.{
  ℕ, ◌+◌, ◌-◌, ◌/◌, ◌^◌, ◌≤◌, ◌<◌, ◌≡◌, ◌⊎◌, inl, inr, refl, sym, ◌∙◌, arith, ◌==◌, ltb,
  if◌then◌else◌, u8, bit_and, Bool, false,
}
use ensoniq_eps_16_plus.Machine.Dmac.{Machine}
use ensoniq_eps_16_plus.Machine.Service.{raw_read8}
use ensoniq_eps_16_plus.Machine.Host.RegisterPort.{mask_mod}
use ensoniq_eps_16_plus.Machine.Bus.{
  Devices, put_low, put_sample, put_os, put_word, m68k_read_memory_8, m68k_write_memory_8,
  m68k_write_memory_32,
}

-- `size` bytes from an address on lie in one of the three memories; the low one can be written only
-- outside the space of programs.
abbrev pub InMemory : Bool → ℕ → ℕ → Type 0
InMemory program_space address size =
    ((program_space ≡ false) × (address + size ≤ 0x8000))
    ⊎ ((0x580000 ≤ address) × (address + size ≤ 0x800000))
    ⊎ ((0xff0000 ≤ address) × (address + size ≤ 0x1000000))

pub masked : (address : ℕ) → address < 2 ^ 24 → bit_and address 0xffffff ≡ address
masked address h = mask_mod 24 address (omega arith) ∙ omega (arith, h)

-- The three memories as one, and a byte written to it.
unfoldable pub cell : ℕ → Machine → ℕ
cell address m =
    if ltb address 0x8000
    then m.low_ram address
    else if ltb address 0xff0000
    then m.sample_ram (address - 0x580000)
    else m.os_ram (address - 0xff0000)

unfoldable pub put_cell : ℕ → ℕ → Machine → Machine
put_cell address value m =
    if ltb address 0x8000
    then put_low address value m
    else if ltb address 0xff0000
    then put_sample (address - 0x580000) value m
    else put_os (address - 0xff0000) value m

pub cell-put_cell :
    (space : Bool) (address place value : ℕ) (m : Machine)
    → InMemory space address 1
    → InMemory space place 1
    → cell address (put_cell place value m)
      ≡ (if address == place then u8 value else cell address m)
unfolding cell put_cell
cell-put_cell space address place value m (inl (p, h)) (inl (q, k)) = ground arith
cell-put_cell space address place value m (inl (p, h)) (inr (inl k)) = ground arith
cell-put_cell space address place value m (inl (p, h)) (inr (inr k)) = ground arith
cell-put_cell space address place value m (inr (inl h)) (inl (q, k)) = ground arith
cell-put_cell space address place value m (inr (inl h)) (inr (inl k)) = ground arith
cell-put_cell space address place value m (inr (inl h)) (inr (inr k)) = ground arith
cell-put_cell space address place value m (inr (inr h)) (inl (q, k)) = ground arith
cell-put_cell space address place value m (inr (inr h)) (inr (inl k)) = ground arith
cell-put_cell space address place value m (inr (inr h)) (inr (inr k)) = ground arith

module _ (devices : Devices) (space : Bool) where
  pub reads_cell :
      (address : ℕ) (m : Machine)
      → InMemory space address 1
      → m68k_read_memory_8 devices space address m ≡ (cell address m, m)
  unfolding m68k_read_memory_8 raw_read8 cell
  reads_cell address m (inl (p, h)) =
      let a = masked address (omega (arith, h)) in rw p (rw a (ground arith))
  reads_cell address m (inr (inl h)) =
      let a = masked address (omega (arith, h)) in rw a (ground arith)
  reads_cell address m (inr (inr h)) =
      let a = masked address (omega (arith, h)) in rw a (ground arith)

  pub writes_cell :
      (address value : ℕ) (m : Machine)
      → InMemory space address 1
      → m68k_write_memory_8 devices space address value m ≡ put_cell address value m
  unfolding m68k_write_memory_8 put_cell
  writes_cell address value m (inl (p, h)) =
      let a = masked address (omega (arith, h)) in rw p (rw a (ground arith))
  writes_cell address value m (inr (inl h)) =
      let a = masked address (omega (arith, h)) in rw a (ground arith)
  writes_cell address value m (inr (inr h)) =
      let a = masked address (omega (arith, h)) in rw a (ground arith)

  -- A word is written as its four bytes.
  word_low :
      (address value : ℕ) (m : Machine)
      → space ≡ false
      → address + 4 ≤ 0x8000
      → m68k_write_memory_32 devices space address value m ≡ put_word put_low address value m
  unfolding m68k_write_memory_32
  word_low address value m p h =
      let a = masked address (omega (arith, h)) in rw p (rw a (ground arith))

  word_sample :
      (address value : ℕ) (m : Machine)
      → 0x580000 ≤ address
      → address + 4 ≤ 0x800000
      → m68k_write_memory_32 devices space address value m
        ≡ put_word put_sample (address - 0x580000) value m
  unfolding m68k_write_memory_32
  word_sample address value m low h =
      let a = masked address (omega (arith, h)) in rw a (ground arith)

  word_os :
      (address value : ℕ) (m : Machine)
      → 0xff0000 ≤ address
      → address + 4 ≤ 0x1000000
      → m68k_write_memory_32 devices space address value m
        ≡ put_word put_os (address - 0xff0000) value m
  unfolding m68k_write_memory_32
  word_os address value m low h = let a = masked address (omega (arith, h)) in rw a (ground arith)

  cells_low :
      (address value : ℕ) (m : Machine)
      → address < 0x8000
      → put_cell address value m ≡ put_low address value m
  unfolding put_cell
  cells_low address value m h = ground arith

  cells_sample :
      (address at value : ℕ) (m : Machine)
      → 0x580000 ≤ address
      → address < 0x800000
      → at ≡ address - 0x580000
      → put_cell address value m ≡ put_sample at value m
  unfolding put_cell
  cells_sample address at value m low h e = rw e (ground arith)

  cells_os :
      (address at value : ℕ) (m : Machine)
      → 0xff0000 ≤ address
      → at ≡ address - 0xff0000
      → put_cell address value m ≡ put_os at value m
  unfolding put_cell
  cells_os address at value m low e = rw e (ground arith)

  pub writes_word :
      (address value : ℕ) (m : Machine)
      → InMemory space address 4
      → m68k_write_memory_32 devices space address value m ≡ put_word put_cell address value m
  unfolding put_word
  writes_word address value m (inl (p, h)) =
      let a = cells_low address (value / 2 ^ 24) m (omega (arith, h)) in
      let m1 = put_low address (value / 2 ^ 24) m in
      let b = cells_low (address + 1) (value / 2 ^ 16) m1 (omega (arith, h)) in
      let m2 = put_low (address + 1) (value / 2 ^ 16) m1 in
      let c = cells_low (address + 2) (value / 2 ^ 8) m2 (omega (arith, h)) in
      let m3 = put_low (address + 2) (value / 2 ^ 8) m2 in
      let d = cells_low (address + 3) value m3 (omega (arith, h)) in
      word_low address value m p h ∙ sym (rw a (rw b (rw c d)))
  writes_word address value m (inr (inl h)) =
      let at : ℕ = address - 0x580000 in
      let a = cells_sample address at (value / 2 ^ 24) m h.0 (omega (arith, h)) refl in
      let m1 = put_sample at (value / 2 ^ 24) m in
      let b =
        cells_sample (address + 1) (at + 1) (value / 2 ^ 16) m1 (omega (arith, h))
          (omega (arith, h)) (omega (arith, h)) in
      let m2 = put_sample (at + 1) (value / 2 ^ 16) m1 in
      let c =
        cells_sample (address + 2) (at + 2) (value / 2 ^ 8) m2 (omega (arith, h)) (omega (arith, h))
          (omega (arith, h)) in
      let m3 = put_sample (at + 2) (value / 2 ^ 8) m2 in
      let d =
        cells_sample (address + 3) (at + 3) value m3 (omega (arith, h)) (omega (arith, h))
          (omega (arith, h)) in
      word_sample address value m h.0 h.1 ∙ sym (rw a (rw b (rw c d)))
  writes_word address value m (inr (inr h)) =
      let at : ℕ = address - 0xff0000 in
      let a = cells_os address at (value / 2 ^ 24) m h.0 refl in
      let m1 = put_os at (value / 2 ^ 24) m in
      let b =
        cells_os (address + 1) (at + 1) (value / 2 ^ 16) m1 (omega (arith, h)) (omega (arith, h)) in
      let m2 = put_os (at + 1) (value / 2 ^ 16) m1 in
      let c =
        cells_os (address + 2) (at + 2) (value / 2 ^ 8) m2 (omega (arith, h)) (omega (arith, h)) in
      let m3 = put_os (at + 2) (value / 2 ^ 8) m2 in
      let d = cells_os (address + 3) (at + 3) value m3 (omega (arith, h)) (omega (arith, h)) in
      word_os address value m h.0 h.1 ∙ sym (rw a (rw b (rw c d)))
