-- ===== src/Machine/Words.antt =====
-- native/rom_probe.c, lines 2590 to 2615 and 2838 to 2951: words in the memories read back as they
-- were written.
use ensoniq_eps_16_plus.Base.{
  ℕ, ◌+◌, ◌*◌, ◌/◌, ◌%◌, ◌^◌, ◌≤◌, ◌<◌, ◌≡◌, ◌⊎◌, inl, inr, refl, sym, ◌∙◌, ap, arith, ◌==◌,
  if◌then◌else◌, u8, bit_or, Bool,
}
use ensoniq_eps_16_plus.Machine.Dmac.{Machine}
use ensoniq_eps_16_plus.Base.Fields.{bit_or_join}
use ensoniq_eps_16_plus.Machine.Bus.{
  Devices, put_word, m68k_read_memory_8, m68k_read_memory_16, m68k_read_memory_32,
  m68k_write_memory_8, m68k_write_memory_32,
}
use ensoniq_eps_16_plus.Machine.Memory.{
  InMemory, masked, cell, put_cell, cell-put_cell, reads_cell, writes_cell, writes_word,
}

part :
    (space : Bool) (address k : ℕ)
    → k < 4
    → InMemory space address 4
    → InMemory space (address + k) 1
part space address k small (inl (p, h)) = inl (p, omega (arith, h))
part space address k small (inr (inl h)) = inr (inl (omega (arith, h), omega (arith, h)))
part space address k small (inr (inr h)) = inr (inr (omega (arith, h), omega (arith, h)))

start : (space : Bool) (address : ℕ) → InMemory space address 4 → InMemory space address 1
start space address h =
    let e : address + 0 ≡ address = omega arith in rw e at (part space address 0 (omega arith) h)

in_space : (space : Bool) (address size : ℕ) → InMemory space address size → address + size ≤ 2 ^ 24
in_space space address size (inl (p, h)) = omega (arith, h)
in_space space address size (inr (inl h)) = omega (arith, h.1)
in_space space address size (inr (inr h)) = omega (arith, h.1)

-- A cell after the four bytes of a word.
cell-put_word :
    (space : Bool) (b address value : ℕ) (m : Machine)
    → InMemory space b 1
    → InMemory space address 4
    → cell b (put_word put_cell address value m) ≡ (
        if b == address + 3
        then u8 value
        else if b == address + 2
        then u8 (value / 2 ^ 8)
        else if b == address + 1
        then u8 (value / 2 ^ 16)
        else if b == address
        then u8 (value / 2 ^ 24)
        else cell b m)
unfolding put_word
cell-put_word space b address value m h k =
    let m1 = put_cell address (value / 2 ^ 24) m in
    let m2 = put_cell (address + 1) (value / 2 ^ 16) m1 in
    let m3 = put_cell (address + 2) (value / 2 ^ 8) m2 in
    rw (cell-put_cell space b (address + 3) value m3 h (part space address 3 (omega arith) k)) (
      rw
        (cell-put_cell space b (address + 2) (value / 2 ^ 8) m2 h
          (part space address 2 (omega arith) k))
        (rw
          (cell-put_cell space b (address + 1) (value / 2 ^ 16) m1 h
            (part space address 1 (omega arith) k))
          (rw (cell-put_cell space b address (value / 2 ^ 24) m h (start space address k)) refl)))

byte_writes :
    (devices : Devices) (space : Bool) (address value : ℕ) (m : Machine)
    → InMemory space address 4
    → put_word (m68k_write_memory_8 devices space) address value m
      ≡ put_word put_cell address value m
unfolding put_word
byte_writes devices space address value m h =
    let m1 = put_cell address (value / 2 ^ 24) m in
    let m2 = put_cell (address + 1) (value / 2 ^ 16) m1 in
    let m3 = put_cell (address + 2) (value / 2 ^ 8) m2 in
    let write = writes_cell devices space in
    rw (write address (value / 2 ^ 24) m (start space address h)) (
      rw (write (address + 1) (value / 2 ^ 16) m1 (part space address 1 (omega arith) h)) (
        rw (write (address + 2) (value / 2 ^ 8) m2 (part space address 2 (omega arith) h))
          (write (address + 3) value m3 (part space address 3 (omega arith) h))))

-- Four bytes are joined to the word.
joined :
    (value : ℕ)
    → value < 2 ^ 32
    → bit_or
        (bit_or (u8 (value / 2 ^ 24) * 2 ^ 8) (u8 (value / 2 ^ 16)) * 2 ^ 16)
        (bit_or (u8 (value / 2 ^ 8) * 2 ^ 8) (u8 value))
      ≡ value
joined value h =
    let high = bit_or_join 8 (u8 (value / 2 ^ 24)) (u8 (value / 2 ^ 16)) (omega arith) in
    let low = bit_or_join 8 (u8 (value / 2 ^ 8)) (u8 value) (omega arith) in
    let word = bit_or_join 16 (value / 2 ^ 16) (value % 2 ^ 16) (omega arith) in
    let first : u8 (value / 2 ^ 24) * 2 ^ 8 + u8 (value / 2 ^ 16) ≡ value / 2 ^ 16 =
      omega (arith, h) in
    let second : u8 (value / 2 ^ 8) * 2 ^ 8 + u8 value ≡ value % 2 ^ 16 = omega arith in
    rw (high ∙ first) (rw (low ∙ second) (word ∙ omega arith))

module _ (devices : Devices) (space : Bool) where
  reads_word :
      (address : ℕ) (m : Machine)
      → InMemory space address 4
      → m68k_read_memory_32 devices space address m ≡ (
        bit_or
            (bit_or (cell address m * 2 ^ 8) (cell (address + 1) m) * 2 ^ 16)
            (bit_or (cell (address + 2) m * 2 ^ 8) (cell (address + 3) m)),
        m,
      )
  unfolding m68k_read_memory_32 m68k_read_memory_16
  reads_word address m h =
      let a = masked address (omega (arith, in_space space address 4 h)) in
      let next : address + 2 + 1 ≡ address + 3 = omega arith in
      let zeroth = reads_cell devices space address m (start space address h) in
      let first = reads_cell devices space (address + 1) m (part space address 1 (omega arith) h) in
      let second =
        reads_cell devices space (address + 2) m (part space address 2 (omega arith) h) in
      let third = reads_cell devices space (address + 3) m (part space address 3 (omega arith) h) in
      rw a (rw next (rw zeroth (rw first (rw second (rw third refl)))))

  -- For four bytes that lie in one of the three memories (the low one only outside the space of
  -- programs) and a word of 32 digits: a read of the word after its write returns it and
  -- changes nothing, the write is that of its four bytes from the highest on, and a byte
  -- elsewhere in the memories reads as before.
  pub memory_roundtrip :
      (address value b : ℕ) (m : Machine)
      → InMemory space address 4
      → value < 2 ^ 32
      → InMemory space b 1
      → (b < address) ⊎ (address + 4 ≤ b)
      → let written = m68k_write_memory_32 devices space address value m in
        (m68k_read_memory_32 devices space address written ≡ (value, written))
        × (written ≡ put_word (m68k_write_memory_8 devices space) address value m)
        × ((m68k_read_memory_8 devices space b written).0
            ≡ (m68k_read_memory_8 devices space b m).0)
  memory_roundtrip address value b m h fits there apart =
      let w = put_word put_cell address value m in
      let w3 : cell (address + 3) w ≡ u8 value =
        cell-put_word space (address + 3) address value m (part space address 3 (omega arith) h) h
        ∙ ground arith in
      let w2 : cell (address + 2) w ≡ u8 (value / 2 ^ 8) =
        cell-put_word space (address + 2) address value m (part space address 2 (omega arith) h) h
        ∙ ground arith in
      let w1 : cell (address + 1) w ≡ u8 (value / 2 ^ 16) =
        cell-put_word space (address + 1) address value m (part space address 1 (omega arith) h) h
        ∙ ground arith in
      let w0 : cell address w ≡ u8 (value / 2 ^ 24) =
        cell-put_word space address address value m (start space address h) h ∙ ground arith in
      let elsewhere : cell b w ≡ cell b m =
        cell-put_word space b address value m there h ∙ ground arith in
      let read : m68k_read_memory_32 devices space address w ≡ (value, w) =
        reads_word address w h
        ∙ rw w0 (rw w1 (rw w2 (rw w3 (ap (λ (v : ℕ). (v, w)) (joined value fits))))) in
      rw (writes_word devices space address value m h) (
        read,
        sym (byte_writes devices space address value m h),
        ap (λ (r : ℕ × Machine). r.0) (reads_cell devices space b w there)
            ∙ elsewhere
            ∙ sym (ap (λ (r : ℕ × Machine). r.0) (reads_cell devices space b m there)),
      )
