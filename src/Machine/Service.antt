-- ===== src/Machine/Service.antt =====
-- native/rom_probe.c, lines 2360 to 2397: the rounds of the transfer controller.
use ensoniq_eps_16_plus.Base.{
  ℕ, zero, suc, ◌+◌, ◌-◌, ◌/◌, ◌%◌, ◌^◌, ◌==◌, ◌!=◌, ltb, leb, if◌then◌else◌, nonzero, Bool, u8,
  u32, sub32, bit_and, Bool, not, ◌&&◌,
}
use ensoniq_eps_16_plus.Machine.Dmac.{
  Machine, dmac_get16, dmac_get32, dmac_set16, dmac_set32, dmac_complete, dmac_memory_read8,
  dmac_memory_write8, dmac_read8,
}
use ensoniq_eps_16_plus.Machine.Fdc.{fdc_base, fdc_read, fdc_write}
use ensoniq_eps_16_plus.Machine.Scsi.{scsi_dma_read8, scsi_read8}

-- How a round of the loop ends: with the next one, or with a `break`.
pub data Transfer : Type 0 where
  go_on : Machine → Transfer
  leave : Machine → Transfer

-- The address after a transfer.
abbrev next_memory : ℕ → ℕ → ℕ
next_memory mode memory =
    if mode == 0x04 then u32 (memory + 1) else if mode == 0x08 then sub32 memory 1 else memory

-- After the byte: the count, the address, and the end of the block.
unfoldable pub count_transfer : ℕ → ℕ → ℕ → Machine → Machine
count_transfer channel count memory m =
    let c =
      dmac_set16 channel 0x0a (count - 1)
        (record m { dmac_transfers = u32 (m.dmac_transfers + 1) }) in
    let moved =
      dmac_set32 channel 0x0c (next_memory (bit_and (c.dmac_registers channel 6) 0x0c) memory) c in
    if count - 1 == 0 then dmac_complete channel moved else moved

-- The reads of the voice chip, the signal processor and the serial controller, which are modelled
-- apart or not at all, and the processor's wish to read its program.
module _ (es5505_read16 es5510_read duart_read : ℕ → Machine → ℕ × Machine)
    (program_space : Bool) where
  -- Half of a word.
  abbrev pub half : ℕ → ℕ × Machine → ℕ × Machine
  half address (value, m) =
      ((if nonzero (bit_and address 1) then bit_and value 0xff else value / 2 ^ 8), m)

  unfoldable pub raw_read8 : ℕ → Machine → ℕ × Machine
  raw_read8 word m =
      let address = bit_and word 0xffffff in
      if ltb address 0x8000
      then ((if program_space then m.rom address else m.low_ram address), m)
      else if leb 0x200000 address && ltb address (0x200000 + 0x20)
      then half address (es5505_read16 (address - address % 2) m)
      else if leb 0x260000 address && ltb address (0x260000 + 0x200)
      then es5510_read address m
      else if leb 0x240000 address && ltb address 0x240100
      then (dmac_read8 m address, m)
      else if leb 0x280000 address && ltb address (0x280000 + 0x20)
      then duart_read address m
      else if leb fdc_base address && ltb address (fdc_base + 8)
      then fdc_read address m
      else if leb 0x300000 address && ltb address (0x300000 + 4)
      then scsi_read8 address m
      else if leb 0x580000 address && ltb address (0x580000 + 0x280000)
      then (m.sample_ram (address - 0x580000), m)
      else if leb 0xff0000 address
      then (m.os_ram (address - 0xff0000), m)
      else if leb 0xc00000 address && ltb address (0xc00000 + 0x20000)
      then (m.rom (address - 0xc00000), m)
      else (0, m)

  abbrev pub read_device : ℕ → Machine → ℕ × Machine
  read_device device m =
      if device == fdc_base + 7
      then fdc_read (fdc_base + 6) m
      else if device == 0x340001
      then scsi_dma_read8 m
      else raw_read8 device m

  unfoldable pub transfer_byte : ℕ → Machine → Transfer
  transfer_byte channel m =
      let count = dmac_get16 m channel 0x0a in
      let device = bit_and (dmac_get32 m channel 0x14) 0xffffff in
      let memory = dmac_get32 m channel 0x0c in
      let read : ℕ × Machine = read_device device m in
      if not (nonzero (bit_and (m.dmac_registers channel 0) 0x08))
      then leave m
      else if count == 0
      then leave (dmac_complete channel m)
      else if channel == 0 && device == fdc_base + 7 && m.fdc_remaining == 0
      then leave m
      else if channel == 1
          && device == 0x340001
          && m.scsi_stream_remaining == 0
          && m.scsi_dma_padding_remaining == 0
      then leave m
      else if nonzero (bit_and (m.dmac_registers channel 5) 0x80)
      then go_on
          (count_transfer channel count memory (dmac_memory_write8 memory (u8 read.0) read.1))
      else if device != fdc_base + 7
      then leave m
      else go_on (
          count_transfer channel count memory
            (fdc_write (fdc_base + 6) (dmac_memory_read8 m memory) m))

  -- The loop over the transfers of a channel, with the transfers left.
  unfoldable pub serve_channel : ℕ → ℕ → Machine → Machine
  serve_channel channel zero m = m
  serve_channel channel (suc left) m = elim (transfer_byte channel m) [
    | go_on n ↦ serve_channel channel left n
    | leave n ↦ n
  ]

  unfoldable pub dmac_service : Machine → Machine
  dmac_service m =
      serve_channel 3 4096 (serve_channel 2 4096 (serve_channel 1 4096 (serve_channel 0 4096 m)))
