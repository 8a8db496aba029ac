-- ===== src/Machine/Tests.antt =====
-- Runs of the disk controller and of the SCSI controller.
use ensoniq_eps_16_plus.Base.{
  ◌+◌, ◌*◌, ◌%◌, ◌==◌, if◌then◌else◌, true, ◌≡◌, refl, arith, none, some, false, inl, inr,
}
use ensoniq_eps_16_plus.Machine.Bus.{
  Devices, put_word, m68k_read_memory_8, m68k_read_memory_32, m68k_write_memory_8,
  m68k_write_memory_32,
}
use ensoniq_eps_16_plus.Machine.Words.{memory_roundtrip}
use ensoniq_eps_16_plus.Machine.Dmac.{Machine, dmac_set16, dmac_get16}
use ensoniq_eps_16_plus.Machine.Fdc.{fdc_base, fdc_read, fdc_write, block_at_head}
use ensoniq_eps_16_plus.Machine.Scsi.{scsi_command, scsi_lba, scsi_blocks}
use ensoniq_eps_16_plus.Machine.Floppy.{IsFloppy, InDisk}
use ensoniq_eps_16_plus.Machine.Access.{access-IsFloppy}
use ensoniq_eps_16_plus.Machine.Sector.{bytes_of, read_bytes, read_sector_lem}
use ensoniq_eps_16_plus.Machine.Stream.{dma_bytes, read_blocks_lem}

-- A machine with a disk and a medium of two blocks, whose SCSI registers ask for the second.
abbrev machine : Machine
machine = record {
  disk_image = λ i. i % 251;
  disk_sector_status = λ i. 0;
  disk_loaded = true;
  duart_output = 0;
  fdc_track = 3;
  fdc_physical_track = 3;
  fdc_sector = 4;
  fdc_data_register = 0;
  fdc_last_command = 0;
  fdc_error_status = 0;
  fdc_step_inwards = true;
  fdc_data = none;
  fdc_remaining = 0;
  fdc_data_reads = 0;
  fdc_reads = 0;
  dmac_registers = λ channel reg. 0;
  dmac_irq_channel = none;
  dmac_transfers = 0;
  dmac_pcl_level = λ channel. true;
  low_ram = λ i. 0;
  sample_ram = λ i. 0;
  os_ram = λ i. 0;
  rom = λ i. 0;
  sample_ram_write_bytes = 0;
  scsi_registers =
      λ reg. if reg == 3 then 0x28 else if reg == 8 then 1 else if reg == 11 then 1 else 0;
  scsi_address = 0;
  scsi_aux_status = 0;
  scsi_buffer = λ i. 0;
  scsi_buffer_position = 0;
  scsi_buffer_size = 0;
  scsi_image = some (λ i. i % 253);
  scsi_position = 0;
  scsi_image_size = 1024;
  scsi_stream_remaining = 0;
  scsi_dma_padding_remaining = 0;
}

machine-IsFloppy : IsFloppy machine
unfolding InDisk
machine-IsFloppy = record { window = refl; remaining = omega arith; head = omega arith }

access_example :
    IsFloppy ((fdc_read (fdc_base + 6) machine).1) × IsFloppy (fdc_write fdc_base 0x80 machine)
access_example = access-IsFloppy (fdc_base + 6) fdc_base 0x80 machine machine-IsFloppy

read_sector_example :
    ((read_bytes 512 (fdc_write fdc_base 0x80 machine)).0
      ≡ bytes_of machine.disk_image (block_at_head machine * 512) 512)
    × ((read_bytes 512 (fdc_write fdc_base 0x80 machine)).1.fdc_remaining ≡ 0)
read_sector_example = read_sector_lem machine refl (omega arith) (omega arith) refl

read_blocks_example :
    ((dma_bytes (scsi_blocks machine * 512) (scsi_command 0x09 machine)).0
      ≡ bytes_of (λ i. i % 253) (scsi_lba machine * 512) (scsi_blocks machine * 512))
    × ((dma_bytes (scsi_blocks machine * 512) (scsi_command 0x09 machine)).1.scsi_stream_remaining
        ≡ 0)
read_blocks_example =
    read_blocks_lem (λ i. i % 253) 0x09 machine refl refl refl refl (omega arith) (omega arith)

count_kept : dmac_get16 (dmac_set16 1 0x0a 0xbeef machine) 1 0x0a ≡ 0xbeef
unfolding dmac_get16 dmac_set16
count_kept = refl

-- Devices that do nothing.
abbrev devices : Devices
devices = record {
  es5505_read16 = λ address m. (0, m);
  es5510_read = λ address m. (0, m);
  duart_read = λ address m. (0, m);
  es5505_write16 = λ address value m. m;
  es5510_write = λ address value m. m;
  duart_write = λ address value m. m;
}

-- A word in the sample memory, and a byte of the low memory.
memory_example :
    let written = m68k_write_memory_32 devices false 0x600000 0x12345678 machine in
    (m68k_read_memory_32 devices false 0x600000 written ≡ (0x12345678, written))
    × (written ≡ put_word (m68k_write_memory_8 devices false) 0x600000 0x12345678 machine)
    × ((m68k_read_memory_8 devices false 0x100 written).0
        ≡ (m68k_read_memory_8 devices false 0x100 machine).0)
memory_example =
    memory_roundtrip devices false 0x600000 0x12345678 0x100 machine
      (inr (inl (omega arith, omega arith))) (omega arith) (inl (refl, omega arith))
      (inl (omega arith))
