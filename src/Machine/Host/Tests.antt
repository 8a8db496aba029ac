-- ===== src/Machine/Host/Tests.antt =====
-- Runs of the port of the signal processor.
use ensoniq_eps_16_plus.Base.{ℕ, true, false, ◌≡◌, arith, Option, none, update}
use ensoniq_eps_16_plus.Es5510.Core.{es5510_core_init}
use ensoniq_eps_16_plus.Machine.Host.{Host, oscillator}
use ensoniq_eps_16_plus.Machine.Host.Oscillator.{Polled, oscillator_lem}
use ensoniq_eps_16_plus.Machine.Host.RegisterPort.{write_port, read_port}
use ensoniq_eps_16_plus.Machine.Host.ProgramPort.{write_instruction, word48, program_port-roundtrip}

abbrev host : Host
host = record {
  es5510 = es5510_core_init;
  gpr_latch = 0;
  instruction_latch = 0;
  dil_latch = 0;
  dol_latch = 0;
  dadr_latch = 0;
  reads_ram = false;
  dram_reads = 0;
  dram_writes = 0;
  gpr_writes = 0;
  instruction_writes = 0;
  host_serial = 0;
  host_serial_writes = 0;
  upload_active = false;
  access_until = 0;
  deterministic_input = true;
  input_next_cycle = 0;
  input_last_poll_cycle = 0;
  input_polls = 0;
  input_valid = 0;
  input_bypass = 0;
}

abbrev silence : ℕ → ℕ → Option ℕ
silence rate cycle = none

program_example :
    let stored = write_instruction silence 100 3 0x12 0x34 0x56 0x78 0x9a 0xbc host in
    let selected = write_port silence 100 0x80 3 (record stored { instruction_latch = 1 }) in
    (stored.es5510.instruction
      ≡ update host.es5510.instruction 3 (word48 0x12 0x34 0x56 0x78 0x9a 0xbc))
    × (stored.es5510.halted ≡ true)
    × (read_port silence 100 3 selected ≡ 0x12)
    × (read_port silence 100 4 selected ≡ 0x34)
    × (read_port silence 100 5 selected ≡ 0x56)
    × (read_port silence 100 6 selected ≡ 0x78)
    × (read_port silence 100 7 selected ≡ 0x9a)
    × (read_port silence 100 8 selected ≡ 0xbc)
program_example =
    program_port-roundtrip silence 100 3 0x12 0x34 0x56 0x78 0x9a 0xbc 1 host (omega arith)
      (omega arith) (omega arith) (omega arith) (omega arith) (omega arith) (omega arith)
      (omega arith)

oscillator_example : Polled 336 1000 300 (oscillator 336 1000 300)
oscillator_example = oscillator_lem 336 1000 300 (omega arith) (omega arith) (omega arith)
