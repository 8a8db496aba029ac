-- ===== src/Es5510/Process.antt =====
-- native/es5510_core.c, lines 251 to 368: the pipeline, one frame of it.
use ensoniq_eps_16_plus.Base.{
  ℕ, zero, suc, ◌+◌, ◌-◌, ◌*◌, ◌/◌, ◌^◌, ◌==◌, ◌!=◌, nonzero, ltb, leb, if◌then◌else◌, u8, u32, u64,
  bit_and, Bool, true, false, not, ◌&&◌, ◌||◌, update,
}
use ensoniq_eps_16_plus.Es5510.Word.{
  flag_mask, flag_not, sext24, to_int64, lt_int64, minus_int64, alu_operation,
}
use ensoniq_eps_16_plus.Es5510.Core.{
  Es5510Core, Es5510RamCycle, instructions, dram_words, ram_read, ram_write, access_io, ram_address,
  write_dol, eject_dol,
}
use ensoniq_eps_16_plus.Es5510.Tables.{
  src_reg, src_delay, OperandSelect, operand_select, ram_control,
}
use ensoniq_eps_16_plus.Es5510.Registers.{es5510_core_read_reg, es5510_core_write_reg, mac_high}

-- The cell of the memory that a cycle is about.
abbrev pub cell : Es5510RamCycle → ℕ
cell ram = bit_and ram.address (dram_words - 1)

-- The memory cycles move on, and the oldest, if it does not write, is read.
unfoldable pub advance_ram : Es5510Core → Es5510Core
advance_ram core =
    let oldest = core.ram_p in
    record core {
      ram_pp = oldest;
      ram_p = core.ram;
      dil =
          if oldest.cycle != ram_write
          then (if oldest.io then 0 else core.dram (cell oldest))
          else core.dil;
    }

unfoldable pub start_ram : ℕ → Es5510Core → Es5510Core
start_ram pc core =
    let c = ram_control (bit_and (core.instruction pc / 2 ^ 3) 7) in
    record core {
      ram = record {
        cycle = c.cycle;
        io = c.access == access_io;
        address = ram_address core c.access (core.gpr pc);
      };
    }

abbrev skippable : ℕ → Bool
skippable instruction = nonzero (bit_and (instruction / 2 ^ 7) 1)

unfoldable pub skips : ℕ → Es5510Core → Bool
skips instruction core =
    let condition = nonzero (bit_and (bit_and core.ccr core.cmr) flag_mask) in
    skippable instruction
    && (if nonzero (bit_and core.cmr flag_not) then not condition else condition)

-- A result goes to a register, to the delay line, or to both.
abbrev pub deliver : ℕ → ℕ → ℕ → Es5510Core → Es5510Core
deliver dst reg result core =
    let c = if nonzero (bit_and dst src_reg) then es5510_core_write_reg reg result core else core in
    if nonzero (bit_and dst src_delay) then write_dol result c else c

-- The product of the last instruction.
unfoldable pub multiply : Es5510Core → Es5510Core
multiply core =
    let shift = if nonzero (bit_and core.sigreg 0x400000) then 1 else 2 in
    let product =
      u64 (
        u64 (to_int64 (sext24 core.mac.c_value) * to_int64 (sext24 core.mac.d_value))
        * 2 ^ shift) in
    let result = if core.mac.accumulate then u64 (product + core.machl) else product in
    record core {
      mac = record core.mac { product = product; result = result };
      mac_overflow = lt_int64 result (minus_int64 (2 ^ 47)) || not (lt_int64 result (2 ^ 47));
      machl = result;
    }

unfoldable pub execute_mac : Es5510Core → Es5510Core
execute_mac core =
    if core.mac.write_result
    then (let c = multiply core in deliver c.mac.dst c.mac.c_reg (mac_high c) c)
    else core

-- An operand: a register or the sample that the memory gave.
abbrev operand : Es5510Core → ℕ → ℕ → ℕ
operand core src reg =
    if src == src_reg then es5510_core_read_reg core reg else u32 (core.dil * 2 ^ 8)

unfoldable pub load_mac : ℕ → OperandSelect → Bool → Es5510Core → Es5510Core
load_mac instruction s skip core =
    let c_reg = bit_and (instruction / 2 ^ 32) 0xff in
    let d_reg = bit_and (instruction / 2 ^ 40) 0xff in
    record core {
      mac = record core.mac {
        c_reg = c_reg;
        d_reg = d_reg;
        src = s.mac_src;
        dst = s.mac_dst;
        accumulate = nonzero (bit_and (instruction / 2 ^ 6) 1);
        write_result = not skip;
        c_value = operand core s.mac_src c_reg;
        d_value = es5510_core_read_reg core d_reg;
      };
    }

-- The operation of the last instruction. Operation 4 only compares.
unfoldable pub execute_alu : Es5510Core → Es5510Core
execute_alu core =
    if core.alu.write_result
    then (let r = alu_operation core.alu.op core.alu.a_value core.alu.b_value core.ccr in
        let c = record core { alu = record core.alu { result = r.0 } } in
        let d = if core.alu.op != 4 then deliver core.alu.dst core.alu.a_reg r.0 c else c in
        if core.alu.update_ccr then record d { ccr = r.1 } else d)
    else core

unfoldable pub load_alu : ℕ → OperandSelect → Bool → Es5510Core → Es5510Core
load_alu instruction s skip core =
    let a_reg = bit_and (instruction / 2 ^ 16) 0xff in
    let b_reg = bit_and (instruction / 2 ^ 24) 0xff in
    let op = bit_and (instruction / 2 ^ 12) 15 in
    let two = not (op == 15) && not (leb 8 op) in
    let one = not (op == 15) && leb 8 op in
    record core {
      alu = record core.alu {
        a_reg = a_reg;
        b_reg = b_reg;
        op = op;
        src = s.alu_src;
        dst = s.alu_dst;
        write_result = not skip || op == 4;
        update_ccr = not (skippable instruction) || op == 4;
        a_value = if two then operand core s.alu_src a_reg else core.alu.a_value;
        b_value =
            if two
            then es5510_core_read_reg core b_reg
            else if one
            then operand core s.alu_src b_reg
            else core.alu.b_value;
      };
    }

-- A write or a dump of the last instruction takes a sample off the queue.
unfoldable pub retire_ram : Es5510Core → Es5510Core
retire_ram core =
    if core.ram_p.cycle != ram_read
    then eject_dol (
        if core.ram_p.cycle == ram_write && not core.ram_p.io && nonzero core.dol_count
        then record core { dram = update core.dram (cell core.ram_p) core.dol0 }
        else core)
    else core

-- One round of the loop, without the test for the last.
unfoldable pub execute_instruction : ℕ → Es5510Core → Es5510Core
execute_instruction pc core =
    let instruction = core.instruction pc in
    let s = operand_select (bit_and (instruction / 2 ^ 8) 15) in
    let started = start_ram pc (advance_ram core) in
    let skip = skips instruction started in
    let multiplied = load_mac instruction s skip (execute_mac started) in
    let done = retire_ram (load_alu instruction s skip (execute_alu multiplied)) in
    record done { instructions_executed = u64 (done.instructions_executed + 1) }

-- At the end of the program the base of the delay line moves down.
unfoldable pub move_dbase : Es5510Core → Es5510Core
move_dbase core = record core {
  dbase = if ltb core.dbase core.memincrement then core.dlength else core.dbase - core.memincrement;
}

unfoldable pub run_program : ℕ → ℕ → Es5510Core → Es5510Core
run_program zero pc core = core
run_program (suc left) pc core =
    let done = execute_instruction pc core in
    elim (done.alu.op == 15) [ true ↦ move_dbase done | false ↦ run_program left (pc + 1) done ]

-- Bit 2 + `port` of the host's serial control: the port is an output.
abbrev is_output : ℕ → Es5510Core → Bool
is_output port core = nonzero (bit_and core.host_serial (u8 (4 * 2 ^ port)))

-- The ports below `ports`, upwards.
unfoldable pub read_inputs : ℕ → (ℕ → ℕ) → Es5510Core → Es5510Core
read_inputs zero inputs core = core
read_inputs (suc port) inputs core =
    let c = read_inputs port inputs core in
    if is_output port c then c else record c {
      serial =
          update (update c.serial (port * 2) (inputs (port * 2))) (port * 2 + 1)
            (inputs (port * 2 + 1));
    }

-- The first port at or above `port` that is an output, `left` ports being left.
unfoldable pub write_outputs : ℕ → ℕ → Es5510Core → ℕ × ℕ
write_outputs zero port core = (0, 0)
write_outputs (suc left) port core =
    let rest = write_outputs left (port + 1) core in
    if is_output port core then (core.serial (port * 2), core.serial (port * 2 + 1)) else rest

unfoldable pub es5510_core_process : (ℕ → ℕ) → Es5510Core → (ℕ × ℕ) × Es5510Core
es5510_core_process inputs core =
    let c = read_inputs 4 inputs core in
    let done =
      if c.halted
      then c
      else (let r = run_program instructions 0 c in record r { frames = u64 (r.frames + 1) }) in
    (write_outputs 4 0 done, done)
