-- ===== src/Es5510/Program.antt =====
-- native/es5510_core.c, lines 251 to 358: how far the program of a frame runs.
use ensoniq_eps_16_plus.Base.{
  ℕ, zero, suc, ◌+◌, ◌/◌, ◌^◌, ◌≤◌, min, ◌*◌, ◌<◌, ◌==◌, if◌then◌else◌, u64, bit_and, Bool, true,
  false, ◌≡◌, refl, ◌∙◌, ap, arith, update,
}
use ensoniq_eps_16_plus.Es5510.Core.{Es5510Core, instructions, eject_dol}
use ensoniq_eps_16_plus.Es5510.Tables.{operand_select}
use ensoniq_eps_16_plus.Es5510.Process.{
  advance_ram, start_ram, execute_mac, load_mac, execute_alu, load_alu, retire_ram,
  execute_instruction, move_dbase, run_program, read_inputs, es5510_core_process, skips,
}
use ensoniq_eps_16_plus.Es5510.Stages.{
  View, program_of, Same, chosen, execute_mac-Same, execute_alu-Same, retire_ram-Same,
}

-- The operation that the program has at an address.
abbrev op_at : (ℕ → ℕ) → ℕ → ℕ
op_at program pc = bit_and (program pc / 2 ^ 12) 15

-- The instructions that a frame executes, of the `left` from `pc` on: those up to the first end.
unfoldable pub program_length : ℕ → ℕ → (ℕ → ℕ) → ℕ
program_length zero pc program = 0
program_length (suc left) pc program =
    let rest = program_length left (pc + 1) program in
    if op_at program pc == 15 then 1 else 1 + rest

-- The state of an instruction before it counts, by its stages.
stages : ℕ → Es5510Core → Es5510Core
stages pc c =
    let instruction = c.instruction pc in
    let s = operand_select (bit_and (instruction / 2 ^ 8) 15) in
    let started = start_ram pc (advance_ram c) in
    let skip = skips instruction started in
    retire_ram (
      load_alu instruction s skip (execute_alu (load_mac instruction s skip (execute_mac started))))

stages-Same : (pc : ℕ) (c : Es5510Core) → Same c (stages pc c)
unfolding stages load_alu load_mac start_ram advance_ram
stages-Same pc c = retire_ram-Same _ ∙ execute_alu-Same _ ∙ execute_mac-Same _ ∙ refl

retire_ram_op : (c : Es5510Core) → (retire_ram c).alu.op ≡ c.alu.op
unfolding retire_ram eject_dol
retire_ram_op c = ground arith

execute_instruction_op :
    (pc : ℕ) (c : Es5510Core) → (execute_instruction pc c).alu.op ≡ op_at c.instruction pc
unfolding execute_instruction load_alu
execute_instruction_op pc c = retire_ram_op _

execute_instruction_lem :
    (pc : ℕ) (c : Es5510Core)
    → program_of (execute_instruction pc c)
      ≡ (c.instruction, u64 (c.instructions_executed + 1), c.frames, c.halted)
unfolding execute_instruction stages
execute_instruction_lem pc c = ap (λ (p : View). (p.0, u64 (p.1 + 1), p.2, p.3)) (stages-Same pc c)

run_program_lem :
    (left pc : ℕ) (c : Es5510Core)
    → c.instructions_executed < 2 ^ 64
    → program_of (run_program left pc c) ≡ (
      c.instruction,
      u64 (c.instructions_executed + program_length left pc c.instruction),
      c.frames,
      c.halted,
    )
unfolding run_program program_length move_dbase
run_program_lem zero pc c l = ap (λ (n : ℕ). (c.instruction, n, c.frames, c.halted)) (omega arith)
run_program_lem (suc left) pc c l =
    ap
      (λ (op : ℕ).
        program_of
          (elim (op == 15) [ true ↦ move_dbase done | false ↦ run_program left (pc + 1) done ]))
      (execute_instruction_op pc c)
    ∙ (branch (op_at c.instruction pc == 15) (run_program_lem left (pc + 1) done))
  where
    done : Es5510Core
    done = execute_instruction pc c

    ap_lt :
        done.instructions_executed ≡ u64 (c.instructions_executed + 1)
        → done.instructions_executed < 2 ^ 64
    ap_lt e = omega arith

    rest : ℕ
    rest = program_length left (pc + 1) c.instruction

    branch :
        (b : Bool)
        → (done.instructions_executed < 2 ^ 64
            → program_of (run_program left (pc + 1) done) ≡ (
              done.instruction,
              u64 (done.instructions_executed + program_length left (pc + 1) done.instruction),
              done.frames,
              done.halted,
            ))
        → program_of (elim b [ true ↦ move_dbase done | false ↦ run_program left (pc + 1) done ])
          ≡ (
            c.instruction,
            u64 (c.instructions_executed + (if b then 1 else 1 + rest)),
            c.frames,
            c.halted,
          )
    branch true further = execute_instruction_lem pc c
    branch false further =
        further (ap_lt (ap (λ (p : View). p.1) (execute_instruction_lem pc c)))
        ∙ ap (λ (p : View). (p.0, u64 (p.1 + program_length left (pc + 1) p.0), p.2, p.3))
            (execute_instruction_lem pc c)
        ∙ ap (λ (n : ℕ). (c.instruction, n, c.frames, c.halted)) (omega arith)

program_length_bounds :
    (left pc : ℕ) (program : ℕ → ℕ)
    → (program_length left pc program ≤ left) × (min 1 left ≤ program_length left pc program)
unfolding program_length
program_length_bounds zero pc program = (omega arith, omega arith)
program_length_bounds (suc left) pc program =
    ground (arith, program_length_bounds left (pc + 1) program)

read_inputs-Same :
    (ports : ℕ) (inputs : ℕ → ℕ) (c : Es5510Core) → Same c (read_inputs ports inputs c)
unfolding read_inputs
read_inputs-Same zero inputs c = refl
read_inputs-Same (suc port) inputs c =
    let d : Es5510Core = read_inputs port inputs c in
    let before : Same c d = read_inputs-Same port inputs c in
    chosen _ c d
      (record d {
        serial =
            update (update d.serial (port * 2) (inputs (port * 2))) (port * 2 + 1)
              (inputs (port * 2 + 1));
      })
      before before

-- From a count of instructions below 2^64: a frame leaves the program as it is; a halted
-- processor counts no instruction and no frame, and one that runs counts one frame and as many
-- instructions as there are up to the first END, at least 1 and at most 160.
pub process_counts :
    (inputs : ℕ → ℕ) (c : Es5510Core)
    → c.instructions_executed < 2 ^ 64
    → let d = (es5510_core_process inputs c).1 in
      let n = program_length instructions 0 c.instruction in
      (d.instruction ≡ c.instruction)
      × (d.instructions_executed
          ≡ (if c.halted then c.instructions_executed else u64 (c.instructions_executed + n)))
      × (d.frames ≡ (if c.halted then c.frames else u64 (c.frames + 1)))
      × (1 ≤ n)
      × (n ≤ 160)
unfolding es5510_core_process
process_counts inputs c l =
    let length = program_length_bounds instructions 0 c.instruction in
    let e = whole in
    (
      ap (λ (p : View). p.0) e,
      ap (λ (p : View). p.1) e,
      ap (λ (p : View). p.2) e,
      omega (arith, length.1),
      length.0,
    )
  where
    d : Es5510Core
    d = read_inputs 4 inputs c

    before : Same c d
    before = read_inputs-Same 4 inputs c

    executed : d.instructions_executed ≡ c.instructions_executed
    executed = ap (λ (p : View). p.1) before

    run : program_of (run_program instructions 0 d) ≡ (
      c.instruction,
      u64 (c.instructions_executed + program_length instructions 0 c.instruction),
      c.frames,
      c.halted,
    )
    run =
        run_program_lem instructions 0 d (rw executed l)
        ∙ ap (λ (p : View). (p.0, u64 (p.1 + program_length instructions 0 p.0), p.2, p.3)) before

    ran : Es5510Core
    ran =
        let r : Es5510Core = run_program instructions 0 d in
        record r { frames = u64 (r.frames + 1) }

    branch :
        (b : Bool)
        → program_of (if b then d else ran) ≡ (
          c.instruction,
          (if b
              then c.instructions_executed
              else u64 (c.instructions_executed + program_length instructions 0 c.instruction)),
          (if b then c.frames else u64 (c.frames + 1)),
          c.halted,
        )
    branch true = before
    branch false = ap (λ (p : View). (p.0, p.1, u64 (p.2 + 1), p.3)) run

    whole : program_of ((es5510_core_process inputs c).1) ≡ (
      c.instruction,
      (if c.halted
          then c.instructions_executed
          else u64 (c.instructions_executed + program_length instructions 0 c.instruction)),
      (if c.halted then c.frames else u64 (c.frames + 1)),
      c.halted,
    )
    whole =
        ap (λ (b : Bool). program_of (if b then d else ran)) (ap (λ (p : View). p.3) before)
        ∙ branch c.halted
