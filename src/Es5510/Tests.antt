-- ===== src/Es5510/Tests.antt =====
-- Runs of the signal processor.
use ensoniq_eps_16_plus.Base.{
  ◌+◌, ◌-◌, ◌*◌, ◌≤◌, ◌^◌, ◌==◌, if◌then◌else◌, u64, true, not, ◌≡◌, refl, arith,
}
use ensoniq_eps_16_plus.Base.Int.{pos, ◌+ℤ◌, ◌-ℤ◌, ◌*ℤ◌, ltb_ℤ, int24, int64, clamp24, floor_div}
use ensoniq_eps_16_plus.Base.Bits.{bit}
use ensoniq_eps_16_plus.Es5510.Word.{alu_operation, saturate24, add24, negate24, set_flag}
use ensoniq_eps_16_plus.Es5510.Core.{
  Es5510Core, instructions, es5510_core_init, es5510_core_set_halted,
}
use ensoniq_eps_16_plus.Es5510.Registers.{mac_high}
use ensoniq_eps_16_plus.Es5510.Process.{multiply, es5510_core_process}
use ensoniq_eps_16_plus.Es5510.Signed.{alu_operation_lem}
use ensoniq_eps_16_plus.Es5510.Accumulator.{exact, fits48, multiply_lem}
use ensoniq_eps_16_plus.Es5510.Program.{program_length, process_counts}

alu_operation_example :
    (int24 ((alu_operation 0 0x7ffff0 0x20 0).0) ≡ clamp24 (int24 0x7ffff0 +ℤ int24 0x20))
    × (int24 ((alu_operation 1 0x7ffff0 0x20 0).0) ≡ clamp24 (int24 0x7ffff0 -ℤ int24 0x20))
    × (bit 4 ((alu_operation 4 0x7ffff0 0x20 0).1) ≡ ltb_ℤ (int24 0x7ffff0) (int24 0x20))
    × (bit 3 ((alu_operation 4 0x7ffff0 0x20 0).1) ≡ (0x7ffff0 == 0x20))
    × (int24 ((alu_operation 10 0x7ffff0 0x20 0).0) ≡ clamp24 (int24 0x20 *ℤ pos 4))
    × (int24 ((alu_operation 11 0x7ffff0 0x20 0).0) ≡ clamp24 (int24 0x20 *ℤ pos 256))
alu_operation_example = alu_operation_lem 0x7ffff0 0x20 0 (omega arith) (omega arith) (omega arith)

-- The sum of two values saturates; the difference to the lowest value has no negation.
saturated_sum : alu_operation 0 0x7ffff0 0x20 0 ≡ (0x7fffff, 0x20)
unfolding alu_operation saturate24 add24 set_flag
saturated_sum = refl

lowest_value : alu_operation 1 0 0x800000 0 ≡ (0x800000, 0x90)
unfolding alu_operation saturate24 add24 negate24 set_flag
lowest_value = refl

-- Two negative fractions, to be added to an accumulator.
abbrev multiplier : Es5510Core
multiplier = record es5510_core_init {
  mac = record es5510_core_init.mac { accumulate = true; c_value = 0xc00000; d_value = 0x800000 };
  machl = 2 ^ 64 - 2 ^ 30;
}

multiply_example :
    (int64 ((multiply multiplier).machl) ≡ exact multiplier)
    × ((multiply multiplier).mac_overflow ≡ not (fits48 (exact multiplier)))
    × (int24 (mac_high (multiply multiplier)) ≡ clamp24 (floor_div (exact multiplier) (2 ^ 24)))
unfolding es5510_core_init
multiply_example =
    multiply_lem multiplier (omega arith) (omega arith) (omega arith) (omega arith) (omega arith)

-- A program that ends at its third instruction.
abbrev short_program : Es5510Core
short_program = record (es5510_core_set_halted 0 es5510_core_init) {
  instruction = λ pc. if pc == 2 then 15 * 2 ^ 12 else 2 * 2 ^ 12;
}

process_counts_example :
    ((es5510_core_process (λ i. 0) short_program).1.instruction ≡ short_program.instruction)
    × ((es5510_core_process (λ i. 0) short_program).1.instructions_executed ≡ (
        if short_program.halted
        then short_program.instructions_executed
        else u64 (
            short_program.instructions_executed
            + program_length instructions 0 short_program.instruction)))
    × ((es5510_core_process (λ i. 0) short_program).1.frames
        ≡ (if short_program.halted then short_program.frames else u64 (short_program.frames + 1)))
    × (1 ≤ program_length instructions 0 short_program.instruction)
    × (program_length instructions 0 short_program.instruction ≤ 160)
unfolding es5510_core_init es5510_core_set_halted
process_counts_example = process_counts (λ i. 0) short_program (omega arith)

short_program_length : program_length instructions 0 short_program.instruction ≡ 3
unfolding program_length
short_program_length = refl
