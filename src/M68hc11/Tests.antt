-- ===== src/M68hc11/Tests.antt =====
-- Runs of native/m68hc11_core.c over a plain memory of 64 KB.
use ensoniq_eps_16_plus.Base.{
  ℕ, ◌==◌, ◌≡◌, refl, arith, if◌then◌else◌, [], ◌∷◌, false, update, sub8, sub16,
}
use ensoniq_eps_16_plus.Base.Switch.{switch}
use ensoniq_eps_16_plus.M68hc11.Accumulator.{inca}
use ensoniq_eps_16_plus.M68hc11.Core.{
  Bus, Core, ◌>>=◌, ◌>>◌, fetch8, finish, when, put_last_opcode, put_a,
}
use ensoniq_eps_16_plus.M68hc11.Flags.{set_sub8, set_sub16, clear_ccr, raise_ccr}
use ensoniq_eps_16_plus.M68hc11.Memory.{rti}
use ensoniq_eps_16_plus.M68hc11.Step.{interrupt, step, execute, page_low, page_middle}
use ensoniq_eps_16_plus.M68hc11.Effects.{IsWord}
use ensoniq_eps_16_plus.M68hc11.Compare.{
  Answers, signed8, signed16, branch_condition-set_sub8, branch_condition-set_sub16,
}
use ensoniq_eps_16_plus.M68hc11.Stack.{IsRam, Holds}
use ensoniq_eps_16_plus.M68hc11.Frame.{Restored, frame_of}
use ensoniq_eps_16_plus.M68hc11.Interrupt.{rti-interrupt}

abbrev Ram : Type 0
Ram = ℕ → ℕ

instance plain_bus : Bus Ram
plain_bus = record { read8 = λ m a. (m a, m); write8 = λ m a v. update m a v }

plain_bus-IsRam : IsRam plain_bus (λ m. m)
unfolding plain_bus
plain_bus-IsRam = record {
  read_value = λ m a. refl;
  read_view = λ m a b. refl;
  write_view = λ m a v b. refl;
}

-- A stack of two bytes under the pointer, a vector, and the program INCA.
abbrev memory : Ram
memory address =
    if address == 0x0101
    then 0x12
    else if address == 0x0102
    then 0x34
    else if address == 0xfff0
    then 0x80
    else if address == 0x2000
    then 0x4c
    else 0

abbrev core : Core Ram
core = record {
  a = 0xab;
  b = 0xcd;
  ccr = 0x45;
  x = 0x1234;
  y = 0x5678;
  sp = 0x0100;
  pc = 0x2000;
  cycles = 17;
  last_opcode = 0x01;
  illegal = false;
  mem = memory;
}

core-IsWord : IsWord core
core-IsWord = omega arith

step_inca : (step core).1.a ≡ 0xac
unfolding step ◌>>=◌ ◌>>◌ execute fetch8 plain_bus switch page_low page_middle inca finish when
    put_last_opcode clear_ccr put_a raise_ccr
step_inca = refl

rti-interrupt_example :
    Restored (frame_of core) (rti (interrupt 0xfff0 core).1).1
    × ((rti (interrupt 0xfff0 core).1).1.ccr ≡ 0x45)
    × ((rti (interrupt 0xfff0 core).1).1.sp ≡ 0x0100)
    × Holds
        (rti (interrupt 0xfff0 core).1).1.mem
        (rti (interrupt 0xfff0 core).1).1.sp
        (0x12 ∷ 0x34 ∷ [])
rti-interrupt_example =
    rti-interrupt plain_bus-IsRam 0xfff0 core (0x12 ∷ 0x34 ∷ []) core-IsWord refl refl (omega arith)
      (refl, (refl, tt))

set_sub8_example :
    Answers 0x80 0x01 (signed8 0x80) (signed8 0x01) (set_sub8 0x80 0x01 (sub8 0x80 0x01) core).1
set_sub8_example = branch_condition-set_sub8 0x80 0x01 core (omega arith) (omega arith)

set_sub16_example :
    Answers 0x8000 0x0001
      (signed16 0x8000)
      (signed16 0x0001)
      (set_sub16 0x8000 0x0001 (sub16 0x8000 0x0001) core).1
set_sub16_example = branch_condition-set_sub16 0x8000 0x0001 core (omega arith) (omega arith)
