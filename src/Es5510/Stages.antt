-- ===== src/Es5510/Stages.antt =====
-- native/es5510_core.c, lines 251 to 358: what the stages of the pipeline leave as it is.
use ensoniq_eps_16_plus.Base.{
  ℕ, ◌!=◌, nonzero, if◌then◌else◌, bit_and, Bool, true, false, ◌≡◌, refl, ◌∙◌,
}
use ensoniq_eps_16_plus.Es5510.Word.{alu_operation}
use ensoniq_eps_16_plus.Es5510.Core.{Es5510Core, write_dol, eject_dol}
use ensoniq_eps_16_plus.Es5510.Registers.{es5510_core_write_reg, write_memory_size, mac_high}
use ensoniq_eps_16_plus.Es5510.Tables.{src_reg, src_delay}
use ensoniq_eps_16_plus.Es5510.Process.{deliver, multiply, execute_mac, execute_alu, retire_ram}

-- What the stages of the pipeline leave as it is: the program and the counters.
abbrev pub View : Type 0
View = (ℕ → ℕ) × ℕ × ℕ × Bool

abbrev pub program_of : Es5510Core → View
program_of c = (c.instruction, c.instructions_executed, c.frames, c.halted)

abbrev pub Same : Es5510Core → Es5510Core → Type 0
Same c d = program_of d ≡ program_of c

pub chosen : (b : Bool) (c d e : Es5510Core) → Same c d → Same c e → Same c (if b then d else e)
chosen true c d e f g = f
chosen false c d e f g = g

write_reg-Same : (reg value : ℕ) (c : Es5510Core) → Same c (es5510_core_write_reg reg value c)
unfolding es5510_core_write_reg write_memory_size
write_reg-Same reg value c = search chosen depth 40

write_dol-Same : (value : ℕ) (c : Es5510Core) → Same c (write_dol value c)
unfolding write_dol
write_dol-Same value c = search chosen

deliver-Same : (dst reg result : ℕ) (c : Es5510Core) → Same c (deliver dst reg result c)
deliver-Same dst reg result c =
    let d : Es5510Core =
      if nonzero (bit_and dst src_reg) then es5510_core_write_reg reg result c else c in
    let written : Same c d =
      chosen (nonzero (bit_and dst src_reg)) c _ c (write_reg-Same reg result c) refl in
    chosen (nonzero (bit_and dst src_delay)) c (write_dol result d) d
      (write_dol-Same result d ∙ written) written

pub execute_mac-Same : (c : Es5510Core) → Same c (execute_mac c)
unfolding execute_mac multiply
execute_mac-Same c =
    let m = multiply c in
    chosen c.mac.write_result c (deliver m.mac.dst m.mac.c_reg (mac_high m) m) c
      (deliver-Same m.mac.dst m.mac.c_reg (mac_high m) m) refl

pub execute_alu-Same : (c : Es5510Core) → Same c (execute_alu c)
unfolding execute_alu
execute_alu-Same c =
    let r : ℕ × ℕ = alu_operation c.alu.op c.alu.a_value c.alu.b_value c.ccr in
    let b : Es5510Core = record c { alu = record c.alu { result = r.0 } } in
    let d : Es5510Core = if c.alu.op != 4 then deliver c.alu.dst c.alu.a_reg r.0 b else b in
    let delivered : Same c d =
      chosen (c.alu.op != 4) c (deliver c.alu.dst c.alu.a_reg r.0 b) b
        (deliver-Same c.alu.dst c.alu.a_reg r.0 b) refl in
    chosen c.alu.write_result c (if c.alu.update_ccr then record d { ccr = r.1 } else d) c
      (chosen c.alu.update_ccr c (record d { ccr = r.1 }) d delivered delivered) refl

pub retire_ram-Same : (c : Es5510Core) → Same c (retire_ram c)
unfolding retire_ram eject_dol
retire_ram-Same c = search chosen
