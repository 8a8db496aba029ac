-- ===== src/Es5510/Tables.antt =====
-- native/es5510_core.c, lines 20 to 43: what the fields of an instruction select.
use ensoniq_eps_16_plus.Base.{ℕ, ◌==◌, if◌then◌else◌}
use ensoniq_eps_16_plus.Es5510.Core.{
  ram_read, ram_write, ram_dump, access_delay, access_a, access_b, access_io,
}

-- Where an operand comes from and where a result goes: bits of a set.
abbrev pub src_reg : ℕ
src_reg = 1

abbrev pub src_delay : ℕ
src_delay = 2

abbrev src_both : ℕ
src_both = 3

pub record OperandSelect : Type 0 where
  pub alu_src : ℕ
  pub alu_dst : ℕ
  pub mac_src : ℕ
  pub mac_dst : ℕ

abbrev select : ℕ → ℕ → ℕ → ℕ → OperandSelect
select a b c d = record { alu_src = a; alu_dst = b; mac_src = c; mac_dst = d }

unfoldable pub operand_select : ℕ → OperandSelect
operand_select index =
    if index == 0
    then select src_reg src_reg src_reg src_reg
    else if index == 1
    then select src_reg src_reg src_reg src_delay
    else if index == 2
    then select src_reg src_reg src_reg src_both
    else if index == 3
    then select src_reg src_reg src_delay src_reg
    else if index == 4
    then select src_reg src_reg src_delay src_both
    else if index == 5
    then select src_reg src_delay src_reg src_reg
    else if index == 6
    then select src_reg src_delay src_delay src_reg
    else if index == 7
    then select src_reg src_both src_reg src_reg
    else if index == 8
    then select src_reg src_both src_delay src_reg
    else if index == 9
    then select src_delay src_reg src_reg src_reg
    else if index == 10
    then select src_delay src_reg src_reg src_delay
    else if index == 11
    then select src_delay src_reg src_reg src_both
    else if index == 12
    then select src_delay src_reg src_delay src_reg
    else if index == 13
    then select src_delay src_reg src_delay src_both
    else if index == 14
    then select src_delay src_both src_reg src_reg
    else select src_delay src_both src_delay src_reg

pub record RamControl : Type 0 where
  pub cycle : ℕ
  pub access : ℕ

abbrev control : ℕ → ℕ → RamControl
control c a = record { cycle = c; access = a }

unfoldable pub ram_control : ℕ → RamControl
ram_control index =
    if index == 0
    then control ram_read access_delay
    else if index == 1
    then control ram_write access_delay
    else if index == 2
    then control ram_read access_a
    else if index == 3
    then control ram_write access_a
    else if index == 4
    then control ram_read access_b
    else if index == 5
    then control ram_dump access_delay
    else if index == 6
    then control ram_read access_io
    else control ram_write access_io
