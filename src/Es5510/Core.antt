-- ===== src/Es5510/Core.antt =====
-- native/es5510_core.h and native/es5510_core.c, lines 139 to 249: the state of the signal
-- processor, its registers and its addresses.
use ensoniq_eps_16_plus.Base.{
  ℕ, ◌+◌, ◌-◌, ◌/◌, ◌%◌, ◌^◌, ◌==◌, nonzero, leb, if◌then◌else◌, u32, bit_and, Bool, true, false,
}
use ensoniq_eps_16_plus.Es5510.Word.{round24to16}

abbrev pub instructions : ℕ
instructions = 160

abbrev pub dram_words : ℕ
dram_words = 2 ^ 20

pub record Es5510Alu : Type 0 where
  pub a_reg : ℕ
  pub b_reg : ℕ
  pub op : ℕ
  pub src : ℕ
  pub dst : ℕ
  pub a_value : ℕ
  pub b_value : ℕ
  pub result : ℕ
  pub update_ccr : Bool
  pub write_result : Bool

pub record Es5510Mac : Type 0 where
  pub c_reg : ℕ
  pub d_reg : ℕ
  pub src : ℕ
  pub dst : ℕ
  pub accumulate : Bool
  pub write_result : Bool
  pub c_value : ℕ
  pub d_value : ℕ
  pub product : ℕ
  pub result : ℕ

-- The three kinds of a memory cycle.
abbrev pub ram_read : ℕ
ram_read = 0

abbrev pub ram_write : ℕ
ram_write = 1

abbrev pub ram_dump : ℕ
ram_dump = 2

pub record Es5510RamCycle : Type 0 where
  pub address : ℕ
  pub io : Bool
  pub cycle : ℕ

pub record Es5510Core : Type 0 where
  pub gpr : ℕ → ℕ
  pub instruction : ℕ → ℕ
  pub dram : ℕ → ℕ
  pub serial : ℕ → ℕ
  pub machl : ℕ
  pub mac_overflow : Bool
  pub dil : ℕ
  pub memsiz : ℕ
  pub memmask : ℕ
  pub memincrement : ℕ
  pub memshift : ℕ
  pub dlength : ℕ
  pub abase : ℕ
  pub bbase : ℕ
  pub dbase : ℕ
  pub sigreg : ℕ
  pub ccr : ℕ
  pub cmr : ℕ
  pub host_serial : ℕ
  pub dol0 : ℕ
  pub dol1 : ℕ
  pub dol_count : ℕ
  pub alu : Es5510Alu
  pub mac : Es5510Mac
  pub ram : Es5510RamCycle
  pub ram_p : Es5510RamCycle
  pub ram_pp : Es5510RamCycle
  pub halted : Bool
  pub frames : ℕ
  pub instructions_executed : ℕ

-- The queue of two samples that go out to the memory.
unfoldable pub write_dol : ℕ → Es5510Core → Es5510Core
write_dol value core =
    let sample = round24to16 value in
    if leb 2 core.dol_count
    then record core { dol0 = core.dol1; dol1 = sample }
    else if core.dol_count == 0
    then record core { dol0 = sample; dol_count = core.dol_count + 1 }
    else record core { dol1 = sample; dol_count = core.dol_count + 1 }

unfoldable pub eject_dol : Es5510Core → Es5510Core
eject_dol core = record core {
  dol0 = core.dol1;
  dol_count = if nonzero core.dol_count then core.dol_count - 1 else core.dol_count;
}

unfoldable pub es5510_core_init : Es5510Core
es5510_core_init = record {
  gpr = λ i. 0;
  instruction = λ i. 0;
  dram = λ i. 0;
  serial = λ i. 0;
  machl = 0;
  mac_overflow = false;
  dil = 0;
  memsiz = 0xffffff;
  memmask = 0;
  memincrement = 0x1000000;
  memshift = 24;
  dlength = 0;
  abase = 0;
  bbase = 0;
  dbase = 0;
  sigreg = 0;
  ccr = 0;
  cmr = 0;
  host_serial = 0;
  dol0 = 0;
  dol1 = 0;
  dol_count = 0;
  alu = record {
    a_reg = 0;
    b_reg = 0;
    op = 0;
    src = 0;
    dst = 0;
    a_value = 0;
    b_value = 0;
    result = 0;
    update_ccr = false;
    write_result = false;
  };
  mac = record {
    c_reg = 0;
    d_reg = 0;
    src = 0;
    dst = 0;
    accumulate = false;
    write_result = false;
    c_value = 0;
    d_value = 0;
    product = 0;
    result = 0;
  };
  ram = record { address = 0; io = false; cycle = 0 };
  ram_p = record { address = 0; io = false; cycle = 0 };
  ram_pp = record { address = 0; io = false; cycle = 0 };
  halted = true;
  frames = 0;
  instructions_executed = 0;
}

unfoldable pub es5510_core_set_halted : ℕ → Es5510Core → Es5510Core
es5510_core_set_halted halted core = record core { halted = nonzero halted }

unfoldable pub es5510_core_set_host_serial : ℕ → Es5510Core → Es5510Core
es5510_core_set_host_serial value core = record core { host_serial = value }

unfoldable pub es5510_core_dram_address : Es5510Core → ℕ → ℕ
es5510_core_dram_address core address =
    bit_and (bit_and address core.memmask / 2 ^ core.memshift) (dram_words - 1)

-- What a field of the instruction selects: the delay line, a table, or a device.
abbrev pub access_delay : ℕ
access_delay = 0

abbrev pub access_a : ℕ
access_a = 1

abbrev pub access_b : ℕ
access_b = 2

abbrev pub access_io : ℕ
access_io = 3

unfoldable pub ram_address : Es5510Core → ℕ → ℕ → ℕ
ram_address core access offset =
    let length = u32 (core.dlength + core.memincrement) in
    if access == access_delay
    then es5510_core_dram_address core
        (if nonzero length then u32 (core.dbase + offset) % length else 0)
    else if access == access_a
    then es5510_core_dram_address core (u32 (core.abase + offset))
    else if access == access_b
    then es5510_core_dram_address core (u32 (core.bbase + offset))
    else bit_and offset 0xfffff0
