-- ===== src/M68hc11/Timing.antt =====
-- `m68hc11_step` and `m68hc11_interrupt` return the cycles that they add to the counter, keep every
-- register in its width, and reach the memory only through the bus.
pub mod Inherent
pub mod Accumulator
pub mod Memory
pub mod Wide
pub mod Step
