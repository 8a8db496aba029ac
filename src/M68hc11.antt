-- ===== src/M68hc11.antt =====
-- native/m68hc11_core.c: the 68HC11 processor of the keypad and display controller.
pub mod Core
pub mod Flags
pub mod Inherent
pub mod Accumulator
pub mod Memory
pub mod Wide
pub mod Step
pub mod Effects
pub mod Helpers
pub mod Timing
pub mod Progress
pub mod Compare
pub mod Arithmetic
pub mod Stack
pub mod Frame
pub mod Interrupt
mod Tests
