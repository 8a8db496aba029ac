-- ===== src/Es5510.antt =====
-- native/es5510_core.c: the signal processor of the effects.
pub mod Word
pub mod Core
pub mod Registers
pub mod Tables
pub mod Process
pub mod Flags
pub mod Saturation
pub mod Scaling
pub mod Product
pub mod Accumulator
pub mod Stages
pub mod Program
pub mod Tests
pub mod Signed
