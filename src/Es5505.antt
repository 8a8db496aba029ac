-- ===== src/Es5505.antt =====
-- native/es5505_core.c: the registers of the voice chip and the motion of its voices.
pub mod Core
pub mod Registers
pub mod Halves
pub mod ReadBack
pub mod LoopEnd
pub mod Voice
mod Tests
pub mod Render
pub mod Mixing
pub mod Frames
pub mod Chunks
