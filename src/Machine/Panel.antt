-- ===== src/Machine/Panel.antt =====
-- native/rom_probe.c: the display of the panel, and the bytes that the main machine sends to it.
pub mod State
pub mod Cursor
pub mod Level
pub mod Write
pub mod Text
pub mod Invariant
pub mod Shown
pub mod Bounds
pub mod Page
pub mod Lamps
pub mod Tests
