-- ===== src/Machine.antt =====
-- native/rom_probe.c: the controllers of the main machine, its bus, the display of its panel and its
-- link to the keypad controller; and vst3/ProbeMachine.c, what the plug-in exchanges with it.
pub mod Dmac
pub mod Fdc
pub mod Scsi
pub mod Service
pub mod View
pub mod Floppy
pub mod Access
pub mod Sector
pub mod Stream
pub mod Tests
pub mod Serial
pub mod Timer
pub mod Panel
pub mod Link
pub mod Host
pub mod Bus
pub mod Memory
pub mod Words
pub mod Plugin
