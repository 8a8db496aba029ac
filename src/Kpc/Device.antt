-- ===== src/Kpc/Device.antt =====
-- native/kpc_device.c: the controller's processor with its memory, serial ports, timer and panel.
pub mod Board
pub mod Serial
pub mod Panel
pub mod Bus
pub mod Timers
pub mod Step
pub mod Invariant
pub mod Running
pub mod Progress
pub mod Queues
pub mod Clocks
pub mod PanelScan
pub mod Tests
