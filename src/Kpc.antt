-- ===== src/Kpc.antt =====
-- The keypad and display controller: native/kpc_firmware.c, native/kpc_device.c, native/kpc_legacy.c.
pub mod Firmware
pub mod Device
pub mod Legacy
