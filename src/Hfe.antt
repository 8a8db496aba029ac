-- ===== src/Hfe.antt =====
-- native/hfe_disk.c: EPS disk images, and their MFM encoding in HFE files.
pub mod Codec
pub mod Mfm
pub mod Image
pub mod Crc
pub mod RoundTrip
pub mod Chain
pub mod InPlace
pub mod Skew
mod Tests
pub mod Encode
pub mod Decode
pub mod Files
pub mod Sectors
pub mod Scanning
pub mod Seen
pub mod Integrity
pub mod Whole
pub mod Loading
pub mod Saving
pub mod DiskTests
