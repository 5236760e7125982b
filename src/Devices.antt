-- ===== src/Devices.antt =====
-- The code under cpp/devices.
pub mod ImageFile
pub mod DiskTrack
pub mod PageHandler
pub mod StorageDevice
pub mod Tape
pub mod Disk
pub mod LinuxCache
pub mod Cache
pub mod DiskCache
pub mod Tests
