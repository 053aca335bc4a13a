-- ===== src/Manager.antt =====
-- internal/manager/manager.go: the chip's configuration, the cached devices and the idle vNPUs.
pub mod Driver
pub mod Select
pub mod State
pub mod Counts
pub mod Devices
pub mod Cleanup
