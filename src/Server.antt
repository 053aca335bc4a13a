-- ===== src/Server.antt =====
-- internal/server: the device plugin that kubelet talks to.
pub mod Plugin
pub mod Allocate
pub mod Publish
pub mod Register
pub mod Watch
pub mod DeviceShare
pub mod Lifecycle
pub mod HostResources
