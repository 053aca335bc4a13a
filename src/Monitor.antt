-- ===== src/Monitor.antt =====
-- internal/monitor: the metrics of the node's devices and containers.
pub mod Shmem
pub mod Containers
pub mod Host
pub mod Collector
pub mod Setup
