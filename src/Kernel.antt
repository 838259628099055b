-- ===== src/Kernel.antt =====
-- include/sputteros/kernel: the run-time core of the system.
pub mod State
pub mod Metrics
pub mod Dispatch
pub mod Lifecycle
pub mod Snapshot
pub mod Statics
pub mod Control
pub mod Crunch
pub mod Run
pub mod Diagnostics
mod Tests
