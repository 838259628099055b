-- ===== src/Kernel/Metrics.antt =====
-- include/sputteros/kernel/metrics: what the kernel measures of its tasks and cores.
pub mod Deadline
pub mod Timer
pub mod Depth
pub mod Health
mod Tests
