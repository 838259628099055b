-- ===== src/Sync.antt =====
-- include/sputteros/osal/sync: what the cores share.
pub mod Fifo
pub mod Ring
pub mod Queue
pub mod Spsc
pub mod Buffer
pub mod Watchdog
pub mod Barrier
mod Tests
