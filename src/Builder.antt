-- ===== src/Builder.antt =====
-- include/sputteros/builder/SystemBuilder.h: the topology and its checks.
pub mod Sort
pub mod Checks
pub mod Topology
pub mod Build
mod Tests
