-- ===== src/Logging.antt =====
-- include/sputteros/utils/logging and src/utils/logging.
pub mod Errors
pub mod Text
pub mod Report
pub mod Telemetry
mod Tests
