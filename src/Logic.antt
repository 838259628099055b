-- ===== src/Logic.antt =====
-- include/sputteros/logic and src/logic: interlocks and commands.
pub mod Interlock
pub mod Parser
pub mod Stopwatch
pub mod Pid
mod Tests
