-- ===== src/Comms.antt =====
-- include/sputteros/comms/CLI.h and kernel/tasks/ScheduledCommsTask.h: from received bytes to queued
-- commands and replies.
pub mod State
pub mod Input
pub mod Task
mod Tests
