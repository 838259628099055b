-- ===== src/Lib.antt =====
-- SputterOS: a header-only real-time kernel for microcontrollers with two cores. A scheduler runs
-- tasks core by core; the cores share lock-free queues; errors go to a black-box logger; a host talks
-- to the device in frames over a serial stream.
--
-- Which file models which part, with paths from the repository's root:
-- - Prelude (with Prelude/Lists, Prelude/Tests, Prelude/Bits): shared names, C arrays as lists, Boolean
--   tests, the bit operations of C. No code of its own.
-- - Config: include/sputteros/ConfigTraits.h, the settings with their defaults. The other files take
--   the settings as parameters.
-- - Protocol/Crc16: include/sputteros/comms/protocol/Crc16.h. `crc16` is `Protocol::crc16`.
-- - Protocol/Cobs: include/sputteros/comms/protocol/CobsCodec.h. `encode` and `decode` are the two
--   functions; an output buffer is a list, and an index into it a number.
-- - Protocol/Frame: FrameConstants.h, FrameEncoder.h and FrameDecoder.h of the same directory.
--   `encode_frame` is `FrameEncoder::encode`, `feed_byte` is `FrameDecoder::feedByte`; the decoder's
--   members are the fields of `Decoder`.
-- - Sync/Queue: include/sputteros/osal/sync/LockFreeQueue.h with each call as one step; Sync/Spsc: the
--   same calls as single loads and stores of two cores, in any interleaving.
-- - Logging/Errors: include/sputteros/utils/logging/ErrorLogger.h, src/utils/logging/ErrorLogger.cpp.
-- - Kernel/State: KernelState.h and `System::transitionTo` of System.h in include/sputteros/kernel.
-- - Kernel/Dispatch: `System::tick` of kernel/System.h for one core, `dispatch_slots` its loop over the
--   tasks and `run_ring` its loop over the background ring; Kernel/Dispatch/Periods, Starvation and
--   Slots hold what follows.
-- - Kernel/Metrics/Deadline, Timer, Health and Depth: DeadlineTracker.h, TaskTimer.h,
--   SchedulerHealthMetrics.h with CoreUtilizationTracker.h (include/sputteros/kernel/metrics), and
--   include/sputteros/utils/QueueDepthMonitor.h. Dispatch calls them.
-- - Logic/Interlock: include/sputteros/logic/InterlockManager.h, src/logic/InterlockManager.cpp.
-- - Builder/Topology, Sort, Checks and Build: include/sputteros/builder/SystemBuilder.h with `CoreData` of
--   kernel/System.h: the registration calls, `effectivePriority` and `sortTasksByPriority`, the
--   validations, and `build`, which puts them together. A task is known by a number that stands for its
--   address, and a write past the end of the background ring is `none`.
-- - Kernel/Run: `System::run` of kernel/System.h. It calls the barriers of Sync/Barrier, Kernel/Lifecycle,
--   and the tick of Kernel/Dispatch or the loop of Kernel/Crunch.
-- - Kernel/Diagnostics: include/sputteros/kernel/tasks/BackgroundDiagnosticsTask.h with
--   src/kernel/BackgroundDiagnosticsTask.cpp and src/utils/MemoryProfiler.cpp.
-- - Sync/Buffer: include/sputteros/osal/sync/AtomicDoubleBuffer.h, one writer and one reader interleaved,
--   with values of two words.
-- - Kernel/Lifecycle: what `System::init` and the end of `System::run` do to the kernel's state.
-- - Logic/Parser: include/sputteros/logic/CommandParser.h; Lines holds how bytes become lines.
-- - Protocol/Message, Responses and Router: MessageType.h, ResponseSerializer.h, IProtocolHandler.h and
--   ProtocolRouter.h of include/sputteros/comms/protocol, with utils/PerformanceSnapshot.h.
-- - Comms/State and Input: include/sputteros/comms/CLI.h, its output and its input; the port is a
--   record of the driver's calls. Comms/Task: kernel/tasks/ScheduledCommsTask.h, whose loop is on fuel.
-- - Kernel/Control: include/sputteros/kernel/tasks/ScheduledControlTask.h.
-- - Kernel/Crunch: include/sputteros/kernel/CrunchDispatcher.h, the loop on fuel.
-- - Sync/Watchdog and Sync/Barrier: WatchdogSync.h and MultiCoreSync.h of include/sputteros/osal/sync.
-- - Logging/Text: src/utils/logging/LightweightStringBuilder.cpp.
-- - Logging/Telemetry and Report: src/utils/logging/TelemetryLogger.cpp and
--   src/utils/PerformanceFormatter.cpp.
-- - Kernel/Snapshot: the tasks of `System::snapshot` in include/sputteros/kernel/System.h; Kernel/Statics: the
--   static state of `System` as a whole, with `snapshot` and `reset`.
-- - Logic/Stopwatch and Pid: NonBlockingStopwatch.cpp and PIDController.cpp of src/utils.
--
-- On fuel run: the decoder of Protocol/Cobs, one round for each input byte, and Protocol/Cobs/Safety
-- shows that this is enough; the loop of `DeadlineTracker::advance`, where one round more than the
-- present time is enough for a positive period; the command loop of Comms/Task, where one round is
-- enough; the waits of Sync/Barrier, where one round for each millisecond of the timeout is; and the
-- loops of Kernel/Crunch and Kernel/Run, which are meant to run until they are stopped, and for which
-- enough fuel is given by what stops them. All other loops are structural.
-- Integers are natural numbers, with the wrap-around of the source's types written out where it can
-- occur. `float` is a parameter, with its conversions and arithmetic.
--
-- Not modelled: the interfaces that the user or the port implements (streams, devices, mutexes,
-- clock and tasks appear as parameters), platform glue, the example projects, and memory orders
-- weaker than one order of all accesses.
pub mod Prelude
pub mod Config
pub mod Protocol
pub mod Sync
pub mod Logging
pub mod Kernel
pub mod Logic
pub mod Builder
pub mod Comms
