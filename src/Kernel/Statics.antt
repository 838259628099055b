-- ===== src/Kernel/Statics.antt =====
-- The static state of `System` in kernel/System.h as a whole, with `snapshot` and `reset`. `S` is the type of a stop
-- condition, `C` that of a clock source.
pub mod Blank
pub mod Alike
pub mod Anew
mod Tests
use sputter_os.Prelude.{
  ℕ, zero, suc, Bool, true, false, List, [], ◌∷◌, Option, none, some, length, map, replicate,
}
use sputter_os.Sync.Queue.{Queue, clear}
use sputter_os.Sync.Watchdog.{Watchdog, make_watchdog}
use sputter_os.Sync.Barrier.{CoreSync, make_sync}
use sputter_os.Logging.Errors
use sputter_os.Logging.Telemetry.{Telemetry, clear_telemetry}
use sputter_os.Kernel.State.{unconfigured}
use sputter_os.Kernel.Metrics.Timer.{TaskTimer}
use sputter_os.Kernel.Metrics.Depth.{DepthMonitor, average_depth, peak_depth, reset_depth}
use sputter_os.Kernel.Metrics.Health.{
  Utilization, Health, get_utilization, average_gap_us, shown_total_gap_us, shown_max_gap_us,
  shown_tick_count, reset_utilization, reset_health,
}
use sputter_os.Kernel.Diagnostics.{MemoryProfiler, get_free_heap_bytes}
use sputter_os.Kernel.Dispatch.{now_micros}
use sputter_os.Kernel.Snapshot.{fill_tasks}
use sputter_os.Protocol.Responses.{TaskSnapshot, PerformanceSnapshot}
use sputter_os.Builder.Checks.{CoreInfo}
use sputter_os.Builder.Topology.{max_tasks_per_core}
use sputter_os.Builder.Build.{Static}

-- What `static` does not have. `timer_at` is what the timer of the task at an address has measured;
-- `last_times`, `utilizations` and `initialized` have an entry for each core, `last_dispatch` one list.
pub record Statics (F A S C : Type 0) : Type 0 where
  pub static : Static F C
  pub epoch : ℕ
  pub commands : Queue A
  pub watchdog : Watchdog
  pub sync : CoreSync
  pub telemetry : Telemetry
  pub profiler : MemoryProfiler
  pub utilizations : List Utilization
  pub queue_monitor : DepthMonitor F
  pub health : Health F
  pub round_robin : ℕ
  pub last_times : List ℕ
  pub last_dispatch : List (List ℕ)
  pub safety_abort : Bool
  pub stops : List S
  pub initialized : List Bool
  pub timer_at : ℕ → TaskTimer F

-- `getStackHighWaterMark` of the portable library.
unfoldable pub get_stack_high_water_mark : ℕ
get_stack_high_water_mark = 0

-- `kMaxSnapshotCores`
abbrev pub max_snapshot_cores : ℕ
max_snapshot_cores = 4

-- `TaskSnapshot{}`
abbrev pub blank_task : {F : Type 0} → F → TaskSnapshot F
blank_task zero_float = record {
  task_index = 0;
  core_id = 0;
  last_us = 0;
  min_us = 0;
  max_us = 0;
  avg_us = zero_float;
  samples = 0;
  overruns = 0;
  misses = 0;
  histogram = replicate 8 0;
}

-- The timers of the tasks of the cores.
unfoldable pub core_timers :
    {F : Type 0} → (ℕ → TaskTimer F) → List CoreInfo → List (List (TaskTimer F))
core_timers timer_at [] = []
core_timers timer_at (c ∷ cs) = map (λ t. timer_at t.info.id) c.tasks ∷ core_timers timer_at cs

module _ {F : Type 0} (zero_float : F) (to_float : ℕ → F) (divide : F → F → F) where
  -- The loop over the cores, into an array of zeros.
  unfoldable pub fill_utilization : ℕ → List Utilization → List F
  fill_utilization zero us = []
  fill_utilization (suc places) [] = zero_float ∷ fill_utilization places []
  fill_utilization (suc places) (u ∷ us) =
      get_utilization zero_float to_float divide u ∷ fill_utilization places us

  -- `snapshot`, with the reading of the clock source.
  unfoldable pub snapshot : {A S C : Type 0} → Option ℕ → Statics F A S C → PerformanceSnapshot F
  snapshot raw s =
      let m = s.queue_monitor in
      let h = s.health in
      fill_tasks zero_float to_float divide (blank_task zero_float)
        (core_timers s.timer_at s.static.cores)
        (record {
          timestamp = now_micros s.epoch raw;
          core_count = length s.static.cores;
          core_utilization = fill_utilization max_snapshot_cores s.utilizations;
          queue_depth = m.last_depth;
          queue_max_depth = peak_depth m;
          queue_avg_depth = average_depth zero_float to_float divide m;
          peak_heap_used = s.profiler.peak_used_bytes;
          free_heap = get_free_heap_bytes;
          stack_high_water = get_stack_high_water_mark;
          total_gap_us = shown_total_gap_us h;
          max_gap_us = shown_max_gap_us h;
          avg_gap_us = average_gap_us zero_float to_float divide h;
          scheduler_tick_count = shown_tick_count h;
          total_overruns = h.total_overruns;
          total_deadline_misses = h.total_deadline_misses;
          task_count = 0;
          tasks = [];
        })

-- `CoreData{}`
abbrev pub empty_core : CoreInfo
empty_core = record { tasks = []; is_crunch = false; crunch_task = none }

-- The part of `reset` that clears what the builder sets; the timers of the user's tasks stay as they are.
unfoldable pub reset_static : {F C : Type 0} → ℕ → Static F C → Static F C
reset_static n b = record b {
  cores = replicate n empty_core;
  background = [];
  background_core_id = 0;
  monitored = [];
  watched = [];
  has_drain = false;
  drain_wired = false;
  kick_fn = none;
  system_clock = none;
  is_built = false;
  machine = record { state = unconfigured; errors = Errors.clear b.machine.errors };
}

-- `reset`, with `n` cores and a command queue of `capacity`.
unfoldable pub reset_system : {F A S C : Type 0} → A → ℕ → F → ℕ → Statics F A S C → Statics F A S C
reset_system dflt capacity zero_float n s = record s {
  static = reset_static n s.static;
  epoch = 0;
  commands = clear dflt capacity s.commands;
  watchdog = make_watchdog n;
  sync = make_sync n;
  telemetry = clear_telemetry s.telemetry;
  utilizations = map reset_utilization s.utilizations;
  queue_monitor = reset_depth zero_float s.queue_monitor;
  health = reset_health zero_float s.health;
  round_robin = 0;
  last_times = replicate n 0;
  last_dispatch = replicate n (replicate max_tasks_per_core 0);
  safety_abort = false;
  stops = [];
  initialized = replicate n false;
}
