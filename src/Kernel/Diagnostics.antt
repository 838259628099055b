-- ===== src/Kernel/Diagnostics.antt =====
-- include/sputteros/kernel/tasks/BackgroundDiagnosticsTask.h and src/kernel/BackgroundDiagnosticsTask.cpp, with src/utils/MemoryProfiler.cpp. The
-- timers of the monitored tasks are held in a list, and `W` is what the watchdog function acts on.

pub mod Alarms
mod Tests
use sputter_os.Prelude.{
  ℕ, ◌+◌, ◌-◌, ◌%◌, Bool, true, false, List, [], ◌∷◌, ◌++◌, Option, none, some, if◌then◌else◌, ltb,
  leb, map,
}
use sputter_os.Logging.Errors.{ErrorLogger, log, sensor_error, watchdog_kick}
use sputter_os.Logging.Telemetry.{Telemetry, drain}
use sputter_os.Kernel.Metrics.Timer.{TaskTimer, wrap32}
use sputter_os.Kernel.Metrics.Health.{Health}
use sputter_os.Kernel.Snapshot.{timer_overruns, timer_misses, is_over_budget, reset_timer}

pub record MemoryProfiler : Type 0 where
  pub baseline_free_bytes : ℕ
  pub peak_used_bytes : ℕ

-- `getFreeHeapBytes` of the portable library.
unfoldable pub get_free_heap_bytes : ℕ
get_free_heap_bytes = 0

-- `MemoryProfiler::update`
unfoldable pub update_profiler : MemoryProfiler → MemoryProfiler
update_profiler p =
    let free = get_free_heap_bytes in
    let used = if leb free p.baseline_free_bytes then p.baseline_free_bytes - free else 0 in
    if ltb p.peak_used_bytes used then record p { peak_used_bytes = used } else p

-- `MemoryProfiler::reset`, which is also what the constructor does.
unfoldable pub reset_profiler : MemoryProfiler
reset_profiler = record { baseline_free_bytes = get_free_heap_bytes; peak_used_bytes = 0 }

-- The task with what it refers to. `health` is `none` where no aggregator is set, `telemetry` where no
-- drain is wired; `written` is what the drain's function was given.
pub record Diagnostics (F W : Type 0) : Type 0 where
  pub errors : ErrorLogger F
  pub profiler : MemoryProfiler
  pub timers : List (TaskTimer F)
  pub control_budget : ℕ
  pub tick_count : ℕ
  pub health : Option (Health F)
  pub telemetry : Option Telemetry
  pub written : List (List ℕ)
  pub world : W

-- `kMemCheckInterval`
abbrev pub mem_check_interval : ℕ
mem_check_interval = 100

-- `init`; the tick counter goes on.
unfoldable pub init_diagnostics : {F W : Type 0} → F → Diagnostics F W → Diagnostics F W
init_diagnostics zero_float d = record d {
  profiler = reset_profiler;
  timers = map (reset_timer zero_float) d.timers;
}

module _ {F : Type 0} (to_float : ℕ → F) where
  -- The scan for budget violations.
  unfoldable pub scan_budgets : ℕ → List (TaskTimer F) → ErrorLogger F → ErrorLogger F
  scan_budgets budget [] l = l
  scan_budgets budget (t ∷ ts) l =
      let l' = log l sensor_error 0 (to_float t.last_duration) in
      scan_budgets budget ts (if is_over_budget t budget then l' else l)

-- The two sums, from those so far on.
unfoldable pub aggregate : {F : Type 0} → List (TaskTimer F) → ℕ → ℕ → ℕ × ℕ
aggregate [] overruns misses = (overruns, misses)
aggregate (t ∷ ts) overruns misses =
    aggregate ts (wrap32 (overruns + timer_overruns t)) (wrap32 (misses + timer_misses t))

-- `SchedulerHealthMetrics::setAggregates`
unfoldable pub set_aggregates : {F : Type 0} → Health F → ℕ → ℕ → Health F
set_aggregates h overruns misses = record h {
  total_overruns = overruns;
  total_deadline_misses = misses;
}

module _ {F W : Type 0} (to_float : ℕ → F) (watchdog_kick_fn : Option (W → W)) where
  unfoldable pub kick_watchdog : W → W
  kick_watchdog w = elim watchdog_kick_fn [ none ↦ w | some kick ↦ kick w ]

  unfoldable pub give_health : List (TaskTimer F) → Option (Health F) → Option (Health F)
  give_health timers none = none
  give_health timers (some h) =
      let (overruns, misses) = aggregate timers 0 0 in some (set_aggregates h overruns misses)

  -- The lines, and the drained logger.
  unfoldable pub drain_telemetry : Option Telemetry → List (List ℕ) × Option Telemetry
  drain_telemetry none = ([], none)
  drain_telemetry (some l) = let (lines, l') = drain l in (lines, some l')

  -- `tick`
  unfoldable pub tick_diagnostics : Diagnostics F W → Diagnostics F W
  tick_diagnostics d =
      let scanned = scan_budgets to_float d.control_budget d.timers d.errors in
      let profiler = update_profiler d.profiler in
      let count = wrap32 (d.tick_count + 1) in
      let is_check = leb mem_check_interval count in
      let checked = log scanned watchdog_kick 0 (to_float profiler.peak_used_bytes) in
      let (lines, telemetry) = drain_telemetry d.telemetry in
      record d {
        world = kick_watchdog d.world;
        errors = (if is_check then checked else scanned);
        profiler = profiler;
        health = give_health d.timers d.health;
        tick_count = (if is_check then 0 else count);
        telemetry = telemetry;
        written = d.written ++ lines;
      }
