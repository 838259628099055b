-- ===== src/Kernel/Snapshot.antt =====
-- The per-task part of `System::snapshot` in kernel/System.h, with the getters of kernel/metrics/TaskTimer.h
-- that it calls. A core is the list of its tasks' timers; no slot holds a null pointer.
pub mod Collected
mod Tests
use sputter_os.Prelude.{
  ℕ, zero, suc, ◌+◌, ◌-◌, Bool, List, [], ◌∷◌, ◌++◌, if◌then◌else◌, ltb, length, replicate,
}
use sputter_os.Kernel.Metrics.Timer.{
  TaskTimer, max_duration_us, min_duration_us, samples, average_us, empty_tally, micros_max,
}
use sputter_os.Protocol.Responses.{TaskSnapshot, PerformanceSnapshot, max_snapshot_tasks}

module _ {F : Type 0} where
  unfoldable pub timer_overruns : TaskTimer F → ℕ
  timer_overruns t =
      if ltb 0 t.report.reported_sample_count
      then t.report.reported_overruns
      else t.tally.overrun_count

  unfoldable pub timer_misses : TaskTimer F → ℕ
  timer_misses t =
      if ltb 0 t.report.reported_sample_count
      then t.report.reported_misses
      else t.tally.deadline_miss_count

  unfoldable pub timer_histogram : TaskTimer F → List ℕ
  timer_histogram t =
      if ltb 0 t.report.reported_sample_count
      then t.report.reported_histogram
      else t.tally.histogram

  unfoldable pub is_over_budget : TaskTimer F → ℕ → Bool
  is_over_budget t budget_us = ltb budget_us t.last_duration

  -- `TaskTimer::reset`, which leaves the window's length and the start of a measurement.
  unfoldable pub reset_timer : F → TaskTimer F → TaskTimer F
  reset_timer zero_float t = record t {
    last_duration = 0;
    tally = empty_tally;
    window_start_us = 0;
    report = record {
      reported_sample_count = 0;
      reported_min_duration = micros_max;
      reported_max_duration = 0;
      reported_avg_us = zero_float;
      reported_overruns = 0;
      reported_misses = 0;
      reported_histogram = replicate 8 0;
    };
  }

module _ {F : Type 0} (zero_float : F) (to_float : ℕ → F) (divide : F → F → F) where
  unfoldable pub task_snapshot : ℕ → ℕ → TaskTimer F → TaskSnapshot F
  task_snapshot core_id task_index t = record {
    task_index = task_index;
    core_id = core_id;
    last_us = t.last_duration;
    min_us = min_duration_us t;
    max_us = max_duration_us t;
    avg_us = average_us zero_float to_float divide t;
    samples = samples t;
    overruns = timer_overruns t;
    misses = timer_misses t;
    histogram = timer_histogram t;
  }

  -- The inner loop, from task `i` of a core on, while `room` entries are left.
  unfoldable pub collect_core : ℕ → ℕ → ℕ → List (TaskTimer F) → List (TaskSnapshot F)
  collect_core zero core_id i timers = []
  collect_core (suc room) core_id i [] = []
  collect_core (suc room) core_id i (t ∷ timers) =
      task_snapshot core_id i t ∷ collect_core room core_id (i + 1) timers

  -- The outer loop, from core `c` on.
  unfoldable pub collect_cores : ℕ → ℕ → List (List (TaskTimer F)) → List (TaskSnapshot F)
  collect_cores room c [] = []
  collect_cores room c (timers ∷ cores) =
      let here = collect_core room c 0 timers in
      here ++ collect_cores (room - length here) (c + 1) cores

  -- The tasks of a snapshot that has its other figures; the places that stay free keep `blank`.
  unfoldable pub fill_tasks :
      TaskSnapshot F → List (List (TaskTimer F)) → PerformanceSnapshot F → PerformanceSnapshot F
  fill_tasks blank cores snap =
      let entries = collect_cores max_snapshot_tasks 0 cores in
      record snap {
        task_count = length entries;
        tasks = entries ++ replicate (max_snapshot_tasks - length entries) blank;
      }
