-- ===== src/Kernel/Snapshot/Tests.antt =====
-- A snapshot at a concrete input: two cores with one task and two.
use sputter_os.Prelude.{ℕ, ◌+◌, ◌≤◌, List, [], ◌∷◌, ◌≡◌, length, take, replicate}
use sputter_os.Protocol.Responses.{TaskSnapshot, PerformanceSnapshot}
use sputter_os.Kernel.Metrics.Timer.{TaskTimer, empty_tally}
use sputter_os.Kernel.Snapshot.{fill_tasks}
use sputter_os.Kernel.Snapshot.Collected.{all_entries, fill_tasks-take}

abbrev sum_only : ℕ → ℕ → ℕ
sum_only a b = a + b

abbrev timer_of : ℕ → TaskTimer ℕ
timer_of last = record {
  last_duration = last;
  start_us = 0;
  tally = empty_tally;
  window_us = 0;
  window_start_us = 0;
  report = record {
    reported_sample_count = 4;
    reported_min_duration = 1;
    reported_max_duration = last;
    reported_avg_us = 2;
    reported_overruns = 0;
    reported_misses = 0;
    reported_histogram = 4 ∷ replicate 7 0;
  };
}

abbrev free_place : TaskSnapshot ℕ
free_place = record {
  task_index = 0;
  core_id = 0;
  last_us = 0;
  min_us = 0;
  max_us = 0;
  avg_us = 0;
  samples = 0;
  overruns = 0;
  misses = 0;
  histogram = replicate 8 0;
}

abbrev cores : List (List (TaskTimer ℕ))
cores = (timer_of 10 ∷ []) ∷ (timer_of 20 ∷ timer_of 30 ∷ []) ∷ []

abbrev figures : PerformanceSnapshot ℕ
figures = record {
  timestamp = 100;
  core_count = 2;
  core_utilization = 0 ∷ 0 ∷ 0 ∷ 0 ∷ [];
  queue_depth = 0;
  queue_max_depth = 0;
  queue_avg_depth = 0;
  peak_heap_used = 0;
  free_heap = 0;
  stack_high_water = 0;
  total_gap_us = 0;
  max_gap_us = 0;
  avg_gap_us = 0;
  scheduler_tick_count = 0;
  total_overruns = 0;
  total_deadline_misses = 0;
  task_count = 0;
  tasks = [];
}

fill_tasks-take_example :
    let snap' = fill_tasks 0 (λ n. n) sum_only free_place cores figures in
    (take snap'.task_count snap'.tasks ≡ take 16 (all_entries 0 (λ n. n) sum_only 0 cores))
    × ((length snap'.tasks ≡ 16) × (snap'.task_count ≤ 16))
fill_tasks-take_example = fill_tasks-take 0 (λ n. n) sum_only free_place cores figures
