-- ===== src/Kernel/Statics/Blank.antt =====
-- What a snapshot shows of a system that was reset.
use sputter_os.Prelude.{
  ◌+◌, ℕ, zero, suc, List, [], ◌∷◌, ◌≡◌, refl, ap, none, map, replicate, length-replicate,
}
use native.Mathlib.Nat.{sub-zero}
use sputter_os.Protocol.Responses.{PerformanceSnapshot}
use sputter_os.Kernel.Metrics.Timer.{average, TaskTimer}
use sputter_os.Kernel.Metrics.Health.{
  average_gap_us, shown_tick_count, shown_max_gap_us, shown_total_gap_us, reset_health, Utilization,
  get_utilization, get_window_us, reset_utilization,
}
use sputter_os.Kernel.Metrics.Depth.{average_depth, peak_depth, reset_depth}
use sputter_os.Kernel.Diagnostics.{get_free_heap_bytes}
use sputter_os.Kernel.Snapshot.{collect_core, collect_cores, fill_tasks}
use sputter_os.Kernel.Statics.{
  Statics, core_timers, empty_core, blank_task, fill_utilization, get_stack_high_water_mark,
  snapshot, reset_static, reset_system,
}

module _ {F : Type 0} (zero_float : F) (to_float : ℕ → F) (divide : F → F → F) where
  -- The snapshot of `n` cores that have no tasks and ran nothing.
  abbrev pub idle_snapshot : ℕ → ℕ → PerformanceSnapshot F
  idle_snapshot n peak = record {
    timestamp = 0;
    core_count = n;
    core_utilization = replicate 4 zero_float;
    queue_depth = 0;
    queue_max_depth = 0;
    queue_avg_depth = zero_float;
    peak_heap_used = peak;
    free_heap = 0;
    stack_high_water = 0;
    total_gap_us = 0;
    max_gap_us = 0;
    avg_gap_us = zero_float;
    scheduler_tick_count = 0;
    total_overruns = 0;
    total_deadline_misses = 0;
    task_count = 0;
    tasks = replicate 16 (blank_task zero_float);
  }

  utilization-reset :
      (places : ℕ) (us : List Utilization)
      → fill_utilization zero_float to_float divide places (map reset_utilization us)
        ≡ replicate places zero_float
  unfolding fill_utilization get_utilization get_window_us reset_utilization
  utilization-reset zero us = refl
  utilization-reset (suc places) [] = ap (λ l. zero_float ∷ l) (utilization-reset places [])
  utilization-reset (suc places) (u ∷ us) = ap (λ l. zero_float ∷ l) (utilization-reset places us)

  no_entries :
      (timer_at : ℕ → TaskTimer F) (n room c : ℕ)
      → collect_cores zero_float to_float divide room c
          (core_timers timer_at (replicate n empty_core))
        ≡ []
  unfolding collect_core collect_cores core_timers
  no_entries timer_at zero room c = refl
  no_entries timer_at (suc n) zero c = no_entries timer_at n zero (c + 1)
  no_entries timer_at (suc n) (suc room) c =
      rw (sub-zero (suc room)) (no_entries timer_at n (suc room) (c + 1))

  -- Without a clock, a snapshot of a system that was reset is that of a system that has no tasks and
  -- ran nothing, whatever the state before: all but the peak of the heap, which stays.
  pub snapshot-reset_system :
      {A S C : Type 0} (dflt : A) (capacity n : ℕ) (s : Statics F A S C)
      → snapshot zero_float to_float divide none (reset_system dflt capacity zero_float n s)
        ≡ idle_snapshot n s.profiler.peak_used_bytes
  unfolding snapshot reset_system reset_static fill_tasks reset_depth reset_health peak_depth
      average_depth average shown_total_gap_us shown_max_gap_us shown_tick_count average_gap_us
      get_free_heap_bytes get_stack_high_water_mark
  snapshot-reset_system dflt capacity n s =
      rw
        (
          no_entries s.timer_at n 16 0,
          utilization-reset 4 s.utilizations,
          length-replicate n empty_core,
        )
        refl
