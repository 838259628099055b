-- ===== src/Kernel/Diagnostics/Tests.antt =====
-- The hundredth tick of a diagnostics task that watches three tasks, two of them above their budget.
use sputter_os.Prelude.{ℕ, ◌+◌, ◌%◌, ◌≡◌, refl, arith, [], ◌∷◌, none, some, replicate}
use sputter_os.Logging.Errors.{soft_abort}
use sputter_os.Kernel.Metrics.Timer.{TaskTimer, empty_tally, micros_max}
use sputter_os.Kernel.Diagnostics.{
  Diagnostics, mem_check_interval, reset_profiler, tick_diagnostics,
}
use sputter_os.Kernel.Diagnostics.Alarms.{log_all, over_budget, entries, tick_diagnostics-entries}

abbrev same : ℕ → ℕ
same n = n

abbrev timer : ℕ → TaskTimer ℕ
timer duration = record {
  last_duration = duration;
  start_us = 0;
  tally = empty_tally;
  window_us = 60000000;
  window_start_us = 0;
  report = record {
    reported_sample_count = 0;
    reported_min_duration = micros_max;
    reported_max_duration = 0;
    reported_avg_us = 0;
    reported_overruns = 0;
    reported_misses = 0;
    reported_histogram = replicate 8 0;
  };
}

abbrev watching : Diagnostics ℕ ℕ
watching = record {
  errors = record {
    buf = replicate 33 (record { code = soft_abort; timestamp = 0; value = 0 });
    head = 0;
    tail = 0;
  };
  profiler = reset_profiler;
  timers = timer 12 ∷ timer 5 ∷ timer 40 ∷ [];
  control_budget = 10;
  tick_count = 99;
  health = none;
  telemetry = none;
  written = [];
  world = 0;
}

durations : over_budget 10 watching.timers ≡ 12 ∷ 40 ∷ []
unfolding over_budget
durations = refl

tick_diagnostics-entries_example :
    let d' = tick_diagnostics same (some (λ w. w + 1)) watching in
    (d'.errors
      ≡ log_all watching.errors
          (entries {W = ℕ} same (some (λ w. w + 1)) 99 (over_budget 10 watching.timers)))
    × (d'.tick_count ≡ (99 + 1) % mem_check_interval)
    × (d'.profiler ≡ reset_profiler)
tick_diagnostics-entries_example =
    tick_diagnostics-entries same (some (λ w. w + 1)) watching 99 refl (omega arith)
