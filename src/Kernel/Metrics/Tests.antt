-- ===== src/Kernel/Metrics/Tests.antt =====
-- The metrics' theorems at concrete inputs. A `float` is a natural number here.
use sputter_os.Prelude.{
  ◌-◌, leb, replicate, ℕ, suc, ◌+◌, ◌*◌, ◌/◌, ◌≤◌, ◌<◌, ◌≡◌, ◌⊎◌, refl, arith, true, false, [], ◌∷◌,
  some,
}
use sputter_os.Kernel.Metrics.Deadline.{
  DeadlineTracker, skip_missed, advance, is_due, time_until_next,
}
use sputter_os.Kernel.Metrics.Deadline.Laws.{advance_on_grid}
use sputter_os.Kernel.Metrics.Timer.{
  max_duration_us, samples, TaskTimer, empty_tally, micros_max, stop, is_window_over,
}
use sputter_os.Kernel.Snapshot.{timer_histogram}
use sputter_os.Kernel.Metrics.Timer.Percentile.{percentile_us, walk_buckets, within_bucket}
use sputter_os.Kernel.Metrics.Timer.Windows.{Shows, Reports, empty_tally-Shows, stop-Shows}

-- Every 10 µs, and two activations behind at 37.
abbrev late : DeadlineTracker
late = record { next_activation = 15; period_us = 10; phase_offset_us = 5 }

advance-late : advance 38 late 37 ≡ some (record late { next_activation = 45 })
unfolding advance skip_missed
advance-late = refl

advance_on_grid_example :
    (t' : DeadlineTracker) × (k : ℕ) × (advance 38 late 37 ≡ some t')
    × (t' ≡ record late { next_activation = 15 + suc k * 10 })
    × (is_due t' 37 ≡ false)
    × (0 < time_until_next t' 37)
    × ((t'.next_activation ≡ 25) ⊎ (time_until_next t' 37 ≤ 10))
advance_on_grid_example = advance_on_grid late 37 (omega arith) (omega arith) (omega arith)

-- Started at 100, in a window of 50 µs that began at 60.
abbrev running_timer : TaskTimer ℕ
running_timer = record {
  last_duration = 0;
  start_us = 100;
  tally = empty_tally;
  window_us = 50;
  window_start_us = 60;
  report = record {
    reported_sample_count = 0;
    reported_min_duration = micros_max;
    reported_max_duration = 0;
    reported_avg_us = 0;
    reported_overruns = 0;
    reported_misses = 0;
    reported_histogram = [];
  };
}

abbrev divide : ℕ → ℕ → ℕ
divide a b = a / b

stop-Shows_example :
    ((stop 0 (λ n. n) divide running_timer (some 112)).last_duration ≡ 12)
    × (((is_window_over running_timer 112 ≡ false)
          × Shows (stop 0 (λ n. n) divide running_timer (some 112)).tally (12 ∷ [])
          × ((stop 0 (λ n. n) divide running_timer (some 112)).report ≡ running_timer.report))
        ⊎ ((is_window_over running_timer 112 ≡ true)
            × Shows (stop 0 (λ n. n) divide running_timer (some 112)).tally []
            × Reports 0
                (λ n. n)
                divide
                (stop 0 (λ n. n) divide running_timer (some 112)).report
                (12 ∷ [])
            × ((stop 0 (λ n. n) divide running_timer (some 112)).window_start_us ≡ 112)))
stop-Shows_example = stop-Shows 0 (λ n. n) divide running_timer (some 112) [] empty_tally-Shows

-- Half of four samples of the first bucket, with a `float` in thousandths.
abbrev four_samples : TaskTimer ℕ
four_samples = record {
  last_duration = 12;
  start_us = 0;
  tally = empty_tally;
  window_us = 5000;
  window_start_us = 0;
  report = record {
    reported_sample_count = 4;
    reported_min_duration = 1;
    reported_max_duration = 400;
    reported_avg_us = 2;
    reported_overruns = 0;
    reported_misses = 0;
    reported_histogram = 4 ∷ replicate 7 0;
  };
}

median_shown :
    percentile_us 0 1000
      (λ a b. leb b a)
      (λ n. n * 1000)
      (λ a b. a - b)
      (λ a b. a * b / 1000)
      (λ a b. a * 1000 / b)
      (λ a. a / 1000)
      four_samples
      500
    ≡ 256
unfolding percentile_us walk_buckets within_bucket samples max_duration_us timer_histogram
median_shown = refl
