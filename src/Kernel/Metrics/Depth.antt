-- ===== src/Kernel/Metrics/Depth.antt =====
-- utils/QueueDepthMonitor.h. `F` is the source's `float`.
use sputter_os.Prelude.{ℕ, ◌+◌, ◌-◌, if◌then◌else◌, ltb, leb}
use sputter_os.Kernel.Metrics.Deadline.{wrap64}
use sputter_os.Kernel.Metrics.Timer.{wrap32, average}

pub record DepthMonitor (F : Type 0) : Type 0 where
  pub last_depth : ℕ
  pub max_depth : ℕ
  pub sum_depth : ℕ
  pub sample_count : ℕ
  pub window_us : ℕ
  pub window_start_us : ℕ
  pub reported_max_depth : ℕ
  pub reported_avg_depth : F
  pub reported_sample_count : ℕ

module _ {F : Type 0} (zero_float : F) (to_float : ℕ → F) (divide : F → F → F) where
  unfoldable pub rotate_depth : DepthMonitor F → ℕ → DepthMonitor F
  rotate_depth m now = record m {
    reported_max_depth = m.max_depth;
    reported_sample_count = m.sample_count;
    reported_avg_depth = average zero_float to_float divide m.sum_depth m.sample_count;
    max_depth = 0;
    sum_depth = 0;
    sample_count = 0;
    window_start_us = now;
  }

  -- `sample`, once the depth is counted: the window ends or goes on.
  unfoldable pub close_depth_window : DepthMonitor F → ℕ → DepthMonitor F
  close_depth_window m now =
      if ltb 0 m.window_us
      then (if leb m.window_start_us now
          then (if leb m.window_us (now - m.window_start_us) then rotate_depth m now else m)
          else m)
      else m

  unfoldable pub sample_depth : DepthMonitor F → ℕ → ℕ → DepthMonitor F
  sample_depth m depth now =
      close_depth_window
        (record m {
          last_depth = depth;
          max_depth = (if ltb m.max_depth depth then depth else m.max_depth);
          sum_depth = wrap64 (m.sum_depth + depth);
          sample_count = wrap32 (m.sample_count + 1);
        })
        now

  unfoldable pub average_depth : DepthMonitor F → F
  average_depth m =
      if ltb 0 m.reported_sample_count
      then m.reported_avg_depth
      else average zero_float to_float divide m.sum_depth m.sample_count

module _ {F : Type 0} where
  -- `maxDepth`
  unfoldable pub peak_depth : DepthMonitor F → ℕ
  peak_depth m = if ltb 0 m.reported_sample_count then m.reported_max_depth else m.max_depth

  -- `sampleCount`
  unfoldable pub depth_samples : DepthMonitor F → ℕ
  depth_samples m =
      if ltb 0 m.reported_sample_count then m.reported_sample_count else m.sample_count

  -- `setMetricsWindowUs`
  unfoldable pub set_depth_window : DepthMonitor F → ℕ → DepthMonitor F
  set_depth_window m window_us = record m { window_us = window_us }

  -- `reset`, which leaves the window's length.
  unfoldable pub reset_depth : F → DepthMonitor F → DepthMonitor F
  reset_depth zero_float m = record m {
    last_depth = 0;
    max_depth = 0;
    sum_depth = 0;
    sample_count = 0;
    window_start_us = 0;
    reported_max_depth = 0;
    reported_avg_depth = zero_float;
    reported_sample_count = 0;
  }
