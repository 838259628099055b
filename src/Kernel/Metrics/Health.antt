-- ===== src/Kernel/Metrics/Health.antt =====
-- kernel/metrics/CoreUtilizationTracker.h and SchedulerHealthMetrics.h. `F` is the source's `float`.
pub mod Bounds
use sputter_os.Prelude.{ℕ, ◌+◌, ◌-◌, Bool, if◌then◌else◌, ltb, leb, ◌==◌}
use sputter_os.Kernel.Metrics.Deadline.{wrap64}
use sputter_os.Kernel.Metrics.Timer.{wrap32, average}

abbrev pub window_ticks : ℕ
window_ticks = 1000

pub record Utilization : Type 0 where
  pub tick_start : ℕ
  pub busy_us : ℕ
  pub total_us : ℕ
  pub tick_count : ℕ
  pub reported_busy_us : ℕ
  pub reported_total_us : ℕ
  pub reported_ticks : ℕ

unfoldable pub record_tick_start : Utilization → ℕ → Utilization
record_tick_start u now = record u { tick_start = now }

-- The rotation at the end of `recordTickEnd`.
unfoldable pub close_tick_window : Utilization → Utilization
close_tick_window u =
    if leb window_ticks u.tick_count
    then record u {
      reported_busy_us = u.busy_us;
      reported_total_us = u.total_us;
      reported_ticks = u.tick_count;
      busy_us = 0;
      total_us = 0;
      tick_count = 0;
    }
    else u

unfoldable pub record_tick_end : Utilization → ℕ → ℕ → Utilization
record_tick_end u now busy =
    let wall_time = if leb u.tick_start now then now - u.tick_start else 0 in
    close_tick_window (record u {
      busy_us = wrap64 (u.busy_us + busy);
      total_us = wrap64 (u.total_us + wall_time);
      tick_count = wrap32 (u.tick_count + 1);
    })

unfoldable pub get_busy_us : Utilization → ℕ
get_busy_us u = if ltb 0 u.reported_total_us then u.reported_busy_us else u.busy_us

unfoldable pub get_window_us : Utilization → ℕ
get_window_us u = if ltb 0 u.reported_total_us then u.reported_total_us else u.total_us

pub record Health (F : Type 0) : Type 0 where
  pub total_gap_us : ℕ
  pub max_gap_us : ℕ
  pub gap_ticks : ℕ
  pub total_overruns : ℕ
  pub total_deadline_misses : ℕ
  pub window_us : ℕ
  pub window_start_us : ℕ
  pub reported_total_gap_us : ℕ
  pub reported_max_gap_us : ℕ
  pub reported_avg_gap_us : F
  pub reported_tick_count : ℕ

module _ {F : Type 0} (zero_float : F) (to_float : ℕ → F) (divide : F → F → F) where
  unfoldable pub rotate_health : Health F → ℕ → Health F
  rotate_health h now = record h {
    reported_total_gap_us = h.total_gap_us;
    reported_max_gap_us = h.max_gap_us;
    reported_tick_count = h.gap_ticks;
    reported_avg_gap_us = average zero_float to_float divide h.total_gap_us h.gap_ticks;
    total_gap_us = 0;
    max_gap_us = 0;
    gap_ticks = 0;
    window_start_us = now;
  }

  unfoldable pub close_gap_window : Health F → ℕ → Health F
  close_gap_window h now =
      if ltb 0 h.window_us
      then (if leb h.window_start_us now
          then (if leb h.window_us (now - h.window_start_us) then rotate_health h now else h)
          else h)
      else h

  unfoldable pub record_gap : Health F → ℕ → ℕ → Health F
  record_gap h gap now =
      close_gap_window
        (record h {
          max_gap_us = (if ltb h.max_gap_us gap then gap else h.max_gap_us);
          total_gap_us = wrap64 (h.total_gap_us + gap);
          gap_ticks = wrap32 (h.gap_ticks + 1);
        })
        now

  -- `getUtilization`
  unfoldable pub get_utilization : Utilization → F
  get_utilization u =
      if get_window_us u == 0
      then zero_float
      else divide (to_float (get_busy_us u)) (to_float (get_window_us u))

  -- `averageGapUs`
  unfoldable pub average_gap_us : Health F → F
  average_gap_us h =
      if ltb 0 h.reported_tick_count
      then h.reported_avg_gap_us
      else average zero_float to_float divide h.total_gap_us h.gap_ticks

-- `getTickCount`
unfoldable pub get_tick_count : Utilization → ℕ
get_tick_count u = if ltb 0 u.reported_total_us then u.reported_ticks else u.tick_count

-- `CoreUtilizationTracker::reset`
unfoldable pub reset_utilization : Utilization → Utilization
reset_utilization u = record {
  tick_start = 0;
  busy_us = 0;
  total_us = 0;
  tick_count = 0;
  reported_busy_us = 0;
  reported_total_us = 0;
  reported_ticks = 0;
}

module _ {F : Type 0} where
  -- `totalGapUs`
  unfoldable pub shown_total_gap_us : Health F → ℕ
  shown_total_gap_us h =
      if ltb 0 h.reported_tick_count then h.reported_total_gap_us else h.total_gap_us

  -- `maxGapUs`
  unfoldable pub shown_max_gap_us : Health F → ℕ
  shown_max_gap_us h = if ltb 0 h.reported_tick_count then h.reported_max_gap_us else h.max_gap_us

  -- `tickCount`
  unfoldable pub shown_tick_count : Health F → ℕ
  shown_tick_count h = if ltb 0 h.reported_tick_count then h.reported_tick_count else h.gap_ticks

  -- `setMetricsWindowUs`
  unfoldable pub set_health_window : Health F → ℕ → Health F
  set_health_window h window_us = record h { window_us = window_us }

  -- `SchedulerHealthMetrics::reset`, which leaves the window's length.
  unfoldable pub reset_health : F → Health F → Health F
  reset_health zero_float h = record h {
    total_gap_us = 0;
    max_gap_us = 0;
    gap_ticks = 0;
    total_overruns = 0;
    total_deadline_misses = 0;
    window_start_us = 0;
    reported_total_gap_us = 0;
    reported_max_gap_us = 0;
    reported_avg_gap_us = zero_float;
    reported_tick_count = 0;
  }
