-- ===== src/Kernel/Metrics/Timer.antt =====
-- kernel/metrics/TaskTimer.h. `F` is the source's `float`. A reading of the clock is `none` where no
-- clock source is set. The accumulators of the current window and those of the last complete one are
-- records of their own.
pub mod Windows
pub mod Percentile
use sputter_os.Prelude.{
  ℕ, ◌+◌, ◌-◌, ◌/◌, ◌%◌, Bool, true, false, ◌&&◌, List, Option, none, some, if◌then◌else◌, ltb, leb,
  ◌==◌, get_or, set, replicate,
}
use sputter_os.Kernel.Metrics.Deadline.{wrap64}

abbrev pub wrap32 : ℕ → ℕ
wrap32 n = n % 4294967296

abbrev pub histogram_buckets : ℕ
histogram_buckets = 8

abbrev pub bucket_width_us : ℕ
bucket_width_us = 512

-- `std::numeric_limits<SputterMicros>::max()`
abbrev pub micros_max : ℕ
micros_max = 18446744073709551615

pub record Tally : Type 0 where
  pub min_duration : ℕ
  pub max_duration : ℕ
  pub sum_duration_us : ℕ
  pub sample_count : ℕ
  pub overrun_count : ℕ
  pub deadline_miss_count : ℕ
  pub histogram : List ℕ

pub record Report (F : Type 0) : Type 0 where
  pub reported_sample_count : ℕ
  pub reported_min_duration : ℕ
  pub reported_max_duration : ℕ
  pub reported_avg_us : F
  pub reported_overruns : ℕ
  pub reported_misses : ℕ
  pub reported_histogram : List ℕ

pub record TaskTimer (F : Type 0) : Type 0 where
  pub last_duration : ℕ
  pub start_us : ℕ
  pub tally : Tally
  pub window_us : ℕ
  pub window_start_us : ℕ
  pub report : Report F

-- The accumulators of a window that begins.
abbrev pub empty_tally : Tally
empty_tally = record {
  min_duration = micros_max;
  max_duration = 0;
  sum_duration_us = 0;
  sample_count = 0;
  overrun_count = 0;
  deadline_miss_count = 0;
  histogram = replicate 8 0;
}

abbrev pub reading : Option ℕ → ℕ
reading none = 0
reading (some now) = now

abbrev pub bucket_of : ℕ → ℕ
bucket_of elapsed =
    let bucket = elapsed / bucket_width_us in
    if leb histogram_buckets bucket then histogram_buckets - 1 else bucket

-- The part of `stop` that counts one duration.
unfoldable pub add_sample : Tally → ℕ → Tally
add_sample t elapsed = record t {
  max_duration = (if ltb t.max_duration elapsed then elapsed else t.max_duration);
  min_duration = (if ltb elapsed t.min_duration then elapsed else t.min_duration);
  sum_duration_us = wrap64 (t.sum_duration_us + elapsed);
  sample_count = wrap32 (t.sample_count + 1);
  histogram =
      set t.histogram (bucket_of elapsed) (wrap32 (get_or t.histogram (bucket_of elapsed) 0 + 1));
}

module _ {F : Type 0} where
  -- The condition of the rotation in `stop`.
  unfoldable pub is_window_over : TaskTimer F → ℕ → Bool
  is_window_over t now =
      if ltb 0 t.window_us
      then (if leb t.window_start_us now then leb t.window_us (now - t.window_start_us) else false)
      else false

  unfoldable pub start : TaskTimer F → Option ℕ → TaskTimer F
  start t clock = record t { start_us = reading clock }

  unfoldable pub elapsed_us : TaskTimer F → ℕ → ℕ
  elapsed_us t now = if leb t.start_us now then now - t.start_us else 0

  unfoldable pub record_overrun : TaskTimer F → TaskTimer F
  record_overrun t = record t {
    tally = record t.tally { overrun_count = wrap32 (t.tally.overrun_count + 1) };
  }

  unfoldable pub record_deadline_miss : TaskTimer F → TaskTimer F
  record_deadline_miss t = record t {
    tally = record t.tally { deadline_miss_count = wrap32 (t.tally.deadline_miss_count + 1) };
  }

  -- What the getters choose: the last complete window once there is one with samples in it.
  unfoldable pub max_duration_us : TaskTimer F → ℕ
  max_duration_us t =
      if ltb 0 t.report.reported_sample_count
      then t.report.reported_max_duration
      else t.tally.max_duration

  unfoldable pub min_duration_us : TaskTimer F → ℕ
  min_duration_us t =
      if ltb 0 t.report.reported_sample_count
      then t.report.reported_min_duration
      else t.tally.min_duration

  unfoldable pub samples : TaskTimer F → ℕ
  samples t =
      if ltb 0 t.report.reported_sample_count
      then t.report.reported_sample_count
      else t.tally.sample_count

module _ {F : Type 0} (zero_float : F) (to_float : ℕ → F) (divide : F → F → F) where
  unfoldable pub average : ℕ → ℕ → F
  average sum samples =
      if samples == 0 then zero_float else divide (to_float sum) (to_float samples)

  unfoldable pub rotate_window : TaskTimer F → ℕ → TaskTimer F
  rotate_window t now = record t {
    report = record {
      reported_sample_count = t.tally.sample_count;
      reported_min_duration = t.tally.min_duration;
      reported_max_duration = t.tally.max_duration;
      reported_avg_us = average t.tally.sum_duration_us t.tally.sample_count;
      reported_overruns = t.tally.overrun_count;
      reported_misses = t.tally.deadline_miss_count;
      reported_histogram = t.tally.histogram;
    };
    tally = empty_tally;
    window_start_us = now;
  }

  unfoldable pub stop : TaskTimer F → Option ℕ → TaskTimer F
  stop t clock =
      let now = reading clock in
      let elapsed = elapsed_us t now in
      let t' = record t { last_duration = elapsed; tally = add_sample t.tally elapsed } in
      if is_window_over t' now then rotate_window t' now else t'

  unfoldable pub average_us : TaskTimer F → F
  average_us t =
      if ltb 0 t.report.reported_sample_count
      then t.report.reported_avg_us
      else average t.tally.sum_duration_us t.tally.sample_count
