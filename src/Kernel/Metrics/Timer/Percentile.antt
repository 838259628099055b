-- ===== src/Kernel/Metrics/Timer/Percentile.antt =====
-- `TaskTimer::percentileUs` of kernel/metrics/TaskTimer.h. The arithmetic of `float` is a parameter: `reaches a b`
-- is `a >= b`, and `truncate` the conversion to an unsigned number.
use sputter_os.Prelude.{ℕ, ◌+◌, ◌-◌, ◌*◌, Bool, List, [], ◌∷◌, if◌then◌else◌, ltb, ◌==◌}
use sputter_os.Kernel.Metrics.Deadline.{wrap64}
use sputter_os.Kernel.Metrics.Timer.{
  TaskTimer, wrap32, samples, max_duration_us, histogram_buckets, bucket_width_us,
}
use sputter_os.Kernel.Snapshot.{timer_histogram}

module _ {F : Type 0} (zero_float one_float : F) (reaches : F → F → Bool) (to_float : ℕ → F)
    (minus times divide : F → F → F) (truncate : F → ℕ) where
  -- The interpolation within bucket `i` of `count` samples, where `cumulative` are counted with it.
  unfoldable pub within_bucket : F → ℕ → ℕ → ℕ → ℕ → ℕ
  within_bucket target max_dur i count cumulative =
      let prev = wrap32 (cumulative + 4294967296 - count) in
      let fraction =
        if ltb 0 count
        then divide (minus target (to_float prev)) (to_float count)
        else zero_float in
      let low = i * bucket_width_us in
      let end = if ltb i (histogram_buckets - 1) then (i + 1) * bucket_width_us else max_dur in
      let high = if ltb end low then low else end in
      wrap64 (low + truncate (times fraction (to_float (high - low))))

  -- The walk over the buckets, from bucket `i` on.
  unfoldable pub walk_buckets : F → ℕ → ℕ → ℕ → List ℕ → ℕ
  walk_buckets target max_dur i cumulative [] = max_dur
  walk_buckets target max_dur i cumulative (count ∷ counts) =
      let cumulative' = wrap32 (cumulative + count) in
      let rest = walk_buckets target max_dur (i + 1) cumulative' counts in
      if reaches (to_float cumulative') target
      then within_bucket target max_dur i count cumulative'
      else rest

  unfoldable pub percentile_us : TaskTimer F → F → ℕ
  percentile_us t p =
      let n = samples t in
      let walked =
        walk_buckets (times p (to_float n)) (max_duration_us t) 0 0 (timer_histogram t) in
      if n == 0
      then 0
      else if reaches zero_float p
      then 0
      else if reaches p one_float
      then max_duration_us t
      else walked
