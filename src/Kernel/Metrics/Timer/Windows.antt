-- ===== src/Kernel/Metrics/Timer/Windows.antt =====
-- The timer's numbers are those of the durations that it measured in its window.
use sputter_os.Prelude.{
  ℕ, suc, zero, ◌+◌, ◌-◌, ◌%◌, ◌<◌, ◌≡◌, ◌≢◌, ◌⊎◌, inl, inr, refl, arith, true, false, List, [],
  ◌∷◌, Option, if◌then◌else◌, ltb, ◌==◌, get_or, set, get_or-set_self, replicate, sym,
  get_or-set_ne, length-set, length, Bool-cases,
}
use sputter_os.Kernel.Metrics.Timer.{
  Tally, Report, TaskTimer, empty_tally, micros_max, wrap32, bucket_of, add_sample, average,
  rotate_window, is_window_over, stop, elapsed_us, reading,
}

unfoldable pub longest : List ℕ → ℕ
longest [] = 0
longest (d ∷ ds) = let m = longest ds in if ltb m d then d else m

unfoldable pub shortest : List ℕ → ℕ
shortest [] = micros_max
shortest (d ∷ ds) = let m = shortest ds in if ltb d m then d else m

unfoldable pub total : List ℕ → ℕ
total [] = 0
total (d ∷ ds) = total ds + d

-- How many of the durations belong to a bucket.
unfoldable pub in_bucket : ℕ → List ℕ → ℕ
in_bucket i [] = 0
in_bucket i (d ∷ ds) = let n = in_bucket i ds in if i == bucket_of d then n + 1 else n

-- The accumulators stand for the durations `ds`, the newest first. The counters wrap at their widths.
pub record Shows (t : Tally) (ds : List ℕ) : Type 0 where
  pub maximum : t.max_duration ≡ longest ds
  pub minimum : t.min_duration ≡ shortest ds
  pub sum : t.sum_duration_us ≡ total ds % 18446744073709551616
  pub count : t.sample_count ≡ length ds % 4294967296
  pub buckets : length t.histogram ≡ 8
  pub bucket : (i : ℕ) → i < 8 → get_or t.histogram i 0 ≡ in_bucket i ds % 4294967296

bucket_of-lt : (d : ℕ) → bucket_of d < 8
bucket_of-lt d = ground arith

get_or-replicate : (n i a : ℕ) → get_or (replicate n a) i a ≡ a
get_or-replicate zero i a = refl
get_or-replicate (suc n) zero a = refl
get_or-replicate (suc n) (suc i) a = get_or-replicate n i a

-- One more in bucket `b`.
bump :
    (hist : List ℕ) (b i n : ℕ)
    → b < length hist
    → get_or hist i 0 ≡ n % 4294967296
    → get_or (set hist b (wrap32 (get_or hist b 0 + 1))) i 0
      ≡ (if i == b then n + 1 else n) % 4294967296
bump hist b i n h e = elim (Bool-cases (i == b)) [
  | inl q ↦
      let q' : i ≡ b = ground arith in
      rw q (
        rw q' (
          rw (get_or-set_self hist b (wrap32 (get_or hist b 0 + 1)) 0 h)
            (rw (sym q') (rw e (omega arith)))))
  | inr q ↦
      let q' : b ≢ i = ground arith in
      rw q (rw (get_or-set_ne hist b i (wrap32 (get_or hist b 0 + 1)) 0 q') e)
]

pub empty_tally-Shows : Shows empty_tally []
unfolding longest shortest total in_bucket
empty_tally-Shows = record {
  maximum = refl;
  minimum = refl;
  sum = refl;
  count = refl;
  buckets = refl;
  bucket = λ i h. get_or-replicate 8 i 0;
}

bucket-add_sample :
    (t : Tally) (ds : List ℕ) (d i : ℕ)
    → Shows t ds
    → i < 8
    → get_or (add_sample t d).histogram i 0 ≡ in_bucket i (d ∷ ds) % 4294967296
unfolding add_sample in_bucket
bucket-add_sample t ds d i s h =
    bump t.histogram (bucket_of d) i (in_bucket i ds) (rw s.buckets (bucket_of-lt d)) (s.bucket i h)

add_sample-Shows : (t : Tally) (ds : List ℕ) (d : ℕ) → Shows t ds → Shows (add_sample t d) (d ∷ ds)
unfolding add_sample longest shortest total
add_sample-Shows t ds d s = record {
  maximum = rw (s.maximum) refl;
  minimum = rw (s.minimum) refl;
  sum = rw (s.sum) (omega arith);
  count = rw (s.count) (omega arith);
  buckets =
      rw (length-set t.histogram (bucket_of d) (wrap32 (get_or t.histogram (bucket_of d) 0 + 1)))
        s.buckets;
  bucket = λ i h. bucket-add_sample t ds d i s h;
}

elapsed_us-minus : {F : Type 0} (t : TaskTimer F) (now : ℕ) → elapsed_us t now ≡ now - t.start_us
unfolding elapsed_us
elapsed_us-minus t now = ground arith

module _ {F : Type 0} (zero_float : F) (to_float : ℕ → F) (divide : F → F → F) where
  -- The report of a window in which the durations `ds` were measured.
  pub record Reports (r : Report F) (ds : List ℕ) : Type 0 where
    pub count : r.reported_sample_count ≡ length ds % 4294967296
    pub maximum : r.reported_max_duration ≡ longest ds
    pub minimum : r.reported_min_duration ≡ shortest ds
    pub mean :
        r.reported_avg_us
        ≡ average zero_float to_float divide
            (total ds % 18446744073709551616)
            (length ds % 4294967296)
    pub bucket : (i : ℕ) → i < 8 → get_or r.reported_histogram i 0 ≡ in_bucket i ds % 4294967296

  rotate_window-Reports :
      (t : TaskTimer F) (now : ℕ) (ds : List ℕ)
      → Shows t.tally ds
      → Reports (rotate_window zero_float to_float divide t now).report ds
  unfolding rotate_window
  rotate_window-Reports t now ds s = record {
    count = s.count;
    maximum = s.maximum;
    minimum = s.minimum;
    mean = rw (s.sum, s.count) refl;
    bucket = s.bucket;
  }

  -- `stop` measures the time since `start`, or 0 if the clock went back, and counts it among the
  -- durations of the window. If the window's time is up, these become the report, with the extremes,
  -- the mean and the histogram of exactly these durations, and an empty window begins at the present;
  -- otherwise the report stays.
  pub stop-Shows :
      (t : TaskTimer F) (clock : Option ℕ) (ds : List ℕ)
      → Shows t.tally ds
      → let t' = stop zero_float to_float divide t clock in
        let d = reading clock - t.start_us in
        (t'.last_duration ≡ d)
        × (((is_window_over t (reading clock) ≡ false)
              × Shows t'.tally (d ∷ ds)
              × (t'.report ≡ t.report))
            ⊎ ((is_window_over t (reading clock) ≡ true)
                × Shows t'.tally []
                × Reports t'.report (d ∷ ds)
                × (t'.window_start_us ≡ reading clock)))
  unfolding stop is_window_over rotate_window
  stop-Shows t clock ds s =
      let now = reading clock in
      let t' = record t {
        last_duration = elapsed_us t now;
        tally = add_sample t.tally (elapsed_us t now);
      } in
      let e = elapsed_us-minus t now in
      let shows : Shows (add_sample t.tally (elapsed_us t now)) ((now - t.start_us) ∷ ds) =
        rw e (add_sample-Shows t.tally ds (now - t.start_us) s) in
      elim (Bool-cases (is_window_over t now)) [
        | inl up ↦ rw up (
          e,
          inr (
            refl,
            empty_tally-Shows,
            rotate_window-Reports t' now ((now - t.start_us) ∷ ds) shows,
            refl,
          ),
        )
        | inr same ↦ rw same (e, inl (refl, shows, refl))
      ]
