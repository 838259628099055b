-- ===== src/Logging/Report/Tests.antt =====
-- Reports at concrete inputs.
use sputter_os.Prelude.{ℕ, ◌+◌, ◌-◌, ◌*◌, ◌<◌, true, false, [], ◌∷◌, ◌≡◌, refl, arith, length, take}
use sputter_os.Logging.Text.{FloatArith, low_digits, render_u32}
use sputter_os.Protocol.Responses.{PerformanceSnapshot}
use sputter_os.Logging.Report.{
  codes, put_part, put_parts, put_str, put_u64, put_char, key_value_parts, core_parts, float_parts,
  magnitude_parts, tasks_lines, csv_parts, format_key_value, format_csv,
}
use sputter_os.Logging.Report.Truncation.{whole_text, reports_truncate}

abbrev halves : FloatArith ℕ
halves = record {
  is_negative = λ v. false;
  negate = λ v. v;
  add = λ v w. v + w;
  sub = λ v w. v - w;
  mul = λ v w. v * w;
  div = λ v w. v;
  to_u32 = λ v. v;
  of_u32 = λ v. v;
  one = 1;
  ten = 10;
  half = 0;
}

abbrev idle_system : PerformanceSnapshot ℕ
idle_system = record {
  timestamp = 1234;
  core_count = 1;
  core_utilization = 7 ∷ 0 ∷ 0 ∷ 0 ∷ [];
  queue_depth = 0;
  queue_max_depth = 0;
  queue_avg_depth = 0;
  peak_heap_used = 0;
  free_heap = 0;
  stack_high_water = 0;
  total_gap_us = 0;
  max_gap_us = 0;
  avg_gap_us = 0;
  scheduler_tick_count = 0;
  total_overruns = 0;
  total_deadline_misses = 0;
  task_count = 0;
  tasks = [];
}

-- Seventeen places keep the first line and leave the terminating zero its own.
first_line_run : format_key_value halves idle_system true 17 ≡ codes "timestamp=1234\nc"
unfolding format_key_value put_parts put_part put_str put_u64 put_char key_value_parts core_parts
    float_parts magnitude_parts tasks_lines render_u32 low_digits
first_line_run = refl

reports_truncate_example :
    let kv = format_key_value halves idle_system true 17 in
    let csv = format_csv halves idle_system true 17 in
    ((kv ≡ take 16 (whole_text (key_value_parts halves idle_system))) × (length kv < 17))
    × ((csv ≡ take 16 (whole_text (csv_parts halves idle_system))) × (length csv < 17))
reports_truncate_example = reports_truncate halves idle_system 17 (omega arith)
