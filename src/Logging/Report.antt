-- ===== src/Logging/Report.antt =====
-- src/utils/PerformanceFormatter.cpp. A report is a run of appends to one buffer; `out` is the buffer up
-- to `pos`, whose length the functions return. The terminating zero follows it.
pub mod Truncation
mod Tests
use Prim.Native.Char.{code}
use Prim.Native.String.{String}
use sputter_os.Prelude.{
  ℕ, zero, suc, ◌+◌, ◌-◌, ◌*◌, ◌/◌, ◌%◌, Bool, true, false, ◌||◌, not, List, [], ◌∷◌, ◌++◌,
  if◌then◌else◌, ltb, leb, length, take,
}
use sputter_os.Logging.Text.{FloatArith, render_u32}
use sputter_os.Protocol.Responses.{TaskSnapshot, PerformanceSnapshot}

-- The characters of a literal.
abbrev pub codes : String → List ℕ
codes String.[] = []
codes (String.◌∷◌ c s) = code c ∷ codes s

-- One append: `appendStr`, `appendU64` or `appendU32`, and `appendChar`.
pub data Part : Type 0 where
  lit : List ℕ → Part
  num : ℕ → Part
  chr : ℕ → Part

unfoldable pub put_str : ℕ → List ℕ → List ℕ → List ℕ
put_str buf_len out [] = out
put_str buf_len out (c ∷ cs) =
    let rest = put_str buf_len (out ++ c ∷ []) cs in
    if ltb (length out + 1) buf_len then rest else out

unfoldable pub put_char : ℕ → List ℕ → ℕ → List ℕ
put_char buf_len out c = if ltb (length out + 1) buf_len then out ++ c ∷ [] else out

-- The 21 places of the temporary buffer hold every 64-bit number.
unfoldable pub put_u64 : ℕ → List ℕ → ℕ → List ℕ
put_u64 buf_len out val = put_str buf_len out (render_u32 21 val)

unfoldable pub put_part : ℕ → List ℕ → Part → List ℕ
put_part buf_len out (Part.lit s) = put_str buf_len out s
put_part buf_len out (Part.num val) = put_u64 buf_len out val
put_part buf_len out (Part.chr c) = put_char buf_len out c

unfoldable pub put_parts : ℕ → List ℕ → List Part → List ℕ
put_parts buf_len out [] = out
put_parts buf_len out (p ∷ ps) = put_parts buf_len (put_part buf_len out p) ps

abbrev pub u32 : ℕ → Part
u32 n = Part.num (n % 4294967296)

abbrev pub comma : Part
comma = Part.chr b','

abbrev pub end_line : Part
end_line = Part.chr 10

-- `KV_U64` and `KV_U32` on a key with its `=`.
abbrev pub kv_u64 : String → ℕ → List Part
kv_u64 key val = Part.lit (codes key) ∷ Part.num val ∷ end_line ∷ []

abbrev pub kv_u32 : String → ℕ → List Part
kv_u32 key val = Part.lit (codes key) ∷ u32 val ∷ end_line ∷ []

-- The prefix of a task's keys, "tN_" or "tNN_".
unfoldable pub task_prefix : ℕ → List ℕ
task_prefix i =
    let last = (b'0' + i % 10) ∷ b'_' ∷ [] in
    b't' ∷ (if leb 10 i then (b'0' + i / 10) ∷ last else last)

abbrev pub commas : List ℕ → List Part
commas [] = []
commas (n ∷ ns) = comma ∷ Part.num n ∷ commas ns

-- The histogram's loop, which puts a comma before all but the first bucket.
abbrev pub histogram_parts : List ℕ → List Part
histogram_parts [] = []
histogram_parts (n ∷ ns) = Part.num n ∷ commas ns

module _ {F : Type 0} (fl : FloatArith F) where
  unfoldable pub magnitude_parts : F → List Part
  magnitude_parts val =
      let int_part = fl.to_u32 val in
      let frac = fl.sub val (fl.of_u32 int_part) in
      let rounded = fl.to_u32 (fl.add (fl.mul frac (fl.of_u32 1000)) fl.half) in
      let frac_int = if leb 1000 rounded then 999 else rounded in
      let ones = (if ltb frac_int 10 then Part.chr b'0' ∷ [] else []) ++ Part.num frac_int ∷ [] in
      let tens = (if ltb frac_int 100 then Part.chr b'0' ∷ [] else []) ++ ones in
      Part.num int_part ∷ Part.chr b'.' ∷ tens

  -- The appends of `appendFloat`; 1000.0f is the conversion of 1000.
  unfoldable pub float_parts : F → List Part
  float_parts val =
      if fl.is_negative val
      then Part.chr b'-' ∷ magnitude_parts (fl.negate val)
      else magnitude_parts val

  abbrev pub kv_float : String → F → List Part
  kv_float key val = Part.lit (codes key) ∷ (float_parts val ++ end_line ∷ [])

  -- The loop over the cores, from core `c` on.
  unfoldable pub core_parts : ℕ → List F → List Part
  core_parts c [] = []
  core_parts c (v ∷ vs) =
      Part.lit (codes "core")
      ∷ u32 c
      ∷ Part.lit (codes "_util=")
      ∷ (float_parts v ++ end_line ∷ core_parts (c + 1) vs)

  -- The lines of task `i`.
  unfoldable pub task_lines : ℕ → TaskSnapshot F → List Part
  task_lines i t =
      let key = λ (k : String). Part.lit (task_prefix i) ∷ Part.lit (codes k) ∷ [] in
      key "core="
      ++ u32 t.core_id
        ∷ end_line
        ∷ (key "last="
            ++ Part.num t.last_us
              ∷ end_line
              ∷ (key "min="
                  ++ Part.num t.min_us
                    ∷ end_line
                    ∷ (key "max="
                        ++ Part.num t.max_us
                          ∷ end_line
                          ∷ (key "avg="
                              ++ (float_parts t.avg_us
                                  ++ end_line
                                    ∷ (key "samples="
                                        ++ Part.num t.samples
                                          ∷ end_line
                                          ∷ (key "overruns="
                                              ++ Part.num t.overruns
                                                ∷ end_line
                                                ∷ (key "misses="
                                                    ++ Part.num t.misses
                                                      ∷ end_line
                                                      ∷ (key "hist="
                                                          ++ (histogram_parts t.histogram
                                                            ++ end_line ∷ []))))))))))

  unfoldable pub tasks_lines : ℕ → List (TaskSnapshot F) → List Part
  tasks_lines i [] = []
  tasks_lines i (t ∷ ts) = task_lines i t ++ tasks_lines (i + 1) ts

  -- The appends of `formatKeyValue`.
  unfoldable pub key_value_parts : PerformanceSnapshot F → List Part
  key_value_parts snap =
      kv_u64 "timestamp=" snap.timestamp
      ++ kv_u32 "cores=" snap.core_count
      ++ core_parts 0 (take snap.core_count (take 4 snap.core_utilization))
      ++ kv_u64 "queue_depth=" snap.queue_depth
      ++ kv_u64 "queue_max=" snap.queue_max_depth
      ++ kv_float "queue_avg=" snap.queue_avg_depth
      ++ kv_u64 "heap_peak=" snap.peak_heap_used
      ++ kv_u64 "heap_free=" snap.free_heap
      ++ kv_u64 "stack_hw=" snap.stack_high_water
      ++ kv_u64 "gap_total=" snap.total_gap_us
      ++ kv_u64 "gap_max=" snap.max_gap_us
      ++ kv_float "gap_avg=" snap.avg_gap_us
      ++ kv_u32 "sched_ticks=" snap.scheduler_tick_count
      ++ kv_u32 "overruns=" snap.total_overruns
      ++ kv_u32 "deadline_misses=" snap.total_deadline_misses
      ++ kv_u32 "task_count=" snap.task_count
      ++ tasks_lines 0 (take snap.task_count (take 16 snap.tasks))

  -- The system row of `formatCSV`.
  unfoldable pub system_row : PerformanceSnapshot F → List Part
  system_row snap =
      Part.num snap.timestamp
      ∷ comma
      ∷ u32 snap.core_count
      ∷ comma
      ∷ Part.num snap.queue_depth
      ∷ comma
      ∷ Part.num snap.queue_max_depth
      ∷ comma
      ∷ (float_parts snap.queue_avg_depth
          ++ comma
            ∷ Part.num snap.peak_heap_used
            ∷ comma
            ∷ Part.num snap.free_heap
            ∷ comma
            ∷ Part.num snap.stack_high_water
            ∷ comma
            ∷ Part.num snap.total_gap_us
            ∷ comma
            ∷ Part.num snap.max_gap_us
            ∷ comma
            ∷ (float_parts snap.avg_gap_us
                ++ comma
                  ∷ Part.num snap.scheduler_tick_count
                  ∷ comma
                  ∷ Part.num snap.total_overruns
                  ∷ comma
                  ∷ Part.num snap.total_deadline_misses
                  ∷ end_line
                  ∷ []))

  unfoldable pub task_row : TaskSnapshot F → List Part
  task_row t =
      u32 t.task_index
      ∷ comma
      ∷ u32 t.core_id
      ∷ comma
      ∷ Part.num t.last_us
      ∷ comma
      ∷ Part.num t.min_us
      ∷ comma
      ∷ Part.num t.max_us
      ∷ comma
      ∷ (float_parts t.avg_us
          ++ comma
            ∷ Part.num t.samples
            ∷ comma
            ∷ Part.num t.overruns
            ∷ comma
            ∷ Part.num t.misses
            ∷ (commas t.histogram ++ end_line ∷ []))

  unfoldable pub task_rows : List (TaskSnapshot F) → List Part
  task_rows [] = []
  task_rows (t ∷ ts) = task_row t ++ task_rows ts

  -- The loop that names the histogram's columns, from bucket `b` on.
  unfoldable pub bucket_names : ℕ → ℕ → List Part
  bucket_names zero b = []
  bucket_names (suc left) b = Part.lit (codes ",h") ∷ u32 b ∷ bucket_names left (b + 1)

  unfoldable pub csv_parts : PerformanceSnapshot F → List Part
  csv_parts snap =
      Part.lit (codes "timestamp,cores,queue_depth,queue_max,queue_avg,")
      ∷ Part.lit (codes "heap_peak,heap_free,stack_hw,")
      ∷ Part.lit (codes "gap_total,gap_max,gap_avg,sched_ticks,overruns,deadline_misses")
      ∷ end_line
      ∷ (system_row snap
          ++ Part.lit (codes "task_idx,core,last,min,max,avg,samples,overruns,misses")
            ∷ (bucket_names 8 0
                ++ end_line ∷ task_rows (take snap.task_count (take 16 snap.tasks))))

  -- A null buffer, and one that is too small, take nothing.
  unfoldable pub format_key_value : PerformanceSnapshot F → Bool → ℕ → List ℕ
  format_key_value snap has_buf buf_len =
      if not has_buf || ltb buf_len 2 then [] else put_parts buf_len [] (key_value_parts snap)

  unfoldable pub format_csv : PerformanceSnapshot F → Bool → ℕ → List ℕ
  format_csv snap has_buf buf_len =
      if not has_buf || ltb buf_len 2 then [] else put_parts buf_len [] (csv_parts snap)
