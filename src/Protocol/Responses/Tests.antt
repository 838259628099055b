-- ===== src/Protocol/Responses/Tests.antt =====
-- Responses at concrete inputs; a `float` is a number of four bytes.
use sputter_os.Prelude.{
  ℕ, ◌+◌, ◌*◌, ◌<◌, ◌≤◌, [], ◌∷◌, ◌≡◌, refl, arith, length, get_or, take, drop,
}
use sputter_os.Protocol.Responses.{
  Floats, TaskSnapshot, PerformanceSnapshot, write_le, write_task, serialize_handshake_resp,
  serialize_metrics,
}
use sputter_os.Protocol.Responses.Layout.{serialize_metrics_layout}

abbrev words : Floats ℕ
words = record { to_bytes = write_le 4; of_bytes = λ bytes. get_or bytes 0 0 }

-- The response that the device sends is itself a good request.
handshake_bytes : serialize_handshake_resp 6 ≡ 1 ∷ 0 ∷ 0x53 ∷ 0x4F ∷ 0x50 ∷ 0x53 ∷ []
unfolding serialize_handshake_resp
handshake_bytes = refl

abbrev task_of : ℕ → TaskSnapshot ℕ
task_of i = record {
  task_index = i;
  core_id = 0;
  last_us = 120;
  min_us = 100;
  max_us = 150;
  avg_us = 121;
  samples = 1000;
  overruns = 0;
  misses = 2;
  histogram = [];
}

abbrev two_tasks : PerformanceSnapshot ℕ
two_tasks = record {
  timestamp = 5000000;
  core_count = 2;
  core_utilization = 10 ∷ 20 ∷ 0 ∷ 0 ∷ [];
  queue_depth = 1;
  queue_max_depth = 4;
  queue_avg_depth = 2;
  peak_heap_used = 0;
  free_heap = 0;
  stack_high_water = 0;
  total_gap_us = 30;
  max_gap_us = 9;
  avg_gap_us = 3;
  scheduler_tick_count = 77;
  total_overruns = 0;
  total_deadline_misses = 0;
  task_count = 2;
  tasks = task_of 0 ∷ task_of 1 ∷ [];
}

serialize_metrics_layout_example :
    (66 + 2 * 26 ≤ 482
      → (length (serialize_metrics words two_tasks 482) ≡ 66 + 2 * 26)
        × ((t : ℕ)
            → t < 2
            → take 26 (drop (66 + t * 26) (serialize_metrics words two_tasks 482))
              ≡ write_task words (get_or (task_of 0 ∷ task_of 1 ∷ []) t (task_of 9))))
    × (482 < 66 + 2 * 26 → serialize_metrics words two_tasks 482 ≡ [])
serialize_metrics_layout_example =
    serialize_metrics_layout words (λ v. refl) two_tasks 482 (task_of 9) refl (omega arith)
