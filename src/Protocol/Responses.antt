-- ===== src/Protocol/Responses.antt =====
-- include/sputteros/comms/protocol/ResponseSerializer.h and utils/PerformanceSnapshot.h.
-- A serializer's result is the bytes it writes, its return value their number. A `float` is copied as
-- its object representation, and the target's byte order is little-endian.
pub mod Layout
mod Tests
use sputter_os.Prelude.{
  ℕ, zero, suc, ◌+◌, ◌*◌, ◌/◌, ◌%◌, Bool, ◌&&◌, List, [], ◌∷◌, ◌++◌, Option, none, some,
  if◌then◌else◌, ltb, leb, length, take,
}
use sputter_os.Protocol.Frame.{low_byte, high_byte}

-- The memory representation of `float`.
pub record Floats (F : Type 0) : Type 0 where
  pub to_bytes : F → List ℕ
  pub of_bytes : List ℕ → F

abbrev pub protocol_version : ℕ
protocol_version = 1

abbrev pub handshake_magic : ℕ
handshake_magic = 0x53504F53

-- `writeU8`, `writeU16`, `writeU32` and `writeU64` on a value of their width.
abbrev pub write_le : ℕ → ℕ → List ℕ
write_le zero v = []
write_le (suc n) v = v % 256 ∷ write_le n (v / 256)

unfoldable pub serialize_ack : ℕ → ℕ → List ℕ
serialize_ack cmd_id out_cap = if ltb out_cap 1 then [] else cmd_id ∷ []

unfoldable pub serialize_handshake_resp : ℕ → List ℕ
serialize_handshake_resp out_cap =
    if ltb out_cap 6
    then []
    else low_byte protocol_version
      ∷ high_byte protocol_version
      ∷ low_byte handshake_magic
      ∷ high_byte handshake_magic
      ∷ low_byte (handshake_magic / 65536)
      ∷ low_byte (handshake_magic / 16777216)
      ∷ []

-- A null pointer is `none`.
unfoldable pub serialize_data : Option (List ℕ) → ℕ → ℕ → List ℕ
serialize_data none data_len out_cap = []
serialize_data (some bytes) data_len out_cap =
    if ltb out_cap data_len then [] else take data_len bytes

unfoldable pub serialize_log : ℕ → Option (List ℕ) → ℕ → List ℕ
serialize_log level none out_cap = []
serialize_log level (some text) out_cap = if ltb out_cap (1 + length text) then [] else level ∷ text

pub record TaskSnapshot (F : Type 0) : Type 0 where
  pub task_index : ℕ
  pub core_id : ℕ
  pub last_us : ℕ
  pub min_us : ℕ
  pub max_us : ℕ
  pub avg_us : F
  pub samples : ℕ
  pub overruns : ℕ
  pub misses : ℕ
  pub histogram : List ℕ

abbrev pub max_snapshot_tasks : ℕ
max_snapshot_tasks = 16

pub record PerformanceSnapshot (F : Type 0) : Type 0 where
  pub timestamp : ℕ
  pub core_count : ℕ
  pub core_utilization : List F
  pub queue_depth : ℕ
  pub queue_max_depth : ℕ
  pub queue_avg_depth : F
  pub peak_heap_used : ℕ
  pub free_heap : ℕ
  pub stack_high_water : ℕ
  pub total_gap_us : ℕ
  pub max_gap_us : ℕ
  pub avg_gap_us : F
  pub scheduler_tick_count : ℕ
  pub total_overruns : ℕ
  pub total_deadline_misses : ℕ
  pub task_count : ℕ
  pub tasks : List (TaskSnapshot F)

abbrev pub metrics_header_size : ℕ
metrics_header_size = 66

abbrev pub metrics_task_size : ℕ
metrics_task_size = 26

module _ {F : Type 0} (floats : Floats F) where
  unfoldable pub serialize_nack : ℕ → ℕ → F → ℕ → List ℕ
  serialize_nack cmd_id target_device value out_cap =
      if ltb out_cap 6 then [] else cmd_id ∷ target_device ∷ floats.to_bytes value

  unfoldable pub serialize_command : ℕ → ℕ → F → ℕ → List ℕ
  serialize_command cmd_id target_device value out_cap =
      if ltb out_cap 6 then [] else cmd_id ∷ target_device ∷ floats.to_bytes value

  abbrev pub write_floats : List F → List ℕ
  write_floats [] = []
  write_floats (v ∷ vs) = floats.to_bytes v ++ write_floats vs

  -- The system header.
  unfoldable pub write_header : PerformanceSnapshot F → List ℕ
  write_header snap =
      write_le 8 snap.timestamp
      ++ write_le 1 snap.core_count
      ++ write_floats (take 4 snap.core_utilization)
      ++ write_le 2 snap.queue_depth
      ++ write_le 2 snap.queue_max_depth
      ++ floats.to_bytes snap.queue_avg_depth
      ++ write_le 4 snap.peak_heap_used
      ++ write_le 4 snap.free_heap
      ++ write_le 4 snap.stack_high_water
      ++ write_le 4 snap.total_gap_us
      ++ write_le 4 snap.max_gap_us
      ++ floats.to_bytes snap.avg_gap_us
      ++ write_le 4 snap.scheduler_tick_count
      ++ write_le 2 snap.total_overruns
      ++ write_le 2 snap.total_deadline_misses
      ++ write_le 1 snap.task_count

  -- One entry of the per-task loop.
  unfoldable pub write_task : TaskSnapshot F → List ℕ
  write_task ts =
      write_le 1 ts.task_index
      ++ write_le 1 ts.core_id
      ++ write_le 4 ts.last_us
      ++ write_le 4 ts.min_us
      ++ write_le 4 ts.max_us
      ++ floats.to_bytes ts.avg_us
      ++ write_le 4 ts.samples
      ++ write_le 2 ts.overruns
      ++ write_le 2 ts.misses

  unfoldable pub write_tasks : ℕ → List (TaskSnapshot F) → List ℕ
  write_tasks zero tasks = []
  write_tasks (suc n) [] = []
  write_tasks (suc n) (ts ∷ tasks) = write_task ts ++ write_tasks n tasks

  unfoldable pub serialize_metrics : PerformanceSnapshot F → ℕ → List ℕ
  serialize_metrics snap out_cap =
      if ltb out_cap (metrics_header_size + snap.task_count * metrics_task_size)
      then []
      else write_header snap ++ write_tasks snap.task_count snap.tasks
