-- ===== src/Logging/Telemetry.antt =====
-- include/sputteros/utils/logging/TelemetryLogger.h and src/utils/logging/TelemetryLogger.cpp: the ring of the last messages.
-- Each operation is one step, as under its mutex; what `drain` hands to the write function is a list.
pub mod Drained
mod Tests
use sputter_os.Prelude.{
  ℕ, zero, suc, ◌+◌, ◌-◌, ◌/◌, ◌%◌, Bool, true, false, List, [], ◌∷◌, ◌++◌, if◌then◌else◌, ltb, leb,
  ◌==◌, get_or, set, take, replicate,
}
use sputter_os.Sync.Ring.{next}
use sputter_os.Logging.Text.{Text, empty_text, append_char, append_u32, append_chars}
use sputter_os.Logging.Report.{codes}

pub data TaskId : Type 0 where
  control comms diagnostics system : TaskId

-- `text` is `e.text` up to its terminating zero; a verbosity is its number, `STATUS` 1.
pub record Message : Type 0 where
  pub timestamp : ℕ
  pub task : TaskId
  pub level : ℕ
  pub text : List ℕ

pub record Telemetry : Type 0 where
  pub buf : List Message
  pub head : ℕ
  pub tail : ℕ
  pub count : ℕ
  pub verbosity : ℕ

abbrev pub telemetry_capacity : ℕ
telemetry_capacity = 32

abbrev pub text_len : ℕ
text_len = 64

abbrev pub status_level : ℕ
status_level = 1

abbrev pub blank : Message
blank = record { timestamp = 0; task = control; level = 0; text = [] }

-- The constructor; the array starts with any messages.
unfoldable pub make_telemetry : List Message → Telemetry
make_telemetry buf = record { buf = buf; head = 0; tail = 0; count = 0; verbosity = status_level }

unfoldable pub log_message : Telemetry → TaskId → List ℕ → ℕ → ℕ → Telemetry
log_message l task text level timestamp =
    let is_full = l.count == telemetry_capacity in
    record l {
      tail = (if is_full then next telemetry_capacity l.tail else l.tail);
      count = (if is_full then l.count else l.count + 1);
      buf = set l.buf l.head (record {
        timestamp = timestamp;
        task = task;
        level = level;
        text = take (text_len - 1) text;
      });
      head = next telemetry_capacity l.head;
    }

unfoldable pub task_name : TaskId → List ℕ
task_name control = codes "ControlTask"
task_name comms = codes "CommsTask"
task_name diagnostics = codes "DiagnosticsTask"
task_name system = codes "System"

-- One line of the output, `[<ms>][<task>] <text>` and a line end.
unfoldable pub render_message : Message → Text
render_message e =
    let stamp = append_u32 (append_char empty_text b'[') (e.timestamp / 1000 % 4294967296) in
    let opened = append_char (append_char stamp b']') b'[' in
    let named = append_char (append_chars opened (task_name e.task)) b']' in
    append_char (append_chars (append_char named b' ') e.text) 10

-- The loop of `drain`, by the number of messages left.
unfoldable pub drain_loop : ℕ → Telemetry → List (List ℕ) × Telemetry
drain_loop zero l = ([], l)
drain_loop (suc left) l =
    let e = get_or l.buf l.tail blank in
    let (lines, l') =
      drain_loop left (record l { tail = next telemetry_capacity l.tail; count = left }) in
    if ltb l.verbosity e.level then (lines, l') else ((render_message e).chars ∷ lines, l')

-- `drain` with a write function.
unfoldable pub drain : Telemetry → List (List ℕ) × Telemetry
drain l = drain_loop l.count l

unfoldable pub set_verbosity : Telemetry → ℕ → Telemetry
set_verbosity l level = record l { verbosity = level }

unfoldable pub clear_telemetry : Telemetry → Telemetry
clear_telemetry l = record l { head = 0; tail = 0; count = 0 }
