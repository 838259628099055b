-- ===== src/Logging/Telemetry/Tests.antt =====
-- The telemetry ring at concrete inputs.
use sputter_os.Prelude.{[], ◌≡◌, refl, arith, inr, replicate}
use sputter_os.Logging.Report.{codes}
use sputter_os.Logging.Text.{append_char, append_u32, append_chars, render_u32, low_digits}
use sputter_os.Logging.Telemetry.{Message, Telemetry, system, task_name, render_message, drain}
use sputter_os.Logging.Telemetry.Drained.{IsValid, messages, lines_of, drain_writes}

abbrev boot : Message
boot = record { timestamp = 2500000; task = system; level = 1; text = codes "up" }

-- All 32 places taken, the oldest at place 3.
abbrev crowded : Telemetry
crowded = record { buf = replicate 32 boot; head = 3; tail = 3; count = 32; verbosity = 1 }

crowded-IsValid : IsValid crowded
crowded-IsValid = record {
  storage = refl;
  head_in = omega arith;
  tail_in = omega arith;
  count_in = omega arith;
  leads = inr refl;
}

line_run : (render_message boot).chars ≡ codes "[2500][System] up\n"
unfolding render_message append_char append_u32 append_chars render_u32 low_digits task_name
line_run = refl

drain_writes_example :
    ((drain crowded).0 ≡ lines_of 1 (messages crowded))
    × ((messages (drain crowded).1 ≡ []) × IsValid (drain crowded).1)
drain_writes_example = drain_writes crowded crowded-IsValid
