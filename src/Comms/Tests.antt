-- ===== src/Comms/Tests.antt =====
-- The communication task at concrete inputs. A `float` is a number of four bytes, the port delivers
-- all that waits and keeps what is written, and the queue takes two commands.
use sputter_os.Prelude.{
  ℕ, ◌+◌, ◌*◌, Bool, true, false, List, [], ◌∷◌, ◌++◌, ◌≡◌, refl, arith, none, some, if◌then◌else◌,
  ltb, length, get_or,
}
use sputter_os.Logic.Parser.{CLibrary, Command}
use sputter_os.Logging.Text.{empty_text, FloatArith}
use sputter_os.Protocol.Frame.Wire.{wire}
use sputter_os.Protocol.Message
use sputter_os.Protocol.Responses.{Floats, write_le, serialize_command}
use sputter_os.Comms.State.{text_mode, framed_mode, Port, Config, Cli, Session, has_command}
use sputter_os.Comms.Input.Switch.{request, switched, handshake_switches}
use sputter_os.Comms.Input.{tick_cli, fresh_decoder, process_text, process_framed}
use sputter_os.Comms.Input.Pending.{IsBacked}
use sputter_os.Comms.Task.{comms_handler, TaskLinks, comms_tick}
use sputter_os.Comms.Task.Drain.{comms_tick_ends, one_round}
use sputter_os.Comms.Task.Replies.{command_answered}

abbrev word_floats : Floats ℕ
word_floats = record {
  to_bytes = write_le 4;
  of_bytes = λ bytes.
      get_or bytes 0 0
      + get_or bytes 1 0 * 256
      + get_or bytes 2 0 * 65536
      + get_or bytes 3 0 * 16777216;
}

abbrev mute_library : CLibrary ℕ
mute_library = record { strtol = λ cursor. none; strtof = λ cursor. none }

-- What waits, and what was written.
abbrev Line : Type 0
Line = List ℕ × List ℕ

abbrev whole_port : Port Line
whole_port = record {
  available = λ line. 14;
  read = λ n line. (line.0, ([], line.1));
  write = λ bytes line. (line.0, line.1 ++ bytes);
}

abbrev setup : Config ℕ Line
setup = record {
  lib = mute_library;
  floats = word_floats;
  max_id = 9;
  max_line = 16;
  max_payload = 8;
  port = some whole_port;
}

abbrev set_power : Command ℕ
set_power = record { id = 2; target_device = 1; value = 300 }

abbrev push_two : Command ℕ → List (Command ℕ) → Bool × List (Command ℕ)
push_two cmd cmds = if ltb (length cmds) 2 then (true, cmds ++ cmd ∷ []) else (false, cmds)

abbrev whole_numbers : FloatArith ℕ
whole_numbers = record {
  is_negative = λ v. false;
  negate = λ v. v;
  add = λ v w. v + w;
  sub = λ v w. 0;
  mul = λ v w. v * w;
  div = λ v w. v;
  to_u32 = λ v. v;
  of_u32 = λ v. v;
  one = 1;
  ten = 10;
  half = 0;
}

abbrev links_two : TaskLinks ℕ (List (Command ℕ))
links_two = record { try_push = some push_two; snapshot = none; float_arith = whole_numbers }

abbrev framed_cli : Cli ℕ
framed_cli = record {
  parser = record { line = []; pending = set_power; has_pending = false };
  builder = empty_text;
  has_pending = false;
  mode = framed_mode;
  decoder = fresh_decoder 8;
  framed_command = set_power;
  has_framed_command = false;
  framed_seq_num = 0;
  probe_active = false;
  probe = [];
}

abbrev power_wire : List ℕ
power_wire = wire Message.command 7 (serialize_command word_floats 2 1 300 6)

abbrev waiting : Session ℕ Line (List (Command ℕ))
waiting = record { cli = framed_cli; stream = (power_wire, []); env = set_power ∷ [] }

command_answered_example :
    (s' : Session ℕ Line (List (Command ℕ))) × (comms_tick setup links_two 3 waiting ≡ some s')
    × (s'.stream ≡ ([], [] ++ wire Message.ack 7 (2 ∷ [])))
    × (s'.env ≡ set_power ∷ set_power ∷ [])
    × (has_command s'.cli ≡ false)
command_answered_example =
    command_answered setup whole_port refl links_two 2 push_two waiting set_power 7 ([], []) refl
      refl refl refl (omega arith) (omega arith, (omega arith, omega arith))
      (refl, (refl, (omega arith, (omega arith, (omega arith, (omega arith, tt)))))) (omega arith)
      refl

comms_tick_ends_example :
    let s' =
      one_round setup links_two (tick_cli setup (some (comms_handler setup links_two)) waiting) in
    (comms_tick setup links_two 5 waiting ≡ some s')
    × ((has_command s'.cli ≡ false) × IsBacked s'.cli)
comms_tick_ends_example = comms_tick_ends setup links_two 4 waiting (λ h. h)

-- A text session in the middle of a line, which is asked for frames and at once sent a command.
abbrev texting : Session ℕ Line (List (Command ℕ))
texting = record {
  cli = record framed_cli {
    mode = text_mode;
    parser = record { line = 50 ∷ 32 ∷ []; pending = set_power; has_pending = false };
  };
  stream = ([], []);
  env = [];
}

handshake_switches_example :
    process_text setup
      (some (comms_handler setup links_two))
      texting
      (0 ∷ (wire Message.handshake_req 5 (request 1 0) ++ power_wire))
    ≡ process_framed setup
        (some (comms_handler setup links_two))
        (switched setup
          (comms_handler setup links_two)
          1
          0
          5
          (omega arith, (omega arith, omega arith))
          (omega arith)
          texting)
        power_wire
handshake_switches_example =
    handshake_switches setup (comms_handler setup links_two) 1 0 5
      (omega arith, (omega arith, omega arith)) (omega arith) texting power_wire refl
