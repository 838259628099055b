-- ===== src/Protocol/Router.antt =====
-- include/sputteros/comms/protocol/{IProtocolHandler,ProtocolRouter}.h. A handler's callbacks act on a
-- state `T` of its own.
pub mod Handshake
use sputter_os.Prelude.{
  ℕ, ◌+◌, ◌*◌, Bool, true, false, not, List, Option, none, some, if◌then◌else◌, ◌==◌, get_or, take,
  drop,
}
use Prim.Native.Nat.{bit_or}
use sputter_os.Logic.Parser.{Command}
use sputter_os.Protocol.Frame.{heartbeat, join_bytes}
use sputter_os.Protocol.Message
use sputter_os.Protocol.Responses.{Floats, handshake_magic}

-- `IProtocolHandler`.
pub record Handler (F T : Type 0) : Type 0 where
  pub on_command : Command F → ℕ → T → T
  pub on_handshake_request : ℕ → ℕ → T → T
  pub on_exit_handshake : ℕ → T → T
  pub on_metrics_request : ℕ → T → T
  pub on_heartbeat : ℕ → T → T

-- Six bytes as a command, as the router and `CLI` read them.
unfoldable pub read_command : {F : Type 0} → Floats F → List ℕ → Command F
read_command floats payload = record {
  id = get_or payload 0 0;
  target_device = get_or payload 1 0;
  value = floats.of_bytes (take 4 (drop 2 payload));
}

abbrev pub read_magic : List ℕ → ℕ
read_magic payload =
    bit_or
      (bit_or (bit_or (get_or payload 2 0) (get_or payload 3 0 * 256)) (get_or payload 4 0 * 65536))
      (get_or payload 5 0 * 16777216)

abbrev pub command_payload_size : ℕ
command_payload_size = 6

abbrev pub handshake_payload_size : ℕ
handshake_payload_size = 6

-- `payload` is the array the pointer leads to, `payload_len` the length given with it.
module _ {F T : Type 0} (floats : Floats F) (handler : Handler F T) where
  unfoldable pub dispatch_command : ℕ → List ℕ → ℕ → T → Bool × T
  dispatch_command seq_num payload payload_len t =
      if not (payload_len == command_payload_size)
      then (false, t)
      else (true, handler.on_command (read_command floats payload) seq_num t)

  unfoldable pub dispatch_handshake : ℕ → List ℕ → ℕ → T → Bool × T
  dispatch_handshake seq_num payload payload_len t =
      let version = join_bytes (get_or payload 0 0) (get_or payload 1 0) in
      if not (payload_len == handshake_payload_size)
      then (false, t)
      else if not (read_magic payload == handshake_magic)
      then (false, t)
      else (true, handler.on_handshake_request version seq_num t)

  -- `dispatch` with a handler.
  unfoldable pub dispatch_to : ℕ → ℕ → List ℕ → ℕ → T → Bool × T
  dispatch_to msg_type seq_num payload payload_len t =
      if msg_type == Message.command
      then dispatch_command seq_num payload payload_len t
      else if msg_type == Message.handshake_req
      then dispatch_handshake seq_num payload payload_len t
      else if msg_type == Message.exit_handshake
      then (true, handler.on_exit_handshake seq_num t)
      else if msg_type == Message.metrics_req
      then (true, handler.on_metrics_request seq_num t)
      else if msg_type == heartbeat
      then (true, handler.on_heartbeat seq_num t)
      else (false, t)

module _ {F T : Type 0} (floats : Floats F) where
  unfoldable pub dispatch : Option (Handler F T) → ℕ → ℕ → List ℕ → ℕ → T → Bool × T
  dispatch none msg_type seq_num payload payload_len t = (false, t)
  dispatch (some handler) msg_type seq_num payload payload_len t =
      dispatch_to floats handler msg_type seq_num payload payload_len t
