-- ===== src/Comms/Input.antt =====
-- include/sputteros/comms/CLI.h: the input. A run over received bytes is recursion on the list of them.
pub mod Framed
pub mod Pending
pub mod Switch
use sputter_os.Prelude.{
  ℕ, ◌+◌, Bool, true, false, not, List, [], ◌∷◌, ◌++◌, Option, none, some, if◌then◌else◌, ltb, ◌==◌,
  ◌&&◌, ◌||◌, length, replicate,
}
use sputter_os.Logic.Parser.{feed_char}
use sputter_os.Protocol.Frame.{
  Decoder, DecoderResult, frame_ready, incomplete, error, feed_byte, feed_all, frame_delimiter,
  heartbeat,
}
use sputter_os.Protocol.Message
use sputter_os.Protocol.Router.{Handler, read_command, dispatch}
use sputter_os.Comms.State.{
  CommsMode, text_mode, framed_mode, Port, Config, Cli, Session, enter_framed_mode,
}

abbrev pub read_buf_size : ℕ
read_buf_size = 64

abbrev pub max_probe_size : ℕ
max_probe_size = 64

abbrev pub is_ready : DecoderResult → Bool
is_ready frame_ready = true
is_ready _ = false

-- `FrameDecoder probeDec`.
abbrev pub fresh_decoder : ℕ → Decoder
fresh_decoder max_payload = record {
  cobs_buf = [];
  msg_type = heartbeat;
  seq_num = 0;
  payload = replicate max_payload 0;
  payload_len = 0;
}

module _ {F S X : Type 0} (cfg : Config F S) where
  -- One byte for the text parser.
  unfoldable pub feed_parser : Session F S X → ℕ → Session F S X
  feed_parser s byte =
      let (done, p) = feed_char cfg.lib cfg.max_id cfg.max_line s.cli.parser byte in
      record s { cli = record s.cli { parser = p; has_pending = s.cli.has_pending || done } }

  -- The COMMAND branch of `handleDecodedFrame`.
  unfoldable pub store_command : Session F S X → Session F S X
  store_command s =
      let d = s.cli.decoder in
      if d.payload_len == 6
      then record s {
        cli = record s.cli {
          framed_command = read_command cfg.floats d.payload;
          has_framed_command = true;
          framed_seq_num = d.seq_num;
        };
      }
      else s

module _ {F S X : Type 0} (cfg : Config F S) (handler : Option (Handler F (Session F S X))) where
  unfoldable pub handle_decoded_frame : Session F S X → Session F S X
  handle_decoded_frame s =
      let d = s.cli.decoder in
      if d.msg_type == Message.command
      then store_command cfg s
      else (dispatch cfg.floats handler d.msg_type d.seq_num d.payload d.payload_len s).1

  unfoldable pub framed_byte : Session F S X → ℕ → Session F S X
  framed_byte s byte =
      let (result, d) = feed_byte cfg.max_payload s.cli.decoder byte in
      let s' = record s { cli = record s.cli { decoder = d } } in
      if is_ready result then handle_decoded_frame s' else s'

  -- `processFramedBytesFrom`.
  unfoldable pub process_framed : Session F S X → List ℕ → Session F S X
  process_framed s [] = s
  process_framed s (byte ∷ bytes) = process_framed (framed_byte s byte) bytes

  -- The last part of `tryHandshakeProbe`, on what the probe's decoder delivered.
  unfoldable pub accept_probe : Session F S X → Decoder → Bool × Session F S X
  accept_probe s d =
      let (taken, s') =
        dispatch cfg.floats handler d.msg_type d.seq_num d.payload d.payload_len s in
      if not (d.msg_type == Message.handshake_req)
      then (false, s)
      else if taken
      then (true, record s' { cli = enter_framed_mode s'.cli })
      else (false, s')

  -- Without a handler the router refuses what the decoder delivers.
  unfoldable pub try_handshake_probe : Session F S X → Bool × Session F S X
  try_handshake_probe s =
      let (_, gathered) = feed_all cfg.max_payload (fresh_decoder cfg.max_payload) s.cli.probe in
      let (result, d) = feed_byte cfg.max_payload gathered frame_delimiter in
      let accepted = accept_probe s d in
      elim handler [ none ↦ (false, s) | some _ ↦ if is_ready result then accepted else (false, s) ]

  -- One byte of text mode, with whether it was the end of a handshake.
  unfoldable pub text_byte : Session F S X → ℕ → Bool × Session F S X
  text_byte s byte =
      let (switched, s') =
        if s.cli.probe_active && ltb 0 (length s.cli.probe)
        then try_handshake_probe s
        else (false, s) in
      let restarted = record s' { cli = record s'.cli { probe_active = true; probe = [] } } in
      if byte == frame_delimiter
      then (if switched then (true, s') else (false, restarted))
      else if s.cli.probe_active
      then (if ltb (length s.cli.probe) max_probe_size
          then (false, record s { cli = record s.cli { probe = s.cli.probe ++ byte ∷ [] } })
          else (
            false,
            feed_parser cfg (record s { cli = record s.cli { probe_active = false; probe = [] } })
                byte,
          ))
      else (false, feed_parser cfg s byte)

  -- `processTextBytes`.
  unfoldable pub process_text : Session F S X → List ℕ → Session F S X
  process_text s [] = s
  process_text s (byte ∷ bytes) =
      let (switched, s') = text_byte s byte in
      elim switched [ true ↦ process_framed s' bytes | false ↦ process_text s' bytes ]

  unfoldable pub process_bytes : Session F S X → List ℕ → Session F S X
  process_bytes s bytes = elim s.cli.mode [
    | text_mode ↦ process_text s bytes
    | framed_mode ↦ process_framed s bytes
  ]

  unfoldable pub tick_port : Port S → Session F S X → Session F S X
  tick_port port s =
      let avail = port.available s.stream in
      let to_read = if ltb avail read_buf_size then avail else read_buf_size in
      let (bytes, stream) = port.read to_read s.stream in
      if to_read == 0 then s else process_bytes (record s { stream = stream }) bytes

  unfoldable pub tick_cli : Session F S X → Session F S X
  tick_cli s = elim cfg.port [ none ↦ s | some port ↦ tick_port port s ]
