-- ===== src/Comms/State.antt =====
-- include/sputteros/comms/CLI.h: the state and the output. The serial port is the user's driver, whose
-- calls act on a state `S`; a callback can change the session, so that it carries the port's state and
-- the rest of the world, `X`. The router and its handler are parameters of the operations that call
-- them, both null or neither.
use sputter_os.Prelude.{
  ℕ, ◌+◌, ◌%◌, Bool, false, List, [], ◌∷◌, Option, none, some, if◌then◌else◌, ltb, ◌==◌, ◌≡◌, refl,
  ◌⊎◌, inl, inr, length, take, replicate,
}
use sputter_os.Logic.Parser.{CLibrary, Command, Parser, get_command, reset_parser}
use sputter_os.Logging.Text.{Text, clear_text}
use sputter_os.Protocol.Cobs.{max_encoded_len}
use sputter_os.Protocol.Frame.{Decoder, reset, encode_frame, frame_overhead, heartbeat}
use sputter_os.Protocol.Message
use sputter_os.Protocol.Responses.{
  Floats, serialize_ack, serialize_nack, serialize_handshake_resp, serialize_log,
}

pub data CommsMode : Type 0 where
  text_mode framed_mode : CommsMode

pub CommsMode-cases : (m : CommsMode) → (m ≡ text_mode) ⊎ (m ≡ framed_mode)
CommsMode-cases text_mode = inl refl
CommsMode-cases framed_mode = inr refl

-- A choice by the mode: the first for text, the second for frames.
abbrev pub by_mode {ℓ} : {A : Type ℓ} → CommsMode → A → A → A
by_mode text_mode x y = x
by_mode framed_mode x y = y

pub by_mode_both {ℓ κ} :
    {A : Type ℓ} (P : A → Type κ) (m : CommsMode) (x y : A) → P x → P y → P (by_mode m x y)
by_mode_both P text_mode x y hx hy = hx
by_mode_both P framed_mode x y hx hy = hy

-- `IStream`: a read is given how many bytes it may return.
pub record Port (S : Type 0) : Type 0 where
  pub available : S → ℕ
  pub read : ℕ → S → List ℕ × S
  pub write : List ℕ → S → S

-- What the template parameters and the constructor fix; no port is the null pointer.
pub record Config (F S : Type 0) : Type 0 where
  pub lib : CLibrary F
  pub floats : Floats F
  pub max_id : ℕ
  pub max_line : ℕ
  pub max_payload : ℕ
  pub port : Option (Port S)

-- `probe` is `m_probeBuf[0 .. m_probeLen)`.
pub record Cli (F : Type 0) : Type 0 where
  pub parser : Parser F
  pub builder : Text
  pub has_pending : Bool
  pub mode : CommsMode
  pub decoder : Decoder
  pub framed_command : Command F
  pub has_framed_command : Bool
  pub framed_seq_num : ℕ
  pub probe_active : Bool
  pub probe : List ℕ

pub record Session (F S X : Type 0) : Type 0 where
  pub cli : Cli F
  pub stream : S
  pub env : X

module _ {F : Type 0} where
  unfoldable pub has_command : Cli F → Bool
  has_command c = elim c.mode [ text_mode ↦ c.has_pending | framed_mode ↦ c.has_framed_command ]

  -- `getCommand` in text mode.
  -- What is left once the parser was asked.
  abbrev pub take_parsed : Cli F → Option (Command F) → Option (Command F) × Cli F
  take_parsed c none = (none, c)
  take_parsed c (some cmd) = (some cmd, record c { has_pending = false })

  unfoldable pub get_text_command : Cli F → Option (Command F) × Cli F
  get_text_command c =
      let (cmd, p) = get_command c.parser in
      if c.has_pending then take_parsed (record c { parser = p }) cmd else (none, c)

  unfoldable pub get_cli_command : Cli F → Option (Command F) × Cli F
  get_cli_command c = elim c.mode [
    | text_mode ↦ get_text_command c
    | framed_mode ↦
        if c.has_framed_command
        then (some c.framed_command, record c { has_framed_command = false })
        else (none, c)
  ]

  unfoldable pub enter_framed_mode : Cli F → Cli F
  enter_framed_mode c = record c {
    mode = framed_mode;
    probe_active = false;
    probe = [];
    decoder = reset c.decoder;
  }

  unfoldable pub exit_framed_mode : Cli F → Cli F
  exit_framed_mode c = record c {
    mode = text_mode;
    has_pending = false;
    has_framed_command = false;
    parser = reset_parser c.parser;
  }

module _ (max_payload : ℕ) where
  -- `kMaxWireSize`.
  abbrev pub max_wire_size : ℕ
  max_wire_size = max_encoded_len (frame_overhead + max_payload) + 1

  -- What `sendFrame` writes; nothing where the encoder refuses.
  abbrev pub frame_bytes : ℕ → ℕ → Option (List ℕ) → ℕ → List ℕ
  frame_bytes msg_type seq_num payload len =
      let (n, wire) =
        encode_frame max_payload msg_type seq_num payload len (replicate max_wire_size 0)
          max_wire_size in
      take n wire

module _ {F S X : Type 0} (cfg : Config F S) where
  unfoldable pub write_port : Session F S X → List ℕ → Session F S X
  write_port s bytes = elim cfg.port [
    | none ↦ s
    | some port ↦ record s { stream = port.write bytes s.stream }
  ]

  -- An empty builder is not written.
  unfoldable pub flush : Session F S X → Session F S X
  flush s =
      let written = write_port s s.cli.builder.chars in
      let cleared = record written { cli = record s.cli { builder = clear_text s.cli.builder } } in
      if length s.cli.builder.chars == 0 then s else elim cfg.port [ none ↦ s | some _ ↦ cleared ]

  unfoldable pub print : Session F S X → Option (List ℕ) → Session F S X
  print s none = s
  print s (some str) = write_port s str

  unfoldable pub println : Session F S X → Option (List ℕ) → Session F S X
  println s str = write_port (print s str) (10 ∷ [])

  unfoldable pub send_frame : Session F S X → ℕ → ℕ → Option (List ℕ) → ℕ → Session F S X
  send_frame s msg_type seq_num payload len =
      let bytes = frame_bytes cfg.max_payload msg_type seq_num payload len in
      if ltb 0 (length bytes) then write_port s bytes else s

  -- A payload that a serializer left in a local buffer.
  abbrev pub send_payload : Session F S X → ℕ → ℕ → List ℕ → Session F S X
  send_payload s msg_type seq_num payload =
      send_frame s msg_type seq_num (some payload) (length payload)

  unfoldable pub send_framed_ack : Session F S X → ℕ → ℕ → Session F S X
  send_framed_ack s seq_num cmd_id = send_payload s Message.ack seq_num (serialize_ack cmd_id 1)

  unfoldable pub send_framed_nack : Session F S X → ℕ → Command F → Session F S X
  send_framed_nack s seq_num cmd =
      send_payload s Message.nack seq_num
        (serialize_nack cfg.floats (cmd.id % 256) cmd.target_device cmd.value 6)

  unfoldable pub send_framed_handshake_resp : Session F S X → ℕ → Session F S X
  send_framed_handshake_resp s seq_num =
      send_payload s Message.handshake_resp seq_num (serialize_handshake_resp 6)

  unfoldable pub send_framed_heartbeat : Session F S X → ℕ → Session F S X
  send_framed_heartbeat s seq_num = send_frame s heartbeat seq_num none 0

  unfoldable pub send_framed_data : Session F S X → Option (List ℕ) → ℕ → Session F S X
  send_framed_data s payload len = send_frame s Message.data_blob 0 payload len

  unfoldable pub send_framed_log : Session F S X → ℕ → Option (List ℕ) → Session F S X
  send_framed_log s level str =
      let payload = serialize_log level str cfg.max_payload in
      if ltb 0 (length payload) then send_payload s Message.log_entry 0 payload else s

  unfoldable pub send_framed_metrics_resp : Session F S X → ℕ → Option (List ℕ) → ℕ → Session F S X
  send_framed_metrics_resp s seq_num bytes len = send_frame s Message.metrics_resp seq_num bytes len
