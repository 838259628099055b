-- ===== src/Comms/Input/Pending.antt =====
-- A command that `CLI` announces in text mode is in its parser.
use sputter_os.Prelude.{
  if_both, ℕ, Bool, true, false, ◌&&◌, ◌||◌, List, [], ◌∷◌, ◌++◌, ◌≡◌, arith, none, some,
  if◌then◌else◌, length, ltb, ◌==◌, Bool-cases, inl, inr, Option-cases,
}
use sputter_os.Logic.Parser.{CLibrary, Parser, parse_text, parse_line, feed_char}
use sputter_os.Protocol.Frame.{feed_byte, feed_all, frame_delimiter, heartbeat}
use sputter_os.Protocol.Message
use sputter_os.Protocol.Responses.{handshake_magic}
use sputter_os.Protocol.Router.{
  Handler, read_magic, dispatch, dispatch_to, dispatch_command, dispatch_handshake,
}
use sputter_os.Comms.State.{CommsMode-cases, Port, Config, Cli, Session, enter_framed_mode}
use sputter_os.Comms.Input.{
  not, is_ready, fresh_decoder, feed_parser, store_command, handle_decoded_frame, framed_byte,
  process_framed, accept_probe, try_handshake_probe, text_byte, process_text, process_bytes,
  tick_port, tick_cli,
}

-- `CLI::m_hasPending` implies the parser's own.
abbrev pub IsBacked : {F : Type 0} → Cli F → Type 0
IsBacked c = c.has_pending ≡ true → c.parser.has_pending ≡ true

module _ {F : Type 0} (lib : CLibrary F) (max_id max_line : ℕ) where
  -- The parser announces a command only when it holds one, and never drops one by itself.
  feed_char_backed :
      (p : Parser F) (byte : ℕ) (before : Bool)
      → (before ≡ true → p.has_pending ≡ true)
      → let (done, p') = feed_char lib max_id max_line p byte in
        (before || done) ≡ true → p'.has_pending ≡ true
  unfolding feed_char parse_line
  feed_char_backed p byte before h = elim (parse_text lib max_id (p.line ++ 0 ∷ [])) [
    | none ↦ ground arith
    | some cmd ↦ ground arith
  ]

module _ {F S X : Type 0} where
  -- A change of the session that keeps the invariant.
  abbrev pub Keeps : (Session F S X → Session F S X) → Type 0
  Keeps f = (s : Session F S X) → IsBacked s.cli → IsBacked (f s).cli

  pub record HandlerKeeps (h : Handler F (Session F S X)) : Type 0 where
    pub command_keeps : (cmd : _) (seq_num : ℕ) → Keeps (h.on_command cmd seq_num)
    pub handshake_keeps : (version seq_num : ℕ) → Keeps (h.on_handshake_request version seq_num)
    pub exit_keeps : (seq_num : ℕ) → Keeps (h.on_exit_handshake seq_num)
    pub metrics_keeps : (seq_num : ℕ) → Keeps (h.on_metrics_request seq_num)
    pub heartbeat_keeps : (seq_num : ℕ) → Keeps (h.on_heartbeat seq_num)

module _ {F S X : Type 0} (cfg : Config F S) (h : Handler F (Session F S X))
    (keeps : HandlerKeeps h) where
  dispatch-IsBacked :
      (s : Session F S X) (msg_type seq_num : ℕ) (payload : List ℕ) (len : ℕ)
      → IsBacked s.cli
      → IsBacked (dispatch cfg.floats (some h) msg_type seq_num payload len s).1.cli
  unfolding dispatch dispatch_to dispatch_command dispatch_handshake
  dispatch-IsBacked s t q payload len b =
      let P : Bool × Session F S X → Type 0 = λ r. IsBacked r.1.cli in
      if_both P (t == Message.command) _ _
        (if_both P (not (len == 6)) _ _ b (keeps.command_keeps _ q s b))
        (if_both P (t == Message.handshake_req) _ _
          (if_both P (not (len == 6)) _ _ b (
            if_both P (not (read_magic payload == handshake_magic)) _ _ b
              (keeps.handshake_keeps _ q s b)))
          (if_both P (t == Message.exit_handshake) _ _ (keeps.exit_keeps q s b) (
            if_both P (t == Message.metrics_req) _ _ (keeps.metrics_keeps q s b)
              (if_both P (t == heartbeat) _ _ (keeps.heartbeat_keeps q s b) b))))

  framed_byte-IsBacked : (byte : ℕ) → Keeps (λ s. framed_byte cfg (some h) s byte)
  unfolding framed_byte handle_decoded_frame store_command
  framed_byte-IsBacked byte s b =
      let (result, d) = feed_byte cfg.max_payload s.cli.decoder byte in
      let s' = record s { cli = record s.cli { decoder = d } } in
      let P : Session F S X → Type 0 = λ r. IsBacked r.cli in
      if_both P (is_ready result) _ _
        (if_both P (d.msg_type == Message.command) _ _ (if_both P (d.payload_len == 6) _ _ b b)
          (dispatch-IsBacked s' d.msg_type d.seq_num d.payload d.payload_len b))
        b

  process_framed-IsBacked : (bytes : List ℕ) → Keeps (λ s. process_framed cfg (some h) s bytes)
  unfolding process_framed
  process_framed-IsBacked [] s b = b
  process_framed-IsBacked (x ∷ xs) s b =
      process_framed-IsBacked xs (framed_byte cfg (some h) s x) (framed_byte-IsBacked x s b)

  feed_parser-IsBacked :
      (byte : ℕ) → (s : Session F S X) → IsBacked s.cli → IsBacked (feed_parser cfg s byte).cli
  unfolding feed_parser
  feed_parser-IsBacked byte s b =
      feed_char_backed cfg.lib cfg.max_id cfg.max_line s.cli.parser byte s.cli.has_pending b

  try_handshake_probe-IsBacked :
      (s : Session F S X) → IsBacked s.cli → IsBacked (try_handshake_probe cfg (some h) s).1.cli
  unfolding try_handshake_probe accept_probe enter_framed_mode
  try_handshake_probe-IsBacked s b =
      let (_, gathered) = feed_all cfg.max_payload (fresh_decoder cfg.max_payload) s.cli.probe in
      let (result, d) = feed_byte cfg.max_payload gathered frame_delimiter in
      let P : Bool × Session F S X → Type 0 = λ r. IsBacked r.1.cli in
      let b' = dispatch-IsBacked s d.msg_type d.seq_num d.payload d.payload_len b in
      if_both P (is_ready result) _ _
        (if_both P (not (d.msg_type == Message.handshake_req)) _ _ b (
          if_both P (dispatch cfg.floats (some h) d.msg_type d.seq_num d.payload d.payload_len s).0
            _ _ b' b'))
        b

  text_byte-IsBacked :
      (byte : ℕ) (s : Session F S X)
      → IsBacked s.cli
      → IsBacked (text_byte cfg (some h) s byte).1.cli
  unfolding text_byte
  text_byte-IsBacked byte s b =
      let P : Bool × Session F S X → Type 0 = λ r. IsBacked r.1.cli in
      let tried =
        if_both P (s.cli.probe_active && ltb 0 (length s.cli.probe))
          (try_handshake_probe cfg (some h) s) (false, s) (try_handshake_probe-IsBacked s b) b in
      let off = record s { cli = record s.cli { probe_active = false; probe = [] } } in
      if_both P (byte == frame_delimiter) _ _ (if_both P _ _ _ tried tried) (
        if_both P s.cli.probe_active _ _
          (if_both P (ltb (length s.cli.probe) 64) _ _ b (feed_parser-IsBacked byte off b))
          (feed_parser-IsBacked byte s b))

  process_text-IsBacked : (bytes : List ℕ) → Keeps (λ s. process_text cfg (some h) s bytes)
  unfolding process_text
  process_text-IsBacked [] s b = b
  process_text-IsBacked (x ∷ xs) s b =
      let s' = (text_byte cfg (some h) s x).1 in
      let b' = text_byte-IsBacked x s b in
      elim (Bool-cases (text_byte cfg (some h) s x).0) [
        | inl e ↦ rw (process_text, e) (process_framed-IsBacked xs s' b')
        | inr e ↦ rw (process_text, e) (process_text-IsBacked xs s' b')
      ]

  process_bytes-IsBacked :
      (bytes : List ℕ) (s : Session F S X)
      → IsBacked s.cli
      → IsBacked (process_bytes cfg (some h) s bytes).cli
  unfolding process_bytes
  process_bytes-IsBacked bytes s b = elim (CommsMode-cases s.cli.mode) [
    | inl e ↦ rw (process_bytes, e) (process_text-IsBacked bytes s b)
    | inr e ↦ rw (process_bytes, e) (process_framed-IsBacked bytes s b)
  ]

  tick_port-IsBacked :
      (port : Port S) (s : Session F S X)
      → IsBacked s.cli
      → IsBacked (tick_port cfg (some h) port s).cli
  unfolding tick_port
  tick_port-IsBacked port s b =
      let avail = port.available s.stream in
      let to_read = if ltb avail 64 then avail else 64 in
      let (bytes, stream) = port.read to_read s.stream in
      let P : Session F S X → Type 0 = λ r. IsBacked r.cli in
      if_both P (to_read == 0) _ _ b (process_bytes-IsBacked bytes (record s { stream = stream }) b)

  -- Every round of `CLI::tick` keeps the invariant, whatever the port delivers.
  pub tick_cli-IsBacked : Keeps (tick_cli cfg (some h))
  unfolding tick_cli
  tick_cli-IsBacked s b = elim (Option-cases cfg.port) [
    | inl e ↦ rw (tick_cli, e) b
    | inr (port, e) ↦ rw (tick_cli, e) (tick_port-IsBacked port s b)
  ]
