-- ===== src/Comms/Task/Replies.antt =====
-- From a framed command on the wire to the queue and back to the wire.
use sputter_os.Prelude.{
  ℕ, suc, ◌%◌, ◌≤◌, ◌<◌, Bool, true, false, List, [], ◌∷◌, ◌≡◌, refl, ◌∙◌, ap, sym, arith, Option,
  none, some, if◌then◌else◌, length, length-append, ltb, ◌==◌, append-nil, Bool-cases, inl, inr,
  lt→ltb,
}
use sputter_os.Logic.Parser.{Command}
use sputter_os.Protocol.Frame.{raw_frame}
use sputter_os.Protocol.Cobs.Stuffing.{stuff}
use sputter_os.Protocol.Frame.Wire.{IsByte, wire}
use sputter_os.Protocol.Frame.Process.{deliver}
use sputter_os.Protocol.Message
use sputter_os.Protocol.Responses.{serialize_ack, serialize_nack, serialize_command}
use sputter_os.Protocol.Router.{Handler}
use sputter_os.Comms.State.{
  text_mode, framed_mode, by_mode, Port, Config, Session, has_command, get_cli_command, write_port,
  send_frame, send_payload, send_framed_ack, send_framed_nack,
}
use sputter_os.Comms.Input.{process_framed, process_text, process_bytes, tick_port, tick_cli}
use sputter_os.Comms.Input.Framed.{
  IsCopied, idle, received, frame_bytes-wire, process_framed-command,
}
use sputter_os.Comms.Task.Drain.{has_command_framed, serve_commands_idle}
use sputter_os.Comms.Task.{
  TaskLinks, comms_handler, send_text_ack, send_text_nack, reply, submit, serve_command,
  serve_commands, comms_tick,
}

-- The bytes that `CLI::tick` asks the port for.
abbrev pub read_size : ℕ → ℕ
read_size avail = if ltb avail 64 then avail else 64

module _ {F S X : Type 0} (cfg : Config F S) (port : Port S) (has_port : cfg.port ≡ some port) where
  write_port-stream :
      (s : Session F S X) (bytes : List ℕ)
      → write_port cfg s bytes ≡ record s { stream = port.write bytes s.stream }
  unfolding write_port
  write_port-stream s bytes = rw (write_port, has_port)

  pub send_payload-stream :
      (s : Session F S X) (msg_type seq_num : ℕ) (payload : List ℕ)
      → length payload ≤ cfg.max_payload
      → send_payload cfg s msg_type seq_num payload
        ≡ record s { stream = port.write (wire msg_type seq_num payload) s.stream }
  unfolding send_frame
  send_payload-stream s t q payload small =
      let out = wire t q payload in
      let pos : 0 < length out =
        omega
          (arith, length-append (stuff (raw_frame t q (some payload) (length payload))) (0 ∷ [])) in
      rw (frame_bytes-wire cfg.max_payload t q payload small, lt→ltb 0 (length out) pos)
        (write_port-stream s out)

  tick_cli_read :
      (handler : Option (Handler F (Session F S X))) (s : Session F S X) (bytes : List ℕ)
      (stream' : S)
      → 0 < port.available s.stream
      → port.read (read_size (port.available s.stream)) s.stream ≡ (bytes, stream')
      → tick_cli cfg handler s ≡ process_bytes cfg handler (record s { stream = stream' }) bytes
  unfolding tick_cli tick_port
  tick_cli_read handler s bytes stream' some_avail r =
      ap (λ o. elim o [ none ↦ s | some p ↦ tick_port cfg handler p s ]) has_port
      ∙ rw (tick_port, r, nonzero (port.available s.stream) some_avail)
    where
      nonzero : (n : ℕ) → 0 < n → (read_size n == 0) ≡ false
      nonzero n h = ground arith

  process_bytes_framed :
      (handler : Option (Handler F (Session F S X))) (s : Session F S X) (bytes : List ℕ)
      → s.cli.mode ≡ framed_mode
      → process_bytes cfg handler s bytes ≡ process_framed cfg handler s bytes
  unfolding process_bytes
  process_bytes_framed handler s bytes e =
      ap
        (λ m. elim m [
          | text_mode ↦ process_text cfg handler s bytes
          | framed_mode ↦ process_framed cfg handler s bytes
        ])
        e

  process_framed_one :
      (handler : Option (Handler F (Session F S X))) (s : Session F S X) (cmd : Command F)
      (seq_num : ℕ)
      → s.cli.decoder.cobs_buf ≡ []
      → IsByte cmd.id × (IsByte cmd.target_device × IsByte seq_num)
      → IsCopied cfg.floats cmd.value
      → 6 ≤ cfg.max_payload
      → length s.cli.decoder.payload ≡ cfg.max_payload
      → let payload = serialize_command cfg.floats cmd.id cmd.target_device cmd.value 6 in
        process_framed cfg handler s (wire Message.command seq_num payload)
        ≡ received s cmd seq_num (deliver (idle s.cli.decoder) Message.command seq_num payload)
  unfolding process_framed
  process_framed_one handler s cmd q start bytes copied room whole =
      let payload = serialize_command cfg.floats cmd.id cmd.target_device cmd.value 6 in
      ap (λ l. process_framed cfg handler s l) (sym (append-nil (wire Message.command q payload)))
      ∙ process_framed-command cfg handler s cmd q [] start bytes copied room whole

  module _ (links : TaskLinks F X) where
    reply_framed :
        (s : Session F S X) (cmd : Command F) (pushed : Bool)
        → s.cli.mode ≡ framed_mode
        → reply cfg links s cmd pushed ≡ (
            if pushed
            then send_framed_ack cfg s s.cli.framed_seq_num (cmd.id % 256)
            else send_framed_nack cfg s s.cli.framed_seq_num cmd)
    unfolding reply
    reply_framed s cmd pushed e =
        let q = s.cli.framed_seq_num in
        let as_text =
          if pushed then send_text_ack cfg links s cmd else send_text_nack cfg links s cmd in
        let as_frame =
          if pushed then send_framed_ack cfg s q (cmd.id % 256) else send_framed_nack cfg s q cmd in
        ap (λ m. by_mode m as_text as_frame) e

    -- What a served command did: the rest of the world, and what went out.
    submit_framed :
        (push : Command F → X → Bool × X) (s : Session F S X) (cmd : Command F)
        → links.try_push ≡ some push
        → s.cli.mode ≡ framed_mode
        → IsByte cmd.id
        → IsCopied cfg.floats cmd.value
        → 6 ≤ cfg.max_payload
        → let (pushed, env') = push cmd s.env in
          let q = s.cli.framed_seq_num in
          let out =
            if pushed
            then wire Message.ack q (cmd.id ∷ [])
            else wire Message.nack q (cmd.id ∷ cmd.target_device ∷ cfg.floats.to_bytes cmd.value) in
          submit cfg links s cmd ≡ record s { stream = port.write out s.stream; env = env' }
    unfolding submit send_framed_ack send_framed_nack serialize_ack serialize_nack
    submit_framed push s cmd has_push e byte copied room =
        let s' = record s { env = (push cmd s.env).1 } in
        let q = s.cli.framed_seq_num in
        let low : cmd.id % 256 ≡ cmd.id = omega arith in
        rw (submit, has_push, reply_framed s' cmd (push cmd s.env).0 e, low)
          (elim (Bool-cases (push cmd s.env).0) [
            | inl t ↦ rw t (send_payload-stream s' Message.ack q (cmd.id ∷ []) (omega arith))
            | inr f ↦ rw f (
                send_payload-stream s' Message.nack q
                  (cmd.id ∷ cmd.target_device ∷ cfg.floats.to_bytes cmd.value)
                  (omega (arith, copied.0)))
          ])

    -- The round that serves an announced frame.
    serve_commands_round :
        (fuel : ℕ) (s : Session F S X)
        → s.cli.mode ≡ framed_mode
        → s.cli.has_framed_command ≡ true
        → serve_commands cfg links (suc fuel) s
          ≡ serve_commands cfg links fuel (
              submit cfg links
                (record s { cli = record s.cli { has_framed_command = false } })
                s.cli.framed_command)
    unfolding serve_commands serve_command has_command get_cli_command
    serve_commands_round fuel s e h = rw (has_command, get_cli_command, e, h)

    -- A command frame that the port delivers in one read to a framed session without a partial frame
    -- is answered in the same tick, which ends for any fuel of at least one round. The queue is asked
    -- once, with the command; what goes out is the acknowledgement frame with its number when the
    -- queue took it, and else the refusal that repeats the command; no command is announced afterwards.
    -- The session is set up with a payload of at least six bytes, and `float` survives a copy.
    pub command_answered :
        (fuel : ℕ) (push : Command F → X → Bool × X) (s : Session F S X) (cmd : Command F)
        (seq_num : ℕ) (stream' : S)
        → links.try_push ≡ some push
        → s.cli.mode ≡ framed_mode
        → s.cli.decoder.cobs_buf ≡ []
        → length s.cli.decoder.payload ≡ cfg.max_payload
        → 6 ≤ cfg.max_payload
        → IsByte cmd.id × (IsByte cmd.target_device × IsByte seq_num)
        → IsCopied cfg.floats cmd.value
        → 0 < port.available s.stream
        → port.read (read_size (port.available s.stream)) s.stream ≡ (
          wire Message.command seq_num
              (serialize_command cfg.floats cmd.id cmd.target_device cmd.value 6),
          stream',
        )
        → let (pushed, env') = push cmd s.env in
          let answer =
            if pushed
            then wire Message.ack seq_num (cmd.id ∷ [])
            else wire Message.nack seq_num
                (cmd.id ∷ cmd.target_device ∷ cfg.floats.to_bytes cmd.value) in
          (s' : Session F S X) × (comms_tick cfg links (suc fuel) s ≡ some s')
          × (s'.stream ≡ port.write answer stream')
          × (s'.env ≡ env')
          × (has_command s'.cli ≡ false)
    unfolding comms_tick
    command_answered fuel push s cmd seq_num stream' has_push e start whole room bytes copied avail
          r =
        let h = some (comms_handler cfg links) in
        let payload = serialize_command cfg.floats cmd.id cmd.target_device cmd.value 6 in
        let opened = record s { stream = stream' } in
        let d = deliver (idle s.cli.decoder) Message.command seq_num payload in
        let got = received opened cmd seq_num d in
        let served = record got { cli = record got.cli { has_framed_command = false } } in
        let (pushed, env') = push cmd s.env in
        let out =
          if pushed
          then wire Message.ack seq_num (cmd.id ∷ [])
          else wire Message.nack seq_num
              (cmd.id ∷ cmd.target_device ∷ cfg.floats.to_bytes cmd.value) in
        let after = record served { stream = port.write out stream'; env = env' } in
        let idle : has_command after.cli ≡ false = has_command_framed after.cli e in
        let run =
          ap (λ r. serve_commands cfg links (suc fuel) r)
            (tick_cli_read h s (wire Message.command seq_num payload) stream' avail r
              ∙ process_bytes_framed h opened (wire Message.command seq_num payload) e
              ∙ process_framed_one h opened cmd seq_num start bytes copied room whole)
          ∙ serve_commands_round fuel got e refl
          ∙ ap (λ r. serve_commands cfg links fuel r)
              (submit_framed push served cmd has_push e bytes.0 copied room)
          ∙ serve_commands_idle cfg links fuel after idle in
        (after, run, refl, refl, idle)
