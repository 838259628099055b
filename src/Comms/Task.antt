-- ===== src/Comms/Task.antt =====
-- include/sputteros/kernel/tasks/ScheduledCommsTask.h. The command queue is `ICommandProducer`, which acts on the
-- rest of the world, and the metrics snapshot is read from it; either may be the null pointer.
pub mod Drain
pub mod Replies
use sputter_os.Prelude.{
  ℕ, zero, suc, ◌+◌, ◌*◌, ◌%◌, Bool, true, false, List, [], ◌∷◌, Option, none, some, if◌then◌else◌,
  length, ℤ, pos,
}
use sputter_os.Logic.Parser.{Command}
use sputter_os.Logging.Text.{FloatArith, Piece, append_pieces, clear_text}
use sputter_os.Protocol.Message
use sputter_os.Protocol.Responses.{
  PerformanceSnapshot, serialize_metrics, metrics_header_size, metrics_task_size,
  max_snapshot_tasks,
}
use sputter_os.Protocol.Router.{Handler}
use sputter_os.Comms.State.{
  by_mode, Config, Session, has_command, get_cli_command, exit_framed_mode, flush, send_framed_ack,
  send_framed_nack, send_framed_handshake_resp, send_framed_heartbeat, send_framed_metrics_resp,
}
use sputter_os.Comms.Input.{tick_cli}

pub record TaskLinks (F X : Type 0) : Type 0 where
  pub try_push : Option (Command F → X → Bool × X)
  pub snapshot : Option (X → PerformanceSnapshot F)
  pub float_arith : FloatArith F

-- The buffer of `onMetricsRequest`.
abbrev pub metrics_buffer_size : ℕ
metrics_buffer_size = metrics_header_size + max_snapshot_tasks * metrics_task_size

module _ {F S X : Type 0} (cfg : Config F S) (links : TaskLinks F X) where
  -- The callbacks.
  unfoldable pub comms_handler : Handler F (Session F S X)
  comms_handler = record {
    on_command = λ cmd seq_num s. s;
    on_handshake_request = λ version seq_num s. send_framed_handshake_resp cfg s seq_num;
    on_exit_handshake = λ seq_num s.
        let s' = send_framed_ack cfg s seq_num Message.exit_handshake in
        record s' { cli = exit_framed_mode s'.cli };
    on_metrics_request = λ seq_num s. elim links.snapshot [
      | none ↦ send_framed_metrics_resp cfg s seq_num none 0
      | some take_snapshot ↦
          let buf = serialize_metrics cfg.floats (take_snapshot s.env) metrics_buffer_size in
          send_framed_metrics_resp cfg s seq_num (some buf) (length buf)
    ];
    on_heartbeat = λ seq_num s. send_framed_heartbeat cfg s seq_num;
  }

  -- A chain of appends to the cleared builder, flushed.
  abbrev pub send_text : Session F S X → List (Piece F) → Session F S X
  send_text s pieces =
      let built = append_pieces links.float_arith (clear_text s.cli.builder) pieces in
      flush cfg (record s { cli = record s.cli { builder = built } })

  -- "ACK " and "NACK "
  unfoldable pub send_text_ack : Session F S X → Command F → Session F S X
  send_text_ack s cmd =
      send_text s
        (Piece.str (some (65 ∷ 67 ∷ 75 ∷ 32 ∷ [])) ∷ Piece.i32 (ℤ.pos cmd.id) ∷ Piece.char 10 ∷ [])

  unfoldable pub send_text_nack : Session F S X → Command F → Session F S X
  send_text_nack s cmd = send_text s (
      Piece.str (some (78 ∷ 65 ∷ 67 ∷ 75 ∷ 32 ∷ []))
      ∷ Piece.i32 (ℤ.pos cmd.id)
      ∷ Piece.char 32
      ∷ Piece.i32 (ℤ.pos cmd.target_device)
      ∷ Piece.char 32
      ∷ Piece.float cmd.value 3
      ∷ Piece.char 10
      ∷ [])

  -- The reply to a command that the queue took or refused.
  unfoldable pub reply : Session F S X → Command F → Bool → Session F S X
  reply s cmd pushed =
      let seq_num = s.cli.framed_seq_num in
      by_mode s.cli.mode (if pushed then send_text_ack s cmd else send_text_nack s cmd) (
        if pushed
        then send_framed_ack cfg s seq_num (cmd.id % 256)
        else send_framed_nack cfg s seq_num cmd)

  unfoldable pub submit : Session F S X → Command F → Session F S X
  submit s cmd = elim links.try_push [
    | none ↦ s
    | some try_push ↦
        let (pushed, env) = try_push cmd s.env in reply (record s { env = env }) cmd pushed
  ]

  -- One round of the loop of `tick`.
  unfoldable pub serve_command : Session F S X → Session F S X
  serve_command s =
      let (cmd, c) = get_cli_command s.cli in
      let s' = record s { cli = c } in elim cmd [ none ↦ s' | some cmd ↦ submit s' cmd ]

  -- The loop of `tick`, for at most `fuel` rounds; `none` where a command is then still announced.
  unfoldable pub serve_commands : ℕ → Session F S X → Option (Session F S X)
  serve_commands zero s = if has_command s.cli then none else some s
  serve_commands (suc fuel) s =
      let rest = serve_commands fuel (serve_command s) in if has_command s.cli then rest else some s

  unfoldable pub comms_tick : ℕ → Session F S X → Option (Session F S X)
  comms_tick fuel s = serve_commands fuel (tick_cli cfg (some comms_handler) s)

  -- `init`, which gives the interface its handler first.
  unfoldable pub init_comms : Session F S X → Session F S X
  init_comms s = tick_cli cfg (some comms_handler) s

  -- `validateDependencies`, with `hasStream`.
  unfoldable pub comms_dependencies_hold : Bool
  comms_dependencies_hold = elim cfg.port [
    | none ↦ false
    | some port ↦ elim links.try_push [ none ↦ false | some push ↦ true ]
  ]
