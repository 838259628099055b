-- ===== src/Comms/Task/Drain.antt =====
-- The loop of `ScheduledCommsTask::tick`.
use sputter_os.Prelude.{
  if◌then◌else◌, if_both, subst, ℕ, zero, suc, Bool, true, false, List, ◌≡◌, refl, ◌∙◌, ap, sym,
  Option, some, length, ltb, ◌==◌, Bool-cases, inl, inr, Option-cases,
}
use mathlib.Core.Bool.{false≢true}
use sputter_os.Logic.Parser.{Command, get_command}
use sputter_os.Logging.Text.{Piece}
use sputter_os.Comms.State.{
  by_mode_both, CommsMode-cases, text_mode, framed_mode, Config, Cli, Session, has_command,
  get_text_command, get_cli_command, exit_framed_mode, write_port, flush, send_frame,
  send_framed_ack, send_framed_nack, send_framed_handshake_resp, send_framed_heartbeat,
  send_framed_metrics_resp, frame_bytes,
}
use sputter_os.Comms.Input.{tick_cli}
use sputter_os.Comms.Input.Pending.{IsBacked, HandlerKeeps, tick_cli-IsBacked}
use sputter_os.Comms.Task.{
  TaskLinks, comms_handler, send_text, send_text_ack, send_text_nack, reply, submit, serve_command,
  serve_commands, comms_tick,
}

module _ {F : Type 0} (c : Cli F) where
  has_command_text : c.mode ≡ text_mode → has_command c ≡ c.has_pending
  unfolding has_command
  has_command_text e = rw (has_command, e)

  pub has_command_framed : c.mode ≡ framed_mode → has_command c ≡ c.has_framed_command
  unfolding has_command
  has_command_framed e = rw (has_command, e)

module _ {F S X : Type 0} (cfg : Config F S) where
  pub write_port-cli : (s : Session F S X) (bytes : List ℕ) → (write_port cfg s bytes).cli ≡ s.cli
  unfolding write_port
  write_port-cli s bytes = elim (Option-cases cfg.port) [
    | inl e ↦ rw (write_port, e)
    | inr (port, e) ↦ rw (write_port, e)
  ]

  pub send_frame-cli :
      (s : Session F S X) (msg_type seq_num : ℕ) (payload : Option (List ℕ)) (len : ℕ)
      → (send_frame cfg s msg_type seq_num payload len).cli ≡ s.cli
  unfolding send_frame
  send_frame-cli s t q payload len =
      let bytes = frame_bytes cfg.max_payload t q payload len in
      elim (Bool-cases (ltb 0 (length bytes))) [
        | inl e ↦ rw (send_frame, e) (write_port-cli s bytes)
        | inr e ↦ rw (send_frame, e)
      ]

  -- A reply leaves everything but the builder.
  abbrev SameButBuilder : Session F S X → Session F S X → Type 0
  SameButBuilder s s' = s'.cli ≡ record s.cli { builder = s'.cli.builder }

  flush_same : (s : Session F S X) → SameButBuilder s (flush cfg s)
  unfolding flush
  flush_same s =
      let same : Session F S X → Type 0 = SameButBuilder s in
      elim (Option-cases cfg.port) [
        | inl e ↦ rw (flush, e) (if_both same (length s.cli.builder.chars == 0) s s refl refl)
        | inr (port, e) ↦
            rw (flush, e) (if_both same (length s.cli.builder.chars == 0) s _ refl refl)
      ]

  module _ (s : Session F S X) (msg_type seq_num : ℕ) (payload : Option (List ℕ)) (len : ℕ) where
    frame_same : SameButBuilder s (send_frame cfg s msg_type seq_num payload len)
    frame_same =
        let e = send_frame-cli s msg_type seq_num payload len in
        e ∙ ap (λ c. record s.cli { builder = c.builder }) (sym e)

    frame_kept : IsBacked s.cli → IsBacked (send_frame cfg s msg_type seq_num payload len).cli
    frame_kept b = subst IsBacked (sym (send_frame-cli s msg_type seq_num payload len)) b

  module _ (links : TaskLinks F X) where
    text_same :
        (s : Session F S X) (pieces : List (Piece F))
        → SameButBuilder s (send_text cfg links s pieces)
    text_same s pieces = flush_same _

    reply_same :
        (s : Session F S X) (cmd : Command F) (pushed : Bool)
        → SameButBuilder s (reply cfg links s cmd pushed)
    unfolding reply send_framed_ack send_framed_nack send_text_ack send_text_nack
    reply_same s cmd pushed =
        let P = SameButBuilder s in
        by_mode_both P s.cli.mode _ _ (if_both P pushed _ _ (text_same s _) (text_same s _))
          (if_both P pushed _ _ (frame_same s _ _ _ _) (frame_same s _ _ _ _))

    comms_handler-keeps : HandlerKeeps (comms_handler cfg links)
    unfolding comms_handler send_framed_ack send_framed_handshake_resp send_framed_heartbeat
        send_framed_metrics_resp exit_framed_mode
    comms_handler-keeps = record {
      command_keeps = λ cmd q s b. b;
      handshake_keeps = λ version q s b. frame_kept s _ _ _ _ b;
      exit_keeps = λ q s b h. absurd (false≢true h);
      metrics_keeps = λ q s b. elim (Option-cases links.snapshot) [
        | inl e ↦ rw e (frame_kept s _ _ _ _ b)
        | inr (f, e) ↦ rw e (frame_kept s _ _ _ _ b)
      ];
      heartbeat_keeps = λ q s b. frame_kept s _ _ _ _ b;
    }

    has_command-reply :
        (s : Session F S X) (cmd : Command F) (pushed : Bool)
        → has_command (reply cfg links s cmd pushed).cli ≡ has_command s.cli
    unfolding has_command
    has_command-reply s cmd pushed = ap has_command (reply_same s cmd pushed)

    -- A served session: nothing announced is left, and the invariant holds.
    abbrev IsServed : Cli F → Type 0
    IsServed c = (has_command c ≡ false) × IsBacked c

    reply-IsServed :
        (s : Session F S X) (cmd : Command F) (pushed : Bool)
        → IsServed s.cli
        → IsServed (reply cfg links s cmd pushed).cli
    reply-IsServed s cmd pushed h =
        (has_command-reply s cmd pushed ∙ h.0, subst IsBacked (sym (reply_same s cmd pushed)) h.1)

    submit-IsServed :
        (s : Session F S X) (cmd : Command F)
        → IsServed s.cli
        → IsServed (submit cfg links s cmd).cli
    unfolding submit
    submit-IsServed s cmd h = elim (Option-cases links.try_push) [
      | inl e ↦ rw (submit, e) h
      | inr (push, e) ↦
          rw (submit, e)
            (reply-IsServed (record s { env = (push cmd s.env).1 }) cmd (push cmd s.env).0 h)
    ]

    get_cli_command-IsServed :
        (c : Cli F)
        → has_command c ≡ true
        → IsBacked c
        → ((cmd : Command F) × ((get_cli_command c).0 ≡ some cmd)) × IsServed (get_cli_command c).1
    unfolding has_command get_cli_command get_text_command get_command
    get_cli_command-IsServed c h b = elim (CommsMode-cases c.mode) [
      | inl e ↦
          let hp : c.has_pending ≡ true = sym (has_command_text c e) ∙ h in
          let taken = record c {
            parser = record c.parser { has_pending = false };
            has_pending = false;
          } in
          rw (get_cli_command, e, hp, b hp)
            ((c.parser.pending, refl), (has_command_text taken e, λ f. absurd (false≢true f)))
      | inr e ↦
          let hf : c.has_framed_command ≡ true = sym (has_command_framed c e) ∙ h in
          let taken = record c { has_framed_command = false } in
          rw (get_cli_command, e, hf) ((c.framed_command, refl), (has_command_framed taken e, b))
    ]

    serve_command-IsServed :
        (s : Session F S X)
        → has_command s.cli ≡ true
        → IsBacked s.cli
        → IsServed (serve_command cfg links s).cli
    unfolding serve_command
    serve_command-IsServed s h b =
        let ((cmd, e), done) = get_cli_command-IsServed s.cli h b in
        rw (serve_command, e)
          (submit-IsServed (record s { cli = (get_cli_command s.cli).1 }) cmd done)

    pub serve_commands_idle :
        (fuel : ℕ) (s : Session F S X)
        → has_command s.cli ≡ false
        → serve_commands cfg links fuel s ≡ some s
    unfolding serve_commands
    serve_commands_idle zero s h = rw h
    serve_commands_idle (suc fuel) s h = rw h

    -- What the loop makes of a session: one command is served if one is announced.
    abbrev pub one_round : Session F S X → Session F S X
    one_round s = if has_command s.cli then serve_command cfg links s else s

    serve_commands_once :
        (fuel : ℕ) (s : Session F S X)
        → IsBacked s.cli
        → (serve_commands cfg links (suc fuel) s ≡ some (one_round s)) × IsServed (one_round s).cli
    unfolding serve_commands
    serve_commands_once fuel s b = elim (Bool-cases (has_command s.cli)) [
      | inl e ↦
          let done = serve_command-IsServed s e b in
          rw e (serve_commands_idle fuel (serve_command cfg links s) done.0, done)
      | inr e ↦ rw e (refl, (e, b))
    ]

    -- The loop of the communication task ends: in a session whose announced text command is in the
    -- parser, any fuel of at least one round gives the session that one round leaves, no command is
    -- announced afterwards, and the session is again such a session.
    pub comms_tick_ends :
        (fuel : ℕ) (s : Session F S X)
        → IsBacked s.cli
        → let s' = one_round (tick_cli cfg (some (comms_handler cfg links)) s) in
          (comms_tick cfg links (suc fuel) s ≡ some s')
          × ((has_command s'.cli ≡ false) × IsBacked s'.cli)
    unfolding comms_tick
    comms_tick_ends fuel s b =
        let h = comms_handler cfg links in
        serve_commands_once fuel (tick_cli cfg (some h) s)
          (tick_cli-IsBacked cfg h (comms_handler-keeps) s b)
