-- ===== src/Comms/Input/Framed.antt =====
-- Frames that `CLI` receives in framed mode.
use sputter_os.Prelude.{
  ℕ, ◌+◌, ◌≤◌, ◌<◌, true, List, [], ◌∷◌, ◌++◌, ◌≡◌, ◌∙◌, ap, sym, arith, Option, some, length,
  length-append, take, All, append_assoc, append-nil, replicate, length-replicate,
}
use sputter_os.Logic.Parser.{Command}
use sputter_os.Protocol.Cobs.{max_encoded_len}
use sputter_os.Protocol.Cobs.Stuffing.{stuff, IsStuffed}
use sputter_os.Protocol.Frame.{
  Decoder, overwrite, max_raw_size, raw_frame, incomplete, frame_ready, feed_byte,
}
use sputter_os.Protocol.Frame.Wire.{
  IsByte, wire, length-stuff, length-raw_frame, raw_frame-IsByte, encode_frame-wire,
}
use sputter_os.Protocol.Frame.Process.{deliver, process_raw_frame}
use sputter_os.Protocol.Frame.RoundTrip.{
  take-overwrite, stuff-IsStuffed, feed_byte_stuffed, feed_byte_delimiter,
}
use sputter_os.Protocol.Message
use sputter_os.Protocol.Responses.{Floats, serialize_command}
use sputter_os.Protocol.Router.{Handler, read_command}
use sputter_os.Comms.State.{Config, Session, max_wire_size, frame_bytes}
use sputter_os.Comms.Input.{store_command, handle_decoded_frame, framed_byte, process_framed}

-- What `sendFrame` writes for a payload that fits is its wire form.
pub frame_bytes-wire :
    (max_payload msg_type seq_num : ℕ) (payload : List ℕ)
    → length payload ≤ max_payload
    → frame_bytes max_payload msg_type seq_num (some payload) (length payload)
      ≡ wire msg_type seq_num payload
frame_bytes-wire max_payload msg_type seq_num payload small =
    let cap = max_wire_size max_payload in
    (encode_frame-wire msg_type seq_num payload max_payload (replicate cap 0) cap small
      (omega arith) (omega (arith, length-replicate {A = ℕ} cap 0))).1

abbrev pub idle : Decoder → Decoder
idle d = record d { cobs_buf = [] }

abbrev pub with_decoder : {F S X : Type 0} → Session F S X → Decoder → Session F S X
with_decoder s d = record s { cli = record s.cli { decoder = d } }

module _ {F S X : Type 0} (cfg : Config F S) (handler : Option (Handler F (Session F S X))) where
  framed_byte_quiet :
      (s : Session F S X) (byte : ℕ) (d : Decoder)
      → feed_byte cfg.max_payload s.cli.decoder byte ≡ (incomplete, d)
      → framed_byte cfg handler s byte ≡ with_decoder s d
  unfolding framed_byte
  framed_byte_quiet s byte d e = rw e

  framed_byte_ready :
      (s : Session F S X) (byte : ℕ) (d : Decoder)
      → feed_byte cfg.max_payload s.cli.decoder byte ≡ (frame_ready, d)
      → framed_byte cfg handler s byte ≡ handle_decoded_frame cfg handler (with_decoder s d)
  unfolding framed_byte
  framed_byte_ready s byte d e = rw e

  process_framed_stuffed :
      (bytes rest : List ℕ) (s : Session F S X)
      → All IsStuffed bytes
      → length s.cli.decoder.cobs_buf + length bytes
        ≤ max_encoded_len (max_raw_size cfg.max_payload)
      → process_framed cfg handler s (bytes ++ rest)
        ≡ process_framed cfg handler
            (with_decoder s (record s.cli.decoder { cobs_buf = s.cli.decoder.cobs_buf ++ bytes }))
            rest
  unfolding process_framed
  process_framed_stuffed [] rest s h room =
      ap
        (λ l.
          process_framed cfg handler (with_decoder s (record s.cli.decoder { cobs_buf = l })) rest)
        (sym (append-nil s.cli.decoder.cobs_buf))
  process_framed_stuffed (b ∷ bs) rest s (hb, h) room =
      let buf = s.cli.decoder.cobs_buf in
      let s' = with_decoder s (record s.cli.decoder { cobs_buf = buf ++ b ∷ [] }) in
      let step = feed_byte_stuffed cfg.max_payload s.cli.decoder b hb.0 (omega arith) in
      rw
        (
          process_framed,
          framed_byte_quiet s b (record s.cli.decoder { cobs_buf = buf ++ b ∷ [] }) step,
        )
        (process_framed_stuffed bs rest s' h (omega (arith, length-append buf (b ∷ [])))
          ∙ ap
              (λ l.
                process_framed cfg handler (with_decoder s (record s.cli.decoder { cobs_buf = l }))
                  rest)
              (append_assoc buf (b ∷ []) bs))

  -- A whole frame behind which more may follow.
  pub process_framed-wire :
      (s : Session F S X) (msg_type seq_num : ℕ) (payload rest : List ℕ)
      → s.cli.decoder.cobs_buf ≡ []
      → IsByte msg_type × IsByte seq_num × All IsByte payload
      → length payload ≤ cfg.max_payload
      → length payload < 65536
      → process_framed cfg handler s (wire msg_type seq_num payload ++ rest)
        ≡ process_framed cfg handler
            (handle_decoded_frame cfg handler
              (with_decoder s (deliver (idle s.cli.decoder) msg_type seq_num payload)))
            rest
  unfolding process_framed
  process_framed-wire s t q payload rest start (ht, hq, hp) small short =
      let raw = raw_frame t q (some payload) (length payload) in
      let d = s.cli.decoder in
      let full = record d { cobs_buf = d.cobs_buf ++ stuff raw } in
      let fits : length raw ≤ max_raw_size cfg.max_payload =
        omega (arith, length-raw_frame t q payload) in
      let gathered =
        process_framed_stuffed (stuff raw) (0 ∷ rest) s
          (stuff-IsStuffed raw (raw_frame-IsByte t q payload ht hq hp))
          (omega (arith, ap length start, length-stuff raw, fits)) in
      ap (λ l. process_framed cfg handler s l) (append_assoc (stuff raw) (0 ∷ []) rest)
      ∙ gathered
      ∙ ap (λ s'. process_framed cfg handler s' rest)
          (framed_byte_ready (with_decoder s full) 0 (deliver (idle d) t q payload) (
            feed_byte_delimiter cfg.max_payload full raw (ap (λ l. l ++ stuff raw) start) fits
            ∙ process_raw_frame cfg.max_payload (record d { cobs_buf = [] }) t q payload small
                short))

-- What a `float` needs to survive a copy to four bytes and back.
abbrev pub IsCopied : {F : Type 0} → Floats F → F → Type 0
IsCopied floats v =
    (length (floats.to_bytes v) ≡ 4)
    × ((floats.of_bytes (floats.to_bytes v) ≡ v) × All IsByte (floats.to_bytes v))

-- The session with a command that stands in its decoder's payload array.
abbrev pub received : {F S X : Type 0} → Session F S X → Command F → ℕ → Decoder → Session F S X
received s cmd seq_num d = record s {
  cli = record s.cli {
    decoder = d;
    framed_command = cmd;
    has_framed_command = true;
    framed_seq_num = seq_num;
  };
}

read_command-overwrite :
    {F : Type 0} (floats : Floats F) (cmd : Command F) (old : List ℕ)
    → IsCopied floats cmd.value
    → 6 ≤ length old
    → read_command floats
        (overwrite (serialize_command floats cmd.id cmd.target_device cmd.value 6) old)
      ≡ cmd
unfolding read_command serialize_command
read_command-overwrite floats cmd [] c h = absurd (omega arith)
read_command-overwrite floats cmd (a ∷ []) c h = absurd (omega arith)
read_command-overwrite floats cmd (a ∷ b ∷ old) (four, (back, bytes)) h =
    let kept : take 4 (overwrite (floats.to_bytes cmd.value) old) ≡ floats.to_bytes cmd.value =
      ap (λ n. take n (overwrite (floats.to_bytes cmd.value) old)) (sym four)
      ∙ take-overwrite (floats.to_bytes cmd.value) old (omega arith) in
    rw (kept, back)

module _ {F S X : Type 0} (cfg : Config F S) (handler : Option (Handler F (Session F S X))) where
  -- A command frame is stored for the task, with the number of its frame.
  pub process_framed-command :
      (s : Session F S X) (cmd : Command F) (seq_num : ℕ) (rest : List ℕ)
      → s.cli.decoder.cobs_buf ≡ []
      → IsByte cmd.id × (IsByte cmd.target_device × IsByte seq_num)
      → IsCopied cfg.floats cmd.value
      → 6 ≤ cfg.max_payload
      → length s.cli.decoder.payload ≡ cfg.max_payload
      → let payload = serialize_command cfg.floats cmd.id cmd.target_device cmd.value 6 in
        process_framed cfg handler s (wire Message.command seq_num payload ++ rest)
        ≡ process_framed cfg handler
            (received s cmd seq_num (deliver (idle s.cli.decoder) Message.command seq_num payload))
            rest
  unfolding serialize_command handle_decoded_frame store_command
  process_framed-command s cmd seq_num rest start (hi, (hd, hs)) copied room whole =
      let payload = cmd.id ∷ cmd.target_device ∷ cfg.floats.to_bytes cmd.value in
      let six : length payload ≡ 6 = omega (arith, copied.0) in
      process_framed-wire cfg handler s Message.command seq_num payload rest start
        (omega arith, hs, (hi, (hd, copied.1.1))) (omega arith) (omega arith)
      ∙ rw (six, read_command-overwrite cfg.floats cmd s.cli.decoder.payload copied (omega arith))
