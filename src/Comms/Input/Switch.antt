-- ===== src/Comms/Input/Switch.antt =====
-- The switch from text to frames by a handshake in the text stream.
use sputter_os.Prelude.{
  ℕ, ◌+◌, ◌*◌, ◌≤◌, ◌<◌, ◌≢◌, true, false, List, [], ◌∷◌, ◌++◌, ◌≡◌, refl, ◌∙◌, ap, sym, arith,
  some, length, length-append, drop, replicate, length-replicate, All, append_assoc, append-nil,
  lt→ltb,
}
use sputter_os.Protocol.Cobs.Stuffing.{stuff, IsStuffed}
use sputter_os.Protocol.Frame.{
  reset, Decoder, overwrite, max_raw_size, raw_frame, frame_ready, feed_byte, feed_all,
}
use sputter_os.Protocol.Frame.Wire.{
  IsByte, wire, pos→==, length-stuff, length-raw_frame, raw_frame-IsByte,
}
use sputter_os.Protocol.Frame.Process.{deliver, process_raw_frame}
use sputter_os.Protocol.Frame.RoundTrip.{stuff-IsStuffed, feed_all_stuffed, feed_byte_delimiter}
use sputter_os.Protocol.Message
use sputter_os.Protocol.Router.{Handler, dispatch, dispatch_to, dispatch_handshake}
use sputter_os.Protocol.Router.Handshake.{dispatch_handshake_iff}
use sputter_os.Comms.State.{Config, Session, framed_mode, enter_framed_mode}
use sputter_os.Comms.Input.{
  fresh_decoder, accept_probe, try_handshake_probe, text_byte, process_text, process_framed,
}

overwrite-append :
    (xs old : List ℕ) → length xs ≤ length old → overwrite xs old ≡ xs ++ drop (length xs) old
overwrite-append [] old h = refl
overwrite-append (x ∷ xs) [] h = absurd (omega arith)
overwrite-append (x ∷ xs) (o ∷ old) h = ap (λ l. x ∷ l) (overwrite-append xs old (omega arith))

-- A session that gathers a probe.
abbrev pub probing : {F S X : Type 0} → Session F S X → List ℕ → Session F S X
probing s p = record s { cli = record s.cli { probe_active = true; probe = p } }

-- The payload of a request for version `v + 256 * w`.
abbrev pub request : ℕ → ℕ → List ℕ
request v w = v ∷ w ∷ 0x53 ∷ 0x4F ∷ 0x50 ∷ 0x53 ∷ []

module _ {F S X : Type 0} (cfg : Config F S) (h : Handler F (Session F S X)) where
  process_text-false :
      (s s' : Session F S X) (b : ℕ) (bs : List ℕ)
      → text_byte cfg (some h) s b ≡ (false, s')
      → process_text cfg (some h) s (b ∷ bs) ≡ process_text cfg (some h) s' bs
  unfolding process_text
  process_text-false s s' b bs e = rw (process_text, ap (λ r. r.0) e, ap (λ r. r.1) e)

  process_text-true :
      (s s' : Session F S X) (b : ℕ) (bs : List ℕ)
      → text_byte cfg (some h) s b ≡ (true, s')
      → process_text cfg (some h) s (b ∷ bs) ≡ process_framed cfg (some h) s' bs
  unfolding process_text
  process_text-true s s' b bs e = rw (process_text, ap (λ r. r.0) e, ap (λ r. r.1) e)

  text_byte_start :
      (s : Session F S X)
      → s.cli.probe_active ≡ false
      → text_byte cfg (some h) s 0 ≡ (false, probing s [])
  unfolding text_byte
  text_byte_start s e = rw e

  text_byte_probe :
      (s : Session F S X) (p : List ℕ) (b : ℕ)
      → b ≢ 0
      → length p < 64
      → text_byte cfg (some h) (probing s p) b ≡ (false, probing s (p ++ b ∷ []))
  unfolding text_byte
  text_byte_probe s p b ne room = rw (pos→== b (omega arith), lt→ltb (length p) 64 room)

  process_text_probe :
      (bytes rest p : List ℕ) (s : Session F S X)
      → All IsStuffed bytes
      → length p + length bytes ≤ 64
      → process_text cfg (some h) (probing s p) (bytes ++ rest)
        ≡ process_text cfg (some h) (probing s (p ++ bytes)) rest
  process_text_probe [] rest p s a room =
      ap (λ l. process_text cfg (some h) (probing s l) rest) (sym (append-nil p))
  process_text_probe (b ∷ bs) rest p s (ab, a) room =
      process_text-false (probing s p) (probing s (p ++ b ∷ [])) b (bs ++ rest)
        (text_byte_probe s p b ab.0 (omega arith))
      ∙ process_text_probe bs rest (p ++ b ∷ []) s a (omega (arith, length-append p (b ∷ [])))
      ∙ ap (λ l. process_text cfg (some h) (probing s l) rest) (append_assoc p (b ∷ []) bs)

  module _ (v w seq_num : ℕ) (bytes : IsByte v × (IsByte w × IsByte seq_num)) where
    request-IsByte : All IsByte (request v w)
    request-IsByte =
        (bytes.0, (bytes.1.0, (omega arith, (omega arith, (omega arith, (omega arith, tt))))))

    abbrev request_frame : List ℕ
    request_frame = raw_frame Message.handshake_req seq_num (some (request v w)) 6

    request_frame-IsByte : All IsByte request_frame
    request_frame-IsByte =
        raw_frame-IsByte Message.handshake_req seq_num (request v w) (omega arith) bytes.1.1
          request-IsByte

    abbrev request_decoder : Decoder
    request_decoder =
        deliver (fresh_decoder cfg.max_payload) Message.handshake_req seq_num (request v w)

    module _ (room : 6 ≤ cfg.max_payload) where
      -- The probe's decoder delivers the request.
      probe_delivers :
          let gathered = record (fresh_decoder cfg.max_payload) {
            cobs_buf = [] ++ stuff request_frame;
          } in
          ((feed_all cfg.max_payload (fresh_decoder cfg.max_payload) (stuff request_frame)).1
            ≡ gathered)
          × (feed_byte cfg.max_payload gathered 0 ≡ (frame_ready, request_decoder))
      probe_delivers =
          let raw = request_frame in
          let d = fresh_decoder cfg.max_payload in
          let fits : length raw ≤ max_raw_size cfg.max_payload =
            omega (arith, length-raw_frame Message.handshake_req seq_num (request v w)) in
          (
            ap (λ r. r.1)
                (feed_all_stuffed cfg.max_payload (stuff raw) d
                  (stuff-IsStuffed raw request_frame-IsByte)
                  (omega (arith, length-stuff raw, fits))),
            feed_byte_delimiter cfg.max_payload (record d { cobs_buf = [] ++ stuff raw }) raw refl
                  fits
                ∙ process_raw_frame cfg.max_payload (record d { cobs_buf = [] })
                    Message.handshake_req seq_num (request v w) room (omega arith),
          )

      -- The session after the handler was told: frames are read, from an empty buffer and with the fields
      -- of no frame, and the probe is over.
      abbrev pub switched : Session F S X → Session F S X
      switched s =
          let s' = h.on_handshake_request (v + w * 256) seq_num (probing s (stuff request_frame)) in
          record s' {
            cli = record s'.cli {
              mode = framed_mode;
              probe_active = false;
              probe = [];
              decoder = record s'.cli.decoder {
                cobs_buf = [];
                msg_type = 0xF0;
                seq_num = 0;
                payload_len = 0;
              };
            };
          }

      accept_request :
          (s : Session F S X)
          → accept_probe cfg (some h) (probing s (stuff request_frame)) request_decoder
            ≡ (true, switched s)
      unfolding accept_probe dispatch dispatch_to enter_framed_mode reset
      accept_request s =
          let old = replicate cfg.max_payload 0 in
          let probe = probing s (stuff request_frame) in
          let told = h.on_handshake_request (v + w * 256) seq_num probe in
          let run : dispatch_handshake cfg.floats h seq_num (overwrite (request v w) old) 6 probe
              ≡ (true, told) =
            ap (λ l. dispatch_handshake cfg.floats h seq_num l 6 probe)
              (overwrite-append (request v w) old
                (omega (arith, length-replicate {A = ℕ} cfg.max_payload 0)))
            ∙ (dispatch_handshake_iff v w 0x53 0x4F 0x50 0x53 (drop 6 old) cfg.floats h seq_num 6
                  probe (bytes.0, bytes.1.0)
                  (omega arith, (omega arith, (omega arith, omega arith)))).0
                (refl, (refl, (refl, (refl, refl)))) in
          rw (ap (λ r. r.0) run, ap (λ r. r.1) run)

      try_request :
          (s : Session F S X)
          → try_handshake_probe cfg (some h) (probing s (stuff request_frame)) ≡ (true, switched s)
      unfolding try_handshake_probe
      try_request s = rw (probe_delivers.0, probe_delivers.1) (accept_request s)

      text_byte_end :
          (s : Session F S X)
          → text_byte cfg (some h) (probing s (stuff request_frame)) 0 ≡ (true, switched s)
      unfolding text_byte
      text_byte_end s =
          let some_probe : 0 < length (stuff request_frame) =
            omega (arith, length-stuff request_frame) in
          let tried = try_request s in
          rw (
            lt→ltb 0 (length (stuff request_frame)) some_probe,
            ap (λ r. r.0) tried,
            ap (λ r. r.1) tried,
          )

      -- A zero byte in text mode, outside of a probe, and the frame of a handshake request behind it
      -- switch to frames, whatever the line parser holds: the handler is told the version once, with
      -- the frame's number; then the mode is framed, the probe is over, and the frame decoder holds no
      -- bytes and the fields of no frame; and the bytes behind the request are read as frames. The
      -- session is set up with a payload of at least six bytes.
      pub handshake_switches :
          (s : Session F S X) (rest : List ℕ)
          → s.cli.probe_active ≡ false
          → process_text cfg
              (some h)
              s
              (0 ∷ (wire Message.handshake_req seq_num (request v w) ++ rest))
            ≡ process_framed cfg (some h) (switched s) rest
      handshake_switches s rest off =
          let frame = wire Message.handshake_req seq_num (request v w) in
          process_text-false s (probing s []) 0 (frame ++ rest) (text_byte_start s off)
          ∙ ap (λ l. process_text cfg (some h) (probing s []) l)
              (append_assoc (stuff request_frame) (0 ∷ []) rest)
          ∙ process_text_probe (stuff request_frame) (0 ∷ rest) [] s
              (stuff-IsStuffed request_frame request_frame-IsByte)
              (omega (
                arith,
                length-stuff request_frame,
                length-raw_frame Message.handshake_req seq_num (request v w),
              ))
          ∙ process_text-true (probing s (stuff request_frame)) (switched s) 0 rest
              (text_byte_end s)
