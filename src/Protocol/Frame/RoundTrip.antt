-- ===== src/Protocol/Frame/RoundTrip.antt =====
-- From `FrameEncoder` through the wire to `FrameDecoder`, byte by byte.
use sputter_os.Prelude.{
  ℕ, ◌+◌, ◌-◌, ◌≤◌, ◌<◌, List, [], ◌∷◌, ◌++◌, ◌≡◌, ◌≢◌, refl, ◌∙◌, ap, sym, arith, some, length,
  length-append, take, replicate, All, append_assoc, append-nil,
}
use sputter_os.Protocol.Cobs.{max_encoded_len}
use sputter_os.Protocol.Cobs.Stuffing.{stuff, stuff_from-IsStuffed, IsStuffed}
use sputter_os.Protocol.Cobs.Decode.{decode-stuff}
use sputter_os.Protocol.Frame.{
  frame_overhead, max_raw_size, raw_frame, encode_frame, DecoderResult, incomplete, frame_ready,
  Decoder, overwrite, process_raw, process_frame, feed_byte, feed_all,
}
use sputter_os.Protocol.Frame.Wire.{
  IsByte, wire, pos→==, length-stuff, length-raw_frame, raw_frame-IsByte, encode_frame-wire,
}
use sputter_os.Protocol.Frame.Process.{deliver, process_raw_frame}

pub stuff-IsStuffed : (raw : List ℕ) → All IsByte raw → All IsStuffed (stuff raw)
unfolding stuff
stuff-IsStuffed raw bytes = stuff_from-IsStuffed raw [] (omega arith) tt bytes

pub take-overwrite :
    (bytes old : List ℕ)
    → length bytes ≤ length old
    → take (length bytes) (overwrite bytes old) ≡ bytes
take-overwrite [] old h = refl
take-overwrite (b ∷ bs) [] h = absurd (omega arith)
take-overwrite (b ∷ bs) (o ∷ old) h = ap (λ l. b ∷ l) (take-overwrite bs old (omega arith))

module _ (max_payload : ℕ) where
  -- Feeding a run after a run.
  pub feed_all-append :
      (xs ys : List ℕ) (d : Decoder)
      → feed_all max_payload d (xs ++ ys) ≡ (
          let (rs, d') = feed_all max_payload d xs in
          let (ss, d'') = feed_all max_payload d' ys in (rs ++ ss, d''))
  unfolding feed_all
  feed_all-append [] ys d = refl
  feed_all-append (x ∷ xs) ys d = rw (feed_all-append xs ys (feed_byte max_payload d x).1)

  pub feed_byte_stuffed :
      (d : Decoder) (b : ℕ)
      → b ≢ 0
      → length d.cobs_buf < max_encoded_len (max_raw_size max_payload)
      → feed_byte max_payload d b ≡ (incomplete, record d { cobs_buf = d.cobs_buf ++ b ∷ [] })
  unfolding feed_byte
  feed_byte_stuffed d b ne room = ground arith

  -- Bytes other than the delimiter gather in the buffer, as long as it has room.
  pub feed_all_stuffed :
      (bytes : List ℕ) (d : Decoder)
      → All IsStuffed bytes
      → length d.cobs_buf + length bytes ≤ max_encoded_len (max_raw_size max_payload)
      → feed_all max_payload d bytes
        ≡ (replicate (length bytes) incomplete, record d { cobs_buf = d.cobs_buf ++ bytes })
  unfolding feed_all
  feed_all_stuffed [] d h room =
      ap (λ l. ([], record d { cobs_buf = l })) (sym (append-nil d.cobs_buf))
  feed_all_stuffed (b ∷ bs) d (hb, h) room =
      rw
        (
          feed_byte_stuffed d b hb.0 (omega arith),
          feed_all_stuffed bs (record d { cobs_buf = d.cobs_buf ++ b ∷ [] }) h
              (omega (arith, length-append d.cobs_buf (b ∷ []))),
        )
        (ap (λ l. (incomplete ∷ replicate (length bs) incomplete, record d { cobs_buf = l }))
          (append_assoc d.cobs_buf (b ∷ []) bs))

  -- The delimiter behind a stuffed frame.
  pub feed_byte_delimiter :
      (d : Decoder) (raw : List ℕ)
      → d.cobs_buf ≡ stuff raw
      → length raw ≤ max_raw_size max_payload
      → feed_byte max_payload d 0 ≡ process_raw max_payload (record d { cobs_buf = [] }) raw
  unfolding feed_byte process_frame
  feed_byte_delimiter d raw e small = rw (
    e,
    pos→== (length (stuff raw)) (omega (arith, length-stuff raw)),
    decode-stuff raw (max_raw_size max_payload) small,
  )

  feed_all_last :
      (d : Decoder) (b : ℕ) {r : DecoderResult} {d' : Decoder}
      → feed_byte max_payload d b ≡ (r, d')
      → feed_all max_payload d (b ∷ []) ≡ (r ∷ [], d')
  unfolding feed_all
  feed_all_last d b e = rw e

  -- Any stuffed frame with its delimiter, fed to a decoder that holds no partial frame.
  pub feed_all_frame :
      (d : Decoder) (raw : List ℕ)
      → d.cobs_buf ≡ []
      → All IsByte raw
      → length raw ≤ max_raw_size max_payload
      → let (r, d') = process_raw max_payload (record d { cobs_buf = [] }) raw in
        feed_all max_payload d (stuff raw ++ 0 ∷ [])
        ≡ (replicate (length (stuff raw)) incomplete ++ r ∷ [], d')
  feed_all_frame d raw idle bytes small =
      let full = record d { cobs_buf = d.cobs_buf ++ stuff raw } in
      feed_all-append (stuff raw) (0 ∷ []) d
      ∙ rw (
        feed_all_stuffed (stuff raw) d (stuff-IsStuffed raw bytes)
            (omega (arith, ap length idle, length-stuff raw)),
        feed_all_last full 0 (feed_byte_delimiter full raw (ap (λ l. l ++ stuff raw) idle) small),
      )

  -- The wire form of a message, fed to a decoder that holds no partial frame.
  pub feed_all-wire :
      (d : Decoder) (msg_type seq_num : ℕ) (payload : List ℕ)
      → d.cobs_buf ≡ []
      → IsByte msg_type × IsByte seq_num × All IsByte payload
      → length payload ≤ max_payload
      → length payload < 65536
      → feed_all max_payload d (wire msg_type seq_num payload) ≡ (
        replicate (length (wire msg_type seq_num payload) - 1) incomplete ++ frame_ready ∷ [],
        deliver d msg_type seq_num payload,
      )
  feed_all-wire d t s payload idle (ht, hs, hp) small short =
      let raw = raw_frame t s (some payload) (length payload) in
      let count : length (wire t s payload) - 1 ≡ length (stuff raw) =
        omega (arith, length-append (stuff raw) (0 ∷ [])) in
      let same : record d { cobs_buf = [] } ≡ d = ap (λ l. record d { cobs_buf = l }) (sym idle) in
      rw count (
        feed_all_frame d raw idle (raw_frame-IsByte t s payload ht hs hp)
          (omega (arith, length-raw_frame t s payload))
        ∙ rw (process_raw_frame max_payload (record d { cobs_buf = [] }) t s payload small short) (
            ap
              (λ e. (
                replicate (length (stuff raw)) incomplete ++ frame_ready ∷ [],
                deliver e t s payload,
              ))
              same))

  -- A message of bytes, whose payload is within `MaxPayload` and 16 bits, reaches the other side:
  -- the encoder's output, fed to any decoder that holds no partial frame, gives `INCOMPLETE` on every
  -- byte but the last, `FRAME_READY` there, and the fields and payload of the message.
  pub frame_round_trip :
      (d : Decoder) (msg_type seq_num : ℕ) (payload out_buf : List ℕ) (out_cap : ℕ)
      → d.cobs_buf ≡ []
      → IsByte msg_type × IsByte seq_num × All IsByte payload
      → length payload ≤ max_payload
      → length payload < 65536
      → max_encoded_len (frame_overhead + length payload) + 1 ≤ out_cap
      → out_cap ≤ length out_buf
      → length d.payload ≡ max_payload
      → let (n, buf) =
          encode_frame max_payload msg_type seq_num
            (some payload)
            (length payload)
            out_buf
            out_cap in
        let (results, d') = feed_all max_payload d (take n buf) in
        (results ≡ replicate (n - 1) incomplete ++ frame_ready ∷ [])
        × (d'.msg_type ≡ msg_type)
        × (d'.seq_num ≡ seq_num)
        × (take d'.payload_len d'.payload ≡ payload)
        × (d'.cobs_buf ≡ [])
  frame_round_trip d t s payload out_buf out_cap idle bytes small short fits real room =
      let (count, sent) =
        encode_frame-wire t s payload max_payload out_buf out_cap small fits real in
      rw (sent, feed_all-wire d t s payload idle bytes small short)
        (
          ap (λ k. replicate (k - 1) incomplete ++ frame_ready ∷ []) (sym count),
          refl,
          refl,
          take-overwrite payload d.payload (omega arith),
          idle,
        )
