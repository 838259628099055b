-- ===== src/Protocol/Frame/Integrity.antt =====
-- What `FrameDecoder` makes of damage: noise in front of a frame, a changed byte, an over-long frame.
use sputter_os.Prelude.{
  ℕ, ◌+◌, ◌-◌, ◌≤◌, ◌<◌, List, [], ◌∷◌, ◌++◌, ◌≡◌, ◌≢◌, refl, ◌∙◌, sym, arith, length,
  length-append, append_assoc, ap, replicate, All, All-append,
}
use sputter_os.Protocol.Crc16.{crc16}
use sputter_os.Protocol.Crc16.Detect.{crc16-lt, crc16_detects_byte}
use sputter_os.Protocol.Cobs
use sputter_os.Protocol.Cobs.{max_encoded_len, Outcome}
use sputter_os.Protocol.Cobs.Stuffing.{stuff}
use sputter_os.Protocol.Cobs.Changed.{Changed-length, stuff-Changed}
use sputter_os.Protocol.Frame.{
  join_bytes, max_raw_size, incomplete, frame_ready, error, Decoder, low_byte, high_byte,
  take_fields, decoded, process_raw, process_frame, feed_byte, feed_all,
}
use sputter_os.Protocol.Frame.Wire.{
  IsByte, wire, pos→==, low_byte-IsByte, high_byte-IsByte, join_bytes_of,
}
use sputter_os.Protocol.Frame.Process.{deliver, process_raw_bad}
use sputter_os.Protocol.Frame.RoundTrip.{feed_all-append, feed_all_frame, feed_all-wire}

module _ (max_payload : ℕ) where
  cobs_buf-take_fields :
      (d : Decoder) (raw : List ℕ) → (take_fields max_payload d raw).1.cobs_buf ≡ d.cobs_buf
  unfolding take_fields
  cobs_buf-take_fields d raw = ground arith

  cobs_buf-process_raw :
      (d : Decoder) (raw : List ℕ) → (process_raw max_payload d raw).1.cobs_buf ≡ d.cobs_buf
  unfolding process_raw
  cobs_buf-process_raw d raw = ground (arith, cobs_buf-take_fields d raw)

  -- Whatever has gathered, a delimiter empties the buffer.
  cobs_buf-feed_delimiter : (d : Decoder) → (feed_byte max_payload d 0).1.cobs_buf ≡ []
  unfolding feed_byte process_frame
  cobs_buf-feed_delimiter d = ground (
    arith,
    empty d.cobs_buf,
    cobs_buf-process_raw (record d { cobs_buf = [] })
        (decoded (Cobs.decode d.cobs_buf (max_raw_size max_payload))),
  )
    where
      empty : (l : List ℕ) → length l ≡ 0 → l ≡ []
      empty [] e = refl
      empty (x ∷ xs) e = absurd (omega arith)

  cobs_buf-feed_all_delimiter : (d : Decoder) → (feed_all max_payload d (0 ∷ [])).1.cobs_buf ≡ []
  unfolding feed_all
  cobs_buf-feed_all_delimiter d = cobs_buf-feed_delimiter d

  -- After any noise and one delimiter, whatever the decoder held, the frame of a message is delivered
  -- whole.
  pub frame_resync :
      (d : Decoder) (noise : List ℕ) (msg_type seq_num : ℕ) (payload : List ℕ)
      → IsByte msg_type × IsByte seq_num × All IsByte payload
      → length payload ≤ max_payload
      → length payload < 65536
      → let (heard, d') = feed_all max_payload d (noise ++ 0 ∷ []) in
        feed_all max_payload d ((noise ++ 0 ∷ []) ++ wire msg_type seq_num payload) ≡ (
          heard
              ++ (replicate (length (wire msg_type seq_num payload) - 1) incomplete
                  ++ frame_ready ∷ []),
          deliver d' msg_type seq_num payload,
        )
  frame_resync d noise t s payload bytes small short =
      let quiet : (feed_all max_payload d (noise ++ 0 ∷ [])).1.cobs_buf ≡ [] =
        rw (feed_all-append max_payload noise (0 ∷ []) d)
          (cobs_buf-feed_all_delimiter (feed_all max_payload d noise).1) in
      feed_all-append max_payload (noise ++ 0 ∷ []) (wire t s payload) d
      ∙ rw (
          feed_all-wire max_payload (feed_all max_payload d (noise ++ 0 ∷ [])).1 t s payload quiet
            bytes small short)

  -- A frame whose checksum is that of bytes which differ from its own in one is an error, and leaves the
  -- fields of the last good frame as they were.
  pub frame_corrupt_raw :
      (d : Decoder) (front back : List ℕ) (x y : ℕ)
      → d.cobs_buf ≡ []
      → All IsByte front × All IsByte back × IsByte x × IsByte y
      → x ≢ y
      → 4 ≤ length (front ++ y ∷ back)
      → length (front ++ y ∷ back) + 2 ≤ max_raw_size max_payload
      → let crc = crc16 (front ++ x ∷ back) in
        let raw = (front ++ y ∷ back) ++ low_byte crc ∷ high_byte crc ∷ [] in
        feed_all max_payload d (stuff raw ++ 0 ∷ [])
        ≡ (replicate (length (stuff raw)) incomplete ++ error ∷ [], record d { cobs_buf = [] })
  frame_corrupt_raw d front back x y idle (hf, hb, hx, hy) ne long small =
      let crc = crc16 (front ++ x ∷ back) in
      let tail = low_byte crc ∷ high_byte crc ∷ [] in
      let clean : All IsByte ((front ++ y ∷ back) ++ tail) =
        All-append IsByte (front ++ y ∷ back) tail (All-append IsByte front (y ∷ back) hf (hy, hb))
          (low_byte-IsByte crc, (high_byte-IsByte crc, tt)) in
      let differ : crc16 (front ++ y ∷ back) ≢ join_bytes (low_byte crc) (high_byte crc) = λ e.
        crc16_detects_byte front back x y hb hx hy ne
          (sym (e ∙ join_bytes_of crc (crc16-lt (front ++ x ∷ back)))) in
      feed_all_frame max_payload d ((front ++ y ∷ back) ++ tail) idle clean
        (omega (arith, length-append (front ++ y ∷ back) tail))
      ∙ rw (
          process_raw_bad max_payload (record d { cobs_buf = [] }) (front ++ y ∷ back) _ _ long
            differ)

  -- A frame of at least four bytes that fits the decoder goes out stuffed with its checksum, and one of
  -- the bytes under the checksum that is not 0 becomes another byte that is not 0 on the way: the
  -- bytes on the wire have it in one place, and there it is changed. The decoder,
  -- which holds no partial frame, answers the delimiter with `ERROR` and everything before it with
  -- `INCOMPLETE`, and the fields of the last good frame stay as they were.
  pub frame_corrupt_byte :
      (d : Decoder) (front back : List ℕ) (x y : ℕ)
      → d.cobs_buf ≡ []
      → All IsByte front × All IsByte back × IsByte x × IsByte y
      → x ≢ y
      → x ≢ 0
      → y ≢ 0
      → 4 ≤ length (front ++ y ∷ back)
      → length (front ++ y ∷ back) + 2 ≤ max_raw_size max_payload
      → let crc = crc16 (front ++ x ∷ back) in
        let sent = stuff ((front ++ x ∷ back) ++ low_byte crc ∷ high_byte crc ∷ []) in
        (pre : List ℕ) × (post : List ℕ) × (sent ≡ pre ++ x ∷ post)
        × (feed_all max_payload d ((pre ++ y ∷ post) ++ 0 ∷ [])
            ≡ (replicate (length sent) incomplete ++ error ∷ [], record d { cobs_buf = [] }))
  frame_corrupt_byte d front back x y idle bytes ne hx hy long small =
      let crc = crc16 (front ++ x ∷ back) in
      let tail = low_byte crc ∷ high_byte crc ∷ [] in
      let raw = (front ++ y ∷ back) ++ tail in
      let change = stuff-Changed x y (pos→== x (omega arith)) (pos→== y (omega arith)) in
      let (pre, post, was, is) = change front (back ++ tail) in
      let was' = ap stuff (append_assoc front (x ∷ back) tail) ∙ was in
      let is' : stuff raw ≡ pre ++ y ∷ post = ap stuff (append_assoc front (y ∷ back) tail) ∙ is in
      let n : length (stuff raw) ≡ length (stuff ((front ++ x ∷ back) ++ tail)) =
        ap length is'
        ∙ (sym (Changed-length x y _ _ (pre, post, refl, refl)) ∙ sym (ap length was')) in
      (
        pre,
        post,
        was',
        ap (λ l. feed_all max_payload d (l ++ 0 ∷ [])) (sym is')
            ∙ (frame_corrupt_raw d front back x y idle bytes ne long small
                ∙ ap (λ k. (replicate k incomplete ++ error ∷ [], record d { cobs_buf = [] })) n),
      )

  feed_byte_overflow :
      (d : Decoder) (b : ℕ)
      → b ≢ 0
      → max_encoded_len (max_raw_size max_payload) ≤ length d.cobs_buf
      → feed_byte max_payload d b ≡ (error, record d { cobs_buf = [] })
  unfolding feed_byte
  feed_byte_overflow d b ne full = ground arith

  feed_all_cons :
      (d : Decoder) (b : ℕ) (bytes : List ℕ)
      → feed_all max_payload d (b ∷ bytes) ≡ (
          let (r, d') = feed_byte max_payload d b in
          let (rs, d'') = feed_all max_payload d' bytes in (r ∷ rs, d''))
  unfolding feed_all
  feed_all_cons d b bytes = refl

  -- The byte that does not fit the buffer is answered by `ERROR`, and gathering starts afresh with the
  -- very next byte: what follows it up to a delimiter counts as a frame of its own, and is delivered
  -- if it is the wire form of a message.
  pub overflow_restarts :
      (d : Decoder) (b msg_type seq_num : ℕ) (payload : List ℕ)
      → b ≢ 0
      → max_encoded_len (max_raw_size max_payload) ≤ length d.cobs_buf
      → IsByte msg_type × IsByte seq_num × All IsByte payload
      → length payload ≤ max_payload
      → length payload < 65536
      → feed_all max_payload d (b ∷ wire msg_type seq_num payload) ≡ (
        error
            ∷ (replicate (length (wire msg_type seq_num payload) - 1) incomplete
                ++ frame_ready ∷ []),
        deliver (record d { cobs_buf = [] }) msg_type seq_num payload,
      )
  overflow_restarts d b t s payload ne full bytes small short =
      feed_all_cons d b (wire t s payload)
      ∙ rw (
        feed_byte_overflow d b ne full,
        feed_all-wire max_payload (record d { cobs_buf = [] }) t s payload refl bytes small short,
      )
