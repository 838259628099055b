-- ===== src/Protocol/Frame/Process.antt =====
-- `FrameDecoder::processFrame` on a decoded frame, taken apart into what the checksum covers and the
-- two checksum bytes.
use sputter_os.Prelude.{
  ℕ, true, false, not, ◌+◌, ◌-◌, ◌≤◌, ◌<◌, List, [], ◌∷◌, ◌++◌, ◌≡◌, ◌≢◌, ◌∙◌, ap, arith, some,
  length, length-append, get_or, take-append_left, get_or-append_right, if◌then◌else◌, ◌==◌, ge→ltb,
}
use sputter_os.Protocol.Crc16.{crc16}
use sputter_os.Protocol.Crc16.Detect.{crc16-lt}
use sputter_os.Protocol.Frame.{
  low_byte, high_byte, join_bytes, raw_frame, frame_ready, error, Decoder, overwrite, take_fields,
  process_raw,
}
use sputter_os.Protocol.Frame.Wire.{join_bytes_of, body_of}

-- The checksum decides over a frame of at least a header.
process_raw_split :
    (max_payload : ℕ) (d : Decoder) (body : List ℕ) (lo hi : ℕ)
    → 4 ≤ length body
    → process_raw max_payload d (body ++ lo ∷ hi ∷ []) ≡ (
        if not (crc16 body == join_bytes lo hi)
        then (error, d)
        else take_fields max_payload d (body ++ lo ∷ hi ∷ []))
unfolding process_raw
process_raw_split max_payload d body lo hi h =
    let tail = lo ∷ hi ∷ [] in
    let at : length (body ++ tail) - 2 ≡ length body = omega (arith, length-append body tail) in
    let at0 : get_or (body ++ tail) (length body) 0 ≡ lo =
      ap (λ i. get_or (body ++ tail) i 0) (omega arith) ∙ get_or-append_right body tail 0 0 in
    let at1 : get_or (body ++ tail) (length body + 1) 0 ≡ hi = get_or-append_right body tail 1 0 in
    rw (
      at,
      take-append_left body tail,
      at0,
      at1,
      ge→ltb (length (body ++ tail)) 6 (omega (arith, length-append body tail)),
    )

-- A frame whose checksum bytes do not fit what they cover is an error, and changes no field.
pub process_raw_bad :
    (max_payload : ℕ) (d : Decoder) (body : List ℕ) (lo hi : ℕ)
    → 4 ≤ length body
    → crc16 body ≢ join_bytes lo hi
    → process_raw max_payload d (body ++ lo ∷ hi ∷ []) ≡ (error, d)
process_raw_bad max_payload d body lo hi h ne =
    process_raw_split max_payload d body lo hi h ∙ rw (ne→== _ _ ne)
  where
    ne→== : (a b : ℕ) → a ≢ b → (a == b) ≡ false
    ne→== a b n = ground arith

process_raw_good :
    (max_payload : ℕ) (d : Decoder) (body : List ℕ)
    → 4 ≤ length body
    → let raw = body ++ low_byte (crc16 body) ∷ high_byte (crc16 body) ∷ [] in
      process_raw max_payload d raw ≡ take_fields max_payload d raw
process_raw_good max_payload d body h =
    process_raw_split max_payload d body _ _ h
    ∙ rw (join_bytes_of (crc16 body) (crc16-lt body), same (crc16 body))
  where
    same : (a : ℕ) → (a == a) ≡ true
    same a = ground arith

-- The decoder with a message delivered.
abbrev pub deliver : Decoder → ℕ → ℕ → List ℕ → Decoder
deliver d msg_type seq_num payload = record {
  cobs_buf = d.cobs_buf;
  msg_type = msg_type;
  seq_num = seq_num;
  payload = overwrite payload d.payload;
  payload_len = length payload;
}

take_fields_good :
    (max_payload : ℕ) (d : Decoder) (t s lo hi c1 c2 : ℕ) (payload : List ℕ)
    → length payload ≤ max_payload
    → join_bytes lo hi ≡ length payload
    → take_fields max_payload d (t ∷ s ∷ lo ∷ hi ∷ (payload ++ c1 ∷ c2 ∷ []))
      ≡ (frame_ready, deliver d t s payload)
unfolding take_fields
take_fields_good max_payload d t s lo hi c1 c2 payload small e =
    rw (e, take-append_left payload (c1 ∷ c2 ∷ []))
      (ground (arith, length-append payload (c1 ∷ c2 ∷ [])))

-- The raw frame that the encoder builds for a message delivers the message.
pub process_raw_frame :
    (max_payload : ℕ) (d : Decoder) (msg_type seq_num : ℕ) (payload : List ℕ)
    → length payload ≤ max_payload
    → length payload < 65536
    → process_raw max_payload d (raw_frame msg_type seq_num (some payload) (length payload))
      ≡ (frame_ready, deliver d msg_type seq_num payload)
unfolding raw_frame
process_raw_frame max_payload d msg_type seq_num payload small short =
    let len = length payload in
    let body = msg_type ∷ seq_num ∷ low_byte len ∷ high_byte len ∷ payload in
    let crc = crc16 body in
    rw (body_of msg_type seq_num payload) (
      process_raw_good max_payload d body (omega arith)
      ∙ take_fields_good max_payload d msg_type seq_num (low_byte len) (high_byte len)
          (low_byte crc) (high_byte crc) payload small (join_bytes_of len short))
