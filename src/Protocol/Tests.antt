-- ===== src/Protocol/Tests.antt =====
-- Concrete runs of the wire protocol, and its theorems at concrete inputs.
use sputter_os.Prelude.{
  ℕ, ◌-◌, ◌≤◌, ◌<◌, ◌≡◌, ◌≢◌, refl, arith, List, [], ◌∷◌, ◌++◌, some, length, take, replicate,
}
use sputter_os.Protocol.Crc16.{crc16}
use sputter_os.Protocol.Crc16.Detect.{crc16_detects_byte}
use sputter_os.Protocol.Cobs
use sputter_os.Protocol.Cobs.{Outcome, wrote, unfinished}
use sputter_os.Protocol.Cobs.Stuffing.{stuff}
use sputter_os.Protocol.Cobs.Encode.{encode-stuff}
use sputter_os.Protocol.Cobs.Decode.{decode-stuff}
use sputter_os.Protocol.Cobs.Safety.{decode_safe}
use sputter_os.Protocol.Frame.{
  Decoder, incomplete, frame_ready, error, low_byte, high_byte, encode_frame, feed_all,
}
use sputter_os.Protocol.Frame.Wire.{wire}
use sputter_os.Protocol.Frame.Process.{deliver}
use sputter_os.Protocol.Frame.Delimited.{IsDelimited, encode_frame-IsDelimited}
use sputter_os.Protocol.Frame.RoundTrip.{frame_round_trip}
use sputter_os.Protocol.Frame.Integrity.{frame_resync, frame_corrupt_byte}
use sputter_os.Protocol.Frame.Bounds.{IsValid, feed_all-IsValid}

-- The check value of CRC-16/CCITT-FALSE.
crc16_check : crc16 (0x31 ∷ 0x32 ∷ 0x33 ∷ 0x34 ∷ 0x35 ∷ 0x36 ∷ 0x37 ∷ 0x38 ∷ 0x39 ∷ []) ≡ 0x29B1
unfolding crc16 sputter_os.Protocol.Crc16.crc16_from sputter_os.Protocol.Crc16.crc_byte
    sputter_os.Protocol.Crc16.crc_bits sputter_os.Protocol.Crc16.crc_bit
crc16_check = refl

encode_run :
    Cobs.encode (0x11 ∷ 0 ∷ 0x22 ∷ []) (replicate 6 0) 6 ≡ (4, 2 ∷ 0x11 ∷ 2 ∷ 0x22 ∷ 0 ∷ 0 ∷ [])
unfolding Cobs.encode Cobs.encode_loop Cobs.encode_byte Cobs.put_byte Cobs.close_block
encode_run = refl

decode_run : Cobs.decode (2 ∷ 0x11 ∷ 2 ∷ 0x22 ∷ []) 3 ≡ wrote (0x11 ∷ 0 ∷ 0x22 ∷ [])
unfolding Cobs.decode Cobs.decode_loop Cobs.decode_block Cobs.copy_data Cobs.end_block
decode_run = refl

crc16_detects_byte_example : crc16 ((1 ∷ []) ++ 7 ∷ 9 ∷ []) ≢ crc16 ((1 ∷ []) ++ 8 ∷ 9 ∷ [])
crc16_detects_byte_example =
    crc16_detects_byte (1 ∷ []) (9 ∷ []) 7 8 (omega arith) (omega arith) (omega arith) (omega arith)

encode-stuff_example :
    ((Cobs.encode (5 ∷ 0 ∷ []) (replicate 4 0) 4).0 ≡ length (stuff (5 ∷ 0 ∷ [])))
    × (take (length (stuff (5 ∷ 0 ∷ []))) (Cobs.encode (5 ∷ 0 ∷ []) (replicate 4 0) 4).1
        ≡ stuff (5 ∷ 0 ∷ []))
encode-stuff_example = encode-stuff (5 ∷ 0 ∷ []) (replicate 4 0) 4 (omega arith) (omega arith)

decode-stuff_example : Cobs.decode (stuff (5 ∷ 0 ∷ 6 ∷ [])) 3 ≡ wrote (5 ∷ 0 ∷ 6 ∷ [])
decode-stuff_example = decode-stuff (5 ∷ 0 ∷ 6 ∷ []) 3 (omega arith)

decode_safe_example :
    (Cobs.decode (3 ∷ 1 ∷ []) 8 ≢ unfinished)
    × ((out : List ℕ)
        → Cobs.decode (3 ∷ 1 ∷ []) 8 ≡ wrote out
        → (length out ≤ 8) × (length out < 2))
decode_safe_example = decode_safe (3 ∷ 1 ∷ []) 8

-- A decoder for payloads of up to 4 bytes.
abbrev idle : Decoder
idle = record {
  cobs_buf = [];
  msg_type = 0xF0;
  seq_num = 0;
  payload = replicate 4 0;
  payload_len = 0;
}

abbrev message : List ℕ
message = 1 ∷ 0 ∷ 3 ∷ []

frame_round_trip_example :
    let (n, buf) = encode_frame 4 1 7 (some message) 3 (replicate 12 0) 12 in
    let (results, d') = feed_all 4 idle (take n buf) in
    (results ≡ replicate (n - 1) incomplete ++ frame_ready ∷ [])
    × (d'.msg_type ≡ 1)
    × (d'.seq_num ≡ 7)
    × (take d'.payload_len d'.payload ≡ message)
    × (d'.cobs_buf ≡ [])
frame_round_trip_example =
    frame_round_trip 4 idle 1 7 message (replicate 12 0) 12 refl
      (omega arith, omega arith, omega arith) (omega arith) (omega arith) (omega arith)
      (omega arith) refl

frame_resync_example :
    let (heard, d') = feed_all 4 idle ((9 ∷ []) ++ 0 ∷ []) in
    feed_all 4 idle (((9 ∷ []) ++ 0 ∷ []) ++ wire 1 7 message) ≡ (
      heard ++ (replicate (length (wire 1 7 message) - 1) incomplete ++ frame_ready ∷ []),
      deliver d' 1 7 message,
    )
frame_resync_example =
    frame_resync 4 idle (9 ∷ []) 1 7 message (omega arith, omega arith, omega arith) (omega arith)
      (omega arith)

-- The frame whose sequence number 7 becomes 8.
abbrev unaltered : List ℕ
unaltered =
    let crc = crc16 ((1 ∷ []) ++ 7 ∷ 0 ∷ 0 ∷ []) in
    ((1 ∷ []) ++ 7 ∷ 0 ∷ 0 ∷ []) ++ low_byte crc ∷ high_byte crc ∷ []

frame_corrupt_byte_example :
    (pre : List ℕ) × (post : List ℕ) × (stuff unaltered ≡ pre ++ 7 ∷ post)
    × (feed_all 4 idle ((pre ++ 8 ∷ post) ++ 0 ∷ []) ≡ (
      replicate (length (stuff unaltered)) incomplete ++ error ∷ [],
      record idle { cobs_buf = [] },
    ))
frame_corrupt_byte_example =
    frame_corrupt_byte 4 idle (1 ∷ []) (0 ∷ 0 ∷ []) 7 8 refl
      (omega arith, omega arith, omega arith, omega arith) (omega arith) (omega arith) (omega arith)
      (omega arith) (omega arith)

abbrev crammed : Decoder
crammed = record idle { cobs_buf = replicate 11 5 }

feed_all-IsValid_example : IsValid 4 (feed_all 4 idle (1 ∷ 0 ∷ 5 ∷ [])).1
feed_all-IsValid_example = feed_all-IsValid 4 (1 ∷ 0 ∷ 5 ∷ []) idle (omega arith)

encode_frame-IsDelimited_example :
    let (n, buf) = encode_frame 4 1 7 (some message) 3 (replicate 12 0) 12 in
    IsDelimited (take n buf) × (length (take n buf) ≡ n) × (n ≤ 12)
encode_frame-IsDelimited_example =
    encode_frame-IsDelimited 1 7 message 4 (replicate 12 0) 12 (omega arith) (omega arith)
      (omega arith) (omega arith) (omega arith) (omega arith)
