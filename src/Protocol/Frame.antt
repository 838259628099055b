-- ===== src/Protocol/Frame.antt =====
-- include/sputteros/comms/protocol/{FrameConstants,FrameEncoder,FrameDecoder}.h. A message type is
-- its byte, as in the source, where a cast makes one of any byte. `MaxPayload` is the parameter
-- `max_payload`.
pub mod Wire
pub mod Process
pub mod RoundTrip
pub mod Delimited
pub mod Integrity
pub mod Bounds
use sputter_os.Prelude.{
  ℕ, zero, suc, ◌+◌, ◌-◌, ◌*◌, ◌/◌, ◌%◌, Bool, true, false, not, List, [], ◌∷◌, ◌++◌, ltb, ◌==◌,
  ◌&&◌, if◌then◌else◌, Option, none, some, length, set, take, drop, get_or,
}
use Prim.Native.Nat.{bit_and, bit_or}
use sputter_os.Protocol.Crc16.{crc16}
use sputter_os.Protocol.Cobs
use sputter_os.Protocol.Cobs.{Outcome, max_encoded_len}

abbrev pub frame_header_size : ℕ
frame_header_size = 4

abbrev pub frame_trailer_size : ℕ
frame_trailer_size = 2

abbrev pub frame_overhead : ℕ
frame_overhead = frame_header_size + frame_trailer_size

abbrev pub frame_delimiter : ℕ
frame_delimiter = 0

abbrev pub max_raw_size : ℕ → ℕ
max_raw_size max_payload = frame_overhead + max_payload

-- `x & 0xFF` and `(x >> 8) & 0xFF`, and `lo | (hi << 8)`
abbrev pub low_byte : ℕ → ℕ
low_byte x = bit_and x 0xFF

abbrev pub high_byte : ℕ → ℕ
high_byte x = bit_and (x / 256) 0xFF

abbrev pub join_bytes : ℕ → ℕ → ℕ
join_bytes lo hi = bit_or lo (hi * 256)

-- The part of the staging buffer that the checksum covers. The payload is `none` for a null pointer.
unfoldable pub raw_body : ℕ → ℕ → Option (List ℕ) → ℕ → List ℕ
raw_body msg_type seq_num payload payload_len =
    let header = msg_type ∷ seq_num ∷ low_byte payload_len ∷ high_byte payload_len ∷ [] in
    elim payload [ none ↦ header | some bytes ↦ header ++ take payload_len bytes ]

unfoldable pub raw_frame : ℕ → ℕ → Option (List ℕ) → ℕ → List ℕ
raw_frame msg_type seq_num payload payload_len =
    let body = raw_body msg_type seq_num payload payload_len in
    let crc = crc16 body in body ++ low_byte crc ∷ high_byte crc ∷ []

-- `FrameEncoder::encode`: the returned length with the output buffer.
unfoldable pub encode_frame : ℕ → ℕ → ℕ → Option (List ℕ) → ℕ → List ℕ → ℕ → ℕ × List ℕ
encode_frame max_payload msg_type seq_num payload payload_len out_buf out_cap =
    let raw = raw_frame msg_type seq_num payload payload_len in
    let (cobs_len, buf) = Cobs.encode raw out_buf (out_cap - 1) in
    if ltb max_payload payload_len
    then (0, out_buf)
    else if ltb out_cap (max_encoded_len (frame_overhead + payload_len) + 1)
    then (0, out_buf)
    else if cobs_len == 0
    then (0, buf)
    else (cobs_len + 1, set buf cobs_len frame_delimiter)

pub data DecoderResult : Type 0 where
  incomplete frame_ready error : DecoderResult

-- `cobs_buf` is `m_cobsBuf[0 .. m_cobsLen)`; `payload` is the whole array `m_payload`.
pub record Decoder : Type 0 where
  pub cobs_buf : List ℕ
  pub msg_type : ℕ
  pub seq_num : ℕ
  pub payload : List ℕ
  pub payload_len : ℕ

abbrev pub heartbeat : ℕ
heartbeat = 0xF0

unfoldable pub reset : Decoder → Decoder
reset d = record d { cobs_buf = []; msg_type = heartbeat; seq_num = 0; payload_len = 0 }

-- The bytes of `rawBuf[0 .. rawLen)`: none where `Cobs::decode` returns 0.
abbrev pub decoded : Outcome → List ℕ
decoded (Outcome.wrote out) = out
decoded _ = []

-- The loop that copies into `m_payload`.
abbrev pub overwrite : List ℕ → List ℕ → List ℕ
overwrite [] old = old
overwrite (x ∷ xs) [] = []
overwrite (x ∷ xs) (_ ∷ old) = x ∷ overwrite xs old

-- `processFrame` once the checksum is good.
unfoldable pub take_fields : ℕ → Decoder → List ℕ → DecoderResult × Decoder
take_fields max_payload d raw =
    let len = join_bytes (get_or raw 2 0) (get_or raw 3 0) in
    let d' = record d { msg_type = get_or raw 0 0; seq_num = get_or raw 1 0 } in
    if not (len == length raw - frame_trailer_size - frame_header_size)
    then (error, d')
    else if ltb max_payload len
    then (error, d')
    else (
      frame_ready,
      record d' {
        payload = overwrite (take len (drop frame_header_size raw)) d'.payload;
        payload_len = len;
      },
    )

unfoldable pub process_raw : ℕ → Decoder → List ℕ → DecoderResult × Decoder
process_raw max_payload d raw =
    let crc_offset = length raw - frame_trailer_size in
    let expect = join_bytes (get_or raw crc_offset 0) (get_or raw (crc_offset + 1) 0) in
    if ltb (length raw) frame_overhead
    then (error, d)
    else if not (crc16 (take crc_offset raw) == expect)
    then (error, d)
    else take_fields max_payload d raw

unfoldable pub process_frame : ℕ → Decoder → DecoderResult × Decoder
process_frame max_payload d =
    process_raw max_payload (record d { cobs_buf = [] })
      (decoded (Cobs.decode d.cobs_buf (max_raw_size max_payload)))

unfoldable pub feed_byte : ℕ → Decoder → ℕ → DecoderResult × Decoder
feed_byte max_payload d byte =
    if byte == frame_delimiter
    then (if length d.cobs_buf == 0 then (incomplete, d) else process_frame max_payload d)
    else if ltb (length d.cobs_buf) (max_encoded_len (max_raw_size max_payload))
    then (incomplete, record d { cobs_buf = d.cobs_buf ++ byte ∷ [] })
    else (error, record d { cobs_buf = [] })

-- A run of bytes from the transport, with what each call returned.
unfoldable pub feed_all : ℕ → Decoder → List ℕ → List DecoderResult × Decoder
feed_all max_payload d [] = ([], d)
feed_all max_payload d (byte ∷ bytes) =
    let (r, d') = feed_byte max_payload d byte in
    let (rs, d'') = feed_all max_payload d' bytes in (r ∷ rs, d'')
