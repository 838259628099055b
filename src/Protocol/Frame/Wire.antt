-- ===== src/Protocol/Frame/Wire.antt =====
-- What `FrameEncoder::encode` puts on the wire.
use sputter_os.Prelude.{
  false, ◌==◌, take_all, ℕ, suc, ◌+◌, ◌-◌, ◌/◌, ◌%◌, ◌≤◌, ◌<◌, List, [], ◌∷◌, ◌++◌, ◌≡◌, ◌∙◌, ap,
  arith, some, length, length-append, take, set, take-set_end, take_all, All, All-append, ge→ltb,
}
use sputter_os.Prelude.Bits.{bit_and_byte, bit_or_fields}
use sputter_os.Protocol.Cobs
use sputter_os.Protocol.Cobs.{max_encoded_len}
use sputter_os.Protocol.Cobs.Encode.{encode-stuff, length-encode}
use sputter_os.Protocol.Cobs.Stuffing.{stuff, length-stuff_from}
use sputter_os.Protocol.Frame.{
  frame_overhead, low_byte, high_byte, join_bytes, raw_body, raw_frame, encode_frame,
}

pub join_bytes_of : (x : ℕ) → x < 65536 → join_bytes (low_byte x) (high_byte x) ≡ x
join_bytes_of x h =
    rw
      (
        bit_and_byte x,
        bit_and_byte (x / 256),
        bit_or_fields 8 (x / 256 % 256) (x % 256) (omega arith),
      )
      (omega arith)

abbrev pub IsByte : ℕ → Type 0
IsByte b = b < 256

pub low_byte-IsByte : (x : ℕ) → IsByte (low_byte x)
low_byte-IsByte x = omega (arith, bit_and_byte x)

pub high_byte-IsByte : (x : ℕ) → IsByte (high_byte x)
high_byte-IsByte x = omega (arith, bit_and_byte (x / 256))

-- The stuffing of `raw` is longer than it, and within the worst case.
pub length-stuff :
    (raw : List ℕ)
    → (length (stuff raw) ≤ max_encoded_len (length raw)) × (length raw + 1 ≤ length (stuff raw))
unfolding stuff
length-stuff raw = omega (arith, length-stuff_from raw [] (omega arith))

pub pos→== : (n : ℕ) → 0 < n → (n == 0) ≡ false
pos→== n h = ground arith

-- A message whose payload has the length that is announced.
module _ (msg_type seq_num : ℕ) (payload : List ℕ) where
  pub body_of :
      raw_body msg_type seq_num (some payload) (length payload)
      ≡ msg_type ∷ seq_num ∷ low_byte (length payload) ∷ high_byte (length payload) ∷ payload
  unfolding raw_body
  body_of = rw take_all

  pub length-raw_frame :
      length (raw_frame msg_type seq_num (some payload) (length payload))
      ≡ frame_overhead + length payload
  unfolding raw_frame
  length-raw_frame = rw (body_of, length-append) (omega arith)

  pub raw_frame-IsByte :
      IsByte msg_type
      → IsByte seq_num
      → All IsByte payload
      → All IsByte (raw_frame msg_type seq_num (some payload) (length payload))
  unfolding raw_frame
  raw_frame-IsByte ht hs hp = rw body_of (
      All-append IsByte (msg_type ∷ seq_num ∷ _ ∷ _ ∷ payload) _
        (ht, (hs, (low_byte-IsByte _, (high_byte-IsByte _, hp))))
        (low_byte-IsByte _, (high_byte-IsByte _, tt)))

  -- The bytes that go out for the message: the stuffed raw frame and the delimiter.
  abbrev pub wire : List ℕ
  wire = stuff (raw_frame msg_type seq_num (some payload) (length payload)) ++ 0 ∷ []

  -- Behind its guards the encoder only adds the delimiter to what the codec returns.
  encode_frame_pass :
      (max_payload : ℕ) (out_buf : List ℕ) (out_cap : ℕ)
      → length payload ≤ max_payload
      → max_encoded_len (frame_overhead + length payload) + 1 ≤ out_cap
      → let (n, buf) =
          Cobs.encode
            (raw_frame msg_type seq_num (some payload) (length payload))
            out_buf
            (out_cap - 1) in
        0 < n
        → encode_frame max_payload msg_type seq_num (some payload) (length payload) out_buf out_cap
          ≡ (n + 1, set buf n 0)
  unfolding encode_frame
  encode_frame_pass max_payload out_buf out_cap small fits pos = rw (
    ge→ltb max_payload (length payload) small,
    ge→ltb out_cap (max_encoded_len (frame_overhead + length payload) + 1) fits,
    pos→== _ pos,
  )

  -- With a payload within `MaxPayload` and a buffer of the worst-case size, the encoder returns the
  -- length of the wire form and the buffer begins with it.
  pub encode_frame-wire :
      (max_payload : ℕ) (out_buf : List ℕ) (out_cap : ℕ)
      → length payload ≤ max_payload
      → max_encoded_len (frame_overhead + length payload) + 1 ≤ out_cap
      → out_cap ≤ length out_buf
      → let (n, buf) =
          encode_frame max_payload msg_type seq_num
            (some payload)
            (length payload)
            out_buf
            out_cap in
        (n ≡ length wire) × (take n buf ≡ wire)
  encode_frame-wire max_payload out_buf out_cap small fits real =
      let raw = raw_frame msg_type seq_num (some payload) (length payload) in
      let (count, bytes) =
        encode-stuff raw out_buf (out_cap - 1) (omega (arith, length-raw_frame)) (omega arith) in
      let (upper, lower) = length-stuff raw in
      let room : length (stuff raw) < length (Cobs.encode raw out_buf (out_cap - 1)).1 =
        omega (arith, upper, length-encode raw out_buf (out_cap - 1), length-raw_frame) in
      let grow : length (stuff raw) + 1 ≡ suc (length (stuff raw)) = omega arith in
      rw
        (
          encode_frame_pass max_payload out_buf out_cap small fits (omega (arith, count, lower)),
          count,
        )
        (
          omega (arith, length-append (stuff raw) (0 ∷ [])),
          rw grow (take-set_end (length (stuff raw)) _ 0 room ∙ ap (λ l. l ++ 0 ∷ []) bytes),
        )
