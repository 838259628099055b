-- ===== src/Protocol/Frame/Delimited.antt =====
-- The type of what `FrameEncoder` puts on the wire.
use sputter_os.Prelude.{
  ap, ℕ, ◌+◌, ◌≤◌, List, [], ◌∷◌, ◌++◌, ◌≡◌, ◌∙◌, ap, sym, arith, some, length, length-append, take,
  All,
}
use sputter_os.Protocol.Cobs.{max_encoded_len}
use sputter_os.Protocol.Cobs.Stuffing.{stuff, IsStuffed}
use sputter_os.Protocol.Frame.{frame_overhead, raw_frame, encode_frame}
use sputter_os.Protocol.Frame.Wire.{
  length-raw_frame, length-stuff, IsByte, raw_frame-IsByte, encode_frame-wire,
}
use sputter_os.Protocol.Frame.RoundTrip.{stuff-IsStuffed}

-- Bytes that are not 0, and one 0 behind them.
abbrev pub IsDelimited : List ℕ → Type 0
IsDelimited bytes = (body : List ℕ) × (bytes ≡ body ++ 0 ∷ []) × All IsStuffed body

-- A message of bytes, whose payload is within `MaxPayload` and in a buffer of the worst-case size, goes
-- out as bytes of which the last and no other is the delimiter 0; and their number is what the encoder
-- returns, within the capacity.
pub encode_frame-IsDelimited :
    (msg_type seq_num : ℕ) (payload : List ℕ) (max_payload : ℕ) (out_buf : List ℕ) (out_cap : ℕ)
    → IsByte msg_type
    → IsByte seq_num
    → All IsByte payload
    → length payload ≤ max_payload
    → max_encoded_len (frame_overhead + length payload) + 1 ≤ out_cap
    → out_cap ≤ length out_buf
    → let (n, buf) =
        encode_frame max_payload msg_type seq_num (some payload) (length payload) out_buf out_cap in
      IsDelimited (take n buf) × (length (take n buf) ≡ n) × (n ≤ out_cap)
encode_frame-IsDelimited msg_type seq_num payload max_payload out_buf out_cap ht hs hp small fits
      real =
    let raw = raw_frame msg_type seq_num (some payload) (length payload) in
    let (count, bytes) =
      encode_frame-wire msg_type seq_num payload max_payload out_buf out_cap small fits real in
    let stuffed = stuff-IsStuffed raw (raw_frame-IsByte msg_type seq_num payload ht hs hp) in
    let (upper, lower) = length-stuff raw in
    (
      (stuff raw, bytes, stuffed),
      ap length bytes ∙ sym count,
      omega (
        arith,
        count,
        upper,
        length-raw_frame msg_type seq_num payload,
        length-append (stuff raw) (0 ∷ []),
      ),
    )
