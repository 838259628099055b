-- ===== src/Protocol/Frame/Bounds.antt =====
-- The sizes that `FrameDecoder` keeps to, whatever bytes come.
use sputter_os.Prelude.{
  drop, take, get_or, ℕ, suc, ◌≤◌, List, [], ◌∷◌, ◌≡◌, refl, ap, arith, length, length-append,
}
use sputter_os.Protocol.Cobs
use sputter_os.Protocol.Cobs.{max_encoded_len, Outcome}
use sputter_os.Protocol.Frame.{
  max_raw_size, join_bytes, Decoder, overwrite, take_fields, process_raw, process_frame, feed_byte,
  feed_all, reset, decoded,
}

length-overwrite : (bytes old : List ℕ) → length (overwrite bytes old) ≡ length old
length-overwrite [] old = refl
length-overwrite (b ∷ bs) [] = refl
length-overwrite (b ∷ bs) (o ∷ old) = ap suc (length-overwrite bs old)

module _ (max_payload : ℕ) where
  -- No index of `m_cobsBuf` or `m_payload` is out of range.
  pub record IsValid (d : Decoder) : Type 0 where
    pub gathered : length d.cobs_buf ≤ max_encoded_len (max_raw_size max_payload)
    pub array : length d.payload ≡ max_payload
    pub visible : d.payload_len ≤ max_payload

  take_fields-IsValid :
      (d : Decoder) (raw : List ℕ) → IsValid d → IsValid (take_fields max_payload d raw).1
  unfolding take_fields
  take_fields-IsValid d raw v =
      let len = join_bytes (get_or raw 2 0) (get_or raw 3 0) in
      ground (arith, length-overwrite (take len (drop 4 raw)) d.payload)

  process_raw-IsValid :
      (d : Decoder) (raw : List ℕ) → IsValid d → IsValid (process_raw max_payload d raw).1
  unfolding process_raw
  process_raw-IsValid d raw v = ground (arith, take_fields-IsValid d raw v)

  feed_byte-IsValid : (d : Decoder) (b : ℕ) → IsValid d → IsValid (feed_byte max_payload d b).1
  unfolding feed_byte process_frame
  feed_byte-IsValid d b v =
      let raw = decoded (Cobs.decode d.cobs_buf (max_raw_size max_payload)) in
      let emptied : IsValid (record d { cobs_buf = [] }) = record {
        gathered = omega arith;
        array = v.array;
        visible = v.visible;
      } in
      ground (
        arith,
        length-append d.cobs_buf (b ∷ []),
        process_raw-IsValid (record d { cobs_buf = [] }) raw emptied,
      )

  -- Every byte fed to a valid decoder keeps the accumulation buffer within `kMaxCobsSize`, the payload array
  -- at its size, and the visible payload within it; so for any run of bytes.
  pub feed_all-IsValid :
      (bytes : List ℕ) (d : Decoder) → IsValid d → IsValid (feed_all max_payload d bytes).1
  unfolding feed_all
  feed_all-IsValid [] d v = v
  feed_all-IsValid (b ∷ bs) d v =
      feed_all-IsValid bs (feed_byte max_payload d b).1 (feed_byte-IsValid d b v)

  pub reset-IsValid : (d : Decoder) → length d.payload ≡ max_payload → IsValid (reset d)
  unfolding reset
  reset-IsValid d h = record { gathered = omega arith; array = h; visible = omega arith }
