-- ===== src/Protocol/Cobs.antt =====
-- include/sputteros/comms/protocol/CobsCodec.h: byte stuffing, as the loops over buffers that the
-- source has. A buffer is a list of bytes with the capacity that the caller states beside it.
pub mod Stuffing
pub mod Changed
pub mod Encode
pub mod Decode
pub mod Safety
use sputter_os.Prelude.{
  ℕ, zero, suc, ◌+◌, ◌-◌, ◌/◌, ◌%◌, Bool, List, [], ◌∷◌, ◌++◌, ltb, ◌==◌, ◌&&◌, ◌||◌, if◌then◌else◌,
  Option, none, some, length, set,
}

-- `cobsMaxEncodedLen`
abbrev pub max_encoded_len : ℕ → ℕ
max_encoded_len src_len = src_len + src_len / 254 + 1

-- The locals of `encode` with the destination buffer.
pub record Encoder : Type 0 where
  pub dst : List ℕ
  pub write_idx : ℕ
  pub code_idx : ℕ
  pub code : ℕ

-- `dst[codeIdx] = code; codeIdx = writeIdx++; code = 1;`
unfoldable pub close_block : Encoder → Encoder
close_block e = record {
  dst = set e.dst e.code_idx e.code;
  write_idx = e.write_idx + 1;
  code_idx = e.write_idx;
  code = 1;
}

-- `dst[writeIdx++] = src[i]; ++code;` on a `uint8_t` code
unfoldable pub put_byte : Encoder → ℕ → Encoder
put_byte e byte = record e {
  dst = set e.dst e.write_idx byte;
  write_idx = e.write_idx + 1;
  code = (e.code + 1) % 256;
}

-- One round of the loop over `src`.
unfoldable pub encode_byte : Encoder → ℕ → Encoder
encode_byte e byte =
    let e' = put_byte e byte in
    if byte == 0 then close_block e else if e'.code == 0xFF then close_block e' else e'

unfoldable pub encode_loop : Encoder → List ℕ → Encoder
encode_loop e [] = e
encode_loop e (byte ∷ rest) = encode_loop (encode_byte e byte) rest

-- The result is the returned length with the buffer.
unfoldable pub encode : List ℕ → List ℕ → ℕ → ℕ × List ℕ
encode src dst dst_cap =
    let e = encode_loop (record { dst = dst; write_idx = 1; code_idx = 0; code = 1 }) src in
    if ltb dst_cap (max_encoded_len (length src))
    then (0, dst)
    else (e.write_idx, set e.dst e.code_idx e.code)

-- What a decoding comes to: the bytes in `dst[0 .. writeIdx)`, or one of the `return 0`s.
-- `unfinished` is no outcome of the source: the model's fuel ran out.
pub data Outcome : Type 0 where
  wrote : List ℕ → Outcome
  refused : Outcome
  unfinished : Outcome

-- The inner loop, for the data bytes that are left; the first list is `src[readIdx .. srcLen)`, the
-- second `dst[0 .. writeIdx)`. `none` is the `return 0` at a zero.
unfoldable pub copy_data : ℕ → List ℕ → List ℕ → Option (List ℕ × List ℕ)
copy_data zero src out = some (src, out)
copy_data (suc n) [] out = none
copy_data (suc n) (byte ∷ src) out =
    let rest = copy_data n src (out ++ byte ∷ []) in if byte == 0 then none else rest

abbrev pub more_input : List ℕ → Bool
more_input src = ltb 0 (length src)

-- The implicit zero behind a block, unless it was full or the input ends here.
unfoldable pub end_block : ℕ → ℕ → List ℕ × List ℕ → Option (List ℕ × List ℕ)
end_block dst_cap code (src, out) =
    if ltb code 0xFF && more_input src
    then (if ltb (length out) dst_cap then some (src, out ++ 0 ∷ []) else none)
    else some (src, out)

-- One round of the outer loop behind its code byte; `none` stands for each `return 0`.
unfoldable pub decode_block : ℕ → ℕ → List ℕ → List ℕ → Option (List ℕ × List ℕ)
decode_block dst_cap code src out =
    if code == 0 || ltb (length src) (code - 1) || ltb dst_cap (length out + (code - 1))
    then none
    else elim (copy_data (code - 1) src out) [ none ↦ none | some p ↦ end_block dst_cap code p ]

-- Rounds of the outer loop, each of which reads one code byte at least.
unfoldable pub decode_loop : ℕ → ℕ → List ℕ → List ℕ → Outcome
decode_loop fuel dst_cap [] out = wrote out
decode_loop zero dst_cap (code ∷ src) out = unfinished
decode_loop (suc fuel) dst_cap (code ∷ src) out = elim (decode_block dst_cap code src out) [
  | none ↦ refused
  | some (src', out') ↦ decode_loop fuel dst_cap src' out'
]

-- An empty input is an error of its own.
unfoldable pub decode : List ℕ → ℕ → Outcome
decode [] dst_cap = refused
decode (b ∷ bs) dst_cap = decode_loop (length (b ∷ bs)) dst_cap (b ∷ bs) []
