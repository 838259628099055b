-- ===== src/Protocol/Cobs/Encode.antt =====
-- `Cobs::encode` fills its buffer with the stuffing of its input: the loop that patches code bytes
-- into the buffer agrees with `Stuffing.stuff`.
use sputter_os.Prelude.{
  ltb, Bool-cases, inl, inr, ℕ, suc, ◌+◌, ◌≤◌, ◌<◌, List, [], ◌∷◌, ◌++◌, ◌≡◌, ◌≢◌, refl, ◌∙◌, ap,
  arith, length, length-append, take, set, length-set, set-set_comm, take-set_end, append_assoc,
  subst, ge→ltb, lt→ltb,
}
use sputter_os.Protocol.Cobs.{
  Encoder, max_encoded_len, close_block, put_byte, encode_byte, encode_loop, encode,
}
use sputter_os.Protocol.Cobs.Stuffing.{stuff_from, stuff, stuff_from_cases, length-stuff_from}

-- The buffer holds the closed blocks `done`, a place for the code byte, and the open block `run`.
record Holds (done run : List ℕ) (e : Encoder) : Type 0 where
  code_is : e.code ≡ length run + 1
  code_at : e.code_idx ≡ length done
  write_at : e.write_idx ≡ length done + 1 + length run
  room : e.write_idx ≤ length e.dst
  written : (v : ℕ) → take e.write_idx (set e.dst e.code_idx v) ≡ done ++ v ∷ run

put_byte-Holds :
    (done run : List ℕ) (e : Encoder) (x : ℕ)
    → Holds done run e
    → length run ≤ 253
    → e.write_idx < length e.dst
    → Holds done (run ++ x ∷ []) (put_byte e x)
unfolding put_byte
put_byte-Holds done run e x h short room = record {
  code_is = omega (arith, h.code_is, length-append run (x ∷ []));
  code_at = h.code_at;
  write_at = omega (arith, h.write_at, length-append run (x ∷ []));
  room = omega (arith, length-set e.dst e.write_idx x);
  written = λ v.
      let apart : e.write_idx ≢ e.code_idx = omega (arith, h.code_at, h.write_at) in
      let grow : e.write_idx + 1 ≡ suc e.write_idx = omega arith in
      rw (grow, set-set_comm e.dst e.write_idx e.code_idx x v apart)
        (take-set_end e.write_idx (set e.dst e.code_idx v) x
            (omega (arith, length-set e.dst e.code_idx v))
          ∙ ap (λ l. l ++ x ∷ []) (h.written v)
          ∙ append_assoc done (v ∷ run) (x ∷ []));
}

close_block-Holds :
    (done run : List ℕ) (e : Encoder)
    → Holds done run e
    → e.write_idx < length e.dst
    → Holds (done ++ (length run + 1) ∷ run) [] (close_block e)
unfolding close_block
close_block-Holds done run e h room = record {
  code_is = refl;
  code_at = omega (arith, h.write_at, length-append done ((length run + 1) ∷ run));
  write_at = omega (arith, h.write_at, length-append done ((length run + 1) ∷ run));
  room = omega (arith, length-set e.dst e.code_idx e.code);
  written = λ v.
      let grow : e.write_idx + 1 ≡ suc e.write_idx = omega arith in
      rw grow (
        take-set_end e.write_idx (set e.dst e.code_idx e.code) v
          (omega (arith, length-set e.dst e.code_idx e.code))
        ∙ ap (λ l. l ++ v ∷ []) (h.written e.code ∙ ap (λ c. done ++ c ∷ run) h.code_is));
}

-- The three ways on from a byte, as the source takes them.
encode_byte_zero : (e : Encoder) (x : ℕ) → x ≡ 0 → encode_byte e x ≡ close_block e
unfolding encode_byte
encode_byte_zero e x h = ground arith

encode_byte_full :
    (e : Encoder) (x : ℕ) → x ≢ 0 → e.code ≡ 254 → encode_byte e x ≡ close_block (put_byte e x)
unfolding encode_byte put_byte
encode_byte_full e x h c = ground arith

encode_byte_more : (e : Encoder) (x : ℕ) → x ≢ 0 → e.code < 254 → encode_byte e x ≡ put_byte e x
unfolding encode_byte put_byte
encode_byte_more e x h c = ground arith

length-dst-close_block : (e : Encoder) → length (close_block e).dst ≡ length e.dst
unfolding close_block
length-dst-close_block e = length-set e.dst e.code_idx e.code

length-dst-put_byte : (e : Encoder) (x : ℕ) → length (put_byte e x).dst ≡ length e.dst
unfolding put_byte
length-dst-put_byte e x = length-set e.dst e.write_idx x

length-dst-encode_byte : (e : Encoder) (x : ℕ) → length (encode_byte e x).dst ≡ length e.dst
unfolding encode_byte
length-dst-encode_byte e x = ground (
  arith,
  length-dst-close_block e,
  length-dst-put_byte e x,
  length-dst-close_block (put_byte e x),
)

length-dst-encode_loop :
    (src : List ℕ) (e : Encoder) → length (encode_loop e src).dst ≡ length e.dst
unfolding encode_loop
length-dst-encode_loop [] e = refl
length-dst-encode_loop (x ∷ xs) e =
    length-dst-encode_loop xs (encode_byte e x) ∙ length-dst-encode_byte e x

-- A block that reaches 254 bytes is closed at once.
full_block-Holds :
    (done run : List ℕ) (e : Encoder) (x : ℕ)
    → Holds done run e
    → length run ≡ 253
    → e.write_idx + 1 < length e.dst
    → Holds (done ++ 0xFF ∷ (run ++ x ∷ [])) [] (close_block (put_byte e x))
full_block-Holds done run e x h full room =
    subst (λ c. Holds (done ++ c ∷ (run ++ x ∷ [])) [] (close_block (put_byte e x)))
      (omega (arith, length-append run (x ∷ [])))
      (close_block-Holds done (run ++ x ∷ []) (put_byte e x) filled (
        omega (
          arith,
          filled.write_at,
          h.write_at,
          length-append run (x ∷ []),
          length-dst-put_byte e x,
        )))
  where
    filled : Holds done (run ++ x ∷ []) (put_byte e x)
    filled = put_byte-Holds done run e x h (omega arith) (omega arith)

-- What the loop leaves behind once the last code byte is in.
abbrev Finished : List ℕ → Encoder → Type 0
Finished bytes e =
    (take e.write_idx (set e.dst e.code_idx e.code) ≡ bytes) × (e.write_idx ≡ length bytes)

encode_loop-Finished :
    (src done run : List ℕ) (e : Encoder)
    → Holds done run e
    → length run ≤ 253
    → length done + length (stuff_from run src) ≤ length e.dst
    → Finished (done ++ stuff_from run src) (encode_loop e src)
unfolding encode_loop
encode_loop-Finished [] done run e h short fits =
    unfold stuff_from in
    (
      h.written e.code ∙ ap (λ c. done ++ c ∷ run) h.code_is,
      omega (arith, h.write_at, length-append done ((length run + 1) ∷ run)),
    )
encode_loop-Finished (x ∷ xs) done run e h short fits =
    let rest = stuff_from [] xs in
    stuff_from_cases
      (λ bytes.
        length done + length bytes ≤ length e.dst
        → Finished (done ++ bytes) (encode_loop (encode_byte e x) xs))
      run x xs
      (λ z room.
        rw (encode_byte_zero e x z, ← append_assoc done ((length run + 1) ∷ run) rest)
          (encode_loop-Finished xs (done ++ (length run + 1) ∷ run) [] (close_block e)
            (close_block-Holds done run e h (
              omega
                (arith, h.write_at, length-append run rest, length-stuff_from xs [] (omega arith))))
            (omega arith)
            (omega (
              arith,
              length-dst-close_block e,
              length-append run rest,
              length-append done ((length run + 1) ∷ run),
            ))))
      (λ ne full room.
        rw
          (
            encode_byte_full e x ne (omega (arith, h.code_is)),
            ← append_assoc done (0xFF ∷ (run ++ x ∷ [])) rest,
          )
          (encode_loop-Finished xs (done ++ 0xFF ∷ (run ++ x ∷ [])) [] (close_block (put_byte e x))
            (full_block-Holds done run e x h full (
              omega (
                arith,
                h.write_at,
                length-append (run ++ x ∷ []) rest,
                length-append run (x ∷ []),
                length-stuff_from xs [] (omega arith),
              )))
            (omega arith)
            (omega (
              arith,
              length-dst-close_block (put_byte e x),
              length-dst-put_byte e x,
              length-append (run ++ x ∷ []) rest,
              length-append done (0xFF ∷ (run ++ x ∷ [])),
            ))))
      (λ ne more room. rw (encode_byte_more e x ne (omega (arith, h.code_is))) (
        encode_loop-Finished xs done (run ++ x ∷ []) (put_byte e x)
          (put_byte-Holds done run e x h short (
            omega (
              arith,
              h.write_at,
              length-append run (x ∷ []),
              length-stuff_from xs (run ++ x ∷ []) (omega (arith, length-append run (x ∷ []))),
            )))
          (omega (arith, length-append run (x ∷ []))) (omega (arith, length-dst-put_byte e x))))
      fits

initial-Holds :
    (dst : List ℕ)
    → 0 < length dst
    → Holds [] [] (record { dst = dst; write_idx = 1; code_idx = 0; code = 1 })
initial-Holds [] h = absurd (omega arith)
initial-Holds (d ∷ dst) h = record {
  code_is = refl;
  code_at = refl;
  write_at = refl;
  room = omega arith;
  written = λ v. refl;
}

-- When the capacity that the caller states is at least `cobsMaxEncodedLen` of the input's length and
-- the buffer has it, `encode` returns the length of the stuffing of its input, and the buffer begins
-- with that stuffing.
pub encode-stuff :
    (src dst : List ℕ) (dst_cap : ℕ)
    → max_encoded_len (length src) ≤ dst_cap
    → dst_cap ≤ length dst
    → ((encode src dst dst_cap).0 ≡ length (stuff src))
      × (take (length (stuff src)) (encode src dst dst_cap).1 ≡ stuff src)
unfolding encode stuff
encode-stuff src dst dst_cap fits real =
    let (bytes, count) =
      encode_loop-Finished src [] [] _ (initial-Holds dst (omega arith)) (omega arith)
        (omega (arith, length-stuff_from src [] (omega arith))) in
    rw (ge→ltb dst_cap (max_encoded_len (length src)) fits) (count, rw (← count) bytes)

-- With a smaller capacity it returns 0 and does not touch the buffer.
pub encode_small :
    (src dst : List ℕ) (dst_cap : ℕ)
    → dst_cap < max_encoded_len (length src)
    → encode src dst dst_cap ≡ (0, dst)
unfolding encode
encode_small src dst dst_cap h = rw (lt→ltb dst_cap (max_encoded_len (length src)) h)

pub length-encode :
    (src dst : List ℕ) (dst_cap : ℕ) → length (encode src dst dst_cap).1 ≡ length dst
unfolding encode
length-encode src dst dst_cap =
    let e = encode_loop (record { dst = dst; write_idx = 1; code_idx = 0; code = 1 }) src in
    let kept : length (set e.dst e.code_idx e.code) ≡ length dst =
      length-set e.dst e.code_idx e.code ∙ length-dst-encode_loop src _ in
    elim (Bool-cases (ltb dst_cap (max_encoded_len (length src)))) [
      | inl small ↦ rw small
      | inr fits ↦ rw fits kept
    ]
