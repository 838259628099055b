-- ===== src/Protocol/Cobs/Decode.antt =====
-- `Cobs::decode`: it undoes the encoder, and on any input it ends and keeps to its buffer.
use sputter_os.Prelude.{
  ℕ, suc, zero, ◌+◌, ◌-◌, ◌≤◌, ◌<◌, List, [], ◌∷◌, ◌++◌, ◌≡◌, ◌≢◌, refl, ◌∙◌, ap, sym, arith, some,
  length, length-append, All, All-append, append_assoc, append-nil,
}
use sputter_os.Protocol.Cobs.{wrote, copy_data, end_block, decode_block, decode_loop, decode}
use sputter_os.Protocol.Cobs.Stuffing.{stuff_from, stuff, stuff_from_cases, length-stuff_from}

abbrev pub IsNonZero : ℕ → Type 0
IsNonZero b = b ≢ 0

copy_data-All :
    (run rest out : List ℕ)
    → All IsNonZero run
    → copy_data (length run) (run ++ rest) out ≡ some (rest, out ++ run)
unfolding copy_data
copy_data-All [] rest out h = rw append-nil
copy_data-All (x ∷ xs) rest out (hx, h) =
    ground (arith, copy_data-All xs rest (out ++ x ∷ []) h, append_assoc out (x ∷ []) xs)

pub copy_data_lengths :
    (n : ℕ) (src out : List ℕ) {src' out' : List ℕ}
    → copy_data n src out ≡ some (src', out')
    → (length src ≡ n + length src') × (length out' ≡ length out + n)
unfolding copy_data
copy_data_lengths zero src out e = ground arith
copy_data_lengths (suc n) [] out e = cc
copy_data_lengths (suc n) (x ∷ src) out {src'} {out'} e = ground (
  arith,
  copy_data_lengths n src (out ++ x ∷ []) {src' = src'} {out' = out'},
  length-append out (x ∷ []),
)

-- What one round does with a well-formed block.
module _ (limit : ℕ) (run rest out : List ℕ) (clean : All IsNonZero run) where
  decode_block-run :
      (code : ℕ)
      → code ≡ length run + 1
      → length out + length run ≤ limit
      → decode_block limit code (run ++ rest) out ≡ end_block limit code (rest, out ++ run)
  unfolding decode_block
  decode_block-run code e fits =
      let count : code - 1 ≡ length run = omega arith in
      rw count (ground (arith, length-append run rest, copy_data-All run rest out clean))

  end_full : end_block limit 0xFF (rest, out ++ run) ≡ some (rest, out ++ run)
  unfolding end_block
  end_full = refl

  end_zero :
      (code : ℕ)
      → code < 255
      → 0 < length rest
      → length out + length run < limit
      → end_block limit code (rest, out ++ run) ≡ some (rest, (out ++ run) ++ 0 ∷ [])
  unfolding end_block
  end_zero code short more fits = ground (arith, length-append out run)

end_last : (limit code : ℕ) (out : List ℕ) → end_block limit code ([], out) ≡ some ([], out)
unfolding end_block
end_last limit code out = ground arith

decode_loop-round :
    (fuel limit code : ℕ) (src out : List ℕ) {src' out' : List ℕ}
    → decode_block limit code src out ≡ some (src', out')
    → decode_loop (suc fuel) limit (code ∷ src) out ≡ decode_loop fuel limit src' out'
unfolding decode_loop
decode_loop-round fuel limit code src out e = rw (e, decode_loop)

decode_loop-end : (fuel limit : ℕ) (out : List ℕ) → decode_loop fuel limit [] out ≡ wrote out
unfolding decode_loop
decode_loop-end zero limit out = refl
decode_loop-end (suc fuel) limit out = refl

decode_loop_of_ne :
    (src : List ℕ) (limit : ℕ)
    → 0 < length src
    → decode src limit ≡ decode_loop (length src) limit src []
unfolding decode
decode_loop_of_ne [] limit h = absurd (omega arith)
decode_loop_of_ne (b ∷ bs) limit h = refl

-- The loop gives back what was stuffed behind what it has written already.
decode_loop-stuff :
    (xs run out : List ℕ) (fuel limit : ℕ)
    → All IsNonZero run
    → length run ≤ 253
    → length (stuff_from run xs) ≤ fuel
    → length out + length run + length xs ≤ limit
    → decode_loop fuel limit (stuff_from run xs) out ≡ wrote (out ++ (run ++ xs))
decode_loop-stuff xs run out zero limit clean short enough fits =
    absurd (omega (arith, length-stuff_from xs run short))
decode_loop-stuff [] run out (suc fuel) limit clean short enough fits =
    unfold stuff_from in
    (decode_loop-round fuel limit (length run + 1) run out (
        rw (append-nil run) at
          (decode_block-run limit run [] out clean (length run + 1) refl (omega arith))
        ∙ end_last limit (length run + 1) (out ++ run))
      ∙ decode_loop-end fuel limit (out ++ run)
      ∙ ap (λ l. wrote (out ++ l)) (sym (append-nil run)))
decode_loop-stuff (x ∷ xs) run out (suc fuel) limit clean short enough fits =
    let rest = stuff_from [] xs in
    let grown = length-append run (x ∷ []) in
    let some_rest = length-stuff_from xs [] (omega arith) in
    let clean' = λ (ne : x ≢ 0). All-append IsNonZero run (x ∷ []) clean (ne, tt) in
    stuff_from_cases
      (λ bytes.
        length bytes ≤ suc fuel
        → decode_loop (suc fuel) limit bytes out ≡ wrote (out ++ (run ++ x ∷ xs)))
      run x xs
      (λ z room.
        decode_loop-round fuel limit (length run + 1) (run ++ rest) out (
          decode_block-run limit run rest out clean (length run + 1) refl (omega arith)
          ∙ end_zero limit run rest out clean (length run + 1) (omega arith) (omega arith)
              (omega arith))
        ∙ decode_loop-stuff xs [] ((out ++ run) ++ 0 ∷ []) fuel limit tt (omega arith)
            (omega (arith, length-append run rest))
            (omega (arith, length-append (out ++ run) (0 ∷ []), length-append out run))
        ∙ rw z (ap wrote (simp append_assoc)))
      (λ ne full room.
        decode_loop-round fuel limit 0xFF ((run ++ x ∷ []) ++ rest) out (
          decode_block-run limit (run ++ x ∷ []) rest out (clean' ne) 0xFF (omega arith)
            (omega arith)
          ∙ end_full limit (run ++ x ∷ []) rest out (clean' ne))
        ∙ decode_loop-stuff xs [] (out ++ (run ++ x ∷ [])) fuel limit tt (omega arith)
            (omega (arith, length-append (run ++ x ∷ []) rest))
            (omega (arith, length-append out (run ++ x ∷ [])))
        ∙ ap wrote (simp append_assoc))
      (λ ne more room.
        decode_loop-stuff xs (run ++ x ∷ []) out (suc fuel) limit (clean' ne) (omega arith) room
          (omega arith)
        ∙ ap wrote (simp append_assoc))
      enough

-- Decoding the stuffing of any bytes, with a buffer that holds them, gives the bytes back.
pub decode-stuff :
    (bytes : List ℕ) (limit : ℕ) → length bytes ≤ limit → decode (stuff bytes) limit ≡ wrote bytes
decode-stuff bytes limit fits =
    decode_loop_of_ne (stuff bytes) limit
      (unfold stuff in omega (arith, length-stuff_from bytes [] (omega arith)))
    ∙ unfold stuff in
      decode_loop-stuff bytes [] [] (length (stuff_from [] bytes)) limit tt (omega arith)
        (omega arith) (omega arith)
