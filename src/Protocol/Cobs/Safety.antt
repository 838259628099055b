-- ===== src/Protocol/Cobs/Safety.antt =====
-- `Cobs::decode` on any input, well formed or not.
use sputter_os.Prelude.{
  ℕ, suc, zero, ◌+◌, ◌-◌, ◌≤◌, ◌<◌, List, [], ◌∷◌, ◌≡◌, ◌≢◌, arith, some, Option-cases, inl, inr,
  length, length-append,
}
use sputter_os.Protocol.Cobs.{
  wrote, unfinished, copy_data, end_block, decode_block, decode_loop, decode,
}
use sputter_os.Protocol.Cobs.Decode.{copy_data_lengths}

end_block_bounds :
    (limit code : ℕ) (src out : List ℕ) {src' out' : List ℕ}
    → length out ≤ limit
    → end_block limit code (src, out) ≡ some (src', out')
    → (src' ≡ src)
      × (length out' ≤ limit)
      × (length out' ≤ length out + 1)
      × (length src ≡ 0 → length out' ≡ length out)
unfolding end_block
end_block_bounds limit code src out fits e = ground (arith, length-append out (0 ∷ []))

decode_block_bounds :
    (limit code : ℕ) (src out : List ℕ) {src' out' : List ℕ}
    → length out ≤ limit
    → decode_block limit code src out ≡ some (src', out')
    → (length src' ≤ length src)
      × (length out' ≤ limit)
      × (length out' + length src' ≤ length out + length src + 1)
      × (length src' ≡ 0 → length out' ≤ length out + length src)
unfolding decode_block
decode_block_bounds limit code src out {src'} {out'} fits e =
    elim (Option-cases (copy_data (code - 1) src out)) [
      | inl c ↦ ground (arith, c)
      | inr ((s, o), c) ↦ ground (
        arith,
        c,
        copy_data_lengths (code - 1) src out c,
        end_block_bounds limit code s o {src' = src'} {out' = out'},
      )
    ]

decode_loop_bounds :
    (fuel limit : ℕ) (src out : List ℕ) {r : List ℕ}
    → length out ≤ limit
    → decode_loop fuel limit src out ≡ wrote r
    → (length r ≤ limit) × (length r ≤ length out + (length src - 1))
unfolding decode_loop
decode_loop_bounds zero limit [] out fits e = ground arith
decode_loop_bounds (suc fuel) limit [] out fits e = ground arith
decode_loop_bounds zero limit (code ∷ src) out fits e = cc
decode_loop_bounds (suc fuel) limit (code ∷ src) out {r} fits e =
    elim (Option-cases (decode_block limit code src out)) [
      | inl c ↦ ground (arith, c)
      | inr ((s, o), c) ↦ ground (
        arith,
        c,
        decode_block_bounds limit code src out fits c,
        decode_loop_bounds fuel limit s o {r = r},
      )
    ]

decode_loop-ne-unfinished :
    (fuel limit : ℕ) (src out : List ℕ)
    → length src ≤ fuel
    → length out ≤ limit
    → decode_loop fuel limit src out ≢ unfinished
unfolding decode_loop
decode_loop-ne-unfinished zero limit [] out enough fits e = cc
decode_loop-ne-unfinished (suc fuel) limit [] out enough fits e = cc
decode_loop-ne-unfinished zero limit (code ∷ src) out enough fits e = absurd (omega arith)
decode_loop-ne-unfinished (suc fuel) limit (code ∷ src) out enough fits e =
    elim (Option-cases (decode_block limit code src out)) [
      | inl c ↦ cc (c, e)
      | inr ((s, o), c) ↦ ground (
        arith,
        c,
        decode_block_bounds limit code src out fits c,
        decode_loop-ne-unfinished fuel limit s o,
      )
    ]

-- On any input `decode` ends, by its loop or by a `return 0`: it never runs out of the rounds that
-- it has, one for each input byte. What it writes fits the capacity that it was given, and is shorter
-- than its input.
pub decode_safe :
    (src : List ℕ) (limit : ℕ)
    → (decode src limit ≢ unfinished)
      × ((out : List ℕ)
          → decode src limit ≡ wrote out
          → (length out ≤ limit) × (length out < length src))
unfolding decode
decode_safe [] limit = (λ e. cc, λ out e. cc)
decode_safe (b ∷ bs) limit = (
  decode_loop-ne-unfinished (length (b ∷ bs)) limit (b ∷ bs) [] (omega arith) (omega arith),
  λ out e. omega (arith, decode_loop_bounds (length (b ∷ bs)) limit (b ∷ bs) [] (omega arith) e),
)
