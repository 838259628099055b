-- ===== src/Logging/Text/Bounds.antt =====
-- Every `append` adds behind what the builder holds, and stays within its buffer.
use sputter_os.Prelude.{
  ℕ, zero, suc, ◌+◌, ◌-◌, ◌<◌, List, [], ◌∷◌, ◌++◌, ◌≡◌, refl, ◌∙◌, ap, sym, arith, none, some,
  length, length-append, append_assoc, append-nil, ltb, Bool-cases, inl, inr, ltb→lt, ℤ,
}
use sputter_os.Logging.Text.{
  Text, FloatArith, append_chars, append_char, append_str, append_u32, append_i32, append_float,
  append_magnitude, leading_zeros, power_of_ten, render_u32, fraction, scale_of, Piece,
  append_piece, append_pieces,
}

-- Room for the terminating zero.
abbrev pub Fits : Text → Type 0
Fits b = length b.chars < 128

abbrev pub Grows : Text → Text → Type 0
Grows b b' = ((s : List ℕ) × (b'.chars ≡ b.chars ++ s)) × (Fits b → Fits b')

no_growth : (b : Text) → Grows b b
no_growth b = (([], sym (append-nil b.chars)), λ h. h)

growth_chain : (a b c : Text) → Grows a b → Grows b c → Grows a c
growth_chain a b c ((s, e), f) ((t, e'), g) =
    ((s ++ t, e' ∙ ap (λ l. l ++ t) e ∙ append_assoc a.chars s t), λ h. g (f h))

append_char-Grows : (b : Text) (c : ℕ) → Grows b (append_char b c)
unfolding append_char
append_char-Grows b c = elim (Bool-cases (ltb (length b.chars) 127)) [
  | inl e ↦ rw e (
    (c ∷ [], refl),
    λ h. omega (arith, length-append b.chars (c ∷ []), ltb→lt (length b.chars) 127 e),
  )
  | inr e ↦ rw e (no_growth b)
]

append_chars-Grows : (b : Text) (cs : List ℕ) → Grows b (append_chars b cs)
unfolding append_chars
append_chars-Grows b [] = no_growth b
append_chars-Grows b (c ∷ cs) =
    let b' : Text = record { chars = b.chars ++ c ∷ [] } in
    elim (Bool-cases (ltb (length b.chars) 127)) [
      | inl e ↦
          let step : Grows b b' = (
            (c ∷ [], refl),
            λ h. omega (arith, length-append b.chars (c ∷ []), ltb→lt (length b.chars) 127 e),
          ) in
          rw e (growth_chain b b' (append_chars b' cs) step (append_chars-Grows b' cs))
      | inr e ↦ rw e (no_growth b)
    ]

append_u32-Grows : (b : Text) (val : ℕ) → Grows b (append_u32 b val)
unfolding append_u32
append_u32-Grows b val = append_chars-Grows b (render_u32 16 val)

append_i32-Grows : (b : Text) (i : ℤ) → Grows b (append_i32 b i)
unfolding append_i32
append_i32-Grows b (ℤ.pos n) = append_u32-Grows b n
append_i32-Grows b (ℤ.negsuc n) =
    growth_chain b (append_char b 45) (append_u32 (append_char b 45) (n + 1))
      (append_char-Grows b 45) (append_u32-Grows (append_char b 45) (n + 1))

leading_zeros-Grows : (left frac_int : ℕ) (b : Text) → Grows b (leading_zeros left frac_int b)
unfolding leading_zeros
leading_zeros-Grows zero frac_int b = no_growth b
leading_zeros-Grows (suc left) frac_int b =
    elim (Bool-cases (ltb frac_int (power_of_ten (suc left)))) [
      | inl e ↦
          let b' = append_char b 48 in
          rw e (
            growth_chain b b' (leading_zeros left frac_int b') (append_char-Grows b 48)
              (leading_zeros-Grows left frac_int b'))
      | inr e ↦ rw e (leading_zeros-Grows left frac_int b)
    ]

module _ {F : Type 0} (fl : FloatArith F) where
  append_magnitude-Grows :
      (b : Text) (value : F) (decimals : ℕ) → Grows b (append_magnitude fl b value decimals)
  unfolding append_magnitude
  append_magnitude-Grows b value decimals =
      let scale = scale_of fl decimals in
      let rounded = fl.div (fl.of_u32 (fl.to_u32 (fl.add (fl.mul value scale) fl.half))) scale in
      let whole = append_u32 b (fl.to_u32 rounded) in
      let frac_int = fraction fl rounded (fl.to_u32 rounded) decimals in
      let dotted = append_char whole 46 in
      let padded = leading_zeros (decimals - 1) frac_int dotted in
      let first = append_u32-Grows b (fl.to_u32 rounded) in
      elim (Bool-cases (ltb 0 decimals)) [
        | inl e ↦ rw e (
            growth_chain b whole (append_u32 padded frac_int) first (
              growth_chain whole dotted (append_u32 padded frac_int) (append_char-Grows whole 46) (
                growth_chain dotted padded (append_u32 padded frac_int)
                  (leading_zeros-Grows (decimals - 1) frac_int dotted)
                  (append_u32-Grows padded frac_int))))
        | inr e ↦ rw e first
      ]

  append_float-Grows :
      (b : Text) (value : F) (decimals : ℕ) → Grows b (append_float fl b value decimals)
  unfolding append_float
  append_float-Grows b value decimals =
      let b' = append_char b 45 in
      elim (Bool-cases (fl.is_negative value)) [
        | inl e ↦ rw e (
            growth_chain b b' (append_magnitude fl b' (fl.negate value) decimals)
              (append_char-Grows b 45) (append_magnitude-Grows b' (fl.negate value) decimals))
        | inr e ↦ rw e (append_magnitude-Grows b value decimals)
      ]

  append_piece-Grows : (b : Text) (p : Piece F) → Grows b (append_piece fl b p)
  unfolding append_piece append_str
  append_piece-Grows b (Piece.str none) = no_growth b
  append_piece-Grows b (Piece.str (some s)) = append_chars-Grows b s
  append_piece-Grows b (Piece.i32 i) = append_i32-Grows b i
  append_piece-Grows b (Piece.u32 n) = append_u32-Grows b n
  append_piece-Grows b (Piece.float v decimals) = append_float-Grows b v decimals
  append_piece-Grows b (Piece.char c) = append_char-Grows b c

  -- A chain of appends of any kind, whatever the arithmetic of `float`, leaves the text that was
  -- there as a prefix, and a text that leaves room for the terminating zero in the buffer of 128
  -- characters still does so.
  pub append_pieces_grows :
      (b : Text) (ps : List (Piece F))
      → ((s : List ℕ) × ((append_pieces fl b ps).chars ≡ b.chars ++ s))
        × (Fits b → Fits (append_pieces fl b ps))
  unfolding append_pieces
  append_pieces_grows b [] = no_growth b
  append_pieces_grows b (p ∷ ps) =
      let b' = append_piece fl b p in
      growth_chain b b' (append_pieces fl b' ps) (append_piece-Grows b p)
        (append_pieces_grows b' ps)
