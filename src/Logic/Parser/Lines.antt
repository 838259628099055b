-- ===== src/Logic/Parser/Lines.antt =====
-- How `CommandParser::feedByte` gathers lines.
use sputter_os.Prelude.{
  Option-cases, ℕ, ◌+◌, ◌≤◌, ◌<◌, Bool, true, false, ◌||◌, List, [], ◌∷◌, ◌++◌, ◌≡◌, refl, ◌∙◌, ap,
  sym, arith, Option, none, some, length, All, length-append, append_assoc, append-nil, inl, inr,
  lt→ltb,
}
use sputter_os.Logic.Parser.{
  CLibrary, Command, Parser, is_line_end, parse_text, parse_line, feed_char, feed_chars,
}

abbrev pub IsText : ℕ → Type 0
IsText byte = is_line_end byte ≡ false

-- A parser at the start of a line, with the command of a line that was read.
abbrev pub deliver_line : {F : Type 0} → Option (Command F) → Parser F → Bool × Parser F
deliver_line none p = (false, p)
deliver_line (some cmd) p = (true, record p { pending = cmd; has_pending = true })

module _ {F : Type 0} (lib : CLibrary F) (max_id max_line : ℕ) where
  feed_char_end :
      (p : Parser F) (byte : ℕ)
      → is_line_end byte ≡ true
      → 0 < length p.line
      → feed_char lib max_id max_line p byte
        ≡ deliver_line (parse_text lib max_id (p.line ++ 0 ∷ [])) (record p { line = [] })
  unfolding feed_char parse_line
  feed_char_end p byte e h = elim (Option-cases (parse_text lib max_id (p.line ++ 0 ∷ []))) [
    | inl n ↦ rw (e, lt→ltb 0 (length p.line) h, parse_line, n)
    | inr (cmd, n) ↦ rw (e, lt→ltb 0 (length p.line) h, parse_line, n)
  ]

  feed_char_text :
      (p : Parser F) (byte : ℕ)
      → IsText byte
      → length p.line + 1 < max_line
      → feed_char lib max_id max_line p byte ≡ (false, record p { line = p.line ++ byte ∷ [] })
  unfolding feed_char
  feed_char_text p byte e h = rw e (ground arith)

  feed_char_full :
      (p : Parser F) (byte : ℕ)
      → IsText byte
      → max_line ≤ length p.line + 1
      → feed_char lib max_id max_line p byte ≡ (false, record p { line = [] })
  unfolding feed_char
  feed_char_full p byte e h = rw e (ground arith)

  -- Text gathers behind what the line holds, up to the capacity.
  pub feed_chars_text :
      (text rest : List ℕ) (p : Parser F)
      → All IsText text
      → length p.line + length text < max_line
      → feed_chars lib max_id max_line p (text ++ rest)
        ≡ feed_chars lib max_id max_line (record p { line = p.line ++ text }) rest
  unfolding feed_chars
  feed_chars_text [] rest p t h =
      ap (λ l. feed_chars lib max_id max_line (record p { line = l }) rest)
        (sym (append-nil p.line))
  feed_chars_text (c ∷ cs) rest p (tc, ts) h = rw (feed_char_text p c tc (omega arith)) (
      feed_chars_text cs rest (record p { line = p.line ++ c ∷ [] }) ts
        (omega (arith, length-append p.line (c ∷ [])))
      ∙ ap (λ l. feed_chars lib max_id max_line (record p { line = l }) rest)
          (append_assoc p.line (c ∷ []) cs))

  -- Text of fewer than `kMaxLineLen` characters behind a line end, and the line end that closes it,
  -- are read as one command: the result and the pending command are those of `parseLine` on exactly
  -- that text, and the parser is again at the start of a line.
  pub feed_chars_line :
      (p : Parser F) (text : List ℕ) (byte : ℕ)
      → p.line ≡ []
      → All IsText text
      → is_line_end byte ≡ true
      → 0 < length text
      → length text < max_line
      → feed_chars lib max_id max_line p (text ++ byte ∷ [])
        ≡ deliver_line (parse_text lib max_id (text ++ 0 ∷ [])) p
  unfolding feed_chars
  feed_chars_line p text byte start t e pos_len short =
      let same : record p { line = text } ≡ record p { line = p.line ++ text } =
        ap (λ l. record p { line = l ++ text }) (sym start) in
      let clean : record p { line = [] } ≡ p = ap (λ l. record p { line = l }) (sym start) in
      feed_chars_text text (byte ∷ []) p t (omega (arith, ap length start))
      ∙ ap (λ q. feed_chars lib max_id max_line q (byte ∷ [])) (sym same)
      ∙ rw (feed_char_end (record p { line = text }) byte e pos_len) (
          ap
            (λ q.
              let (here, p') = deliver_line (parse_text lib max_id (text ++ 0 ∷ [])) q in
              (here || false, p'))
            clean)
      ∙ or_false (deliver_line (parse_text lib max_id (text ++ 0 ∷ [])) p)
    where
      or_false : (r : Bool × Parser F) → (r.0 || false, r.1) ≡ r
      or_false (true, q) = refl
      or_false (false, q) = refl

  -- A line that reaches the capacity is forgotten with the character that did not fit, and what
  -- follows that character is read as a new line.
  pub feed_chars_overlong :
      (p : Parser F) (text rest : List ℕ) (byte : ℕ)
      → p.line ≡ []
      → All IsText text
      → IsText byte
      → length text + 1 ≡ max_line
      → feed_chars lib max_id max_line p (text ++ byte ∷ rest)
        ≡ feed_chars lib max_id max_line p rest
  unfolding feed_chars
  feed_chars_overlong p text rest byte start t tb full =
      let same : record p { line = text } ≡ record p { line = p.line ++ text } =
        ap (λ l. record p { line = l ++ text }) (sym start) in
      let clean : record p { line = [] } ≡ p = ap (λ l. record p { line = l }) (sym start) in
      feed_chars_text text (byte ∷ rest) p t (omega (arith, ap length start))
      ∙ ap (λ q. feed_chars lib max_id max_line q (byte ∷ rest)) (sym same)
      ∙ rw (feed_char_full (record p { line = text }) byte tb (omega arith))
          (ap (λ q. feed_chars lib max_id max_line q rest) clean)

  -- `m_len` leaves room for the terminating zero.
  abbrev pub HasRoom : Parser F → Type 0
  HasRoom p = length p.line < max_line

  feed_char-HasRoom :
      (p : Parser F) (byte : ℕ) → HasRoom p → HasRoom (feed_char lib max_id max_line p byte).1
  unfolding feed_char parse_line
  feed_char-HasRoom p byte h = elim (parse_text lib max_id (p.line ++ 0 ∷ [])) [
    | none ↦ ground (arith, length-append p.line (byte ∷ []))
    | some cmd ↦ ground (arith, length-append p.line (byte ∷ []))
  ]

  pub feed_chars-HasRoom :
      (p : Parser F) (bytes : List ℕ)
      → HasRoom p
      → HasRoom (feed_chars lib max_id max_line p bytes).1
  unfolding feed_chars
  feed_chars-HasRoom p [] h = h
  feed_chars-HasRoom p (b ∷ bs) h =
      feed_chars-HasRoom (feed_char lib max_id max_line p b).1 bs (feed_char-HasRoom p b h)
