-- ===== src/Logging/Report/Truncation.antt =====
-- A report that does not fit is the whole report cut off.
use sputter_os.Prelude.{
  ℕ, zero, suc, ◌+◌, ◌-◌, ◌≤◌, ◌<◌, true, List, [], ◌∷◌, ◌++◌, ◌≡◌, refl, ◌∙◌, ap, sym, arith, ltb,
  length, take, length-append, length-take_le, append_assoc, append-nil, Bool-cases, inl, inr,
  ltb→lt, ge→ltb,
}
use sputter_os.Logging.Text.{FloatArith, render_u32}
use sputter_os.Protocol.Responses.{PerformanceSnapshot}
use sputter_os.Logging.Report.{
  Part, put_str, put_char, put_u64, put_part, put_parts, key_value_parts, csv_parts,
  format_key_value, format_csv,
}

-- The characters of an append in a buffer without an end.
unfoldable pub part_text : Part → List ℕ
part_text (Part.lit s) = s
part_text (Part.num val) = render_u32 21 val
part_text (Part.chr c) = c ∷ []

unfoldable pub whole_text : List Part → List ℕ
whole_text [] = []
whole_text (p ∷ ps) = part_text p ++ whole_text ps

take-take_append : (n : ℕ) (xs ys : List ℕ) → take n (take n xs ++ ys) ≡ take n (xs ++ ys)
take-take_append zero xs ys = refl
take-take_append (suc n) [] ys = refl
take-take_append (suc n) (x ∷ xs) ys = ap (λ l. x ∷ l) (take-take_append n xs ys)

take-short : (n : ℕ) (xs : List ℕ) → length xs ≤ n → take n xs ≡ xs
take-short zero [] h = refl
take-short zero (x ∷ xs) h = absurd (omega arith)
take-short (suc n) [] h = refl
take-short (suc n) (x ∷ xs) h = ap (λ l. x ∷ l) (take-short n xs (omega arith))

take-full : (n : ℕ) (xs ys : List ℕ) → length xs ≡ n → take n (xs ++ ys) ≡ xs
take-full zero [] ys h = refl
take-full zero (x ∷ xs) ys h = absurd (omega arith)
take-full (suc n) [] ys h = absurd (omega arith)
take-full (suc n) (x ∷ xs) ys h = ap (λ l. x ∷ l) (take-full n xs ys (omega arith))

module _ (room : ℕ) where
  put_str-take :
      (cs out : List ℕ) → length out ≤ room → put_str (room + 1) out cs ≡ take room (out ++ cs)
  unfolding put_str
  put_str-take [] out h = sym (ap (λ l. take room l) (append-nil out) ∙ take-short room out h)
  put_str-take (c ∷ cs) out h = elim (Bool-cases (ltb (length out + 1) (room + 1))) [
    | inl e ↦ rw e (
        put_str-take cs (out ++ c ∷ [])
          (omega (arith, length-append out (c ∷ []), ltb→lt (length out + 1) (room + 1) e))
        ∙ ap (λ l. take room l) (append_assoc out (c ∷ []) cs))
    | inr e ↦ rw e (sym (take-full room out (c ∷ cs) (ground arith)))
  ]

  put_part-take :
      (p : Part) (out : List ℕ)
      → length out ≤ room
      → put_part (room + 1) out p ≡ take room (out ++ part_text p)
  unfolding put_part put_u64 put_char part_text put_str
  put_part-take (Part.lit s) out h = put_str-take s out h
  put_part-take (Part.num val) out h = put_str-take (render_u32 21 val) out h
  put_part-take (Part.chr c) out h = put_str-take (c ∷ []) out h

  put_parts-take :
      (ps : List Part) (out : List ℕ)
      → length out ≤ room
      → put_parts (room + 1) out ps ≡ take room (out ++ whole_text ps)
  unfolding put_parts whole_text
  put_parts-take [] out h = sym (ap (λ l. take room l) (append-nil out) ∙ take-short room out h)
  put_parts-take (p ∷ ps) out h =
      let part = put_part-take p out h in
      rw part (
        put_parts-take ps (take room (out ++ part_text p)) (length-take_le room _)
        ∙ take-take_append room (out ++ part_text p) (whole_text ps)
        ∙ ap (λ l. take room l) (append_assoc out (part_text p) (whole_text ps)))

-- Both reports, in a buffer of two or more places, are the beginning of the report that an unbounded
-- buffer would get: all of it if there is room for it and the terminating zero, and else as much as
-- leaves room for the zero. The number returned is always below the size of the buffer.
pub reports_truncate :
    {F : Type 0} (fl : FloatArith F) (snap : PerformanceSnapshot F) (buf_len : ℕ)
    → 2 ≤ buf_len
    → let kv = format_key_value fl snap true buf_len in
      let csv = format_csv fl snap true buf_len in
      ((kv ≡ take (buf_len - 1) (whole_text (key_value_parts fl snap))) × (length kv < buf_len))
      × ((csv ≡ take (buf_len - 1) (whole_text (csv_parts fl snap))) × (length csv < buf_len))
unfolding format_key_value format_csv
reports_truncate fl snap buf_len h =
    let room = buf_len - 1 in
    let e : buf_len ≡ room + 1 = omega arith in
    let cut : (ps : List Part) → put_parts buf_len [] ps ≡ take room (whole_text ps) =
      λ ps. ap (λ n. put_parts n [] ps) e ∙ put_parts-take room ps [] (omega arith) in
    let below : (ps : List Part) → length (put_parts buf_len [] ps) < buf_len =
      λ ps. rw (cut ps) (omega (arith, length-take_le room (whole_text ps))) in
    rw (ge→ltb buf_len 2 h) (
      (cut (key_value_parts fl snap), below (key_value_parts fl snap)),
      (cut (csv_parts fl snap), below (csv_parts fl snap)),
    )
