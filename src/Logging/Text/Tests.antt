-- ===== src/Logging/Text/Tests.antt =====
-- The string builder at concrete inputs.
use sputter_os.Prelude.{ℕ, ◌+◌, ◌*◌, ◌/◌, false, List, [], ◌∷◌, ◌≡◌, refl, arith, some, All, negsuc}
use sputter_os.Logging.Text.{
  empty_text, FloatArith, Piece, append_pieces, append_piece, append_i32, append_u32, append_chars,
  append_char, append_str, render_u32, low_digits,
}
use sputter_os.Logging.Text.Decimal.{render_u32_round_trip, read_digits, IsDigit}

abbrev units : FloatArith ℕ
units = record {
  is_negative = λ v. false;
  negate = λ v. v;
  add = λ v w. v + w;
  sub = λ v w. 0;
  mul = λ v w. v * w;
  div = λ v w. v / w;
  to_u32 = λ v. v;
  of_u32 = λ v. v;
  one = 1;
  ten = 10;
  half = 0;
}

-- "P:-7"
abbrev pieces : List (Piece ℕ)
pieces = Piece.str (some (80 ∷ 58 ∷ [])) ∷ Piece.i32 (negsuc 6) ∷ []

negative_run : (append_pieces units empty_text pieces).chars ≡ 80 ∷ 58 ∷ 45 ∷ 55 ∷ []
unfolding append_pieces append_piece append_str append_i32 append_u32 append_chars append_char
    render_u32 low_digits
negative_run = refl

render_u32_round_trip_example :
    (read_digits 0 (render_u32 16 4294967295) ≡ 4294967295) × All IsDigit (render_u32 16 4294967295)
render_u32_round_trip_example = render_u32_round_trip 4294967295 (omega arith)
