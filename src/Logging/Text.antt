-- ===== src/Logging/Text.antt =====
-- utils/logging/LightweightStringBuilder.h under include/sputteros, and its .cpp under src. Characters
-- are their codes, `chars` is `m_buf[0 .. m_len)`, and the arithmetic of `float` is a parameter.
pub mod Bounds
pub mod Decimal
mod Tests
use sputter_os.Prelude.{
  ℕ, zero, suc, ◌+◌, ◌-◌, ◌*◌, ◌/◌, ◌%◌, ◌^◌, Bool, true, false, List, [], ◌∷◌, ◌++◌, Option, none,
  some, if◌then◌else◌, ltb, leb, ◌==◌, length, ℤ, pos, negsuc,
}

abbrev pub capacity : ℕ
capacity = 128

pub record Text : Type 0 where
  pub chars : List ℕ

abbrev pub minus_sign : ℕ
minus_sign = 45

abbrev pub point : ℕ
point = 46

abbrev pub digit_zero : ℕ
digit_zero = 48

-- The digits that `renderU32` writes before it reverses them, at most `tmp_len`.
unfoldable pub low_digits : ℕ → ℕ → List ℕ
low_digits zero val = []
low_digits (suc tmp_len) val =
    let rest = low_digits tmp_len (val / 10) in
    if ltb 0 val then (digit_zero + val % 10) ∷ rest else []

abbrev pub reverse_onto : List ℕ → List ℕ → List ℕ
reverse_onto [] acc = acc
reverse_onto (c ∷ cs) acc = reverse_onto cs (c ∷ acc)

unfoldable pub render_u32 : ℕ → ℕ → List ℕ
render_u32 tmp_len val =
    if val == 0 then digit_zero ∷ [] else reverse_onto (low_digits tmp_len val) []

-- The loop that all versions of `append` share.
unfoldable pub append_chars : Text → List ℕ → Text
append_chars b [] = b
append_chars b (c ∷ cs) =
    let rest = append_chars (record { chars = b.chars ++ c ∷ [] }) cs in
    if ltb (length b.chars) (capacity - 1) then rest else b

unfoldable pub append_char : Text → ℕ → Text
append_char b c =
    if ltb (length b.chars) (capacity - 1) then record { chars = b.chars ++ c ∷ [] } else b

-- A null pointer is `none`.
unfoldable pub append_str : Text → Option (List ℕ) → Text
append_str b none = b
append_str b (some str) = append_chars b str

unfoldable pub append_u32 : Text → ℕ → Text
append_u32 b val = append_chars b (render_u32 16 val)

unfoldable pub append_i32 : Text → ℤ → Text
append_i32 b (ℤ.pos n) = append_u32 b n
append_i32 b (ℤ.negsuc n) = append_u32 (append_char b minus_sign) (n + 1)

unfoldable pub is_full : Text → Bool
is_full b = leb (capacity - 1) (length b.chars)

abbrev pub empty_text : Text
empty_text = record { chars = [] }

-- `clear`, which leaves what the constructor makes.
unfoldable pub clear_text : Text → Text
clear_text b = empty_text

pub record FloatArith (F : Type 0) : Type 0 where
  pub is_negative : F → Bool
  pub negate : F → F
  pub add : F → F → F
  pub sub : F → F → F
  pub mul : F → F → F
  pub div : F → F → F
  pub to_u32 : F → ℕ
  pub of_u32 : ℕ → F
  pub one : F
  pub ten : F
  pub half : F

-- The inner loop that makes the threshold, in 32 bits.
abbrev pub power_of_ten : ℕ → ℕ
power_of_ten n = 10 ^ n % 4294967296

-- The loop over the leading zeros, with `decimals - d` counting down.
unfoldable pub leading_zeros : ℕ → ℕ → Text → Text
leading_zeros zero frac_int b = b
leading_zeros (suc left) frac_int b =
    let padded = leading_zeros left frac_int (append_char b digit_zero) in
    let plain = leading_zeros left frac_int b in
    if ltb frac_int (power_of_ten (suc left)) then padded else plain

module _ {F : Type 0} (fl : FloatArith F) where
  abbrev pub scale_of : ℕ → F
  scale_of zero = fl.one
  scale_of (suc d) = fl.mul (scale_of d) fl.ten

  -- The fraction in units of the last decimal, clamped below `scale`.
  unfoldable pub fraction : F → ℕ → ℕ → ℕ
  fraction value int_part decimals =
      let scale = scale_of decimals in
      let frac = fl.sub value (fl.of_u32 int_part) in
      let frac_int = fl.to_u32 (fl.add (fl.mul frac scale) fl.half) in
      let max_frac = (fl.to_u32 scale + 4294967295) % 4294967296 in
      if ltb max_frac frac_int then max_frac else frac_int

  unfoldable pub append_magnitude : Text → F → ℕ → Text
  append_magnitude b value decimals =
      let scale = scale_of decimals in
      let rounded = fl.div (fl.of_u32 (fl.to_u32 (fl.add (fl.mul value scale) fl.half))) scale in
      let int_part = fl.to_u32 rounded in
      let b' = append_u32 b int_part in
      let frac_int = fraction rounded int_part decimals in
      if ltb 0 decimals
      then append_u32 (leading_zeros (decimals - 1) frac_int (append_char b' point)) frac_int
      else b'

  unfoldable pub append_float : Text → F → ℕ → Text
  append_float b value decimals =
      if fl.is_negative value
      then append_magnitude (append_char b minus_sign) (fl.negate value) decimals
      else append_magnitude b value decimals

-- One call of a chain `.append(..).append(..)`.
pub data Piece (F : Type 0) : Type 0 where
  str : Option (List ℕ) → Piece F
  i32 : ℤ → Piece F
  u32 : ℕ → Piece F
  float : F → ℕ → Piece F
  char : ℕ → Piece F

module _ {F : Type 0} (fl : FloatArith F) where
  unfoldable pub append_piece : Text → Piece F → Text
  append_piece b (Piece.str s) = append_str b s
  append_piece b (Piece.i32 i) = append_i32 b i
  append_piece b (Piece.u32 n) = append_u32 b n
  append_piece b (Piece.float v decimals) = append_float fl b v decimals
  append_piece b (Piece.char c) = append_char b c

  unfoldable pub append_pieces : Text → List (Piece F) → Text
  append_pieces b [] = b
  append_pieces b (p ∷ ps) = append_pieces (append_piece b p) ps
