-- ===== src/Logic/Parser/Tests.antt =====
-- Command lines at concrete inputs, with a small `strtol` for unsigned numbers.
use sputter_os.Prelude.{
  ℕ, ◌+◌, ◌-◌, ◌*◌, Bool, false, ◌&&◌, List, [], ◌∷◌, ◌++◌, ◌≡◌, refl, arith, Option, none, some,
  if◌then◌else◌, leb, ltb, pos,
}
use sputter_os.Logic.Parser.{CLibrary, Command, Parser, parse_text, feed_chars}
use sputter_os.Logic.Parser.Lines.{deliver_line, feed_chars_line}

abbrev is_digit : ℕ → Bool
is_digit c = leb 48 c && leb c 57

-- The digits at the front, behind what was read.
abbrev read_number : ℕ → List ℕ → ℕ × List ℕ
read_number n [] = (n, [])
read_number n (c ∷ cs) =
    let rest = read_number (n * 10 + (c - 48)) cs in if is_digit c then rest else (n, c ∷ cs)

abbrev skip_spaces : List ℕ → List ℕ
skip_spaces [] = []
skip_spaces (c ∷ cs) = let rest = skip_spaces cs in if leb c 32 && ltb 0 c then rest else c ∷ cs

abbrev number_at : List ℕ → Option (ℕ × List ℕ)
number_at [] = none
number_at (c ∷ cs) = if is_digit c then some (read_number 0 (c ∷ cs)) else none

abbrev unsigned_library : CLibrary ℕ
unsigned_library = record {
  strtol = λ cursor. elim (number_at (skip_spaces cursor)) [
    | none ↦ none
    | some (n, rest) ↦ some (pos n, rest)
  ];
  strtof = λ cursor. number_at (skip_spaces cursor);
}

abbrev no_command : Command ℕ
no_command = record { id = 0; target_device = 0; value = 0 }

abbrev fresh : Parser ℕ
fresh = record { line = []; pending = no_command; has_pending = false }

-- "2 1 30"
abbrev power_line : List ℕ
power_line = 50 ∷ 32 ∷ 49 ∷ 32 ∷ 51 ∷ 48 ∷ []

power_line_run :
    parse_text unsigned_library 9 (power_line ++ 0 ∷ [])
    ≡ some (record { id = 2; target_device = 1; value = 30 })
unfolding parse_text
power_line_run = refl

-- An identifier above the greatest one, and a missing field.
out_of_range_run : parse_text unsigned_library 1 (power_line ++ 0 ∷ []) ≡ none
unfolding parse_text
out_of_range_run = refl

short_line_run : parse_text unsigned_library 9 (50 ∷ 32 ∷ 49 ∷ 0 ∷ []) ≡ none
unfolding parse_text
short_line_run = refl

feed_chars_line_example :
    feed_chars unsigned_library 9 16 fresh (power_line ++ 10 ∷ [])
    ≡ deliver_line (parse_text unsigned_library 9 (power_line ++ 0 ∷ [])) fresh
feed_chars_line_example =
    feed_chars_line unsigned_library 9 16 fresh power_line 10 refl
      (refl, (refl, (refl, (refl, (refl, (refl, tt)))))) refl (omega arith) (omega arith)
