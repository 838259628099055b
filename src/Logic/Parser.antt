-- ===== src/Logic/Parser.antt =====
-- include/sputteros/logic/CommandParser.h. `strtol` and `strtof` of the C library are parameters: each
-- is given the characters of the line with the terminating zero, and returns the value with the
-- characters from `end` on, or `none` when it converted nothing (`end == cursor`). `F` is `float`.
pub mod Lines
mod Tests
use sputter_os.Prelude.{
  ℕ, ◌+◌, ◌-◌, Bool, true, false, not, List, [], ◌∷◌, ◌++◌, Option, none, some, if◌then◌else◌, ltb,
  leb, ◌==◌, ◌&&◌, ◌||◌, length, get_or, ◌>>=◌, ℤ, pos, negsuc, to_u8,
}

-- `Cfg::Command`.
pub record Command (F : Type 0) : Type 0 where
  pub id : ℕ
  pub target_device : ℕ
  pub value : F

pub record CLibrary (F : Type 0) : Type 0 where
  pub strtol : List ℕ → Option (ℤ × List ℕ)
  pub strtof : List ℕ → Option (F × List ℕ)

-- `line` is `m_buf[0 .. m_len)`.
pub record Parser (F : Type 0) : Type 0 where
  pub line : List ℕ
  pub pending : Command F
  pub has_pending : Bool

abbrev pub newline : ℕ
newline = 10

abbrev pub carriage_return : ℕ
carriage_return = 13

abbrev pub is_line_end : ℕ → Bool
is_line_end byte = (byte == newline) || (byte == carriage_return)

-- `*end` is a space or a tab.
abbrev pub at_delimiter : List ℕ → Bool
at_delimiter rest = let c = get_or rest 0 0 in (c == 32) || (c == 9)

module _ {F : Type 0} where
  -- The constructor; `zero_command` is `CommandStruct{}`.
  unfoldable pub make_parser : Command F → Parser F
  make_parser zero_command = record { line = []; pending = zero_command; has_pending = false }

  unfoldable pub get_command : Parser F → Option (Command F) × Parser F
  get_command p =
      if p.has_pending then (some p.pending, record p { has_pending = false }) else (none, p)

  unfoldable pub reset_parser : Parser F → Parser F
  reset_parser p = record p { line = []; has_pending = false }

-- `max_id` is `CfgMaxValidCommandID`, `max_line` is `kMaxLineLen`.
module _ {F : Type 0} (lib : CLibrary F) (max_id : ℕ) where
  -- A number of `strtol` that a delimiter follows.
  abbrev pub parse_field : List ℕ → Option (ℤ × List ℕ)
  parse_field cursor = elim (lib.strtol cursor) [
    | none ↦ none
    | some (raw, rest) ↦ if at_delimiter rest then some (raw, rest) else none
  ]

  abbrev pub id_in_range : ℤ → Option ℕ
  id_in_range (ℤ.pos n) = if ltb max_id n then none else some n
  id_in_range (ℤ.negsuc n) = none

  -- The command that `parseLine` stores in `m_pending`.
  unfoldable pub parse_text : List ℕ → Option (Command F)
  parse_text text = do
    (raw_id, after_id) ← parse_field text
    (raw_device, after_device) ← parse_field after_id
    (raw_value, _) ← lib.strtof after_device
    id ← id_in_range raw_id
    some (record { id = id; target_device = to_u8 raw_device; value = raw_value })

  unfoldable pub parse_line : Parser F → Bool × Parser F
  parse_line p = elim (parse_text (p.line ++ 0 ∷ [])) [
    | none ↦ (false, p)
    | some cmd ↦ (true, record p { pending = cmd; has_pending = true })
  ]

module _ {F : Type 0} (lib : CLibrary F) (max_id max_line : ℕ) where
  unfoldable pub feed_char : Parser F → ℕ → Bool × Parser F
  feed_char p byte =
      let (done, p') = parse_line lib max_id p in
      if is_line_end byte
      then (if ltb 0 (length p.line) then (done, record p' { line = [] }) else (false, p))
      else if leb (max_line - 1) (length p.line)
      then (false, record p { line = [] })
      else (false, record p { line = p.line ++ byte ∷ [] })

  -- A run of bytes: whether any call returned true.
  unfoldable pub feed_chars : Parser F → List ℕ → Bool × Parser F
  feed_chars p [] = (false, p)
  feed_chars p (byte ∷ bytes) =
      let (here, p') = feed_char p byte in
      let (later, p'') = feed_chars p' bytes in (here || later, p'')
