-- ===== src/Logging/Text/Decimal.antt =====
-- The decimal digits of `renderU32`.
use sputter_os.Prelude.{
  ==_iff, ℕ, zero, suc, ◌+◌, ◌-◌, ◌*◌, ◌/◌, ◌^◌, ◌≤◌, ◌<◌, List, [], ◌∷◌, ◌≡◌, refl, ◌∙◌, arith,
  All, ltb, ◌==◌, Bool-cases, inl, inr,
}
use native.Mathlib.Nat.{pow-suc}
use sputter_os.Logging.Text.{low_digits, reverse_onto, render_u32}

abbrev pub IsDigit : ℕ → Type 0
IsDigit c = (48 ≤ c) × (c < 58)

-- The number that digits, read from the left, add to what stands before them.
abbrev pub read_digits : ℕ → List ℕ → ℕ
read_digits n [] = n
read_digits n (c ∷ cs) = read_digits (n * 10 + (c - 48)) cs

low_value : List ℕ → ℕ
low_value [] = 0
low_value (c ∷ cs) = low_value cs * 10 + (c - 48)

read_digits-reverse_onto :
    (cs acc : List ℕ) → read_digits 0 (reverse_onto cs acc) ≡ read_digits (low_value cs) acc
unfolding low_value
read_digits-reverse_onto [] acc = refl
read_digits-reverse_onto (c ∷ cs) acc = read_digits-reverse_onto cs (c ∷ acc)

low_value-low_digits : (n val : ℕ) → val < 10 ^ n → low_value (low_digits n val) ≡ val
unfolding low_value low_digits
low_value-low_digits zero val h = omega arith
low_value-low_digits (suc n) val h =
    let rest = low_value-low_digits n (val / 10) (omega (arith, pow-suc 10 n)) in
    elim (Bool-cases (ltb 0 val)) [
      | inl e ↦ rw e (omega (arith, rest))
      | inr e ↦ rw e (ground arith)
    ]

low_digits-IsDigit : (n val : ℕ) → All IsDigit (low_digits n val)
unfolding low_digits
low_digits-IsDigit zero val = tt
low_digits-IsDigit (suc n) val = elim (Bool-cases (ltb 0 val)) [
  | inl e ↦ rw e ((omega arith, omega arith), low_digits-IsDigit n (val / 10))
  | inr e ↦ rw e tt
]

reverse_onto-IsDigit :
    (cs acc : List ℕ) → All IsDigit cs → All IsDigit acc → All IsDigit (reverse_onto cs acc)
reverse_onto-IsDigit [] acc hc ha = ha
reverse_onto-IsDigit (c ∷ cs) acc hc ha = reverse_onto-IsDigit cs (c ∷ acc) hc.1 (hc.0, ha)

-- A 32-bit number is rendered as decimal digits whose reading gives it back; the temporary buffer
-- of 16 characters never cuts one off.
pub render_u32_round_trip :
    (val : ℕ)
    → val < 2 ^ 32
    → (read_digits 0 (render_u32 16 val) ≡ val) × All IsDigit (render_u32 16 val)
unfolding render_u32
render_u32_round_trip val h = elim (Bool-cases (val == 0)) [
  | inl e ↦ rw e (omega (arith, (==_iff val 0).0 e), ((omega arith, omega arith), tt))
  | inr e ↦ rw e (
    read_digits-reverse_onto (low_digits 16 val) [] ∙ low_value-low_digits 16 val (omega arith),
    reverse_onto-IsDigit (low_digits 16 val) [] (low_digits-IsDigit 16 val) tt,
  )
]
