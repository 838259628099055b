-- ===== src/Prelude/Bits.antt =====
-- The bit operations of C on native numbers: one equation for the lowest digit of each, and what
-- follows for masks, shifted fields, widths and cancellation.
use Prim.Native.Nat.{
  ℕ, zero, suc, ◌+◌, ◌*◌, ◌/◌, ◌%◌, ◌^◌, ◌≤◌, ◌<◌, min, max, digits, differ, bit_and, bit_or,
  bit_xor, bit_and-bitwise, bit_or-bitwise, bit_xor-bitwise,
}
use mathlib.Core.Path.{◌≡◌, refl, ap}
use native.Mathlib.Nat.{pow-suc}
use native.Mathlib.Omega.{arith}

-- The fuel of `digits` does not matter once the first number has run out of digits.
module _ (z : ℕ → ℕ) (f : ℕ → ℕ → ℕ) where
  digits_any_fuel : (k l x y : ℕ) → x ≤ k → x ≤ l → digits z f k x y ≡ digits z f l x y
  digits_any_fuel zero zero x y p q = refl
  digits_any_fuel zero (suc l) zero y p q = refl
  digits_any_fuel (suc k) zero zero y p q = refl
  digits_any_fuel (suc k) (suc l) zero y p q = refl
  digits_any_fuel zero l (suc x) y p q = absurd (omega arith)
  digits_any_fuel (suc k) zero (suc x) y p q = absurd (omega arith)
  digits_any_fuel (suc k) (suc l) (suc x) y p q =
      ap (λ t. t * 2 + f (suc x % 2) (y % 2))
        (digits_any_fuel k l (suc x / 2) (y / 2) (omega arith) (omega arith))

  digits_half : (x y : ℕ) → digits z f x (suc x / 2) y ≡ digits z f (suc x / 2) (suc x / 2) y
  digits_half x y = digits_any_fuel x (suc x / 2) (suc x / 2) y (omega arith) (omega arith)

differ_digits : (x y : ℕ) → x < 2 → y < 2 → differ x y ≡ (x + y) % 2
differ_digits zero y hx hy = omega arith
differ_digits (suc x) zero hx hy = omega arith
differ_digits (suc zero) (suc zero) hx hy = refl
differ_digits (suc x) (suc (suc y)) hx hy = absurd (omega arith)
differ_digits (suc (suc x)) (suc y) hx hy = absurd (omega arith)

bit_and_zero-left : (b : ℕ) → bit_and 0 b ≡ 0
bit_and_zero-left b = bit_and-bitwise 0 b

bit_or_zero-left : (b : ℕ) → bit_or 0 b ≡ b
bit_or_zero-left b = bit_or-bitwise 0 b

bit_xor_zero-left : (b : ℕ) → bit_xor 0 b ≡ b
bit_xor_zero-left b = bit_xor-bitwise 0 b

pub bit_and-digit : (a b : ℕ) → bit_and a b ≡ bit_and (a / 2) (b / 2) * 2 + min (a % 2) (b % 2)
bit_and-digit zero b = omega (arith, bit_and_zero-left b, bit_and_zero-left (b / 2))
bit_and-digit (suc a) b = omega (
  arith,
  bit_and-bitwise (suc a) b,
  bit_and-bitwise (suc a / 2) (b / 2),
  digits_half (λ _. zero) min a (b / 2),
)

pub bit_or-digit : (a b : ℕ) → bit_or a b ≡ bit_or (a / 2) (b / 2) * 2 + max (a % 2) (b % 2)
bit_or-digit zero b = omega (arith, bit_or_zero-left b, bit_or_zero-left (b / 2))
bit_or-digit (suc a) b = omega (
  arith,
  bit_or-bitwise (suc a) b,
  bit_or-bitwise (suc a / 2) (b / 2),
  digits_half (λ y. y) max a (b / 2),
)

pub bit_xor-digit : (a b : ℕ) → bit_xor a b ≡ bit_xor (a / 2) (b / 2) * 2 + (a + b) % 2
bit_xor-digit zero b = omega (arith, bit_xor_zero-left b, bit_xor_zero-left (b / 2))
bit_xor-digit (suc a) b = omega (
  arith,
  bit_xor-bitwise (suc a) b,
  bit_xor-bitwise (suc a / 2) (b / 2),
  digits_half (λ y. y) differ a (b / 2),
  differ_digits (suc a % 2) (b % 2) (omega arith) (omega arith),
)

-- `r | (q << k)` is a sum when `r` fits `k` bits.
pub bit_or_fields : (k q r : ℕ) → r < 2 ^ k → bit_or r (q * 2 ^ k) ≡ r + q * 2 ^ k
bit_or_fields zero q zero h = omega (arith, bit_or_zero-left (q * 1))
bit_or_fields zero q (suc r) h = absurd (omega arith)
bit_or_fields (suc k) q r h =
    let double : q * 2 ^ suc k ≡ 2 * (q * 2 ^ k) =
      omega (arith, ap (λ (t : ℕ). q * t) (pow-suc 2 k)) in
    ground (
      arith,
      double,
      pow-suc 2 k,
      bit_or-digit r (q * 2 ^ suc k),
      bit_or_fields k q (r / 2) (omega (arith, pow-suc 2 k)),
    )

bit_and_zero-right : (k a : ℕ) → a ≤ k → bit_and a 0 ≡ 0
bit_and_zero-right k zero h = bit_and_zero-left 0
bit_and_zero-right zero (suc a) h = absurd (omega arith)
bit_and_zero-right (suc k) (suc a) h =
    omega (arith, bit_and-digit (suc a) 0, bit_and_zero-right k (suc a / 2) (omega arith))

bit_and_one : (a : ℕ) → bit_and a 1 ≡ a % 2
bit_and_one a = omega (arith, bit_and-digit a 1, bit_and_zero-right (a / 2) (a / 2) (omega arith))

-- One digit of a mask of ones.
bit_and_ones :
    (a m n : ℕ) {r : ℕ} → n ≡ 2 * m + 1 → bit_and (a / 2) m ≡ r → bit_and a n ≡ r * 2 + a % 2
bit_and_ones a m n e h =
    let half : n / 2 ≡ m = omega arith in ground (arith, half, bit_and-digit a n)

bit_and_nibble : (a : ℕ) → bit_and a 0x0F ≡ a % 16
bit_and_nibble a = omega (
  arith,
  bit_and_ones a 7 15 (refl) (
      bit_and_ones (a / 2) 3 7 (refl)
        (bit_and_ones (a / 2 / 2) 1 3 (refl) (bit_and_one (a / 2 / 2 / 2)))),
)

-- `a & 0xFF` is the low byte.
pub bit_and_byte : (a : ℕ) → bit_and a 0xFF ≡ a % 256
bit_and_byte a = omega (
  arith,
  bit_and_ones a 127 255 (refl) (
      bit_and_ones (a / 2) 63 127 (refl) (
        bit_and_ones (a / 2 / 2) 31 63 (refl)
          (bit_and_ones (a / 2 / 2 / 2) 15 31 (refl) (bit_and_nibble (a / 2 / 2 / 2 / 2))))),
)

-- `a & (1 << k)` tests the top bit of a number of `k + 1` bits.
bit_and_power : (k a : ℕ) {r : ℕ} → bit_and (a / 2) (2 ^ k) ≡ r → bit_and a (2 ^ suc k) ≡ r * 2
bit_and_power k a h =
    let half : 2 ^ suc k / 2 ≡ 2 ^ k = omega (arith, pow-suc 2 k) in
    ground (arith, pow-suc 2 k, half, bit_and-digit a (2 ^ suc k))

pub bit_and_top_clear : (k a : ℕ) → a < 2 ^ k → bit_and a (2 ^ k) ≡ 0
bit_and_top_clear zero a h = omega (arith, bit_and_one a)
bit_and_top_clear (suc k) a h =
    bit_and_power k a (bit_and_top_clear k (a / 2) (omega (arith, pow-suc 2 k)))

pub bit_and_top_set : (k a : ℕ) → 2 ^ k ≤ a → a < 2 ^ suc k → bit_and a (2 ^ k) ≡ 2 ^ k
bit_and_top_set zero a h l = omega (arith, bit_and_one a)
bit_and_top_set (suc k) a h l = omega (
  arith,
  pow-suc 2 k,
  bit_and_power k a
      (bit_and_top_set k (a / 2) (omega (arith, pow-suc 2 k)) (omega (arith, pow-suc 2 (suc k)))),
)

-- Exclusive or keeps to a width, and either argument can be cancelled.
pub bit_xor-lt : (k a b : ℕ) → a < 2 ^ k → b < 2 ^ k → bit_xor a b < 2 ^ k
bit_xor-lt zero zero b ha hb = omega (arith, bit_xor_zero-left b)
bit_xor-lt zero (suc a) b ha hb = absurd (omega arith)
bit_xor-lt (suc k) a b ha hb = omega (
  arith,
  pow-suc 2 k,
  bit_xor-digit a b,
  bit_xor-lt k (a / 2) (b / 2) (omega (arith, pow-suc 2 k)) (omega (arith, pow-suc 2 k)),
)

pub bit_xor_cancel-right : (k a b c : ℕ) → a < 2 ^ k → b < 2 ^ k → bit_xor a c ≡ bit_xor b c → a ≡ b
bit_xor_cancel-right zero a b c ha hb e = omega arith
bit_xor_cancel-right (suc k) a b c ha hb e = omega (
  arith,
  bit_xor-digit a c,
  bit_xor-digit b c,
  bit_xor_cancel-right k (a / 2) (b / 2) (c / 2) (omega (arith, pow-suc 2 k))
      (omega (arith, pow-suc 2 k)) (omega (arith, bit_xor-digit a c, bit_xor-digit b c)),
)

pub bit_xor_cancel-left : (k a b c : ℕ) → a < 2 ^ k → b < 2 ^ k → bit_xor c a ≡ bit_xor c b → a ≡ b
bit_xor_cancel-left zero a b c ha hb e = omega arith
bit_xor_cancel-left (suc k) a b c ha hb e = omega (
  arith,
  bit_xor-digit c a,
  bit_xor-digit c b,
  bit_xor_cancel-left k (a / 2) (b / 2) (c / 2) (omega (arith, pow-suc 2 k))
      (omega (arith, pow-suc 2 k)) (omega (arith, bit_xor-digit c a, bit_xor-digit c b)),
)

pub bit_xor_top_set : (k a b : ℕ) → 2 ^ k ≤ a → a < 2 ^ suc k → b < 2 ^ k → 2 ^ k ≤ bit_xor a b
bit_xor_top_set zero a b h l m = omega (arith, bit_xor-digit a b, bit_xor_zero-left (b / 2))
bit_xor_top_set (suc k) a b h l m = omega (
  arith,
  pow-suc 2 k,
  bit_xor-digit a b,
  bit_xor_top_set k (a / 2) (b / 2) (omega (arith, pow-suc 2 k)) (omega (arith, pow-suc 2 (suc k)))
      (omega (arith, pow-suc 2 k)),
)
