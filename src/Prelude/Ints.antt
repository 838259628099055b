-- ===== src/Prelude/Ints.antt =====
-- Signed numbers of C over the native natural numbers, under the library's names.
use Prim.Native.Nat.{ℕ, ◌-◌, ◌%◌, ◌<◌}
use native.Mathlib.Omega.{arith}

pub data ℤ : Type 0 where
  pos : ℕ → ℤ
  negsuc : ℕ → ℤ

-- `static_cast<uint8_t>` of a signed number.
abbrev pub to_u8 : ℤ → ℕ
to_u8 (ℤ.pos n) = n % 256
to_u8 (ℤ.negsuc n) = 255 - n % 256

pub to_u8-lt : (i : ℤ) → to_u8 i < 256
to_u8-lt (ℤ.pos n) = omega arith
to_u8-lt (ℤ.negsuc n) = omega arith
