-- ===== src/Protocol/Crc16/Detect.antt =====
-- The checksum is a 16-bit value, and changing one byte of a message always changes it.
use sputter_os.Prelude.{
  ◌≢◌, ℕ, zero, suc, ◌*◌, ◌+◌, ◌/◌, ◌%◌, ◌≤◌, ◌<◌, List, [], ◌∷◌, ◌++◌, ◌≡◌, arith, All,
}
use sputter_os.Prelude.Bits.{
  bit_and_top_clear, bit_and_top_set, bit_xor-digit, bit_xor-lt, bit_xor_top_set,
  bit_xor_cancel-left, bit_xor_cancel-right,
}
use native.Mathlib.Decide.{dec_lt}
use Prim.Native.Nat.{bit_xor}
use sputter_os.Protocol.Crc16.{crc_bit, crc_bits, crc_byte, crc16_from, crc16}

crc_bit-lt : (crc : ℕ) → crc_bit crc < 65536
unfolding crc_bit
crc_bit-lt crc = ground arith

-- What the round gives on a value below the top bit, and on one with it.
crc_bit_low : (crc : ℕ) → crc < 32768 → crc_bit crc ≡ crc * 2
unfolding crc_bit
crc_bit_low crc h = ground (arith, bit_and_top_clear 15 crc h)

crc_bit_high :
    (crc : ℕ) → 32768 ≤ crc → crc < 65536 → crc_bit crc + 65536 ≡ bit_xor crc 0x810 * 2 + 1
unfolding crc_bit
crc_bit_high crc l h = ground (
  arith,
  bit_and_top_set 15 crc l h,
  half,
  bit_xor-digit (crc * 2) 0x1021,
  bit_xor_top_set 15 crc 0x810 l h (omega arith),
  bit_xor-lt 16 crc 0x810 h (omega arith),
)
  where
    half : crc * 2 / 2 ≡ crc
    half = omega arith

-- The round loses nothing: the lowest bit of its result says which branch was taken.
crc_bit_injective : (a b : ℕ) → a < 65536 → b < 65536 → crc_bit a ≡ crc_bit b → a ≡ b
crc_bit_injective a b ha hb e = elim (dec_lt a 32768) [
  | yes p ↦ elim (dec_lt b 32768) [
    | yes q ↦ omega (arith, crc_bit_low a p, crc_bit_low b q)
    | no q ↦ absurd (omega (arith, crc_bit_low a p, crc_bit_high b (omega arith) hb))
  ]
  | no p ↦ elim (dec_lt b 32768) [
    | yes q ↦ absurd (omega (arith, crc_bit_low b q, crc_bit_high a (omega arith) ha))
    | no q ↦
        bit_xor_cancel-right 16 a b 0x810 ha hb
          (omega (arith, crc_bit_high a (omega arith) ha, crc_bit_high b (omega arith) hb))
  ]
]

crc_bits-lt : (rounds crc : ℕ) → crc < 65536 → crc_bits rounds crc < 65536
unfolding crc_bits
crc_bits-lt zero crc h = h
crc_bits-lt (suc rounds) crc h = crc_bits-lt rounds (crc_bit crc) (crc_bit-lt crc)

crc_bits_injective :
    (rounds a b : ℕ) → a < 65536 → b < 65536 → crc_bits rounds a ≡ crc_bits rounds b → a ≡ b
unfolding crc_bits
crc_bits_injective zero a b ha hb e = e
crc_bits_injective (suc rounds) a b ha hb e =
    crc_bit_injective a b ha hb
      (crc_bits_injective rounds (crc_bit a) (crc_bit b) (crc_bit-lt a) (crc_bit-lt b) e)

pub crc_byte-lt : (crc byte : ℕ) → crc_byte crc byte < 65536
unfolding crc_byte
crc_byte-lt crc byte = crc_bits-lt 8 _ (omega arith)

-- For a given byte the old value can be had back from the new one.
crc_byte_injective_crc :
    (a b byte : ℕ) → a < 65536 → b < 65536 → byte < 256 → crc_byte a byte ≡ crc_byte b byte → a ≡ b
unfolding crc_byte
crc_byte_injective_crc a b byte ha hb h e = bit_xor_cancel-right 16 a b (byte * 256) ha hb (
    omega (
      arith,
      bit_xor-lt 16 a (byte * 256) ha (omega arith),
      bit_xor-lt 16 b (byte * 256) hb (omega arith),
      crc_bits_injective 8 (bit_xor a (byte * 256) % 65536) (bit_xor b (byte * 256) % 65536)
          (omega arith) (omega arith) e,
    ))

-- For a given old value the byte can be had back.
crc_byte_injective_byte :
    (crc x y : ℕ) → crc < 65536 → x < 256 → y < 256 → crc_byte crc x ≡ crc_byte crc y → x ≡ y
unfolding crc_byte
crc_byte_injective_byte crc x y h hx hy e = omega (
  arith,
  bit_xor_cancel-left 16 (x * 256) (y * 256) crc (omega arith) (omega arith) (
      omega (
        arith,
        bit_xor-lt 16 crc (x * 256) h (omega arith),
        bit_xor-lt 16 crc (y * 256) h (omega arith),
        crc_bits_injective 8 (bit_xor crc (x * 256) % 65536) (bit_xor crc (y * 256) % 65536)
            (omega arith) (omega arith) e,
      )),
)

crc16_from-lt : (bytes : List ℕ) (crc : ℕ) → crc < 65536 → crc16_from bytes crc < 65536
unfolding crc16_from
crc16_from-lt [] crc h = h
crc16_from-lt (b ∷ bs) crc h = crc16_from-lt bs (crc_byte crc b) (crc_byte-lt crc b)

pub crc16-lt : (bytes : List ℕ) → crc16 bytes < 65536
unfolding crc16
crc16-lt bytes = crc16_from-lt bytes 0xFFFF (omega arith)

-- Equal checksums of one tail come from equal values in front of it.
crc16_from_injective :
    (bytes : List ℕ) (a b : ℕ)
    → All (λ x. x < 256) bytes
    → a < 65536
    → b < 65536
    → crc16_from bytes a ≡ crc16_from bytes b
    → a ≡ b
unfolding crc16_from
crc16_from_injective [] a b hs ha hb e = e
crc16_from_injective (x ∷ xs) a b (hx, hs) ha hb e =
    crc_byte_injective_crc a b x ha hb hx (
      crc16_from_injective xs (crc_byte a x) (crc_byte b x) hs (crc_byte-lt a x) (crc_byte-lt b x)
        e)

crc16_from_detects :
    (front back : List ℕ) (x y crc : ℕ)
    → All (λ b. b < 256) back
    → x < 256
    → y < 256
    → crc < 65536
    → crc16_from (front ++ x ∷ back) crc ≡ crc16_from (front ++ y ∷ back) crc
    → x ≡ y
unfolding crc16_from
crc16_from_detects [] back x y crc hs hx hy h e = crc_byte_injective_byte crc x y h hx hy (
    crc16_from_injective back (crc_byte crc x) (crc_byte crc y) hs (crc_byte-lt crc x)
      (crc_byte-lt crc y) e)
crc16_from_detects (b ∷ bs) back x y crc hs hx hy h e =
    crc16_from_detects bs back x y (crc_byte crc b) hs hx hy (crc_byte-lt crc b) e

-- Two messages of bytes that differ in exactly one place, whatever stands in front of it and behind
-- it, have different checksums.
pub crc16_detects_byte :
    (front back : List ℕ) (x y : ℕ)
    → All (λ b. b < 256) back
    → x < 256
    → y < 256
    → x ≢ y
    → crc16 (front ++ x ∷ back) ≢ crc16 (front ++ y ∷ back)
unfolding crc16
crc16_detects_byte front back x y hs hx hy ne e =
    ne (crc16_from_detects front back x y 0xFFFF hs hx hy (omega arith) e)
