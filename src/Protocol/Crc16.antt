-- ===== src/Protocol/Crc16.antt =====
-- include/sputteros/comms/protocol/Crc16.h: the checksum, one bit at a time as the source has it.
pub mod Detect
use sputter_os.Prelude.{ℕ, zero, suc, ◌*◌, ◌%◌, List, [], ◌∷◌, ◌==◌, if◌then◌else◌}
use Prim.Native.Nat.{bit_and, bit_xor}

-- One round of the inner loop. The shifted value is an `int`, and the assignment to `crc` keeps 16
-- bits of it.
unfoldable pub crc_bit : ℕ → ℕ
crc_bit crc = if bit_and crc 0x8000 == 0 then crc * 2 % 65536 else bit_xor (crc * 2) 0x1021 % 65536

-- The inner loop, for the rounds that are left of its eight.
unfoldable pub crc_bits : ℕ → ℕ → ℕ
crc_bits zero crc = crc
crc_bits (suc rounds) crc = crc_bits rounds (crc_bit crc)

-- One round of the outer loop.
unfoldable pub crc_byte : ℕ → ℕ → ℕ
crc_byte crc byte = crc_bits 8 (bit_xor crc (byte * 256) % 65536)

unfoldable pub crc16_from : List ℕ → ℕ → ℕ
crc16_from [] crc = crc
crc16_from (byte ∷ rest) crc = crc16_from rest (crc_byte crc byte)

-- `crc16` with its default initial value.
unfoldable pub crc16 : List ℕ → ℕ
crc16 bytes = crc16_from bytes 0xFFFF
