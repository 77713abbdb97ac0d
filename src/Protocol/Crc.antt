-- ===== src/Protocol/Crc.antt =====
-- protocol.go, `CRC16`. A uint16 is a number below 2 ^ 16; no step leaves that range.
pub mod Bounds
pub mod Detect
use vkt7d.Common.{
  ℕ, zero, suc, ◌/◌, bit_and, bit_xor, List, [], ◌∷◌, not, ◌==◌, if◌then◌else◌, Bytes,
}

-- The body of the inner loop.
unfoldable pub crc_bit : ℕ → ℕ
crc_bit crc = if not (bit_and crc 1 == 0) then bit_xor (crc / 2) 0xa001 else crc / 2

-- The inner loop, on the rounds left.
unfoldable pub crc_bits : ℕ → ℕ → ℕ
unfolding crc_bit
crc_bits zero crc = crc
crc_bits (suc left) crc = crc_bits left (crc_bit crc)

-- The body of the outer loop.
unfoldable pub crc_byte : ℕ → ℕ → ℕ
unfolding crc_bits
crc_byte crc x = crc_bits 8 (bit_xor crc x)

unfoldable pub crc_from : ℕ → Bytes → ℕ
unfolding crc_byte
crc_from crc [] = crc
crc_from crc (x ∷ xs) = crc_from (crc_byte crc x) xs

unfoldable pub crc16 : Bytes → ℕ
unfolding crc_from
crc16 b = crc_from 0xffff b
