-- ===== src/Protocol/Frame.antt =====
-- protocol.go: `frame`, and the reads of little-endian integers (encoding/binary) and of the
-- exception bit that the other functions make.
use vkt7d.Common.{ℕ, ◌+◌, ◌*◌, ◌/◌, ◌%◌, Bool, not, [], ◌∷◌, ◌++◌, ◌==◌, Bytes, get_or, bit_and}
use vkt7d.Protocol.Crc.{crc16}

-- The conversion to `byte`.
abbrev pub byte : ℕ → ℕ
byte n = n % 256

-- `addr` and `fn` are bytes, `reg` and `qty` are uint16.
unfoldable pub frame_body : ℕ → ℕ → ℕ → ℕ → Bytes → Bytes
frame_body addr fn reg qty payload =
    addr ∷ fn ∷ byte (reg / 256) ∷ byte reg ∷ byte (qty / 256) ∷ byte qty ∷ payload

-- A message with its CRC behind it, low byte first.
unfoldable pub sealed : Bytes → Bytes
sealed b = let c = crc16 b in b ++ byte c ∷ byte (c / 256) ∷ []

unfoldable pub frame : ℕ → ℕ → ℕ → ℕ → Bytes → Bytes
unfolding frame_body sealed
frame addr fn reg qty payload = sealed (frame_body addr fn reg qty payload)

-- `binary.LittleEndian.Uint16` at an index. The callers test the length first.
abbrev pub le16_at : Bytes → ℕ → ℕ
le16_at d i = get_or d i 0 + get_or d (i + 1) 0 * 256

abbrev pub le32_at : Bytes → ℕ → ℕ
le32_at d i = le16_at d i + le16_at d (i + 2) * 65536

-- `r[1]&0x80 != 0`
abbrev pub is_exception : Bytes → Bool
is_exception r = not (bit_and (get_or r 1 0) 0x80 == 0)
