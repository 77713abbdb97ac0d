-- ===== src/Protocol/Signed.antt =====
-- protocol.go, `decodeSignedInt`. An int64 is its bit pattern, a number below 2 ^ 64, until the
-- result is read as an integer.
pub mod Value
use vkt7d.Common.{
  ℕ, zero, suc, ◌+◌, ◌-◌, ◌*◌, ◌%◌, ◌^◌, bit_and, bit_or, ◌==◌, ltb, Bool, not, ◌&&◌, if◌then◌else◌,
  List, [], ◌∷◌, Bytes, length, get_or,
}
use vkt7d.Common.Int.{ℤ, pos, negsuc}
use vkt7d.Errors.{Error, malformed, Result, ok, err}

-- The int64 that a bit pattern stands for.
abbrev pub to_int64 : ℕ → ℤ
to_int64 x = if ltb x (2 ^ 63) then pos x else negsuc (2 ^ 64 - 1 - x)

-- The loop `x |= int64(v) << (8 * i)`.
unfoldable pub gather : ℕ → ℕ → Bytes → ℕ
gather i x [] = x
gather i x (v ∷ vs) = gather (suc i) (bit_or x (v * 2 ^ (8 * i) % 2 ^ 64)) vs

-- `x |= ^int64(0) << (8 * len(b))`
unfoldable pub extend : Bytes → ℕ → ℕ
extend b x =
    if ltb (length b) 8 && not (bit_and (get_or b (length b - 1) 0) 0x80 == 0)
    then bit_or x (2 ^ 64 - 2 ^ (8 * length b))
    else x

unfoldable pub decode_signed_int : Bytes → Result ℤ
unfolding gather extend
decode_signed_int b =
    if length b == 0
    then err (malformed b)
    else if ltb 8 (length b)
    then err (malformed b)
    else ok (to_int64 (extend b (gather 0 0 b)))
