-- ===== src/Storage/Encode.antt =====
-- `encode`: the four JSON columns of a record. A column is the map that is marshalled; the JSON text
-- is encoding/json's. `json.Marshal` fails on a float32 that is not finite, and the error is dropped:
-- the column is then nil, which is NULL.
use Prim.Native.String.{String}
use vkt7d.Common.{
  ℕ, ◌+◌, ◌-◌, ◌/◌, ◌%◌, ◌^◌, ◌==◌, ltb, Bool, true, not, ◌&&◌, if◌then◌else◌, Option, none, some,
  List, [], ◌∷◌, map, Bytes,
}
use vkt7d.Model.{Datum, float32, integer}
use vkt7d.Protocol.Elements.{Table}

pub record Encoded : Type 0 where
  pub values : Option (List (String × Datum))
  pub quality : List (String × ℕ)
  pub ns : List (String × ℕ)
  pub raw : List (String × Bytes)

-- A float32 with an exponent of eight ones is an infinity or not a number.
abbrev pub is_finite : Datum → Bool
is_finite (float32 bits) = not (bits / 2 ^ 23 % 2 ^ 8 == 255)
is_finite _ = true

unfoldable pub all_finite : List (String × Datum) → Bool
all_finite [] = true
all_finite ((name, v) ∷ m) = is_finite v && all_finite m

abbrev pub marshal : List (String × Datum) → Option (List (String × Datum))
marshal m = if all_finite m then some m else none

-- The digits 0 to 9 and a to f, as characters.
abbrev pub hex_digit : ℕ → ℕ
hex_digit n = if ltb n 10 then b'0' + n else b'a' + (n - 10)

-- `hex.EncodeToString`
unfoldable pub hex : Bytes → Bytes
hex [] = []
hex (b ∷ bs) = hex_digit (b / 16) ∷ hex_digit (b % 16) ∷ hex bs

unfoldable pub encode : Table → Encoded
unfolding all_finite hex
encode v = record {
  values = marshal (map (λ e. (e.0, e.1.value)) v);
  quality = map (λ e. (e.0, e.1.quality)) v;
  ns = map (λ e. (e.0, e.1.ns)) v;
  raw = map (λ e. (e.0, hex e.1.raw)) v;
}

-- The type switch of `SaveProperties`: a number of these types, as a float64; nil for any other.
abbrev pub numeric_of : Datum → Option Datum
numeric_of (integer z) = some (integer z)
numeric_of (float32 bits) = some (float32 bits)
numeric_of _ = none
