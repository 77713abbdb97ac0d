-- ===== src/Protocol/Elements.antt =====
-- protocol.go: `decodeElementValue` and `ParseElements`.
pub mod Wire
use Prim.Native.String.{String}
use vkt7d.Common.{
  ℕ, zero, suc, ◌+◌, ◌*◌, ◌==◌, ltb, leb, Bool, ◌||◌, ◌&&◌, not, if◌then◌else◌, List, [], ◌∷◌,
  Bytes, length, get_or, take, drop,
}
use vkt7d.Common.Int.{ℤ}
use vkt7d.Errors.{Error, malformed, wrapped, Result, ok, err}
use vkt7d.Model.{Element, Value, Datum, text, counters, float32, unsigned, integer}
use vkt7d.Model.Table.{put}
use vkt7d.Protocol.Frame.{le16_at, le32_at}
use vkt7d.Protocol.Signed.{decode_signed_int}

-- The addresses of each case of the switch.
abbrev pub is_print_type : ℕ → Bool
is_print_type a = a == 77 || a == 78

abbrev pub is_counters : ℕ → Bool
is_counters a = a == 79 || a == 80

abbrev pub is_float32 : ℕ → Bool
is_float32 a = a == 19 || a == 20 || a == 21 || a == 41 || a == 42 || a == 43 || a == 81

abbrev pub is_unit : ℕ → Bool
is_unit a = leb 44 a && leb a 56

abbrev pub is_fraction : ℕ → Bool
is_fraction a = leb 57 a && leb a 76

-- `values[i] = binary.LittleEndian.Uint16(raw[i*2 : i*2+2])` for five values.
abbrev five_counters : Bytes → List ℕ
five_counters raw =
    le16_at raw 0 ∷ le16_at raw 2 ∷ le16_at raw 4 ∷ le16_at raw 6 ∷ le16_at raw 8 ∷ []

abbrev as_integer : Result ℤ → Result Datum
as_integer (ok z) = ok (integer z)
as_integer (err e) = err e

unfoldable pub decode_element_value : Element → Bytes → Result Datum
decode_element_value e raw =
    let a = e.address in
    if is_print_type a
    then ok (text raw)
    else if is_counters a
    then if length raw == 10 then ok (counters (five_counters raw)) else err (malformed raw)
    else if is_float32 a
    then if length raw == 4 then ok (float32 (le32_at raw 0)) else err (malformed raw)
    else if is_unit a
    then ok (text raw)
    else if is_fraction a
    then if length raw == 1 then ok (unsigned (get_or raw 0 0)) else err (malformed raw)
    else as_integer (decode_signed_int raw)

abbrev pub Table : Type 0
Table = List (String × Value)

-- What one turn of the loop stores, from the decoded value.
abbrev stored : Element → Bytes → ℕ → ℕ → Table → Result Datum → Result Table
stored e raw q ns out (ok v) =
    ok (put e.name (record { value = v; quality = q; ns = ns; raw = raw }) out)
stored e raw q ns out (err x) = err (wrapped x)

-- One turn of the loop: the value, the quality byte and the NS byte at the offset.
unfoldable pub parse_element : Element → Bytes → ℕ → Table → Result Table
parse_element e d off out =
    if ltb (length d) (off + e.size + 2)
    then err (malformed d)
    else let raw = take e.size (drop off d) in
      stored e raw (get_or d (off + e.size) 0) (get_or d (off + e.size + 1) 0) out
        (decode_element_value e raw)

-- The loop, from the offset `off`.
unfoldable pub parse_from : List Element → Bytes → ℕ → Table → Result Table
unfolding parse_element
parse_from [] d off out = ok out
parse_from (e ∷ es) d off out = elim (parse_element e d off out) [
  | ok out' ↦ parse_from es d (off + e.size + 2) out'
  | err x ↦ err x
]

-- The archive type is taken and not used.
unfoldable pub parse_elements : List Element → Bytes → ℕ → Result Table
unfolding parse_from
parse_elements es d typ = parse_from es d 0 []
