-- ===== src/Protocol/ReadList.antt =====
-- protocol.go: `makeReadListPayload`, and the loop of `ActiveElements` that reads such a list back.
pub mod RoundTrip
use vkt7d.Common.{
  ℕ, ◌+◌, ◌*◌, ◌/◌, ◌%◌, ◌^◌, ltb, ◌==◌, if◌then◌else◌, List, [], ◌∷◌, ◌++◌, Bytes, length, bit_and,
  bit_or, not, Bool,
}
use vkt7d.Errors.{Error, payload_too_large, malformed, Result, ok, err, ◌>>=◌}
use vkt7d.Model.{Element}
use vkt7d.Model.Names.{element_name}
use vkt7d.Protocol.Frame.{byte}
use vkt7d.Protocol.Reply.{data_part, parse_exception}

-- `binary.LittleEndian.PutUint32` and `PutUint16`.
abbrev pub put32 : ℕ → Bytes → Bytes
put32 a rest = byte a ∷ byte (a / 2 ^ 8) ∷ byte (a / 2 ^ 16) ∷ byte (a / 2 ^ 24) ∷ rest

abbrev pub put16 : ℕ → Bytes → Bytes
put16 n rest = byte n ∷ byte (n / 2 ^ 8) ∷ rest

-- `uint32(e.Address) | 0x40000000`
abbrev pub flagged : ℕ → ℕ
flagged a = bit_or (a % 2 ^ 32) 0x40000000

-- The loop that serializes the elements.
unfoldable pub entries : List Element → Bytes
entries [] = []
entries (e ∷ es) = put32 (flagged e.address) (put16 (e.size % 2 ^ 16) (entries es))

unfoldable pub make_read_list_payload : List Element → Result Bytes
make_read_list_payload es =
    let p = entries es in
    if ltb 255 (length p) then err (payload_too_large (length p)) else ok (byte (length p) ∷ p)

abbrev element_at : ℕ → ℕ → Element
element_at a size = record { address = a; name = element_name a; size = size }

-- The loop of `ActiveElements`: six bytes an entry, addresses from 83 on are left out.
unfoldable pub active_entries : Bytes → List Element
active_entries (b0 ∷ b1 ∷ b2 ∷ b3 ∷ b4 ∷ b5 ∷ rest) =
    let a = bit_and (b0 + b1 * 256 + (b2 + b3 * 256) * 65536) 0x3FFFFFFF in
    let others = active_entries rest in
    if ltb a 83 then element_at a (b4 + b5 * 256) ∷ others else others
active_entries _ = []

abbrev not_empty : List Element → Bytes → Result (List Element)
not_empty [] d = err (malformed d)
not_empty (e ∷ es) d = ok (e ∷ es)

-- `ActiveElements` from the response on: an exception, a length that is no multiple of six and an
-- empty list are errors.
unfoldable pub parse_active : Bytes → Result (List Element)
unfolding active_entries data_part parse_exception
parse_active r =
    let d = data_part r in
    elim (parse_exception r) [
      | err e ↦ err e
      | ok _ ↦
          if not (length d % 6 == 0)
          then err (malformed d)
          else if length d == 0
          then err (malformed r)
          else not_empty (active_entries d) d
    ]
