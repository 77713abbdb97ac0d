-- ===== src/Protocol/Properties.antt =====
-- protocol.go: `ParseProperties`. The decoder of code page 866 is a library's (golang.org/x/text) and
-- a parameter: it turns bytes into the text's UTF-8 bytes, or reports an error.
pub mod Fields
use vkt7d.Common.{
  ℕ, zero, suc, ◌+◌, ◌==◌, ltb, Bool, not, if◌then◌else◌, List, [], ◌∷◌, Bytes, length, get_or,
  take, drop,
}
use vkt7d.Common.Int.{pos}
use vkt7d.Errors.{Error, refused, malformed, wrapped, Result, ok, err}
use vkt7d.Model.{Element, Value, text, integer}
use vkt7d.Model.Table.{put}
use vkt7d.Protocol.Frame.{le16_at}
use vkt7d.Protocol.Elements.{Table}

-- The variables `off` and `out`.
pub record Parsed : Type 0 where
  pub off : ℕ
  pub out : Table

module _ (decode : Bytes → Result Bytes) where
  abbrev pub unit_stored : Element → Bytes → ℕ → ℕ → ℕ → Table → Result Bytes → Result Parsed
  unit_stored e raw q ns off out (ok decoded) = ok (record {
    off = off;
    out = put e.name (record { value = text decoded; quality = q; ns = ns; raw = raw }) out;
  })
  unit_stored e raw q ns off out (err x) = err (wrapped x)

  -- The closure `unit`: a length of two bytes, the text, quality and NS.
  unfoldable pub unit : Element → Bytes → ℕ → Table → Result Parsed
  unit e d off out =
      let n = le16_at d off in
      let raw = take n (drop (off + 2) d) in
      if ltb (length d) (off + 2)
      then err (malformed d)
      else if ltb e.size n
      then err (malformed d)
      else if ltb (length d) (off + 2 + n + 2)
      then err (malformed d)
      else unit_stored e raw (get_or d (off + 2 + n) 0) (get_or d (off + 2 + n + 1) 0)
          (off + 2 + n + 2) out (decode raw)

  -- The closure `frac`: one byte, quality and NS.
  unfoldable pub frac : Element → Bytes → ℕ → Table → Result Parsed
  frac e d off out =
      let v = get_or d off 0 in
      if ltb (length d) (off + 3)
      then err (malformed d)
      else ok (record {
        off = off + 3;
        out =
            put e.name
              (record {
                value = integer (pos v);
                quality = get_or d (off + 1) 0;
                ns = get_or d (off + 2) 0;
                raw = v ∷ [];
              })
              out;
      })

  -- The body of the loop at the index `i`.
  unfoldable pub property : ℕ → Element → Bytes → ℕ → Table → Result Parsed
  property i e d off out =
      if ltb i 8
      then if not (e.size == 7) then err refused else unit e d off out
      else if not (e.size == 1)
      then err refused
      else frac e d off out

  unfoldable pub properties_from : ℕ → List Element → Bytes → ℕ → Table → Result Parsed
  properties_from i [] d off out = ok (record { off = off; out = out })
  properties_from i (e ∷ es) d off out = elim (property i e d off out) [
    | ok p ↦ properties_from (i + 1) es d p.off p.out
    | err x ↦ err x
  ]

  abbrev pub whole : Bytes → Result Parsed → Result Table
  whole d (ok p) = if not (p.off == length d) then err (malformed d) else ok p.out
  whole d (err x) = err x

  unfoldable pub parse_properties : List Element → Bytes → Result Table
  unfolding properties_from
  parse_properties es d =
      if not (length es == 16) then err (malformed []) else whole d (properties_from 0 es d 0 [])
