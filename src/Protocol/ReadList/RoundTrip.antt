-- ===== src/Protocol/ReadList/RoundTrip.antt =====
-- What `SetReadList` writes has the entries that the loop of `ActiveElements` reads.
use vkt7d.Common.{
  ℕ, ◌+◌, ◌*◌, ◌/◌, ◌%◌, ◌^◌, ◌<◌, ◌≡◌, refl, ap, sym, ◌∙◌, List, [], ◌∷◌, arith, Bytes, All,
  length, bit_and, bit_or, bit_and_low, bit_or_add, ltb, true, if◌then◌else◌,
}
use vkt7d.Errors.{payload_too_large, ok, err}
use vkt7d.Model.{Element}
use vkt7d.Model.Names.{element_name}
use vkt7d.Protocol.Frame.{byte}
use vkt7d.Protocol.ReadList.{flagged, entries, make_read_list_payload, active_entries}

-- An element as `ActiveElements` makes them.
pub record IsActive (e : Element) : Type 0 where
  pub supported : e.address < 83
  pub named : e.name ≡ element_name e.address
  pub fits : e.size < 2 ^ 16

flagged-sum : (a : ℕ) → a < 83 → flagged a ≡ 2 ^ 30 + a
flagged-sum a h =
    ap (λ (t : ℕ). bit_or t 0x40000000) (omega arith) ∙ bit_or_add 30 1 a (omega arith)

active_entries-entries : (es : List Element) → All IsActive es → active_entries (entries es) ≡ es
unfolding active_entries entries
active_entries-entries [] h = refl
active_entries-entries (e ∷ es) h =
    let sum = flagged-sum e.address h.0.supported in
    let w = flagged e.address in
    let word : byte w
          + byte (w / 2 ^ 8) * 256
          + (byte (w / 2 ^ 16) + byte (w / 2 ^ 24) * 256) * 65536
        ≡ w =
      omega (arith, sum, h.0.supported) in
    let low : w % 2 ^ 30 ≡ e.address = omega (arith, sum, h.0.supported) in
    let address = ap (λ (t : ℕ). bit_and t 0x3FFFFFFF) word ∙ bit_and_low 30 w ∙ low in
    let n = e.size % 2 ^ 16 in
    let size : byte n + byte (n / 2 ^ 8) * 256 ≡ e.size = omega (arith, h.0.fits) in
    let below : ltb e.address 83 ≡ true = ground (arith, h.0.supported) in
    rw (address, size, below, active_entries-entries es h.1)
      (ap (λ n. record { address = e.address; name = n; size = e.size } ∷ es) (sym h.0.named))

entries-size : (es : List Element) → length (entries es) ≡ 6 * length es
unfolding entries
entries-size [] = refl
entries-size (e ∷ es) = omega (arith, entries-size es)

-- A list of active elements is serialized exactly when it has at most 42 elements; otherwise the
-- error names its size. The payload is then a byte count and that many bytes, of which the loop of
-- `ActiveElements` over the entries of a response makes the same list: addresses without the flag,
-- sizes and names. The tests of `ActiveElements` around the loop, as the one that refuses an empty
-- list, are not part of this.
pub make_read_list_payload-active :
    (es : List Element)
    → All IsActive es
    → (p : Bytes) × (make_read_list_payload es ≡ (
        if ltb 42 (length es) then err (payload_too_large (6 * length es)) else ok (length p ∷ p)))
      × (active_entries p ≡ es)
unfolding make_read_list_payload
make_read_list_payload-active es h =
    (entries es, ground (arith, entries-size es), active_entries-entries es h)
