-- ===== src/Protocol/Elements/Wire.antt =====
-- `ParseElements` against the layout of a record: for each element of the read list its value, a
-- quality byte and an NS byte.
use Prim.Native.String.{String}
use text.Mathlib.TextEquality.{eq_iff}
use text.Mathlib.TextPositions.{eq_refl}
use vkt7d.Common.{
  ℕ, ◌+◌, ◌≤◌, ◌<◌, ◌≡◌, ◌≢◌, refl, sym, ap, ◌∙◌, false, inl, inr, some, List, [], ◌∷◌, ◌++◌,
  append_assoc, arith, Bytes, All, length, length-append, get_or, take, drop, take-append,
  drop-append, get_or-append, ltb, Bool-cases,
}
use vkt7d.Errors.{Error, ok, err, Result-cases}
use vkt7d.Model.{Element, Value, Datum}
use vkt7d.Model.Table.{lookup, put, lookup-put}
use vkt7d.Protocol.Elements.{Table, decode_element_value, parse_element, parse_from, parse_elements}

-- One element of a record, and what it decodes to.
pub record Field : Type 0 where
  pub element : Element
  pub raw : Bytes
  pub quality : ℕ
  pub ns : ℕ
  pub datum : Datum

pub record IsField (g : Field) : Type 0 where
  pub sized : g.element.size ≡ length g.raw
  pub decodes : decode_element_value g.element g.raw ≡ ok g.datum

abbrev pub record_bytes : List Field → Bytes
record_bytes [] = []
record_bytes (g ∷ gs) = g.raw ++ g.quality ∷ g.ns ∷ record_bytes gs

abbrev pub field_value : Field → Value
field_value g = record { value = g.datum; quality = g.quality; ns = g.ns; raw = g.raw }

abbrev pub elements_of : List Field → List Element
elements_of [] = []
elements_of (g ∷ gs) = g.element ∷ elements_of gs

abbrev pub tabled : List Field → Table → Table
tabled [] out = out
tabled (g ∷ gs) out = tabled gs (put g.element.name (field_value g) out)

parse_element-field :
    (g : Field) (before after : Bytes) (off : ℕ) (out : Table)
    → IsField g
    → off ≡ length before
    → parse_element g.element (before ++ (g.raw ++ g.quality ∷ g.ns ∷ after)) off out
      ≡ ok (put g.element.name (field_value g) out)
unfolding parse_element
parse_element-field g before after off out f e =
    let d = before ++ (g.raw ++ g.quality ∷ g.ns ∷ after) in
    let joined : d ≡ (before ++ g.raw) ++ g.quality ∷ g.ns ∷ after =
      sym (append_assoc before g.raw (g.quality ∷ g.ns ∷ after)) in
    let size = length-append before g.raw in
    let enough : off + g.element.size + 2 ≤ length d = omega (
      arith,
      f.sized,
      length-append before (g.raw ++ g.quality ∷ g.ns ∷ after),
      length-append g.raw (g.quality ∷ g.ns ∷ after),
    ) in
    let rest = drop-append before (g.raw ++ g.quality ∷ g.ns ∷ after) off e in
    let value : take g.element.size (drop off d) ≡ g.raw =
      ap (take g.element.size) rest ∙ take-append g.raw _ g.element.size f.sized in
    let q : get_or d (off + g.element.size) 0 ≡ g.quality =
      ap (λ d. get_or d (off + g.element.size) 0) joined
      ∙ get_or-append (before ++ g.raw) g.quality (g.ns ∷ after) _ 0
          (omega (arith, f.sized, size)) in
    let joined' = joined ∙ sym (append_assoc (before ++ g.raw) (g.quality ∷ []) (g.ns ∷ after)) in
    let n : get_or d (off + g.element.size + 1) 0 ≡ g.ns =
      ap (λ d. get_or d (off + g.element.size + 1) 0) joined'
      ∙ get_or-append ((before ++ g.raw) ++ g.quality ∷ []) g.ns after _ 0
          (omega (arith, f.sized, size, length-append (before ++ g.raw) (g.quality ∷ []))) in
    let in_range : ltb (length d) (off + g.element.size + 2) ≡ false = ground arith in
    rw (in_range, value, f.decodes, q, n)

parse_from-fields :
    (gs : List Field) (before extra : Bytes) (off : ℕ) (out : Table)
    → All IsField gs
    → off ≡ length before
    → parse_from (elements_of gs) (before ++ (record_bytes gs ++ extra)) off out
      ≡ ok (tabled gs out)
unfolding parse_from
parse_from-fields [] before extra off out h e = refl
parse_from-fields (g ∷ gs) before extra off out h e =
    let after = record_bytes gs ++ extra in
    let own = g.raw ++ g.quality ∷ g.ns ∷ [] in
    let d = before ++ ((g.raw ++ g.quality ∷ g.ns ∷ record_bytes gs) ++ extra) in
    let split : d ≡ before ++ (g.raw ++ g.quality ∷ g.ns ∷ after) =
      ap (λ t. before ++ t) (append_assoc g.raw (g.quality ∷ g.ns ∷ record_bytes gs) extra) in
    let one =
      ap (λ d. parse_element g.element d off out) split
      ∙ parse_element-field g before after off out h.0 e in
    let shift : d ≡ (before ++ own) ++ after =
      split
      ∙ ap (λ t. before ++ t) (sym (append_assoc g.raw (g.quality ∷ g.ns ∷ []) after))
      ∙ sym (append_assoc before own after) in
    let out' = put g.element.name (field_value g) out in
    let off' = off + g.element.size + 2 in
    let place : off' ≡ length (before ++ own) =
      omega
        (arith, h.0.sized, length-append before own, length-append g.raw (g.quality ∷ g.ns ∷ [])) in
    rw (one, parse_from)
      (ap (λ d. parse_from (elements_of gs) d off' out') shift
        ∙ parse_from-fields gs (before ++ own) extra off' out' h.1 place)

-- A field's value is in the table, unless a later field has the same name.
lookup-tabled_out :
    (gs : List Field) (k : String) (out : Table)
    → All (λ g. g.element.name ≢ k) gs
    → lookup k (tabled gs out) ≡ lookup k out
lookup-tabled_out [] k out h = refl
lookup-tabled_out (g ∷ gs) k out h =
    lookup-tabled_out gs k (put g.element.name (field_value g) out) h.1
    ∙ lookup-put g.element.name k (field_value g) out
    ∙ ground (arith, eq_iff g.element.name k, h.0)

lookup-tabled :
    (before : List Field) (g : Field) (after : List Field) (out : Table)
    → All (λ x. x.element.name ≢ g.element.name) after
    → lookup g.element.name (tabled (before ++ g ∷ after) out) ≡ some (field_value g)
lookup-tabled [] g after out h =
    lookup-tabled_out after g.element.name (put g.element.name (field_value g) out) h
    ∙ lookup-put g.element.name g.element.name (field_value g) out
    ∙ ground (arith, eq_refl g.element.name)
lookup-tabled (x ∷ before) g after out h =
    lookup-tabled before g after (put x.element.name (field_value x) out) h

-- A record laid out as the read list says is parsed: the result holds, under the name of each
-- element that no later one shares, its decoded value, its quality and NS bytes and its raw
-- bytes. Bytes behind the last element are not looked at.
pub parse_elements-fields :
    (before : List Field) (g : Field) (after : List Field) (extra : Bytes) (typ : ℕ)
    → All IsField (before ++ g ∷ after)
    → All (λ x. x.element.name ≢ g.element.name) after
    → let gs = before ++ g ∷ after in
      (t : Table) × (parse_elements (elements_of gs) (record_bytes gs ++ extra) typ ≡ ok t)
      × (lookup g.element.name t ≡ some (field_value g))
unfolding parse_elements
parse_elements-fields before g after extra typ h distinct =
    let gs = before ++ g ∷ after in
    (
      tabled gs [],
      parse_from-fields gs [] extra 0 [] h refl,
      lookup-tabled before g after [] distinct,
    )

-- The bytes that a read list asks for.
abbrev pub span : List Element → ℕ
span [] = 0
span (e ∷ es) = e.size + 2 + span es

parse_element-ok :
    (e : Element) (d : Bytes) (off : ℕ) (out : Table) {t : Table}
    → parse_element e d off out ≡ ok t
    → off + e.size + 2 ≤ length d
unfolding parse_element
parse_element-ok e d off out h = elim (Bool-cases (ltb (length d) (off + e.size + 2))) [
  | inl short ↦ absurd (err-ne-ok (rw short at h))
  | inr enough ↦ ground arith
]
  where
    err-ne-ok : {x : Error} {t : Table} → err x ≡ ok t → ⊥
    err-ne-ok h = cc

parse_from-span :
    (es : List Element) (d : Bytes) (off : ℕ) (out : Table) {t : Table}
    → parse_from es d off out ≡ ok t
    → off ≤ length d
    → off + span es ≤ length d
unfolding parse_from
parse_from-span [] d off out h le = omega arith
parse_from-span (e ∷ es) d off out h le = elim (Result-cases (parse_element e d off out)) [
  | inl (out', one) ↦
      let rest = rw (one, parse_from) at h in
      omega (
        arith,
        parse_element-ok e d off out one,
        parse_from-span es d (off + e.size + 2) out' rest (parse_element-ok e d off out one),
      )
  | inr (x, one) ↦ absurd (err-ne-ok' (rw (one, parse_from) at h))
]
  where
    err-ne-ok' : {x : Error} {t : Table} → err x ≡ ok t → ⊥
    err-ne-ok' h = cc

-- A response that is shorter than the read list asks for is refused, whatever it holds: no value
-- is taken from outside the data.
pub parse_elements-short :
    (es : List Element) (d : Bytes) (typ : ℕ)
    → length d < span es
    → (x : Error) × (parse_elements es d typ ≡ err x)
unfolding parse_elements
parse_elements-short es d typ h = elim (Result-cases (parse_from es d 0 [])) [
  | inl (t, e) ↦ absurd (omega (arith, parse_from-span es d 0 [] e (omega arith)))
  | inr refused ↦ refused
]
