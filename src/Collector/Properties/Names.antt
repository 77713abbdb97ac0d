-- ===== src/Collector/Properties/Names.antt =====
-- The names of the properties, and where they are stored.
use Prim.Native.String.{String}
use vkt7d.Common.{
  ℕ, ◌+◌, ◌≡◌, ◌==◌, ltb, not, refl, Bool, true, false, Bool-cases, if◌then◌else◌, some, List, [],
  ◌∷◌, Bytes, length, get_or, take, drop, inl, inr,
}
use vkt7d.Errors.{Result, Result-cases, ok, err}
use vkt7d.Model.{Element}
use vkt7d.Model.Table.{AllNames, put-AllNames}
use vkt7d.Protocol.Frame.{le16_at}
use vkt7d.Protocol.Elements.{Table}
use vkt7d.Protocol.Properties.{
  Parsed, property, properties_from, whole, parse_properties, unit, unit_stored, frac,
}
use vkt7d.Protocol.Properties.Fields.{properties_from-cons}
use vkt7d.Storage.{Statement, upsert_property, Database, save_properties}
use vkt7d.Storage.Encode.{numeric_of}
use vkt7d.Storage.Names.{property_address, case_of}
use vkt7d.Storage.Commit.{Transactions, WholeOrNothing}
use vkt7d.Storage.Properties.{property_plan, save_properties-Saved}
use vkt7d.Collector.Properties.{property_elements}

-- The switch of the store knows the name, and gives the element's address.
abbrev pub Addressed : List Element → Type 0
Addressed [] = Unit
Addressed (e ∷ es) = (property_address e.name ≡ some e.address) × Addressed es

property_elements-Addressed : Addressed property_elements
unfolding property_address case_of
property_elements-Addressed = (
  refl,
  (
    refl,
    (
      refl,
      (
        refl,
        (
          refl,
          (
            refl,
            (refl, (refl, (refl, (refl, (refl, (refl, (refl, (refl, (refl, (refl, tt)))))))))),
          ),
        ),
      ),
    ),
  ),
)

abbrev HasAddress : String → Type 0
HasAddress name = (a : ℕ) × (property_address name ≡ some a)

abbrev Known : Table → Type 0
Known = AllNames HasAddress

-- What has been parsed so far has known names.
abbrev Kept : Result Parsed → Type 0
Kept (ok p) = Known p.out
Kept (err x) = Unit

Kept-if : (b : Bool) (x y : Result Parsed) → Kept x → Kept y → Kept (if b then x else y)
Kept-if true x y h k = h
Kept-if false x y h k = k

module _ (decode : Bytes → Result Bytes) where
  unit_stored-Kept :
      (e : Element) (raw : Bytes) (q ns off : ℕ) (out : Table) (r : Result Bytes)
      → property_address e.name ≡ some e.address
      → Known out
      → Kept (unit_stored decode e raw q ns off out r)
  unit_stored-Kept e raw q ns off out (ok decoded) here h =
      put-AllNames HasAddress e.name _ out (e.address, here) h
  unit_stored-Kept e raw q ns off out (err x) here h = tt

  property-Kept :
      (i : ℕ) (e : Element) (d : Bytes) (off : ℕ) (out : Table)
      → property_address e.name ≡ some e.address
      → Known out
      → Kept (property decode i e d off out)
  unfolding property unit frac
  property-Kept i e d off out here h =
      let n = le16_at d off in
      let raw = take n (drop (off + 2) d) in
      let read =
        unit_stored-Kept e raw (get_or d (off + 2 + n) 0) (get_or d (off + 2 + n + 1) 0)
          (off + 2 + n + 2) out (decode raw) here h in
      Kept-if (ltb i 8) _ _
        (Kept-if (not (e.size == 7)) _ _ tt (
          Kept-if (ltb (length d) (off + 2)) _ _ tt (
            Kept-if (ltb e.size n) _ _ tt
              (Kept-if (ltb (length d) (off + 2 + n + 2)) _ _ tt read))))
        (Kept-if (not (e.size == 1)) _ _ tt (
          Kept-if (ltb (length d) (off + 3)) _ _ tt
            (put-AllNames HasAddress e.name _ out (e.address, here) h)))

  properties_from-Kept :
      (i : ℕ) (es : List Element) (d : Bytes) (off : ℕ) (out : Table)
      → Addressed es
      → Known out
      → Kept (properties_from decode i es d off out)
  unfolding properties_from
  properties_from-Kept i [] d off out a h = h
  properties_from-Kept i (e ∷ es) d off out a h =
      let kept = property-Kept i e d off out a.0 h in
      elim (Result-cases (property decode i e d off out)) [
        | inr (x, failed) ↦ rw (failed, properties_from) tt
        | inl (p, read) ↦
            rw (properties_from-cons decode i e es d off out p read)
              (properties_from-Kept (i + 1) es d p.off p.out a.1 (rw read at kept))
      ]

  whole-Known :
      (d : Bytes) (r : Result Parsed) (v : Table) → Kept r → whole decode d r ≡ ok v → Known v
  whole-Known d (ok p) v h e = elim (Bool-cases (p.off == length d)) [
    | inl end ↦ let same : p.out ≡ v = cc (rw end at e) in rw⁻¹ same h
    | inr more ↦ absurd (cc (rw more at e))
  ]
  whole-Known d (err x) v h e = cc

  parsed-Known :
      (d : Bytes) (v : Table) → parse_properties decode property_elements d ≡ ok v → Known v
  unfolding parse_properties
  parsed-Known d v e =
      whole-Known d (properties_from decode 0 property_elements d 0 []) v
        (properties_from-Kept 0 property_elements d 0 [] property_elements-Addressed tt) e

Known-plan :
    (id : ℕ) (v : Table) → Known v → (sts : List Statement) × (property_plan id v ≡ some sts)
Known-plan id [] h = ([], refl)
Known-plan id ((name, x) ∷ v) ((a, here), h) =
    let (sts, plan) = Known-plan id v h in
    (upsert_property id a name x.value (numeric_of x.value) x.raw ∷ sts, rw (here, plan) refl)

-- Whatever record of the properties the meter sends, if it can be parsed, then `SaveProperties`
-- knows every name in it: there are statements for all of it, and on a database with the laws of
-- transactions they take effect together and without an error, or there is an error and nothing
-- changes, or the commit failed and they take effect together all the same.
pub parsed_properties-WholeOrNothing :
    (decode : Bytes → Result Bytes) (d : Database) {Content : Type 0} (t : Transactions d Content)
    (id : ℕ) (b : Bytes) (v : Table) (s : d.State)
    → parse_properties decode property_elements b ≡ ok v
    → (sts : List Statement) × (property_plan id v ≡ some sts)
      × WholeOrNothing d t sts s (save_properties d id v s)
parsed_properties-WholeOrNothing decode d t id b v s e =
    let (sts, plan) = Known-plan id v (parsed-Known decode b v e) in
    (sts, plan, rw plan at (save_properties-Saved d t id v s))
