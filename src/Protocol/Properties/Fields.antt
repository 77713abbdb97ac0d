-- ===== src/Protocol/Properties/Fields.antt =====
-- The properties record as it is documented, against the parser.
use vkt7d.Common.{
  ℕ, ◌+◌, ◌/◌, ◌^◌, ◌≤◌, ◌<◌, ◌≡◌, ◌==◌, ltb, refl, ap, ◌∙◌, true, false, Bool-cases, if◌then◌else◌,
  List, [], ◌∷◌, ◌++◌, append-nil, append_assoc, arith, Bytes, length, get_or, take, drop,
  length-append, take-append, get_or-append, get_or-past, drop-past, inl, inr,
}
use vkt7d.Common.Int.{pos}
use vkt7d.Errors.{malformed, Result, ok, err}
use vkt7d.Model.{Element, Value, text, integer}
use vkt7d.Model.Table.{put}
use vkt7d.Protocol.Frame.{byte, le16_at}
use vkt7d.Protocol.Elements.{Table}
use vkt7d.Protocol.Properties.{Parsed, unit, frac, property, properties_from, parse_properties}

-- One field of the record: a text with its quality and NS bytes, or a number of digits with them.
pub data Field : Type 0 where
  unit_field : Bytes → ℕ → ℕ → Field
  digits_field : ℕ → ℕ → ℕ → Field

abbrev pub wire : Field → Bytes
wire (unit_field raw q ns) = byte (length raw) ∷ byte (length raw / 2 ^ 8) ∷ (raw ++ q ∷ ns ∷ [])
wire (digits_field v q ns) = v ∷ q ∷ ns ∷ []

abbrev pub wires : List Field → Bytes
wires [] = []
wires (f ∷ fs) = wire f ++ wires fs

module _ (decode : Bytes → Result Bytes) where
  -- The field belongs to this element at this index, and its text can be decoded.
  abbrev pub Fits : ℕ → Element → Field → Type 0
  Fits i e (unit_field raw q ns) =
      (i < 8) × (e.size ≡ 7) × (length raw ≤ 7) × ((t : Bytes) × (decode raw ≡ ok t))
  Fits i e (digits_field v q ns) = (8 ≤ i) × (e.size ≡ 1)

  abbrev pub AllFit : ℕ → List Element → List Field → Type 0
  AllFit i [] [] = Unit
  AllFit i (e ∷ es) (f ∷ fs) = Fits i e f × AllFit (i + 1) es fs
  AllFit i _ _ = ⊥

  -- The value of a field.
  abbrev pub value_of : (i : ℕ) (e : Element) (f : Field) → Fits i e f → Value
  value_of i e (unit_field raw q ns) h = record {
    value = text h.3.0;
    quality = q;
    ns = ns;
    raw = raw;
  }
  value_of i e (digits_field v q ns) h = record {
    value = integer (pos v);
    quality = q;
    ns = ns;
    raw = v ∷ [];
  }

  abbrev pub values_of :
      (i : ℕ) (es : List Element) (fs : List Field) → AllFit i es fs → Table → Table
  values_of i [] [] h out = out
  values_of i (e ∷ es) (f ∷ fs) h out =
      values_of (i + 1) es fs h.1 (put e.name (value_of i e f h.0) out)
  values_of i _ _ h out = out

  unit-read :
      (e : Element) (pre raw rest t : Bytes) (q ns : ℕ) (out : Table)
      → e.size ≡ 7
      → length raw ≤ 7
      → decode raw ≡ ok t
      → let n = length raw in
        unit decode e (pre ++ (byte n ∷ byte (n / 2 ^ 8) ∷ (raw ++ q ∷ ns ∷ rest))) (length pre) out
        ≡ ok (record {
          off = length pre + 2 + n + 2;
          out = put e.name (record { value = text t; quality = q; ns = ns; raw = raw }) out;
        })
  unfolding unit
  unit-read e pre raw rest t q ns out size small decoded =
      let n = length raw in
      let tail = raw ++ q ∷ ns ∷ rest in
      let body = byte n ∷ byte (n / 2 ^ 8) ∷ tail in
      let d = pre ++ body in
      let off = length pre in
      let low = get_or-past pre body off 0 0 (omega arith) in
      let high = get_or-past pre body (off + 1) 1 0 (omega arith) in
      let count : le16_at d off ≡ n = omega (arith, low, high) in
      let long = length-append pre body in
      let tail_long = length-append raw (q ∷ ns ∷ rest) in
      let t1 : ltb (length d) (off + 2) ≡ false = ground (arith, long) in
      let t2 : ltb e.size n ≡ false = ground (arith, size) in
      let t3 : ltb (length d) (off + 2 + n + 2) ≡ false = ground (arith, long, tail_long) in
      let text_at : take n (drop (off + 2) d) ≡ raw =
        ap (take n) (drop-past pre body (off + 2) 2 (omega arith)) ∙ take-append raw _ n refl in
      let q_at : get_or d (off + 2 + n) 0 ≡ q =
        get_or-past pre body (off + 2 + n) (2 + n) 0 (omega arith)
        ∙ get_or-append (byte n ∷ byte (n / 2 ^ 8) ∷ raw) q (ns ∷ rest) (2 + n) 0 (omega arith) in
      let ns_at : get_or d (off + 2 + n + 1) 0 ≡ ns =
        get_or-past pre body (off + 2 + n + 1) (3 + n) 0 (omega arith)
        ∙ get_or-past (byte n ∷ byte (n / 2 ^ 8) ∷ raw) (q ∷ ns ∷ rest) (3 + n) 1 0 (omega arith) in
      rw (count, t1, t2, t3, text_at, q_at, ns_at, decoded) refl

  frac-read :
      (e : Element) (pre rest : Bytes) (v q ns : ℕ) (out : Table)
      → frac decode e (pre ++ (v ∷ q ∷ ns ∷ rest)) (length pre) out
        ≡ ok (record {
          off = length pre + 3;
          out =
              put e.name
                (record { value = integer (pos v); quality = q; ns = ns; raw = v ∷ [] })
                out;
        })
  unfolding frac
  frac-read e pre rest v q ns out =
      let body = v ∷ q ∷ ns ∷ rest in
      let off = length pre in
      let long = length-append pre body in
      let fits : ltb (length (pre ++ body)) (off + 3) ≡ false = ground (arith, long) in
      let v_at = get_or-past pre body off 0 0 (omega arith) in
      let q_at = get_or-past pre body (off + 1) 1 0 (omega arith) in
      let ns_at = get_or-past pre body (off + 2) 2 0 (omega arith) in
      rw (fits, v_at, q_at, ns_at) refl

  -- One turn of the loop reads one field.
  property-read :
      (i : ℕ) (e : Element) (f : Field) (pre rest : Bytes) (out : Table) (h : Fits i e f)
      → property decode i e (pre ++ (wire f ++ rest)) (length pre) out
        ≡ ok (record { off = length (pre ++ wire f); out = put e.name (value_of i e f h) out })
  unfolding property
  property-read i e (unit_field raw q ns) pre rest out (early, size, small, (t, decoded)) =
      let test : ltb i 8 ≡ true = ground (arith, early) in
      let sized : (e.size == 7) ≡ true = ground (arith, size) in
      let end : length pre + 2 + length raw + 2 ≡ length (pre ++ wire (unit_field raw q ns)) =
        omega (
          arith,
          length-append pre (wire (unit_field raw q ns)),
          length-append raw (q ∷ ns ∷ []),
        ) in
      rw (test, sized, append_assoc raw (q ∷ ns ∷ []) rest)
        (unit-read e pre raw rest t q ns out size small decoded
          ∙ ap
              (λ k. ok (record {
                off = k;
                out = put e.name (record { value = text t; quality = q; ns = ns; raw = raw }) out;
              }))
              end)
  property-read i e (digits_field v q ns) pre rest out (late, size) =
      let test : ltb i 8 ≡ false = ground (arith, late) in
      let sized : (e.size == 1) ≡ true = ground (arith, size) in
      let end : length pre + 3 ≡ length (pre ++ v ∷ q ∷ ns ∷ []) =
        omega (arith, length-append pre (v ∷ q ∷ ns ∷ [])) in
      rw (test, sized)
        (frac-read e pre rest v q ns out
          ∙ ap
              (λ k. ok (record {
                off = k;
                out =
                    put e.name
                      (record { value = integer (pos v); quality = q; ns = ns; raw = v ∷ [] }) out;
              }))
              end)

  pub properties_from-cons :
      (i : ℕ) (e : Element) (es : List Element) (d : Bytes) (off : ℕ) (out : Table) (p : Parsed)
      → property decode i e d off out ≡ ok p
      → properties_from decode i (e ∷ es) d off out
        ≡ properties_from decode (i + 1) es d p.off p.out
  unfolding properties_from
  properties_from-cons i e es d off out p read = rw (read, properties_from) refl

  properties_from-read :
      (i : ℕ) (es : List Element) (fs : List Field) (pre rest : Bytes) (out : Table)
      (h : AllFit i es fs)
      → properties_from decode i es (pre ++ (wires fs ++ rest)) (length pre) out
        ≡ ok (record { off = length (pre ++ wires fs); out = values_of i es fs h out })
  unfolding properties_from
  properties_from-read i [] [] pre rest out h = rw (append-nil pre) refl
  properties_from-read i [] (f ∷ fs) pre rest out h = absurd h
  properties_from-read i (e ∷ es) [] pre rest out h = absurd h
  properties_from-read i (e ∷ es) (f ∷ fs) pre rest out h =
      let tail = wires fs ++ rest in
      let out' = put e.name (value_of i e f h.0) out in
      let later =
        rw (append_assoc pre (wire f) tail, append_assoc pre (wire f) (wires fs)) at
          (properties_from-read (i + 1) es fs (pre ++ wire f) rest out' h.1) in
      rw (append_assoc (wire f) (wires fs) rest) (
        properties_from-cons i e es (pre ++ (wire f ++ tail)) (length pre) out _
          (property-read i e f pre tail out h.0)
        ∙ later)

  -- A properties record as it is documented, sixteen fields that fit their elements, is parsed into
  -- the values of the fields under the names of the elements, if nothing follows it; a single byte
  -- behind the last field, and the record is refused.
  pub parse_properties-fields :
      (es : List Element) (fs : List Field) (rest : Bytes) (h : AllFit 0 es fs)
      → length es ≡ 16
      → parse_properties decode es (wires fs ++ rest) ≡ (
          if length rest == 0
          then ok (values_of 0 es fs h [])
          else err (malformed (wires fs ++ rest)))
  unfolding parse_properties
  parse_properties-fields es fs rest h sixteen =
      let test : (length es == 16) ≡ true = ground (arith, sixteen) in
      let read = properties_from-read 0 es fs [] rest [] h in
      let long = length-append (wires fs) rest in
      elim (Bool-cases (length rest == 0)) [
        | inl last ↦
            let whole_read : (length (wires fs) == length (wires fs ++ rest)) ≡ true =
              ground (arith, long, last) in
            rw (test, read, last, whole_read) refl
        | inr more ↦
            let cut_off : (length (wires fs) == length (wires fs ++ rest)) ≡ false =
              ground (arith, long, more) in
            rw (test, read, more, cut_off) refl
      ]
