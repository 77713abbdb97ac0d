-- ===== src/Telnet/Wire.antt =====
-- What a Telnet peer may send, as a grammar: a byte stream is a sequence of segments, and the
-- decoder shows for each segment what it stands for.
use vkt7d.Common.{
  ℕ, ==_iff, false, ◌≡◌, ◌≢◌, refl, ap, ap₂, ◌∙◌, List, [], ◌∷◌, ◌++◌, append-nil, append_assoc,
  map, arith, Bytes, All, ◌==◌, Bool-cases, inl, inr,
}
use vkt7d.Telnet.{
  iac, se, sb, will, wont, do_, dont, Phase, in_data, in_sb, Decoder, step_in, feed, escape,
}
use vkt7d.Telnet.Stream.{
  Item, byte, negotiation, subnegotiation, stream, view, bare, steps, feed-steps,
  steps-Extends_bare,
}

pub data Verb : Type 0 where
  v_will v_wont v_do v_dont : Verb

abbrev pub verb_code : Verb → ℕ
verb_code v_will = will
verb_code v_wont = wont
verb_code v_do = do_
verb_code v_dont = dont

pub data Segment : Type 0 where
  text : Bytes → Segment
  option : Verb → ℕ → Segment
  parameters : Bytes → Segment
  broken : Bytes → ℕ → Segment
  command : ℕ → Segment

-- A broken block ends in IAC and a byte that is neither IAC nor SE; a one-byte command is any
-- byte behind IAC that opens nothing.
abbrev pub IsSegment : Segment → Type 0
IsSegment (broken s b) = (b ≢ iac) × (b ≢ se)
IsSegment (command c) = (c ≢ iac) × (c ≢ will) × (c ≢ wont) × (c ≢ do_) × (c ≢ dont) × (c ≢ sb)
IsSegment _ = Unit {0}

abbrev pub wire : Segment → Bytes
wire (text bs) = escape bs
wire (option v o) = iac ∷ verb_code v ∷ o ∷ []
wire (parameters s) = iac ∷ sb ∷ (escape s ++ iac ∷ se ∷ [])
wire (broken s b) = iac ∷ sb ∷ (escape s ++ iac ∷ b ∷ [])
wire (command c) = iac ∷ c ∷ []

abbrev pub wires : List Segment → Bytes
wires [] = []
wires (s ∷ ss) = wire s ++ wires ss

abbrev pub meaning : Segment → List Item
meaning (text bs) = map byte bs
meaning (option v o) = negotiation (verb_code v) o ∷ []
meaning (parameters s) = subnegotiation s ∷ []
meaning (broken s b) = []
meaning (command c) = []

abbrev pub meanings : List Segment → List Item
meanings [] = []
meanings (s ∷ ss) = meaning s ++ meanings ss

abbrev at : Phase → Bytes → Decoder
at p sub = record { phase = p; sub = sub }

-- From `d` the bytes show these items and lead to `d'`.
record Shows (d : Decoder) (xs : Bytes) (items : List Item) (d' : Decoder) : Type 0 where
  shown : view (steps (bare d) xs) ≡ items
  reached : (steps (bare d) xs).decoder ≡ d'

Shows-append :
    {d e f : Decoder} {xs ys : Bytes} {is js : List Item}
    → Shows d xs is e
    → Shows e ys js f
    → Shows d (xs ++ ys) (is ++ js) f
Shows-append {d} {xs = xs} {ys = ys} p q =
    let cut = steps-Extends_bare d xs ys in
    record {
      shown = cut.0 ∙ ap₂ ◌++◌ p.shown (ap (λ e. view (steps (bare e) ys)) p.reached ∙ q.shown);
      reached = cut.1 ∙ ap (λ e. (steps (bare e) ys).decoder) p.reached ∙ q.reached;
    }

one_literal :
    (x : ℕ) (sub : Bytes)
    → (x == iac) ≡ false
    → Shows (at in_data sub) (x ∷ []) (byte x ∷ []) (at in_data sub)
one_literal x sub e = record { shown = unfold step_in in rw e; reached = unfold step_in in rw e }

one_escaped :
    (x : ℕ) (sub : Bytes)
    → x ≡ iac
    → Shows (at in_data sub) (x ∷ iac ∷ []) (byte x ∷ []) (at in_data sub)
one_escaped x sub e =
    rw e (record { shown = unfold step_in in refl; reached = unfold step_in in refl })

escape-Shows : (bs sub : Bytes) → Shows (at in_data sub) (escape bs) (map byte bs) (at in_data sub)
unfolding escape
escape-Shows [] sub = record { shown = refl; reached = refl }
escape-Shows (x ∷ xs) sub = elim (Bool-cases (x == iac)) [
  | inl e ↦ rw e (Shows-append (one_escaped x sub ((==_iff x iac).0 e)) (escape-Shows xs sub))
  | inr e ↦ rw e (Shows-append (one_literal x sub e) (escape-Shows xs sub))
]

-- Inside a block the escaped bytes are collected, and nothing is shown.
one_collected :
    (x : ℕ) (sub : Bytes)
    → (x == iac) ≡ false
    → Shows (at in_sb sub) (x ∷ []) [] (at in_sb (sub ++ x ∷ []))
one_collected x sub e = record { shown = unfold step_in in rw e; reached = unfold step_in in rw e }

one_collected_escaped :
    (x : ℕ) (sub : Bytes)
    → x ≡ iac
    → Shows (at in_sb sub) (x ∷ iac ∷ []) [] (at in_sb (sub ++ x ∷ []))
one_collected_escaped x sub e =
    rw e (record { shown = unfold step_in in refl; reached = unfold step_in in refl })

collect-Shows : (s sub : Bytes) → Shows (at in_sb sub) (escape s) [] (at in_sb (sub ++ s))
unfolding escape
collect-Shows [] sub = record { shown = refl; reached = rw (append-nil sub) }
collect-Shows (x ∷ xs) sub =
    let rest = rw (append_assoc sub (x ∷ []) xs) at (collect-Shows xs (sub ++ x ∷ [])) in
    elim (Bool-cases (x == iac)) [
      | inl e ↦ rw e (Shows-append (one_collected_escaped x sub ((==_iff x iac).0 e)) rest)
      | inr e ↦ rw e (Shows-append (one_collected x sub e) rest)
    ]

open_block : (sub : Bytes) → Shows (at in_data sub) (iac ∷ sb ∷ []) [] (at in_sb [])
unfolding step_in
open_block sub = record { shown = refl; reached = refl }

block-Shows :
    (s tail sub : Bytes) (items : List Item) (d : Decoder)
    → Shows (at in_sb s) tail items d
    → Shows (at in_data sub) (iac ∷ sb ∷ (escape s ++ tail)) items d
block-Shows s tail sub items d h =
    Shows-append (open_block sub) (Shows-append (collect-Shows s []) h)

block_end : (s : Bytes) → Shows (at in_sb s) (iac ∷ se ∷ []) (subnegotiation s ∷ []) (at in_data s)
unfolding step_in
block_end s = record { shown = refl; reached = refl }

ne-test : {a b : ℕ} → a ≢ b → (a == b) ≡ false
ne-test h = ground arith

broken_end :
    (s : Bytes) (b : ℕ) → b ≢ iac → b ≢ se → Shows (at in_sb s) (iac ∷ b ∷ []) [] (at in_data s)
unfolding step_in
broken_end s b h k = record {
  shown = rw (ne-test h, ne-test k);
  reached = rw (ne-test h, ne-test k);
}

abbrev end_sub : Segment → Bytes → Bytes
end_sub (parameters s) sub = s
end_sub (broken s b) sub = s
end_sub _ sub = sub

segment-Shows :
    (g : Segment) (sub : Bytes)
    → IsSegment g
    → Shows (at in_data sub) (wire g) (meaning g) (at in_data (end_sub g sub))
unfolding step_in
segment-Shows (text bs) sub h = escape-Shows bs sub
segment-Shows (option v_will o) sub h = record { shown = refl; reached = refl }
segment-Shows (option v_wont o) sub h = record { shown = refl; reached = refl }
segment-Shows (option v_do o) sub h = record { shown = refl; reached = refl }
segment-Shows (option v_dont o) sub h = record { shown = refl; reached = refl }
segment-Shows (parameters s) sub h = block-Shows s (iac ∷ se ∷ []) sub _ _ (block_end s)
segment-Shows (broken s b) sub h = block-Shows s (iac ∷ b ∷ []) sub _ _ (broken_end s b h.0 h.1)
segment-Shows (command c) sub (h0, h1, h2, h3, h4, h5) = record {
  shown = rw (ne-test h0, ne-test h1, ne-test h2, ne-test h3, ne-test h4, ne-test h5);
  reached = rw (ne-test h0, ne-test h1, ne-test h2, ne-test h3, ne-test h4, ne-test h5);
}

segments-Shows :
    (gs : List Segment) (sub : Bytes)
    → All IsSegment gs
    → (sub' : Bytes) × Shows (at in_data sub) (wires gs) (meanings gs) (at in_data sub')
segments-Shows [] sub h = (sub, record { shown = refl; reached = refl })
segments-Shows (g ∷ gs) sub h =
    let rest = segments-Shows gs (end_sub g sub) h.1 in
    (rest.0, Shows-append (segment-Shows g sub h.0) rest.1)

-- Between two segments, the decoder turns any sequence of well-formed segments into exactly what
-- they stand for, in order: the bytes of each text with IAC IAC taken as one byte, each option
-- verb with its option, each parameter block with its escapes undone; broken blocks and one-byte
-- commands leave nothing behind. It is between two segments again afterwards.
pub feed-wires :
    (d : Decoder) (gs : List Segment)
    → d.phase ≡ in_data
    → All IsSegment gs
    → (stream (feed d (wires gs)).events ≡ meanings gs)
      × ((feed d (wires gs)).decoder.phase ≡ in_data)
feed-wires d gs e h =
    let start : d ≡ at in_data d.sub = λ i. at (e i) d.sub in
    let all = segments-Shows gs d.sub h in
    let fed = feed-steps (at in_data d.sub) (wires gs) in
    rw start (fed.0 ∙ all.1.shown, ap (λ x. x.phase) (fed.1 ∙ all.1.reached))
