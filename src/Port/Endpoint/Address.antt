-- ===== src/Port/Endpoint/Address.antt =====
-- What becomes of the host of an endpoint's address.
use vkt7d.Common.{
  ℕ, suc, ◌+◌, ◌≡◌, ◌==◌, refl, sym, ap, ◌∙◌, Bool-cases, true, false, ◌||◌, Option, none, some, [],
  ◌∷◌, ◌++◌, append_assoc, arith, Bytes, length, drop, length-append, take-length-append, inl, inr,
}
use vkt7d.Port.Endpoint.{
  colon, left_bracket, right_bracket, has, index_of, last_index, opens_bracket, split_bracketed,
  split_from, split_host_port, join_host_port, default_port, endpoint,
}

has-append : (b : ℕ) (xs ys : Bytes) → has b (xs ++ ys) ≡ (has b xs || has b ys)
unfolding has
has-append b [] ys = refl
has-append b (x ∷ xs) ys = elim (Bool-cases (x == b)) [
  | inl here ↦ rw here refl
  | inr other ↦ rw other (has-append b xs ys)
]

last_index-none : (b : ℕ) (xs : Bytes) → has b xs ≡ false → last_index b xs ≡ none
unfolding has last_index
last_index-none b [] h = refl
last_index-none b (x ∷ xs) h = elim (Bool-cases (x == b)) [
  | inl here ↦ absurd (cc (rw here at h))
  | inr other ↦ rw (other, last_index-none b xs (rw other at h)) refl
]

last_index-append :
    (xs ys : Bytes) → has colon ys ≡ false → last_index colon (xs ++ colon ∷ ys) ≡ some (length xs)
unfolding last_index
last_index-append [] ys h = rw (last_index-none colon ys h) refl
last_index-append (x ∷ xs) ys h = rw (last_index-append xs ys h) refl

index_of-append :
    (xs ys : Bytes)
    → has right_bracket xs ≡ false
    → index_of right_bracket (xs ++ right_bracket ∷ ys) ≡ some (length xs)
unfolding has index_of
index_of-append [] ys h = refl
index_of-append (x ∷ xs) ys h = elim (Bool-cases (x == right_bracket)) [
  | inl here ↦ absurd (cc (rw here at h))
  | inr other ↦ rw (other, index_of-append xs ys (rw other at h)) refl
]

drop-past : (xs ys : Bytes) (y : ℕ) → drop (length xs + 1) (xs ++ y ∷ ys) ≡ ys
drop-past [] ys y = refl
drop-past (x ∷ xs) ys y =
    let one_more : suc (length xs) + 1 ≡ suc (length xs + 1) = omega arith in
    rw one_more (drop-past xs ys y)

-- No colon and no bracket: a name or an IPv4 address.
pub record IsBare (h : Bytes) : Type 0 where
  pub no_colon : has colon h ≡ false
  pub no_left : has left_bracket h ≡ false
  pub no_right : has right_bracket h ≡ false

not_bracketed :
    (h ys : Bytes) → has left_bracket h ≡ false → opens_bracket (h ++ colon ∷ ys) ≡ false
unfolding has
not_bracketed [] ys e = refl
not_bracketed (x ∷ xs) ys e = elim (Bool-cases (x == left_bracket)) [
  | inl here ↦ absurd (cc (rw here at e))
  | inr other ↦ other
]

split-plain :
    (h port : Bytes) → IsBare h → IsBare port → split_host_port (h ++ colon ∷ port) ≡ some (h, port)
unfolding split_host_port has
split-plain h port bare p =
    let text = h ++ colon ∷ port in
    let left : has left_bracket text ≡ false =
      has-append left_bracket h (colon ∷ port) ∙ rw (bare.no_left, p.no_left) refl in
    let right : has right_bracket text ≡ false =
      has-append right_bracket h (colon ∷ port) ∙ rw (bare.no_right, p.no_right) refl in
    rw
      (
        last_index-append h port p.no_colon,
        not_bracketed h port bare.no_left,
        take-length-append h (colon ∷ port),
        bare.no_colon,
        left,
        right,
        drop-past h port colon,
      )
      refl

default_port-IsBare : IsBare default_port
unfolding has
default_port-IsBare = record { no_colon = refl; no_left = refl; no_right = refl }

-- An IPv6 literal as it stands in an address.
abbrev pub bracketed : Bytes → Bytes
bracketed x = left_bracket ∷ (x ++ right_bracket ∷ [])

-- A literal has a colon, and no bracket of its own.
pub record IsLiteral (x : Bytes) : Type 0 where
  pub a_colon : has colon x ≡ true
  pub no_right : has right_bracket x ≡ false

split-bracketed : (x : Bytes) → IsLiteral x → (o : Option ℕ) → split_from (bracketed x) o ≡ none
unfolding has
split-bracketed x lit none = refl
split-bracketed x lit (some i) =
    let last : (suc (length x) + 1 == suc (length (x ++ right_bracket ∷ []))) ≡ true =
      ground (arith, length-append x (right_bracket ∷ [])) in
    rw (index_of-append (left_bracket ∷ x) [] lit.no_right, last) refl

has-bracketed : (x : Bytes) → IsLiteral x → has colon (bracketed x) ≡ true
unfolding has
has-bracketed x lit = has-append colon x (right_bracket ∷ []) ∙ rw lit.a_colon refl

-- Two pairs of brackets, and the port behind them.
abbrev twice : Bytes → Bytes
twice x = left_bracket ∷ (bracketed x ++ right_bracket ∷ colon ∷ default_port)

endpoint-twice : (x : Bytes) → IsLiteral x → endpoint (bracketed x) ≡ twice x
unfolding endpoint split_host_port join_host_port
endpoint-twice x lit =
    rw (split-bracketed x lit (last_index colon (bracketed x)), has-bracketed x lit) refl

twice-colon :
    (x : Bytes)
    → twice x ≡ (left_bracket ∷ (bracketed x ++ right_bracket ∷ [])) ++ colon ∷ default_port
twice-colon x =
    ap (◌∷◌ left_bracket)
      (sym (append_assoc (bracketed x) (right_bracket ∷ []) (colon ∷ default_port)))

twice-bracket :
    (x : Bytes)
    → twice x
      ≡ (left_bracket ∷ left_bracket ∷ x) ++ right_bracket ∷ right_bracket ∷ colon ∷ default_port
twice-bracket x =
    ap (λ t. left_bracket ∷ left_bracket ∷ t)
      (append_assoc x (right_bracket ∷ []) (right_bracket ∷ colon ∷ default_port))

split-twice : (x : Bytes) → IsLiteral x → split_host_port (twice x) ≡ none
unfolding split_host_port has
split-twice x lit =
    let last : last_index colon (twice x)
        ≡ some (suc (length (bracketed x ++ right_bracket ∷ []))) =
      ap (last_index colon) (twice-colon x)
      ∙ last_index-append (left_bracket ∷ (bracketed x ++ right_bracket ∷ [])) default_port
          default_port-IsBare.no_colon in
    let first : index_of right_bracket (twice x) ≡ some (suc (suc (length x))) =
      ap (index_of right_bracket) (twice-bracket x)
      ∙ index_of-append (left_bracket ∷ left_bracket ∷ x) (right_bracket ∷ colon ∷ default_port)
          lit.no_right in
    let inner : length (x ++ right_bracket ∷ []) ≡ length x + 1 =
      length-append x (right_bracket ∷ []) in
    let all : length (twice x) ≡ length x + 9 =
      omega (arith, length-append (bracketed x) (right_bracket ∷ colon ∷ default_port), inner) in
    let outer : length (bracketed x ++ right_bracket ∷ []) ≡ length x + 3 =
      omega (arith, length-append (bracketed x) (right_bracket ∷ []), inner) in
    let not_last : (suc (suc (length x)) + 1 == length (twice x)) ≡ false = ground (arith, all) in
    let not_before : (suc (suc (length x)) + 1 == suc (length (bracketed x ++ right_bracket ∷ [])))
        ≡ false =
      ground (arith, outer) in
    ap (split_from (twice x)) last
    ∙ ap (split_bracketed (twice x) (suc (length (bracketed x ++ right_bracket ∷ [])))) first
    ∙ rw (not_last, not_before) refl

endpoint-bare : (h : Bytes) → IsBare h → endpoint h ≡ h ++ colon ∷ default_port
unfolding endpoint split_host_port join_host_port
endpoint-bare h bare = rw (last_index-none colon h bare.no_colon, bare.no_colon) refl

-- The host of an address without a port: a name or an IPv4 address, which has no colon and no
-- bracket, is dialled at port 2217. An IPv6 literal in its brackets is not: what is dialled for it is
-- no host and port at all, since it is put into a second pair of brackets.
pub endpoint-without_port :
    (h x : Bytes)
    → IsBare h
    → IsLiteral x
    → (split_host_port (endpoint h) ≡ some (h, default_port))
      × (split_host_port (endpoint (bracketed x)) ≡ none)
endpoint-without_port h x bare lit = (
  rw (endpoint-bare h bare) (split-plain h default_port bare default_port-IsBare),
  rw (endpoint-twice x lit) (split-twice x lit),
)
