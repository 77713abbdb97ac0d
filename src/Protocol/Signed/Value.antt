-- ===== src/Protocol/Signed/Value.antt =====
-- `decodeSignedInt` reads a two's complement integer of the width of its bytes.
use native.Mathlib.Numerals.{towards_suc}
use vkt7d.Common.{
  ℕ, Bool-cases, inl, inr, zero, suc, ◌+◌, ◌-◌, ◌*◌, ◌%◌, ◌^◌, ◌≤◌, ◌<◌, ◌≡◌, refl, sym, ap, ◌∙◌,
  bit_and, bit_or, bit_or_add, bit_and_digit, ◌||◌, ltb, ◌==◌, if◌then◌else◌, [], ◌∷◌, arith, Bytes,
  IsByte, IsBytes, length, get_or,
}
use vkt7d.Common.Int.{ℤ, pos, negsuc}
use vkt7d.Errors.{malformed, ok, err}
use vkt7d.Protocol.Signed.{to_int64, gather, extend, decode_signed_int}

-- The unsigned number of the bytes, low byte first.
pub le_value : Bytes → ℕ
le_value [] = 0
le_value (x ∷ xs) = x + le_value xs * 256

-- The weight of the next byte.
abbrev pub weight : ℕ → ℕ
weight n = 2 ^ (8 * n)

pub weight-suc : (n : ℕ) → weight (suc n) ≡ weight n * 256
weight-suc n = let e : 8 * suc n ≡ 8 * n + 8 = omega arith in rw e (simp towards_suc (omega arith))

weight-le : (n : ℕ) → n ≤ 7 → weight n ≤ 2 ^ 56
weight-le zero h = omega arith
weight-le (suc zero) h = omega arith
weight-le (suc (suc zero)) h = omega arith
weight-le (suc (suc (suc zero))) h = omega arith
weight-le (suc (suc (suc (suc zero)))) h = omega arith
weight-le (suc (suc (suc (suc (suc zero))))) h = omega arith
weight-le (suc (suc (suc (suc (suc (suc zero)))))) h = omega arith
weight-le (suc (suc (suc (suc (suc (suc (suc zero))))))) h = omega arith
weight-le (suc (suc (suc (suc (suc (suc (suc (suc n)))))))) h = absurd (omega arith)

pub le_value-lt : (bs : Bytes) → IsBytes bs → le_value bs < weight (length bs)
unfolding le_value
le_value-lt [] h = omega arith
le_value-lt (x ∷ xs) h = omega (arith, le_value-lt xs h.1, weight-suc (length xs), h.0)

gather-value :
    (i x : ℕ) (bs : Bytes)
    → i + length bs ≤ 8
    → x < weight i
    → IsBytes bs
    → gather i x bs ≡ x + le_value bs * weight i
unfolding gather le_value
gather-value i x [] h fits hb = omega arith
gather-value i x (v ∷ vs) h fits hb =
    let small : v * weight i < 2 ^ 64 = grind (arith, weight-le i (omega arith)) in
    let kept : v * weight i % 2 ^ 64 ≡ v * weight i = omega arith in
    let joined : bit_or x (v * weight i % 2 ^ 64) ≡ v * weight i + x =
      ap (bit_or x) kept ∙ bit_or_add (8 * i) v x fits in
    let bound : v * weight i + x < weight (suc i) = grind (arith, weight-suc i) in
    ap (λ (t : ℕ). gather (suc i) t vs) joined
    ∙ gather-value (suc i) (v * weight i + x) vs (omega arith) bound hb.1
    ∙ omega (arith, ap (λ (t : ℕ). le_value vs * t) (weight-suc i))

last : Bytes → ℕ
last [] = 0
last (x ∷ []) = x
last (x ∷ y ∷ ys) = last (y ∷ ys)

get_or-last : (x : ℕ) (xs : Bytes) → get_or (x ∷ xs) (length xs) 0 ≡ last (x ∷ xs)
unfolding last
get_or-last x [] = refl
get_or-last x (y ∷ ys) = get_or-last y ys

-- The top bit of the last byte is the top bit of the number.
last-value :
    (x : ℕ) (xs : Bytes)
    → IsBytes (x ∷ xs)
    → (q : ℕ) × (le_value (x ∷ xs) ≡ last (x ∷ xs) * weight (length xs) + q)
      × (q < weight (length xs))
unfolding last le_value
last-value x [] h = (0, omega arith, omega arith)
last-value x (y ∷ ys) h =
    let (q, e, lt) = last-value y ys h.1 in
    (
      x + q * 256,
      omega (arith, ap (λ (t : ℕ). last (y ∷ ys) * t) (weight-suc (length ys)), e),
      omega (arith, weight-suc (length ys), h.0),
    )

-- The integer of `n` bytes that hold the number `u`: two's complement.
pub signed : ℕ → ℕ → ℤ
signed n u = if ltb (u * 2) (weight n) then pos u else negsuc (weight n - 1 - u)

-- The ones above `n` bytes, as a multiple of the weight.
ones_above : (n : ℕ) → 1 ≤ n → n ≤ 7 → (q : ℕ) × (2 ^ 64 - weight n ≡ q * weight n)
ones_above zero p h = absurd (omega arith)
ones_above (suc zero) p h = (2 ^ 56 - 1, omega arith)
ones_above (suc (suc zero)) p h = (2 ^ 48 - 1, omega arith)
ones_above (suc (suc (suc zero))) p h = (2 ^ 40 - 1, omega arith)
ones_above (suc (suc (suc (suc zero)))) p h = (2 ^ 32 - 1, omega arith)
ones_above (suc (suc (suc (suc (suc zero))))) p h = (2 ^ 24 - 1, omega arith)
ones_above (suc (suc (suc (suc (suc (suc zero)))))) p h = (2 ^ 16 - 1, omega arith)
ones_above (suc (suc (suc (suc (suc (suc (suc zero))))))) p h = (2 ^ 8 - 1, omega arith)
ones_above (suc (suc (suc (suc (suc (suc (suc (suc n)))))))) p h = absurd (omega arith)

-- A number with the ones above it set stands for the number less the weight.
to_int64-ones :
    (n u : ℕ)
    → 1 ≤ n
    → n ≤ 7
    → u < weight n
    → weight n ≤ u * 2
    → to_int64 (bit_or u (2 ^ 64 - weight n)) ≡ negsuc (weight n - 1 - u)
to_int64-ones n u p h fits top =
    let (q, e) = ones_above n p h in
    let joined : bit_or u (2 ^ 64 - weight n) ≡ 2 ^ 64 - weight n + u =
      ap (bit_or u) e ∙ bit_or_add (8 * n) q u fits ∙ ap (λ (t : ℕ). t + u) (sym e) in
    rw joined (ground (arith, weight-le n h))

-- The test of the top bit of the last byte asks whether the number is in the upper half.
top_bit-last : (l : ℕ) → IsByte l → (bit_and l 0x80 == 0) ≡ ltb l 128
top_bit-last l h = ground (arith, bit_and_digit 7 l)

last-IsByte : (x : ℕ) (xs : Bytes) → IsBytes (x ∷ xs) → IsByte (last (x ∷ xs))
unfolding last
last-IsByte x [] h = h.0
last-IsByte x (y ∷ ys) h = last-IsByte y ys h.1

extend-test :
    (x : ℕ) (xs : Bytes)
    → IsBytes (x ∷ xs)
    → (bit_and (get_or (x ∷ xs) (length (x ∷ xs) - 1) 0) 0x80 == 0)
      ≡ ltb (le_value (x ∷ xs) * 2) (weight (length (x ∷ xs)))
extend-test x xs h =
    let l = last (x ∷ xs) in
    let index : suc (length xs) - 1 ≡ length xs = omega arith in
    let at_end = ap (λ n. get_or (x ∷ xs) n 0) index ∙ get_or-last x xs in
    let (q, e, lt) = last-value x xs h in
    let lb = last-IsByte x xs h in
    ap (λ (t : ℕ). bit_and t 0x80 == 0) at_end
    ∙ top_bit-last l lb
    ∙ half l q (weight (length xs)) (le_value (x ∷ xs)) (weight (suc (length xs))) e lt
        (weight-suc (length xs))
  where
    half : (l q w u w' : ℕ) → u ≡ l * w + q → q < w → w' ≡ w * 256 → ltb l 128 ≡ ltb (u * 2) w'
    half l q w u w' e lt e' = elim (Bool-cases (ltb l 128)) [
      | inl low ↦
          let small : l ≤ 127 = ground arith in
          let m : l * w ≤ 127 * w = grind arith in rw low (ground arith)
      | inr high ↦
          let large : 128 ≤ l = ground arith in
          let m : 128 * w ≤ l * w = grind arith in rw high (ground arith)
    ]

to_int64-extend :
    (b : Bytes)
    → IsBytes b
    → 1 ≤ length b
    → length b ≤ 8
    → to_int64 (extend b (le_value b)) ≡ signed (length b) (le_value b)
unfolding extend signed
to_int64-extend [] h p k = absurd (omega arith)
to_int64-extend (x ∷ xs) h p k =
    let n = suc (length xs) in
    let u = le_value (x ∷ xs) in
    let below = le_value-lt (x ∷ xs) h in
    elim (Bool-cases (ltb n 8)) [
      | inl narrow ↦ elim (Bool-cases (ltb (u * 2) (weight n))) [
        | inl lower ↦ rw (narrow, extend-test x xs h, lower) (ground (arith, weight-le n))
        | inr upper ↦
            rw (narrow, extend-test x xs h, upper)
              (to_int64-ones n u (omega arith) (ground arith) below (ground arith))
      ]
      | inr full ↦
          let eight : length xs ≡ 7 = ground arith in rw full (ground (arith, ap weight eight))
    ]

-- For one to eight bytes the result is their two's complement value at exactly their width; no
-- bytes and more than eight are refused.
pub decode_signed_int-signed :
    (b : Bytes)
    → IsBytes b
    → decode_signed_int b ≡ (
        if length b == 0 || ltb 8 (length b)
        then err (malformed b)
        else ok (signed (length b) (le_value b)))
unfolding decode_signed_int
decode_signed_int-signed b h = ground (arith, gather-value 0 0 b, to_int64-extend b h)
