-- ===== src/Protocol/Response/Valid.antt =====
-- When `validateResponse` accepts: exactly the frames whose CRC over the whole frame is 0.
use vkt7d.Common.{
  ℕ, Bool-cases, if◌then◌else◌, ◌+◌, ◌-◌, ◌*◌, ◌/◌, ◌≤◌, ◌≡◌, ◌≢◌, ◌↔◌, ◌⊎◌, inl, inr, refl, sym,
  ap, ◌∙◌, [], ◌∷◌, ◌++◌, arith, Bytes, IsByte, IsBytes, All-append, All-append_left,
  All-append_right, length, length-append, length-drop, take, drop, take-append-drop,
  take-length-append, drop-length-append, ==_iff, ◌==◌,
}
use vkt7d.Errors.{crc_mismatch, ok, err}
use vkt7d.Protocol.Crc.{crc16}
use vkt7d.Protocol.Crc.Bounds.{crc16-IsWord}
use vkt7d.Protocol.Crc.Detect.{crc16_one_byte, crc16-trailer_iff}
use vkt7d.Protocol.Frame.{byte, sealed}
use vkt7d.Protocol.Response.{validate_response}

-- A frame of two bytes or more, cut before its trailer.
record Cut (f : Bytes) : Type 0 where
  body : Bytes
  lo : ℕ
  hi : ℕ
  parts : f ≡ body ++ lo ∷ hi ∷ []

two : (xs : Bytes) → length xs ≡ 2 → (lo : ℕ) × (hi : ℕ) × (xs ≡ lo ∷ hi ∷ [])
two [] h = absurd (omega arith)
two (a ∷ []) h = absurd (omega arith)
two (a ∷ b ∷ []) h = (a, b, refl)
two (a ∷ b ∷ c ∷ xs) h = absurd (omega arith)

cut : (f : Bytes) → 2 ≤ length f → Cut f
cut f h =
    let n = length f - 2 in
    let (lo, hi, e) = two (drop n f) (omega (arith, length-drop {0} n f)) in
    record {
      body = take n f;
      lo = lo;
      hi = hi;
      parts = sym (take-append-drop n f) ∙ ap (λ t. take n f ++ t) e;
    }

-- On a frame cut so, the test is the comparison of the trailer with the CRC of the body.
validate_parts :
    (body : Bytes) (lo hi : ℕ)
    → let f = body ++ lo ∷ hi ∷ [] in
      validate_response f (length f)
      ≡ (if lo + hi * 256 == crc16 body then ok tt else err (crc_mismatch f))
unfolding validate_response
validate_parts body lo hi =
    let f = body ++ lo ∷ hi ∷ [] in
    let size : length f ≡ length body + 2 = length-append body (lo ∷ hi ∷ []) in
    let n : length f - 2 ≡ length body = omega arith in
    let front : take (length f - 2) f ≡ body =
      ap (λ n. take n f) n ∙ take-length-append body (lo ∷ hi ∷ []) in
    let back : drop (length f - 2) f ≡ lo ∷ hi ∷ [] =
      ap (λ n. drop n f) n ∙ drop-length-append body (lo ∷ hi ∷ []) in
    rw (front, back) (ground (arith, size))

-- The test in terms of the CRC over the whole frame.
pub validate_response_lem :
    (f : Bytes)
    → IsBytes f
    → 2 ≤ length f
    → ((crc16 f ≡ 0) × (validate_response f (length f) ≡ ok tt))
      ⊎ ((crc16 f ≢ 0) × (validate_response f (length f) ≡ err (crc_mismatch f)))
validate_response_lem f h two_bytes =
    let c = cut f two_bytes in rw c.parts (of_parts c.body c.lo c.hi (rw c.parts at h))
  where
    of_parts :
        (body : Bytes) (lo hi : ℕ)
        → IsBytes (body ++ lo ∷ hi ∷ [])
        → let f = body ++ lo ∷ hi ∷ [] in
          ((crc16 f ≡ 0) × (validate_response f (length f) ≡ ok tt))
          ⊎ ((crc16 f ≢ 0) × (validate_response f (length f) ≡ err (crc_mismatch f)))
    of_parts body lo hi h =
        let tail = All-append_right IsByte body (lo ∷ hi ∷ []) h in
        let iff = crc16-trailer_iff body lo hi (All-append_left IsByte body _ h) tail.0 tail.1.0 in
        elim (Bool-cases (lo + hi * 256 == crc16 body)) [
          | inl e ↦ inl (iff.1 ((==_iff _ _).0 e), rw (validate_parts body lo hi, e))
          | inr e ↦ inr (λ z. cc ((==_iff _ _).1 (iff.0 z)), rw (validate_parts body lo hi, e))
        ]

-- A frame of two bytes or more passes `validateResponse` exactly when the CRC over all of it,
-- trailer included, is 0.
pub validate_response-ok_iff :
    (f : Bytes)
    → IsBytes f
    → 2 ≤ length f
    → (validate_response f (length f) ≡ ok tt) ↔ (crc16 f ≡ 0)
validate_response-ok_iff f h two_bytes = elim (validate_response_lem f h two_bytes) [
  | inl (zero_crc, passes) ↦ (λ _. zero_crc, λ _. passes)
  | inr (bad, refused) ↦ (λ e. cc, λ z. absurd (bad z))
]

-- Whatever `frame` builds, the device's check and `validateResponse` accept, for any payload.
pub sealed-valid :
    (b : Bytes) → IsBytes b → validate_response (sealed b) (length (sealed b)) ≡ ok tt
unfolding sealed
sealed-valid b h =
    let w = crc16-IsWord b h in
    let same : byte (crc16 b) + byte (crc16 b / 256) * 256 ≡ crc16 b = omega arith in
    rw (validate_parts b (byte (crc16 b)) (byte (crc16 b / 256)), (==_iff _ _).1 same)

-- A valid frame in which one byte has changed, any byte, is refused with a CRC error that carries
-- the frame as it was received.
pub validate_response_one_byte :
    (before : Bytes) (x y : ℕ) (after : Bytes)
    → IsBytes (before ++ x ∷ after)
    → IsByte y
    → x ≢ y
    → 2 ≤ length (before ++ x ∷ after)
    → validate_response (before ++ x ∷ after) (length (before ++ x ∷ after)) ≡ ok tt
    → let f = before ++ y ∷ after in validate_response f (length f) ≡ err (crc_mismatch f)
validate_response_one_byte before x y after h hy ne two_bytes valid =
    let hb = All-append_left IsByte before (x ∷ after) h in
    let hx = All-append_right IsByte before (x ∷ after) h in
    let f = before ++ y ∷ after in
    let hf : IsBytes f = All-append IsByte before (y ∷ after) hb (hy, hx.1) in
    let size : 2 ≤ length f =
      omega (arith, length-append before (x ∷ after), length-append before (y ∷ after)) in
    let clean = (validate_response-ok_iff (before ++ x ∷ after) h two_bytes).0 valid in
    elim (validate_response_lem f hf size) [
      | inl (z, _) ↦ absurd (crc16_one_byte before x y after hb hx.0 hy hx.1 ne (clean ∙ sym z))
      | inr (_, refused) ↦ refused
    ]
