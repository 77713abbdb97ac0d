-- ===== src/Protocol/Crc/Detect.antt =====
-- What the CRC is for: a message with its CRC behind it leaves the remainder 0, no other trailer
-- does, and a change of one byte is always seen.
use vkt7d.Common.{
  ℕ, ◌+◌, ◌*◌, ◌^◌, bit_xor, ◌≡◌, ◌≢◌, ◌↔◌, refl, sym, ap, ◌∙◌, [], ◌∷◌, ◌++◌, arith, Bytes, IsByte,
  IsBytes, bit_xor_low, bit_xor_self,
}
use vkt7d.Protocol.Crc.{crc_bits, crc_byte, crc_from, crc16}
use vkt7d.Protocol.Crc.Bounds.{
  IsWord, crc_bits_shift, crc_byte-IsWord, crc16-IsWord, crc_byte-inj, crc_byte-inj_byte,
}

pub crc_from-append : (c : ℕ) (xs ys : Bytes) → crc_from c (xs ++ ys) ≡ crc_from (crc_from c xs) ys
unfolding crc_from
crc_from-append c [] ys = refl
crc_from-append c (x ∷ xs) ys = crc_from-append (crc_byte c x) xs ys

pub crc16-append : (xs ys : Bytes) → crc16 (xs ++ ys) ≡ crc_from (crc16 xs) ys
unfolding crc16
crc16-append xs ys = crc_from-append 0xffff xs ys

-- Over the same bytes, different running CRCs stay different.
pub crc_from-inj :
    (c d : ℕ) (xs : Bytes)
    → IsWord c
    → IsWord d
    → IsBytes xs
    → crc_from c xs ≡ crc_from d xs
    → c ≡ d
unfolding crc_from
crc_from-inj c d [] hc hd h e = e
crc_from-inj c d (x ∷ xs) hc hd h e = crc_byte-inj c d x hc hd h.0 (
    crc_from-inj (crc_byte c x) (crc_byte d x) xs (crc_byte-IsWord c x hc h.0)
      (crc_byte-IsWord d x hd h.0) h.1 e)

-- Two messages that differ in one byte, anywhere, have different CRCs.
pub crc16_one_byte :
    (before : Bytes) (x y : ℕ) (after : Bytes)
    → IsBytes before
    → IsByte x
    → IsByte y
    → IsBytes after
    → x ≢ y
    → crc16 (before ++ x ∷ after) ≢ crc16 (before ++ y ∷ after)
crc16_one_byte before x y after hb hx hy ha ne e =
    let c = crc16 before in
    let hc = crc16-IsWord before hb in
    let same = sym (crc16-append before (x ∷ after)) ∙ e ∙ crc16-append before (y ∷ after) in
    ne (
      crc_byte-inj_byte c x y hc hx hy (
        crc_from-inj (crc_byte c x) (crc_byte c y) after (crc_byte-IsWord c x hc hx)
          (crc_byte-IsWord c y hc hy) ha (unfold crc_from in same)))

crc_from-trailer : (lo hi : ℕ) → IsByte lo → IsByte hi → crc_from (lo + hi * 256) (lo ∷ hi ∷ []) ≡ 0
unfolding crc_from crc_byte
crc_from-trailer lo hi hl hh =
    let swap : lo + hi * 256 ≡ hi * 2 ^ 8 + lo = omega arith in
    let low : bit_xor (lo + hi * 256) lo ≡ hi * 2 ^ 8 =
      ap (λ (t : ℕ). bit_xor t lo) swap ∙ bit_xor_low 8 hi lo hl in
    let first : crc_bits 8 (bit_xor (lo + hi * 256) lo) ≡ hi =
      ap (crc_bits 8) low ∙ crc_bits_shift 8 hi in
    ap (λ (t : ℕ). crc_bits 8 (bit_xor t hi)) first
    ∙ ap (crc_bits 8) (bit_xor_self hi)
    ∙ crc_bits_shift 8 0

-- A message and two more bytes have the CRC 0 exactly when the two bytes are the message's CRC,
-- low byte first.
pub crc16-trailer_iff :
    (body : Bytes) (lo hi : ℕ)
    → IsBytes body
    → IsByte lo
    → IsByte hi
    → (crc16 (body ++ lo ∷ hi ∷ []) ≡ 0) ↔ (lo + hi * 256 ≡ crc16 body)
crc16-trailer_iff body lo hi hb hl hh =
    let c = crc16 body in
    let t = lo + hi * 256 in
    let own = crc_from-trailer lo hi hl hh in
    let word : IsWord t = omega arith in
    (
      λ e. sym (
          crc_from-inj c t (lo ∷ hi ∷ []) (crc16-IsWord body hb) word (hl, (hh, tt))
            (sym (crc16-append body (lo ∷ hi ∷ [])) ∙ e ∙ sym own)),
      λ e. crc16-append body (lo ∷ hi ∷ []) ∙ ap (λ c. crc_from c (lo ∷ hi ∷ [])) (sym e) ∙ own,
    )
