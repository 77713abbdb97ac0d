-- ===== src/Protocol/Crc/Bounds.antt =====
-- The running CRC is a uint16, and each round of `CRC16` loses nothing: it is injective.
use vkt7d.Common.{
  ℕ, zero, suc, ◌*◌, ◌/◌, ◌%◌, ◌^◌, ◌<◌, ◌≤◌, bit_xor, ◌≡◌, ap, ◌∙◌, ◌⊎◌, inl, inr, [], ◌∷◌, arith,
  Bytes, IsByte, IsBytes, bit_and_digit, bit_xor-lt, bit_xor_inj, bit_xor_comm, bit_xor_cancel,
  mul-pow-suc,
}
use vkt7d.Protocol.Crc.{crc_bit, crc_bits, crc_byte, crc_from, crc16}

abbrev pub IsWord : ℕ → Type 0
IsWord c = c < 2 ^ 16

crc_bit-even : (c : ℕ) → c % 2 ≡ 0 → crc_bit c ≡ c / 2
unfolding crc_bit
crc_bit-even c e = ground (arith, bit_and_digit 0 c)

crc_bit-odd : (c : ℕ) → c % 2 ≡ 1 → crc_bit c ≡ bit_xor (c / 2) 0xa001
unfolding crc_bit
crc_bit-odd c e = ground (arith, bit_and_digit 0 c)

parity : (c : ℕ) → (c % 2 ≡ 0) ⊎ (c % 2 ≡ 1)
parity c = omega arith

crc_bit-IsWord : (c : ℕ) → IsWord c → IsWord (crc_bit c)
crc_bit-IsWord c h = elim (parity c) [
  | inl e ↦ omega (arith, crc_bit-even c e)
  | inr e ↦ omega (arith, crc_bit-odd c e, bit_xor-lt 16 (c / 2) 0xa001 (omega arith) (omega arith))
]

-- The bit that an odd word shifts out comes back as the top bit, since 0xa001 has it set.
top_bit : (a : ℕ) → a < 2 ^ 15 → 2 ^ 15 ≤ bit_xor a 0xa001
top_bit a h =
    let back : bit_xor (bit_xor a 0xa001) a ≡ 0xa001 =
      ap (λ (t : ℕ). bit_xor t a) (bit_xor_comm a 0xa001) ∙ bit_xor_cancel 0xa001 a in
    ground (arith, bit_xor-lt 15 (bit_xor a 0xa001) a)

crc_bit-inj : (c d : ℕ) → IsWord c → IsWord d → crc_bit c ≡ crc_bit d → c ≡ d
crc_bit-inj c d hc hd e = ground (
  arith,
  parity c,
  parity d,
  crc_bit-even c,
  crc_bit-even d,
  crc_bit-odd c,
  crc_bit-odd d,
  top_bit (c / 2),
  top_bit (d / 2),
  bit_xor_inj (c / 2) (d / 2) 0xa001,
)

crc_bits-IsWord : (n c : ℕ) → IsWord c → IsWord (crc_bits n c)
unfolding crc_bits
crc_bits-IsWord zero c h = h
crc_bits-IsWord (suc n) c h = crc_bits-IsWord n (crc_bit c) (crc_bit-IsWord c h)

crc_bits-inj : (n c d : ℕ) → IsWord c → IsWord d → crc_bits n c ≡ crc_bits n d → c ≡ d
unfolding crc_bits
crc_bits-inj zero c d hc hd e = e
crc_bits-inj (suc n) c d hc hd e =
    crc_bit-inj c d hc hd
      (crc_bits-inj n (crc_bit c) (crc_bit d) (crc_bit-IsWord c hc) (crc_bit-IsWord d hd) e)

-- Zero digits are shifted out and leave no trace.
pub crc_bits_shift : (n q : ℕ) → crc_bits n (q * 2 ^ n) ≡ q
unfolding crc_bits
crc_bits_shift zero q = omega arith
crc_bits_shift (suc n) q =
    let even : (q * 2 ^ suc n) % 2 ≡ 0 = omega (arith, mul-pow-suc q n) in
    let half : q * 2 ^ suc n / 2 ≡ q * 2 ^ n = omega (arith, mul-pow-suc q n) in
    ap (crc_bits n) (crc_bit-even (q * 2 ^ suc n) even ∙ half) ∙ crc_bits_shift n q

xor_byte-IsWord : (c x : ℕ) → IsWord c → IsByte x → IsWord (bit_xor c x)
xor_byte-IsWord c x hc hx = bit_xor-lt 16 c x hc (omega arith)

pub crc_byte-IsWord : (c x : ℕ) → IsWord c → IsByte x → IsWord (crc_byte c x)
unfolding crc_byte
crc_byte-IsWord c x hc hx = crc_bits-IsWord 8 (bit_xor c x) (xor_byte-IsWord c x hc hx)

pub crc_from-IsWord : (c : ℕ) (bs : Bytes) → IsWord c → IsBytes bs → IsWord (crc_from c bs)
unfolding crc_from
crc_from-IsWord c [] hc h = hc
crc_from-IsWord c (x ∷ xs) hc h = crc_from-IsWord (crc_byte c x) xs (crc_byte-IsWord c x hc h.0) h.1

-- The CRC of bytes fits the two bytes of the trailer.
pub crc16-IsWord : (bs : Bytes) → IsBytes bs → IsWord (crc16 bs)
unfolding crc16
crc16-IsWord bs h = crc_from-IsWord 0xffff bs (omega arith) h

-- For one byte the round is injective in the CRC, and for one CRC in the byte.
pub crc_byte-inj :
    (c d x : ℕ) → IsWord c → IsWord d → IsByte x → crc_byte c x ≡ crc_byte d x → c ≡ d
unfolding crc_byte
crc_byte-inj c d x hc hd hx e =
    bit_xor_inj c d x (crc_bits-inj 8 _ _ (xor_byte-IsWord c x hc hx) (xor_byte-IsWord d x hd hx) e)

pub crc_byte-inj_byte :
    (c x y : ℕ) → IsWord c → IsByte x → IsByte y → crc_byte c x ≡ crc_byte c y → x ≡ y
unfolding crc_byte
crc_byte-inj_byte c x y hc hx hy e =
    let same = crc_bits-inj 8 _ _ (xor_byte-IsWord c x hc hx) (xor_byte-IsWord c y hc hy) e in
    bit_xor_inj x y c (bit_xor_comm x c ∙ same ∙ bit_xor_comm c y)
