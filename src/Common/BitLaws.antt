-- ===== src/Common/BitLaws.antt =====
-- Bit operations on machine words, for every width: the equation for the lowest digit, and what
-- follows from it by induction on a bound.
use Prim.Native.Nat.{ℕ, zero, suc, ◌+◌, ◌-◌, ◌*◌, ◌/◌, ◌%◌, ◌^◌, ◌≤◌, ◌<◌, min, max}
use Prim.Native.Nat.{bit_and, bit_or, bit_xor, digits, differ, bitwise}
use Prim.Native.Nat.{bit_and-bitwise, bit_or-bitwise, bit_xor-bitwise}
use mathlib.Core.Path.{◌≡◌, refl, sym, ap, ◌∙◌}
use native.Mathlib.Nat.{pow-suc, one-le-pow, div-div-eq-div-mul}
use native.Mathlib.Omega.{arith}

-- `digits` recurs on fuel; any fuel that is at least the first word gives the same digits.
module _ (rest : ℕ → ℕ) (op : ℕ → ℕ → ℕ) where
  digits_extra : (n a b : ℕ) → a ≤ n → digits rest op (suc n) a b ≡ digits rest op n a b
  digits_extra zero zero b h = refl
  digits_extra zero (suc a) b h = absurd (omega arith)
  digits_extra (suc n) zero b h = refl
  digits_extra (suc n) (suc a) b h =
      ap (λ (t : ℕ). t * 2 + op (suc a % 2) (b % 2))
        (digits_extra n (suc a / 2) (b / 2) (omega arith))

  digits_more :
      (extra n a b m : ℕ) → a ≤ n → m ≡ extra + n → digits rest op m a b ≡ digits rest op n a b
  digits_more zero n a b m h e = let same : m ≡ n = omega arith in rw same
  digits_more (suc extra) n a b zero h e = absurd (omega arith)
  digits_more (suc extra) n a b (suc m) h e =
      digits_extra m a b (omega arith) ∙ digits_more extra n a b m h (omega arith)

  low_digit :
      (a b : ℕ)
      → bitwise rest op (suc a) b ≡ bitwise rest op (suc a / 2) (b / 2) * 2 + op (suc a % 2) (b % 2)
  low_digit a b =
      let half = suc a / 2 in
      ap (λ (t : ℕ). t * 2 + op (suc a % 2) (b % 2))
        (digits_more (a - half) half half (b / 2) a (omega arith) (omega arith))

-- Each operation, digit by digit from the lowest.
pub bit_or_step : (x y : ℕ) → bit_or x y ≡ 2 * bit_or (x / 2) (y / 2) + max (x % 2) (y % 2)
bit_or_step zero y = simp bit_or-bitwise (omega arith)
bit_or_step (suc x) y = simp bit_or-bitwise (omega (arith, low_digit (λ d. d) max x y))

pub bit_and_step : (x y : ℕ) → bit_and x y ≡ 2 * bit_and (x / 2) (y / 2) + min (x % 2) (y % 2)
bit_and_step zero y = simp bit_and-bitwise (omega arith)
bit_and_step (suc x) y = simp bit_and-bitwise (omega (arith, low_digit (λ d. 0) min x y))

digit_sum : (d e : ℕ) → d < 2 → e < 2 → differ d e ≡ (d + e) % 2
digit_sum zero zero h k = refl
digit_sum zero (suc zero) h k = refl
digit_sum (suc zero) zero h k = refl
digit_sum (suc zero) (suc zero) h k = refl
digit_sum (suc (suc d)) e h k = absurd (omega arith)
digit_sum zero (suc (suc e)) h k = absurd (omega arith)
digit_sum (suc zero) (suc (suc e)) h k = absurd (omega arith)

xor_digit : (x y : ℕ) → bit_xor x y ≡ 2 * bit_xor (x / 2) (y / 2) + differ (x % 2) (y % 2)
xor_digit zero y = simp bit_xor-bitwise (omega arith)
xor_digit (suc x) y = simp bit_xor-bitwise (omega (arith, low_digit (λ d. d) differ x y))

pub bit_xor_step : (a b : ℕ) → bit_xor a b ≡ bit_xor (a / 2) (b / 2) * 2 + (a + b) % 2
bit_xor_step a b =
    omega (arith, xor_digit a b, digit_sum (a % 2) (b % 2) (omega arith) (omega arith))

xor_cancel_fuel : (n a b : ℕ) → a ≤ n → b ≤ n → bit_xor (bit_xor a b) b ≡ a
xor_cancel_fuel zero zero zero h k = refl
xor_cancel_fuel zero (suc a) b h k = absurd (omega arith)
xor_cancel_fuel zero zero (suc b) h k = absurd (omega arith)
xor_cancel_fuel (suc n) a b h k =
    let e : bit_xor a b / 2 ≡ bit_xor (a / 2) (b / 2) = omega (arith, bit_xor_step a b) in
    let back = xor_cancel_fuel n (a / 2) (b / 2) (omega arith) (omega arith) in
    omega (
      arith,
      bit_xor_step (bit_xor a b) b,
      bit_xor_step a b,
      ap (λ (t : ℕ). bit_xor t (b / 2)) e,
      back,
    )

-- Exclusive or with the same word twice gives the first word back.
pub bit_xor_cancel : (a b : ℕ) → bit_xor (bit_xor a b) b ≡ a
bit_xor_cancel a b = xor_cancel_fuel (a + b) a b (omega arith) (omega arith)

pub bit_xor_inj : (a a' b : ℕ) → bit_xor a b ≡ bit_xor a' b → a ≡ a'
bit_xor_inj a a' b e =
    omega (arith, bit_xor_cancel a b, bit_xor_cancel a' b, ap (λ (t : ℕ). bit_xor t b) e)

xor_comm_fuel : (n a b : ℕ) → a ≤ n → b ≤ n → bit_xor a b ≡ bit_xor b a
xor_comm_fuel zero zero zero h k = refl
xor_comm_fuel zero (suc a) b h k = absurd (omega arith)
xor_comm_fuel zero zero (suc b) h k = absurd (omega arith)
xor_comm_fuel (suc n) a b h k = omega (
  arith,
  bit_xor_step a b,
  bit_xor_step b a,
  xor_comm_fuel n (a / 2) (b / 2) (omega arith) (omega arith),
)

pub bit_xor_comm : (a b : ℕ) → bit_xor a b ≡ bit_xor b a
bit_xor_comm a b = xor_comm_fuel (a + b) a b (omega arith) (omega arith)

-- A word of `k` digits stays one.
pub bit_xor-lt : (k a b : ℕ) → a < 2 ^ k → b < 2 ^ k → bit_xor a b < 2 ^ k
bit_xor-lt zero zero zero h k = omega arith
bit_xor-lt zero (suc a) b h k = absurd (omega arith)
bit_xor-lt zero zero (suc b) h k = absurd (omega arith)
bit_xor-lt (suc n) a b h k = omega (
  arith,
  pow-suc 2 n,
  bit_xor_step a b,
  bit_xor-lt n (a / 2) (b / 2) (omega (arith, pow-suc 2 n)) (omega (arith, pow-suc 2 n)),
)

bit_or-zero_fuel : (n a : ℕ) → a ≤ n → bit_or a 0 ≡ a
bit_or-zero_fuel zero zero h = refl
bit_or-zero_fuel zero (suc a) h = absurd (omega arith)
bit_or-zero_fuel (suc n) a h =
    omega (arith, bit_or_step a 0, bit_or-zero_fuel n (a / 2) (omega arith))

pub bit_or-zero : (a : ℕ) → bit_or a 0 ≡ a
bit_or-zero a = bit_or-zero_fuel a a (omega arith)

bit_and-zero_fuel : (n a : ℕ) → a ≤ n → bit_and a 0 ≡ 0
bit_and-zero_fuel zero zero h = refl
bit_and-zero_fuel zero (suc a) h = absurd (omega arith)
bit_and-zero_fuel (suc n) a h =
    omega (arith, bit_and_step a 0, bit_and-zero_fuel n (a / 2) (omega arith))

pub bit_and-zero : (a : ℕ) → bit_and a 0 ≡ 0
bit_and-zero a = bit_and-zero_fuel a a (omega arith)

bit_xor-zero_fuel : (n a : ℕ) → a ≤ n → bit_xor a 0 ≡ a
bit_xor-zero_fuel zero zero h = refl
bit_xor-zero_fuel zero (suc a) h = absurd (omega arith)
bit_xor-zero_fuel (suc n) a h =
    omega (arith, bit_xor_step a 0, bit_xor-zero_fuel n (a / 2) (omega arith))

pub bit_xor-zero : (a : ℕ) → bit_xor a 0 ≡ a
bit_xor-zero a = bit_xor-zero_fuel a a (omega arith)

pub bit_xor_self : (a : ℕ) → bit_xor a a ≡ 0
bit_xor_self a =
    ap (λ (t : ℕ). bit_xor t a) (sym (bit_xor-zero a) ∙ bit_xor_comm a 0) ∙ bit_xor_cancel 0 a

pub mul-pow-suc : (q k : ℕ) → q * 2 ^ suc k ≡ 2 * (q * 2 ^ k)
mul-pow-suc q k = omega (arith, ap (λ (t : ℕ). q * t) (pow-suc 2 k))

-- Exclusive or with the low `k` digits of a word clears them.
pub bit_xor_low : (k q r : ℕ) → r < 2 ^ k → bit_xor (q * 2 ^ k + r) r ≡ q * 2 ^ k
bit_xor_low zero q r h = ground (arith, bit_xor-zero q)
bit_xor_low (suc k) q r h = ground (
  arith,
  mul-pow-suc q k,
  pow-suc 2 k,
  bit_xor_step (q * 2 ^ suc k + r) r,
  bit_xor_low k q (r / 2),
)

zero-bit_or : (b : ℕ) → bit_or 0 b ≡ b
zero-bit_or b = bit_or-bitwise 0 b

-- A disjunction of fields that do not overlap is a sum.
pub bit_or_add : (k q r : ℕ) → r < 2 ^ k → bit_or r (q * 2 ^ k) ≡ q * 2 ^ k + r
bit_or_add zero q zero h = omega (arith, zero-bit_or (q * 1))
bit_or_add zero q (suc r) h = absurd (omega arith)
bit_or_add (suc k) q r h =
    ground
      (arith, mul-pow-suc q k, pow-suc 2 k, bit_or_step r (q * 2 ^ suc k), bit_or_add k q (r / 2))

low_field : (k q r : ℕ) → r < 2 ^ k → bit_and (q * 2 ^ k + r) (2 ^ k - 1) ≡ r
low_field zero q r h = omega (arith, bit_and-zero (q * 1 + r))
low_field (suc k) q r h = ground (
  arith,
  mul-pow-suc q k,
  pow-suc 2 k,
  one-le-pow k 2,
  bit_and_step (q * 2 ^ suc k + r) (2 ^ suc k - 1),
  low_field k q (r / 2),
)

-- A mask of `k` ones is the remainder.
pub bit_and_low : (k a : ℕ) → bit_and a (2 ^ k - 1) ≡ a % 2 ^ k
bit_and_low k a = ground (arith, one-le-pow k 2, low_field k (a / 2 ^ k) (a % 2 ^ k))

-- One digit, tested by a mask.
pub bit_and_digit : (k a : ℕ) → bit_and a (2 ^ k) ≡ a / 2 ^ k % 2 * 2 ^ k
bit_and_digit zero a = omega (arith, bit_and_step a 1, bit_and-zero (a / 2))
bit_and_digit (suc k) a = ground (
  arith,
  pow-suc 2 k,
  mul-pow-suc (a / 2 ^ suc k % 2) k,
  div-div-eq-div-mul a 2 (2 ^ k),
  bit_and_step a (2 ^ suc k),
  bit_and_digit k (a / 2),
)
