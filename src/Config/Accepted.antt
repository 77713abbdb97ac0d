-- ===== src/Config/Accepted.antt =====
-- What `Parse` accepts.
use Prim.Native.String.{String}
use vkt7d.Common.{ℕ, ◌≤◌, ◌≡◌, refl, true, false, Bool-cases, List, inl, inr, arith}
use vkt7d.Common.Int.{ℤ, pos, negsuc}
use vkt7d.Errors.{Result, ok, err}
use vkt7d.Protocol.Frame.{byte}
use vkt7d.Config.{Config, not_positive, out_of_byte, byte_of, accept, checked, parse, louder}

abbrev pub Positive : ℤ → Type 0
Positive z = (n : ℕ) × (1 ≤ n) × (z ≡ pos n)

-- The times and the rate are positive, and the client's address byte is the address.
pub record Accepted (c : Config) : Type 0 where
  pub interval : Positive c.interval
  pub timeout : Positive c.timeout
  pub baud : Positive c.baud
  pub address : c.address ≡ pos (byte_of c.address)

positive : (z : ℤ) → not_positive z ≡ false → Positive z
positive (pos n) h = (n, ground (arith, h), refl)
positive (negsuc n) h = cc

in_byte : (z : ℤ) → out_of_byte z ≡ false → z ≡ pos (byte_of z)
in_byte (pos n) h =
    let small : n ≤ 255 = ground (arith, h) in
    let same : byte n ≡ n = omega (arith, small) in rw same refl
in_byte (negsuc n) h = cc

accept-Accepted : (c : Config) → accept c ≡ ok tt → Accepted c
unfolding accept
accept-Accepted c e = elim (Bool-cases (not_positive c.interval)) [
  | inl bad ↦ absurd (cc (rw bad at e))
  | inr interval ↦ elim (Bool-cases (not_positive c.timeout)) [
    | inl bad ↦ absurd (cc (rw (interval, bad) at e))
    | inr timeout ↦ elim (Bool-cases (not_positive c.baud)) [
      | inl bad ↦ absurd (cc (rw (interval, timeout, bad) at e))
      | inr baud ↦ elim (Bool-cases (out_of_byte c.address)) [
        | inl bad ↦ absurd (cc (rw (interval, timeout, baud, bad) at e))
        | inr address ↦ record {
          interval = positive c.interval interval;
          timeout = positive c.timeout timeout;
          baud = positive c.baud baud;
          address = in_byte c.address address;
        }
      ]
    ]
  ]
]

louder-verbose : (c : Config) → (louder c).debug_serial ≡ true → (louder c).verbose ≡ true
louder-verbose c h = elim (Bool-cases c.debug_serial) [
  | inl debug ↦ rw debug refl
  | inr quiet ↦ absurd (cc (rw quiet at h))
]

module _ (getenv : String → String) (atoi parse_duration : String → Result ℤ)
    (flags : List String → Config → Result (Unit {0}) × Config) where
  checked-Accepted :
      (r : Result (Unit {0}) × Config)
      → (checked getenv atoi parse_duration flags r).0 ≡ ok tt
      → let c = (checked getenv atoi parse_duration flags r).1 in
        Accepted c × (c.debug_serial ≡ true → c.verbose ≡ true)
  checked-Accepted (err e, c) h = cc
  checked-Accepted (ok u, c) h = (accept-Accepted (louder c) h, louder-verbose c)

  -- With whatever environment and arguments: if `Parse` reports no error, the interval, the timeout
  -- and the rate are positive, the byte that the client puts into its frames is the address that was
  -- asked for, and raw frames are logged only together with the verbose log.
  pub parse-Accepted :
      (args : List String)
      → (parse getenv atoi parse_duration flags args).0 ≡ ok tt
      → let c = (parse getenv atoi parse_duration flags args).1 in
        Accepted c × (c.debug_serial ≡ true → c.verbose ≡ true)
  unfolding parse
  parse-Accepted args = checked-Accepted _
