-- ===== src/Errors.antt =====
-- The errors of the packages as one data type, and results that carry them. An error's text is not
-- modelled; what the program inspects of an error (errors.As, errors.Is) is its constructor.
use vkt7d.Common.{ℕ, ◌≡◌, ◌⊎◌, inl, inr, refl, Bytes}

pub data Error : Type 0 where
  -- what a library reported: the serial port, the connection, the database
  port_failed : ℕ → Error
  store_failed : ℕ → Error
  end_of_file : Error
  -- internal/rfc2217: io.ErrShortWrite; a command that is pending already; an acknowledgement that
  -- is not the command's; none in time
  short_write : Error
  already_pending : ℕ → Error
  unexpected_ack : ℕ → Bytes → Error
  ack_timed_out : ℕ → Error
  -- internal/protocol
  frame_too_long : ℕ → Error
  unsupported_function : ℕ → Error
  wrong_length : ℕ → ℕ → Error
  too_short : ℕ → Error
  crc_mismatch : Bytes → Error
  trailing_bytes : ℕ → ℕ → Error
  timed_out : Bytes → Error
  -- `*ExceptionError` with code and function; ErrArchiveDateMissing with the `*ExceptionError` of
  -- code 3 and this function
  exception : ℕ → ℕ → Error
  date_missing : ℕ → Error
  -- a response or a list that a parser refuses
  malformed : Bytes → Error
  payload_too_large : ℕ → Error
  -- a name, a table or a value that is refused
  refused : Error
  -- fmt.Errorf with %w around another error
  wrapped : Error → Error

pub data Result {ℓ} (A : Type ℓ) : Type ℓ where
  ok : A → Result A
  err : Error → Result A

pub Result-cases {ℓ} :
    {A : Type ℓ} (r : Result A) → ((a : A) × (r ≡ ok a)) ⊎ ((e : Error) × (r ≡ err e))
Result-cases (ok a) = inl (a, refl)
Result-cases (err e) = inr (e, refl)

-- A fallible operation on a state.
abbrev pub M : Type 0 → Type 0 → Type 0
M S A = S → Result A × S

infixl 5 ◌>>=◌ ◌>>◌
abbrev pub ◌>>=◌ : {S A B : Type 0} → M S A → (A → M S B) → M S B
◌>>=◌ m f s = let (r, s') = m s in elim r [ ok a ↦ f a s' | err e ↦ (err e, s') ]

abbrev pub ◌>>◌ : {S B : Type 0} → M S (Unit {0}) → M S B → M S B
m >> k = m >>= λ _. k

abbrev pub done : {S A : Type 0} → A → M S A
done a s = (ok a, s)

abbrev pub fail : {S A : Type 0} → Error → M S A
fail e s = (err e, s)

-- The result of an operation as a value, for code that inspects the error.
abbrev pub attempt : {S A : Type 0} → M S A → M S (Result A)
attempt m s = let (r, s') = m s in (ok r, s')

abbrev pub lift : {S A : Type 0} → Result A → M S A
lift r s = (r, s)

-- The error of `m`, wrapped.
abbrev pub wrap : {S A : Type 0} → M S A → M S A
wrap m s = let (r, s') = m s in elim r [ ok a ↦ (ok a, s') | err e ↦ (err (wrapped e), s') ]

-- A result with no error comes from one of the first operation.
pub bind-ok :
    {S A B : Type 0} (r : Result A) (s : S) (k : A → M S B) (b : B)
    → (((λ _. (r, s)) >>= k) s).0 ≡ ok b
    → (a : A) × (r ≡ ok a) × ((k a s).0 ≡ ok b)
bind-ok (ok a) s k b e = (a, refl, e)
bind-ok (err x) s k b e = cc
