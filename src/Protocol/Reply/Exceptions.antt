-- ===== src/Protocol/Reply/Exceptions.antt =====
-- Exception responses: what `parseException` and `IsExceptionCode` make of them, and what the reads
-- that do not call `parseException` do.
use vkt7d.Common.{
  ℕ, Bool-cases, inl, inr, ◌∙◌, ◌≤◌, ◌<◌, ◌≡◌, refl, ◌==◌, true, false, arith, Bytes, length,
  get_or, bit_and, bit_and_digit,
}
use vkt7d.Errors.{Error, exception, date_missing, ok, err, wrapped}
use vkt7d.Protocol.Frame.{is_exception}
use vkt7d.Protocol.Reply.{parse_exception, is_exception_code, three_bytes}

-- The bit of the function code that signals an exception is the top bit of the byte.
pub is_exception-top : (r : Bytes) → get_or r 1 0 < 256 → 128 ≤ get_or r 1 0 → is_exception r ≡ true
is_exception-top r h top = ground (arith, bit_and_digit 7 (get_or r 1 0))

pub is_exception-low : (r : Bytes) → get_or r 1 0 < 128 → is_exception r ≡ false
is_exception-low r h = ground (arith, bit_and_digit 7 (get_or r 1 0))

-- An error that reaches a caller through any number of `%w`.
abbrev pub layers : ℕ → Error → Error
layers ℕ.zero e = e
layers (ℕ.suc n) e = wrapped (layers n e)

is_exception_code-layers :
    (n : ℕ) (e : Error) (code : ℕ) → is_exception_code (layers n e) code ≡ is_exception_code e code
unfolding is_exception_code
is_exception_code-layers ℕ.zero e code = refl
is_exception_code-layers (ℕ.suc n) e code = is_exception_code-layers n e code

-- A response with the exception bit becomes an error, and `IsExceptionCode` tells of that error,
-- however often it is wrapped on its way, exactly whether the code is the response's third byte.
pub parse_exception-code :
    (r : Bytes) (n code : ℕ)
    → 3 ≤ length r
    → get_or r 1 0 < 256
    → 128 ≤ get_or r 1 0
    → (e : Error) × (parse_exception r ≡ err e)
      × (is_exception_code (layers n e) code ≡ (get_or r 2 0 == code))
unfolding parse_exception
parse_exception-code r n code long h top =
    let bit = is_exception-top r h top in
    elim (Bool-cases (get_or r 2 0 == 3)) [
      | inl three ↦ (
        date_missing (bit_and (get_or r 1 0) 0x7f),
        ground (arith, bit),
        is_exception_code-layers n _ code ∙ unfold is_exception_code in ground arith,
      )
      | inr other ↦ (
        exception (get_or r 2 0) (bit_and (get_or r 1 0) 0x7f),
        ground (arith, bit),
        is_exception_code-layers n _ code ∙ unfold is_exception_code in ground arith,
      )
    ]

-- `ReadScheme` and `ReadActiveDB` do not look for an exception. `dataPart` hands them the whole
-- exception response, and its first three bytes, the address, the function code with the exception
-- bit and the exception code, are returned as if they were the scheme or the archive database.
pub three_bytes-exception :
    (r : Bytes)
    → 5 ≤ length r
    → get_or r 1 0 < 256
    → 128 ≤ get_or r 1 0
    → (three_bytes r ≡ ok (get_or r 0 0, get_or r 1 0, get_or r 2 0))
      × ((e : Error) × (parse_exception r ≡ err e))
unfolding three_bytes
three_bytes-exception r long h top =
    let bit = is_exception-top r h top in
    let (e, refused, _) = parse_exception-code r 0 0 (omega arith) h top in
    (ground (arith, bit), (e, refused))
