-- ===== src/Protocol/Response.antt =====
-- protocol.go: `responseLength`, `validateResponse`, and the body of the loop in `readResponse`.
pub mod Valid
pub mod Progress
use vkt7d.Common.{
  ℕ, ◌+◌, ◌-◌, ◌==◌, ltb, leb, Bool, true, false, not, if◌then◌else◌, Option, none, some, List, [],
  ◌∷◌, Bytes, length, get_or, take, drop,
}
use vkt7d.Errors.{
  Error, frame_too_long, unsupported_function, wrong_length, too_short, crc_mismatch,
  trailing_bytes, Result, ok, err,
}
use vkt7d.Protocol.{
  function_read, function_write, max_frame_size, exception_frame_size, write_response_size,
}
use vkt7d.Protocol.Crc.{crc16}
use vkt7d.Protocol.Frame.{is_exception, le16_at}

-- `case functionRead`, on the length that the byte count asks for.
abbrev read_length : ℕ → Result (Option ℕ)
read_length n = if ltb max_frame_size n then err (frame_too_long n) else ok (some n)

-- The source returns a length and a flag; `none` is the flag `false`, and the length then is 0.
unfoldable pub response_length : ℕ → Bytes → Result (Option ℕ)
response_length request_function response =
    if ltb (length response) 2
    then ok none
    else if is_exception response
    then if leb exception_frame_size (length response)
      then ok (some exception_frame_size)
      else ok none
    else if request_function == function_read
    then if ltb (length response) 3 then ok none else read_length (get_or response 2 0 + 5)
    else if request_function == function_write
    then ok (some write_response_size)
    else err (unsupported_function request_function)

unfoldable pub validate_response : Bytes → ℕ → Result (Unit {0})
validate_response frame expected =
    if not (length frame == expected)
    then err (wrong_length (length frame) expected)
    else if ltb (length frame) 2
    then err (too_short (length frame))
    else let got = le16_at (drop (length frame - 2) frame) 0 in
      let want = crc16 (take (length frame - 2) frame) in
      if not (got == want) then err (crc_mismatch frame) else ok tt

-- One turn of the loop: `continue`, or return.
pub data Verdict : Type 0 where
  more : Verdict
  stop : Result Bytes → Verdict

unfoldable pub checked : Bytes → Result (Unit {0}) → Result Bytes
checked out (ok _) = ok out
checked out (err e) = err e

unfoldable pub measured : Bytes → Result (Option ℕ) → Verdict
measured out (err e) = stop (err e)
measured out (ok none) = more
measured out (ok (some expected)) =
    if ltb (length out) expected
    then more
    else if ltb expected (length out)
    then stop (err (trailing_bytes (length out) expected))
    else stop (checked out (validate_response out expected))

-- What the loop does after a read has been appended to `out`.
unfoldable pub examine : ℕ → Bytes → Verdict
unfolding measured response_length
examine request_function out =
    if ltb max_frame_size (length out)
    then stop (err (frame_too_long (length out)))
    else measured out (response_length request_function out)
