-- ===== src/Protocol/Reply/Data.antt =====
-- A meter's answer to a read: address, function, byte count, data and CRC.
use vkt7d.Common.{
  ℕ, ◌+◌, ◌/◌, ◌≤◌, ◌≡◌, refl, ap, ◌∙◌, false, [], ◌∷◌, ◌++◌, arith, Bytes, IsByte, IsBytes, length,
  length-append, get_or, take, drop, take-append,
}
use vkt7d.Errors.{ok}
use vkt7d.Protocol.{function_read}
use vkt7d.Protocol.Crc.{crc16}
use vkt7d.Protocol.Frame.{byte, sealed, is_exception}
use vkt7d.Protocol.Response.{response_length}
use vkt7d.Protocol.Response.Valid.{sealed-valid}
use vkt7d.Protocol.Response.Progress.{IsResponse}
use vkt7d.Protocol.Reply.{data_part, parse_exception}
use vkt7d.Protocol.Reply.Exceptions.{is_exception-low}

abbrev pub read_answer : ℕ → Bytes → Bytes
read_answer address d = sealed (address ∷ function_read ∷ length d ∷ d)

answer-size : (address : ℕ) (d : Bytes) → length (read_answer address d) ≡ length d + 5
unfolding sealed
answer-size address d = omega (
  arith,
  length-append (address ∷ function_read ∷ length d ∷ d) (
      byte (crc16 (address ∷ function_read ∷ length d ∷ d))
      ∷ byte (crc16 (address ∷ function_read ∷ length d ∷ d) / 256)
      ∷ []),
)

-- Whatever data of up to 255 bytes the meter frames as an answer to a read, the frame is a complete
-- and valid response, it is no exception, and `dataPart` gives exactly the data.
pub read_answer-data :
    (address : ℕ) (d : Bytes)
    → IsByte address
    → IsBytes d
    → length d ≤ 255
    → IsResponse function_read (read_answer address d)
      × (parse_exception (read_answer address d) ≡ ok tt)
      × (data_part (read_answer address d) ≡ d)
unfolding response_length parse_exception data_part
read_answer-data address d ha hd size =
    let f = read_answer address d in
    let n = answer-size address d in
    let low : is_exception f ≡ false = is_exception-low f (unfold sealed in omega arith) in
    let count : get_or f 2 0 ≡ length d = unfold sealed in refl in
    let c = crc16 (address ∷ function_read ∷ length d ∷ d) in
    let tail : drop 3 f ≡ d ++ byte c ∷ byte (c / 256) ∷ [] = unfold sealed in refl in
    let cut : take (get_or f 2 0) (drop 3 f) ≡ d =
      ap (take (get_or f 2 0)) tail ∙ take-append d _ (get_or f 2 0) count in
    (
      record {
        announced = ground (arith, n, low, count);
        fits = omega (arith, n);
        valid =
            sealed-valid (address ∷ function_read ∷ length d ∷ d)
              (ha, (omega arith, (omega arith, hd)));
      },
      ground (arith, low),
      ground (arith, low, n, count, cut),
    )
