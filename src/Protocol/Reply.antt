-- ===== src/Protocol/Reply.antt =====
-- protocol.go: what is taken out of a response: `dataPart`, `parseException`, `IsExceptionCode`,
-- `ParseService` and the small records of `ReadScheme`, `ReadActiveDB` and `ReadSubscriberID`.
pub mod Exceptions
pub mod Data
use vkt7d.Common.{
  ℕ, ◌+◌, ◌-◌, ◌==◌, ltb, leb, Bool, true, false, ◌&&◌, ◌||◌, if◌then◌else◌, Option, none, some,
  List, [], ◌∷◌, Bytes, length, get_or, take, drop, bit_and,
}
use vkt7d.Errors.{Error, exception, date_missing, malformed, wrapped, Result, ok, err, ◌>>=◌}
use vkt7d.Protocol.Frame.{is_exception, le16_at}

-- The source returns nil where this is `[]`; the callers look at the length only.
unfoldable pub data_part : Bytes → Bytes
data_part r =
    if ltb (length r) 5
    then []
    else if is_exception r
    then r
    else let n = get_or r 2 0 in (if leb (n + 5) (length r) then take n (drop 3 r) else [])

unfoldable pub parse_exception : Bytes → Result (Unit {0})
parse_exception r =
    if leb 3 (length r) && is_exception r
    then if get_or r 2 0 == 3
      then err (date_missing (bit_and (get_or r 1 0) 0x7f))
      else err (exception (get_or r 2 0) (bit_and (get_or r 1 0) 0x7f))
    else ok tt

-- `errors.Is(err, ErrArchiveDateMissing)`
unfoldable pub is_archive_date_missing : Error → Bool
is_archive_date_missing (date_missing f) = true
is_archive_date_missing (wrapped e) = is_archive_date_missing e
is_archive_date_missing _ = false

-- `errors.As(err, &ex)` and then `ex.Code`.
unfoldable pub exception_code : Error → Option ℕ
exception_code (exception c f) = some c
exception_code (date_missing f) = some 3
exception_code (wrapped e) = exception_code e
exception_code _ = none

abbrev has_code : Option ℕ → ℕ → Bool
has_code none code = false
has_code (some c) code = c == code

unfoldable pub is_exception_code : Error → ℕ → Bool
unfolding is_archive_date_missing exception_code
is_exception_code e code =
    if code == 3 && is_archive_date_missing e then true else has_code (exception_code e) code

pub record ServiceInfo : Type 0 where
  pub firmware : ℕ
  pub scheme_tv1 : ℕ
  pub scheme_tv2 : ℕ
  pub subscriber : Bytes
  pub address : ℕ
  pub report_day : ℕ
  pub model : ℕ

-- `strings.TrimRight(s, "\x00 ")` on the bytes of the text.
unfoldable pub trim_right : Bytes → Bytes
trim_right [] = []
trim_right (x ∷ xs) = elim (trim_right xs) [
  | [] ↦ if x == 0 || x == b' ' then [] else x ∷ []
  | y ∷ ys ↦ x ∷ y ∷ ys
]

unfoldable pub parse_service : Bytes → Result ServiceInfo
unfolding trim_right
parse_service d =
    if ltb (length d) 16
    then err (malformed d)
    else ok (record {
      firmware = get_or d 0 0;
      scheme_tv1 = le16_at d 1;
      scheme_tv2 = le16_at d 3;
      subscriber = trim_right (take 8 (drop 5 d));
      address = get_or d 13 0;
      report_day = get_or d 14 0;
      model = get_or d 15 0;
    })

-- The second half of `ReadScheme` and of `ReadActiveDB`: three bytes of the data.
unfoldable pub three_bytes : Bytes → Result (ℕ × ℕ × ℕ)
unfolding data_part
three_bytes r =
    let d = data_part r in
    if ltb (length d) 3 then err (malformed d) else ok (get_or d 0 0, get_or d 1 0, get_or d 2 0)

-- The second half of `ReadSubscriberID`.
unfoldable pub subscriber_of : Bytes → Result (Bytes × ℕ × ℕ)
unfolding data_part
subscriber_of r =
    let d = data_part r in
    let n = le16_at d 0 in
    if ltb (length d) 4
    then err (malformed d)
    else if ltb (length d) (2 + n + 2)
    then err (malformed d)
    else ok (take n (drop 2 d), get_or d (2 + n) 0, get_or d (2 + n + 1) 0)
