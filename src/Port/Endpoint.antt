-- ===== src/Port/Endpoint.antt =====
-- rfc2217.go: `Open` on its address, up to the made connection and then with Port/Session. What
-- url.Parse gives is a parameter, and so is the dialling; net.SplitHostPort and net.JoinHostPort
-- are written out.
pub mod Address
use Prim.Native.String.{String}
use vkt7d.Common.{
  ℕ, zero, suc, ◌+◌, ◌==◌, Bool, true, false, not, ◌||◌, if◌then◌else◌, Option, none, some, List,
  [], ◌∷◌, ◌++◌, Bytes, length, take, drop,
}
use vkt7d.Common.Int.{ℤ}
use vkt7d.Errors.{Result, ok, err, refused, wrapped, M, ◌>>◌, wrap, fail}
use vkt7d.Port.Session.{open_port}

abbrev pub colon : ℕ
colon = 58

abbrev pub left_bracket : ℕ
left_bracket = 91

abbrev pub right_bracket : ℕ
right_bracket = 93

unfoldable pub has : ℕ → Bytes → Bool
has b [] = false
has b (x ∷ xs) = (x == b) || has b xs

abbrev pub later : Option ℕ → Option ℕ
later none = none
later (some i) = some (suc i)

-- strings.IndexByte and strings.LastIndexByte
unfoldable pub index_of : ℕ → Bytes → Option ℕ
index_of b [] = none
index_of b (x ∷ xs) = let rest = index_of b xs in if x == b then some 0 else later rest

abbrev pub or_here : Bool → Option ℕ → Option ℕ
or_here here (some i) = some (suc i)
or_here true none = some 0
or_here false none = none

unfoldable pub last_index : ℕ → Bytes → Option ℕ
last_index b [] = none
last_index b (x ∷ xs) = or_here (x == b) (last_index b xs)

-- The tests for stray brackets from `j` and from `k` on; the port starts behind the colon at `i`.
abbrev pub split_at : Bytes → Bytes → ℕ → ℕ → ℕ → Option (Bytes × Bytes)
split_at text host i j k =
    if has left_bracket (drop j text)
    then none
    else if has right_bracket (drop k text)
    then none
    else some (host, drop (i + 1) text)

abbrev pub split_bracketed : Bytes → ℕ → Option ℕ → Option (Bytes × Bytes)
split_bracketed text i none = none
split_bracketed text i (some end) =
    if end + 1 == length text
    then none
    else if end + 1 == i
    then split_at text (drop 1 (take end text)) i 1 (end + 1)
    else none

abbrev pub split_plain : Bytes → ℕ → Option (Bytes × Bytes)
split_plain text i = if has colon (take i text) then none else split_at text (take i text) i 0 0

abbrev pub opens_bracket : Bytes → Bool
opens_bracket [] = false
opens_bracket (x ∷ xs) = x == left_bracket

abbrev pub split_from : Bytes → Option ℕ → Option (Bytes × Bytes)
split_from text none = none
split_from text (some i) =
    if opens_bracket text
    then split_bracketed text i (index_of right_bracket text)
    else split_plain text i

-- net.SplitHostPort: the host and the port, or an error
unfoldable pub split_host_port : Bytes → Option (Bytes × Bytes)
split_host_port text = split_from text (last_index colon text)

-- net.JoinHostPort
unfoldable pub join_host_port : Bytes → Bytes → Bytes
join_host_port host port =
    if has colon host
    then left_bracket ∷ (host ++ right_bracket ∷ colon ∷ port)
    else host ++ colon ∷ port

-- "2217"
abbrev pub default_port : Bytes
default_port = 50 ∷ 50 ∷ 49 ∷ 55 ∷ []

abbrev pub or_default : Bytes → Option (Bytes × Bytes) → Bytes
or_default host (some parts) = host
or_default host none = join_host_port host default_port

-- What is dialled for the host of the address.
unfoldable pub endpoint : Bytes → Bytes
endpoint host = or_default host (split_host_port host)

-- What `Open` uses of a URL: whether its scheme is rfc2217, whether it names a user, and the host.
pub record Url : Type 0 where
  pub is_rfc2217 : Bool
  pub has_user : Bool
  pub host : Bytes

abbrev pub is_empty : Bytes → Bool
is_empty [] = true
is_empty (x ∷ xs) = false

unfoldable pub host_of : Result Url → Result Bytes
host_of (err e) = err (wrapped e)
host_of (ok u) =
    if not u.is_rfc2217
    then err refused
    else if u.has_user
    then err refused
    else if is_empty u.host
    then err refused
    else ok u.host

module _ {S : Type 0} (command : ℕ → Bytes → M S (Unit {0})) (negotiate : M S (Unit {0}))
    (is_closed : S → Bool) (shut : S → S) (put_timeout : ℤ → S → S)
    (url_parse : String → Result Url) (dial : Bytes → M S (Unit {0})) where
  abbrev pub open_host : ℤ → Result Bytes → M S (Unit {0})
  open_host baud (err e) = fail e
  open_host baud (ok host) =
      wrap (dial (endpoint host)) >> open_port command negotiate is_closed shut put_timeout baud

  unfoldable pub open_remote : String → ℤ → M S (Unit {0})
  open_remote address baud = open_host baud (host_of (url_parse address))
