-- ===== src/Protocol/Open.antt =====
-- protocol.go: `Open`, for a local device and for an endpoint of the network. go.bug.st/serial is a
-- parameter: its `Open`, and `SetRTS` and `Close` of the port that it gives.
pub mod Closed
use Prim.Native.Char.{code}
use Prim.Native.String.{String}
use vkt7d.Common.{ℕ, ◌+◌, ◌==◌, leb, Bool, true, false, ◌&&◌, if◌then◌else◌, List, Bytes}
use vkt7d.Common.Int.{ℤ}
use vkt7d.Errors.{Result, ok, err, wrapped, M, ◌>>◌}
use vkt7d.Port.Mode.{Mode}
use vkt7d.Port.Session.{meter_mode}

-- strings.ToLower on a letter of ASCII. No other letter becomes one of the prefix.
abbrev pub lowered : ℕ → ℕ
lowered c = if leb 65 c && leb c 90 then c + 32 else c

unfoldable pub has_prefix : String → String → Bool
has_prefix String.[] text = true
has_prefix (String.◌∷◌ p ps) String.[] = false
has_prefix (String.◌∷◌ p ps) (String.◌∷◌ c cs) = (lowered (code c) == code p) && has_prefix ps cs

abbrev pub is_network : String → Bool
is_network port = has_prefix "rfc2217://" port

module _ {S : Type 0} (open_remote : String → ℤ → M S (Unit {0}))
    (serial_open : String → Mode → M S (Unit {0})) (local_rts : Bool → M S (Unit {0}))
    (local_close : S → S) where
  -- The port is closed if RTS cannot be set.
  abbrev pub asserted : Result (Unit {0}) × S → Result (Unit {0}) × S
  asserted (ok u, s) = (ok u, s)
  asserted (err e, s) = (err (wrapped e), local_close s)

  abbrev pub open_local : String → ℤ → M S (Unit {0})
  open_local port baud = serial_open port (meter_mode baud) >> (λ s. asserted (local_rts true s))

  unfoldable pub open_serial : String → ℤ → M S (Unit {0})
  open_serial port baud = if is_network port then open_remote port baud else open_local port baud
