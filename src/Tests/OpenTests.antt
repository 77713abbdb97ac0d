-- ===== src/Tests/OpenTests.antt =====
-- Opening a port by its name.
use Prim.Native.String.{String}
use vkt7d.Common.{◌≡◌, refl, ap, true, false, Bool, none, some, [], ◌∷◌, Bytes}
use vkt7d.Common.Int.{pos}
use vkt7d.Errors.{ok, err, ack_timed_out, port_failed, wrapped, Result, M}
use vkt7d.Port.{set_parity}
use vkt7d.Port.Mode.{Mode, set_mode}
use vkt7d.Port.Session.{open_port, close}
use vkt7d.Port.Endpoint.{
  Url, has, split_host_port, join_host_port, default_port, endpoint, host_of, open_remote, index_of,
  last_index,
}
use vkt7d.Port.Endpoint.Address.{bracketed, endpoint-without_port}
use vkt7d.Protocol.Open.{has_prefix, open_serial}
use vkt7d.Protocol.Open.Closed.{Shutting, close_serial, open_serial-Closes}
use vkt7d.Collector.Run.Idle.{Closes}
use vkt7d.Tests.PortTests.{no_parity_set, negotiated, is_closed, shut, same_timeout}

-- "vkt" and "::1"
abbrev name : Bytes
name = 118 ∷ 107 ∷ 116 ∷ []

abbrev literal : Bytes
literal = 58 ∷ 58 ∷ 49 ∷ []

-- "[[::1]]:2217"
in_two_pairs :
    endpoint (bracketed literal) ≡ 91 ∷ 91 ∷ 58 ∷ 58 ∷ 49 ∷ 93 ∷ 93 ∷ 58 ∷ 50 ∷ 50 ∷ 49 ∷ 55 ∷ []
unfolding endpoint split_host_port join_host_port has index_of last_index
in_two_pairs = refl

endpoint-without_port_example :
    (split_host_port (endpoint name) ≡ some (name, default_port))
    × (split_host_port (endpoint (bracketed literal)) ≡ none)
unfolding has
endpoint-without_port_example =
    endpoint-without_port name literal (record { no_colon = refl; no_left = refl; no_right = refl })
      (record { a_colon = refl; no_right = refl })

abbrev parsed : String → Result Url
parsed text = ok (record { is_rfc2217 = true; has_user = false; host = name })

abbrev dials : Bytes → M Bool (Unit {0})
dials b s = (ok tt, false)

abbrev opens_device : String → Mode → M Bool (Unit {0})
opens_device port m s = (ok tt, false)

-- RTS cannot be set.
abbrev no_rts : Bool → M Bool (Unit {0})
no_rts on s = (err (port_failed 5), s)

abbrev close_device : Bool → Bool
close_device s = true

abbrev opening : String → M Bool (Unit {0})
opening port =
    open_serial (open_remote no_parity_set negotiated is_closed shut same_timeout parsed dials)
      opens_device no_rts close_device port (pos 9600)

remote_closed : opening "RFC2217://vkt" true ≡ (err (wrapped (ack_timed_out set_parity)), true)
unfolding open_serial has_prefix open_remote open_port close set_mode host_of
remote_closed = refl

local_closed : opening "/dev/ttyUSB0" true ≡ (err (wrapped (port_failed 5)), true)
unfolding open_serial has_prefix
local_closed = refl

open_serial-Closes_example :
    Closes
      (λ s. is_closed s ≡ true)
      (opening "RFC2217://vkt")
      (close_serial no_parity_set negotiated is_closed shut same_timeout parsed dials opens_device
        no_rts close_device "RFC2217://vkt")
open_serial-Closes_example =
    open_serial-Closes no_parity_set negotiated is_closed shut same_timeout parsed dials
      opens_device no_rts close_device shutting "RFC2217://vkt" (pos 9600)
  where
    shutting :
        Shutting no_parity_set negotiated is_closed shut same_timeout parsed dials opens_device
          no_rts close_device
    shutting = record {
      shuts = λ s. refl;
      dial_fails = λ b s s' e idle same. absurd (cc (ap (λ r. r.0) same));
      device_fails = λ port m s s' e idle same. absurd (cc (ap (λ r. r.0) same));
      local_closes = λ s. refl;
    }
