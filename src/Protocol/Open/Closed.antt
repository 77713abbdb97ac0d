-- ===== src/Protocol/Open/Closed.antt =====
-- A port that cannot be opened is closed.
use Prim.Native.String.{String}
use vkt7d.Common.{ℕ, ◌≡◌, refl, ap, Bool, Bool-cases, true, if◌then◌else◌, Bytes, inl, inr}
use vkt7d.Common.Int.{ℤ}
use vkt7d.Errors.{Error, Result, ok, err, M, ◌>>◌, wrap}
use vkt7d.Port.Mode.{Mode}
use vkt7d.Port.Session.{
  meter_mode, close, close-closed, open_port, open_port-ClosedOnError, ClosedOnError,
  then-ClosedOnError, closed_after,
}
use vkt7d.Port.Endpoint.{Url, host_of, endpoint, open_host, open_remote}
use vkt7d.Collector.Run.Idle.{Closes}
use vkt7d.Protocol.Open.{is_network, asserted, open_local, open_serial}

module _ {S : Type 0} (command : ℕ → Bytes → M S (Unit {0})) (negotiate : M S (Unit {0}))
    (is_closed : S → Bool) (shut : S → S) (put_timeout : ℤ → S → S)
    (url_parse : String → Result Url) (dial : Bytes → M S (Unit {0}))
    (serial_open : String → Mode → M S (Unit {0})) (local_rts : Bool → M S (Unit {0}))
    (local_close : S → S) where
  -- What closing, and a connection or a device that cannot be opened, leave.
  pub record Shutting : Type 0 where
    pub shuts : (s : S) → is_closed (shut s) ≡ true
    pub dial_fails :
        (b : Bytes) (s s' : S) (e : Error)
        → is_closed s ≡ true
        → dial b s ≡ (err e, s')
        → is_closed s' ≡ true
    pub device_fails :
        (port : String) (m : Mode) (s s' : S) (e : Error)
        → is_closed s ≡ true
        → serial_open port m s ≡ (err e, s')
        → is_closed s' ≡ true
    pub local_closes : (s : S) → is_closed (local_close s) ≡ true

  abbrev remote : String → ℤ → M S (Unit {0})
  remote = open_remote command negotiate is_closed shut put_timeout url_parse dial

  -- `Close` of the port that `Open` gives for this name.
  abbrev pub close_serial : String → S → S
  close_serial port s =
      if is_network port
      then close command negotiate is_closed shut put_timeout s
      else local_close s

  module _ (x : Shutting) where
    -- After an error the port is closed.
    abbrev Fails : Result (Unit {0}) × S → Type 0
    Fails = ClosedOnError command negotiate is_closed shut put_timeout x.shuts

    then-Fails :
        (r : Result (Unit {0}) × S) (k : M S (Unit {0})) (s : S)
        → Fails r
        → ((s' : S) → Fails (k s'))
        → Fails (((λ _. r) >> k) s)
    then-Fails = then-ClosedOnError command negotiate is_closed shut put_timeout x.shuts

    wrap-Fails : (r : Result (Unit {0}) × S) (s : S) → Fails r → Fails (wrap (λ _. r) s)
    wrap-Fails (ok u, s') s h = tt
    wrap-Fails (err e, s') s h = h

    opened-Fails :
        (m : M S (Unit {0})) (s : S)
        → ((e : Error) (s' : S) → m s ≡ (err e, s') → is_closed s' ≡ true)
        → Fails (m s)
    opened-Fails m s = opened (m s) refl
      where
        opened :
            (r : Result (Unit {0}) × S)
            → m s ≡ r
            → ((e : Error) (s' : S) → m s ≡ (err e, s') → is_closed s' ≡ true)
            → Fails r
        opened (ok u, s') same h = tt
        opened (err e, s') same h = h e s' same

    host-Fails :
        (baud : ℤ) (host : Result Bytes) (s : S)
        → is_closed s ≡ true
        → Fails (open_host command negotiate is_closed shut put_timeout url_parse dial baud host s)
    host-Fails baud (err e) s idle = idle
    host-Fails baud (ok host) s idle =
        then-Fails (wrap (dial (endpoint host)) s)
          (open_port command negotiate is_closed shut put_timeout baud) s
          (wrap-Fails (dial (endpoint host) s) s (
            opened-Fails (dial (endpoint host)) s
              (λ e s'. x.dial_fails (endpoint host) s s' e idle)))
          (open_port-ClosedOnError command negotiate is_closed shut put_timeout x.shuts baud)

    asserted-Fails :
        (r : Result (Unit {0}) × S) → Fails (asserted remote serial_open local_rts local_close r)
    asserted-Fails (ok u, s) = tt
    asserted-Fails (err e, s) = x.local_closes s

    local-Fails :
        (port : String) (baud : ℤ) (s : S)
        → is_closed s ≡ true
        → Fails (open_local remote serial_open local_rts local_close port baud s)
    local-Fails port baud s idle =
        then-Fails (serial_open port (meter_mode baud) s)
          (λ s'. asserted remote serial_open local_rts local_close (local_rts true s')) s
          (opened-Fails (serial_open port (meter_mode baud)) s
            (λ e s'. x.device_fails port (meter_mode baud) s s' e idle))
          (λ s'. asserted-Fails (local_rts true s'))

    opens : String → ℤ → M S (Unit {0})
    opens = open_serial remote serial_open local_rts local_close

    serial-Fails :
        (port : String) (baud : ℤ) (s : S) → is_closed s ≡ true → Fails (opens port baud s)
    unfolding open_serial open_remote opens
    serial-Fails port baud s idle = elim (Bool-cases (is_network port)) [
      | inl network ↦ rw network (host-Fails baud (host_of (url_parse port)) s idle)
      | inr device ↦ rw device (local-Fails port baud s idle)
    ]

    close_serial-closed : (port : String) (s : S) → is_closed (close_serial port s) ≡ true
    close_serial-closed port s = elim (Bool-cases (is_network port)) [
      | inl network ↦
          rw network (close-closed command negotiate is_closed shut put_timeout x.shuts s)
      | inr device ↦ rw device (x.local_closes s)
    ]

    -- The opening and closing of the protocol's serial port keep the promise on which the collector's
    -- `Run` relies: with whatever name, of a device or of an endpoint, if no port is open and `Open`
    -- fails, at the address, the connection, the negotiation, the mode or RTS, then none is open; and
    -- after `Close` none is open.
    pub open_serial-Closes :
        (port : String) (baud : ℤ)
        → Closes
            (λ s. is_closed s ≡ true)
            (open_serial remote serial_open local_rts local_close port baud)
            (close_serial port)
    unfolding opens
    open_serial-Closes port baud = record {
      closed_idle = close_serial-closed port;
      refused_idle = λ s s' e idle same. rw⁻¹ (ap (λ r. r.1) same) (
          closed_after command negotiate is_closed shut put_timeout x.shuts (opens port baud s) e
            (serial-Fails port baud s idle) (ap (λ r. r.0) same));
    }
