-- ===== src/Port/Session.antt =====
-- rfc2217.go: `Close`, `SetReadTimeout`, and `Open` from the made connection on. `command` and
-- `negotiate` are parameters, what they do stands in Port/Acks and Port/Output; so is `shut`, which
-- closes `done` and the connection.
use vkt7d.Common.{
  ℕ, zero, suc, ◌≡◌, refl, Bool, true, false, Bool-cases, if◌then◌else◌, none, some, [], ◌∷◌, Bytes,
  inl, inr,
}
use vkt7d.Common.Int.{ℤ, pos, negsuc}
use vkt7d.Errors.{Error, refused, Result, ok, err, M, ◌>>◌, wrap}
use vkt7d.Port.{purge_data}
use vkt7d.Port.Mode.{Mode, no_parity, two_stop, set_rts, set_mode}

-- The mode of `Open`.
abbrev pub meter_mode : ℤ → Mode
meter_mode baud = record {
  baud_rate = baud;
  data_bits = pos 8;
  parity = no_parity;
  stop_bits = two_stop;
  initial = none;
}

-- `t < 0 && t != serial.NoTimeout`, and NoTimeout is -1.
abbrev pub valid_timeout : ℤ → Bool
valid_timeout (pos n) = true
valid_timeout (negsuc zero) = true
valid_timeout (negsuc (suc n)) = false

module _ {S : Type 0} (command : ℕ → Bytes → M S (Unit {0})) (negotiate : M S (Unit {0}))
    (is_closed : S → Bool) (shut : S → S) (put_timeout : ℤ → S → S) where
  unfoldable pub set_read_timeout : ℤ → M S (Unit {0})
  set_read_timeout t s = if valid_timeout t then (ok tt, put_timeout t s) else (err refused, s)

  -- Once; the errors of the two commands are ignored.
  unfoldable pub close : S → S
  close s =
      let (released, s1) = set_rts command false s in
      let (purged, s2) = command purge_data (3 ∷ []) s1 in if is_closed s then s else shut s2

  abbrev pub closed_on : Result (Unit {0}) × S → Result (Unit {0}) × S
  closed_on (ok u, s) = (ok u, s)
  closed_on (err e, s) = (err e, close s)

  -- A step of `Open`: an error closes the port.
  abbrev pub or_close : M S (Unit {0}) → M S (Unit {0})
  or_close m s = closed_on (m s)

  unfoldable pub open_port : ℤ → M S (Unit {0})
  open_port baud =
      or_close negotiate
      >> (or_close (wrap (set_mode command (some (meter_mode baud))))
          >> or_close (wrap (set_rts command true)))

  module _ (shuts : (s : S) → is_closed (shut s) ≡ true) where
    pub close-closed : (s : S) → is_closed (close s) ≡ true
    unfolding close
    close-closed s = elim (Bool-cases (is_closed s)) [
      | inl before ↦ rw (before, before) refl
      | inr now ↦ rw now (shuts _)
    ]

    -- After an error the port is closed.
    abbrev pub ClosedOnError : Result (Unit {0}) × S → Type 0
    ClosedOnError (ok u, s) = Unit
    ClosedOnError (err e, s) = is_closed s ≡ true

    or_close-ClosedOnError : (r : Result (Unit {0}) × S) → ClosedOnError (closed_on r)
    or_close-ClosedOnError (ok u, s) = tt
    or_close-ClosedOnError (err e, s) = close-closed s

    pub then-ClosedOnError :
        (r : Result (Unit {0}) × S) (k : M S (Unit {0})) (s : S)
        → ClosedOnError r
        → ((s' : S) → ClosedOnError (k s'))
        → ClosedOnError (((λ _. r) >> k) s)
    then-ClosedOnError (ok u, s') k s first later = later s'
    then-ClosedOnError (err e, s') k s first later = first

    pub closed_after :
        (r : Result (Unit {0}) × S) (e : Error)
        → ClosedOnError r
        → r.0 ≡ err e
        → is_closed r.1 ≡ true
    closed_after (ok u, s) e h is_err = cc
    closed_after (err x, s) e h is_err = h

    pub open_port-ClosedOnError : (baud : ℤ) (s : S) → ClosedOnError (open_port baud s)
    unfolding open_port
    open_port-ClosedOnError baud s =
        let mode = wrap (set_mode command (some (meter_mode baud))) in
        let rts = wrap (set_rts command true) in
        let rest = or_close mode >> or_close rts in
        then-ClosedOnError (or_close negotiate s) rest s (or_close-ClosedOnError (negotiate s))
          (λ s'.
            then-ClosedOnError (or_close mode s') (or_close rts) s'
              (or_close-ClosedOnError (mode s')) (λ s''. or_close-ClosedOnError (rts s'')))

    -- If `Open` fails on a connection that is made, at the negotiation, at the mode or at RTS, the port
    -- that it leaves is closed.
    pub open_port-closed :
        (baud : ℤ) (s : S) (e : Error)
        → (open_port baud s).0 ≡ err e
        → is_closed (open_port baud s).1 ≡ true
    open_port-closed baud s e = closed_after (open_port baud s) e (open_port-ClosedOnError baud s)
