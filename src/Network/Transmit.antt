-- ===== src/Network/Transmit.antt =====
-- What the other end takes as bytes for the meter, over a transaction of the protocol.
use vkt7d.Common.{
  ℕ, ◌≤◌, ◌≡◌, ◌≢◌, refl, sym, ap, ap₂, ◌∙◌, false, true, List, [], ◌∷◌, ◌++◌, append-nil, arith,
  Bytes,
}
use vkt7d.Errors.{Error, Result, ok, err, ◌>>=◌, ◌>>◌, done}
use vkt7d.Telnet.{iac, in_data, Decoder, feed}
use vkt7d.Telnet.Stream.{stream, feed-append}
use vkt7d.Telnet.Wire.{wires, meanings, feed-wires}
use vkt7d.Port.{Connection, purge_data}
use vkt7d.Port.Output.{send}
use vkt7d.Port.Output.Delivery.{Working}
use vkt7d.Port.Acks.{Reading, begin_command}
use vkt7d.Port.Queue.{drain}
use vkt7d.Port.Queue.Order.{joined, joined-append}
use vkt7d.Port.Queue.Filled.{data_of, data_of-append}
use vkt7d.Port.Mode.{reset_input_buffer}
use vkt7d.Protocol.Transaction.{is_crc_error, tx}
use vkt7d.Protocol.Transaction.Retry.{times, tx-Sent}
use vkt7d.Protocol.Transaction.Invariant.{tx-Keeps}
use vkt7d.Port.Acks.{pending}
use vkt7d.Network.{
  wakeup, Surroundings, buffer_size, L, on_link, hear, waited, link_command, link_read, link_write,
  link_reset, network,
}
use vkt7d.Network.Interface.{NoCrc, network_Observed}
use vkt7d.Protocol.{request_prefix}
use vkt7d.Network.Said.{
  Said, Said-nothing, reader-Said, begin_command-Said, end_command-Said, read-Said, send-Said,
}

module _ (c : Connection) (w : Working c) (e : Surroundings) where
  open w use {sent}

  -- The bytes for the meter that a decoder at the other end has shown.
  abbrev pub at_meter : Decoder → L c e → Bytes
  at_meter d s = data_of (stream (feed d (sent s.port.conn)).events)

  -- The port is open, the other end is between two messages, and what it took as bytes for the meter
  -- is what `Write` was given, in order.
  pub record Mirrors (d : Decoder) (s : L c e) : Type 0 where
    pub is_open : s.port.closed ≡ false
    pub between : (feed d (sent s.port.conn)).decoder.phase ≡ in_data
    pub same : at_meter d s ≡ joined s.history

  Mirrors-Said :
      (d : Decoder) (b : Bytes) (s s' : L c e)
      → Said c w b s.port s'.port
      → joined s'.history ≡ joined s.history ++ b
      → Mirrors d s
      → Mirrors d s'
  Mirrors-Said d b s s' said history m =
      let before = feed d (sent s.port.conn) in
      let cut = feed-append d (sent s.port.conn) (wires said.segments) in
      let shown = feed-wires before.decoder said.segments m.between said.formed in
      record {
        is_open = said.still_open;
        between = rw said.grew (ap (λ x. x.phase) cut.1 ∙ shown.1);
        same = rw said.grew (
            ap data_of (cut.0 ∙ ap (λ x. stream before.events ++ x) shown.0)
            ∙ data_of-append (stream before.events) (meanings said.segments)
            ∙ ap₂ ◌++◌ m.same said.for_meter
            ∙ sym history);
      }

  Mirrors-quiet :
      (d : Decoder) (s s' : L c e)
      → Said c w [] s.port s'.port
      → s'.history ≡ s.history
      → Mirrors d s
      → Mirrors d s'
  Mirrors-quiet d s s' said history =
      Mirrors-Said d [] s s' said (ap joined history ∙ sym (append-nil (joined s.history)))

  hear-Mirrors :
      (d : Decoder) (rs : List Reading) (s : L c e) → Mirrors d s → Mirrors d (hear c e rs s)
  unfolding hear
  hear-Mirrors d rs s m = Mirrors-quiet d s _ (reader-Said c w rs s.decoder s.port m.is_open) refl m

  -- What the surroundings do changes nothing here.
  env-Mirrors :
      (d : Decoder) (s : L c e) (x : e.State) → Mirrors d s → Mirrors d (record s { env = x })
  env-Mirrors d s x m = record { is_open = m.is_open; between = m.between; same = m.same }

  waited-Mirrors :
      (d : Decoder) (cmd : ℕ) (r : Result (Unit {0}) × L c e)
      → Mirrors d r.1
      → Mirrors d (waited c e cmd r).1
  waited-Mirrors d cmd (err x, s) m = m
  waited-Mirrors d cmd (ok u, s) m =
      let slot = e.during_command s.env in
      let heard = hear c e slot.0.0 (record s { env = slot.1 }) in
      let h = hear-Mirrors d slot.0.0 (record s { env = slot.1 }) (env-Mirrors d s slot.1 m) in
      Mirrors-quiet d heard _
        (end_command-Said c w cmd (wakeup slot.0.1 (pending cmd heard.port.acks)) heard.port
          h.is_open)
        refl h

  link_command-Mirrors :
      (d : Decoder) (cmd : ℕ) (value : Bytes) (s : L c e)
      → cmd ≢ iac
      → Mirrors d s
      → Mirrors d (link_command c e cmd value s).1
  unfolding link_command
  link_command-Mirrors d cmd value s ne m =
      waited-Mirrors d cmd (on_link c e (begin_command c cmd value) s)
        (Mirrors-quiet d s _ (begin_command-Said c w cmd value s.port ne m.is_open) refl m)

  drained-Mirrors :
      (d : Decoder) (r : Result (Unit {0}) × L c e) (s : L c e)
      → Mirrors d r.1
      → Mirrors d (((λ _. r) >> on_link c e drain) s).1
  drained-Mirrors d (ok u, s') s m =
      Mirrors-quiet d s' _ (Said-nothing c w s'.port _ refl m.is_open) refl m
  drained-Mirrors d (err x, s') s m = m

  link_reset-Mirrors : (d : Decoder) (s : L c e) → Mirrors d s → Mirrors d (link_reset c e s).1
  unfolding link_reset reset_input_buffer
  link_reset-Mirrors d s m =
      drained-Mirrors d (link_command c e purge_data (1 ∷ []) s) s
        (link_command-Mirrors d purge_data (1 ∷ []) s (λ same. absurd (omega (arith, same))) m)

  link_read-Mirrors : (d : Decoder) (s : L c e) → Mirrors d s → Mirrors d (link_read c e s).1
  unfolding link_read
  link_read-Mirrors d s m =
      let slot = e.during_read s.env in
      let heard = hear c e slot.0.0 (record s { env = slot.1 }) in
      let h = hear-Mirrors d slot.0.0 (record s { env = slot.1 }) (env-Mirrors d s slot.1 m) in
      Mirrors-quiet d heard _ (read-Said c w buffer_size slot.0.1 heard.port h.is_open) refl h

  done-Mirrors :
      (d : Decoder) (r : Result ℕ × L c e) (s : L c e)
      → Mirrors d r.1
      → Mirrors d (((λ _. r) >>= λ n. done tt) s).1
  done-Mirrors d (ok n, s') s m = m
  done-Mirrors d (err x, s') s m = m

  link_write-Mirrors :
      (d : Decoder) (b : Bytes) (s : L c e) → Mirrors d s → Mirrors d (link_write c e b s).1
  unfolding link_write
  link_write-Mirrors d b s m =
      let noted = record s { history = s.history ++ b ∷ [] } in
      let out = on_link c e (send c b) noted in
      done-Mirrors d out noted (
        Mirrors-Said d b s out.1 (send-Said c w b s.port m.is_open)
          (joined-append s.history (b ∷ []) ∙ ap (λ x. joined s.history ++ x) (append-nil b)) m)

  -- From `s` the outcome is `r`: at the other end the message has been taken as bytes for the meter
  -- some number of times, one behind the other, and nothing else has.
  pub record Arrived (d : Decoder) (m : Bytes) (s : L c e) (r : Result Bytes × L c e) : Type 0 where
    pub count : ℕ
    pub at_most : count ≤ 2
    pub arrived : at_meter d r.1 ≡ at_meter d s ++ joined (times count m)
    pub answered : (b : Bytes) → r.0 ≡ ok b → 1 ≤ count
    pub gave_up : (x : Error) → r.0 ≡ err x → is_crc_error x ≡ true → count ≡ 2
    pub mirrors : Mirrors d r.1

  -- A transaction of the protocol over the network port, of any request, one that writes to the meter
  -- included, on a working connection whose errors are no CRC errors: if the port is open, the other
  -- end is between two messages, and what it has taken as bytes for the meter is what `Write` was
  -- given, then whatever the reader hears meanwhile and whenever it runs, and whatever the selects
  -- find, the other end takes exactly the request behind two 0xFF bytes as bytes for the meter: at
  -- most twice, at least once if there is a response, and exactly twice if a CRC error is reported;
  -- and the three hold again.
  pub tx-Arrived :
      (quiet : NoCrc e) (d : Decoder) (timeout : ℕ) (req : Bytes) (s : L c e)
      → Mirrors d s
      → Arrived d (request_prefix ∷ request_prefix ∷ req) s (tx (network c e) timeout req s)
  unfolding network_Observed
  tx-Arrived quiet d timeout req s m =
      let out = tx-Sent (network c e) (network_Observed c w e quiet) timeout req s in
      let after =
        tx-Keeps (network c e) (Mirrors d) (λ t s' h. h) (link_reset-Mirrors d)
          (link_write-Mirrors d) (link_read-Mirrors d) timeout req s m in
      record {
        count = out.count;
        at_most = out.at_most;
        arrived =
            after.same
            ∙ ap joined out.log
            ∙ joined-append s.history (times out.count (request_prefix ∷ request_prefix ∷ req))
            ∙ ap (λ x. x ++ joined (times out.count (request_prefix ∷ request_prefix ∷ req)))
                (sym m.same);
        answered = out.answered;
        gave_up = out.gave_up;
        mirrors = after;
      }
