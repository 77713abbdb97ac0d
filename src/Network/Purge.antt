-- ===== src/Network/Purge.antt =====
-- What `ResetInputBuffer` and `Write` leave over the network port, if the server acknowledges.
use vkt7d.Common.{
  ℕ, suc, ◌==◌, ◌≡◌, refl, ap, Bool-cases, false, List, [], ◌∷◌, ◌++◌, arith, Bytes, length, none,
  inl, inr,
}
use vkt7d.Errors.{Result, ok, err, ◌>>=◌, ◌>>◌, done}
use vkt7d.Telnet.{escape, Decoder}
use vkt7d.Port.{Connection, Port, purge_data, answer_of}
use vkt7d.Port.Output.{send, write_raw, command_message}
use vkt7d.Port.Output.Delivery.{Working, write_raw-Delivered, finished}
use vkt7d.Port.Acks.{
  Channel, pending, removed, acked, woken, written, begin_command, end_command, reader,
}
use vkt7d.Port.Queue.{drain}
use vkt7d.Port.Queue.Filled.{readings}
use vkt7d.Port.Mode.{reset_input_buffer}
use vkt7d.Network.{
  Surroundings, decoder_after, L, on_link, hear, waited, link_command, link_write, link_reset,
}
use vkt7d.Network.Said.{reader-Said, begin_command-Said}
use vkt7d.Common.{Option, some, All, ◌∙◌}
use vkt7d.Telnet.{in_data, feed}
use vkt7d.Telnet.Wire.{Segment, parameters, IsSegment, wires, feed-wires}
use vkt7d.Port.{comport}
use vkt7d.Port.Queue.Order.{joined}
use vkt7d.Network.{acknowledgement, wakeup}
use vkt7d.Network.Arrival.{decoder_after-joined}
use vkt7d.Network.Acknowledged.{write_raw-acks}
use vkt7d.Network.Granted.{Filled, purge-Filled}

pending-removed : (cmd : ℕ) (acks : List (ℕ × Channel)) → pending cmd (removed cmd acks) ≡ none
unfolding pending removed
pending-removed cmd [] = refl
pending-removed cmd ((k, ch) ∷ acks) = elim (Bool-cases (k == cmd)) [
  | inl same ↦ rw same (pending-removed cmd acks)
  | inr other ↦ rw (other, other) (pending-removed cmd acks)
]

-- The acknowledgement of a purge is accepted, whatever stands behind its code.
purge-accepted : (v : Bytes) → woken purge_data (acked (answer_of purge_data ∷ v)) ≡ ok tt
unfolding answer_of
purge-accepted v =
    let some_bytes : (suc (length v) == 0) ≡ false = ground arith in rw some_bytes refl

module _ (c : Connection) (w : Working c) (e : Surroundings) where
  -- Nothing waits, no purge is under way, and the decoder and the surroundings are these.
  pub record Clear (d : Decoder) (x : e.State) (s : L c e) : Type 0 where
    pub is_open : s.port.closed ≡ false
    pub nothing_waits : s.port.chunks ≡ []
    pub no_purge : pending purge_data s.port.acks ≡ none
    pub at_decoder : s.decoder ≡ d
    pub at_env : s.env ≡ x

  written-ok :
      (cmd : ℕ) (r : Result (Unit {0}) × Port c.State) → r.0 ≡ ok tt → (written c cmd r).0 ≡ ok tt
  written-ok cmd (ok u, q) same = refl
  written-ok cmd (err x, q) same = cc

  begin_command-ok :
      (cmd : ℕ) (value : Bytes) (q : Port c.State)
      → q.closed ≡ false
      → pending cmd q.acks ≡ none
      → (begin_command c cmd value q).0 ≡ ok tt
  unfolding begin_command
  begin_command-ok cmd value q is_open free =
      let q' = record q { acks = (cmd, none) ∷ q.acks } in
      rw free (
        written-ok cmd (write_raw c (command_message cmd value) q')
          (write_raw-Delivered c w (command_message cmd value) q' is_open).0)

  -- The state behind a purge that the server has acknowledged.
  abbrev purged : List Bytes → e.State → L c e → L c e
  purged pieces x s =
      let q = reader c (readings pieces) s.decoder s.port in
      record {
        port = record q { acks = removed purge_data q.acks; chunks = [] };
        decoder = decoder_after (readings pieces) s.decoder;
        env = x;
        history = s.history;
      }

  -- A purge ends well if its channel holds an acknowledgement when the select takes it.
  acknowledged :
      (ch : Option Channel) → Filled ch → woken purge_data (wakeup acknowledgement ch) ≡ ok tt
  acknowledged none h = absurd h
  acknowledged (some none) h = absurd h
  acknowledged (some (some b)) (v, is_b) = rw is_b (purge-accepted v)

  waited-purged :
      (r : Result (Unit {0}) × L c e) (pieces : List Bytes) (x : e.State) (s : L c e)
      → r.0 ≡ ok tt
      → e.during_command r.1.env ≡ ((readings pieces, acknowledgement), x)
      → Filled (pending purge_data (reader c (readings pieces) r.1.decoder r.1.port).acks)
      → ((λ _. waited c e purge_data r) >> on_link c e drain) s ≡ (ok tt, purged pieces x r.1)
  unfolding hear end_command
  waited-purged (err y, s') pieces x s same slot filled = cc
  waited-purged (ok u, s') pieces x s same slot filled =
      let ch = pending purge_data (reader c (readings pieces) s'.decoder s'.port).acks in
      rw (slot, acknowledged ch filled) refl

  written-keeps :
      (cmd : ℕ) (r : Result (Unit {0}) × Port c.State) → r.0 ≡ ok tt → (written c cmd r).1 ≡ r.1
  written-keeps cmd (ok u, q) same = refl
  written-keeps cmd (err x, q) same = cc

  -- A purge that has begun has an empty channel.
  begin_command-pending :
      (value : Bytes) (q : Port c.State)
      → q.closed ≡ false
      → pending purge_data q.acks ≡ none
      → pending purge_data (begin_command c purge_data value q).1.acks ≡ some none
  unfolding begin_command pending
  begin_command-pending value q is_open free =
      let q' = record q { acks = (purge_data, none) ∷ q.acks } in
      let out = write_raw c (command_message purge_data value) q' in
      rw free (
        ap (λ x. pending purge_data x.acks)
          (written-keeps purge_data out
            (write_raw-Delivered c w (command_message purge_data value) q' is_open).0)
        ∙ ap (pending purge_data) (write_raw-acks c (command_message purge_data value) q'))

  pub reset-Clear :
      (pieces : List Bytes) (before behind : List Segment) (u : Bytes) (x : e.State) (s : L c e)
      → let gs = before ++ parameters (comport ∷ answer_of purge_data ∷ u) ∷ behind in
        s.port.closed ≡ false
        → pending purge_data s.port.acks ≡ none
        → s.decoder.phase ≡ in_data
        → e.during_command s.env ≡ ((readings pieces, acknowledgement), x)
        → All IsSegment gs
        → joined pieces ≡ wires gs
        → (s' : L c e) × (link_reset c e s ≡ (ok tt, s'))
          × Clear (decoder_after (readings pieces) s.decoder) x s'
          × ((decoder_after (readings pieces) s.decoder).phase ≡ in_data)
  unfolding link_reset link_command reset_input_buffer
  reset-Clear pieces before behind u x s is_open free between slot formed cut =
      let gs = before ++ parameters (comport ∷ answer_of purge_data ∷ u) ∷ behind in
      let out = begin_command c purge_data (1 ∷ []) s.port in
      let begun =
        begin_command-Said c w purge_data (1 ∷ []) s.port (λ same. absurd (omega (arith, same)))
          is_open in
      let q = reader c (readings pieces) s.decoder out.1 in
      let waits = begin_command-pending (1 ∷ []) s.port is_open free in
      (
        purged pieces x (record s { port = out.1 }),
        waited-purged (on_link c e (begin_command c purge_data (1 ∷ [])) s) pieces x s
            (begin_command-ok purge_data (1 ∷ []) s.port is_open free) slot
            (purge-Filled c pieces before behind u s.decoder out.1 between formed cut waits),
        record {
          is_open = (reader-Said c w (readings pieces) s.decoder out.1 begun.still_open).still_open;
          nothing_waits = refl;
          no_purge = pending-removed purge_data q.acks;
          at_decoder = refl;
          at_env = refl;
        },
        ap (λ x. x.phase) (decoder_after-joined pieces s.decoder)
            ∙ ap (λ x. (feed s.decoder x).decoder.phase) cut
            ∙ (feed-wires s.decoder gs between formed).1,
      )

  still-Clear :
      (b : Bytes) (d : Decoder) (x : e.State) (s : L c e) (hs : List Bytes)
      → Clear d x s
      → Clear d x (record s { port = (write_raw c b s.port).1; history = hs })
  unfolding write_raw
  still-Clear b d x s hs h = rw h.is_open (record {
    is_open = refl;
    nothing_waits = h.nothing_waits;
    no_purge = h.no_purge;
    at_decoder = h.at_decoder;
    at_env = h.at_env;
  })

  pub write-Clear :
      (b : ℕ) (bs : Bytes) (d : Decoder) (x : e.State) (s : L c e)
      → Clear d x s
      → (s' : L c e) × (link_write c e (b ∷ bs) s ≡ (ok tt, s')) × Clear d x s'
  unfolding link_write send
  write-Clear b bs d x s h =
      let noted = record s { history = s.history ++ (b ∷ bs) ∷ [] } in
      let out = write_raw c (escape (b ∷ bs)) s.port in
      let whole =
        finished c w out.0 out.1 (length (b ∷ bs))
          (write_raw-Delivered c w (escape (b ∷ bs)) s.port h.is_open).0 in
      (
        record noted { port = out.1 },
        ap
            (λ (r : Result ℕ × Port c.State).
              ((λ (_ : L c e). (r.0, record noted { port = r.1 })) >>= λ n. done tt) noted)
            whole,
        still-Clear (escape (b ∷ bs)) d x s noted.history h,
      )
