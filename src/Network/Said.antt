-- ===== src/Network/Said.antt =====
-- What the port has said to the other end: well-formed segments, and the meter's bytes in them.
use vkt7d.Common.{
  ℕ, zero, suc, ◌==◌, ◌||◌, ◌≡◌, ◌≢◌, refl, sym, ap, ap₂, ◌∙◌, Bool, true, false, if◌then◌else◌,
  List, [], ◌∷◌, ◌++◌, append-nil, append_assoc, Bytes, length, drop, get_or, ltb, leb, not, ◌&&◌,
  All-append, Option, none, some, All,
}
use vkt7d.Errors.{Result, ok, err, ◌>>=◌, done}
use vkt7d.Telnet.{iac, Event, on_data, on_negotiation, on_subnegotiation, Decoder, feed, escape}
use vkt7d.Telnet.Wire.{Segment, text, parameters, IsSegment, wires, meanings}
use vkt7d.Port.{Connection, Port, comport, server_notify_modemstate, client_of}
use vkt7d.Port.Output.{write_raw, send, command_message, reply}
use vkt7d.Port.Output.Delivery.{Working, write_raw-Delivered, command_message-wire}
use vkt7d.Port.Acks.{
  Reading, got, gone, Channel, Wakeup, pending, delivered, acknowledge, written, start,
  begin_command, end_command, push_data, handle_negotiation, handle_subneg, react, react_all,
  reader,
}
use vkt7d.Port.Queue.{Choice, chunk_ready, read_failed, port_closed, read_timer, read, take_chunk}
use vkt7d.Port.Queue.Filled.{data_of, data_of-append}
use vkt7d.Network.Control.{wires-append, meanings-append, one_text, reply-Control}

module _ (c : Connection) (w : Working c) where
  open w use {sent}

  -- From `p` to `p'` the port has said some segments, with these bytes for the meter, and is open.
  pub record Said (b : Bytes) (p p' : Port c.State) : Type 0 where
    pub segments : List Segment
    pub formed : All IsSegment segments
    pub grew : sent p'.conn ≡ sent p.conn ++ wires segments
    pub for_meter : data_of (meanings segments) ≡ b
    pub still_open : p'.closed ≡ false

  -- Nothing but its own fields has changed.
  pub Said-nothing : (p p' : Port c.State) → p'.conn ≡ p.conn → p'.closed ≡ false → Said [] p p'
  Said-nothing p p' same h = record {
    segments = [];
    formed = tt;
    grew = ap sent same ∙ sym (append-nil (sent p.conn));
    for_meter = refl;
    still_open = h;
  }

  Said-same : (a b : Bytes) (p q : Port c.State) → a ≡ b → Said a p q → Said b p q
  Said-same a b p q e h = record {
    segments = h.segments;
    formed = h.formed;
    grew = h.grew;
    for_meter = h.for_meter ∙ e;
    still_open = h.still_open;
  }

  pub Said-append :
      (a b : Bytes) (p q r : Port c.State) → Said a p q → Said b q r → Said (a ++ b) p r
  Said-append a b p q r h k = record {
    segments = h.segments ++ k.segments;
    formed = All-append IsSegment h.segments k.segments h.formed k.formed;
    grew =
        k.grew
        ∙ ap (λ x. x ++ wires k.segments) h.grew
        ∙ append_assoc (sent p.conn) (wires h.segments) (wires k.segments)
        ∙ ap (λ x. sent p.conn ++ x) (sym (wires-append h.segments k.segments));
    for_meter =
        ap data_of (meanings-append h.segments k.segments)
        ∙ data_of-append (meanings h.segments) (meanings k.segments)
        ∙ ap₂ ◌++◌ h.for_meter k.for_meter;
    still_open = k.still_open;
  }

  write_raw-closed :
      (b : Bytes) (p : Port c.State) → p.closed ≡ false → (write_raw c b p).1.closed ≡ false
  unfolding write_raw
  write_raw-closed b p h = rw h refl

  -- `writeRaw` of well-formed segments.
  write_raw-Said :
      (b : Bytes) (p : Port c.State) (gs : List Segment)
      → p.closed ≡ false
      → All IsSegment gs
      → wires gs ≡ b
      → Said (data_of (meanings gs)) p (write_raw c b p).1
  write_raw-Said b p gs h formed same = record {
    segments = gs;
    formed = formed;
    grew = (write_raw-Delivered c w b p h).1 ∙ ap (λ x. sent p.conn ++ x) (sym same);
    for_meter = refl;
    still_open = write_raw-closed b p h;
  }

  handle_negotiation-Said :
      (cmd opt : ℕ) (p : Port c.State)
      → p.closed ≡ false
      → Said [] p (handle_negotiation c cmd opt p)
  unfolding handle_negotiation
  handle_negotiation-Said cmd opt p h =
      let r = reply-Control cmd opt in
      rw r.no_data at (write_raw-Said (reply cmd opt) p r.segments h r.formed r.on_wire)

  Said-if :
      (test : Bool) (p x y : Port c.State)
      → Said [] p x
      → Said [] p y
      → Said [] p (if test then x else y)
  Said-if true p x y h k = h
  Said-if false p x y h k = k

  handle_subneg-Said :
      (v : Bytes) (p : Port c.State) → p.closed ≡ false → Said [] p (handle_subneg c v p)
  unfolding handle_subneg
  handle_subneg-Said v p h =
      let same = Said-nothing p p refl h in
      let client = client_of (get_or v 1 0) in
      let state = record p { modem = get_or v 2 0 } in
      let answered = record p { acks = delivered client (drop 1 v) p.acks } in
      let known = acknowledge c client (drop 1 v) p in
      let is_state = (get_or v 1 0 == server_notify_modemstate) && leb 3 (length v) in
      Said-if (ltb (length v) 2 || not (get_or v 0 0 == comport)) p p
        (if is_state then state else known) same
        (Said-if is_state p state known (Said-nothing p state refl h)
          (Said-if (client == 0) p p answered same (Said-nothing p answered refl h)))

  push_data-Said : (b : Bytes) (p : Port c.State) → p.closed ≡ false → Said [] p (push_data c b p)
  unfolding push_data
  push_data-Said [] p h = Said-nothing p p refl h
  push_data-Said (b ∷ bs) p h =
      Said-if p.closed p _ _ (Said-nothing p p refl h) (Said-nothing p _ refl h)

  react-Said : (e : Event) (p : Port c.State) → p.closed ≡ false → Said [] p (react c e p)
  unfolding react
  react-Said (on_data b) p h = push_data-Said b p h
  react-Said (on_negotiation cmd opt) p h = handle_negotiation-Said cmd opt p h
  react-Said (on_subnegotiation v) p h = handle_subneg-Said v p h

  react_all-Said :
      (es : List Event) (p : Port c.State) → p.closed ≡ false → Said [] p (react_all c es p)
  react_all-Said [] p h = Said-nothing p p refl h
  react_all-Said (e ∷ es) p h =
      let first = react-Said e p h in
      Said-append [] [] p (react c e p) (react_all c es (react c e p)) first
        (react_all-Said es (react c e p) first.still_open)

  -- The reader says nothing for the meter, whatever it hears.
  pub reader-Said :
      (rs : List Reading) (d : Decoder) (p : Port c.State)
      → p.closed ≡ false
      → Said [] p (reader c rs d p)
  unfolding reader
  reader-Said [] d p h = Said-nothing p p refl h
  reader-Said (got b ∷ rs) d p h =
      let fed = feed d b in
      let q = react_all c fed.events p in
      let first = react_all-Said fed.events p h in
      Said-append [] [] p q (reader c rs fed.decoder q) first
        (reader-Said rs fed.decoder q first.still_open)
  reader-Said (gone e ∷ rs) d p h = Said-nothing p _ refl h

  written-Said :
      (cmd : ℕ) (p : Port c.State) (r : Result (Unit {0}) × Port c.State)
      → Said [] p r.1
      → Said [] p (written c cmd r).1
  written-Said cmd p (ok u, q) h = h
  written-Said cmd p (err e, q) h = record {
    segments = h.segments;
    formed = h.formed;
    grew = h.grew;
    for_meter = h.for_meter;
    still_open = h.still_open;
  }

  -- A command says its parameter block.
  pub begin_command-Said :
      (cmd : ℕ) (value : Bytes) (p : Port c.State)
      → cmd ≢ iac
      → p.closed ≡ false
      → Said [] p (begin_command c cmd value p).1
  unfolding begin_command
  begin_command-Said cmd value p ne h = started (pending cmd p.acks)
    where
      started : (ch : Option Channel) → Said [] p (start c cmd value ch p).1
      started (some ch) = Said-nothing p p refl h
      started none =
          let q = record p { acks = (cmd, none) ∷ p.acks } in
          written-Said cmd p (write_raw c (command_message cmd value) q) (
            Said-append [] [] p q (write_raw c (command_message cmd value) q).1
              (Said-nothing p q refl h)
              (write_raw-Said (command_message cmd value) q
                (parameters (comport ∷ cmd ∷ value) ∷ []) h (tt, tt)
                (command_message-wire cmd value ne)))

  pub end_command-Said :
      (cmd : ℕ) (u : Wakeup) (p : Port c.State)
      → p.closed ≡ false
      → Said [] p (end_command c cmd u p).1
  unfolding end_command
  end_command-Said cmd u p h = Said-nothing p _ refl h

  -- `Read` says nothing.
  pub read-Said :
      (n : ℕ) (choice : Choice) (p : Port c.State)
      → p.closed ≡ false
      → Said [] p (read n choice p).1
  unfolding read
  read-Said zero choice p h = Said-nothing p p refl h
  read-Said (suc n) (read_failed e) p h = Said-nothing p p refl h
  read-Said (suc n) port_closed p h = Said-nothing p p refl h
  read-Said (suc n) read_timer p h = Said-nothing p p refl h
  read-Said (suc n) chunk_ready p h = taken p.chunks
    where
      taken : (q : List Bytes) → Said [] p (take_chunk (suc n) q p).1
      taken [] = Said-nothing p p refl h
      taken (d ∷ q) =
          Said-if (ltb (suc n) (length d)) p _ _
            (Said-if (p.closed || ltb 63 (length q)) p _ _ (Said-nothing p _ refl h)
              (Said-nothing p _ refl h))
            (Said-nothing p _ refl h)

  -- `Write` says its bytes, as one text.
  pub send-Said : (b : Bytes) (p : Port c.State) → p.closed ≡ false → Said b p (send c b p).1
  unfolding send
  send-Said [] p h = Said-nothing p p refl h
  send-Said (x ∷ xs) p h = after (write_raw c (escape (x ∷ xs)) p) (
      write_raw-Said (escape (x ∷ xs)) p (text (x ∷ xs) ∷ []) h (tt, tt)
        (append-nil (escape (x ∷ xs))))
    where
      after :
          (r : Result (Unit {0}) × Port c.State)
          → Said (data_of (meanings (text (x ∷ xs) ∷ []))) p r.1
          → Said (x ∷ xs) p (((λ _. r) >>= λ u. done (length (x ∷ xs))) p).1
      after (ok u, q) k =
          Said-same (data_of (meanings (text (x ∷ xs) ∷ []))) (x ∷ xs) p q (one_text (x ∷ xs)) k
      after (err e, q) k =
          Said-same (data_of (meanings (text (x ∷ xs) ∷ []))) (x ∷ xs) p q (one_text (x ∷ xs)) k
