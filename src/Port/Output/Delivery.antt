-- ===== src/Port/Output/Delivery.antt =====
-- What reaches the other end of the connection, as bytes and as the other end's decoder shows it.
use vkt7d.Common.{
  ℕ, zero, suc, ◌==◌, ◌-◌, ◌≤◌, ◌≡◌, ◌≢◌, refl, sym, ap, ◌∙◌, false, [], ◌∷◌, ◌++◌, append-nil,
  append_assoc, map, arith, Bytes, length, take, drop, length-drop, take-append-drop,
}
use vkt7d.Errors.{Result, ok, err, M, ◌>>=◌, done}
use vkt7d.Telnet.{iac, se, Decoder, in_data, feed, escape}
use vkt7d.Telnet.Stream.{byte, stream, subnegotiation}
use vkt7d.Telnet.Wire.{text, parameters, wires, feed-wires}
use vkt7d.Port.{Connection, Port, comport}
use vkt7d.Port.Output.{taken, write_loop, write_raw, send, command_message}

-- A connection whose stream can be observed, and that works: each `Write` of some bytes takes at
-- least one of them and no more than all.
pub record Working (c : Connection) : Type 0 where
  pub sent : c.State → Bytes
  pub amount : Bytes → c.State → ℕ
  pub takes : (b : Bytes) (s : c.State) → (c.write b s).0 ≡ ok (amount b s)
  pub some_taken : (b : Bytes) (s : c.State) → b ≢ [] → 1 ≤ amount b s
  pub not_more : (b : Bytes) (s : c.State) → amount b s ≤ length b
  pub appends : (b : Bytes) (s : c.State) → sent (c.write b s).1 ≡ sent s ++ take (amount b s) b

-- The message of `command` is a parameter block on the wire, but for the command, which is not
-- escaped.
pub command_message-wire :
    (cmd : ℕ) (value : Bytes)
    → cmd ≢ iac
    → wires (parameters (comport ∷ cmd ∷ value) ∷ []) ≡ command_message cmd value
unfolding command_message escape
command_message-wire cmd value ne =
    let plain : (cmd == iac) ≡ false = ground arith in
    rw (plain, append-nil (escape value ++ iac ∷ se ∷ [])) refl

module _ (c : Connection) (w : Working c) where
  open w use {sent, amount, takes, some_taken, not_more, appends}

  record Delivered (b : Bytes) (s : c.State) (r : Result (Unit {0}) × c.State) : Type 0 where
    no_error : r.0 ≡ ok tt
    stream_grew : sent r.1 ≡ sent s ++ b

  taken-Delivered :
      (n k : ℕ) (b : Bytes) (s s' : c.State)
      → 1 ≤ n
      → sent s' ≡ sent s ++ take n b
      → Delivered (drop n b) s' (write_loop c k (drop n b) s')
      → Delivered b s (taken c (write_loop c k) n b s')
  unfolding taken
  taken-Delivered zero k b s s' one e h = absurd (omega arith)
  taken-Delivered (suc n) k b s s' one e h = record {
    no_error = h.no_error;
    stream_grew =
        h.stream_grew
        ∙ ap (λ t. t ++ drop (suc n) b) e
        ∙ append_assoc (sent s) (take (suc n) b) (drop (suc n) b)
        ∙ ap (λ t. sent s ++ t) (take-append-drop (suc n) b);
  }

  Delivered-bind :
      (b : Bytes) (s s' : c.State) (n : ℕ) (k : ℕ → M c.State (Unit {0})) (r : Result ℕ)
      → r ≡ ok n
      → Delivered b s (k n s')
      → Delivered b s (((λ _. (r, s')) >>= k) s)
  Delivered-bind b s s' n k (ok m) e h = let same : m ≡ n = cc in rw same h
  Delivered-bind b s s' n k (err x) e h = cc

  write_loop-Delivered :
      (k : ℕ) (b : Bytes) (s : c.State) → length b ≤ k → Delivered b s (write_loop c k b s)
  unfolding write_loop
  write_loop-Delivered k [] s h = record { no_error = refl; stream_grew = sym (append-nil _) }
  write_loop-Delivered zero (b ∷ bs) s h = absurd (omega arith)
  write_loop-Delivered (suc k) (b ∷ bs) s h =
      let n = amount (b ∷ bs) s in
      let s' = (c.write (b ∷ bs) s).1 in
      let one : 1 ≤ n = some_taken (b ∷ bs) s (λ e. cc) in
      let left : length (drop n (b ∷ bs)) ≡ length (b ∷ bs) - n = length-drop n (b ∷ bs) in
      Delivered-bind (b ∷ bs) s s' n (λ n. taken c (write_loop c k) n (b ∷ bs))
        (c.write (b ∷ bs) s).0 (takes (b ∷ bs) s)
        (taken-Delivered n k (b ∷ bs) s s' one (appends (b ∷ bs) s)
          (write_loop-Delivered k (drop n (b ∷ bs)) s' (omega (arith, one, left, h))))

  pub write_raw-Delivered :
      (b : Bytes) (p : Port c.State)
      → p.closed ≡ false
      → ((write_raw c b p).0 ≡ ok tt) × (sent (write_raw c b p).1.conn ≡ sent p.conn ++ b)
  unfolding write_raw
  write_raw-Delivered b p e =
      let all = write_loop-Delivered (length b) b p.conn (omega arith) in
      rw e (all.no_error, all.stream_grew)

  pub finished :
      (r : Result (Unit {0})) (p : Port c.State) (n : ℕ)
      → r ≡ ok tt
      → ((λ _. (r, p)) >>= λ u. done n) p ≡ (ok n, p)
  finished (ok u) p n e = refl
  finished (err x) p n e = cc

  -- On a working connection that is not closed, `Write` hands over every byte, however many the
  -- connection takes at a time, and returns how many there were; a decoder between two messages
  -- at the other end shows exactly these bytes for what was sent.
  pub send_arrives :
      (b : Bytes) (p : Port c.State) (d : Decoder)
      → p.closed ≡ false
      → d.phase ≡ in_data
      → (out : Bytes) × ((send c b p).0 ≡ ok (length b))
        × (sent (send c b p).1.conn ≡ sent p.conn ++ out)
        × (stream (feed d out).events ≡ map byte b)
  unfolding send
  send_arrives [] p d e ready = ([], refl, sym (append-nil _), (feed-wires d [] ready tt).0)
  send_arrives (x ∷ xs) p d e ready =
      let out = escape (x ∷ xs) in
      let there = write_raw-Delivered out p e in
      let whole = finished (write_raw c out p).0 (write_raw c out p).1 (length (x ∷ xs)) there.0 in
      let shown = (feed-wires d (text (x ∷ xs) ∷ []) ready (tt, tt)).0 in
      (
        out,
        ap (λ r. r.0) whole,
        ap (λ r. sent r.1.conn) whole ∙ there.1,
        rw (append-nil out, append-nil (map byte (x ∷ xs))) at shown,
      )

  -- On a working connection that is not closed, the message of `command` is handed over whole; a
  -- decoder between two messages at the other end shows exactly one parameter block for it: the
  -- option, the command and the value.
  pub command_arrives :
      (cmd : ℕ) (value : Bytes) (p : Port c.State) (d : Decoder)
      → cmd ≢ iac
      → p.closed ≡ false
      → d.phase ≡ in_data
      → ((write_raw c (command_message cmd value) p).0 ≡ ok tt)
        × (sent (write_raw c (command_message cmd value) p).1.conn
            ≡ sent p.conn ++ command_message cmd value)
        × (stream (feed d (command_message cmd value)).events
            ≡ subnegotiation (comport ∷ cmd ∷ value) ∷ [])
  command_arrives cmd value p d ne e ready =
      let there = write_raw-Delivered (command_message cmd value) p e in
      let shown = (feed-wires d (parameters (comport ∷ cmd ∷ value) ∷ []) ready (tt, tt)).0 in
      (there.0, there.1, rw (command_message-wire cmd value ne) at shown)
