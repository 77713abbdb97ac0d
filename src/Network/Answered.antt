-- ===== src/Network/Answered.antt =====
-- A whole transaction over the network port: out and back.
use vkt7d.Common.{
  ℕ, suc, ◌≤◌, ◌≡◌, ◌≢◌, ap, ◌∙◌, false, List, [], ◌∷◌, Bytes, All, length, get_or, none,
}
use vkt7d.Errors.{Result, ok, err, M, ◌>>=◌, ◌>>◌, attempt, wrap}
use vkt7d.Telnet.{in_data}
use vkt7d.Telnet.Wire.{Segment, IsSegment, wires, meanings}
use vkt7d.Port.{Connection, purge_data, answer_of}
use vkt7d.Port.Output.Delivery.{Working}
use vkt7d.Port.Acks.{pending}
use vkt7d.Port.Queue.Filled.{data_of, readings}
use vkt7d.Protocol.{request_prefix}
use vkt7d.Protocol.Response.Progress.{IsResponse}
use vkt7d.Protocol.Transaction.{
  SerialPort, settle, read_response, attempts, tx, send as send_request,
}
use vkt7d.Network.{Surroundings, decoder_after, L, link_reset, network}
use vkt7d.Network.Plan.{Plan, pieces_of, Follows, left_over}
use vkt7d.Network.Arrival.{response_arrives}
use vkt7d.Network.Purge.{reset-Clear, write-Clear}
use vkt7d.Common.{◌++◌}
use vkt7d.Telnet.Wire.{parameters}
use vkt7d.Port.{comport}
use vkt7d.Port.Queue.Order.{joined}
use vkt7d.Network.{acknowledgement}

then-ok :
    {S B : Type 0} (m : M S (Unit {0})) (k : M S B) (s s' : S)
    → m s ≡ (ok tt, s')
    → (m >> k) s ≡ k s'
then-ok {S = S} m k s s' same = ap (λ (r : Result (Unit {0}) × S). ((λ (_ : S). r) >> k) s) same

wrap-ok : {S : Type 0} (m : M S (Unit {0})) (s s' : S) → m s ≡ (ok tt, s') → wrap m s ≡ (ok tt, s')
wrap-ok {S = S} m s s' same = ap (λ (r : Result (Unit {0}) × S). wrap (λ (_ : S). r) s) same

module _ (p : SerialPort) where
  open p use {State, write}

  settle-ok :
      (again : M State Bytes) (r : Result Bytes) (s : State) (f : Bytes)
      → r ≡ ok f
      → (settle p again r s).0 ≡ ok f
  unfolding settle
  settle-ok again (ok b) s f same = same
  settle-ok again (err e) s f same = cc

  -- A request that is written and answered at the first attempt.
  attempts-answered :
      (left : ℕ) (req f : Bytes) (s s' : State)
      → write (request_prefix ∷ request_prefix ∷ req) s ≡ (ok tt, s')
      → (read_response p req s').0 ≡ ok f
      → (attempts p (suc left) req s).0 ≡ ok f
  unfolding attempts
  attempts-answered left req f s s' out back =
      let again = attempts p left req in
      let r = read_response p req s' in
      ap (λ x. x.0)
        (then-ok (send_request p req) (attempt (read_response p req) >>= settle p again) s s' out)
      ∙ settle-ok again r.0 r.1 f back

module _ (c : Connection) (w : Working c) (e : Surroundings) where
  -- A transaction of the protocol over the network port succeeds, on a working connection: if the
  -- port is open, no purge is under way, and the reader is between two messages; if while each of
  -- the two purges waits the server sends well-formed Telnet segments with an acknowledgement of a
  -- purge among them, and the select then takes it; and if the server then sends a response in
  -- well-formed segments, then whatever waited before, however the connection cuts the streams into
  -- pieces, those of the response so that they fit the buffer, and whenever the reader runs between
  -- the reads, `Tx` returns exactly this response, if the reads that leave no chunk waiting come
  -- before the deadline.
  pub tx_answered :
      (timeout : ℕ) (a b : List Bytes) (a1 a2 b1 b2 : List Segment) (u v : Bytes) (x y : e.State)
      (plan : Plan) (gs : List Segment) (req f : Bytes) (s : L c e)
      → let d = decoder_after (readings b) (decoder_after (readings a) s.decoder) in
        s.port.closed ≡ false
        → pending purge_data s.port.acks ≡ none
        → s.decoder.phase ≡ in_data
        → e.during_command s.env ≡ ((readings a, acknowledgement), x)
        → All IsSegment (a1 ++ parameters (comport ∷ answer_of purge_data ∷ u) ∷ a2)
        → joined a ≡ wires (a1 ++ parameters (comport ∷ answer_of purge_data ∷ u) ∷ a2)
        → e.during_command x ≡ ((readings b, acknowledgement), y)
        → All IsSegment (b1 ++ parameters (comport ∷ answer_of purge_data ∷ v) ∷ b2)
        → joined b ≡ wires (b1 ++ parameters (comport ∷ answer_of purge_data ∷ v) ∷ b2)
        → All IsSegment gs
        → data_of (meanings gs) ≡ f
        → pieces_of plan ≡ wires gs
        → Follows e plan y
        → length plan ≤ e.turns y
        → left_over plan d 0 ≡ 0
        → f ≢ []
        → IsResponse (get_or req 1 0) f
        → (tx (network c e) timeout req s).0 ≡ ok f
  unfolding tx
  tx_answered timeout a b a1 a2 b1 b2 u v x y plan gs req f s is_open free between first formed_a
        cut_a second formed_b cut_b formed is_f cut follows in_time emptied ne response =
      let d = decoder_after (readings b) (decoder_after (readings a) s.decoder) in
      let (s1, one, h1, between1) =
        reset-Clear c w e a a1 a2 u x s is_open free between first formed_a cut_a in
      let (s2, two, h2, between2) =
        reset-Clear c w e b b1 b2 v y s1 h1.is_open h1.no_purge (rw h1.at_decoder between1)
          (rw h1.at_env second) formed_b cut_b in
      let (s3, three, h3) =
        write-Clear c w e request_prefix (request_prefix ∷ req)
          (decoder_after (readings b) s1.decoder) y s2 h2 in
      let at_d : s3.decoder ≡ d = h3.at_decoder ∙ ap (decoder_after (readings b)) h1.at_decoder in
      let back =
        response_arrives c e plan gs req f s3 h3.is_open h3.nothing_waits
          (rw h3.at_decoder between2) formed is_f cut (rw h3.at_env follows) (rw h3.at_env in_time)
          (rw at_d emptied) ne response in
      let again = attempts (network c e) 1 req in
      let reset = link_reset c e in
      ap (λ r. r.0)
        (then-ok (wrap reset) (wrap reset >> again) s s1 (wrap-ok reset s s1 one)
          ∙ then-ok (wrap reset) again s1 s2 (wrap-ok reset s1 s2 two))
      ∙ attempts-answered (network c e) 0 req f s2 s3 three back
