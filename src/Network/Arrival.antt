-- ===== src/Network/Arrival.antt =====
-- How a response of the meter gets through the network port to the protocol.
use vkt7d.Common.{
  length-append, ◌≤◌, ◌≡◌, ◌≢◌, refl, sym, ap, ◌∙◌, Bool, false, if◌then◌else◌, List, [], ◌∷◌, ◌++◌,
  append-nil, append_assoc, arith, Bytes, All, length, get_or,
}
use vkt7d.Errors.{ok}
use vkt7d.Telnet.{in_data, Decoder, feed}
use vkt7d.Telnet.Stream.{stream, feed-append}
use vkt7d.Telnet.Wire.{Segment, IsSegment, wires, meanings, feed-wires}
use vkt7d.Port.{Connection}
use vkt7d.Port.Acks.{reader}
use vkt7d.Port.Queue.{chunk_ready, read_timer, read}
use vkt7d.Port.Queue.Order.{joined}
use vkt7d.Port.Queue.Filled.{
  data_of, data_of-append, readings, chunks_heard, reader-Took, reader_in_order,
}
use vkt7d.Protocol.Response.Progress.{IsResponse}
use vkt7d.Protocol.Transaction.{ReadEvent, read_response}
use vkt7d.Protocol.Transaction.Receive.{heard, IsHealthy, replies, read_response_complete}
use vkt7d.Network.{Surroundings, decoder_after, event_of, buffer_size, L, hear, link_read, network}
use vkt7d.Network.Plan.{
  Fits, Plan, pieces_of, Follows, left_over, one_less, Small, reader-Small, read-TookOut,
}

none_left : (q : List Bytes) → length q ≡ 0 → q ≡ []
none_left [] h = refl
none_left (b ∷ bs) h = absurd (omega (arith, h))

-- Pieces read one after the other leave the decoder as all of them read at once.
pub decoder_after-joined :
    (pieces : List Bytes) (d : Decoder)
    → decoder_after (readings pieces) d ≡ (feed d (joined pieces)).decoder
decoder_after-joined [] d = unfold feed in refl
decoder_after-joined (b ∷ bs) d =
    decoder_after-joined bs (feed d b).decoder ∙ sym (feed-append d b (joined bs)).1

pieces-split :
    (d : Decoder) (pieces : List Bytes) (b : Bytes)
    → data_of (stream (feed d (joined pieces ++ b)).events)
      ≡ data_of (stream (feed d (joined pieces)).events)
        ++ data_of (stream (feed (decoder_after (readings pieces) d) b).events)
pieces-split d pieces b =
    let first = stream (feed d (joined pieces)).events in
    ap data_of (feed-append d (joined pieces) b).0
    ∙ data_of-append first (stream (feed (feed d (joined pieces)).decoder b).events)
    ∙ ap (λ x. data_of first ++ data_of (stream (feed x b).events))
        (sym (decoder_after-joined pieces d))

module _ (c : Connection) (e : Surroundings) where
  -- One read in which the reader hears these pieces first.
  abbrev planned : List Bytes → Bool → L c e → ReadEvent × L c e
  planned pieces ready s =
      let p = reader c (readings pieces) s.decoder s.port in
      let (r, p') = read buffer_size (if ready then chunk_ready else read_timer) p in
      (
        event_of r,
        record {
          port = p';
          decoder = decoder_after (readings pieces) s.decoder;
          env = (e.during_read s.env).1;
          history = s.history;
        },
      )

  link_read-planned :
      (pieces : List Bytes) (ready : Bool) (s : L c e)
      → (e.during_read s.env).0 ≡ (readings pieces, if ready then chunk_ready else read_timer)
      → link_read c e s ≡ planned pieces ready s
  unfolding link_read hear
  link_read-planned pieces ready s same = rw same refl

  -- The state after the reads of a plan.
  abbrev pub after : Plan → L c e → L c e
  after [] s = s
  after (x ∷ plan) s = after plan (link_read c e s).1

  -- What the reads bring, and what still waits, is what waited and what the reader hears, in order.
  record Brings (plan : Plan) (s : L c e) : Type 0 where
    healthy : All IsHealthy (replies (network c e) (length plan) s)
    left : length (after plan s).port.chunks ≡ left_over plan s.decoder (length s.port.chunks)
    order :
        heard (replies (network c e) (length plan) s) ++ joined (after plan s).port.chunks
        ≡ joined s.port.chunks ++ data_of (stream (feed s.decoder (pieces_of plan)).events)

  Brings-cons :
      (pieces : List Bytes) (ready : Bool) (plan : Plan) (s : L c e)
      → s.port.closed ≡ false
      → Small c s.port
      → (e.during_read s.env).0 ≡ (readings pieces, if ready then chunk_ready else read_timer)
      → All Fits pieces
      → ((s' : L c e)
          → s'.port.closed ≡ false
          → Small c s'.port
          → s'.env ≡ (e.during_read s.env).1
          → Brings plan s')
      → Brings ((pieces, ready) ∷ plan) s
  Brings-cons pieces ready plan s is_open small slot short ih =
      let d = s.decoder in
      let p = reader c (readings pieces) d s.port in
      let took = reader-Took c pieces d s.port is_open in
      let out = read-TookOut c ready p (reader-Small c pieces d s.port short small) in
      let s' = (planned pieces ready s).1 in
      let rest = ih s' (out.still_open ∙ took.still_open ∙ is_open) out.still_small refl in
      let one = link_read-planned pieces ready s slot ∙ ap (λ r. (event_of r, s')) out.given in
      let later = heard (replies (network c e) (length plan) s') in
      let left = joined (after plan s').port.chunks in
      let waited = joined s.port.chunks in
      let first = data_of (stream (feed d (joined pieces)).events) in
      let second = data_of (stream (feed s'.decoder (pieces_of plan)).events) in
      record {
        healthy = rw one (tt, rest.healthy);
        left =
            ap (λ r. length (after plan r.1).port.chunks) one
            ∙ rest.left
            ∙ ap (left_over plan s'.decoder) (
                out.fewer
                ∙ ap (one_less ready)
                    (ap length took.queue ∙ length-append s.port.chunks (chunks_heard pieces d)));
        order =
            ap
              (λ r.
                heard (r.0 ∷ replies (network c e) (length plan) r.1)
                ++ joined (after plan r.1).port.chunks)
              one
            ∙ append_assoc out.out later left
            ∙ ap (λ x. out.out ++ x) rest.order
            ∙ sym (append_assoc out.out (joined s'.port.chunks) second)
            ∙ ap (λ x. x ++ second) (out.order ∙ reader_in_order c pieces d s.port is_open)
            ∙ append_assoc waited first second
            ∙ ap (λ x. waited ++ x) (sym (pieces-split d pieces (pieces_of plan)));
      }

  plan-Brings :
      (plan : Plan) (s : L c e)
      → s.port.closed ≡ false
      → Small c s.port
      → Follows e plan s.env
      → Brings plan s
  plan-Brings [] s is_open small f = record {
    healthy = tt;
    left = refl;
    order = unfold feed in sym (append-nil (joined s.port.chunks));
  }
  plan-Brings ((pieces, ready) ∷ plan) s is_open small (slot, short, f) =
      Brings-cons pieces ready plan s is_open small slot short
        (λ s' is_open' small' same. plan-Brings plan s' is_open' small' (rw same f))

  -- A response of the meter gets through: if the port is open with nothing waiting and its reader
  -- between two messages, and the server sends the response in well-formed Telnet segments, in
  -- however many texts and with whatever control messages in between, then however the connection
  -- cuts the stream into pieces that fit the buffer of `readResponse`, and whenever the reader runs
  -- between the reads, `readResponse` over the network port returns exactly the response, if the
  -- reads that empty the channel come before the deadline.
  pub response_arrives :
      (plan : Plan) (gs : List Segment) (req f : Bytes) (s : L c e)
      → s.port.closed ≡ false
      → s.port.chunks ≡ []
      → s.decoder.phase ≡ in_data
      → All IsSegment gs
      → data_of (meanings gs) ≡ f
      → pieces_of plan ≡ wires gs
      → Follows e plan s.env
      → length plan ≤ e.turns s.env
      → left_over plan s.decoder 0 ≡ 0
      → f ≢ []
      → IsResponse (get_or req 1 0) f
      → (read_response (network c e) req s).0 ≡ ok f
  response_arrives plan gs req f s is_open empty between formed is_f cut follows in_time emptied ne
        response =
      let small : Small c s.port = rw empty tt in
      let b = plan-Brings plan s is_open small follows in
      let shown = (feed-wires s.decoder gs between formed).0 in
      let all_read : (after plan s).port.chunks ≡ [] =
        none_left (after plan s).port.chunks
          (b.left ∙ ap (λ q. left_over plan s.decoder (length q)) empty ∙ emptied) in
      let all : heard (replies (network c e) (length plan) s) ≡ f =
        sym (append-nil (heard (replies (network c e) (length plan) s)))
        ∙ ap (λ x. heard (replies (network c e) (length plan) s) ++ joined x) (sym all_read)
        ∙ b.order
        ∙ ap (λ x. joined x ++ data_of (stream (feed s.decoder (pieces_of plan)).events)) empty
        ∙ ap (λ x. data_of (stream (feed s.decoder x).events)) cut
        ∙ ap data_of shown
        ∙ is_f in
      read_response_complete (network c e) req f (length plan) s in_time b.healthy all ne response
