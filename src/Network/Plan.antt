-- ===== src/Network/Plan.antt =====
-- What is planned for the reads of `readResponse`, and what waits in the channel after one.
use vkt7d.Common.{
  zero, suc, ◌+◌, ℕ, ◌==◌, ◌≤◌, ◌≡◌, refl, sym, ap, ltb, leb, not, ◌&&◌, ◌||◌, Bool, Bool-cases,
  false, true, if◌then◌else◌, List, [], ◌∷◌, ◌++◌, arith, Bytes, All, All-append, length, get_or,
  drop, inl, inr,
}
use vkt7d.Errors.{Result, ok}
use vkt7d.Telnet.{Event, on_data, on_negotiation, on_subnegotiation, Decoder, feed}
use vkt7d.Telnet.Size.{IsShort, feed-IsShort}
use vkt7d.Port.{Connection, Port, comport, server_notify_modemstate, client_of}
use vkt7d.Port.Output.{write_raw, reply}
use vkt7d.Port.Acks.{
  delivered, acknowledge, push_data, handle_negotiation, handle_subneg, react, react_all, reader,
}
use vkt7d.Port.Queue.{chunk_ready, read_timer, read, take_chunk}
use vkt7d.Port.Queue.Order.{joined, take_all}
use vkt7d.Port.Queue.Filled.{readings, chunks_heard}
use vkt7d.Network.{Surroundings, decoder_after, buffer_size}

-- No more bytes than the buffer of `readResponse`.
abbrev pub Fits : Bytes → Type 0
Fits b = length b ≤ buffer_size

-- What is planned for some reads, one after the other: the pieces that the reader hears before each,
-- and whether the select then takes a chunk or the timer.
abbrev pub Plan : Type 0
Plan = List (List Bytes × Bool)

abbrev pub pieces_of : Plan → Bytes
pieces_of [] = []
pieces_of ((pieces, ready) ∷ plan) = joined pieces ++ pieces_of plan

-- How many chunks wait after a read that takes one, or none.
abbrev pub one_less : Bool → ℕ → ℕ
one_less true (suc n) = n
one_less true zero = zero
one_less false n = n

-- How many chunks wait after the reads of a plan, if so many wait before them.
abbrev pub left_over : Plan → Decoder → ℕ → ℕ
left_over [] d n = n
left_over ((pieces, ready) ∷ plan) d n =
    left_over plan (decoder_after (readings pieces) d)
      (one_less ready (n + length (chunks_heard pieces d)))

-- The surroundings follow the plan, with pieces that fit into the buffer.
abbrev pub Follows : (e : Surroundings) → Plan → e.State → Type 0
Follows e [] x = Unit
Follows e ((pieces, ready) ∷ plan) x =
    ((e.during_read x).0 ≡ (readings pieces, if ready then chunk_ready else read_timer))
    × All Fits pieces
    × Follows e plan (e.during_read x).1

module _ (c : Connection) where
  -- The chunks that wait fit into the buffer.
  abbrev pub Small : Port c.State → Type 0
  Small p = All Fits p.chunks

  Small-if : (b : Bool) (p q : Port c.State) → Small p → Small q → Small (if b then p else q)
  Small-if true p q h k = h
  Small-if false p q h k = k

  write_raw-Small : (b : Bytes) (p : Port c.State) → Small p → Small (write_raw c b p).1
  unfolding write_raw
  write_raw-Small b p h = elim (Bool-cases p.closed) [
    | inl closed ↦ rw closed h
    | inr is_open ↦ rw is_open h
  ]

  react-Small :
      (e : Event) (p : Port c.State) → IsShort buffer_size e → Small p → Small (react c e p)
  unfolding react push_data handle_negotiation handle_subneg
  react-Small (on_data []) p short h = h
  react-Small (on_data (b ∷ bs)) p short h =
      Small-if p.closed p (record p { chunks = p.chunks ++ (b ∷ bs) ∷ [] }) h
        (All-append Fits p.chunks ((b ∷ bs) ∷ []) h (short, tt))
  react-Small (on_negotiation cmd opt) p short h = write_raw-Small (reply cmd opt) p h
  react-Small (on_subnegotiation v) p short h =
      let client = client_of (get_or v 1 0) in
      let state = record p { modem = get_or v 2 0 } in
      let answered = record p { acks = delivered client (drop 1 v) p.acks } in
      let is_state = (get_or v 1 0 == server_notify_modemstate) && leb 3 (length v) in
      Small-if (ltb (length v) 2 || not (get_or v 0 0 == comport)) p
        (if is_state then state else acknowledge c client (drop 1 v) p) h
        (Small-if is_state state (acknowledge c client (drop 1 v) p) h
          (Small-if (client == 0) p answered h h))

  react_all-Small :
      (es : List Event) (p : Port c.State)
      → All (IsShort buffer_size) es
      → Small p
      → Small (react_all c es p)
  react_all-Small [] p short h = h
  react_all-Small (e ∷ es) p short h =
      react_all-Small es (react c e p) short.1 (react-Small e p short.0 h)

  pub reader-Small :
      (pieces : List Bytes) (d : Decoder) (p : Port c.State)
      → All Fits pieces
      → Small p
      → Small (reader c (readings pieces) d p)
  unfolding reader
  reader-Small [] d p short h = h
  reader-Small (b ∷ bs) d p short h =
      let fed = feed d b in
      reader-Small bs fed.decoder (react_all c fed.events p) short.1
        (react_all-Small fed.events p (feed-IsShort buffer_size d b short.0) h)

  -- A chunk that fits is taken whole.
  take_chunk-whole :
      (n : ℕ) (b : Bytes) (q : List Bytes) (p : Port c.State)
      → length b ≤ n
      → take_chunk n (b ∷ q) p ≡ (ok b, record p { chunks = q })
  take_chunk-whole n b q p h =
      let short : ltb n (length b) ≡ false = ground arith in rw (short, take_all n b h) refl

  -- What a read of small chunks gives, and what it leaves.
  pub record TookOut (ready : Bool) (p : Port c.State) (r : Result Bytes × Port c.State)
      : Type 0 where
    pub out : Bytes
    pub given : r.0 ≡ ok out
    pub order : out ++ joined r.1.chunks ≡ joined p.chunks
    pub fewer : length r.1.chunks ≡ one_less ready (length p.chunks)
    pub still_small : Small r.1
    pub still_open : r.1.closed ≡ p.closed

  pub read-TookOut :
      (ready : Bool) (p : Port c.State)
      → Small p
      → TookOut ready p (read buffer_size (if ready then chunk_ready else read_timer) p)
  unfolding read
  read-TookOut false p h = record {
    out = [];
    given = refl;
    order = refl;
    fewer = refl;
    still_small = h;
    still_open = refl;
  }
  read-TookOut true p h = taken p.chunks refl h
    where
      taken :
          (q : List Bytes) → p.chunks ≡ q → All Fits q → TookOut true p (take_chunk buffer_size q p)
      taken [] e k = record {
        out = [];
        given = refl;
        order = refl;
        fewer = rw e refl;
        still_small = h;
        still_open = refl;
      }
      taken (b ∷ q) e k = rw (take_chunk-whole buffer_size b q p k.0) (record {
        out = b;
        given = refl;
        order = ap joined (sym e);
        fewer = rw e refl;
        still_small = k.1;
        still_open = refl;
      })
