-- ===== src/Port/Queue/Filled.antt =====
-- What the reader puts into the channel `data`.
use vkt7d.Common.{
  ltb, leb, ◌==◌, not, ◌&&◌, ◌≡◌, refl, sym, ap, ap₂, ◌∙◌, Bool, true, false, if◌then◌else◌, List,
  [], ◌∷◌, ◌++◌, append-nil, append_assoc, Bytes, length, drop, map, ◌||◌, get_or,
}
use vkt7d.Errors.{Result, err, end_of_file}
use vkt7d.Telnet.{Event, on_data, on_negotiation, on_subnegotiation, Decoder, feed}
use vkt7d.Telnet.Stream.{
  Item, byte, negotiation, subnegotiation, stream, stream-append, feed-append,
}
use vkt7d.Port.{Connection, Port, client_of, comport, server_notify_modemstate}
use vkt7d.Port.Output.{write_loop, write_raw, reply}
use vkt7d.Port.Acks.{
  Reading, got, push_data, handle_negotiation, handle_subneg, acknowledge, delivered, react,
  react_all, reader,
}
use vkt7d.Port.Queue.Order.{joined, joined-append}

-- The bytes of the application in a stream.
abbrev pub data_of : List Item → Bytes
data_of [] = []
data_of (byte b ∷ items) = b ∷ data_of items
data_of (negotiation c o ∷ items) = data_of items
data_of (subnegotiation v ∷ items) = data_of items

pub data_of-append : (xs ys : List Item) → data_of (xs ++ ys) ≡ data_of xs ++ data_of ys
data_of-append [] ys = refl
data_of-append (byte b ∷ xs) ys = ap (◌∷◌ b) (data_of-append xs ys)
data_of-append (negotiation c o ∷ xs) ys = data_of-append xs ys
data_of-append (subnegotiation v ∷ xs) ys = data_of-append xs ys

pub data_of-bytes : (b : Bytes) → data_of (map byte b) ≡ b
data_of-bytes [] = refl
data_of-bytes (x ∷ xs) = ap (◌∷◌ x) (data_of-bytes xs)

abbrev pub readings : List Bytes → List Reading
readings [] = []
readings (b ∷ bs) = got b ∷ readings bs

-- The chunk that an event puts into the channel.
abbrev pushed : Event → List Bytes
pushed (on_data (b ∷ bs)) = (b ∷ bs) ∷ []
pushed _ = []

abbrev pushed_all : List Event → List Bytes
pushed_all [] = []
pushed_all (e ∷ es) = pushed e ++ pushed_all es

-- The chunks that the reader makes of what it hears.
abbrev pub chunks_heard : List Bytes → Decoder → List Bytes
chunks_heard [] d = []
chunks_heard (b ∷ bs) d = let fed = feed d b in pushed_all fed.events ++ chunks_heard bs fed.decoder

joined-pushed : (e : Event) → joined (pushed e) ≡ data_of (stream (e ∷ []))
joined-pushed (on_data []) = refl
joined-pushed (on_data (b ∷ bs)) =
    rw (append-nil bs, append-nil (map byte bs), data_of-bytes bs) refl
joined-pushed (on_negotiation cmd opt) = refl
joined-pushed (on_subnegotiation v) = refl

joined-pushed_all : (es : List Event) → joined (pushed_all es) ≡ data_of (stream es)
joined-pushed_all [] = refl
joined-pushed_all (e ∷ es) =
    joined-append (pushed e) (pushed_all es)
    ∙ ap₂ ◌++◌ (joined-pushed e) (joined-pushed_all es)
    ∙ sym (data_of-append (stream (e ∷ [])) (stream es))
    ∙ ap data_of (sym (stream-append (e ∷ []) es))

pub joined-chunks_heard :
    (pieces : List Bytes) (d : Decoder)
    → joined (chunks_heard pieces d) ≡ data_of (stream (feed d (joined pieces)).events)
joined-chunks_heard [] d = unfold feed in refl
joined-chunks_heard (b ∷ bs) d =
    let fed = feed d b in
    let rest = feed fed.decoder (joined bs) in
    joined-append (pushed_all fed.events) (chunks_heard bs fed.decoder)
    ∙ ap₂ ◌++◌ (joined-pushed_all fed.events) (joined-chunks_heard bs fed.decoder)
    ∙ sym (data_of-append (stream fed.events) (stream rest.events))
    ∙ ap data_of (sym (feed-append d b (joined bs)).0)

module _ (c : Connection) where
  open c use {State}

  -- The port took these chunks into its channel, and did not close.
  pub record Took (cs : List Bytes) (p p' : Port State) : Type 0 where
    pub queue : p'.chunks ≡ p.chunks ++ cs
    pub still_open : p'.closed ≡ p.closed

  Took-if :
      (test : Bool) (b : List Bytes) (p x y : Port State)
      → Took b p x
      → Took b p y
      → Took b p (if test then x else y)
  Took-if true b p x y h k = h
  Took-if false b p x y h k = k

  Took-none : (p p' : Port State) → p'.chunks ≡ p.chunks → p'.closed ≡ p.closed → Took [] p p'
  Took-none p p' e k = record { queue = e ∙ sym (append-nil p.chunks); still_open = k }

  Took-open :
      (test : Bool) (b : List Bytes) (p x y : Port State)
      → test ≡ false
      → Took b p y
      → Took b p (if test then x else y)
  Took-open true b p x y e h = cc
  Took-open false b p x y e h = h

  -- Both branches of `writeRaw` leave the chunks alone, and the port as open as it was.
  write_raw-Took : (b : Bytes) (p : Port State) → Took [] p (write_raw c b p).1
  unfolding write_raw
  write_raw-Took b p =
      let out = write_loop c (length b) b p.conn in
      let q = record p { conn = out.1 } in
      either p.closed (err end_of_file, p) (out.0, q) (Took-none p p refl refl)
        (Took-none p q refl refl)
    where
      either :
          (test : Bool) (x y : Result (Unit {0}) × Port State)
          → Took [] p x.1
          → Took [] p y.1
          → Took [] p (if test then x else y).1
      either true x y h k = h
      either false x y h k = k

  push_data-Took :
      (b : Bytes) (p : Port State)
      → p.closed ≡ false
      → Took (pushed (on_data b)) p (push_data c b p)
  unfolding push_data
  push_data-Took [] p h = Took-none p p refl refl
  push_data-Took (b ∷ bs) p h =
      Took-open p.closed ((b ∷ bs) ∷ []) p p (record p { chunks = p.chunks ++ (b ∷ bs) ∷ [] }) h
        (record { queue = refl; still_open = refl })

  handle_subneg-Took : (v : Bytes) (p : Port State) → Took [] p (handle_subneg c v p)
  unfolding handle_subneg
  handle_subneg-Took v p =
      let same = Took-none p p refl refl in
      let state = record p { modem = get_or v 2 0 } in
      let client = client_of (get_or v 1 0) in
      let answered = record p { acks = delivered client (drop 1 v) p.acks } in
      let known = acknowledge c client (drop 1 v) p in
      let is_state = (get_or v 1 0 == server_notify_modemstate) && leb 3 (length v) in
      Took-if (ltb (length v) 2 || not (get_or v 0 0 == comport)) [] p p
        (if is_state then state else known) same
        (Took-if is_state [] p state known (Took-none p state refl refl)
          (Took-if (client == 0) [] p p answered same (Took-none p answered refl refl)))

  react-Took : (e : Event) (p : Port State) → p.closed ≡ false → Took (pushed e) p (react c e p)
  unfolding react
  react-Took (on_data b) p h = push_data-Took b p h
  react-Took (on_negotiation cmd opt) p h =
      unfold handle_negotiation in write_raw-Took (reply cmd opt) p
  react-Took (on_subnegotiation v) p h = handle_subneg-Took v p

  Took-append :
      (a b : List Bytes) (p q r : Port State) → Took a p q → Took b q r → Took (a ++ b) p r
  Took-append a b p q r h k = record {
    queue = k.queue ∙ ap (λ t. t ++ b) h.queue ∙ append_assoc p.chunks a b;
    still_open = k.still_open ∙ h.still_open;
  }

  react_all-Took :
      (es : List Event) (p : Port State)
      → p.closed ≡ false
      → Took (pushed_all es) p (react_all c es p)
  react_all-Took [] p h = Took-none p p refl refl
  react_all-Took (e ∷ es) p h =
      let one = react-Took e p h in
      let q = react c e p in
      Took-append (pushed e) (pushed_all es) p q (react_all c es q) one
        (react_all-Took es q (one.still_open ∙ h))

  pub reader-Took :
      (pieces : List Bytes) (d : Decoder) (p : Port State)
      → p.closed ≡ false
      → Took (chunks_heard pieces d) p (reader c (readings pieces) d p)
  unfolding reader
  reader-Took [] d p h = Took-none p p refl refl
  reader-Took (b ∷ bs) d p h =
      let fed = feed d b in
      let one = react_all-Took fed.events p h in
      let q = react_all c fed.events p in
      Took-append (pushed_all fed.events) (chunks_heard bs fed.decoder) p q
        (reader c (readings bs) fed.decoder q) one
        (reader-Took bs fed.decoder q (one.still_open ∙ h))

  -- On an open port the reader puts exactly the application's bytes of the stream into the
  -- channel, in order, whatever pieces the connection cuts the stream into, and whatever
  -- negotiation and acknowledgements stand in between.
  pub reader_in_order :
      (pieces : List Bytes) (d : Decoder) (p : Port State)
      → p.closed ≡ false
      → joined (reader c (readings pieces) d p).chunks
        ≡ joined p.chunks ++ data_of (stream (feed d (joined pieces)).events)
  reader_in_order pieces d p h =
      ap joined (reader-Took pieces d p h).queue
      ∙ joined-append p.chunks (chunks_heard pieces d)
      ∙ ap (λ t. joined p.chunks ++ t) (joined-chunks_heard pieces d)
