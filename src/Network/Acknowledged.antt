-- ===== src/Network/Acknowledged.antt =====
-- What a stream does to the channels of the commands that wait.
use vkt7d.Common.{
  ℕ, ◌==◌, ltb, leb, not, ◌&&◌, ◌||◌, if◌then◌else◌, ◌≡◌, refl, sym, ap, ◌∙◌, Bool, Bool-cases,
  true, false, List, [], ◌∷◌, ◌++◌, map, Bytes, length, get_or, drop, inl, inr,
}
use vkt7d.Telnet.{Event, on_data, on_negotiation, on_subnegotiation, Decoder, feed}
use vkt7d.Telnet.Stream.{Item, byte, negotiation, subnegotiation, stream, feed-append}
use vkt7d.Port.{Connection, Port, client_of, comport, server_notify_modemstate}
use vkt7d.Port.Output.{write_raw, reply}
use vkt7d.Port.Acks.{
  Channel, delivered, push_data, handle_negotiation, handle_subneg, react, react_all, reader,
}
use vkt7d.Port.Queue.Order.{joined}
use vkt7d.Port.Queue.Filled.{readings}

abbrev pub Acks : Type 0
Acks = List (ℕ × Channel)

-- What a parameter block does to the channels.
unfoldable pub heard_ack : Bytes → Acks → Acks
heard_ack v a =
    if ltb (length v) 2 || not (get_or v 0 0 == comport)
    then a
    else if (get_or v 1 0 == server_notify_modemstate) && leb 3 (length v)
    then a
    else if client_of (get_or v 1 0) == 0
    then a
    else delivered (client_of (get_or v 1 0)) (drop 1 v) a

-- What a stream does to them.
abbrev pub acks_of : List Item → Acks → Acks
acks_of [] a = a
acks_of (subnegotiation v ∷ items) a = acks_of items (heard_ack v a)
acks_of (byte b ∷ items) a = acks_of items a
acks_of (negotiation cmd opt ∷ items) a = acks_of items a

pub acks_of-append :
    (xs ys : List Item) (a : Acks) → acks_of (xs ++ ys) a ≡ acks_of ys (acks_of xs a)
acks_of-append [] ys a = refl
acks_of-append (subnegotiation v ∷ xs) ys a = acks_of-append xs ys (heard_ack v a)
acks_of-append (byte b ∷ xs) ys a = acks_of-append xs ys a
acks_of-append (negotiation cmd opt ∷ xs) ys a = acks_of-append xs ys a

acks_of-bytes : (bs : Bytes) (a : Acks) → acks_of (map byte bs) a ≡ a
acks_of-bytes [] a = refl
acks_of-bytes (b ∷ bs) a = acks_of-bytes bs a

module _ (c : Connection) where
  acks-if :
      (b : Bool) (p q : Port c.State) → (if b then p else q).acks ≡ (if b then p.acks else q.acks)
  acks-if true p q = refl
  acks-if false p q = refl

  pub write_raw-acks : (b : Bytes) (p : Port c.State) → (write_raw c b p).1.acks ≡ p.acks
  unfolding write_raw
  write_raw-acks b p = elim (Bool-cases p.closed) [
    | inl closed ↦ rw closed refl
    | inr is_open ↦ rw is_open refl
  ]

  push_data-acks : (b : Bytes) (p : Port c.State) → (push_data c b p).acks ≡ p.acks
  unfolding push_data
  push_data-acks [] p = refl
  push_data-acks (b ∷ bs) p = elim (Bool-cases p.closed) [
    | inl closed ↦ rw closed refl
    | inr is_open ↦ rw is_open refl
  ]

  handle_subneg-acks :
      (v : Bytes) (p : Port c.State) → (handle_subneg c v p).acks ≡ heard_ack v p.acks
  unfolding handle_subneg heard_ack
  handle_subneg-acks v p = elim (Bool-cases (ltb (length v) 2 || not (get_or v 0 0 == comport))) [
    | inl short ↦ rw short refl
    | inr long ↦
        elim (Bool-cases ((get_or v 1 0 == server_notify_modemstate) && leb 3 (length v))) [
          | inl is_state ↦ rw (long, is_state) refl
          | inr answer ↦ elim (Bool-cases (client_of (get_or v 1 0) == 0)) [
            | inl unknown ↦ rw (long, answer, unknown) refl
            | inr known ↦ rw (long, answer, known) refl
          ]
        ]
  ]

  react_all-acks :
      (es : List Event) (p : Port c.State) → (react_all c es p).acks ≡ acks_of (stream es) p.acks
  unfolding react
  react_all-acks [] p = refl
  react_all-acks (on_data b ∷ es) p =
      react_all-acks es (push_data c b p)
      ∙ ap (acks_of (stream es)) (push_data-acks b p ∙ sym (acks_of-bytes b p.acks))
      ∙ sym (acks_of-append (map byte b) (stream es) p.acks)
  react_all-acks (on_negotiation cmd opt ∷ es) p =
      react_all-acks es (handle_negotiation c cmd opt p)
      ∙ ap (acks_of (stream es)) (unfold handle_negotiation in write_raw-acks (reply cmd opt) p)
  react_all-acks (on_subnegotiation v ∷ es) p =
      react_all-acks es (handle_subneg c v p) ∙ ap (acks_of (stream es)) (handle_subneg-acks v p)

  pub reader-acks :
      (pieces : List Bytes) (d : Decoder) (p : Port c.State)
      → (reader c (readings pieces) d p).acks
        ≡ acks_of (stream (feed d (joined pieces)).events) p.acks
  unfolding reader
  reader-acks [] d p = unfold feed in refl
  reader-acks (b ∷ bs) d p =
      let fed = feed d b in
      let rest = stream (feed fed.decoder (joined bs)).events in
      reader-acks bs fed.decoder (react_all c fed.events p)
      ∙ ap (acks_of rest) (react_all-acks fed.events p)
      ∙ sym (acks_of-append (stream fed.events) rest p.acks)
      ∙ ap (λ x. acks_of x p.acks) (sym (feed-append d b (joined bs)).0)
