-- ===== src/Network/Granted.antt =====
-- How the acknowledgement of a purge gets from the stream into the command's channel.
use vkt7d.Common.{
  ℕ, suc, ◌==◌, ==_iff, ltb, leb, not, ◌&&◌, ◌||◌, if◌then◌else◌, ◌≡◌, refl, sym, ap, ◌∙◌, Bool,
  Bool-cases, true, false, List, [], ◌∷◌, ◌++◌, arith, Bytes, All, length, get_or, drop, Option,
  none, some, inl, inr,
}
use vkt7d.Telnet.{in_data, Decoder, feed}
use vkt7d.Telnet.Stream.{Item, byte, negotiation, subnegotiation, stream}
use vkt7d.Telnet.Wire.{Segment, parameters, IsSegment, wires, meanings, feed-wires}
use vkt7d.Port.{
  Connection, Port, purge_data, answer_of, client_of, client_from, comport,
  server_notify_modemstate,
}
use vkt7d.Port.Acks.{Channel, pending, offered, delivered, reader}
use vkt7d.Port.Acks.Matched.{client_of-answer}
use vkt7d.Port.Queue.Order.{joined}
use vkt7d.Port.Queue.Filled.{readings}
use vkt7d.Network.Control.{meanings-append}
use vkt7d.Network.Acknowledged.{Acks, heard_ack, acks_of, acks_of-append, reader-acks}

-- The channel of the purge: it is there, and holds nothing but acknowledgements of a purge.
abbrev Good : Option Channel → Type 0
Good none = ⊥
Good (some none) = Unit
Good (some (some b)) = (v : Bytes) × (b ≡ answer_of purge_data ∷ v)

-- It holds one.
abbrev pub Filled : Option Channel → Type 0
Filled (some (some b)) = (v : Bytes) × (b ≡ answer_of purge_data ∷ v)
Filled _ = ⊥

Filled-Good : (ch : Option Channel) → Filled ch → Good ch
Filled-Good none h = absurd h
Filled-Good (some none) h = absurd h
Filled-Good (some (some b)) h = h

abbrev offer : Bytes → Option Channel → Option Channel
offer b none = none
offer b (some ch) = some (offered b ch)

pending-delivered-same :
    (k : ℕ) (b : Bytes) (a : Acks) → pending k (delivered k b a) ≡ offer b (pending k a)
unfolding pending delivered
pending-delivered-same k b [] = refl
pending-delivered-same k b ((m, ch) ∷ a) = elim (Bool-cases (m == k)) [
  | inl same ↦ rw (same, same) refl
  | inr other ↦ rw (other, other) (pending-delivered-same k b a)
]

pending-delivered-other :
    (k m : ℕ) (b : Bytes) (a : Acks) → (m == k) ≡ false → pending k (delivered m b a) ≡ pending k a
unfolding pending delivered
pending-delivered-other k m b [] ne = refl
pending-delivered-other k m b ((l, ch) ∷ a) ne = elim (Bool-cases (l == m)) [
  | inl same ↦
      let apart : (l == k) ≡ false = ap (λ x. x == k) ((==_iff l m).0 same) ∙ ne in
      rw (same, apart) refl
  | inr other ↦ elim (Bool-cases (l == k)) [
    | inl here ↦ rw (other, here) refl
    | inr there ↦ rw (other, there) (pending-delivered-other k m b a ne)
  ]
]

Good-offer :
    (b v : Bytes) (ch : Option Channel)
    → b ≡ answer_of purge_data ∷ v
    → Good ch
    → Filled (offer b ch)
Good-offer b v none same h = absurd h
Good-offer b v (some none) same h = (v, same)
Good-offer b v (some (some x)) same h = h

Filled-offer : (b : Bytes) (ch : Option Channel) → Filled ch → Filled (offer b ch)
Filled-offer b none h = absurd h
Filled-offer b (some none) h = absurd h
Filled-offer b (some (some x)) h = h

-- A parameter block that is given to the purge is its acknowledgement.
delivered-Good :
    (k y : ℕ) (vs : Bytes) (a : Acks)
    → client_of y ≡ k
    → Good (pending purge_data a)
    → Good (pending purge_data (delivered k (y ∷ vs) a))
delivered-Good k y vs a is_k h = elim (Bool-cases (k == purge_data)) [
  | inr other ↦ rw (pending-delivered-other purge_data k (y ∷ vs) a other) h
  | inl same ↦
      let purge : k ≡ purge_data = (==_iff k purge_data).0 same in
      let mine : client_of y ≡ purge_data = is_k ∙ purge in
      let answer : answer_of purge_data ≡ y =
        sym (ap answer_of mine) ∙ client_of-answer y (λ e. absurd (omega (arith, sym mine ∙ e))) in
      rw purge (
        rw (pending-delivered-same purge_data (y ∷ vs) a) (
          Filled-Good (offer (y ∷ vs) (pending purge_data a))
            (Good-offer (y ∷ vs) vs (pending purge_data a) (ap (λ x. x ∷ vs) (sym answer)) h)))
]

delivered-Filled :
    (k : ℕ) (b : Bytes) (a : Acks)
    → Filled (pending purge_data a)
    → Filled (pending purge_data (delivered k b a))
delivered-Filled k b a h = elim (Bool-cases (k == purge_data)) [
  | inr other ↦ rw (pending-delivered-other purge_data k b a other) h
  | inl same ↦
      rw ((==_iff k purge_data).0 same)
        (rw (pending-delivered-same purge_data b a) (Filled-offer b (pending purge_data a) h))
]

either : (P : Acks → Type 0) (b : Bool) (x y : Acks) → P x → P y → P (if b then x else y)
either P true x y h k = h
either P false x y h k = k

heard_ack-Good :
    (v : Bytes) (a : Acks) → Good (pending purge_data a) → Good (pending purge_data (heard_ack v a))
unfolding heard_ack
heard_ack-Good [] a h = h
heard_ack-Good (x ∷ []) a h = h
heard_ack-Good (x ∷ y ∷ vs) a h =
    let P = λ (a : Acks). Good (pending purge_data a) in
    let k = client_of y in
    let given = delivered k (y ∷ vs) a in
    let known = if k == 0 then a else given in
    either P (ltb (length (x ∷ y ∷ vs)) 2 || not (x == comport)) a
      (if (y == server_notify_modemstate) && leb 3 (length (x ∷ y ∷ vs)) then a else known) h
      (either P ((y == server_notify_modemstate) && leb 3 (length (x ∷ y ∷ vs))) a known h
        (either P (k == 0) a given h (delivered-Good k y vs a refl h)))

heard_ack-Filled :
    (v : Bytes) (a : Acks)
    → Filled (pending purge_data a)
    → Filled (pending purge_data (heard_ack v a))
unfolding heard_ack
heard_ack-Filled v a h =
    let P = λ (a : Acks). Filled (pending purge_data a) in
    let k = client_of (get_or v 1 0) in
    let given = delivered k (drop 1 v) a in
    let known = if k == 0 then a else given in
    let is_state = (get_or v 1 0 == server_notify_modemstate) && leb 3 (length v) in
    either P (ltb (length v) 2 || not (get_or v 0 0 == comport)) a (if is_state then a else known) h
      (either P is_state a known h
        (either P (k == 0) a given h (delivered-Filled k (drop 1 v) a h)))

-- The acknowledgement itself fills the channel.
heard_ack-fills :
    (u : Bytes) (a : Acks)
    → Good (pending purge_data a)
    → Filled (pending purge_data (heard_ack (comport ∷ answer_of purge_data ∷ u) a))
unfolding heard_ack answer_of client_of client_from
heard_ack-fills u a h =
    let long : ltb (suc (suc (length u))) 2 ≡ false = ground arith in
    rw long (
      rw (pending-delivered-same purge_data (answer_of purge_data ∷ u) a)
        (Good-offer (answer_of purge_data ∷ u) u (pending purge_data a) refl h))

stream-Good :
    (items : List Item) (a : Acks)
    → Good (pending purge_data a)
    → Good (pending purge_data (acks_of items a))
stream-Good [] a h = h
stream-Good (subnegotiation v ∷ items) a h =
    stream-Good items (heard_ack v a) (heard_ack-Good v a h)
stream-Good (byte b ∷ items) a h = stream-Good items a h
stream-Good (negotiation cmd opt ∷ items) a h = stream-Good items a h

stream-Filled :
    (items : List Item) (a : Acks)
    → Filled (pending purge_data a)
    → Filled (pending purge_data (acks_of items a))
stream-Filled [] a h = h
stream-Filled (subnegotiation v ∷ items) a h =
    stream-Filled items (heard_ack v a) (heard_ack-Filled v a h)
stream-Filled (byte b ∷ items) a h = stream-Filled items a h
stream-Filled (negotiation cmd opt ∷ items) a h = stream-Filled items a h

-- If the server's bytes, in whatever pieces, are well-formed segments with an acknowledgement of a
-- purge among them, then the reader puts an acknowledgement into the channel of the purge.
pub purge-Filled :
    (c : Connection) (pieces : List Bytes) (before behind : List Segment) (u : Bytes) (d : Decoder)
    (p : Port c.State)
    → let gs = before ++ parameters (comport ∷ answer_of purge_data ∷ u) ∷ behind in
      d.phase ≡ in_data
      → All IsSegment gs
      → joined pieces ≡ wires gs
      → pending purge_data p.acks ≡ some none
      → Filled (pending purge_data (reader c (readings pieces) d p).acks)
purge-Filled c pieces before behind u d p between formed cut waits =
    let answer = comport ∷ answer_of purge_data ∷ u in
    let gs = before ++ parameters answer ∷ behind in
    let a = acks_of (meanings before) p.acks in
    let first = stream-Good (meanings before) p.acks (rw waits tt) in
    let whole = stream-Filled (meanings behind) (heard_ack answer a) (heard_ack-fills u a first) in
    let all : (reader c (readings pieces) d p).acks
        ≡ acks_of (meanings behind) (heard_ack answer a) =
      reader-acks c pieces d p
      ∙ ap (λ x. acks_of (stream (feed d x).events) p.acks) cut
      ∙ ap (λ x. acks_of x p.acks)
          ((feed-wires d gs between formed).0 ∙ meanings-append before (parameters answer ∷ behind))
      ∙ acks_of-append (meanings before) (meanings (parameters answer ∷ behind)) p.acks in
    rw all whole
