-- ===== src/Port/Acks.antt =====
-- rfc2217.go: the commands that wait for an acknowledgement: `command`, `removeAck`, `handleSubneg`,
-- and `reader`'s callbacks. A command is two steps, its start and its end, since the reader runs in
-- between; what `select` finds is an argument of the end.
pub mod Matched
use vkt7d.Common.{
  ℕ, ◌==◌, ltb, leb, Bool, true, false, not, ◌&&◌, ◌||◌, if◌then◌else◌, Option, none, some, List,
  [], ◌∷◌, ◌++◌, Bytes, length, get_or, drop,
}
use vkt7d.Errors.{
  Error, Result, ok, err, end_of_file, already_pending, unexpected_ack, ack_timed_out, M,
}
use vkt7d.Telnet.{Event, on_data, on_negotiation, on_subnegotiation, Decoder, feed}
use vkt7d.Port.{Connection, Port, comport, server_notify_modemstate, answer_of, client_of}
use vkt7d.Port.Output.{write_raw, command_message, reply}

-- A channel of capacity one: what it holds.
abbrev pub Channel : Type 0
Channel = Option Bytes

unfoldable pub pending : ℕ → List (ℕ × Channel) → Option Channel
pending cmd [] = none
pending cmd ((c, ch) ∷ acks) = if c == cmd then some ch else pending cmd acks

-- `delete(p.acks, cmd)`
unfoldable pub removed : ℕ → List (ℕ × Channel) → List (ℕ × Channel)
removed cmd [] = []
removed cmd ((c, ch) ∷ acks) =
    let rest = removed cmd acks in if c == cmd then rest else (c, ch) ∷ rest

-- A send that gives up if the channel is full.
abbrev pub offered : Bytes → Channel → Channel
offered b none = some b
offered b (some a) = some a

unfoldable pub delivered : ℕ → Bytes → List (ℕ × Channel) → List (ℕ × Channel)
delivered cmd b [] = []
delivered cmd b ((c, ch) ∷ acks) =
    if c == cmd then (c, offered b ch) ∷ acks else (c, ch) ∷ delivered cmd b acks

-- What `select` finds: an acknowledgement, the reader's error, a closed port, the end of the timer.
pub data Wakeup : Type 0 where
  acked : Bytes → Wakeup
  failed : Error → Wakeup
  closed_port : Wakeup
  timer : Wakeup

abbrev pub woken : ℕ → Wakeup → Result (Unit {0})
woken cmd (acked got) =
    if (length got == 0) || not (get_or got 0 0 == answer_of cmd)
    then err (unexpected_ack cmd got)
    else ok tt
woken cmd (failed e) = err e
woken cmd closed_port = err end_of_file
woken cmd timer = err (ack_timed_out cmd)

abbrev remove_ack : {C : Type 0} → ℕ → Port C → Port C
remove_ack cmd p = record p { acks = removed cmd p.acks }

-- What the connection's `Read` gives.
pub data Reading : Type 0 where
  got : Bytes → Reading
  gone : Error → Reading

module _ (c : Connection) where
  open c use {State}

  abbrev pub written : ℕ → Result (Unit {0}) × Port State → Result (Unit {0}) × Port State
  written cmd (ok u, p) = (ok tt, p)
  written cmd (err e, p) = (err e, remove_ack cmd p)

  abbrev pub start : ℕ → Bytes → Option Channel → M (Port State) (Unit {0})
  start cmd value (some ch) p = (err (already_pending cmd), p)
  start cmd value none p =
      written cmd
        (write_raw c (command_message cmd value) (record p { acks = (cmd, none) ∷ p.acks }))

  -- `command` up to the select.
  unfoldable pub begin_command : ℕ → Bytes → M (Port State) (Unit {0})
  begin_command cmd value p = start cmd value (pending cmd p.acks) p

  -- `command` from the select on.
  unfoldable pub end_command : ℕ → Wakeup → M (Port State) (Unit {0})
  end_command cmd w p = (woken cmd w, remove_ack cmd p)

  abbrev waiting :
      (Port State → Wakeup × Port State)
      → ℕ
      → Result (Unit {0}) × Port State
      → Result (Unit {0}) × Port State
  waiting wait cmd (err e, p) = (err e, p)
  waiting wait cmd (ok u, p) = let (w, p') = wait p in end_command cmd w p'

  -- The whole of `command`. `wait` is what happens until the select returns, the reader's work
  -- included, and what it finds.
  unfoldable pub command :
      (Port State → Wakeup × Port State) → ℕ → Bytes → M (Port State) (Unit {0})
  unfolding begin_command end_command
  command wait cmd value p = waiting wait cmd (begin_command cmd value p)

  abbrev pub acknowledge : ℕ → Bytes → Port State → Port State
  acknowledge cmd b p = if cmd == 0 then p else record p { acks = delivered cmd b p.acks }

  unfoldable pub handle_subneg : Bytes → Port State → Port State
  handle_subneg v p =
      if ltb (length v) 2 || not (get_or v 0 0 == comport)
      then p
      else if (get_or v 1 0 == server_notify_modemstate) && leb 3 (length v)
      then record p { modem = get_or v 2 0 }
      else acknowledge (client_of (get_or v 1 0)) (drop 1 v) p

  unfoldable pub handle_negotiation : ℕ → ℕ → Port State → Port State
  handle_negotiation cmd opt p = (write_raw c (reply cmd opt) p).1

  -- A full channel of 64 chunks makes the reader wait; here the chunk that waits is in the list.
  -- On a closed port the chunk is dropped.
  unfoldable pub push_data : Bytes → Port State → Port State
  push_data [] p = p
  push_data (b ∷ bs) p = if p.closed then p else record p { chunks = p.chunks ++ (b ∷ bs) ∷ [] }

  -- The three callbacks of `feed`.
  unfoldable pub react : Event → Port State → Port State
  react (on_data b) = push_data b
  react (on_negotiation cmd opt) = handle_negotiation cmd opt
  react (on_subnegotiation v) = handle_subneg v

  abbrev pub react_all : List Event → Port State → Port State
  react_all [] p = p
  react_all (e ∷ es) p = react_all es (react e p)

  abbrev pub failing : Error → Option Error → Option Error
  failing e none = some e
  failing e (some x) = some x

  -- The goroutine `reader`, over what its reads give; an error ends it.
  unfoldable pub reader : List Reading → Decoder → Port State → Port State
  unfolding react feed
  reader [] d p = p
  reader (got b ∷ rs) d p = let fed = feed d b in reader rs fed.decoder (react_all fed.events p)
  reader (gone e ∷ rs) d p = record p { failure = failing e p.failure }
