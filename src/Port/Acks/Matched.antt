-- ===== src/Port/Acks/Matched.antt =====
-- Every acknowledgement that a command can find is its own, whatever the reader does in between.
use vkt7d.Common.{
  ℕ, if◌then◌else◌, ◌==◌, ltb, leb, not, ◌≡◌, ◌≤◌, ◌≢◌, refl, sym, ◌∙◌, Bool, true, false,
  Bool-cases, Option, none, some, List, [], ◌∷◌, ◌++◌, arith, Bytes, All, length, get_or, ==_iff,
  inl, inr, ◌||◌, ◌&&◌,
}
use vkt7d.Errors.{Result, ok, err}
use vkt7d.Telnet.{Event, on_data, on_negotiation, on_subnegotiation}
use vkt7d.Port.{
  Connection, Port, answer_command, client_from, answer_of, client_of, comport,
  server_notify_modemstate,
}
use vkt7d.Port.Output.{write_raw, command_message, reply}
use vkt7d.Port.Acks.{
  Channel, pending, removed, offered, delivered, Wakeup, acked, woken, begin_command, end_command,
  handle_subneg, handle_negotiation, push_data, react, written, start, acknowledge,
}

-- One step of the two goroutines: a command starts or ends, or the reader hears something.
pub data Action : Type 0 where
  begins : ℕ → Bytes → Action
  hears : Event → Action
  ends : ℕ → Wakeup → Action

-- A channel is empty or holds an acknowledgement of its command.
abbrev IsMatched : ℕ × Channel → Type 0
IsMatched (cmd, none) = Unit {0}
IsMatched (cmd, some b) = (1 ≤ length b) × (get_or b 0 0 ≡ answer_of cmd)

abbrev AllMatched : List (ℕ × Channel) → Type 0
AllMatched = All IsMatched

-- The search by answer finds a command whose answer it is.
client_from-answer :
    (t : List (ℕ × ℕ)) (a : ℕ)
    → All (λ e. answer_of e.0 ≡ e.1) t
    → client_from t a ≢ 0
    → answer_of (client_from t a) ≡ a
unfolding client_from
client_from-answer [] a h ne = absurd (ne refl)
client_from-answer ((k, v) ∷ t) a h ne = elim (Bool-cases (v == a)) [
  | inl here ↦ rw here (h.0 ∙ (==_iff v a).0 here)
  | inr there ↦ rw there (client_from-answer t a h.1 (rw there at ne))
]

pub client_of-answer : (a : ℕ) → client_of a ≢ 0 → answer_of (client_of a) ≡ a
unfolding client_of
client_of-answer a ne =
    client_from-answer answer_command a
      (unfold answer_of in
        ((
          refl,
          (
            refl,
            (refl, (refl, (refl, (refl, (refl, (refl, (refl, (refl, (refl, (refl, tt)))))))))),
          ),
        )))
      ne

removed-AllMatched :
    (cmd : ℕ) (acks : List (ℕ × Channel)) → AllMatched acks → AllMatched (removed cmd acks)
unfolding removed
removed-AllMatched cmd [] h = tt
removed-AllMatched cmd ((c, ch) ∷ acks) h = elim (Bool-cases (c == cmd)) [
  | inl same ↦ rw same (removed-AllMatched cmd acks h.1)
  | inr other ↦ rw other (h.0, removed-AllMatched cmd acks h.1)
]

offered-IsMatched :
    (c : ℕ) (ch : Channel) (b : Bytes)
    → IsMatched (c, ch)
    → IsMatched (c, some b)
    → IsMatched (c, offered b ch)
offered-IsMatched c none b h k = k
offered-IsMatched c (some a) b h k = h

delivered-AllMatched :
    (cmd : ℕ) (b : Bytes) (acks : List (ℕ × Channel))
    → IsMatched (cmd, some b)
    → AllMatched acks
    → AllMatched (delivered cmd b acks)
unfolding delivered
delivered-AllMatched cmd b [] k h = tt
delivered-AllMatched cmd b ((c, ch) ∷ acks) k h = elim (Bool-cases (c == cmd)) [
  | inl same ↦
      let e : c ≡ cmd = (==_iff c cmd).0 same in
      rw same (offered-IsMatched c ch b h.0 (rw e k), h.1)
  | inr other ↦ rw other (h.0, delivered-AllMatched cmd b acks k h.1)
]

pending-IsMatched :
    (cmd : ℕ) (acks : List (ℕ × Channel)) (b : Bytes)
    → AllMatched acks
    → pending cmd acks ≡ some (some b)
    → IsMatched (cmd, some b)
unfolding pending
pending-IsMatched cmd [] b h e = cc
pending-IsMatched cmd ((c, ch) ∷ acks) b h e = elim (Bool-cases (c == cmd)) [
  | inl same ↦
      let name : c ≡ cmd = (==_iff c cmd).0 same in
      let full : ch ≡ some b = cc (rw same at e) in rw (full, name) at h.0
  | inr other ↦ pending-IsMatched cmd acks b h.1 (rw other at e)
]

module _ (c : Connection) where
  open c use {State}

  unfoldable pub act : Action → Port State → Port State
  act (begins cmd value) p = (begin_command c cmd value p).1
  act (hears e) p = react c e p
  act (ends cmd w) p = (end_command c cmd w p).1

  unfoldable pub run : List Action → Port State → Port State
  unfolding act
  run [] p = p
  run (a ∷ actions) p = run actions (act a p)

  write_raw-acks : (b : Bytes) (p : Port State) → (write_raw c b p).1.acks ≡ p.acks
  unfolding write_raw
  write_raw-acks b p = elim (Bool-cases p.closed) [ inl e ↦ rw e refl | inr e ↦ rw e refl ]

  written-AllMatched :
      (cmd : ℕ) (r : Result (Unit {0})) (p : Port State)
      → AllMatched p.acks
      → AllMatched (written c cmd (r, p)).1.acks
  written-AllMatched cmd (ok u) p h = h
  written-AllMatched cmd (err e) p h = removed-AllMatched cmd p.acks h

  start-AllMatched :
      (cmd : ℕ) (value : Bytes) (ch : Option Channel) (p : Port State)
      → AllMatched p.acks
      → AllMatched (start c cmd value ch p).1.acks
  start-AllMatched cmd value (some ch) p h = h
  start-AllMatched cmd value none p h =
      let q = record p { acks = (cmd, none) ∷ p.acks } in
      let out = write_raw c (command_message cmd value) q in
      written-AllMatched cmd out.0 out.1 (rw (write_raw-acks (command_message cmd value) q) (tt, h))

  AllMatched-if :
      (test : Bool) (p q : Port State)
      → AllMatched p.acks
      → AllMatched q.acks
      → AllMatched (if test then p else q).acks
  AllMatched-if true p q h k = h
  AllMatched-if false p q h k = k

  acknowledge-AllMatched :
      (cmd : ℕ) (b : Bytes) (p : Port State)
      → (cmd ≢ 0 → IsMatched (cmd, some b))
      → AllMatched p.acks
      → AllMatched (acknowledge c cmd b p).acks
  acknowledge-AllMatched cmd b p k h = elim (Bool-cases (cmd == 0)) [
    | inl missing ↦ rw missing h
    | inr known ↦ rw known (delivered-AllMatched cmd b p.acks (k (λ e. ground (arith, known, e))) h)
  ]

  handle_subneg-AllMatched :
      (v : Bytes) (p : Port State) → AllMatched p.acks → AllMatched (handle_subneg c v p).acks
  unfolding handle_subneg
  handle_subneg-AllMatched [] p h = h
  handle_subneg-AllMatched (x ∷ []) p h = h
  handle_subneg-AllMatched (x ∷ y ∷ ys) p h =
      let v = x ∷ y ∷ ys in
      let state = record p { modem = get_or v 2 0 } in
      let known = acknowledge c (client_of y) (y ∷ ys) p in
      let is_state = (y == server_notify_modemstate) && leb 3 (length v) in
      let answered =
        acknowledge-AllMatched (client_of y) (y ∷ ys) p
          (λ ne. (omega arith, sym (client_of-answer y ne))) h in
      AllMatched-if (ltb (length v) 2 || not (x == comport)) p (if is_state then state else known) h
        (AllMatched-if is_state state known h answered)

  react-AllMatched :
      (e : Event) (p : Port State) → AllMatched p.acks → AllMatched (react c e p).acks
  unfolding react
  react-AllMatched (on_data []) p h = unfold push_data in h
  react-AllMatched (on_data (b ∷ bs)) p h =
      unfold push_data in
      AllMatched-if p.closed p (record p { chunks = p.chunks ++ (b ∷ bs) ∷ [] }) h h
  react-AllMatched (on_negotiation cmd opt) p h =
      unfold handle_negotiation in rw (write_raw-acks (reply cmd opt) p) h
  react-AllMatched (on_subnegotiation v) p h = handle_subneg-AllMatched v p h

  act-AllMatched : (a : Action) (p : Port State) → AllMatched p.acks → AllMatched (act a p).acks
  unfolding act
  act-AllMatched (begins cmd value) p h =
      unfold begin_command in start-AllMatched cmd value (pending cmd p.acks) p h
  act-AllMatched (hears e) p h = react-AllMatched e p h
  act-AllMatched (ends cmd w) p h = unfold end_command in removed-AllMatched cmd p.acks h

  run-AllMatched :
      (actions : List Action) (p : Port State) → AllMatched p.acks → AllMatched (run actions p).acks
  unfolding run
  run-AllMatched [] p h = h
  run-AllMatched (a ∷ actions) p h = run-AllMatched actions (act a p) (act-AllMatched a p h)

  woken-matched : (cmd : ℕ) (b : Bytes) → IsMatched (cmd, some b) → woken cmd (acked b) ≡ ok tt
  woken-matched cmd b h = ground (arith, h.0, h.1)

  -- From a port with no command pending, after any sequence of commands that start and end and of
  -- messages that the reader hears, whatever the server says: an acknowledgement that waits in the
  -- channel of a command is accepted by that command. `command` never fails with an unexpected
  -- acknowledgement.
  pub ack_accepted :
      (actions : List Action) (p : Port State) (cmd : ℕ) (b : Bytes)
      → p.acks ≡ []
      → pending cmd (run actions p).acks ≡ some (some b)
      → (end_command c cmd (acked b) (run actions p)).0 ≡ ok tt
  unfolding end_command
  ack_accepted actions p cmd b empty found =
      let matched = run-AllMatched actions p (rw empty tt) in
      woken-matched cmd b (pending-IsMatched cmd (run actions p).acks b matched found)
