-- ===== src/Network/Interface.antt =====
-- The network port keeps the laws that the transaction relies on.
use vkt7d.Common.{
  ℕ, ◌==◌, ◌≡◌, refl, ◌∙◌, Bool, Bool-cases, false, true, [], ◌∷◌, ◌++◌, Bytes, length, get_or, not,
  ◌||◌, if◌then◌else◌, inl, inr, Option, none, some,
}
use vkt7d.Errors.{Error, unexpected_ack, Result, ok, err, ◌>>=◌, ◌>>◌, done}
use vkt7d.Telnet.{escape}
use vkt7d.Port.{Connection, Port, answer_of, purge_data}
use vkt7d.Port.Output.{send, write_raw, command_message}
use vkt7d.Port.Output.Delivery.{Working, write_raw-Delivered}
use vkt7d.Port.Acks.{
  Wakeup, acked, failed, closed_port, timer, woken, Channel, pending, written, start, begin_command,
  end_command,
}
use vkt7d.Port.Queue.{drain}
use vkt7d.Port.Mode.{reset_input_buffer}
use vkt7d.Protocol.Transaction.{is_crc_error}
use vkt7d.Protocol.Transaction.Retry.{Observed}
use vkt7d.Network.{
  Wake, acknowledgement, reader_failed, port_done, timeout, wakeup, Surroundings, L, on_link, hear,
  waited, link_command, link_read, link_write, link_reset, network,
}

-- An error that is none of the protocol's.
abbrev Calm : {A : Type 0} → Result A → Type 0
Calm (ok a) = Unit
Calm (err e) = is_crc_error e ≡ false

Calm-error : {A : Type 0} (r : Result A) (e : Error) → Calm r → r ≡ err e → is_crc_error e ≡ false
Calm-error (ok a) e h same = cc
Calm-error (err x) e h same = let is : x ≡ e = cc in rw⁻¹ is h

Calm-if : {A : Type 0} (b : Bool) (x y : Result A) → Calm x → Calm y → Calm (if b then x else y)
Calm-if true x y h k = h
Calm-if false x y h k = k

-- What ends a command from outside, the reader's error, is no CRC error.
abbrev pub NoCrc : Surroundings → Type 0
NoCrc e =
    (s : e.State) (x : Error) → (e.during_command s).0.1 ≡ reader_failed x → is_crc_error x ≡ false

woken-Calm :
    (cmd : ℕ) (u : Wakeup)
    → ((x : Error) → u ≡ failed x → is_crc_error x ≡ false)
    → Calm (woken cmd u)
woken-Calm cmd (acked got) h =
    Calm-if ((length got == 0) || not (get_or got 0 0 == answer_of cmd))
      (err (unexpected_ack cmd got)) (ok tt) refl tt
woken-Calm cmd (failed x) h = h x refl
woken-Calm cmd closed_port h = refl
woken-Calm cmd timer h = refl

wakeup-failed :
    (w : Wake) (ch : Option Channel) (x : Error) → wakeup w ch ≡ failed x → w ≡ reader_failed x
wakeup-failed acknowledgement none x same = cc
wakeup-failed acknowledgement (some none) x same = cc
wakeup-failed acknowledgement (some (some b)) x same = cc
wakeup-failed (reader_failed y) ch x same = cc
wakeup-failed port_done ch x same = cc
wakeup-failed timeout ch x same = cc

module _ (c : Connection) (w : Working c) (e : Surroundings) (quiet : NoCrc e) where
  write_raw-Calm : (b : Bytes) (p : Port c.State) → Calm (write_raw c b p).0
  write_raw-Calm b p = elim (Bool-cases p.closed) [
    | inl closed ↦ unfold write_raw in rw closed refl
    | inr is_open ↦ rw (write_raw-Delivered c w b p is_open).0 tt
  ]

  sent-Calm :
      (n : ℕ) (r : Result (Unit {0}) × Port c.State) (p : Port c.State)
      → Calm r.0
      → Calm (((λ _. r) >>= λ u. done n) p).0
  sent-Calm n (ok u, p') p h = tt
  sent-Calm n (err x, p') p h = h

  send-Calm : (b : Bytes) (p : Port c.State) → Calm (send c b p).0
  unfolding send
  send-Calm [] p = tt
  send-Calm (x ∷ xs) p =
      sent-Calm (length (x ∷ xs)) (write_raw c (escape (x ∷ xs)) p) p
        (write_raw-Calm (escape (x ∷ xs)) p)

  done-Calm : (r : Result ℕ × L c e) (s : L c e) → Calm r.0 → Calm (((λ _. r) >>= λ n. done tt) s).0
  done-Calm (ok n, s') s h = tt
  done-Calm (err x, s') s h = h

  written-Calm :
      (cmd : ℕ) (r : Result (Unit {0}) × Port c.State) → Calm r.0 → Calm (written c cmd r).0
  written-Calm cmd (ok u, p) h = tt
  written-Calm cmd (err x, p) h = h

  begin_command-Calm :
      (cmd : ℕ) (value : Bytes) (p : Port c.State) → Calm (begin_command c cmd value p).0
  unfolding begin_command
  begin_command-Calm cmd value p = started (pending cmd p.acks)
    where
      started : (ch : Option Channel) → Calm (start c cmd value ch p).0
      started (some ch) = refl
      started none =
          written-Calm cmd (write_raw c (command_message cmd value) _)
            (write_raw-Calm (command_message cmd value) (record p { acks = (cmd, none) ∷ p.acks }))

  waited-Calm : (cmd : ℕ) (r : Result (Unit {0}) × L c e) → Calm r.0 → Calm (waited c e cmd r).0
  waited-Calm cmd (err x, s) h = h
  waited-Calm cmd (ok u, s) h =
      let w = (e.during_command s.env).0.1 in
      let ch =
        pending cmd
          (hear c e (e.during_command s.env).0.0
            (record s { env = (e.during_command s.env).1 })).port.acks in
      unfold end_command in
      woken-Calm cmd (wakeup w ch) (λ x same. quiet s.env x (wakeup-failed w ch x same))

  drained-Calm :
      (r : Result (Unit {0}) × L c e) (s : L c e)
      → Calm r.0
      → Calm (((λ _. r) >> on_link c e drain) s).0
  drained-Calm (ok u, s') s h = tt
  drained-Calm (err x, s') s h = h

  link_write-Calm : (b : Bytes) (s : L c e) → Calm (link_write c e b s).0
  unfolding link_write
  link_write-Calm b s =
      let noted = record s { history = s.history ++ b ∷ [] } in
      done-Calm (on_link c e (send c b) noted) noted (send-Calm b s.port)

  link_reset-Calm : (s : L c e) → Calm (link_reset c e s).0
  unfolding link_reset link_command reset_input_buffer
  link_reset-Calm s = drained-Calm (link_command c e purge_data (1 ∷ []) s) s (
      waited-Calm purge_data (on_link c e (begin_command c purge_data (1 ∷ [])) s)
        (begin_command-Calm purge_data (1 ∷ []) s.port))

  -- Only `Write` adds to the history.
  waited-history :
      (cmd : ℕ) (r : Result (Unit {0}) × L c e) → (waited c e cmd r).1.history ≡ r.1.history
  waited-history cmd (err x, s) = refl
  waited-history cmd (ok u, s) = unfold hear in refl

  drained-history :
      (r : Result (Unit {0}) × L c e) (s : L c e)
      → (((λ _. r) >> on_link c e drain) s).1.history ≡ r.1.history
  drained-history (ok u, s') s = refl
  drained-history (err x, s') s = refl

  done-history :
      (r : Result ℕ × L c e) (s : L c e) → (((λ _. r) >>= λ n. done tt) s).1.history ≡ r.1.history
  done-history (ok n, s') s = refl
  done-history (err x, s') s = refl

  pub write_sends : (b : Bytes) (s : L c e) → (link_write c e b s).1.history ≡ s.history ++ b ∷ []
  unfolding link_write
  write_sends b s =
      let noted = record s { history = s.history ++ b ∷ [] } in
      done-history (on_link c e (send c b) noted) noted

  pub read_keeps : (s : L c e) → (link_read c e s).1.history ≡ s.history
  unfolding link_read hear
  read_keeps s = refl

  pub reset_keeps : (s : L c e) → (link_reset c e s).1.history ≡ s.history
  unfolding link_reset link_command reset_input_buffer
  reset_keeps s =
      drained-history (link_command c e purge_data (1 ∷ []) s) s
      ∙ waited-history purge_data (on_link c e (begin_command c purge_data (1 ∷ [])) s)

  pub write_error :
      (b : Bytes) (s : L c e) (x : Error) → (link_write c e b s).0 ≡ err x → is_crc_error x ≡ false
  write_error b s x = Calm-error (link_write c e b s).0 x (link_write-Calm b s)

  pub reset_error : (s : L c e) (x : Error) → (link_reset c e s).0 ≡ err x → is_crc_error x ≡ false
  reset_error s x = Calm-error (link_reset c e s).0 x (link_reset-Calm s)

  pub timeout_error :
      (t : ℕ) (s : L c e) (x : Error)
      → ((network c e).set_read_timeout t s).0 ≡ err x
      → is_crc_error x ≡ false
  timeout_error t s x same = cc

  -- The laws, with the history as what was handed to `Write`.
  unfoldable pub network_Observed : Observed (network c e)
  network_Observed = record {
    sent = λ s. s.history;
    write_sends = write_sends;
    read_keeps = read_keeps;
    reset_keeps = reset_keeps;
    timeout_keeps = λ t s. refl;
    write_error = write_error;
    reset_error = reset_error;
    timeout_error = timeout_error;
  }
