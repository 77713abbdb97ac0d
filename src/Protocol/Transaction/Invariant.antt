-- ===== src/Protocol/Transaction/Invariant.antt =====
-- What every operation of the port keeps, a transaction keeps.
use vkt7d.Common.{ℕ, zero, suc, Bool-cases, [], ◌∷◌, ◌++◌, Bytes, get_or, inl, inr}
use vkt7d.Errors.{Result, ok, err, M, ◌>>=◌, ◌>>◌, wrap, attempt}
use vkt7d.Protocol.Response.{Verdict, more, stop, examine}
use vkt7d.Protocol.Transaction.{
  SerialPort, ReadEvent, received, eof, broken, receive, turn, decided, read_response, is_crc_error,
  read_timeout, settle, attempts, tx,
}

module _ (p : SerialPort) (P : p.State → Type 0)
    (on_timeout : (t : ℕ) (s : p.State) → P s → P (p.set_read_timeout t s).1)
    (on_reset : (s : p.State) → P s → P (p.reset_input_buffer s).1)
    (on_write : (b : Bytes) (s : p.State) → P s → P (p.write b s).1)
    (on_read : (s : p.State) → P s → P (p.read s).1) where
  abbrev Keeps : {A : Type 0} → M p.State A → Type 0
  Keeps m = (s : p.State) → P s → P (m s).1

  after-Keeps :
      {A B : Type 0} (r : Result A × p.State) (s : p.State) (k : A → M p.State B)
      → P r.1
      → ((a : A) → Keeps (k a))
      → P (((λ _. r) >>= k) s).1
  after-Keeps (ok a, s') s k h rest = rest a s' h
  after-Keeps (err e, s') s k h rest = h

  wrapped-Keeps :
      {B : Type 0} (r : Result (Unit {0}) × p.State) (s : p.State) (k : M p.State B)
      → P r.1
      → Keeps k
      → P ((wrap (λ _. r) >> k) s).1
  wrapped-Keeps (ok a, s') s k h rest = rest s' h
  wrapped-Keeps (err e, s') s k h rest = h

  decided-Keeps :
      (again : Bytes → M p.State Bytes) (out : Bytes) (v : Verdict)
      → Keeps (again out)
      → Keeps (decided p again out v)
  unfolding decided
  decided-Keeps again out more ih s h = ih s h
  decided-Keeps again out (stop r) ih s h = h

  turn-Keeps :
      (again : Bytes → M p.State Bytes) (fn : ℕ) (out : Bytes) (event : ReadEvent)
      → ((out' : Bytes) → Keeps (again out'))
      → Keeps (turn p again fn out event)
  unfolding turn
  turn-Keeps again fn out (broken e) ih s h = h
  turn-Keeps again fn out eof ih s h = ih out s h
  turn-Keeps again fn out (received []) ih s h = ih out s h
  turn-Keeps again fn out (received (b ∷ bs)) ih s h =
      decided-Keeps again (out ++ b ∷ bs) (examine fn (out ++ b ∷ bs)) (ih (out ++ b ∷ bs)) s h

  receive-Keeps : (fn n : ℕ) (out : Bytes) → Keeps (receive p fn n out)
  unfolding receive
  receive-Keeps fn zero out s h = h
  receive-Keeps fn (suc n) out s h =
      turn-Keeps (receive p fn n) fn out (p.read s).0 (λ out'. receive-Keeps fn n out') (p.read s).1
        (on_read s h)

  read_response-Keeps : (req : Bytes) → Keeps (read_response p req)
  unfolding read_response
  read_response-Keeps req s h = receive-Keeps (get_or req 1 0) (p.turns s) [] s h

  settle-Keeps :
      (again : M p.State Bytes) (r : Result Bytes) → Keeps again → Keeps (settle p again r)
  unfolding settle
  settle-Keeps again (ok b) ih s h = h
  settle-Keeps again (err e) ih s h = elim (Bool-cases (is_crc_error e)) [
    | inl crc ↦ rw crc (wrapped-Keeps (p.reset_input_buffer s) s again (on_reset s h) ih)
    | inr other ↦ rw other h
  ]

  attempts-Keeps : (left : ℕ) (req : Bytes) → Keeps (attempts p left req)
  unfolding attempts
  attempts-Keeps zero req s h =
      after-Keeps (p.write _ s) s (λ _. read_response p req) (on_write _ s h)
        (λ _. read_response-Keeps req)
  attempts-Keeps (suc left) req s h =
      after-Keeps (p.write _ s) s
        (λ _. attempt (read_response p req) >>= λ r. settle p (attempts p left req) r)
        (on_write _ s h)
        (λ _ s' h'.
          settle-Keeps (attempts p left req) (read_response p req s').0 (attempts-Keeps left req)
            (read_response p req s').1 (read_response-Keeps req s' h'))

  pub tx-Keeps : (timeout : ℕ) (req : Bytes) (s : p.State) → P s → P (tx p timeout req s).1
  unfolding tx
  tx-Keeps timeout req s h =
      let reset = wrap p.reset_input_buffer in
      wrapped-Keeps (p.set_read_timeout (read_timeout timeout) s) s
        (reset >> (reset >> attempts p 1 req)) (on_timeout (read_timeout timeout) s h)
        (λ s1 h1.
          wrapped-Keeps (p.reset_input_buffer s1) s1 (reset >> attempts p 1 req) (on_reset s1 h1)
            (λ s2 h2.
              wrapped-Keeps (p.reset_input_buffer s2) s2 (attempts p 1 req) (on_reset s2 h2)
                (attempts-Keeps 1 req)))
