-- ===== src/Protocol/Transaction/Retry.antt =====
-- What `tx` sends: the same bytes once, or twice after a CRC error, and never more.
use vkt7d.Common.{
  ℕ, zero, suc, ◌≤◌, ◌≡◌, refl, sym, ap, ◌∙◌, Bool, true, false, Bool-cases, List, [], ◌∷◌, ◌++◌,
  append-nil, append_assoc, arith, Bytes, inl, inr,
}
use vkt7d.Errors.{Error, Result, ok, err, M, ◌>>=◌, ◌>>◌, wrap, attempt}
use vkt7d.Protocol.{request_prefix}
use vkt7d.Protocol.Transaction.{
  SerialPort, ReadEvent, receive, turn, decided, read_response, is_crc_error, read_timeout, settle,
  attempts, tx,
}
use vkt7d.Protocol.Response.{Verdict, more, stop}

-- A port whose writes can be observed: `sent` is what was handed to `Write` so far. Only `write`
-- adds to it, and the port itself reports no CRC error.
pub record Observed (p : SerialPort) : Type 0 where
  pub sent : p.State → List Bytes
  pub write_sends : (b : Bytes) (s : p.State) → sent (p.write b s).1 ≡ sent s ++ b ∷ []
  pub read_keeps : (s : p.State) → sent (p.read s).1 ≡ sent s
  pub reset_keeps : (s : p.State) → sent (p.reset_input_buffer s).1 ≡ sent s
  pub timeout_keeps : (t : ℕ) (s : p.State) → sent (p.set_read_timeout t s).1 ≡ sent s
  pub write_error :
      (b : Bytes) (s : p.State) (e : Error) → (p.write b s).0 ≡ err e → is_crc_error e ≡ false
  pub reset_error :
      (s : p.State) (e : Error) → (p.reset_input_buffer s).0 ≡ err e → is_crc_error e ≡ false
  pub timeout_error :
      (t : ℕ) (s : p.State) (e : Error)
      → (p.set_read_timeout t s).0 ≡ err e
      → is_crc_error e ≡ false

abbrev pub times : ℕ → Bytes → List Bytes
times zero b = []
times (suc n) b = b ∷ times n b

abbrev reports_crc : Result Bytes → Bool
reports_crc (ok b) = false
reports_crc (err e) = is_crc_error e

module _ (p : SerialPort) (o : Observed p) where
  open o use {
    sent, write_sends, read_keeps, reset_keeps, timeout_keeps, write_error, reset_error,
    timeout_error,
  }

  receive-sent : (fn n : ℕ) (out : Bytes) (s : p.State) → sent (receive p fn n out s).1 ≡ sent s
  unfolding receive
  receive-sent fn zero out s = refl
  receive-sent fn (suc n) out s =
      turn-sent (p.read s).0 (p.read s).1 (λ out' s'. receive-sent fn n out' s') ∙ read_keeps s
    where
      decided-sent :
          (out : Bytes) (v : Verdict) (s : p.State)
          → ((s' : p.State) → sent (receive p fn n out s').1 ≡ sent s')
          → sent (decided p (receive p fn n) out v s).1 ≡ sent s
      decided-sent out more s ih = unfold decided in ih s
      decided-sent out (stop r) s ih = unfold decided in refl

      turn-sent :
          (event : ReadEvent) (s : p.State)
          → ((out' : Bytes) (s' : p.State) → sent (receive p fn n out' s').1 ≡ sent s')
          → sent (turn p (receive p fn n) fn out event s).1 ≡ sent s
      turn-sent (ReadEvent.received []) s ih = unfold turn in ih out s
      turn-sent (ReadEvent.received (b ∷ bs)) s ih = unfold turn in decided-sent _ _ s (ih _)
      turn-sent ReadEvent.eof s ih = unfold turn in ih out s
      turn-sent (ReadEvent.broken e) s ih = unfold turn in refl

  read_response-sent : (req : Bytes) (s : p.State) → sent (read_response p req s).1 ≡ sent s
  unfolding read_response
  read_response-sent req s = receive-sent _ (p.turns s) [] s

  -- From `s` the outcome is `r`. What was sent is `m`, at most `limit` times; at least `least`
  -- times if there is a response, and `limit` times if the outcome is a CRC error.
  pub record Sent (m : Bytes) (least limit : ℕ) (s : p.State) (r : Result Bytes × p.State)
      : Type 0 where
    pub count : ℕ
    pub at_most : count ≤ limit
    pub log : sent r.1 ≡ sent s ++ times count m
    pub answered : (b : Bytes) → r.0 ≡ ok b → least ≤ count
    pub gave_up : (e : Error) → r.0 ≡ err e → is_crc_error e ≡ true → count ≡ limit

  abbrev message : Bytes → Bytes
  message req = request_prefix ∷ request_prefix ∷ req

  -- An operation that sends nothing and reports no CRC error, in front of one that sends.
  Sent-after :
      (m : Bytes) (least limit : ℕ) (s s1 : p.State) (w : Result (Unit {0})) (k : M p.State Bytes)
      → sent s1 ≡ sent s
      → ((e : Error) → w ≡ err e → is_crc_error e ≡ false)
      → Sent m least limit s1 (k s1)
      → Sent m least limit s ((wrap (λ s. (w, s1)) >> k) s)
  Sent-after m least limit s s1 (ok u) k same no_crc rest = record {
    count = rest.count;
    at_most = rest.at_most;
    log = rest.log ∙ ap (λ l. l ++ times rest.count m) same;
    answered = rest.answered;
    gave_up = rest.gave_up;
  }
  Sent-after m least limit s s1 (err e) k same no_crc rest = record {
    count = 0;
    at_most = omega arith;
    log = same ∙ sym (append-nil (sent s));
    answered = λ b h. cc;
    gave_up = λ x h c. cc (ap reports_crc h, no_crc e refl, c);
  }

  Sent-write :
      (m : Bytes) (limit : ℕ) (s s1 : p.State) (w : Result (Unit {0})) (k : M p.State Bytes)
      → sent s1 ≡ sent s ++ m ∷ []
      → ((e : Error) → w ≡ err e → is_crc_error e ≡ false)
      → Sent m 0 limit s1 (k s1)
      → Sent m 1 (suc limit) s (((λ s. (w, s1)) >> k) s)
  Sent-write m limit s s1 (ok u) k more_sent no_crc rest = record {
    count = suc rest.count;
    at_most = omega (arith, rest.at_most);
    log =
        rest.log
        ∙ ap (λ l. l ++ times rest.count m) more_sent
        ∙ append_assoc (sent s) (m ∷ []) (times rest.count m);
    answered = λ b h. omega arith;
    gave_up = λ e h c. ap suc (rest.gave_up e h c);
  }
  Sent-write m limit s s1 (err e) k more_sent no_crc rest = record {
    count = 1;
    at_most = omega arith;
    log = more_sent;
    answered = λ b h. cc;
    gave_up = λ x h c. cc (ap reports_crc h, no_crc e refl, c);
  }

  settle-Sent :
      (m : Bytes) (limit : ℕ) (s s1 : p.State) (again : M p.State Bytes) (r : Result Bytes)
      → sent s1 ≡ sent s
      → ((s' : p.State) → Sent m 1 limit s' (again s'))
      → Sent m 0 limit s (settle p again r s1)
  unfolding settle
  settle-Sent m limit s s1 again (ok b) same ih = record {
    count = 0;
    at_most = omega arith;
    log = same ∙ sym (append-nil (sent s));
    answered = λ b h. omega arith;
    gave_up = λ e h c. cc;
  }
  settle-Sent m limit s s1 again (err e) same ih = elim (Bool-cases (is_crc_error e)) [
    | inl crc ↦
        let s2 = (p.reset_input_buffer s1).1 in
        let later =
          Sent-after m 1 limit s s2 (p.reset_input_buffer s1).0 again (reset_keeps s1 ∙ same)
            (reset_error s1) (ih s2) in
        rw crc (record {
          count = later.count;
          at_most = later.at_most;
          log = later.log;
          answered = λ b h. omega arith;
          gave_up = later.gave_up;
        })
    | inr other ↦ rw other (record {
      count = 0;
      at_most = omega arith;
      log = same ∙ sym (append-nil (sent s));
      answered = λ b h. omega arith;
      gave_up = λ x h c. cc (ap reports_crc h, other, c);
    })
  ]

  attempts-Sent :
      (left : ℕ) (req : Bytes) (s : p.State)
      → Sent (message req) 1 (suc left) s (attempts p left req s)
  unfolding attempts
  attempts-Sent zero req s =
      let s1 = (p.write (message req) s).1 in
      Sent-write (message req) 0 s s1 (p.write (message req) s).0 (read_response p req)
        (write_sends _ s) (write_error _ s)
        (record {
          count = 0;
          at_most = omega arith;
          log = read_response-sent req s1 ∙ sym (append-nil (sent s1));
          answered = λ b h. omega arith;
          gave_up = λ e h c. refl;
        })
  attempts-Sent (suc left) req s =
      let s1 = (p.write (message req) s).1 in
      Sent-write (message req) (suc left) s s1 (p.write (message req) s).0
        (attempt (read_response p req) >>= settle p (attempts p left req)) (write_sends _ s)
        (write_error _ s)
        (settle-Sent (message req) (suc left) s1 (read_response p req s1).1 (attempts p left req)
          (read_response p req s1).0 (read_response-sent req s1) (λ s'. attempts-Sent left req s'))

  -- One transaction, of any request, one that writes to the meter included, hands the port nothing
  -- but the request behind its two 0xFF bytes: at most twice; at least once if there is a response;
  -- and exactly twice before it reports a CRC error.
  pub tx-Sent :
      (timeout : ℕ) (req : Bytes) (s : p.State) → Sent (message req) 1 2 s (tx p timeout req s)
  unfolding tx
  tx-Sent timeout req s =
      let t = read_timeout timeout in
      let s1 = (p.set_read_timeout t s).1 in
      let s2 = (p.reset_input_buffer s1).1 in
      let s3 = (p.reset_input_buffer s2).1 in
      let m = message req in
      let third =
        Sent-after m 1 2 s2 s3 (p.reset_input_buffer s2).0 (attempts p 1 req) (reset_keeps s2)
          (reset_error s2) (attempts-Sent 1 req s3) in
      let second =
        Sent-after m 1 2 s1 s2 (p.reset_input_buffer s1).0
          (wrap p.reset_input_buffer >> attempts p 1 req) (reset_keeps s1) (reset_error s1) third in
      Sent-after m 1 2 s s1 (p.set_read_timeout t s).0
        (wrap p.reset_input_buffer >> (wrap p.reset_input_buffer >> attempts p 1 req))
        (timeout_keeps t s) (timeout_error t s) second
