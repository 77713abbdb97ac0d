-- ===== src/Protocol/Transaction/Receive.antt =====
-- `readResponse` from both sides: it returns the response however the port cuts it up, and what it
-- returns is a response.
use vkt7d.Common.{
  ℕ, get_or, zero, suc, ◌≤◌, ◌≡◌, ◌≢◌, refl, sym, ap, ◌∙◌, List, [], ◌∷◌, ◌++◌, append-nil,
  append_assoc, arith, Bytes, All, ◌⊎◌, inl, inr,
}
use vkt7d.Errors.{Result, ok, M}
use vkt7d.Protocol.Response.{Verdict, more, stop, examine}
use vkt7d.Protocol.Response.Progress.{IsResponse, examine-response, examine-ok, examine-part}
use vkt7d.Protocol.Transaction.{
  ReadEvent, received, eof, broken, SerialPort, turn, receive, read_response,
}

-- The bytes that a read brings; an end of file and a read with no data bring none.
abbrev pub chunk : ReadEvent → Bytes
chunk (received bs) = bs
chunk eof = []
chunk (broken e) = []

abbrev pub heard : List ReadEvent → Bytes
heard [] = []
heard (event ∷ es) = chunk event ++ heard es

abbrev pub IsHealthy : ReadEvent → Type 0
IsHealthy (broken e) = ⊥
IsHealthy _ = Unit {0}

nil-or-not : (xs : Bytes) → (xs ≡ []) ⊎ (xs ≢ [])
nil-or-not [] = inl refl
nil-or-not (x ∷ xs) = inr (λ e. cc)

Verdict-cases : (v : Verdict) → (v ≡ more) ⊎ ((r : Result Bytes) × (v ≡ stop r))
Verdict-cases more = inl refl
Verdict-cases (stop r) = inr (r, refl)

module _ (p : SerialPort) where
  open p use {State, read}

  -- What the next reads give.
  abbrev pub replies : ℕ → State → List ReadEvent
  replies zero s = []
  replies (suc n) s = let (event, s') = read s in event ∷ replies n s'

  turn_rest :
      (again : Bytes → M State Bytes) (fn : ℕ) (out f : Bytes) (event : ReadEvent)
      (es : List ReadEvent) (s : State)
      → IsHealthy event
      → out ++ heard (event ∷ es) ≡ f
      → heard (event ∷ es) ≢ []
      → IsResponse fn f
      → ((out' : Bytes) → out' ++ heard es ≡ f → heard es ≢ [] → (again out' s).0 ≡ ok f)
      → (turn p again fn out event s).0 ≡ ok f
  unfolding turn
  turn_rest again fn out f (broken e) es s good e' ne r ih = absurd good
  turn_rest again fn out f eof es s good e ne r ih = ih out e ne
  turn_rest again fn out f (received []) es s good e ne r ih = ih out e ne
  turn_rest again fn out f (received (b ∷ bs)) es s good e ne r ih =
      let split = append_assoc out (b ∷ bs) (heard es) ∙ e in
      elim (nil-or-not (heard es)) [
        | inl last ↦
            let whole =
              sym (append-nil (out ++ b ∷ bs))
              ∙ ap (λ t. (out ++ b ∷ bs) ++ t) (sym last)
              ∙ split in
            rw (whole, examine-response fn f r)
        | inr rest ↦
            rw (examine-part fn (out ++ b ∷ bs) (heard es) (rw split r) rest)
              (ih (out ++ b ∷ bs) split rest)
      ]

  -- Reading goes on over the rest of a response, whatever there was before.
  receive_rest :
      (fn k n : ℕ) (out f : Bytes) (s : State)
      → k ≤ n
      → All IsHealthy (replies k s)
      → out ++ heard (replies k s) ≡ f
      → heard (replies k s) ≢ []
      → IsResponse fn f
      → (receive p fn n out s).0 ≡ ok f
  unfolding receive
  receive_rest fn zero n out f s h good e ne r = absurd (ne refl)
  receive_rest fn (suc k) zero out f s h good e ne r = absurd (omega arith)
  receive_rest fn (suc k) (suc n) out f s h good e ne r =
      turn_rest (receive p fn n) fn out f (read s).0 (replies k (read s).1) (read s).1 good.0 e ne r
        (λ out' e' ne'. receive_rest fn k n out' f (read s).1 (omega arith) good.1 e' ne' r)

  -- What has been read, after some turns, is what the loop returns.
  pub record Returned (fn : ℕ) (n : ℕ) (out : Bytes) (s : State) (r : Bytes) : Type 0 where
    pub reads : ℕ
    pub in_time : reads ≤ n
    pub collected : r ≡ out ++ heard (replies reads s)
    pub response : IsResponse fn r

  turn-ok :
      (again : Bytes → M State Bytes) (fn : ℕ) (out r : Bytes) (event : ReadEvent) (s : State)
      → (turn p again fn out event s).0 ≡ ok r
      → ((again (out ++ chunk event) s).0 ≡ ok r)
        ⊎ ((r ≡ out ++ chunk event) × IsResponse fn (out ++ chunk event))
  unfolding turn
  turn-ok again fn out r (broken x) s e = cc
  turn-ok again fn out r eof s e = inl (rw (append-nil out) e)
  turn-ok again fn out r (received []) s e = inl (rw (append-nil out) e)
  turn-ok again fn out r (received (b ∷ bs)) s e =
      elim (Verdict-cases (examine fn (out ++ b ∷ bs))) [
        | inl goes_on ↦ inl (rw goes_on at e)
        | inr (v, stops) ↦
            let v_ok : v ≡ ok r = rw stops at e in
            inr (examine-ok fn (out ++ b ∷ bs) r (rw v_ok at stops))
      ]

  receive-Returned :
      (fn n : ℕ) (out r : Bytes) (s : State)
      → (receive p fn n out s).0 ≡ ok r
      → Returned fn n out s r
  unfolding receive
  receive-Returned fn zero out r s e = cc
  receive-Returned fn (suc n) out r s e =
      let event = (read s).0 in
      elim (turn-ok (receive p fn n) fn out r event (read s).1 e) [
        | inl later ↦
            let rest = receive-Returned fn n (out ++ chunk event) r (read s).1 later in
            record {
              reads = suc rest.reads;
              in_time = omega (arith, rest.in_time);
              collected = rest.collected ∙ append_assoc out (chunk event) _;
              response = rest.response;
            }
        | inr (same, whole) ↦ record {
          reads = 1;
          in_time = omega arith;
          collected = same ∙ ap (λ t. out ++ t) (sym (append-nil (chunk event)));
          response = rw same whole;
        }
      ]

  -- However the port cuts a response into reads, with empty reads and ends of file in between, and
  -- whatever it would give after them, `readResponse` returns exactly that response, provided the
  -- reads that bring it arrive before the deadline and none of them fails.
  pub read_response_complete :
      (req f : Bytes) (k : ℕ) (s : State)
      → k ≤ p.turns s
      → All IsHealthy (replies k s)
      → heard (replies k s) ≡ f
      → f ≢ []
      → IsResponse (get_or req 1 0) f
      → (read_response p req s).0 ≡ ok f
  unfolding read_response
  read_response_complete req f k s h good e ne r =
      receive_rest (get_or req 1 0) k (p.turns s) [] f s h good e (λ z. ne (sym e ∙ z)) r

  -- What `readResponse` returns with no error is exactly what it has read, all of it and nothing
  -- else, within the deadline; and it is one complete response to the request: its length is the
  -- announced one, at most the maximum, and it passes `validateResponse`.
  pub read_response-Returned :
      (req r : Bytes) (s : State)
      → (read_response p req s).0 ≡ ok r
      → Returned (get_or req 1 0) (p.turns s) [] s r
  unfolding read_response
  read_response-Returned req r s e = receive-Returned (get_or req 1 0) (p.turns s) [] r s e
