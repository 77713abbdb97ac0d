-- ===== src/Protocol/Client/Conversation.antt =====
-- What an operation of the client says to the meter: the requests of its plan in order, one after
-- the answer to the other.
use vkt7d.Common.{
  ℕ, ◌≤◌, ◌≡◌, refl, sym, ap, ◌∙◌, Bool, true, false, List, [], ◌∷◌, ◌++◌, append-nil, append_assoc,
  arith, Bytes, ◌⊎◌, inl, inr,
}
use vkt7d.Errors.{Result, ok, err, M, ◌>>=◌, ◌>>◌, lift, done}
use vkt7d.Model.{Element}
use vkt7d.Protocol.{request_prefix}
use vkt7d.Protocol.Frame.{byte}
use vkt7d.Protocol.Transaction.{SerialPort, tx}
use vkt7d.Protocol.Transaction.Retry.{Observed, times, tx-Sent}
use vkt7d.Protocol.Reply.{parse_exception, data_part}
use vkt7d.Protocol.ReadList.{make_read_list_payload}
use vkt7d.Protocol.Elements.{parse_elements}
use vkt7d.Protocol.Client.{
  Client, Moment, read_request, write_request, date_payload, type_payload, is_daily_like,
  reg_value_type, reg_read_list, reg_date, reg_read_data, read, write, set_type, set_date,
  set_read_list, read_data, read_archive_data, read_archive_record, read_current,
}

abbrev pub is_ok {ℓ} : {A : Type ℓ} → Result A → Bool
is_ok (ok a) = true
is_ok (err e) = false

-- A request as the port gets it.
abbrev pub sent_as : Bytes → Bytes
sent_as req = request_prefix ∷ request_prefix ∷ req

-- Each request of the plan at most twice, and the next one only after the one before was sent. With
-- no error the whole plan was sent; an error ends it anywhere.
abbrev pub Talk : List Bytes → Bool → List Bytes → Type 0
Talk [] good log = log ≡ []
Talk (req ∷ plan) good log =
    (n : ℕ) × (rest : List Bytes) × (n ≤ 2)
    × (log ≡ times n (sent_as req) ++ rest)
    × (((good ≡ false) × (rest ≡ [])) ⊎ ((1 ≤ n) × Talk plan good rest))

Talk-false : (plan : List Bytes) → Talk plan false []
Talk-false [] = refl
Talk-false (req ∷ plan) = (0, [], omega arith, refl, inl (refl, refl))

Talk-stop : (plan more log : List Bytes) → Talk plan false log → Talk (plan ++ more) false log
Talk-stop [] more log e = rw e (Talk-false more)
Talk-stop (req ∷ plan) more log (n, rest, h, e, inl ended) = (n, rest, h, e, inl ended)
Talk-stop (req ∷ plan) more log (n, rest, h, e, inr (one, t)) =
    (n, rest, h, e, inr (one, Talk-stop plan more rest t))

Talk-append :
    (good : Bool) (plan more log log' : List Bytes)
    → Talk plan true log
    → Talk more good log'
    → Talk (plan ++ more) good (log ++ log')
Talk-append good [] more log log' e t = rw e t
Talk-append good (req ∷ plan) more log log' (n, rest, h, e, inl (bad, _)) t = cc
Talk-append good (req ∷ plan) more log log' (n, rest, h, e, inr (one, u)) t = (
  n,
  rest ++ log',
  h,
  ap (λ l. l ++ log') e ∙ append_assoc (times n (sent_as req)) rest log',
  inr (one, Talk-append good plan more rest log' u t),
)

one_said :
    (n : ℕ) (r : Result Bytes)
    → ((b : Bytes) → r ≡ ok b → 1 ≤ n)
    → ((is_ok r ≡ false) × (◌≡◌ {A = List Bytes} [] [])) ⊎ ((1 ≤ n) × Talk [] (is_ok r) [])
one_said n (ok b) h = inr (h b refl, refl)
one_said n (err e) h = inl (refl, refl)

module _ (p : SerialPort) (o : Observed p) where
  open o use {sent}

  -- From `s` the operation came to `r`, and what it sent follows the plan.
  pub record Follows {A : Type 0} (plan : List Bytes) (s : p.State) (r : Result A × p.State)
      : Type 0 where
    pub log : List Bytes
    pub sent_log : sent r.1 ≡ sent s ++ log
    pub talk : Talk plan (is_ok r.0) log

  Follows-lift : {A : Type 0} (r : Result A) (s : p.State) → Follows [] s (r, s)
  Follows-lift r s = record { log = []; sent_log = sym (append-nil (sent s)); talk = refl }

  Follows-tx : (timeout : ℕ) (req : Bytes) (s : p.State) → Follows (req ∷ []) s (tx p timeout req s)
  Follows-tx timeout req s =
      let one = tx-Sent p o timeout req s in
      record {
        log = times one.count (sent_as req);
        sent_log = one.log;
        talk = (
          one.count,
          [],
          one.at_most,
          sym (append-nil _),
          one_said one.count (tx p timeout req s).0 one.answered,
        );
      }

  -- The plan of two operations in a row.
  Follows-bind :
      {A B : Type 0} (plan more : List Bytes) (s : p.State) (m : M p.State A) (k : A → M p.State B)
      → Follows plan s (m s)
      → ((a : A) (s' : p.State) → Follows more s' (k a s'))
      → Follows (plan ++ more) s ((m >>= k) s)
  Follows-bind {A} {B} plan more s m k f g = both (m s).0 (m s).1 f
    where
      both :
          (r : Result A) (s' : p.State)
          → Follows plan s (r, s')
          → Follows (plan ++ more) s (((λ _. (r, s')) >>= k) s)
      both (ok a) s' f =
          let rest = g a s' in
          record {
            log = f.log ++ rest.log;
            sent_log =
                rest.sent_log
                ∙ ap (λ l. l ++ rest.log) f.sent_log
                ∙ append_assoc (sent s) f.log rest.log;
            talk = Talk-append (is_ok (k a s').0) plan more f.log rest.log f.talk rest.talk;
          }
      both (err e) s' f = record {
        log = f.log;
        sent_log = f.sent_log;
        talk = Talk-stop plan more f.log f.talk;
      }

  module _ (c : Client) where
    set_type-Follows :
        (t : ℕ) (s : p.State)
        → Follows (write_request c reg_value_type 0 (type_payload t) ∷ []) s (set_type p c t s)
    unfolding set_type write
    set_type-Follows t s =
        Follows-bind (_ ∷ []) [] s (write p c reg_value_type 0 (type_payload t))
          (λ r. lift (parse_exception r)) (Follows-tx c.timeout _ s)
          (λ r s'. Follows-lift (parse_exception r) s')

    set_date-Follows :
        (t : Moment) (d : Bool) (s : p.State)
        → Follows (write_request c reg_date 0 (date_payload t d) ∷ []) s (set_date p c t d s)
    unfolding set_date write
    set_date-Follows t d s =
        Follows-bind (_ ∷ []) [] s (write p c reg_date 0 (date_payload t d))
          (λ r. lift (parse_exception r)) (Follows-tx c.timeout _ s)
          (λ r s'. Follows-lift (parse_exception r) s')

    set_read_list-Follows :
        (es : List Element) (payload : Bytes) (s : p.State)
        → make_read_list_payload es ≡ ok payload
        → Follows (write_request c reg_read_list 0 payload ∷ []) s (set_read_list p c es s)
    unfolding set_read_list write
    set_read_list-Follows es payload s e = rw e (
        Follows-bind (_ ∷ []) [] s (write p c reg_read_list 0 payload)
          (λ r. lift (parse_exception r)) (Follows-tx c.timeout _ s)
          (λ r s'. Follows-lift (parse_exception r) s'))

    read_data-Follows :
        (s : p.State) → Follows (read_request c reg_read_data 0 ∷ []) s (read_data p c s)
    unfolding read_data read
    read_data-Follows s =
        Follows-bind (_ ∷ []) [] s (read p c reg_read_data 0)
          (λ r. lift (parse_exception r) >> done (data_part r)) (Follows-tx c.timeout _ s)
          (λ r s'.
            Follows-bind [] [] s' (lift (parse_exception r)) (λ _. done (data_part r))
              (Follows-lift (parse_exception r) s') (λ _ s''. Follows-lift (ok (data_part r)) s''))

    read_archive_data-Follows :
        (typ : ℕ) (when : Moment) (es : List Element) (s : p.State)
        → Follows
            (write_request c reg_date 0 (date_payload when (is_daily_like typ))
              ∷ read_request c reg_read_data 0
              ∷ [])
            s
            (read_archive_data p c typ when es s)
    unfolding read_archive_data
    read_archive_data-Follows typ when es s =
        Follows-bind (_ ∷ []) (_ ∷ []) s (set_date p c when (is_daily_like typ))
          (λ _. read_data p c >>= λ d. lift (parse_elements es d typ))
          (set_date-Follows when (is_daily_like typ) s)
          (λ _ s'.
            Follows-bind (_ ∷ []) [] s' (read_data p c) (λ d. lift (parse_elements es d typ))
              (read_data-Follows s') (λ d s''. Follows-lift (parse_elements es d typ) s''))

    -- With a list of elements that can be written, `ReadArchiveRecord` hands the port nothing but
    -- the value type, the read list, the date and the read of the data, in this order: each
    -- request at most twice, and the next one only after the one before was sent. If it returns a
    -- record, all four were sent; after an error nothing more is.
    pub read_archive_record-Follows :
        (typ : ℕ) (when : Moment) (es : List Element) (payload : Bytes) (s : p.State)
        → make_read_list_payload es ≡ ok payload
        → Follows
            (write_request c reg_value_type 0 (type_payload (byte typ))
              ∷ write_request c reg_read_list 0 payload
              ∷ write_request c reg_date 0 (date_payload when (is_daily_like typ))
              ∷ read_request c reg_read_data 0
              ∷ [])
            s
            (read_archive_record p c typ when es s)
    unfolding read_archive_record
    read_archive_record-Follows typ when es payload s e =
        Follows-bind (_ ∷ []) (_ ∷ _ ∷ _ ∷ []) s (set_type p c (byte typ))
          (λ _. set_read_list p c es >> read_archive_data p c typ when es)
          (set_type-Follows (byte typ) s)
          (λ _ s'.
            Follows-bind (_ ∷ []) (_ ∷ _ ∷ []) s' (set_read_list p c es)
              (λ _. read_archive_data p c typ when es) (set_read_list-Follows es payload s' e)
              (λ _ s''. read_archive_data-Follows typ when es s''))

    -- With a list of elements that can be written, `ReadCurrent` hands the port the value type,
    -- the read list and the read of the data, in this order and by the same rules, and no date.
    pub read_current-Follows :
        (typ : ℕ) (es : List Element) (payload : Bytes) (s : p.State)
        → make_read_list_payload es ≡ ok payload
        → Follows
            (write_request c reg_value_type 0 (type_payload (byte typ))
              ∷ write_request c reg_read_list 0 payload
              ∷ read_request c reg_read_data 0
              ∷ [])
            s
            (read_current p c typ es s)
    unfolding read_current
    read_current-Follows typ es payload s e =
        Follows-bind (_ ∷ []) (_ ∷ _ ∷ []) s (set_type p c (byte typ))
          (λ _. set_read_list p c es >> (read_data p c >>= λ d. lift (parse_elements es d typ)))
          (set_type-Follows (byte typ) s)
          (λ _ s'.
            Follows-bind (_ ∷ []) (_ ∷ []) s' (set_read_list p c es)
              (λ _. read_data p c >>= λ d. lift (parse_elements es d typ))
              (set_read_list-Follows es payload s' e)
              (λ _ s''.
                Follows-bind (_ ∷ []) [] s'' (read_data p c) (λ d. lift (parse_elements es d typ))
                  (read_data-Follows s'') (λ d s3. Follows-lift (parse_elements es d typ) s3)))
