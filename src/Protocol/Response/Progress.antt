-- ===== src/Protocol/Response/Progress.antt =====
-- `readResponse` appends reads until the response is complete: on every proper part of a complete
-- response it goes on, on the whole it returns it, and it never returns anything else.
use vkt7d.Common.{
  ℕ, Bool-cases, inl, inr, ◌≤◌, ◌≡◌, ◌≢◌, refl, ap, [], ◌∷◌, ◌++◌, arith, Bytes, length,
  length-append, Option, none, some, ltb,
}
use vkt7d.Errors.{Error, Result, ok, err}
use vkt7d.Protocol.{max_frame_size}
use vkt7d.Protocol.Response.{
  response_length, validate_response, checked, more, stop, measured, examine,
}

-- A complete and correct response to a request with this function: its header announces its
-- length, it is within the limit, and it passes `validateResponse`.
pub record IsResponse (request_function : ℕ) (f : Bytes) : Type 0 where
  pub announced : response_length request_function f ≡ ok (some (length f))
  pub fits : length f ≤ max_frame_size
  pub valid : validate_response f (length f) ≡ ok tt

-- On a complete response the loop returns it.
pub examine-response : (fn : ℕ) (f : Bytes) → IsResponse fn f → examine fn f ≡ stop (ok f)
unfolding examine measured checked
examine-response fn f r = rw (r.announced) (ground (arith, r.fits, r.valid))

checked-ok :
    (out r : Bytes) (v : Result (Unit {0})) → checked out v ≡ ok r → (r ≡ out) × (v ≡ ok tt)
unfolding checked
checked-ok out r (ok u) e = (ground arith, refl)
checked-ok out r (err x) e = cc

measured_end :
    (out r : Bytes) (n : ℕ)
    → measured out (ok (some n)) ≡ stop (ok r)
    → (n ≡ length out) × (checked out (validate_response out n) ≡ ok r)
unfolding measured
measured_end out r n e = ground arith

measured-ok :
    (out r : Bytes) (n : Result (Option ℕ))
    → measured out n ≡ stop (ok r)
    → (r ≡ out) × (n ≡ ok (some (length out))) × (validate_response out (length out) ≡ ok tt)
measured-ok out r (err x) e = unfold measured in cc
measured-ok out r (ok none) e = unfold measured in cc
measured-ok out r (ok (some n)) e =
    let (size, passed) = measured_end out r n e in
    let c = checked-ok out r (validate_response out n) passed in
    (c.0, ap (λ k. ok (some k)) size, rw (← size) c.1)

-- What the loop returns with no error is a complete response.
pub examine-ok :
    (fn : ℕ) (out r : Bytes) → examine fn out ≡ stop (ok r) → (r ≡ out) × IsResponse fn out
unfolding examine
examine-ok fn out r e = elim (Bool-cases (ltb max_frame_size (length out))) [
  | inl long ↦ absurd (stop_err (rw long at e))
  | inr short ↦
      let (same, announced, valid) = measured-ok out r _ (rw short at e) in
      (same, record { announced = announced; fits = ground arith; valid = valid })
]
  where
    stop_err : {x : Error} → stop (err x) ≡ stop (ok r) → ⊥
    stop_err e = cc

length_pos : (xs : Bytes) → xs ≢ [] → 1 ≤ length xs
length_pos [] h = absurd (h refl)
length_pos (x ∷ xs) h = omega arith

-- On a proper part the header does not announce the length of the part, nor an error.
pub examine-part :
    (fn : ℕ) (part rest : Bytes) → IsResponse fn (part ++ rest) → rest ≢ [] → examine fn part ≡ more
unfolding examine response_length
examine-part fn [] rest r ne = refl
examine-part fn (a ∷ []) rest r ne = refl
examine-part fn (a ∷ b ∷ []) rest r ne = ground (arith, length_pos rest ne)
examine-part fn (a ∷ b ∷ c ∷ part) rest r ne =
    ground (arith, length_pos rest ne, length-append part rest)
