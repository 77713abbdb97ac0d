-- ===== src/Port/Queue/Order.antt =====
-- Which bytes `Read` gives, and in which order.
use vkt7d.Common.{
  ℕ, zero, suc, ltb, ◌≡◌, ◌≤◌, ◌<◌, refl, sym, ap, ◌∙◌, true, false, Bool-cases, List, [], ◌∷◌,
  ◌++◌, append-nil, append_assoc, arith, Bytes, length, take, drop, take-append-drop, ◌⊎◌, inl, inr,
}
use vkt7d.Errors.{ok}
use vkt7d.Port.{Port}
use vkt7d.Port.Queue.{chunk_ready, read}

abbrev pub joined : List Bytes → Bytes
joined [] = []
joined (b ∷ bs) = b ++ joined bs

pub joined-append : (xs ys : List Bytes) → joined (xs ++ ys) ≡ joined xs ++ joined ys
joined-append [] ys = refl
joined-append (x ∷ xs) ys =
    ap (λ t. x ++ t) (joined-append xs ys) ∙ sym (append_assoc x (joined xs) (joined ys))

pub take_all : (n : ℕ) (xs : Bytes) → length xs ≤ n → take n xs ≡ xs
take_all zero [] h = refl
take_all zero (x ∷ xs) h = absurd (omega arith)
take_all (suc n) [] h = refl
take_all (suc n) (x ∷ xs) h = ap (◌∷◌ x) (take_all n xs (omega arith))

module _ {C : Type 0} where
  -- On an open port, if the first chunk fits into the buffer or no other waits, what `Read` gives
  -- and what then waits is what waited before, in order and with nothing lost.
  pub read_in_order :
      (n : ℕ) (d : Bytes) (q : List Bytes) (p : Port C)
      → 1 ≤ n
      → p.closed ≡ false
      → p.chunks ≡ d ∷ q
      → (length d ≤ n) ⊎ (q ≡ [])
      → (out : Bytes) × ((read n chunk_ready p).0 ≡ ok out)
        × (out ++ joined (read n chunk_ready p).1.chunks ≡ joined p.chunks)
  unfolding read
  read_in_order zero d q p h open_ e fits = absurd (omega arith)
  read_in_order (suc n) d q p h open_ e fits = elim (Bool-cases (ltb (suc n) (length d))) [
    | inr short ↦
        let all = take_all (suc n) d (ground (arith, short)) in
        rw (e, short) (take (suc n) d, refl, ap (λ t. t ++ joined q) all)
    | inl long ↦
        let alone : q ≡ [] = elim fits [
          | inl h' ↦ absurd (ground (arith, long, h'))
          | inr h' ↦ h'
        ] in
        rw (e, long, open_, alone)
          (
            take (suc n) d,
            refl,
            sym (append_assoc (take (suc n) d) (drop (suc n) d) [])
                ∙ ap (λ t. t ++ []) (take-append-drop (suc n) d),
          )
  ]

  -- If the first chunk is longer than the buffer and the channel has room behind it, what the chunk
  -- leaves over comes behind all the chunks that waited: `Read` gives the stream's bytes in another order than they arrived.
  pub read_late :
      (n : ℕ) (d : Bytes) (q : List Bytes) (p : Port C)
      → 1 ≤ n
      → p.closed ≡ false
      → p.chunks ≡ d ∷ q
      → n < length d
      → length q < 64
      → ((read n chunk_ready p).0 ≡ ok (take n d))
        × (joined (read n chunk_ready p).1.chunks ≡ joined q ++ drop n d)
  unfolding read
  read_late zero d q p h open_ e long room = absurd (omega arith)
  read_late (suc n) d q p h open_ e long room =
      let over : ltb (suc n) (length d) ≡ true = ground arith in
      let some_room : ltb 63 (length q) ≡ false = ground arith in
      rw (e, over, open_, some_room)
        (refl, joined-append q (drop (suc n) d ∷ []) ∙ ap (λ t. joined q ++ t) (append-nil _))
