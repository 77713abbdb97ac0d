-- ===== src/Port/Mode/Plan.antt =====
-- What `SetMode` asks of the server, against a plan of commands.
use vkt7d.Common.{
  ℕ, ◌+◌, ◌*◌, ◌^◌, ◌≡◌, ◌<◌, refl, sym, ap, ap₂, ◌∙◌, Bool, true, false, Option, none, some, List,
  [], ◌∷◌, ◌++◌, arith, Bytes, ◌⊎◌, inl, inr, All, IsByte, if◌then◌else◌,
}
use vkt7d.Common.Int.{ℤ, pos, negsuc}
use vkt7d.Errors.{Result, ok, err, refused, M, ◌>>=◌, ◌>>◌, done}
use vkt7d.Port.{set_baudrate, set_datasize, set_parity, set_stopsize, set_control}
use vkt7d.Port.Mode.{
  Mode, Bits, valid_baud, valid_bits, parity_code, stop_code, u32be, checked, set_rts, set_dtr,
  set_mode, initial_bits,
}

-- Commands one after the other, up to the first that fails.
unfoldable pub in_turn :
    {S : Type 0} → (ℕ → Bytes → M S (Unit {0})) → List (ℕ × Bytes) → M S (Unit {0})
in_turn command [] = done tt
in_turn command ((cmd, value) ∷ plan) = command cmd value >> in_turn command plan

abbrev control : ℕ → ℕ × Bytes
control n = (set_control, n ∷ [])

abbrev pub line_plan : Option Bits → List (ℕ × Bytes)
line_plan none = []
line_plan (some b) = control (if b.dtr then 8 else 9) ∷ control (if b.rts then 11 else 12) ∷ []

abbrev pub mode_plan : ℕ → ℕ → ℕ → ℕ → Option Bits → List (ℕ × Bytes)
mode_plan baud bits parity stop lines =
    (set_baudrate, u32be baud)
    ∷ (set_datasize, bits ∷ [])
    ∷ (set_parity, parity ∷ [])
    ∷ (set_stopsize, stop ∷ [])
    ∷ (line_plan lines ++ control 1 ∷ [])

-- A number from its bytes, the most significant one first.
abbrev pub big_endian : ℕ → Bytes → ℕ
big_endian acc [] = acc
big_endian acc (b ∷ bs) = big_endian (acc * 256 + b) bs

valid_baud-bound : (z : ℤ) (n : ℕ) → valid_baud z ≡ some n → n < 2 ^ 32
valid_baud-bound (pos k) n e = ground arith
valid_baud-bound (negsuc k) n e = cc

u32be-value : (n : ℕ) → n < 2 ^ 32 → All IsByte (u32be n) × (big_endian 0 (u32be n) ≡ n)
unfolding u32be
u32be-value n h = ((omega arith, (omega arith, (omega arith, (omega arith, tt)))), ground arith)

module _ {S : Type 0} where
  then_assoc_at :
      (r : Result (Unit {0})) (s : S) (b c : M S (Unit {0}))
      → (((λ _. (r, s)) >> b) >> c) s ≡ ((λ _. (r, s)) >> (b >> c)) s
  then_assoc_at (ok u) s b c = refl
  then_assoc_at (err e) s b c = refl

  then_assoc : (a b c : M S (Unit {0})) → (a >> b) >> c ≡ a >> (b >> c)
  then_assoc a b c = λ i s. then_assoc_at (a s).0 (a s).1 b c i

  then_done_at : (r : Result (Unit {0})) (s : S) → ((λ _. (r, s)) >> done tt) s ≡ (r, s)
  then_done_at (ok u) s = refl
  then_done_at (err e) s = refl

  then_done : (a : M S (Unit {0})) → a >> done tt ≡ a
  then_done a = λ i s. then_done_at (a s).0 (a s).1 i

  module _ (command : ℕ → Bytes → M S (Unit {0})) where
    set_rts-control :
        (v : Bool) → set_rts command v ≡ command set_control ((if v then 11 else 12) ∷ [])
    unfolding set_rts
    set_rts-control true = refl
    set_rts-control false = refl

    set_dtr-control :
        (v : Bool) → set_dtr command v ≡ command set_control ((if v then 8 else 9) ∷ [])
    unfolding set_dtr
    set_dtr-control true = refl
    set_dtr-control false = refl

    initial_bits-plan :
        (lines : Option Bits) (last : ℕ × Bytes)
        → initial_bits command lines >> command last.0 last.1
          ≡ in_turn command (line_plan lines ++ last ∷ [])
    unfolding in_turn
    initial_bits-plan none last = sym (then_done (command last.0 last.1))
    initial_bits-plan (some b) last =
        let dtr = command set_control ((if b.dtr then 8 else 9) ∷ []) in
        let rts = command set_control ((if b.rts then 11 else 12) ∷ []) in
        let end = command last.0 last.1 in
        ap (λ t. t >> end) (ap₂ ◌>>◌ (set_dtr-control b.dtr) (set_rts-control b.rts))
        ∙ then_assoc dtr rts end
        ∙ ap (λ t. dtr >> (rts >> t)) (sym (then_done end))

    -- A mode whose settings are all valid is set by the commands of the plan, in its order and up
    -- to the first that fails: the rate, the size, the parity and the stop bits, the initial lines
    -- if there are any (DTR before RTS), and no flow control at last. The four bytes of the rate
    -- are bytes, and read from the most significant one they are the rate.
    pub set_mode_plan :
        (m : Mode) (baud bits parity stop : ℕ)
        → valid_baud m.baud_rate ≡ some baud
        → valid_bits m.data_bits ≡ some bits
        → parity_code m.parity ≡ some parity
        → stop_code m.stop_bits ≡ some stop
        → (set_mode command (some m) ≡ in_turn command (mode_plan baud bits parity stop m.initial))
          × All IsByte (u32be baud)
          × (big_endian 0 (u32be baud) ≡ baud)
    unfolding set_mode in_turn
    set_mode_plan m baud bits parity stop e0 e1 e2 e3 =
        let lines = initial_bits-plan m.initial (control 1) in
        let front =
          ap
            (λ t.
              command set_baudrate (u32be baud)
              >> (command set_datasize (bits ∷ [])
                  >> (command set_parity (parity ∷ []) >> (command set_stopsize (stop ∷ []) >> t))))
            lines in
        let rate = u32be-value baud (valid_baud-bound m.baud_rate baud e0) in
        (rw (e0, e1, e2, e3) front, rate.0, rate.1)

    -- A mode with a setting that is not valid, or no mode, is refused, and no command is sent.
    pub set_mode_refused :
        (m : Mode) (s : S)
        → (valid_baud m.baud_rate ≡ none)
          ⊎ ((valid_bits m.data_bits ≡ none)
              ⊎ ((parity_code m.parity ≡ none) ⊎ (stop_code m.stop_bits ≡ none)))
        → set_mode command (some m) s ≡ (err refused, s)
    unfolding set_mode
    set_mode_refused m s bad =
        refused_by (valid_baud m.baud_rate) (valid_bits m.data_bits) (parity_code m.parity)
          (stop_code m.stop_bits)
          (λ baud bits parity stop.
            command set_baudrate (u32be baud)
            >> (command set_datasize (bits ∷ [])
                >> (command set_parity (parity ∷ [])
                    >> (command set_stopsize (stop ∷ [])
                        >> (initial_bits command m.initial >> command set_control (1 ∷ []))))))
          bad
      where
        refused_by :
            (a b c d : Option ℕ) (k : ℕ → ℕ → ℕ → ℕ → M S (Unit {0}))
            → (a ≡ none) ⊎ ((b ≡ none) ⊎ ((c ≡ none) ⊎ (d ≡ none)))
            → (checked a >>= λ w.
                  checked b >>= λ x. checked c >>= λ y. checked d >>= λ z. k w x y z)
                s
              ≡ (err refused, s)
        refused_by none b c d k h = refl
        refused_by (some w) none c d k h = refl
        refused_by (some w) (some x) none d k h = refl
        refused_by (some w) (some x) (some y) none k h = refl
        refused_by (some w) (some x) (some y) (some z) k (inl e) = cc
        refused_by (some w) (some x) (some y) (some z) k (inr (inl e)) = cc
        refused_by (some w) (some x) (some y) (some z) k (inr (inr (inl e))) = cc
        refused_by (some w) (some x) (some y) (some z) k (inr (inr (inr e))) = cc
