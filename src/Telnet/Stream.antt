-- ===== src/Telnet/Stream.antt =====
-- What the application sees of the decoder, whatever the reads of the connection cut it into.
use vkt7d.Common.{
  ℕ, Bool, true, false, ◌≡◌, refl, sym, ap, ap₂, ◌∙◌, List, [], ◌∷◌, ◌++◌, append-nil, append_assoc,
  map, map-append, Bytes, ◌==◌, if◌then◌else◌,
}
use vkt7d.Telnet.{
  iac, se, sb, will, wont, do_, dont, Phase, in_data, in_iac, in_sb, in_sb_iac, Decoder, Event,
  on_data, on_negotiation, on_subnegotiation, Loop, flushed, step_in, step, loop, feed,
}

-- One item of the stream: a byte of the application, or a control message.
pub data Item : Type 0 where
  byte : ℕ → Item
  negotiation : ℕ → ℕ → Item
  subnegotiation : Bytes → Item

-- The calls as a stream: how the data was cut into calls of `onData` is forgotten.
abbrev pub stream : List Event → List Item
stream [] = []
stream (on_data bs ∷ es) = map byte bs ++ stream es
stream (on_negotiation c o ∷ es) = negotiation c o ∷ stream es
stream (on_subnegotiation s ∷ es) = subnegotiation s ∷ stream es

pub stream-append : (es fs : List Event) → stream (es ++ fs) ≡ stream es ++ stream fs
stream-append [] fs = refl
stream-append (on_data bs ∷ es) fs = simp (stream-append es fs, append_assoc)
stream-append (on_negotiation c o ∷ es) fs = ap (◌∷◌ (negotiation c o)) (stream-append es fs)
stream-append (on_subnegotiation s ∷ es) fs = ap (◌∷◌ (subnegotiation s)) (stream-append es fs)

stream-flushed : (bs : Bytes) → stream (flushed bs) ≡ map byte bs
stream-flushed [] = refl
stream-flushed (b ∷ bs) = append-nil _

-- What the loop has produced so far, called or still in the buffer.
abbrev pub view : Loop → List Item
view l = stream l.calls ++ map byte l.buffer

abbrev pub bare : Decoder → Loop
bare d = record { decoder = d; buffer = []; calls = [] }

-- The loop before its last `flush`.
abbrev pub steps : Loop → Bytes → Loop
steps l [] = l
steps l (b ∷ bs) = steps (step l b) bs

ruleset stream_laws = (stream-append, stream-flushed, map-append, append_assoc, append-nil)

-- Outside the data phase the buffer is empty: an IAC flushes it.
abbrev IsQuiet : Phase → Bytes → Type 0
IsQuiet in_data buffer = Unit
IsQuiet _ buffer = buffer ≡ []

IsQuiet-nil : (p : Phase) (buffer : Bytes) → buffer ≡ [] → IsQuiet p buffer
IsQuiet-nil in_data buffer e = tt
IsQuiet-nil _ buffer e = e

-- From loop `l` the step led to `after`, and from the same decoder with nothing read before to
-- `fresh`: the step adds to what `l` had produced exactly what it produces on its own.
record Extends (l after fresh : Loop) : Type 0 where
  produced : view after ≡ view l ++ view fresh
  same_decoder : after.decoder ≡ fresh.decoder
  quiet : IsQuiet after.decoder.phase after.buffer

Extends-if :
    {l x y u v : Loop} (test : Bool)
    → Extends l x u
    → Extends l y v
    → Extends l (if test then x else y) (if test then u else v)
Extends-if true p q = p
Extends-if false p q = q

-- The branches that leave the calls and the buffer alone, and those that make one call.
Extends-same :
    {l : Loop} (d : Decoder)
    → l.buffer ≡ []
    → Extends l (record l { decoder = d }) (record { decoder = d; buffer = []; calls = [] })
Extends-same d q = record {
  produced = simp append-nil;
  same_decoder = refl;
  quiet = IsQuiet-nil d.phase _ q;
}

Extends-call :
    {l : Loop} (d : Decoder) (e : Event)
    → l.buffer ≡ []
    → Extends l
        (record { decoder = d; buffer = l.buffer; calls = l.calls ++ e ∷ [] })
        (record { decoder = d; buffer = []; calls = e ∷ [] })
Extends-call d e q = record {
  produced = simp (q, stream_laws);
  same_decoder = refl;
  quiet = IsQuiet-nil d.phase _ q;
}

step_in-Extends :
    (p : Phase) (b : ℕ) (l : Loop)
    → l.decoder.phase ≡ p
    → IsQuiet p l.buffer
    → Extends l (step_in p b l) (step_in p b (bare l.decoder))
unfolding step_in
step_in-Extends in_data b l e q =
    Extends-if (b == iac)
      (record { produced = simp stream_laws; same_decoder = refl; quiet = refl })
      (record { produced = simp stream_laws; same_decoder = refl; quiet = rw e tt })
step_in-Extends in_iac b l e q =
    Extends-if (b == iac) (record { produced = simp stream_laws; same_decoder = refl; quiet = tt })
      (Extends-if (b == will) (Extends-same _ q) (
        Extends-if (b == wont) (Extends-same _ q) (
          Extends-if (b == do_) (Extends-same _ q) (
            Extends-if (b == dont) (Extends-same _ q)
              (Extends-if (b == sb) (Extends-same _ q) (Extends-same _ q))))))
step_in-Extends in_sb b l e q = Extends-if (b == iac) (Extends-same _ q) (Extends-same _ q)
step_in-Extends in_sb_iac b l e q =
    Extends-if (b == iac) (Extends-same _ q)
      (Extends-if (b == se) (Extends-call _ _ q) (Extends-same _ q))
step_in-Extends _ b l e q = Extends-call _ _ q

-- Several steps: what they produce after `l` is what they produce from `l`'s decoder.
steps-Extends :
    (xs : Bytes) (l : Loop)
    → IsQuiet l.decoder.phase l.buffer
    → Extends l (steps l xs) (steps (bare l.decoder) xs)
steps-Extends [] l q = record { produced = simp append-nil; same_decoder = refl; quiet = q }
steps-Extends (b ∷ xs) l q =
    let one = step_in-Extends l.decoder.phase b l refl q in
    let fresh = step_in-Extends l.decoder.phase b (bare l.decoder) refl (IsQuiet-nil _ _ refl) in
    let after = step (bare l.decoder) b in
    let ih = steps-Extends xs (step l b) one.quiet in
    let ih' = steps-Extends xs after fresh.quiet in
    record {
      produced =
          ih.produced
          ∙ ap₂ ◌++◌ one.produced (ap (λ d. view (steps (bare d) xs)) one.same_decoder)
          ∙ append_assoc (view l) _ _
          ∙ ap (λ v. view l ++ v) (sym ih'.produced);
      same_decoder =
          ih.same_decoder
          ∙ ap (λ d. (steps (bare d) xs).decoder) one.same_decoder
          ∙ sym ih'.same_decoder;
      quiet = ih.quiet;
    }

pub steps-append : (l : Loop) (xs ys : Bytes) → steps l (xs ++ ys) ≡ steps (steps l xs) ys
steps-append l [] ys = refl
steps-append l (b ∷ xs) ys = steps-append (step l b) xs ys

loop-steps :
    (l : Loop) (xs : Bytes)
    → (stream (loop l xs).calls ≡ view (steps l xs)) × ((loop l xs).decoder ≡ (steps l xs).decoder)
unfolding loop
loop-steps l [] = (simp stream_laws, refl)
loop-steps l (b ∷ xs) = loop-steps (step l b) xs

-- What one call of `feed` shows is what its steps produce.
pub feed-steps :
    (d : Decoder) (xs : Bytes)
    → (stream (feed d xs).events ≡ view (steps (bare d) xs))
      × ((feed d xs).decoder ≡ (steps (bare d) xs).decoder)
unfolding feed
feed-steps d xs = loop-steps (bare d) xs

pub steps-Extends_bare :
    (d : Decoder) (xs ys : Bytes)
    → (view (steps (bare d) (xs ++ ys))
        ≡ view (steps (bare d) xs) ++ view (steps (bare (steps (bare d) xs).decoder) ys))
      × ((steps (bare d) (xs ++ ys)).decoder
          ≡ (steps (bare (steps (bare d) xs).decoder) ys).decoder)
steps-Extends_bare d xs ys =
    let start = steps-Extends xs (bare d) (IsQuiet-nil _ _ refl) in
    let rest = steps-Extends ys (steps (bare d) xs) start.quiet in
    rw (steps-append (bare d) xs ys) (rest.produced, rest.same_decoder)

-- The decoder carries its state from one read of the connection to the next: what it shows for
-- two reads is what it shows for one read of all the bytes, and it ends in the same state. This
-- holds from every state, wherever the stream is cut.
pub feed-append :
    (d : Decoder) (xs ys : Bytes)
    → (stream (feed d (xs ++ ys)).events
        ≡ stream (feed d xs).events ++ stream (feed (feed d xs).decoder ys).events)
      × ((feed d (xs ++ ys)).decoder ≡ (feed (feed d xs).decoder ys).decoder)
feed-append d xs ys =
    let whole = feed-steps d (xs ++ ys) in
    let first = feed-steps d xs in
    let second = feed-steps (feed d xs).decoder ys in
    let cut = steps-Extends_bare d xs ys in
    (
      whole.0
          ∙ cut.0
          ∙ sym (ap₂ ◌++◌ first.0 (second.0 ∙ ap (λ e. view (steps (bare e) ys)) first.1)),
      whole.1 ∙ cut.1 ∙ sym (second.1 ∙ ap (λ e. (steps (bare e) ys).decoder) first.1),
    )
