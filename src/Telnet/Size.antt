-- ===== src/Telnet/Size.antt =====
-- How much the decoder shows for how many bytes.
use vkt7d.Common.{
  ℕ, suc, ◌≤◌, ◌≡◌, ◌==◌, refl, ap, Bool, true, false, List, [], ◌∷◌, arith, Bytes, All, length,
  length-append, map, if◌then◌else◌,
}
use vkt7d.Telnet.{
  iac, se, sb, will, wont, do_, dont, Phase, in_data, in_iac, in_sb, in_sb_iac, Decoder, Event,
  on_data, on_negotiation, on_subnegotiation, Loop, step_in, loop, feed,
}
use vkt7d.Telnet.Stream.{byte, stream, feed-append}

abbrev shown_by : Loop → ℕ
shown_by l = length (stream (loop l []).calls)

Short-if :
    (test : Bool) (x y : Loop)
    → shown_by x ≤ 1
    → shown_by y ≤ 1
    → shown_by (if test then x else y) ≤ 1
Short-if true x y h k = h
Short-if false x y h k = k

one_byte :
    (p : Phase) (sub : Bytes) (b : ℕ)
    → shown_by (
        step_in p b (record { decoder = record { phase = p; sub = sub }; buffer = []; calls = [] }))
      ≤ 1
unfolding loop step_in
one_byte in_data sub b = Short-if (b == iac) _ _ (omega arith) (omega arith)
one_byte in_iac sub b = Short-if (b == iac) _ _ (omega arith) (
    Short-if (b == will) _ _ (omega arith) (
      Short-if (b == wont) _ _ (omega arith) (
        Short-if (b == do_) _ _ (omega arith) (
          Short-if (b == dont) _ _ (omega arith)
            (Short-if (b == sb) _ _ (omega arith) (omega arith))))))
one_byte in_sb sub b = Short-if (b == iac) _ _ (omega arith) (omega arith)
one_byte in_sb_iac sub b =
    Short-if (b == iac) _ _ (omega arith) (Short-if (b == se) _ _ (omega arith) (omega arith))
one_byte _ sub b = omega arith

-- No more items than bytes.
feed-size : (d : Decoder) (b : Bytes) → length (stream (feed d b).events) ≤ length b
feed-size d [] = unfold feed in omega arith
feed-size d (b ∷ bs) =
    let first = feed d (b ∷ []) in
    let one : length (stream first.events) ≤ 1 = unfold feed in one_byte d.phase d.sub b in
    let rest = feed-size first.decoder bs in
    let both = ap length (feed-append d (b ∷ []) bs).0 in
    omega (
      arith,
      one,
      rest,
      both,
      length-append (stream first.events) (stream (feed first.decoder bs).events),
    )

abbrev pub IsShort : ℕ → Event → Type 0
IsShort n (on_data b) = length b ≤ n
IsShort n _ = Unit

length-map : (b : Bytes) → length (map byte b) ≡ length b
length-map [] = refl
length-map (x ∷ xs) = ap suc (length-map xs)

blocks-IsShort : (n : ℕ) (es : List Event) → length (stream es) ≤ n → All (IsShort n) es
blocks-IsShort n [] h = tt
blocks-IsShort n (on_data b ∷ es) h =
    let size = length-append (map byte b) (stream es) in
    let same = length-map b in
    (omega (arith, size, same, h), blocks-IsShort n es (omega (arith, size, h)))
blocks-IsShort n (on_negotiation cmd opt ∷ es) h = (tt, blocks-IsShort n es (omega (arith, h)))
blocks-IsShort n (on_subnegotiation s ∷ es) h = (tt, blocks-IsShort n es (omega (arith, h)))

-- No call of `onData` has more bytes than `feed` was given.
pub feed-IsShort :
    (n : ℕ) (d : Decoder) (b : Bytes) → length b ≤ n → All (IsShort n) (feed d b).events
feed-IsShort n d b h = blocks-IsShort n (feed d b).events (omega (arith, feed-size d b, h))
