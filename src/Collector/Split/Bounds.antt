-- ===== src/Collector/Split/Bounds.antt =====
-- The chunks hold the read list in order, none is empty, and each asks for at most 60 bytes unless it
-- is a single element that is larger by itself.
use vkt7d.Common.{
  ℕ, ◌+◌, ◌≤◌, ◌≡◌, ◌≢◌, refl, sym, ap, ◌∙◌, ◌⊎◌, inl, inr, true, false, Bool-cases, List, [], ◌∷◌,
  ◌++◌, append-nil, append_assoc, arith, All, All-append, ltb,
}
use vkt7d.Model.{Element}
use vkt7d.Collector.Split.{
  Split, nonempty, alone, appended, close_chunk, place, place_all, split_archive_read_list,
  archive_read_chunk_bytes,
}

-- What a chunk asks the meter for: each element with its quality and NS byte.
abbrev pub bytes_of : List Element → ℕ
bytes_of [] = 0
bytes_of (e ∷ es) = e.size + 2 + bytes_of es

abbrev pub flat : List (List Element) → List Element
flat [] = []
flat (c ∷ cs) = c ++ flat cs

-- A chunk is small, or one element.
abbrev pub IsChunk : List Element → Type 0
IsChunk c = (c ≢ []) × ((bytes_of c ≤ archive_read_chunk_bytes) ⊎ ((e : Element) × (c ≡ e ∷ [])))

-- The invariant of the loop, with `done` the elements placed so far.
record IsSplit (done : List Element) (s : Split) : Type 0 where
  content : flat s.chunks ++ s.chunk ≡ done
  counted : s.chunk_bytes ≡ bytes_of s.chunk
  within : s.chunk_bytes ≤ archive_read_chunk_bytes
  closed : All IsChunk s.chunks

flat-append : (cs ds : List (List Element)) → flat (cs ++ ds) ≡ flat cs ++ flat ds
flat-append [] ds = refl
flat-append (c ∷ cs) ds =
    ap (λ t. c ++ t) (flat-append cs ds) ∙ sym (append_assoc c (flat cs) (flat ds))

bytes_of-append : (xs ys : List Element) → bytes_of (xs ++ ys) ≡ bytes_of xs + bytes_of ys
bytes_of-append [] ys = omega arith
bytes_of-append (x ∷ xs) ys = omega (arith, bytes_of-append xs ys)

flat-close : (cs : List (List Element)) (c : List Element) → flat (cs ++ c ∷ []) ≡ flat cs ++ c
flat-close cs c = flat-append cs (c ∷ []) ∙ ap (λ t. flat cs ++ t) (append-nil c)

nonempty-cases :
    (c : List Element) → ((nonempty c ≡ true) × (c ≢ [])) ⊎ ((nonempty c ≡ false) × (c ≡ []))
nonempty-cases [] = inr (refl, refl)
nonempty-cases (e ∷ es) = inl (refl, λ p. cc)

close_chunk-IsSplit :
    (done : List Element) (s : Split)
    → IsSplit done s
    → IsSplit done (close_chunk s) × ((close_chunk s).chunk ≡ [])
unfolding close_chunk
close_chunk-IsSplit done s h = elim (nonempty-cases s.chunk) [
  | inl (full, ne) ↦ rw full (
    record {
      content = append-nil _ ∙ flat-close s.chunks s.chunk ∙ h.content;
      counted = refl;
      within = omega arith;
      closed =
          All-append IsChunk s.chunks (s.chunk ∷ []) h.closed
            ((ne, inl (omega (arith, h.counted, h.within))), tt);
    },
    refl,
  )
  | inr (bare, nil) ↦ rw bare (h, nil)
]

alone-IsSplit :
    (done : List Element) (s : Split) (e : Element)
    → IsSplit done s
    → s.chunk ≡ []
    → IsSplit (done ++ e ∷ []) (alone e s)
alone-IsSplit done s e h nil = record {
  content =
      ap (λ t. flat (s.chunks ++ (e ∷ []) ∷ []) ++ t) nil
      ∙ append-nil _
      ∙ flat-close s.chunks (e ∷ [])
      ∙ ap (λ t. t ++ e ∷ [])
          (sym (append-nil (flat s.chunks)) ∙ ap (λ t. flat s.chunks ++ t) (sym nil) ∙ h.content);
  counted = h.counted;
  within = h.within;
  closed = All-append IsChunk s.chunks ((e ∷ []) ∷ []) h.closed (((λ p. cc), inr (e, refl)), tt);
}

appended-IsSplit :
    (done : List Element) (s : Split) (e : Element)
    → IsSplit done s
    → s.chunk_bytes + (e.size + 2) ≤ archive_read_chunk_bytes
    → IsSplit (done ++ e ∷ []) (appended e s)
appended-IsSplit done s e h fits = record {
  content = sym (append_assoc (flat s.chunks) s.chunk (e ∷ [])) ∙ ap (λ t. t ++ e ∷ []) h.content;
  counted = omega (arith, h.counted, bytes_of-append s.chunk (e ∷ []));
  within = fits;
  closed = h.closed;
}

place-IsSplit :
    (done : List Element) (s : Split) (e : Element)
    → IsSplit done s
    → IsSplit (done ++ e ∷ []) (place s e)
unfolding place
place-IsSplit done s e h =
    let n = e.size + 2 in
    let (closed, nil) = close_chunk-IsSplit done s h in
    let empty : (close_chunk s).chunk_bytes ≡ 0 = closed.counted ∙ ap bytes_of nil in
    elim (Bool-cases (ltb archive_read_chunk_bytes n)) [
      | inl large ↦ rw large (alone-IsSplit done (close_chunk s) e closed nil)
      | inr small ↦ elim (Bool-cases (ltb archive_read_chunk_bytes (s.chunk_bytes + n))) [
        | inl over ↦ elim (nonempty-cases s.chunk) [
          | inl (full, ne) ↦
              rw (small, over, full) (appended-IsSplit done (close_chunk s) e closed (ground arith))
          | inr (bare, none) ↦
              let zero_bytes : s.chunk_bytes ≡ 0 = h.counted ∙ ap bytes_of none in
              absurd (ground arith)
        ]
        | inr room ↦ rw (small, room) (appended-IsSplit done s e h (ground arith))
      ]
    ]

place_all-IsSplit :
    (done : List Element) (s : Split) (es : List Element)
    → IsSplit done s
    → IsSplit (done ++ es) (place_all s es)
unfolding place_all
place_all-IsSplit done s [] h = rw append-nil h
place_all-IsSplit done s (e ∷ es) h =
    rw (append_assoc done (e ∷ []) es) at
      (place_all-IsSplit (done ++ e ∷ []) (place s e) es (place-IsSplit done s e h))

-- Splitting loses, adds and reorders nothing: the chunks joined are the read list. No chunk is
-- empty, and each asks for at most 60 bytes or is a single element.
pub split_archive_read_list-chunks :
    (es : List Element)
    → (flat (split_archive_read_list es) ≡ es) × All IsChunk (split_archive_read_list es)
unfolding split_archive_read_list
split_archive_read_list-chunks es =
    let start : IsSplit [] (record { chunks = []; chunk = []; chunk_bytes = 0 }) = record {
      content = refl;
      counted = refl;
      within = omega arith;
      closed = tt;
    } in
    let all = place_all-IsSplit [] _ es start in
    let (last, nil) = close_chunk-IsSplit es _ all in
    (
      sym (append-nil _)
          ∙ ap (λ t. flat (split_archive_read_list es) ++ t) (sym nil)
          ∙ last.content,
      last.closed,
    )
