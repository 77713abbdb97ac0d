-- ===== src/Port/Queue.antt =====
-- rfc2217.go: `Read` and the drain loop of `ResetInputBuffer`, on the chunks that the reader has
-- put into the channel `data`.
pub mod Order
pub mod Filled
use vkt7d.Common.{ℕ, ltb, Bool, ◌||◌, if◌then◌else◌, List, [], ◌∷◌, ◌++◌, Bytes, length, take, drop}
use vkt7d.Errors.{Error, ok, err, end_of_file, M, ◌>>=◌}
use vkt7d.Port.{Port}

-- The case that `select` takes.
pub data Choice : Type 0 where
  chunk_ready : Choice
  read_failed : Error → Choice
  port_closed : Choice
  read_timer : Choice

module _ {C : Type 0} where
  -- The channel has room for 64 chunks; what stands behind them in the list is the chunk with which
  -- the reader waits.
  abbrev pub is_full : Port C → Bool
  is_full p = ltb 63 (length p.chunks)

  -- What a chunk leaves over goes into the channel again, behind the chunks that wait there. On a
  -- closed port it is dropped. With a full channel `Read` waits, and nobody takes a chunk meanwhile:
  -- only `Close` ends the wait, and what `Read` then returns, with the rest dropped, is given here.
  abbrev pub put_back : ℕ → Bytes → Port C → Port C
  put_back n d p =
      if ltb n (length d)
      then if p.closed || is_full p then p else record p { chunks = p.chunks ++ drop n d ∷ [] }
      else p

  abbrev pub take_chunk : ℕ → List Bytes → M (Port C) Bytes
  take_chunk n [] p = (ok [], p)
  take_chunk n (d ∷ q) p = (ok (take n d), put_back n d (record p { chunks = q }))

  abbrev pub chosen : ℕ → Choice → M (Port C) Bytes
  chosen n chunk_ready p = take_chunk n p.chunks p
  chosen n (read_failed e) p = (err e, p)
  chosen n port_closed p = (err end_of_file, p)
  chosen n read_timer p = (ok [], p)

  -- `Read` into a buffer of `n` bytes: the bytes that it fills in.
  unfoldable pub read : ℕ → Choice → M (Port C) Bytes
  read ℕ.zero choice p = (ok [], p)
  read (ℕ.suc n) choice p = chosen (ℕ.suc n) choice p

  -- The loop at the end of `ResetInputBuffer`.
  abbrev pub drain : M (Port C) (Unit {0})
  drain p = (ok tt, record p { chunks = [] })
