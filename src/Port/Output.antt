-- ===== src/Port/Output.antt =====
-- rfc2217.go: `writeRaw`, `Write`, the message of `command` and the replies of `handleNegotiation`.
pub mod Delivery
use vkt7d.Common.{
  ℕ, zero, suc, ◌==◌, Bool, ◌||◌, if◌then◌else◌, List, [], ◌∷◌, ◌++◌, Bytes, length, drop,
}
use vkt7d.Errors.{Result, ok, err, end_of_file, short_write, M, ◌>>=◌, done}
use vkt7d.Telnet.{iac, se, sb, will, wont, do_, dont, escape}
use vkt7d.Port.{Connection, Port, binary, sga, comport}

module _ (c : Connection) where
  open c use {State, write}

  -- After a `Write` of the connection that took `n` bytes.
  unfoldable pub taken : (Bytes → M State (Unit {0})) → ℕ → Bytes → M State (Unit {0})
  taken again zero b s = (err short_write, s)
  taken again (suc n) b s = again (drop (suc n) b) s

  -- The loop. Each turn takes a byte or more, so as many turns as there are bytes are enough.
  unfoldable pub write_loop : ℕ → Bytes → M State (Unit {0})
  unfolding taken
  write_loop turns [] s = (ok tt, s)
  write_loop zero (b ∷ bs) s = (err short_write, s)
  write_loop (suc turns) (b ∷ bs) s =
      (write (b ∷ bs) >>= λ n. taken (write_loop turns) n (b ∷ bs)) s

  unfoldable pub write_raw : Bytes → M (Port State) (Unit {0})
  write_raw b p =
      if p.closed
      then (err end_of_file, p)
      else let (r, s) = write_loop (length b) b p.conn in (r, record p { conn = s })

  unfoldable pub send : Bytes → M (Port State) ℕ
  send [] = done 0
  send (b ∷ bs) = write_raw (escape (b ∷ bs)) >>= λ u. done (length (b ∷ bs))

-- The message of `command`.
unfoldable pub command_message : ℕ → Bytes → Bytes
command_message cmd value = iac ∷ sb ∷ comport ∷ cmd ∷ (escape value ++ iac ∷ se ∷ [])

abbrev pub is_supported : ℕ → Bool
is_supported opt = (opt == binary) || (opt == sga) || (opt == comport)

-- What `handleNegotiation` writes; errors of the write are ignored.
unfoldable pub reply : ℕ → ℕ → Bytes
reply cmd opt =
    if cmd == do_
    then if is_supported opt then iac ∷ will ∷ opt ∷ [] else iac ∷ wont ∷ opt ∷ []
    else if cmd == dont
    then iac ∷ wont ∷ opt ∷ []
    else if cmd == will
    then if is_supported opt then iac ∷ do_ ∷ opt ∷ [] else iac ∷ dont ∷ opt ∷ []
    else if cmd == wont
    then iac ∷ dont ∷ opt ∷ []
    else []

-- The messages of `negotiate`.
abbrev pub greetings : List Bytes
greetings =
    (iac ∷ will ∷ binary ∷ [])
    ∷ (iac ∷ do_ ∷ binary ∷ [])
    ∷ (iac ∷ will ∷ sga ∷ [])
    ∷ (iac ∷ do_ ∷ sga ∷ [])
    ∷ (iac ∷ will ∷ comport ∷ [])
    ∷ (iac ∷ do_ ∷ comport ∷ [])
    ∷ []

module _ (c : Connection) where
  open c use {State}

  unfoldable pub write_each : List Bytes → M (Port State) (Unit {0})
  write_each [] = done tt
  write_each (m ∷ ms) = write_raw c m >>= λ u. write_each ms

  unfoldable pub negotiate : M (Port State) (Unit {0})
  negotiate = write_each greetings
