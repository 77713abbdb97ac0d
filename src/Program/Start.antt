-- ===== src/Program/Start.antt =====
-- How the program starts: the connection to the database, its answer, and the schema.
use Prim.Native.String.{String}
use vkt7d.Common.{if◌then◌else◌, ℕ, ◌≡◌, refl, ap, ◌∙◌, Bool, true, false, Bytes}
use vkt7d.Errors.{Error, Result, ok, err, M, ◌>>◌, done}
use vkt7d.Config.{Config}
use vkt7d.Protocol.Transaction.{SerialPort}
use vkt7d.Storage.{Database, create_schema}
use vkt7d.Storage.Pool.{new_store, migrate, pinged_pool}
use vkt7d.Collector.World.{Host, World, on_db}
use vkt7d.Program.{started}

-- The database is connected and answers, and the schema is set up if the flag asks for it.
module _ (d : Database) (connect : String → M d.State (Unit {0})) (close_pool : d.State → d.State)
    (cfg : Config) where
  pub data Ready (s : d.State) : d.State → Type 0 where
    connected :
        (s1 s2 : d.State)
        → connect cfg.db_url s ≡ (ok tt, s1)
        → d.ping s1 ≡ (ok tt, s2)
        → cfg.migrate ≡ false
        → Ready s s2
    with_schema :
        (s1 s2 s3 : d.State)
        → connect cfg.db_url s ≡ (ok tt, s1)
        → d.ping s1 ≡ (ok tt, s2)
        → cfg.migrate ≡ true
        → d.exec create_schema s2 ≡ (ok tt, s3)
        → Ready s s3

  -- It is not: with no connection, with no answer, where the pool is closed, or with no schema.
  pub data NotReady (s : d.State) : d.State → Type 0 where
    no_connection : (e : Error) (s1 : d.State) → connect cfg.db_url s ≡ (err e, s1) → NotReady s s1
    no_answer :
        (e : Error) (s1 s2 : d.State)
        → connect cfg.db_url s ≡ (ok tt, s1)
        → d.ping s1 ≡ (err e, s2)
        → NotReady s (close_pool s2)
    no_schema :
        (e : Error) (s1 s2 s3 : d.State)
        → connect cfg.db_url s ≡ (ok tt, s1)
        → d.ping s1 ≡ (ok tt, s2)
        → cfg.migrate ≡ true
        → d.exec create_schema s2 ≡ (err e, s3)
        → NotReady s s3

module _ (p : SerialPort) (d : Database) (h : Host) (decode : Bytes → Result Bytes)
    (open_port : Config → M p.State (Unit {0})) (close_port : Config → p.State → p.State)
    (connect : String → M d.State (Unit {0})) (close_pool : d.State → d.State)
    (wait : h.State → Bool × h.State) (turns : ℕ) where
  abbrev W : Type 0
  W = World p.State d.State h.State

  abbrev begins : Config → W → Result (Unit {0}) × W
  begins = started p d h decode open_port close_port connect close_pool wait turns

  -- The start has come to one of the two.
  pub data Begun (cfg : Config) (w : W) : Result (Unit {0}) × W → Type 0 where
    well :
        (s : d.State)
        → Ready d connect close_pool cfg w.db s
        → Begun cfg w (ok tt, record w { db = s })
    ill :
        (e : Error) (s : d.State)
        → NotReady d connect close_pool cfg w.db s
        → Begun cfg w (err e, record w { db = s })

  -- The rest of the start behind `New`, behind the ping, and behind the connection.
  abbrev behind_new : Config → W → Result (Unit {0}) × d.State → Result (Unit {0}) × W
  behind_new cfg w r =
      ((λ _. (r.0, record w { db = r.1 })) >> (if cfg.migrate then on_db (migrate d) else done tt))
        w

  abbrev behind_ping : Config → W → Result (Unit {0}) × d.State → Result (Unit {0}) × W
  behind_ping cfg w r = behind_new cfg w (pinged_pool d connect close_pool r)

  abbrev behind_connect : Config → W → Result (Unit {0}) × d.State → Result (Unit {0}) × W
  behind_connect cfg w r =
      behind_new cfg w (((λ _. r) >> (λ s. pinged_pool d connect close_pool (d.ping s))) w.db)

  module _ (cfg : Config) (w : W) where
    executed-Begun :
        (s1 s2 : d.State) (r : Result (Unit {0}) × d.State)
        → connect cfg.db_url w.db ≡ (ok tt, s1)
        → d.ping s1 ≡ (ok tt, s2)
        → cfg.migrate ≡ true
        → d.exec create_schema s2 ≡ r
        → Begun cfg w (r.0, record w { db = r.1 })
    executed-Begun s1 s2 (ok u, s3) one two asked same =
        well s3 (with_schema s1 s2 s3 one two asked same)
    executed-Begun s1 s2 (err e, s3) one two asked same =
        ill e s3 (no_schema e s1 s2 s3 one two asked same)

    schema-Begun :
        (s1 s2 : d.State) (b : Bool)
        → connect cfg.db_url w.db ≡ (ok tt, s1)
        → d.ping s1 ≡ (ok tt, s2)
        → cfg.migrate ≡ b
        → Begun cfg w ((if b then on_db (migrate d) else done tt) (record w { db = s2 }))
    schema-Begun s1 s2 true one two asked =
        executed-Begun s1 s2 (d.exec create_schema s2) one two asked refl
    schema-Begun s1 s2 false one two plain = well s2 (connected s1 s2 one two plain)

    pinged-Begun :
        (s1 : d.State) (r : Result (Unit {0}) × d.State)
        → connect cfg.db_url w.db ≡ (ok tt, s1)
        → d.ping s1 ≡ r
        → Begun cfg w (behind_ping cfg w r)
    pinged-Begun s1 (err e, s2) one same = ill e (close_pool s2) (no_answer e s1 s2 one same)
    pinged-Begun s1 (ok u, s2) one same = schema-Begun s1 s2 cfg.migrate one same refl

    connected-Begun :
        (r : Result (Unit {0}) × d.State)
        → connect cfg.db_url w.db ≡ r
        → Begun cfg w (behind_connect cfg w r)
    connected-Begun (ok u, s1) same = pinged-Begun s1 (d.ping s1) same refl
    connected-Begun (err e, s1) same = ill e s1 (no_connection e s1 same)

    pub started-Begun : Begun cfg w (begins cfg w)
    unfolding new_store
    started-Begun = connected-Begun (connect cfg.db_url w.db) refl

    -- What is ready has been started.
    pub Ready-started :
        (s : d.State)
        → Ready d connect close_pool cfg w.db s
        → begins cfg w ≡ (ok tt, record w { db = s })
    unfolding new_store
    Ready-started _ (connected s1 s2 one two plain) =
        ap (behind_connect cfg w) one ∙ ap (behind_ping cfg w) two ∙ rw plain refl
    Ready-started _ (with_schema s1 s2 s3 one two asked three) =
        ap (behind_connect cfg w) one
        ∙ ap (behind_ping cfg w) two
        ∙ rw asked (ap (λ r. (r.0, record w { db = r.1 })) three)
