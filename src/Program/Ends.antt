-- ===== src/Program/Ends.antt =====
-- How the program ends, and what it leaves of the serial port.
use Prim.Native.String.{String}
use vkt7d.Common.{ℕ, ◌≡◌, refl, Bool, Bool-cases, List, Bytes, inl, inr}
use vkt7d.Common.Int.{ℤ}
use vkt7d.Errors.{Result, ok, err, M, ◌>>◌, done}
use vkt7d.Config.{Config, load}
use vkt7d.Protocol.Transaction.{SerialPort}
use vkt7d.Storage.{Database}
use vkt7d.Storage.Pool.{new_store, migrate}
use vkt7d.Collector.World.{Host, World, on_db}
use vkt7d.Collector.Run.{RunEnd, context_done, no_ticker, still_running}
use vkt7d.Collector.Run.Idle.{Closes, run-Idle}
use vkt7d.Program.{Exit, milliseconds, started, run_with, finished, ended, main}

module _ (p : SerialPort) (d : Database) (h : Host) (decode : Bytes → Result Bytes)
    (open_port : Config → M p.State (Unit {0})) (close_port : Config → p.State → p.State)
    (connect : String → M d.State (Unit {0})) (close_pool : d.State → d.State)
    (wait : h.State → Bool × h.State) (turns : ℕ) where
  abbrev W : Type 0
  W = World p.State d.State h.State

  abbrev begins : Config → W → Result (Unit {0}) × W
  begins = started p d h decode open_port close_port connect close_pool wait turns

  abbrev ends : Config → ℕ → Result (Unit {0}) × W → Exit × W
  ends = ended p d h decode open_port close_port connect close_pool wait turns

  on_db-port :
      {B : Type 0} (r : Result (Unit {0}) × W) (m : M d.State B) (w : W)
      → (((λ _. r) >> on_db m) w).1.port ≡ r.1.port
  on_db-port (ok a, w') m w = refl
  on_db-port (err e, w') m w = refl

  done-port : (r : Result (Unit {0}) × W) (w : W) → (((λ _. r) >> done tt) w).1.port ≡ r.1.port
  done-port (ok a, w') w = refl
  done-port (err e, w') w = refl

  started-port : (cfg : Config) (w : W) → (begins cfg w).1.port ≡ w.port
  started-port cfg w =
      let connected = on_db (new_store d connect close_pool cfg.db_url) w in
      elim (Bool-cases cfg.migrate) [
        | inl asked ↦ rw asked (on_db-port connected (migrate d) w)
        | inr plain ↦ rw plain (done-port connected w)
      ]

  finished-port :
      (r : RunEnd × W)
      → (finished p d h decode open_port close_port connect close_pool wait turns r).1.port
        ≡ r.1.port
  finished-port (context_done, w) = refl
  finished-port (no_ticker, w) = refl
  finished-port (still_running, w) = refl

  module _ (getenv : String → String) (atoi parse_duration : String → Result ℤ)
      (flags : List String → Config → Result (Unit {0}) × Config) where
    abbrev program : List String → ℕ → W → Exit × W
    program =
        main p d h decode open_port close_port connect close_pool wait turns getenv atoi
          parse_duration flags

    abbrev configured : List String → Config
    configured = load getenv atoi parse_duration flags

    module _ (Idle : p.State → Type 0)
        (c : (cfg : Config) → Closes Idle (open_port cfg) (close_port cfg)) where
      ended-Idle :
          (cfg : Config) (n : ℕ) (r : Result (Unit {0}) × W)
          → Idle r.1.port
          → Idle (ends cfg n r).1.port
      ended-Idle cfg n (err e, w) idle = idle
      ended-Idle cfg n (ok u, w) idle =
          let out =
            run_with p d h decode open_port close_port connect close_pool wait turns cfg n w in
          rw (finished-port out) (
            run-Idle p d h decode (open_port cfg) (close_port cfg) cfg (milliseconds cfg.timeout)
              turns wait Idle (c cfg) n w idle)

      -- However the program ends, and whenever it waits: with the arguments and the environment as
      -- they may be, with or without a database, and after any number of sessions whatever they came
      -- to, the serial port is not in use, if it was not at the start.
      pub main-Idle :
          (args : List String) (n : ℕ) (w : W) → Idle w.port → Idle (program args n w).1.port
      unfolding main
      main-Idle args n w idle =
          let cfg = configured args in
          ended-Idle cfg n (begins cfg w) (rw (started-port cfg w) idle)
