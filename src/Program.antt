-- ===== src/Program.antt =====
-- cmd/vkt7d/main.go: `main`. What it logs is left out. `os.Args`, the environment, pgx, the opening
-- of the serial port and the signals are parameters; `turns` bounds the loop of an archive, and
-- `main` is given the number of sessions after which one looks at it.
pub mod Start
pub mod Ends
pub mod Story
use Prim.Native.String.{String}
use vkt7d.Common.{ℕ, ◌+◌, ◌/◌, ◌^◌, Bool, true, false, if◌then◌else◌, List, Bytes}
use vkt7d.Common.Int.{ℤ, pos, negsuc}
use vkt7d.Errors.{Error, Result, ok, err, M, ◌>>◌, done}
use vkt7d.Config.{Config, load}
use vkt7d.Protocol.Transaction.{SerialPort}
use vkt7d.Storage.{Database}
use vkt7d.Storage.Pool.{new_store, migrate}
use vkt7d.Collector.World.{Host, World, on_db}
use vkt7d.Collector.Run.{RunEnd, context_done, no_ticker, still_running, run}

-- How the process ends: with a status, by a panic; or it is still running.
pub data Exit : Type 0 where
  status : ℕ → Exit
  panicked : Exit
  running : Exit

-- A duration in milliseconds, rounded up; one that is not positive counts as 0 in `Tx`.
abbrev pub milliseconds : ℤ → ℕ
milliseconds (pos n) = (n + 999999) / 10 ^ 6
milliseconds (negsuc n) = 0

module _ (p : SerialPort) (d : Database) (h : Host) (decode : Bytes → Result Bytes)
    (open_port : Config → M p.State (Unit {0})) (close_port : Config → p.State → p.State)
    (connect : String → M d.State (Unit {0})) (close_pool : d.State → d.State)
    (wait : h.State → Bool × h.State) (turns : ℕ) where
  abbrev pub Process : Type 0
  Process = World p.State d.State h.State

  -- The database, and the schema if the flag asks for it.
  abbrev pub started : Config → M Process (Unit {0})
  started cfg =
      on_db (new_store d connect close_pool cfg.db_url)
      >> (if cfg.migrate then on_db (migrate d) else done tt)

  abbrev pub run_with : Config → ℕ → Process → RunEnd × Process
  run_with cfg n w =
      run p d h decode (open_port cfg) (close_port cfg) cfg (milliseconds cfg.timeout) turns wait n
        w

  -- The deferred `Close` runs when `main` returns and when it panics, not at `os.Exit`.
  abbrev pub pool_closed : Process → Process
  pool_closed w = record w { db = close_pool w.db }

  abbrev pub finished : RunEnd × Process → Exit × Process
  finished (context_done, w) = (status 0, pool_closed w)
  finished (no_ticker, w) = (panicked, pool_closed w)
  finished (still_running, w) = (running, w)

  -- `os.Exit(2)` without a database or a schema.
  abbrev pub ended : Config → ℕ → Result (Unit {0}) × Process → Exit × Process
  ended cfg n (err e, w) = (status 2, w)
  ended cfg n (ok u, w) = finished (run_with cfg n w)

  module _ (getenv : String → String) (atoi parse_duration : String → Result ℤ)
      (flags : List String → Config → Result (Unit {0}) × Config) where
    unfoldable pub main : List String → ℕ → Process → Exit × Process
    main args n w =
        let cfg = load getenv atoi parse_duration flags args in ended cfg n (started cfg w)
