-- ===== src/Program/Story.antt =====
-- The course of the program, from the start to its end.
use Prim.Native.String.{String}
use vkt7d.Common.{ℕ, ◌≤◌, ◌≡◌, ap, ◌∙◌, Bool, true, false, List, Bytes}
use vkt7d.Common.Int.{ℤ}
use vkt7d.Errors.{Error, Result, err, M}
use vkt7d.Config.{Config, not_positive, parse, load}
use vkt7d.Protocol.Transaction.{SerialPort}
use vkt7d.Storage.{Database}
use vkt7d.Collector.World.{Host, World}
use vkt7d.Collector.Run.Sessions.{Sessions, ended, run-Sessions}
use vkt7d.Program.{
  Exit, status, panicked, running, milliseconds, started, finished, ended as program_ended, main,
}
use vkt7d.Program.Start.{Ready, NotReady, Ready-started}

module _ (p : SerialPort) (d : Database) (h : Host) (decode : Bytes → Result Bytes)
    (open_port : Config → M p.State (Unit {0})) (close_port : Config → p.State → p.State)
    (connect : String → M d.State (Unit {0})) (close_pool : d.State → d.State)
    (wait : h.State → Bool × h.State) (turns : ℕ) where
  abbrev W : Type 0
  W = World p.State d.State h.State

  abbrev begins : Config → W → Result (Unit {0}) × W
  begins = started p d h decode open_port close_port connect close_pool wait turns

  module _ (getenv : String → String) (atoi parse_duration : String → Result ℤ)
      (flags : List String → Config → Result (Unit {0}) × Config) where
    abbrev program : List String → ℕ → W → Exit × W
    program =
        main p d h decode open_port close_port connect close_pool wait turns getenv atoi
          parse_duration flags

    abbrev configured : List String → Config
    configured = load getenv atoi parse_duration flags

    -- The sessions of `Run` with this configuration.
    abbrev pub RunsFrom : Config → ℕ → W → Bool → W → Type 0
    RunsFrom cfg =
        Sessions p d h decode (open_port cfg) (close_port cfg) cfg (milliseconds cfg.timeout) turns
          wait

    -- With a database that answers, the schema set up if it is asked for, and a positive interval,
    -- the program makes a session at the start and one after each tick; with the first wait that
    -- finds the context done it closes the pool and ends with status 0, if it is looked at after at
    -- least so many sessions.
    pub main_stops :
        (args : List String) (n k : ℕ) (w w' : W) (s : d.State)
        → let cfg = configured args in
          Ready d connect close_pool cfg w.db s
          → not_positive cfg.interval ≡ false
          → RunsFrom cfg k (record w { db = s }) true w'
          → k ≤ n
          → program args n w ≡ (status 0, record w' { db = close_pool w'.db })
    unfolding main
    main_stops args n k w w' s ready positive sessions le =
        let cfg = configured args in
        let whole =
          run-Sessions p d h decode (open_port cfg) (close_port cfg) cfg (milliseconds cfg.timeout)
            turns wait (record w { db = s }) w' k n positive sessions le in
        ap (program_ended p d h decode open_port close_port connect close_pool wait turns cfg n) (
          Ready-started p d h decode open_port close_port connect close_pool wait turns cfg w s
            ready)
        ∙ ap (finished p d h decode open_port close_port connect close_pool wait turns) whole

    -- What becomes of the program, looked at after this many sessions.
    pub data Story (args : List String) (n : ℕ) (w : W) : Exit × W → Type 0 where
      not_ready :
          (s : d.State)
          → NotReady d connect close_pool (configured args) w.db s
          → Story args n w (status 2, record w { db = s })
      unchecked :
          (s : d.State) (e : Error)
          → Ready d connect close_pool (configured args) w.db s
          → not_positive (configured args).interval ≡ true
          → (parse getenv atoi parse_duration flags args).0 ≡ err e
          → Story args n w (panicked, record w { db = close_pool s })
      stopped :
          (s : d.State) (k : ℕ) (w' : W)
          → Ready d connect close_pool (configured args) w.db s
          → not_positive (configured args).interval ≡ false
          → k ≤ n
          → RunsFrom (configured args) k (record w { db = s }) true w'
          → Story args n w (status 0, record w' { db = close_pool w'.db })
      at_work :
          (s : d.State) (w' : W)
          → Ready d connect close_pool (configured args) w.db s
          → not_positive (configured args).interval ≡ false
          → RunsFrom (configured args) n (record w { db = s }) false w'
          → Story args n w (running, w')
