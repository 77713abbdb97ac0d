-- ===== src/Collector/Run.antt =====
-- collector.go: `Run`, a session at the start and then one at each tick, until the context ends.
pub mod Sessions
pub mod Idle
use vkt7d.Common.{ℕ, zero, suc, Bool, true, false, if◌then◌else◌, Bytes}
use vkt7d.Errors.{Result, M}
use vkt7d.Config.{Config, not_positive}
use vkt7d.Protocol.Transaction.{SerialPort}
use vkt7d.Storage.{Database}
use vkt7d.Collector.World.{Host, World}
use vkt7d.Collector.Once.{once}

-- How `Run` ends: the context is done, `time.NewTicker` panics, or the rounds are used up.
pub data RunEnd : Type 0 where
  context_done : RunEnd
  no_ticker : RunEnd
  still_running : RunEnd

module _ (p : SerialPort) (d : Database) (h : Host) (decode : Bytes → Result Bytes)
    (open_port : M p.State (Unit {0})) (close_port : p.State → p.State) (cfg : Config)
    (timeout turns : ℕ) (wait : h.State → Bool × h.State) where
  -- `wait` is the select of the loop: it tells whether it took the end of the context.
  unfoldable pub round : World p.State d.State h.State → Bool × World p.State d.State h.State
  round w =
      let w1 = (once p d h decode open_port close_port cfg timeout turns w).1 in
      let (over, s) = wait w1.host in (over, record w1 { host = s })

  unfoldable pub rounds : ℕ → World p.State d.State h.State → RunEnd × World p.State d.State h.State
  rounds zero w = (still_running, w)
  rounds (suc n) w =
      let (over, w') = round w in
      let rest = rounds n w' in if over then (context_done, w') else rest

  -- `time.NewTicker` panics if the interval is not positive.
  unfoldable pub run : ℕ → World p.State d.State h.State → RunEnd × World p.State d.State h.State
  unfolding rounds
  run n w = if not_positive cfg.interval then (no_ticker, w) else rounds n w
