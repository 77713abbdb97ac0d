-- ===== src/Collector/Run/Idle.antt =====
-- The serial port between two sessions.
use vkt7d.Common.{ℕ, zero, suc, ◌≡◌, Bool, Bool-cases, true, false, if◌then◌else◌, Bytes, inl, inr}
use vkt7d.Errors.{Error, Result, err, M}
use vkt7d.Config.{Config, not_positive}
use vkt7d.Protocol.Transaction.{SerialPort}
use vkt7d.Storage.{Database}
use vkt7d.Collector.World.{Host, World}
use vkt7d.Collector.Once.{once}
use vkt7d.Collector.Once.Port.{Used, untouched, not_opened, closed_again, once-Used}
use vkt7d.Collector.Run.{round, rounds, run}

-- What opening and closing promise of a state in which the port is not in use.
pub record Closes {P : Type 0} (Idle : P → Type 0) (open_port : M P (Unit {0})) (close_port : P → P)
    : Type 0 where
  pub closed_idle : (s : P) → Idle (close_port s)
  pub refused_idle : (s s' : P) (e : Error) → Idle s → open_port s ≡ (err e, s') → Idle s'

module _ (p : SerialPort) (d : Database) (h : Host) (decode : Bytes → Result Bytes)
    (open_port : M p.State (Unit {0})) (close_port : p.State → p.State) (cfg : Config)
    (timeout turns : ℕ) (wait : h.State → Bool × h.State) (Idle : p.State → Type 0)
    (c : Closes Idle open_port close_port) where
  abbrev W : Type 0
  W = World p.State d.State h.State

  used-Idle :
      (w : W) (s : p.State)
      → Used p d h decode open_port close_port cfg timeout turns w s
      → Idle w.port
      → Idle s
  used-Idle w _ (untouched e row) idle = idle
  used-Idle w _ (not_opened e s same) idle = c.refused_idle w.port s e idle same
  used-Idle w _ (closed_again id u s s' row same) idle = c.closed_idle s'

  round-Idle :
      (w : W)
      → Idle w.port
      → Idle (round p d h decode open_port close_port cfg timeout turns wait w).1.port
  unfolding round
  round-Idle w =
      let w1 = (once p d h decode open_port close_port cfg timeout turns w).1 in
      used-Idle w w1.port (once-Used p d h decode open_port close_port cfg timeout turns w)

  if-Idle : (b : Bool) (x y : p.State) → Idle x → Idle y → Idle (if b then x else y)
  if-Idle true x y i j = i
  if-Idle false x y i j = j

  rounds-Idle :
      (n : ℕ) (w : W)
      → Idle w.port
      → Idle (rounds p d h decode open_port close_port cfg timeout turns wait n w).1.port
  unfolding rounds
  rounds-Idle zero w idle = idle
  rounds-Idle (suc n) w idle =
      let next = round p d h decode open_port close_port cfg timeout turns wait w in
      let still = round-Idle w idle in
      elim (Bool-cases next.0) [
        | inl over ↦ rw over still
        | inr more ↦ rw more (rounds-Idle n next.1 still)
      ]

  -- However many sessions `Run` has made, and whatever they came to, the serial port is not in use
  -- between two of them and at the end, if it was not at the start.
  pub run-Idle :
      (n : ℕ) (w : W)
      → Idle w.port
      → Idle (run p d h decode open_port close_port cfg timeout turns wait n w).1.port
  unfolding run
  run-Idle n w idle = elim (Bool-cases (not_positive cfg.interval)) [
    | inl refused ↦ rw refused idle
    | inr positive ↦ rw positive (rounds-Idle n w idle)
  ]
