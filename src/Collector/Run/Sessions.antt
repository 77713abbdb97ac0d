-- ===== src/Collector/Run/Sessions.antt =====
-- How many sessions `Run` makes.
use vkt7d.Common.{ℕ, zero, suc, ◌≤◌, ◌≡◌, refl, ap, Bool, true, false, arith, Bytes}
use vkt7d.Errors.{Result, M}
use vkt7d.Config.{Config, not_positive}
use vkt7d.Protocol.Transaction.{SerialPort}
use vkt7d.Storage.{Database}
use vkt7d.Collector.World.{Host, World}
use vkt7d.Collector.Once.{once}
use vkt7d.Collector.Run.{RunEnd, context_done, still_running, round, rounds, run}

module _ (p : SerialPort) (d : Database) (h : Host) (decode : Bytes → Result Bytes)
    (open_port : M p.State (Unit {0})) (close_port : p.State → p.State) (cfg : Config)
    (timeout turns : ℕ) (wait : h.State → Bool × h.State) where
  abbrev W : Type 0
  W = World p.State d.State h.State

  abbrev session : W → W
  session w = (once p d h decode open_port close_port cfg timeout turns w).1

  abbrev next : W → Bool × W
  next = round p d h decode open_port close_port cfg timeout turns wait

  abbrev loop : ℕ → W → RunEnd × W
  loop = rounds p d h decode open_port close_port cfg timeout turns wait

  -- This many sessions lead from `w` to `w'`, each but the last followed by a tick. The last is
  -- followed by the end of the context, or else by a tick too.
  pub data Sessions : ℕ → W → Bool → W → Type 0 where
    no_session : (w : W) → Sessions zero w false w
    last :
        (w : W) (s : h.State)
        → wait (session w).host ≡ (true, s)
        → Sessions 1 w true (record (session w) { host = s })
    one_more :
        (k : ℕ) (w : W) (s : h.State) (over : Bool) (w' : W)
        → wait (session w).host ≡ (false, s)
        → Sessions k (record (session w) { host = s }) over w'
        → Sessions (suc k) w over w'

  next-host :
      (w : W) (over : Bool) (s : h.State)
      → wait (session w).host ≡ (over, s)
      → next w ≡ (over, record (session w) { host = s })
  unfolding round
  next-host w over s found = ap (λ x. (x.0, record (session w) { host = x.1 })) found

  -- With this many rounds the context ends, or there would be another round.
  pub data Rounds (n : ℕ) (w : W) : RunEnd × W → Type 0 where
    ended : (k : ℕ) (w' : W) → k ≤ n → Sessions k w true w' → Rounds n w (context_done, w')
    goes_on : (w' : W) → Sessions n w false w' → Rounds n w (still_running, w')

  more-Rounds :
      (n : ℕ) (w : W) (s : h.State) (r : RunEnd × W)
      → wait (session w).host ≡ (false, s)
      → Rounds n (record (session w) { host = s }) r
      → Rounds (suc n) w r
  more-Rounds n w s _ tick (ended k w' le run_on) =
      ended (suc k) w' (omega (arith, le)) (one_more k w s true w' tick run_on)
  more-Rounds n w s _ tick (goes_on w' run_on) = goes_on w' (one_more n w s false w' tick run_on)

  found-Rounds :
      (n : ℕ) (w : W) (x : Bool × h.State)
      → wait (session w).host ≡ x
      → ((v : W) → Rounds n v (loop n v))
      → Rounds (suc n) w (loop (suc n) w)
  unfolding rounds
  found-Rounds n w (true, s) over rest =
      rw (next-host w true s over)
        (ended 1 (record (session w) { host = s }) (omega arith) (last w s over))
  found-Rounds n w (false, s) tick rest =
      let v = record (session w) { host = s } in
      rw (next-host w false s tick) (more-Rounds n w s (loop n v) tick (rest v))

  pub rounds-Rounds : (n : ℕ) (w : W) → Rounds n w (loop n w)
  rounds-Rounds zero w = unfold rounds in goes_on w (no_session w)
  rounds-Rounds (suc n) w = found-Rounds n w (wait (session w).host) refl (rounds-Rounds n)

  pub rounds-Sessions :
      (k : ℕ) (w w' : W) (n : ℕ) → Sessions k w true w' → k ≤ n → loop n w ≡ (context_done, w')
  unfolding rounds
  rounds-Sessions _ w _ zero (last _ s found) le = absurd (omega (arith, le))
  rounds-Sessions _ w _ (suc n) (last _ s found) le = rw (next-host w true s found) refl
  rounds-Sessions _ w w' zero (one_more k _ s _ _ found rest) le = absurd (omega (arith, le))
  rounds-Sessions _ w w' (suc n) (one_more k _ s _ _ found rest) le =
      rw (next-host w false s found)
        (rounds-Sessions k (record (session w) { host = s }) w' n rest (omega (arith, le)))

  -- If the interval is positive, `Run` makes a session at the start and one after each tick, and ends
  -- with the first wait that finds the context done: in the state that these sessions and waits lead
  -- to, given at least so many rounds.
  pub run-Sessions :
      (w w' : W) (k n : ℕ)
      → not_positive cfg.interval ≡ false
      → Sessions k w true w'
      → k ≤ n
      → run p d h decode open_port close_port cfg timeout turns wait n w ≡ (context_done, w')
  unfolding run
  run-Sessions w w' k n positive s le = rw positive (rounds-Sessions k w w' n s le)
