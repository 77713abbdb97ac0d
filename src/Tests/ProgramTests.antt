-- ===== src/Tests/ProgramTests.antt =====
-- The program from its start to its end: with a meter that does not answer and a context that is
-- done after the second session, and with an interval of 0.
use Prim.Native.String.{String}
use vkt7d.Common.{ℕ, zero, suc, ◌≡◌, refl, true, false, Bool, none, List, [], arith}
use vkt7d.Common.Int.{pos}
use vkt7d.Errors.{Result, ok, M}
use vkt7d.Config.{Config, parse, load}
use vkt7d.Collector.World.{Host}
use vkt7d.Collector.Once.{once}
use vkt7d.Collector.Run.{round}
use vkt7d.Collector.Run.Sessions.{last, one_more}
use vkt7d.Collector.Run.Idle.{Closes}
use vkt7d.Storage.Pool.{new_store}
use vkt7d.Storage.{device}
use vkt7d.Protocol.Client.{begin, write}
use vkt7d.Protocol.Transaction.{tx}
use vkt7d.Program.{Process, Exit, status, panicked, milliseconds, started, main}
use vkt7d.Program.Ends.{main-Idle}
use vkt7d.Program.Start.{Ready, with_schema}
use vkt7d.Program.Story.{Story, main_stops}
use vkt7d.Collector.Run.{run}
use vkt7d.Tests.Script.{Script, scripted}
use vkt7d.Tests.Store.{Stored, at_noon, memory}
use vkt7d.Tests.OnceTests.{cfg, no_environment, no_number, ascii}

-- A clock that stands still, and how many ticks come before the context is done.
abbrev ticking : Host
ticking = record { State = ℕ; now = λ s. (at_noon, s); cancelled = λ s. (false, s) }

abbrev select : ℕ → Bool × ℕ
select zero = (true, zero)
select (suc n) = (false, n)

-- A serial port that is idle when it has no turns left.
abbrev IsIdle : Script → Type 0
IsIdle s = s.turns ≡ 0

abbrev opens_port : Config → M Script (Unit {0})
opens_port c s = (ok tt, record s { turns = 2 })

abbrev closes_port : Config → Script → Script
closes_port c s = record s { turns = 0 }

opens_port-Closes : (c : Config) → Closes IsIdle (opens_port c) (closes_port c)
opens_port-Closes c = record { closed_idle = λ s. refl; refused_idle = λ s s' e idle same. cc }

abbrev connects : String → M Stored (Unit {0})
connects url s = (ok tt, s)

abbrev disconnects : Stored → Stored
disconnects s = record s { pending = [] }

abbrev given : Config → List String → Config → Result (Unit {0}) × Config
given c args d = (ok tt, c)

abbrev Proc : Type 0
Proc = Process scripted memory ticking ascii opens_port closes_port connects disconnects select 1

abbrev at_start : Proc
at_start = record {
  port = record { reads = []; written = []; turns = 0 };
  db = record { rows = []; pending = [] };
  host = 1;
  meta = record { scheme_tv1 = none; scheme_tv2 = none; active_db = none };
}

abbrev cfg_migrating : Config
cfg_migrating = record cfg { migrate = true; verbose = true }

abbrev cfg_stopped : Config
cfg_stopped = record cfg_migrating { interval = pos 0 }

abbrev program : Config → Exit × Proc
program c =
    main scripted memory ticking ascii opens_port closes_port connects disconnects select 1
      no_environment no_number no_number (given c) [] 5 at_start

main-Idle_example : IsIdle (program cfg).1.port
main-Idle_example =
    main-Idle scripted memory ticking ascii opens_port closes_port connects disconnects select 1
      no_environment no_number no_number (given cfg) IsIdle opens_port-Closes [] 5 at_start refl

abbrev after_start : Config → Proc
after_start c =
    (started scripted memory ticking ascii opens_port closes_port connects disconnects select 1 c
      at_start).1

abbrev session : Proc → Proc
session w =
    (round scripted memory ticking ascii (opens_port cfg_migrating) (closes_port cfg_migrating)
      cfg_migrating (milliseconds (pos 8000)) 1 select w).1

abbrev two_sessions : Proc
two_sessions = session (session (after_start cfg_migrating))

abbrev WithDatabase : Config → Stored → Type 0
WithDatabase c s = Ready memory connects disconnects c at_start.db s

ready : WithDatabase cfg_migrating (after_start cfg_migrating).db
unfolding new_store
ready = with_schema at_start.db at_start.db (after_start cfg_migrating).db refl refl refl refl

main_stops_example :
    program cfg_migrating ≡ (status 0, record (two_sessions) { db = disconnects (two_sessions).db })
unfolding load parse new_store round once device begin write tx
main_stops_example =
    main_stops scripted memory ticking ascii opens_port closes_port connects disconnects select 1
      no_environment no_number no_number (given cfg_migrating) [] 5 2 at_start two_sessions
      (after_start cfg_migrating).db ready refl
      (one_more 1 (after_start cfg_migrating) 0 true two_sessions refl
        (last (session (after_start cfg_migrating)) 0 refl))
      (omega arith)

-- An interval of 0: the schema is set up, and then the panic.
panics_at_0 :
    program cfg_stopped
    ≡ (panicked, record (after_start cfg_stopped) { db = disconnects (after_start cfg_stopped).db })
unfolding load parse new_store main run
panics_at_0 = refl
