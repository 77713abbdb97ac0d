-- ===== src/Collector/World.antt =====
-- What a session of the collector works on: a serial port, the database, and the clock with the
-- context, each with a state of its own.
use vkt7d.Errors.{M}
use vkt7d.Common.{Bool}
use vkt7d.Calendar.{Time}
use vkt7d.Model.{Meta}

-- The clock, and whether the context is cancelled.
pub record Host : Type 1 where
  pub State : Type 0
  pub now : State → Time × State
  pub cancelled : State → Bool × State

-- The states of the port, the database and the host, and what `meta` points to.
pub record World (P D H : Type 0) : Type 0 where
  pub port : P
  pub db : D
  pub host : H
  pub meta : Meta

module _ {P D H : Type 0} where
  abbrev pub on_port : {A : Type 0} → M P A → M (World P D H) A
  on_port m w = let (r, s) = m w.port in (r, record w { port = s })

  abbrev pub on_db : {A : Type 0} → M D A → M (World P D H) A
  on_db m w = let (r, s) = m w.db in (r, record w { db = s })
