-- ===== src/Tests/Store.antt =====
-- A database in memory that logs what is executed, and a clock that stands still: they show that the
-- hypotheses on them can be met.
use vkt7d.Common.{◌*◌, ◌≡◌, refl, false, List, [], ◌∷◌, ◌++◌, arith, inl, inr}
use vkt7d.Errors.{Error, store_failed, ok, err}
use vkt7d.Calendar.{Time, IsTime, days_in, month_index, stamp}
use vkt7d.Storage.{Statement, row, no_rows, Database}
use vkt7d.Storage.Commit.{Transactions, all_applied}
use vkt7d.Collector.World.{Host}
use vkt7d.Collector.Session.{Job}
use vkt7d.Collector.Session.Start.{Stores}
use vkt7d.Collector.Session.Ends.{Bounded}
use vkt7d.Collector.Session.Saves.{Logged}
use vkt7d.Collector.Session.Writes.{Quiet}
use vkt7d.Tests.Script.{scripted}
use vkt7d.Tests.ClientTests.{meter}

pub record Stored : Type 0 where
  pub rows : List Statement
  pub pending : List Statement

-- 5 March 2024, 12:00 and 10:00.
abbrev pub at_noon : Time
at_noon = record { month = month_index 2024 3; day = 4; second = 12 * 3600 }

abbrev pub at_ten : Time
at_ten = record { month = month_index 2024 3; day = 4; second = 10 * 3600 }

abbrev pub add_row : List Statement → Statement → List Statement
add_row rows st = rows ++ st ∷ []

abbrev pub memory : Database
memory = record {
  State = Stored;
  ping = λ s. (ok tt, s);
  exec = λ st s. (ok tt, record s { rows = add_row s.rows st });
  tx_exec = λ st s. (ok tt, record s { pending = s.pending ++ st ∷ [] });
  begin = λ s. (ok tt, record s { pending = [] });
  commit = λ s. (ok tt, record { rows = all_applied add_row s.rows s.pending; pending = [] });
  rollback = λ s. record s { pending = [] };
  device = λ name address port baud s. (row 1, s);
  report_day = λ id s. (no_rows, s);
  latest_archive = λ table id s. (row at_ten, s);
  latest_current = λ table id s. (no_rows, s);
}

pub commit_succeeds : {x y : List Statement} {e : Error} {u : Unit {0}} → ok u ≡ err e → x ≡ y
commit_succeeds h = cc

abbrev pub memory_Transactions : Transactions memory (List Statement)
memory_Transactions = record {
  stored = λ s. s.rows;
  pending = λ s. s.pending;
  applied = add_row;
  begin_opens = λ s h. refl;
  begin_keeps = λ s. refl;
  exec_adds = λ st s h. refl;
  exec_keeps = λ st s. refl;
  commit_stores = λ s h. refl;
  commit_fails = λ s e h. inl (commit_succeeds h);
  rollback_keeps = λ s. refl;
}

-- The same, but the connection is lost behind each commit.
abbrev pub lossy : Database
lossy = record memory {
  commit = λ s.
      (err (store_failed 7), record { rows = all_applied add_row s.rows s.pending; pending = [] });
}

pub commit_errs : {x : Type 0} {e : Error} {u : Unit {0}} → err e ≡ ok u → x
commit_errs h = cc

abbrev pub lossy_Transactions : Transactions lossy (List Statement)
lossy_Transactions = record {
  stored = λ s. s.rows;
  pending = λ s. s.pending;
  applied = add_row;
  begin_opens = λ s h. refl;
  begin_keeps = λ s. refl;
  exec_adds = λ st s h. refl;
  exec_keeps = λ st s. refl;
  commit_stores = λ s h. commit_errs h;
  commit_fails = λ s e h. inr refl;
  rollback_keeps = λ s. refl;
}

abbrev pub memory_Logged : Logged memory
memory_Logged = record { executed = λ s. s.rows; exec_logs = λ st s. refl }

abbrev pub still : Host
still = record { State = Unit; now = λ s. (at_noon, s); cancelled = λ s. (false, s) }

pub at_noon-IsTime : IsTime at_noon
unfolding days_in
at_noon-IsTime = (omega arith, omega arith)

pub at_ten-IsTime : IsTime at_ten
unfolding days_in
at_ten-IsTime = (omega arith, omega arith)

pub still-Bounded : Bounded still (stamp at_noon)
still-Bounded = record {
  exists = λ s. at_noon-IsTime;
  year = λ s. omega arith;
  not_later = λ s. omega arith;
}

pub memory_Stores : (j : Job) → Stores scripted memory still meter j
memory_Stores j table id s t e = let same : at_ten ≡ t = cc in rw⁻¹ same at_ten-IsTime

pub memory-Quiet : Quiet memory memory_Logged
memory-Quiet table id s = refl
