-- ===== src/Collector/Session.antt =====
-- collector.go: `collectArchive`, which reads the records of one archive and stores them. It ends the
-- same way after an error, which it logs, and after its last record.
pub mod Start
pub mod Ends
pub mod Saves
pub mod Writes
pub mod Resume
use Prim.Native.String.{String}
use vkt7d.Common.{
  ℕ, zero, suc, ◌==◌, ltb, not, Bool, true, false, if◌then◌else◌, Option, none, some, List, [], ◌∷◌,
  Bytes,
}
use vkt7d.Errors.{Error, refused, Result, ok, err, M, ◌>>=◌, ◌>>◌, done, fail}
use vkt7d.Model.{Element, Meta}
use vkt7d.Calendar.{
  Time, after, day_of, month_of, year_of, hour_of, day_before, hours_before, months_before,
  repeated,
}
use vkt7d.Protocol.{hourly}
use vkt7d.Protocol.Frame.{byte}
use vkt7d.Protocol.Transaction.{SerialPort}
use vkt7d.Protocol.Reply.{is_exception_code}
use vkt7d.Protocol.Elements.{Table}
use vkt7d.Protocol.Client.{Client, Moment, set_type, active_elements, set_read_list, read_range}
use vkt7d.Storage.{Database, last, save_archive}
use vkt7d.Collector.{filter}
use vkt7d.Collector.World.{Host, World, on_port, on_db}
use vkt7d.Collector.Archive.{Scheme, read_record}
use vkt7d.Collector.Dates.{is_report_type, due, next_archive_time, parse_start}

-- One archive: its type, its table, the report day, and `x.Cfg.Overlap`.
pub record Job : Type 0 where
  pub id : ℕ
  pub typ : ℕ
  pub table : String
  pub report_day : ℕ
  pub overlap : ℕ

-- How the loop ends: its test failed, a `return` in its body, or the turns of the model are used up.
pub data End : Type 0 where
  finished stopped ran_out : End

abbrev pub moment : Time → Moment
moment t = record { day = day_of t; month = month_of t; year = year_of t; hour = hour_of t }

-- The cursor after the last record in the store, moved back by the overlap. A date before the year 0
-- is out of its reach.
unfoldable pub overlapped : Job → Time → Time
overlapped j t =
    if j.overlap == 0
    then t
    else if j.typ == hourly
    then hours_before t j.overlap
    else if is_report_type j.typ
    then months_before t j.overlap
    else repeated j.overlap day_before t

module _ (p : SerialPort) (d : Database) (h : Host) (c : Client) (j : Job) where
  abbrev pub W : Type 0
  W = World p.State d.State h.State

  -- The loop body from here on, with this many records left, for the elements and the scheme.
  abbrev pub Loop : Type 0
  Loop = ℕ → Time → List Element → List Element → W → End × W

  unfoldable pub fresh_list : List Element → List Element → List Element
  fresh_list [] es = es
  fresh_list (e ∷ active) es = filter (e ∷ active) j.typ

  abbrev pub latest : List Element → List Element → List Element
  latest [] active = active
  latest (e ∷ fresh) active = e ∷ fresh

  abbrev pub next : Time → Time
  next t = next_archive_time t j.typ j.report_day

  abbrev pub after_save :
      Loop → ℕ → Time → List Element → List Element → Result (Unit {0}) × W → End × W
  after_save again left start es active (ok u, w) = again left (next start) es active w
  after_save again left start es active (err e, w) = (stopped, w)

  -- After a record: store it and go on to the next date; after an exception 3 the next date with as
  -- many records left, if it is later; after any other error the end.
  unfoldable pub after_record :
      Loop → ℕ → Time → List Element → List Element → Result (Table × Scheme) × W → End × W
  after_record again left start es active (ok (t, scheme), w) =
      let fresh = fresh_list scheme.active es in
      let w' = record w { meta = scheme.meta } in
      after_save again left start fresh (latest scheme.active active)
        (on_db (save_archive d j.table j.id start t scheme.meta) w')
  after_record again left start es active (err e, w) =
      if is_exception_code e 3
      then if after (next start) start
        then again (suc left) (next start) es active w
        else (stopped, w)
      else (stopped, w)

  unfoldable pub archive_loop : ℕ → Loop
  unfolding after_record
  archive_loop zero left start es active w = (ran_out, w)
  archive_loop (suc turns) zero start es active w = (finished, w)
  archive_loop (suc turns) (suc left) start es active w =
      let (stop, h1) = h.cancelled w.host in
      let (now, h2) = h.now h1 in
      let body = after_record (archive_loop turns) left start es active (
        on_port
          (read_record p c j.typ (moment start) es (record { active = active; meta = w.meta }))
          (record w { host = h2 })) in
      if stop
      then (stopped, record w { host = h1 })
      else if due start j.typ now
      then body
      else (finished, record w { host = h2 })

  abbrev pub range_start : Bytes → M W Time
  range_start range w =
      let (now, h') = h.now w.host in
      (ok (parse_start range j.typ j.report_day now), record w { host = h' })

  -- Where the archive begins: after the last record stored, or where the meter says.
  unfoldable pub first_start : Option Time → M W Time
  first_start (some t) = done (overlapped j (next t))
  first_start none = on_port (read_range p c) >>= range_start

  abbrev pub not_empty : List Element → M W (List Element)
  not_empty [] = fail refused
  not_empty (e ∷ es) = done (e ∷ es)

  abbrev pub Start : Type 0
  Start = Time × List Element × List Element

  abbrev pub started : List Element → List Element → Option Time → M W Start
  started es active stored = first_start stored >>= λ start. done (start, es, active)

  abbrev pub listed : List Element → List Element → M W Start
  listed active es =
      on_port (set_read_list p c es) >> (on_db (last d j.table j.id) >>= started es active)

  abbrev pub found : List Element → M W Start
  found fresh = not_empty fresh >>= λ active. (not_empty (filter active j.typ) >>= listed active)

  -- Up to the loop: what it starts with.
  unfoldable pub prepare : M W Start
  prepare = on_port (set_type p c (byte j.typ)) >> (on_port (active_elements p c) >>= found)

  abbrev pub run_loop : ℕ → ℕ → Result Start × W → End × W
  run_loop turns limit (ok (start, es, active), w) = archive_loop turns limit start es active w
  run_loop turns limit (err e, w) = (stopped, w)

  -- A batch that is not positive is one record.
  unfoldable pub collect_archive : ℕ → ℕ → W → End × W
  collect_archive turns batch w = run_loop turns (if batch == 0 then 1 else batch) (prepare w)
