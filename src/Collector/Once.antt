-- ===== src/Collector/Once.antt =====
-- collector.go: `once`, a whole session: the device's row, the port, the service record, the
-- properties, the four archives and the current values. What it logs to the store is kept; what it
-- logs to the console is left out.
pub mod Day
pub mod Port
pub mod Ends
use Prim.Native.String.{String}
use vkt7d.Common.{
  ℕ, zero, suc, ltb, Bool, ◌||◌, if◌then◌else◌, Option, none, some, List, [], ◌∷◌, Bytes, get_or,
}
use vkt7d.Common.Int.{ℤ, pos, negsuc}
use vkt7d.Errors.{Error, refused, Result, ok, err, M, ◌>>=◌, ◌>>◌, lift}
use vkt7d.Model.{Element, Meta}
use vkt7d.Config.{Config, byte_of}
use vkt7d.Protocol.{hourly, daily, monthly, total, current, current_total}
use vkt7d.Protocol.Frame.{byte}
use vkt7d.Protocol.Transaction.{SerialPort}
use vkt7d.Protocol.Reply.{ServiceInfo, parse_service}
use vkt7d.Protocol.Elements.{Table}
use vkt7d.Protocol.Client.{
  Client, begin, read_data, read_service, active_elements, set_type, read_active_db, read_current,
}
use vkt7d.Storage.{Database, device, report_day, touch, upsert_active, save_current, log}
use vkt7d.Collector.{filter}
use vkt7d.Collector.World.{Host, World, on_port, on_db}
use vkt7d.Collector.Properties.{collect_properties}
use vkt7d.Collector.Session.{Job, End, collect_archive}

-- The rows of `archiveJobs`: type, table and batch.
pub record ArchiveJob : Type 0 where
  pub typ : ℕ
  pub table : String
  pub batch : ℤ

abbrev pub archive_jobs : Config → List ArchiveJob
archive_jobs cfg =
    record { typ = hourly; table = "hourly_archive"; batch = cfg.batch_hourly }
    ∷ record { typ = daily; table = "daily_archive"; batch = cfg.batch_daily }
    ∷ record { typ = monthly; table = "monthly_archive"; batch = cfg.batch_monthly }
    ∷ record { typ = total; table = "total_archive"; batch = cfg.batch_total }
    ∷ []

-- A batch and an overlap that are negative count as 0 in `collectArchive`.
abbrev pub positive_part : ℤ → ℕ
positive_part (pos n) = n
positive_part (negsuc n) = 0

-- `reportDay < 1 || reportDay > 31`
abbrev pub not_a_day : ℕ → Bool
not_a_day day = ltb day 1 || ltb 31 day

abbrev pub no_meta : Meta
no_meta = record { scheme_tv1 = none; scheme_tv2 = none; active_db = none }

abbrev pub service_meta : Result ServiceInfo → Meta
service_meta (ok svc) = record {
  scheme_tv1 = some svc.scheme_tv1;
  scheme_tv2 = some svc.scheme_tv2;
  active_db = none;
}
service_meta (err e) = no_meta

-- 0 without a service record.
abbrev pub service_day : Result ServiceInfo → ℕ
service_day (ok svc) = svc.report_day
service_day (err e) = 0

-- The stored day, if the meter gave none that can be one.
abbrev pub stored_or : ℕ → Result ℕ → ℕ
stored_or day (ok stored) = stored
stored_or day (err e) = day

abbrev pub or_thirty : ℕ → ℕ
or_thirty day = if not_a_day day then 30 else day

module _ (d : Database) where
  unfoldable pub resolved_day : ℕ → ℕ → d.State → ℕ × d.State
  resolved_day id day s =
      let (r, s') = report_day d id s in
      if not_a_day day then (or_thirty (stored_or day r), s') else (or_thirty day, s)

module _ (p : SerialPort) (d : Database) (h : Host) (decode : Bytes → Result Bytes)
    (open_port : M p.State (Unit {0})) (close_port : p.State → p.State) (cfg : Config)
    (timeout turns : ℕ) where
  abbrev pub W : Type 0
  W = World p.State d.State h.State

  abbrev pub client : Client
  client = record { address = byte_of cfg.address; timeout = timeout }

  abbrev pub logged : ℕ → String → Error → W → W
  logged id status e w = record w { db = log d id status (some e) w.db }

  abbrev pub job : ℕ → ℕ → ArchiveJob → Job
  job id day a = record {
    id = id;
    typ = a.typ;
    table = a.table;
    report_day = day;
    overlap = positive_part cfg.overlap;
  }

  -- The archives one after the other, whatever the end of one.
  unfoldable pub archives : ℕ → ℕ → List ArchiveJob → W → List End × W
  archives id day [] w = ([], w)
  archives id day (a ∷ rest) w =
      let (end, w1) = collect_archive p d h client (job id day a) turns (positive_part a.batch) w in
      let (ends, w2) = archives id day rest w1 in (end ∷ ends, w2)

  abbrev pub saved_current : ℕ → String → Result Table × W → W
  saved_current id table (ok v, w) = (on_db (save_current d table id v) w).1
  saved_current id table (err e, w) = w

  abbrev pub currents : ℕ → List Element → W → W
  currents id es w =
      let w1 =
        saved_current id "current_values"
          (on_port (read_current p client current (filter es current)) w) in
      saved_current id "current_totals"
        (on_port (read_current p client current_total (filter es current_total)) w1)

  abbrev pub noted_db : Result (ℕ × ℕ × ℕ) × W → W
  noted_db (ok (db, q, ns), w) = record w { meta = record w.meta { active_db = some db } }
  noted_db (err e, w) = w

  abbrev pub with_active_db : W → W
  with_active_db w =
      noted_db (on_port (set_type p client (byte current) >> read_active_db p client) w)

  -- `Touch`, if there are a service record and an active database.
  abbrev pub touched : ℕ → ℕ → ℕ → Result ServiceInfo → Option ℕ → W → W
  touched id server day (ok svc) (some db) w =
      let fields =
        svc.firmware ∷ server ∷ svc.scheme_tv1 ∷ svc.scheme_tv2 ∷ day ∷ svc.model ∷ db ∷ [] in
      let (r, s) = touch d id fields svc.subscriber w.db in record w { db = s }
  touched id server day _ _ w = w

  -- With a list of active elements.
  unfoldable pub collected : ℕ → ℕ → Result ServiceInfo → List Element → W → List End × W
  unfolding resolved_day archives
  collected id server service es w =
      let (day, s) = resolved_day d id (service_day service) w.db in
      let w1 = (on_db (upsert_active d id es) (record w { db = s })).1 in
      let w2 = with_active_db w1 in
      let w3 = touched id server day service w2.meta.active_db w2 in
      let (ends, w4) = archives id day (archive_jobs cfg) w3 in (ends, currents id es w4)

  abbrev pub listed : ℕ → ℕ → Result ServiceInfo → Result (List Element) × W → List End × W
  listed id server service (err e, w) = ([], logged id "protocol_error" e w)
  listed id server service (ok [], w) = ([], logged id "protocol_error" refused w)
  listed id server service (ok (e ∷ es), w) = collected id server service (e ∷ es) w

  abbrev pub read_service_info : M W ServiceInfo
  read_service_info = on_port (read_service p client) >>= λ raw. lift (parse_service raw)

  -- The service record and the properties, if there are any; their errors are no end.
  abbrev pub served : ℕ → ℕ → Result ServiceInfo × W → List End × W
  served id server (service, w) =
      let w1 = record w { meta = service_meta service } in
      let w2 = (collect_properties p d decode client id w1).1 in
      listed id server service (on_port (active_elements p client) w2)

  -- The first byte of the first read is the server version, or 0.
  abbrev pub greeted : ℕ → Result Bytes × W → List End × W
  greeted id (err e, w) = ([], logged id "protocol_error" e w)
  greeted id (ok b, w) = served id (get_or b 0 0) (read_service_info w)

  abbrev pub begun : ℕ → Result (Unit {0}) × W → List End × W
  begun id (err e, w) = ([], logged id "protocol_error" e w)
  begun id (ok u, w) = greeted id (on_port (read_data p client) w)

  -- The port is closed whatever the session came to.
  abbrev pub closed : List End × W → List End × W
  closed (ends, w) = (ends, record w { port = close_port w.port })

  abbrev pub opened : ℕ → Result (Unit {0}) × W → List End × W
  opened id (err e, w) = ([], logged id "serial_error" e w)
  opened id (ok u, w) = closed (begun id (on_port (begin p client) w))

  abbrev pub with_device : Result ℕ × W → List End × W
  with_device (err e, w) = ([], w)
  with_device (ok id, w) = opened id (on_port open_port w)

  abbrev pub pinged : Result (Unit {0}) × W → List End × W
  pinged (err e, w) = ([], w)
  pinged (ok u, w) = with_device (on_db (device d cfg.device_name cfg.address cfg.port cfg.baud) w)

  -- The ends of the archives that were collected.
  unfoldable pub once : W → List End × W
  once w = pinged (on_db d.ping w)
