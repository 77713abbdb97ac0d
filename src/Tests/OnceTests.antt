-- ===== src/Tests/OnceTests.antt =====
-- Whole sessions, and a configuration.
use Prim.Native.String.{String}
use vkt7d.Common.{◌≡◌, refl, true, false, suc, none, List, [], ◌∷◌, Bytes, arith, length}
use vkt7d.Common.Int.{ℤ, pos}
use vkt7d.Errors.{port_failed, refused, Result, ok, err, M}
use vkt7d.Calendar.{stamp}
use vkt7d.Config.{Config, accept, parse}
use vkt7d.Config.Accepted.{Accepted, parse-Accepted}
use vkt7d.Collector.Once.{W, once, archives, collected, resolved_day}
use vkt7d.Collector.Once.Day.{IsDay, resolved_day-IsDay}
use vkt7d.Collector.Once.Port.{Used, once-Used}
use vkt7d.Collector.Once.Ends.{AllEnded, once-AllEnded}
use vkt7d.Tests.Script.{Script, scripted}
use vkt7d.Tests.SessionTests.{accepts, lists, gives, one_archive}
use vkt7d.Protocol.Transaction.{ReadEvent, broken, tx}
use vkt7d.Protocol.Client.{begin, read_data, read_service, active_elements, read, write, set_type}
use vkt7d.Protocol.ReadList.{parse_active}
use vkt7d.Collector.Properties.{collect_properties}
use vkt7d.Protocol.Response.{examine, checked, validate_response}
use vkt7d.Protocol.Crc.{crc16}
use vkt7d.Protocol.Frame.{sealed, frame}
use vkt7d.Protocol.Reply.{data_part, parse_exception, parse_service}
use vkt7d.Storage.{device}
use vkt7d.Tests.Store.{Stored, at_noon, memory, memory_Stores, still, still-Bounded}

abbrev pub cfg : Config
cfg = record {
  port = "/dev/ttyUSB0";
  baud = pos 9600;
  address = pos 1;
  db_url = "";
  device_name = "vkt7-1";
  interval = pos 60;
  batch_hourly = pos 48;
  batch_daily = pos 30;
  batch_monthly = pos 12;
  batch_total = pos 12;
  overlap = pos 0;
  timeout = pos 8000;
  migrate = false;
  verbose = false;
  debug_serial = true;
}

-- The arguments give this configuration.
abbrev given : List String → Config → Result (Unit {0}) × Config
given args c = (ok tt, cfg)

abbrev pub no_environment : String → String
no_environment k = ""

abbrev pub no_number : String → Result ℤ
no_number v = err refused

accepted : (parse no_environment no_number no_number given []).0 ≡ ok tt
unfolding parse accept
accepted = refl

parse-Accepted_example :
    let c = (parse no_environment no_number no_number given []).1 in
    Accepted c × (c.debug_serial ≡ true → c.verbose ≡ true)
parse-Accepted_example = parse-Accepted no_environment no_number no_number given [] accepted

abbrev opens : M Script (Unit {0})
opens s = (ok tt, s)

abbrev closes : Script → Script
closes s = record s { turns = 0 }

abbrev pub ascii : Bytes → Result Bytes
ascii b = ok b

-- The meter does not answer.
abbrev silent_world : W scripted memory still ascii opens closes cfg 8000 (suc (stamp at_noon))
silent_world = record {
  port = record { reads = []; written = []; turns = 3 };
  db = record { rows = []; pending = [] };
  host = tt;
  meta = record { scheme_tv1 = none; scheme_tv2 = none; active_db = none };
}

once-Used_example :
    Used scripted memory still ascii opens closes cfg 8000
      (suc (stamp at_noon))
      silent_world
      (once scripted memory still ascii opens closes cfg 8000
        (suc (stamp at_noon))
        silent_world).1.port
once-Used_example =
    once-Used scripted memory still ascii opens closes cfg 8000 (suc (stamp at_noon)) silent_world

-- The meter answers: the session begins, there are no service record and no properties, and the
-- hourly archive has one record; then it falls silent.
abbrev answers : List ReadEvent
answers =
    accepts
    ∷ gives
    ∷ broken (port_failed 1)
    ∷ broken (port_failed 1)
    ∷ lists
    ∷ broken (port_failed 1)
    ∷ one_archive

abbrev full_world : W scripted memory still ascii opens closes cfg 8000 (suc (stamp at_noon))
full_world = record silent_world { port = record { reads = answers; written = []; turns = 5 } }

-- This session has the ends of four archives.
four_ends :
    length
      (once scripted memory still ascii opens closes cfg 8000 (suc (stamp at_noon)) full_world).0
    ≡ 4
unfolding once archives collected begin read_data read_service active_elements parse_active
    collect_properties read write tx examine validate_response crc16 sealed frame data_part
    parse_exception parse_service device checked set_type
four_ends = refl

once-AllEnded_example :
    AllEnded
      (once scripted memory still ascii opens closes cfg 8000 (suc (stamp at_noon)) full_world).0
once-AllEnded_example =
    once-AllEnded scripted memory still ascii opens closes cfg 8000 (suc (stamp at_noon))
      (stamp at_noon) still-Bounded memory_Stores (omega arith) full_world

abbrev store : Stored
store = record { rows = []; pending = [] }

-- The meter says 0, and the store knows no day.
resolved_day-IsDay_example :
    IsDay (resolved_day memory 1 0 store).0 × (IsDay 0 → resolved_day memory 1 0 store ≡ (0, store))
resolved_day-IsDay_example = resolved_day-IsDay memory 1 0 store
