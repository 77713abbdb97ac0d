-- ===== src/Tests/SessionTests.antt =====
-- One archive, read from a port that follows a script into a database in memory.
use vkt7d.Common.{◌*◌, List, ◌≡◌, refl, none, [], ◌∷◌}
use vkt7d.Model.{Meta, integer}
use vkt7d.Model.Table.{put}
use vkt7d.Protocol.Crc.{crc16}
use vkt7d.Protocol.Frame.{sealed, frame}
use vkt7d.Protocol.Response.{validate_response, checked, examine}
use vkt7d.Protocol.Transaction.{ReadEvent, received, tx}
use vkt7d.Protocol.Reply.{data_part, parse_exception}
use vkt7d.Protocol.Signed.{decode_signed_int}
use vkt7d.Protocol.Elements.{Table, parse_elements, decode_element_value}
use vkt7d.Protocol.ReadList.{make_read_list_payload, entries, parse_active}
use vkt7d.Protocol.Client.{
  set_read_list, set_date, read_data, read, write, set_type, active_elements,
}
use vkt7d.Common.Int.{pos}
use vkt7d.Model.Names.{element_name}
use vkt7d.Storage.Encode.{encode}
use vkt7d.Storage.{save_archive, last}
use vkt7d.Collector.{filter}
use vkt7d.Collector.Dates.{due, next_archive_time}
use vkt7d.Collector.Split.{close_chunk, split_archive_read_list}
use vkt7d.Collector.Archive.{
  record_attempts, chunked, on_step, on_values, concluded, merge, read_chunks, read_record,
}
use vkt7d.Calendar.{Time, days_in, add_seconds, stamp, truncate_hour, hour_before}
use vkt7d.Collector.Session.{
  Job, W, fresh_list, after_record, archive_loop, collect_archive, prepare, first_start, overlapped,
}
use vkt7d.Collector.Session.Saves.{archive_statement, Adds}
use vkt7d.Collector.Session.Writes.{collect_archive-Adds}
use vkt7d.Tests.Script.{scripted}
use vkt7d.Tests.ClientTests.{meter, one_element}
use vkt7d.Tests.ArchiveTests.{record_script, ten_thousand}
use vkt7d.Tests.Store.{
  at_noon, at_ten, memory-Quiet, memory_Stores, memory, memory_Logged, still, still-Bounded,
}

abbrev hourly_job : Job
hourly_job = record { id = 1; typ = 0; table = "hourly_archive"; report_day = 30; overlap = 0 }

abbrev no_scheme : Meta
no_scheme = record { scheme_tv1 = none; scheme_tv2 = none; active_db = none }

abbrev world : W scripted memory still meter hourly_job
world = record {
  port = record_script;
  db = record { rows = []; pending = [] };
  host = tt;
  meta = no_scheme;
}

-- The record of ten o'clock is due, read and stored; the batch is one record.
one_saved :
    let (end, w) =
      archive_loop scripted memory still meter hourly_job 3 1 at_ten one_element one_element
        world in
    w.db.rows ≡ archive_statement hourly_job at_ten ten_thousand no_scheme ∷ []
unfolding archive_loop fresh_list after_record save_archive due next_archive_time read_record
    read_chunks merge put split_archive_read_list set_read_list set_date read_data read write tx
    examine validate_response crc16 sealed frame data_part parse_exception parse_elements
    decode_element_value decode_signed_int make_read_list_payload entries record_attempts chunked
    close_chunk on_step checked on_values concluded filter truncate_hour hour_before
one_saved = refl

-- The meter accepts a request; it lists one element; it has the value 10000.
abbrev pub accepts : ReadEvent
accepts = received (sealed (1 ∷ 16 ∷ 63 ∷ 255 ∷ 0 ∷ 0 ∷ []))

abbrev pub lists : ReadEvent
lists = received (sealed (1 ∷ 3 ∷ 6 ∷ 0 ∷ 0 ∷ 0 ∷ 0x40 ∷ 2 ∷ 0 ∷ []))

abbrev pub gives : ReadEvent
gives = received (sealed (1 ∷ 3 ∷ 4 ∷ 0x10 ∷ 0x27 ∷ 0xC0 ∷ 0 ∷ []))

-- The type, the active elements and the list; then the list, the date and the data of one record.
abbrev pub one_archive : List ReadEvent
one_archive = accepts ∷ lists ∷ accepts ∷ accepts ∷ accepts ∷ gives ∷ []

abbrev run_world : W scripted memory still meter hourly_job
run_world = record world { port = record { reads = one_archive; written = []; turns = 5 } }

abbrev pub at_eleven : Time
at_eleven = record at_ten { second = 11 * 3600 }

-- The element of the active list has the name of its address and its place.
abbrev active_values : Table
active_values =
    ("t1_1", record { value = integer (pos 10000); quality = 0xC0; ns = 0; raw = 0x10 ∷ 0x27 ∷ [] })
    ∷ []

-- Behind the last record of ten o'clock, that of eleven is read and stored, and noon is not yet due.
one_written :
    (collect_archive scripted memory still meter hourly_job 3 2 run_world).1.db.rows
    ≡ archive_statement hourly_job at_eleven active_values no_scheme ∷ []
unfolding collect_archive archive_loop fresh_list after_record save_archive due next_archive_time
    read_record read_chunks merge put split_archive_read_list set_read_list set_date read_data read
    write tx examine validate_response crc16 sealed frame data_part parse_exception parse_elements
    decode_element_value decode_signed_int make_read_list_payload entries record_attempts chunked
    close_chunk on_step checked on_values concluded filter truncate_hour hour_before prepare
    set_type active_elements parse_active last first_start overlapped days_in element_name encode
    add_seconds
one_written = refl

collect_archive-Adds_example :
    Adds scripted memory still meter hourly_job memory_Logged
      (stamp at_noon)
      2
      0
      []
      (collect_archive scripted memory still meter hourly_job 3 2 run_world)
collect_archive-Adds_example =
    collect_archive-Adds scripted memory still meter hourly_job memory_Logged (stamp at_noon)
      still-Bounded (memory_Stores hourly_job) memory-Quiet refl 3 2 run_world
