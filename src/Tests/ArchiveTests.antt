-- ===== src/Tests/ArchiveTests.antt =====
-- One record of an archive, read from a port that follows a script.
use vkt7d.Common.{◌≡◌, refl, none, [], ◌∷◌}
use vkt7d.Common.Int.{pos}
use vkt7d.Errors.{ok}
use vkt7d.Model.{integer}
use vkt7d.Model.Table.{put}
use vkt7d.Protocol.Crc.{crc16}
use vkt7d.Protocol.Frame.{sealed, frame}
use vkt7d.Protocol.Response.{validate_response, checked, examine}
use vkt7d.Protocol.Transaction.{received, tx}
use vkt7d.Protocol.Reply.{data_part, parse_exception}
use vkt7d.Protocol.Signed.{decode_signed_int}
use vkt7d.Protocol.Elements.{Table, parse_elements, decode_element_value}
use vkt7d.Protocol.ReadList.{make_read_list_payload, entries}
use vkt7d.Protocol.Client.{set_read_list, set_date, read_data, read, write}
use vkt7d.Collector.Split.{close_chunk, split_archive_read_list}
use vkt7d.Collector.Archive.{
  Scheme, record_attempts, chunked, on_step, on_values, concluded, merge, read_chunks, read_record,
}
use vkt7d.Collector.Archive.Gathered.{Recorded, read_record-Recorded}
use vkt7d.Tests.Script.{Script, scripted}
use vkt7d.Tests.ClientTests.{meter, noon, one_element}

-- The meter accepts the list and the date, and has the value 10000.
abbrev pub record_script : Script
record_script = record {
  reads =
      received (sealed (1 ∷ 16 ∷ 63 ∷ 255 ∷ 0 ∷ 0 ∷ []))
      ∷ received (sealed (1 ∷ 16 ∷ 63 ∷ 251 ∷ 0 ∷ 0 ∷ []))
      ∷ received (sealed (1 ∷ 3 ∷ 4 ∷ 0x10 ∷ 0x27 ∷ 0xC0 ∷ 0 ∷ []))
      ∷ [];
  written = [];
  turns = 5;
}

abbrev session : Scheme
session = record {
  active = one_element;
  meta = record { scheme_tv1 = none; scheme_tv2 = none; active_db = none };
}

abbrev pub ten_thousand : Table
ten_thousand =
    ("t1", record { value = integer (pos 10000); quality = 0xC0; ns = 0; raw = 0x10 ∷ 0x27 ∷ [] })
    ∷ []

record_read :
    (read_record scripted meter 1 noon one_element session record_script).0
    ≡ ok (ten_thousand, session)
unfolding read_record read_chunks merge put split_archive_read_list set_read_list set_date read_data
    read write tx examine validate_response crc16 sealed frame data_part parse_exception
    parse_elements decode_element_value decode_signed_int make_read_list_payload entries
    record_attempts chunked close_chunk on_step checked on_values concluded
record_read = refl

read_record-Recorded_example :
    Recorded scripted meter 1 noon one_element session record_script ten_thousand session
read_record-Recorded_example =
    read_record-Recorded scripted meter 1 noon one_element session session ten_thousand
      record_script record_read
