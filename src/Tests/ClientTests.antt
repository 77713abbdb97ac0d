-- ===== src/Tests/ClientTests.antt =====
-- The client's operations over a port that follows a script.
use vkt7d.Common.{◌≡◌, refl, List, [], ◌∷◌, Bytes}
use vkt7d.Errors.{ok}
use vkt7d.Model.{Element}
use vkt7d.Protocol.Frame.{byte}
use vkt7d.Protocol.ReadList.{entries, make_read_list_payload}
use vkt7d.Protocol.Client.{
  Client, Moment, read_request, write_request, date_payload, type_payload, is_daily_like,
  reg_value_type, reg_read_list, reg_date, reg_read_data, read_archive_record, read_current,
}
use vkt7d.Protocol.Client.Conversation.{Follows, read_archive_record-Follows, read_current-Follows}
use vkt7d.Tests.Script.{Script, scripted, scripted_Observed}

abbrev pub meter : Client
meter = record { address = 1; timeout = 8000 }

abbrev pub noon : Moment
noon = record { day = 5; month = 3; year = 2024; hour = 12 }

abbrev pub one_element : List Element
one_element = record { address = 0; name = "t1"; size = 2 } ∷ []

abbrev one_payload : Bytes
one_payload = 6 ∷ 0 ∷ 0 ∷ 0 ∷ 0x40 ∷ 2 ∷ 0 ∷ []

date_bytes : date_payload noon (is_daily_like 1) ≡ 4 ∷ 5 ∷ 3 ∷ 24 ∷ 23 ∷ []
date_bytes = refl

payload_written : make_read_list_payload one_element ≡ ok one_payload
unfolding make_read_list_payload entries
payload_written = refl

abbrev silent : Script
silent = record { reads = []; written = []; turns = 3 }

read_archive_record-Follows_example :
    Follows scripted scripted_Observed
      (write_request meter reg_value_type 0 (type_payload (byte 1))
        ∷ write_request meter reg_read_list 0 one_payload
        ∷ write_request meter reg_date 0 (date_payload noon (is_daily_like 1))
        ∷ read_request meter reg_read_data 0
        ∷ [])
      silent
      (read_archive_record scripted meter 1 noon one_element silent)
read_archive_record-Follows_example =
    read_archive_record-Follows scripted scripted_Observed meter 1 noon one_element one_payload
      silent payload_written

current_conversation :
    Follows scripted scripted_Observed
      (write_request meter reg_value_type 0 (type_payload (byte 4))
        ∷ write_request meter reg_read_list 0 one_payload
        ∷ read_request meter reg_read_data 0
        ∷ [])
      silent
      (read_current scripted meter 4 one_element silent)
current_conversation =
    read_current-Follows scripted scripted_Observed meter 4 one_element one_payload silent
      payload_written
