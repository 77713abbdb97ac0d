-- ===== src/Protocol/Client.antt =====
-- protocol.go: the operations of `Client`, each a few transactions and a parser. A `time.Time` is
-- what its methods `Day`, `Month`, `Year` and `Hour` say.
pub mod Conversation
use vkt7d.Common.{ℕ, ◌+◌, ◌==◌, Bool, ◌||◌, if◌then◌else◌, List, [], ◌∷◌, Bytes}
use vkt7d.Errors.{M, ◌>>=◌, ◌>>◌, done, lift}
use vkt7d.Model.{Element}
use vkt7d.Protocol.{function_read, function_write, daily, monthly, total}
use vkt7d.Protocol.Frame.{byte, frame}
use vkt7d.Protocol.Transaction.{SerialPort, tx}
use vkt7d.Protocol.Reply.{data_part, parse_exception, three_bytes, subscriber_of}
use vkt7d.Protocol.Elements.{Table, parse_elements}
use vkt7d.Protocol.ReadList.{make_read_list_payload, parse_active}

abbrev pub reg_active : ℕ
reg_active = 0x3FFC

abbrev pub reg_date : ℕ
reg_date = 0x3FFB

abbrev pub reg_value_type : ℕ
reg_value_type = 0x3FFD

abbrev pub reg_read_data : ℕ
reg_read_data = 0x3FFE

abbrev pub reg_read_list : ℕ
reg_read_list = 0x3FFF

abbrev pub reg_service : ℕ
reg_service = 0x3FF9

abbrev pub reg_range : ℕ
reg_range = 0x3FF6

-- `Address` is a byte and `Timeout` a number of milliseconds.
pub record Client : Type 0 where
  pub address : ℕ
  pub timeout : ℕ

pub record Moment : Type 0 where
  pub day : ℕ
  pub month : ℕ
  pub year : ℕ
  pub hour : ℕ

abbrev pub read_request : Client → ℕ → ℕ → Bytes
read_request c reg qty = frame c.address function_read reg qty []

abbrev pub write_request : Client → ℕ → ℕ → Bytes → Bytes
write_request c reg qty payload = frame c.address function_write reg qty payload

-- `byte(t.Year() - 2000)`: 2000 and 208 are the same modulo 256, and so are -208 and 48.
abbrev pub date_payload : Moment → Bool → Bytes
date_payload t daily_like =
    4
    ∷ byte t.day
    ∷ byte t.month
    ∷ byte (t.year + 48)
    ∷ (if daily_like then 23 else byte t.hour)
    ∷ []

abbrev pub type_payload : ℕ → Bytes
type_payload t = 2 ∷ t ∷ 0 ∷ []

abbrev pub begin_payload : Bytes
begin_payload = 0xcc ∷ 0x80 ∷ 0 ∷ 0 ∷ 0 ∷ []

abbrev pub scheme_register : ℕ → ℕ
scheme_register tv = if tv == 2 then 0x3F5B else 0x3ECD

abbrev pub is_daily_like : ℕ → Bool
is_daily_like typ = (typ == daily) || (typ == monthly) || (typ == total)

module _ (p : SerialPort) (c : Client) where
  open p use {State}

  unfoldable pub read : ℕ → ℕ → M State Bytes
  read reg qty = tx p c.timeout (read_request c reg qty)

  unfoldable pub write : ℕ → ℕ → Bytes → M State Bytes
  write reg qty payload = tx p c.timeout (write_request c reg qty payload)

  unfoldable pub begin : M State (Unit {0})
  begin = write reg_read_list 0 begin_payload >>= λ r. done tt

  unfoldable pub read_service : M State Bytes
  read_service = read reg_service 0 >>= λ r. done (data_part r)

  unfoldable pub read_range : M State Bytes
  read_range = read reg_range 0 >>= λ r. done (data_part r)

  unfoldable pub read_scheme : ℕ → M State (ℕ × ℕ × ℕ)
  read_scheme tv = read (scheme_register tv) 1 >>= λ r. lift (three_bytes r)

  unfoldable pub read_active_db : M State (ℕ × ℕ × ℕ)
  read_active_db = read 0x3FE9 1 >>= λ r. lift (three_bytes r)

  unfoldable pub read_subscriber_id : M State (Bytes × ℕ × ℕ)
  read_subscriber_id = read 0x3EA6 8 >>= λ r. lift (subscriber_of r)

  unfoldable pub set_type : ℕ → M State (Unit {0})
  set_type t = write reg_value_type 0 (type_payload t) >>= λ r. lift (parse_exception r)

  unfoldable pub set_date : Moment → Bool → M State (Unit {0})
  set_date t daily_like =
      write reg_date 0 (date_payload t daily_like) >>= λ r. lift (parse_exception r)

  unfoldable pub active_elements : M State (List Element)
  active_elements = read reg_active 0 >>= λ r. lift (parse_active r)

  unfoldable pub set_read_list : List Element → M State (Unit {0})
  set_read_list es = do
    payload ← lift (make_read_list_payload es)
    r ← write reg_read_list 0 payload
    lift (parse_exception r)

  unfoldable pub read_data : M State Bytes
  read_data = do r ← read reg_read_data 0; lift (parse_exception r); done (data_part r)

  unfoldable pub prepare_archive : ℕ → List Element → M State (Unit {0})
  prepare_archive typ es = set_type (byte typ) >> set_read_list es

  unfoldable pub read_archive_data : ℕ → Moment → List Element → M State Table
  read_archive_data typ when es = do
    set_date when (is_daily_like typ)
    d ← read_data
    lift (parse_elements es d typ)

  unfoldable pub read_archive_record : ℕ → Moment → List Element → M State Table
  read_archive_record typ when es = do
    set_type (byte typ)
    set_read_list es
    read_archive_data typ when es

  unfoldable pub read_current : ℕ → List Element → M State Table
  read_current typ es = do
    set_type (byte typ)
    set_read_list es
    d ← read_data
    lift (parse_elements es d typ)
