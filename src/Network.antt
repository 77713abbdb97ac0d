-- ===== src/Network.antt =====
-- The RFC 2217 port as the serial port of the protocol: internal/rfc2217/rfc2217.go's methods of
-- `Port` behind the interface `serial.Port` through which internal/protocol/protocol.go calls them,
-- with the goroutine `reader` at work while a call waits. When the reader runs and what a `select`
-- finds is the surroundings' choice, so it holds of every schedule.
pub mod Control
pub mod Said
pub mod Transmit
pub mod Interface
pub mod Plan
pub mod Arrival
pub mod Acknowledged
pub mod Granted
pub mod Purge
pub mod Answered
use vkt7d.Common.{
  Option, none, some, ℕ, zero, suc, ◌*◌, ◌^◌, Bool, true, false, List, [], ◌∷◌, ◌++◌, Bytes,
  if◌then◌else◌,
}
use vkt7d.Common.Int.{ℤ, pos}
use vkt7d.Errors.{Error, end_of_file, wrapped, Result, ok, err, M, ◌>>=◌, ◌>>◌, done}
use vkt7d.Telnet.{Decoder, feed}
use vkt7d.Port.{Connection, Port, purge_data}
use vkt7d.Port.Output.{send}
use vkt7d.Port.Acks.{
  Reading, got, gone, Channel, pending, Wakeup, acked, failed, closed_port, timer, begin_command,
  end_command, reader,
}
use vkt7d.Port.Queue.{Choice, read, drain}
use vkt7d.Port.Mode.{reset_input_buffer}
use vkt7d.Port.Session.{set_read_timeout}
use vkt7d.Protocol.{max_frame_size}
use vkt7d.Protocol.Transaction.{ReadEvent, received, eof, broken, SerialPort}

-- The case that the select of `command` takes. Without an acknowledgement in the command's channel
-- the first cannot be taken, and the timer ends the wait.
pub data Wake : Type 0 where
  acknowledgement : Wake
  reader_failed : Error → Wake
  port_done : Wake
  timeout : Wake

abbrev pub wakeup : Wake → Option Channel → Wakeup
wakeup acknowledgement (some (some b)) = acked b
wakeup acknowledgement _ = timer
wakeup (reader_failed x) ch = failed x
wakeup port_done ch = closed_port
wakeup timeout ch = timer

-- What happens while a call waits: what the reader hears until then, and which case the select takes.
pub record Surroundings : Type 1 where
  pub State : Type 0
  pub during_read : State → (List Reading × Choice) × State
  pub during_command : State → (List Reading × Wake) × State
  -- how often `readResponse` finds its deadline ahead
  pub turns : State → ℕ

-- The port, its reader's decoder, the surroundings, and the history of what `Write` was given.
pub record Link (C E : Type 0) : Type 0 where
  pub port : Port C
  pub decoder : Decoder
  pub env : E
  pub history : List Bytes

-- The decoder after what the reader has read.
abbrev pub decoder_after : List Reading → Decoder → Decoder
decoder_after [] d = d
decoder_after (got b ∷ rs) d = decoder_after rs (feed d b).decoder
decoder_after (gone e ∷ rs) d = d

-- `errors.Is(e, io.EOF)`
abbrev pub is_end_of_file : Error → Bool
is_end_of_file end_of_file = true
is_end_of_file (wrapped e) = is_end_of_file e
is_end_of_file _ = false

abbrev pub event_of : Result Bytes → ReadEvent
event_of (ok b) = received b
event_of (err e) = if is_end_of_file e then eof else broken e

-- The length of `buf` in `readResponse`: `maxFrameSize`.
abbrev pub buffer_size : ℕ
buffer_size = max_frame_size

module _ (c : Connection) (e : Surroundings) where
  abbrev pub L : Type 0
  L = Link c.State e.State

  abbrev pub on_link : {A : Type 0} → M (Port c.State) A → M L A
  on_link m s = let (r, p) = m s.port in (r, record s { port = p })

  -- The reader's work on what it hears.
  unfoldable pub hear : List Reading → L → L
  hear rs s = record s { port = reader c rs s.decoder s.port; decoder = decoder_after rs s.decoder }

  abbrev pub waited : ℕ → Result (Unit {0}) × L → Result (Unit {0}) × L
  waited cmd (err x, s) = (err x, s)
  waited cmd (ok u, s) =
      let ((rs, w), env) = e.during_command s.env in
      let s' = hear rs (record s { env = env }) in
      on_link (end_command c cmd (wakeup w (pending cmd s'.port.acks))) s'

  -- `command`: begun, the reader's work, ended.
  unfoldable pub link_command : ℕ → Bytes → M L (Unit {0})
  unfolding hear
  link_command cmd value s = waited cmd (on_link (begin_command c cmd value) s)

  unfoldable pub link_read : L → ReadEvent × L
  unfolding hear
  link_read s =
      let ((rs, choice), env) = e.during_read s.env in
      let (r, s') = on_link (read buffer_size choice) (hear rs (record s { env = env })) in
      (event_of r, s')

  unfoldable pub link_write : Bytes → M L (Unit {0})
  link_write b s =
      (on_link (send c b) >>= λ n. done tt) (record s { history = s.history ++ b ∷ [] })

  unfoldable pub link_reset : M L (Unit {0})
  unfolding link_command reset_input_buffer
  link_reset = reset_input_buffer link_command (on_link drain)

  -- The port as `serial.Port`. The timeout only decides what a select finds.
  abbrev pub network : SerialPort
  network = record {
    State = L;
    set_read_timeout = λ ms s. (ok tt, s);
    reset_input_buffer = link_reset;
    write = link_write;
    read = link_read;
    turns = λ s. e.turns s.env;
  }
