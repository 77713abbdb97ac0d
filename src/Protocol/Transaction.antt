-- ===== src/Protocol/Transaction.antt =====
-- protocol.go: `readResponse` and `tx`, over any serial port. The port is a library's (interface
-- `serial.Port` of go.bug.st/serial): its operations and its state are a parameter. Sleeps have no
-- effect in the model. The clock is the port's too: `turns` says how often the loop of
-- `readResponse` finds the deadline still ahead, and a loop with no turn left has timed out.
pub mod Receive
pub mod Retry
pub mod Invariant
use vkt7d.Common.{
  ℕ, zero, suc, ◌==◌, ltb, Bool, true, false, ◌&&◌, if◌then◌else◌, List, [], ◌∷◌, ◌++◌, Bytes,
  length, get_or,
}
use vkt7d.Errors.{
  Error, crc_mismatch, wrapped, timed_out, Result, ok, err, M, ◌>>=◌, ◌>>◌, fail, done, attempt,
  lift, wrap,
}
use vkt7d.Protocol.{request_prefix}
use vkt7d.Protocol.Response.{Verdict, more, stop, examine}

-- What one `Read` gives: some bytes (none of them when the port's own timeout passed), io.EOF, or
-- another error.
pub data ReadEvent : Type 0 where
  received : Bytes → ReadEvent
  eof : ReadEvent
  broken : Error → ReadEvent

pub record SerialPort : Type 1 where
  pub State : Type 0
  pub set_read_timeout : ℕ → M State (Unit {0})
  pub reset_input_buffer : M State (Unit {0})
  pub write : Bytes → M State (Unit {0})
  pub read : State → ReadEvent × State
  pub turns : State → ℕ

-- `errors.As(err, &crcErr)`
abbrev pub is_crc_error : Error → Bool
is_crc_error (crc_mismatch f) = true
is_crc_error (wrapped e) = is_crc_error e
is_crc_error _ = false

-- `timeout` is `c.Timeout` in milliseconds; 0 is not positive.
abbrev pub read_timeout : ℕ → ℕ
read_timeout timeout = if ltb 0 timeout && ltb timeout 250 then timeout else 250

module _ (p : SerialPort) where
  open p use {State, set_read_timeout, reset_input_buffer, write, read, turns}

  -- What the loop does with the data appended: go round again, or return.
  unfoldable pub decided : (Bytes → M State Bytes) → Bytes → Verdict → M State Bytes
  decided again out more = again out
  decided again out (stop r) = lift r

  -- One turn; `again` is the rest of the loop, given the data so far.
  unfoldable pub turn : (Bytes → M State Bytes) → ℕ → Bytes → ReadEvent → M State Bytes
  unfolding decided
  turn again fn out (broken e) = fail e
  turn again fn out eof = again out
  turn again fn out (received []) = again out
  turn again fn out (received (b ∷ bs)) = decided again (out ++ b ∷ bs) (examine fn (out ++ b ∷ bs))

  -- The loop of `readResponse` with this many turns left.
  unfoldable pub receive : ℕ → ℕ → Bytes → M State Bytes
  unfolding turn
  receive fn zero out s = (err (timed_out out), s)
  receive fn (suc left) out s = let (event, s') = read s in turn (receive fn left) fn out event s'

  -- `req[1]` is the function code: every request has at least eight bytes.
  unfoldable pub read_response : Bytes → M State Bytes
  unfolding receive
  read_response req s = receive (get_or req 1 0) (turns s) [] s

  abbrev pub send : Bytes → M State (Unit {0})
  send req = write (request_prefix ∷ request_prefix ∷ req)

  -- What follows a response: return it, give up, or clear the input and go round again.
  unfoldable pub settle : M State Bytes → Result Bytes → M State Bytes
  settle again (ok response) = done response
  settle again (err e) = if is_crc_error e then (wrap reset_input_buffer >> again) else fail e

  -- The loop over the attempts, with this many left after the present one.
  unfoldable pub attempts : ℕ → Bytes → M State Bytes
  unfolding read_response settle
  attempts zero req = do send req; read_response req
  attempts (suc left) req = do
    send req
    r ← attempt (read_response req)
    settle (attempts left req) r

  unfoldable pub tx : ℕ → Bytes → M State Bytes
  unfolding attempts
  tx timeout req = do
    wrap (set_read_timeout (read_timeout timeout))
    wrap reset_input_buffer
    wrap reset_input_buffer
    attempts 1 req
