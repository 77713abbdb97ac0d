-- ===== src/Tests/PortTests.antt =====
-- The network port at concrete connections, streams and modes.
use vkt7d.Common.{
  ◌==◌, if◌then◌else◌, Bool, ℕ, ◌≡◌, ◌≢◌, ◌≤◌, refl, true, false, none, some, List, [], ◌∷◌, ◌++◌,
  map, arith, Bytes, All, IsByte, length, take, inl, inr,
}
use vkt7d.Common.Int.{ℤ, pos}
use vkt7d.Errors.{ok, err, refused, ack_timed_out, wrapped, M}
use vkt7d.Telnet.{escape, initial, feed, on_subnegotiation}
use vkt7d.Telnet.Stream.{byte, stream, subnegotiation}
use vkt7d.Port.Session.{open_port, open_port-closed}
use vkt7d.Port.{set_parity, client_of, Connection, Port, comport}
use vkt7d.Port.Output.{send, write_loop, write_raw, command_message}
use vkt7d.Port.Output.Delivery.{Working, send_arrives, command_arrives}
use vkt7d.Port.Acks.{
  begin_command, react, handle_subneg, delivered, removed, pending, acked, timer, end_command,
  reader,
}
use vkt7d.Port.Acks.Matched.{Action, begins, hears, ends, run, ack_accepted}
use vkt7d.Port.Queue.{chunk_ready, read}
use vkt7d.Port.Queue.Order.{joined, read_in_order, read_late}
use vkt7d.Port.Queue.Filled.{data_of, readings, reader_in_order}
use vkt7d.Port.Mode.{Mode, no_parity, two_stop, other_stop, set_mode, u32be}
use vkt7d.Port.Mode.Plan.{in_turn, mode_plan, big_endian, set_mode_plan, set_mode_refused}

-- A connection that takes one byte at a time; its state is what it took.
abbrev pub one : Bytes → ℕ
one [] = 0
one (x ∷ xs) = 1

abbrev pub slow : Connection
slow = record { State = Bytes; write = λ b s. (ok (one b), s ++ take (one b) b) }

pub one-some : (b : Bytes) → b ≢ [] → 1 ≤ one b
one-some [] ne = absurd (ne refl)
one-some (x ∷ xs) ne = omega arith

pub one-length : (b : Bytes) → one b ≤ length b
one-length [] = omega arith
one-length (x ∷ xs) = omega arith

abbrev pub slow_Working : Working slow
slow_Working = record {
  sent = λ s. s;
  amount = λ b s. one b;
  takes = λ b s. refl;
  some_taken = λ b s. one-some b;
  not_more = λ b s. one-length b;
  appends = λ b s. refl;
}

abbrev pub fresh : Port Bytes
fresh = record { conn = []; acks = []; chunks = []; failure = none; closed = false; modem = 0 }

sends_all :
    send slow (1 ∷ 0xff ∷ 2 ∷ []) fresh ≡ (ok 3, record fresh { conn = 1 ∷ 0xff ∷ 0xff ∷ 2 ∷ [] })
unfolding send write_raw write_loop escape
sends_all = refl

send_arrives_example :
    (out : Bytes) × ((send slow (1 ∷ 0xff ∷ 2 ∷ []) fresh).0 ≡ ok 3)
    × ((send slow (1 ∷ 0xff ∷ 2 ∷ []) fresh).1.conn ≡ [] ++ out)
    × (stream (feed initial out).events ≡ map byte (1 ∷ 0xff ∷ 2 ∷ []))
send_arrives_example = send_arrives slow slow_Working (1 ∷ 0xff ∷ 2 ∷ []) fresh initial refl refl

command_arrives_example :
    ((write_raw slow (command_message 1 (0 ∷ 0xff ∷ [])) fresh).0 ≡ ok tt)
    × ((write_raw slow (command_message 1 (0 ∷ 0xff ∷ [])) fresh).1.conn
        ≡ [] ++ command_message 1 (0 ∷ 0xff ∷ []))
    × (stream (feed initial (command_message 1 (0 ∷ 0xff ∷ []))).events
        ≡ subnegotiation (comport ∷ 1 ∷ 0 ∷ 0xff ∷ []) ∷ [])
command_arrives_example =
    command_arrives slow slow_Working 1 (0 ∷ 0xff ∷ []) fresh initial (λ e. omega (arith, e)) refl
      refl

-- Two commands overlap; one of them has timed out before its answer comes.
abbrev crossing : List Action
crossing =
    begins 5 (11 ∷ [])
    ∷ begins 12 (1 ∷ [])
    ∷ ends 5 timer
    ∷ hears (on_subnegotiation (44 ∷ 105 ∷ 11 ∷ []))
    ∷ hears (on_subnegotiation (44 ∷ 112 ∷ 1 ∷ []))
    ∷ []

answered_late : pending 12 (run slow crossing fresh).acks ≡ some (some (112 ∷ 1 ∷ []))
unfolding command_message run begin_command end_command pending react handle_subneg write_raw
    write_loop client_of delivered removed escape
answered_late = refl

ack_accepted_example :
    (end_command slow 12 (acked (112 ∷ 1 ∷ [])) (run slow crossing fresh)).0 ≡ ok tt
ack_accepted_example = ack_accepted slow crossing fresh 12 (112 ∷ 1 ∷ []) refl answered_late

abbrev waiting : Port Bytes
waiting = record fresh { chunks = (1 ∷ 2 ∷ 3 ∷ []) ∷ (4 ∷ []) ∷ [] }

first_chunk_in_order :
    (out : Bytes) × ((read 3 chunk_ready waiting).0 ≡ ok out)
    × (out ++ joined (read 3 chunk_ready waiting).1.chunks ≡ joined waiting.chunks)
first_chunk_in_order =
    read_in_order 3 (1 ∷ 2 ∷ 3 ∷ []) ((4 ∷ []) ∷ []) waiting (omega arith) refl refl
      (inl (omega arith))

late_rest :
    ((read 2 chunk_ready waiting).0 ≡ ok (1 ∷ 2 ∷ []))
    × (joined (read 2 chunk_ready waiting).1.chunks ≡ 4 ∷ 3 ∷ [])
late_rest =
    read_late 2 (1 ∷ 2 ∷ 3 ∷ []) ((4 ∷ []) ∷ []) waiting (omega arith) refl refl (omega arith)
      (omega arith)

abbrev pieces : List Bytes
pieces = (1 ∷ 0xff ∷ []) ∷ (0xff ∷ 0xff ∷ 0xfb ∷ []) ∷ (44 ∷ 2 ∷ []) ∷ []

reader_in_order_example :
    joined (reader slow (readings pieces) initial fresh).chunks
    ≡ joined fresh.chunks ++ data_of (stream (feed initial (joined pieces)).events)
reader_in_order_example = reader_in_order slow pieces initial fresh refl

-- A server that accepts all commands and keeps them.
abbrev keep : ℕ → Bytes → M (List (ℕ × Bytes)) (Unit {0})
keep cmd value s = (ok tt, s ++ (cmd, value) ∷ [])

abbrev vkt7 : Mode
vkt7 = record {
  baud_rate = pos 9600;
  data_bits = pos 8;
  parity = no_parity;
  stop_bits = two_stop;
  initial = some (record { dtr = true; rts = false });
}

set_mode_plan_example :
    (set_mode keep (some vkt7) ≡ in_turn keep (mode_plan 9600 8 1 2 vkt7.initial))
    × All IsByte (u32be 9600)
    × (big_endian 0 (u32be 9600) ≡ 9600)
set_mode_plan_example = set_mode_plan keep vkt7 9600 8 1 2 refl refl refl refl

bad_stop_refused :
    set_mode keep (some (record vkt7 { stop_bits = other_stop 7 })) [] ≡ (err refused, [])
bad_stop_refused =
    set_mode_refused keep (record vkt7 { stop_bits = other_stop 7 }) [] (inr (inr (inr refl)))

-- A port that is closed or not, and a server that does not acknowledge the parity.
abbrev pub no_parity_set : ℕ → Bytes → M Bool (Unit {0})
no_parity_set cmd value s = if cmd == set_parity then (err (ack_timed_out cmd), s) else (ok tt, s)

abbrev pub negotiated : M Bool (Unit {0})
negotiated s = (ok tt, s)

abbrev pub is_closed : Bool → Bool
is_closed s = s

abbrev pub shut : Bool → Bool
shut s = true

abbrev pub same_timeout : ℤ → Bool → Bool
same_timeout t s = s

parity_fails :
    (open_port no_parity_set negotiated is_closed shut same_timeout (pos 9600) false).0
    ≡ err (wrapped (ack_timed_out set_parity))
unfolding open_port set_mode
parity_fails = refl

closed_after_parity :
    is_closed (open_port no_parity_set negotiated is_closed shut same_timeout (pos 9600) false).1
    ≡ true
closed_after_parity =
    open_port-closed no_parity_set negotiated is_closed shut same_timeout (λ s. refl) (pos 9600)
      false (wrapped (ack_timed_out set_parity)) parity_fails
