-- ===== src/Tests/NetworkTests.antt =====
-- The protocol over the network port, on a connection that takes one byte at a time.
use vkt7d.Common.{
  ◌≡◌, ◌≢◌, refl, true, false, Bool, if◌then◌else◌, List, [], ◌∷◌, ◌++◌, arith, Bytes,
}
use vkt7d.Errors.{ok}
use vkt7d.Telnet.{escape, initial, feed}
use vkt7d.Telnet.Wire.{Segment, text, option, v_do}
use vkt7d.Port.{answer_of, client_of}
use vkt7d.Port.Acks.{handle_subneg, delivered}
use vkt7d.Port.Output.{send, write_loop, write_raw, command_message, reply}
use vkt7d.Port.Acks.{
  begin_command, end_command, pending, removed, reader, push_data, handle_negotiation,
}
use vkt7d.Port.Queue.{chunk_ready, read_timer, read}
use vkt7d.Port.Queue.Filled.{readings}
use vkt7d.Port.Mode.{reset_input_buffer}
use vkt7d.Protocol.Transaction.{tx}
use vkt7d.Network.{acknowledgement, Surroundings, Link, link_read, link_write, link_reset, network}
use vkt7d.Network.Interface.{NoCrc}
use vkt7d.Network.Transmit.{Mirrors, Arrived, tx-Arrived}
use vkt7d.Network.Plan.{Plan}
use vkt7d.Network.Answered.{tx_answered}
use vkt7d.Tests.PortTests.{slow, slow_Working, fresh}
use vkt7d.Tests.ProtocolTests.{answer, request, answer-IsResponse}
use vkt7d.Protocol.Response.{validate_response, checked, examine}
use vkt7d.Protocol.Crc.{crc16}

abbrev planned : Plan → (List Bytes × Bool) × Plan
planned [] = (([], false), [])
planned (x ∷ plan) = (x, plan)

-- While a purge waits: a byte that was late, and the acknowledgement, in two pieces.
abbrev heard_at_purge : List Bytes
heard_at_purge = (0x55 ∷ 0xff ∷ 0xfa ∷ 44 ∷ []) ∷ (112 ∷ 1 ∷ 0xff ∷ 0xf0 ∷ []) ∷ []

-- The reads follow a plan, and every command hears this, and takes what its channel then holds.
abbrev by_plan : Surroundings
by_plan = record {
  State = Plan;
  during_read = λ plan.
      let ((pieces, ready), rest) = planned plan in
      ((readings pieces, if ready then chunk_ready else read_timer), rest);
  during_command = λ plan. ((readings heard_at_purge, acknowledgement), plan);
  turns = λ plan. 20;
}

by_plan-NoCrc : NoCrc by_plan
by_plan-NoCrc s x same = cc

-- The answer, with an option request in the middle, in three texts.
abbrev segments : List Segment
segments = text (1 ∷ 3 ∷ []) ∷ option v_do 1 ∷ text (2 ∷ 0x12 ∷ 0x34 ∷ 181 ∷ 51 ∷ []) ∷ []

abbrev cut_up : Plan
cut_up =
    ((1 ∷ 3 ∷ 0xff ∷ []) ∷ [], true)
    ∷ ([], false)
    ∷ ((0xfd ∷ 1 ∷ 2 ∷ []) ∷ (0x12 ∷ []) ∷ [], false)
    ∷ ((0x34 ∷ 181 ∷ 51 ∷ []) ∷ [], true)
    ∷ ([], true)
    ∷ ([], true)
    ∷ []

abbrev linked : Link Bytes Plan
linked = record {
  port = record fresh { chunks = (1 ∷ 2 ∷ []) ∷ [] };
  decoder = initial;
  env = cut_up;
  history = [];
}

abbrev purge : Bytes
purge = 0xff ∷ 0xfa ∷ 44 ∷ 12 ∷ 1 ∷ 0xff ∷ 0xf0 ∷ []

-- What the server took: two purge commands, the request behind two 0xFF bytes, doubled for Telnet, and a refusal.
refused_meanwhile :
    (tx (network slow by_plan) 8000 request linked).1.port.conn
    ≡ purge
      ++ purge
      ++ 0xff ∷ 0xff ∷ 0xff ∷ 0xff ∷ 1 ∷ 3 ∷ 0x3f ∷ 0xfe ∷ 0 ∷ 0 ∷ 40 ∷ 46 ∷ 0xff ∷ 0xfc ∷ 1 ∷ []
unfolding tx link_reset link_read link_write reset_input_buffer begin_command pending
    command_message end_command send write_raw write_loop reader removed escape read examine checked
    validate_response crc16 push_data handle_negotiation reply answer_of handle_subneg client_of
    delivered
refused_meanwhile = refl

tx_answered_example : (tx (network slow by_plan) 8000 request linked).0 ≡ ok answer
unfolding escape feed pending answer_of
tx_answered_example =
    tx_answered slow slow_Working by_plan 8000 heard_at_purge heard_at_purge (text (0x55 ∷ []) ∷ [])
      [] (text (0x55 ∷ []) ∷ []) [] (1 ∷ []) (1 ∷ []) cut_up cut_up cut_up segments request answer
      linked refl refl refl refl (tt, (tt, tt)) refl refl (tt, (tt, tt)) refl (tt, (tt, (tt, tt)))
      refl refl
      (
        refl,
        (omega arith, tt),
        (
          refl,
          tt,
          (
            refl,
            (omega arith, (omega arith, tt)),
            (refl, (omega arith, tt), (refl, tt, (refl, tt, tt))),
          ),
        ),
      )
      (omega arith) refl answer-ne_nil answer-IsResponse
  where
    answer-ne_nil : answer ≢ []
    answer-ne_nil e = cc

tx-Arrived_example :
    Arrived slow slow_Working by_plan initial
      (0xff ∷ 0xff ∷ request)
      linked
      (tx (network slow by_plan) 8000 request linked)
unfolding feed
tx-Arrived_example =
    tx-Arrived slow slow_Working by_plan by_plan-NoCrc initial 8000 request linked linked-Mirrors
  where
    linked-Mirrors : Mirrors slow slow_Working by_plan initial linked
    linked-Mirrors = record { is_open = refl; between = refl; same = refl }
