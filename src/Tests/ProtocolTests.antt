-- ===== src/Tests/ProtocolTests.antt =====
-- Runs of the CRC, the frames and the transaction, and their theorems at concrete frames.
use vkt7d.Common.{◌≡◌, ◌≢◌, ◌↔◌, refl, [], ◌∷◌, ◌++◌, arith, Bytes, length}
use vkt7d.Errors.{port_failed, crc_mismatch, ok, err}
use vkt7d.Protocol.Crc.{crc16}
use vkt7d.Protocol.Crc.Detect.{crc16_one_byte}
use vkt7d.Protocol.Frame.{frame, sealed}
use vkt7d.Protocol.Response.{response_length, validate_response, checked, examine}
use vkt7d.Protocol.Response.Valid.{
  validate_response-ok_iff, sealed-valid, validate_response_one_byte,
}
use vkt7d.Protocol.Response.Progress.{IsResponse}
use vkt7d.Protocol.Transaction.{received, eof, broken, read_response, tx}
use vkt7d.Protocol.Transaction.Receive.{Returned, read_response_complete, read_response-Returned}
use vkt7d.Protocol.Transaction.Retry.{Sent, tx-Sent}
use vkt7d.Tests.Script.{Script, scripted, scripted_Observed}

-- The check value of CRC-16/MODBUS for the digits 1 to 9.
check_value : crc16 (49 ∷ 50 ∷ 51 ∷ 52 ∷ 53 ∷ 54 ∷ 55 ∷ 56 ∷ 57 ∷ []) ≡ 0x4b37
unfolding crc16
check_value = refl

-- A read of the register 0x3FFE at address 1.
read_frame : frame 1 3 0x3ffe 0 [] ≡ 1 ∷ 3 ∷ 0x3f ∷ 0xfe ∷ 0 ∷ 0 ∷ 40 ∷ 46 ∷ []
unfolding frame crc16
read_frame = refl

abbrev pub answer : Bytes
answer = 1 ∷ 3 ∷ 2 ∷ 0x12 ∷ 0x34 ∷ 181 ∷ 51 ∷ []

abbrev damaged : Bytes
damaged = 1 ∷ 3 ∷ 2 ∷ 0x12 ∷ 0x35 ∷ 181 ∷ 51 ∷ []

abbrev pub request : Bytes
request = 1 ∷ 3 ∷ 0x3f ∷ 0xfe ∷ 0 ∷ 0 ∷ 40 ∷ 46 ∷ []

pub answer-IsResponse : IsResponse 3 answer
unfolding response_length validate_response crc16
answer-IsResponse = record { announced = refl; fits = omega arith; valid = refl }

abbrev pieces : Script
pieces = record {
  reads =
      received []
      ∷ received (1 ∷ 3 ∷ [])
      ∷ eof
      ∷ received (2 ∷ 0x12 ∷ 0x34 ∷ 181 ∷ [])
      ∷ received (51 ∷ [])
      ∷ broken (port_failed 9)
      ∷ [];
  written = [];
  turns = 20;
}

crc16_one_byte_example : crc16 ((1 ∷ 3 ∷ []) ++ 7 ∷ 9 ∷ []) ≢ crc16 ((1 ∷ 3 ∷ []) ++ 8 ∷ 9 ∷ [])
crc16_one_byte_example =
    crc16_one_byte (1 ∷ 3 ∷ []) 7 8 (9 ∷ []) (omega arith) (omega arith) (omega arith) (omega arith)
      (omega arith)

validate_response-ok_iff_example :
    (validate_response answer (length answer) ≡ ok tt) ↔ (crc16 answer ≡ 0)
validate_response-ok_iff_example = validate_response-ok_iff answer (omega arith) (omega arith)

sealed_pair_valid : validate_response (sealed (1 ∷ 2 ∷ [])) (length (sealed (1 ∷ 2 ∷ []))) ≡ ok tt
sealed_pair_valid = sealed-valid (1 ∷ 2 ∷ []) (omega arith)

validate_response_one_byte_example :
    validate_response damaged (length damaged) ≡ err (crc_mismatch damaged)
validate_response_one_byte_example =
    validate_response_one_byte (1 ∷ 3 ∷ 2 ∷ 0x12 ∷ []) 0x34 0x35 (181 ∷ 51 ∷ []) (omega arith)
      (omega arith) (omega arith) (omega arith) answer-IsResponse.valid

read_response_complete_example : (read_response scripted request pieces).0 ≡ ok answer
read_response_complete_example =
    read_response_complete scripted request answer 5 pieces (omega arith)
      (tt, (tt, (tt, (tt, (tt, tt))))) refl answer-ne_nil answer-IsResponse
  where
    answer-ne_nil : answer ≢ []
    answer-ne_nil e = cc

returned : (read_response scripted request pieces).0 ≡ ok answer
unfolding read_response examine checked validate_response crc16
returned = refl

read_response-Returned_example : Returned scripted 3 20 [] pieces answer
read_response-Returned_example = read_response-Returned scripted request answer pieces returned

-- A damaged answer, and a whole one to the second request.
abbrev noisy : Script
noisy = record { reads = received damaged ∷ received answer ∷ []; written = []; turns = 20 }

tx_retries : tx scripted 8000 request noisy ≡ (
  ok answer,
  record {
    reads = [];
    written = (0xff ∷ 0xff ∷ request) ∷ (0xff ∷ 0xff ∷ request) ∷ [];
    turns = 20;
  },
)
unfolding tx examine checked validate_response crc16
tx_retries = refl

tx-Sent_example :
    Sent scripted scripted_Observed
      (0xff ∷ 0xff ∷ request)
      1
      2
      noisy
      (tx scripted 8000 request noisy)
tx-Sent_example = tx-Sent scripted scripted_Observed 8000 request noisy
