-- ===== src/Tests/DataTests.antt =====
-- Runs of the parsers, and their theorems at concrete data.
use Prim.Native.String.{String}
use vkt7d.Common.{
  ◌≡◌, ◌≢◌, refl, List, [], ◌∷◌, ◌++◌, arith, Bytes, All, length, false, if◌then◌else◌, ltb, ◌==◌,
  ◌||◌, some,
}
use vkt7d.Common.Int.{negsuc}
use vkt7d.Errors.{Error, malformed, payload_too_large, ok, err}
use vkt7d.Model.{Element, unsigned, integer}
use vkt7d.Model.Table.{lookup}
use vkt7d.Model.Names.{element_name}
use vkt7d.Model.Names.Distinct.{element_name-ne}
use vkt7d.Protocol.Signed.{decode_signed_int}
use vkt7d.Protocol.Signed.Value.{signed, le_value, decode_signed_int-signed}
use vkt7d.Protocol.Elements.{Table, decode_element_value, parse_elements}
use vkt7d.Protocol.Elements.Wire.{
  Field, IsField, record_bytes, elements_of, field_value, parse_elements-fields,
  parse_elements-short,
}
use vkt7d.Protocol.ReadList.{make_read_list_payload, active_entries}
use vkt7d.Protocol.ReadList.RoundTrip.{IsActive, make_read_list_payload-active}
use vkt7d.Protocol.Reply.{parse_exception, is_exception_code, data_part, three_bytes}
use vkt7d.Protocol.Reply.Exceptions.{layers, parse_exception-code, three_bytes-exception}
use vkt7d.Protocol.Reply.Data.{read_answer, read_answer-data}
use vkt7d.Protocol.Response.Progress.{IsResponse}

-- The examples of the comment on `decodeSignedInt`.
minus_88 :
    (decode_signed_int (0xa8 ∷ []) ≡ ok (negsuc 87))
    × (decode_signed_int (0xa8 ∷ 0xff ∷ []) ≡ ok (negsuc 87))
    × (decode_signed_int (0xa8 ∷ 0xff ∷ 0xff ∷ []) ≡ ok (negsuc 87))
unfolding decode_signed_int
minus_88 = (refl, refl, refl)

decode_signed_int-signed_example : decode_signed_int (0xa8 ∷ 0xff ∷ []) ≡ (
    if false || ltb 8 2
    then err (malformed (0xa8 ∷ 0xff ∷ []))
    else ok (signed 2 (le_value (0xa8 ∷ 0xff ∷ []))))
decode_signed_int-signed_example = decode_signed_int-signed (0xa8 ∷ 0xff ∷ []) (omega arith)

pressure : element_name 82 ≡ "P3"
unfolding element_name
pressure = refl

unknown_name : element_name 120 ≡ "element_120"
unfolding element_name
unknown_name = refl

element_names_5_6 : element_name 5 ≢ element_name 6
element_names_5_6 = element_name-ne 5 6 (omega arith) (omega arith) (omega arith)

abbrev temperature : Field
temperature = record {
  element = record { address = 0; name = "t1_1"; size = 2 };
  raw = 0xa8 ∷ 0xff ∷ [];
  quality = 0xc0;
  ns = 1;
  datum = integer (negsuc 87);
}

abbrev decimals : Field
decimals = record {
  element = record { address = 57; name = "t_dec"; size = 1 };
  raw = 2 ∷ [];
  quality = 0xc0;
  ns = 0;
  datum = unsigned 2;
}

temperature-IsField : IsField temperature
unfolding decode_element_value decode_signed_int
temperature-IsField = record { sized = refl; decodes = refl }

decimals-IsField : IsField decimals
unfolding decode_element_value
decimals-IsField = record { sized = refl; decodes = refl }

parse_elements-fields_example :
    (t : Table) × (parse_elements
        (elements_of (temperature ∷ decimals ∷ []))
        (record_bytes (temperature ∷ decimals ∷ []) ++ 7 ∷ 7 ∷ [])
        0
      ≡ ok t)
    × (lookup "t1_1" t ≡ some (field_value temperature))
parse_elements-fields_example =
    parse_elements-fields [] temperature (decimals ∷ []) (7 ∷ 7 ∷ []) 0
      (temperature-IsField, (decimals-IsField, tt)) (other_name, tt)
  where
    other_name : ◌≢◌ {A = String} "t_dec" "t1_1"
    other_name e = cc

parse_elements-short_example :
    (x : Error) × (parse_elements (elements_of (temperature ∷ [])) (1 ∷ 2 ∷ 3 ∷ []) 0 ≡ err x)
parse_elements-short_example =
    parse_elements-short (elements_of (temperature ∷ [])) (1 ∷ 2 ∷ 3 ∷ []) 0 (omega arith)

abbrev read_list : List Element
read_list =
    record { address = 0; name = element_name 0; size = 2 }
    ∷ record { address = 82; name = element_name 82; size = 4 }
    ∷ []

read_list-IsActive : All IsActive read_list
read_list-IsActive = (
  record { supported = omega arith; named = refl; fits = omega arith },
  (record { supported = omega arith; named = refl; fits = omega arith }, tt),
)

make_read_list_payload-active_example :
    (p : Bytes) × (make_read_list_payload read_list
      ≡ (if ltb 42 2 then err (payload_too_large 12) else ok (length p ∷ p)))
    × (active_entries p ≡ read_list)
make_read_list_payload-active_example = make_read_list_payload-active read_list read_list-IsActive

abbrev refusal : Bytes
refusal = 1 ∷ 0x83 ∷ 5 ∷ 0 ∷ 0 ∷ 0 ∷ []

exception_code_read :
    (e : Error) × (parse_exception refusal ≡ err e) × (is_exception_code (layers 2 e) 5 ≡ (5 == 5))
exception_code_read = parse_exception-code refusal 2 5 (omega arith) (omega arith) (omega arith)

three_bytes-exception_example :
    (three_bytes refusal ≡ ok (1, 0x83, 5)) × ((e : Error) × (parse_exception refusal ≡ err e))
three_bytes-exception_example =
    three_bytes-exception refusal (omega arith) (omega arith) (omega arith)

read_answer-data_example :
    IsResponse 3 (read_answer 1 (9 ∷ 8 ∷ []))
    × (parse_exception (read_answer 1 (9 ∷ 8 ∷ [])) ≡ ok tt)
    × (data_part (read_answer 1 (9 ∷ 8 ∷ [])) ≡ 9 ∷ 8 ∷ [])
read_answer-data_example = read_answer-data 1 (9 ∷ 8 ∷ []) (omega arith) (omega arith) (omega arith)
