-- ===== src/Examples/Schema.antt =====
-- The schema framing and record headers at concrete values.
use gokafka.Schema.RoundTrip.{
  decode_protobuf_panic, decode_protobuf-encode_protobuf, decode_confluent-encode_confluent,
}
use gokafka.Result.{panic, ok}
use gokafka.Wire.Varint.{write_varint}
use gokafka.Prelude.Int.{negsuc, pos}
use gokafka.Schema.{
  format_confluent, encode_protobuf, encode_confluent, decode_protobuf, decode_confluent,
}
use gokafka.Prelude.{arith, some, ◌++◌, bytes_eq, if◌then◌else◌, ◌≡◌, [], ◌∷◌, codes}
use gokafka.Headers.{with_headers, set_header, get_header, Header}
use gokafka.Headers.Laws.{get_header-set_header, get_header-with_headers, last_value, or_else}

decode_confluent-encode_confluent_test :
    decode_confluent (encode_confluent (pos 7) (1 ∷ 2 ∷ []))
    ≡ ok (record { magic = format_confluent; schema_id = pos 7 }, 1 ∷ 2 ∷ [])
decode_confluent-encode_confluent_test =
    decode_confluent-encode_confluent (pos 7) (1 ∷ 2 ∷ []) (omega arith)

decode_protobuf-encode_protobuf_example :
    decode_protobuf (encode_protobuf (pos 7) (pos 1 ∷ pos 0 ∷ []) (9 ∷ []))
    ≡ ok (record { magic = format_confluent; schema_id = pos 7 }, pos 1 ∷ pos 0 ∷ [], 9 ∷ [])
decode_protobuf-encode_protobuf_example =
    decode_protobuf-encode_protobuf (pos 7) (pos 1 ∷ pos 0 ∷ []) (9 ∷ []) (omega arith)
      (omega arith) (omega arith, (omega arith, tt))

decode_protobuf_panic_example :
    decode_protobuf (encode_confluent (pos 7) (write_varint (negsuc 0) ++ 9 ∷ [])) ≡ panic
decode_protobuf_panic_example = decode_protobuf_panic (pos 7) 0 (9 ∷ []) (omega arith) (omega arith)

abbrev trace : Header
trace = record { key = codes "trace"; value = 1 ∷ [] }

abbrev trace_again : Header
trace_again = record { key = codes "trace"; value = 2 ∷ [] }

get_header-set_header_test :
    get_header (codes "trace") (set_header (codes "trace") (3 ∷ []) (trace ∷ [])) ≡ (
      if bytes_eq (codes "trace") (codes "trace")
      then some (3 ∷ [])
      else get_header (codes "trace") (trace ∷ []))
get_header-set_header_test =
    get_header-set_header (codes "trace") (3 ∷ []) (codes "trace") (trace ∷ [])

get_header-with_headers_example :
    get_header (codes "trace") (with_headers (trace ∷ []) (trace_again ∷ []))
    ≡ or_else
        (last_value (codes "trace") (trace_again ∷ []))
        (last_value (codes "trace") (trace ∷ []))
get_header-with_headers_example =
    get_header-with_headers (codes "trace") (trace ∷ []) (trace_again ∷ [])
