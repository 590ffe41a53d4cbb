-- ===== src/Examples/Wire.antt =====
-- internal/wire at concrete values.
use gokafka.Wire.Varint.RoundTrip.{
  read_varint-write_varint, read_uvarint-write_uvarint, uvarint_result,
}
use gokafka.Result.{uvarint_overflow, ok, err}
use gokafka.Wire.Strings.RoundTrip.{
  read_string-write_string, read_compact_bytes-write_compact_bytes,
  read_compact_nullable_string_ptr-write,
}
use gokafka.Wire.Ints.RoundTrip.{read_int64-write_int64}
use gokafka.Prelude.Int.{negsuc}
use gokafka.Wire.Strings.{
  read_string, write_string, write_compact_nullable_string, write_compact_bytes,
  read_compact_nullable_string_ptr, read_compact_bytes,
}
use gokafka.Wire.Ints.{write_int64, read_int64}
use gokafka.Wire.Varint.{write_varint, write_uvarint, read_varint, read_uvarint}
use gokafka.Wire.Reader.Laws.{Reads}
use gokafka.Prelude.{◌≡◌, arith, [], ◌∷◌, ◌^◌, some, none, codes, ◌++◌, ℕ, List}

read_uvarint-write_uvarint_example :
    read_uvarint (write_uvarint 300 ++ 7 ∷ []) ≡ uvarint_result 300 (7 ∷ [])
read_uvarint-write_uvarint_example = read_uvarint-write_uvarint 300 (7 ∷ [])

read_varint-write_varint_example :
    read_varint (write_varint (negsuc (2 ^ 28)) ++ []) ≡ err uvarint_overflow
read_varint-write_varint_example = read_varint-write_varint (negsuc (2 ^ 28)) [] (omega arith)

read_string-write_string_test :
    (enc : List ℕ) × (write_string (codes "group") ≡ ok enc) × Reads read_string enc (codes "group")
read_string-write_string_test = read_string-write_string (codes "group") (omega arith)

read_compact_nullable_string_ptr-write_test :
    Reads read_compact_nullable_string_ptr (write_compact_nullable_string none) none
read_compact_nullable_string_ptr-write_test =
    read_compact_nullable_string_ptr-write none (omega arith)

read_compact_bytes-write_compact_bytes_test :
    Reads read_compact_bytes (write_compact_bytes (some (1 ∷ 2 ∷ []))) (some (1 ∷ 2 ∷ []))
read_compact_bytes-write_compact_bytes_test =
    read_compact_bytes-write_compact_bytes (some (1 ∷ 2 ∷ [])) (omega arith)

read_int64-write_int64_test : Reads read_int64 (write_int64 (negsuc 0)) (negsuc 0)
read_int64-write_int64_test = read_int64-write_int64 (negsuc 0) (omega arith)
