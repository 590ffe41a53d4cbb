-- ===== src/Schema.antt =====
-- internal/schema/wire/confluent.go: the schema id in front of a payload, and the message indexes of
-- Protobuf payloads.
use gokafka.Wire.Varint.{write_varint, read_varint}
use gokafka.Wire.Ints.{big_endian, put_uint32}
use gokafka.Result.{short_buffer, err, panic, ok, bind, Result}
use gokafka.Wire.Reader.{read_times, pure, fail, ◌>>=◌, Reader}
use gokafka.Prelude.Int.{to_unsigned, pos, eqb_ℤ, to_signed, negsuc, ℤ}
use gokafka.Prelude.{length, false, ◌++◌, ◌^◌, ◌==◌, [], ◌∷◌, if◌then◌else◌, Bool, ℕ, List}
pub mod RoundTrip

-- Header
pub record Header : Type 0 where
  pub magic : ℕ
  pub schema_id : ℤ

-- FormatConfluent
abbrev pub format_confluent : ℕ
format_confluent = 0

unfoldable pub encode_header_id : ℤ → List ℕ
encode_header_id schema_id = format_confluent ∷ put_uint32 (to_unsigned (2 ^ 32) schema_id)

unfoldable pub encode_confluent : ℤ → List ℕ → List ℕ
encode_confluent schema_id payload =
    (format_confluent ∷ put_uint32 (to_unsigned (2 ^ 32) schema_id)) ++ payload

-- int32(binary.BigEndian.Uint32(…))
abbrev pub schema_id_of : List ℕ → ℤ
schema_id_of b = to_signed (2 ^ 32) (big_endian b)

-- Fewer than five bytes, or another magic byte, is the short-buffer error.
unfoldable pub decode_confluent : List ℕ → Result (Header × List ℕ)
decode_confluent (m ∷ b0 ∷ b1 ∷ b2 ∷ b3 ∷ rest) =
    if m == format_confluent
    then ok (record { magic = m; schema_id = schema_id_of (b0 ∷ b1 ∷ b2 ∷ b3 ∷ []) }, rest)
    else err short_buffer
decode_confluent (m ∷ b0 ∷ b1 ∷ b2 ∷ []) = err short_buffer
decode_confluent (m ∷ b0 ∷ b1 ∷ []) = err short_buffer
decode_confluent (m ∷ b0 ∷ []) = err short_buffer
decode_confluent (m ∷ []) = err short_buffer
decode_confluent [] = err short_buffer

unfoldable pub decode_header_id : List ℕ → Result ℤ
unfolding decode_confluent
decode_header_id v = bind (decode_confluent v) λ (h, rest). ok h.schema_id

-- The single index 0 is one zero byte; a list is its count and its indexes, as zigzag varints.
unfoldable pub write_indexes : List ℤ → List ℕ
write_indexes [] = []
write_indexes (ix ∷ indexes) = write_varint ix ++ write_indexes indexes

abbrev pub only_zero : List ℤ → Bool
only_zero (ix ∷ []) = eqb_ℤ ix (pos 0)
only_zero [] = false
only_zero (ix ∷ iy ∷ indexes) = false

unfoldable pub encode_message_indexes : List ℤ → List ℕ
unfolding write_indexes
encode_message_indexes indexes =
    if only_zero indexes
    then 0 ∷ []
    else write_varint (pos (length indexes)) ++ write_indexes indexes

-- make([]int, 0, n) panics for a negative n.
unfoldable pub indexes_body : ℤ → Reader (List ℤ)
indexes_body (negsuc n) = fail panic
indexes_body (pos n) = if n == 0 then pure (pos 0 ∷ []) else read_times n read_varint

unfoldable pub decode_message_indexes : Reader (List ℤ)
unfolding indexes_body
decode_message_indexes = do n ← read_varint; indexes_body n

unfoldable pub encode_protobuf : ℤ → List ℤ → List ℕ → List ℕ
unfolding encode_message_indexes
encode_protobuf schema_id indexes payload =
    (format_confluent ∷ put_uint32 (to_unsigned (2 ^ 32) schema_id))
    ++ encode_message_indexes indexes
    ++ payload

unfoldable pub decode_protobuf : List ℕ → Result (Header × List ℤ × List ℕ)
unfolding decode_confluent decode_message_indexes
decode_protobuf b =
    bind (decode_confluent b)
      λ (h, rest). bind (decode_message_indexes rest) λ (indexes, left). ok (h, indexes, left)
