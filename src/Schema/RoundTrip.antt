-- ===== src/Schema/RoundTrip.antt =====
-- The schema framing is read back.
use gokafka.Wire.Ints.RoundTrip.{to_unsigned_32-lt, big_endian-put_uint32}
use gokafka.Wire.Reader.Laws.{Reads-bind, Reads}
use gokafka.Wire.Ints.{put_uint32, big_endian}
use gokafka.Wire.Varint.RoundTrip.{read_varint_small, FitsVarint}
use gokafka.Result.{panic, ok, bind}
use gokafka.Wire.Varint.{write_varint, unzigzag, read_uvarint_loop, read_uvarint, read_varint}
use gokafka.Wire.Reader.{pure, continue, read_times}
use gokafka.Schema.{
  format_confluent, write_indexes, only_zero, encode_message_indexes, encode_confluent, Header,
  indexes_body, encode_protobuf, decode_protobuf, decode_message_indexes, decode_confluent,
}
use gokafka.Prelude.Int.{to_signed-to_unsigned_32, to_unsigned, negsuc, to_signed, pos, IsSigned, ℤ}
use gokafka.Prelude.{
  inr, subst, inl, ◌∙◌, suc_ne_zero, refl, arith, Bool-cases, ◌++◌, ap, ◌<◌, true, [], ◌≡◌, ◌∷◌,
  ◌^◌, length, All, ℕ, List,
}

abbrev header_of : ℤ → Header
header_of schema_id = record { magic = format_confluent; schema_id = schema_id }

schema_id-put :
    (schema_id : ℤ)
    → IsSigned (2 ^ 32) schema_id
    → to_signed (2 ^ 32) (big_endian (put_uint32 (to_unsigned (2 ^ 32) schema_id))) ≡ schema_id
schema_id-put schema_id h =
    ap (to_signed (2 ^ 32))
      (big_endian-put_uint32 (to_unsigned (2 ^ 32) schema_id) (to_unsigned_32-lt schema_id))
    ∙ to_signed-to_unsigned_32 schema_id h

-- DecodeConfluent takes the prefix of EncodeConfluent off: it returns the int32 schema id and the payload.
pub decode_confluent-encode_confluent :
    (schema_id : ℤ) (payload : List ℕ)
    → IsSigned (2 ^ 32) schema_id
    → decode_confluent (encode_confluent schema_id payload)
      ≡ ok (record { magic = format_confluent; schema_id = schema_id }, payload)
unfolding decode_confluent encode_confluent
decode_confluent-encode_confluent schema_id payload h =
    ap (λ v. ok (header_of v, payload)) (schema_id-put schema_id h)

-- The empty list of indexes stands for the first message.
abbrev pub canonical : List ℤ → List ℤ
canonical [] = pos 0 ∷ []
canonical (ix ∷ indexes) = ix ∷ indexes

read_indexes :
    (indexes : List ℤ)
    → All FitsVarint indexes
    → Reads (read_times (length indexes) read_varint) (write_indexes indexes) indexes
unfolding read_times write_indexes
read_indexes [] h = λ rest. refl
read_indexes (ix ∷ indexes) h =
    Reads-bind read_varint _ (write_varint ix) (write_indexes indexes) ix (ix ∷ indexes)
      (λ rest. read_varint_small ix rest h.0)
      λ rest. ap (λ m. continue m (λ v. pure (ix ∷ v))) (read_indexes indexes h.1 rest)

read_body :
    (indexes : List ℤ)
    → All FitsVarint indexes
    → Reads (indexes_body (pos (length indexes))) (write_indexes indexes) (canonical indexes)
unfolding indexes_body write_indexes
read_body [] h = λ rest. refl
read_body (ix ∷ indexes) h = rw (suc_ne_zero (length indexes)) (read_indexes (ix ∷ indexes) h)

only_zero-canonical : (indexes : List ℤ) → only_zero indexes ≡ true → pos 0 ∷ [] ≡ canonical indexes
only_zero-canonical (pos ix ∷ []) z = ap (λ n. pos n ∷ []) (ground arith)
only_zero-canonical (negsuc ix ∷ []) z = ground arith
only_zero-canonical [] z = refl
only_zero-canonical (ix ∷ iy ∷ indexes) z = cc

read_zero : Reads decode_message_indexes (0 ∷ []) (pos 0 ∷ [])
unfolding decode_message_indexes indexes_body read_varint read_uvarint read_uvarint_loop unzigzag
read_zero rest = refl

decode-encode_indexes :
    (indexes : List ℤ)
    → length indexes < 2 ^ 28
    → All FitsVarint indexes
    → Reads decode_message_indexes (encode_message_indexes indexes) (canonical indexes)
unfolding decode_message_indexes encode_message_indexes
decode-encode_indexes indexes small h = elim (Bool-cases (only_zero indexes)) [
  | inl z ↦
      rw z (subst (Reads decode_message_indexes (0 ∷ [])) (only_zero-canonical indexes z) read_zero)
  | inr nz ↦ rw nz (
      Reads-bind read_varint indexes_body (write_varint (pos (length indexes)))
        (write_indexes indexes) (pos (length indexes)) (canonical indexes)
        (λ rest. read_varint_small (pos (length indexes)) rest small) (read_body indexes h))
]

framed :
    (schema_id : ℤ) (rest : List ℕ)
    → IsSigned (2 ^ 32) schema_id
    → decode_protobuf (encode_confluent schema_id rest)
      ≡ bind
          (decode_message_indexes rest)
          λ (indexes, left). ok (header_of schema_id, indexes, left)
unfolding decode_protobuf
framed schema_id rest h =
    ap
      (λ d.
        bind d λ (v, r). bind (decode_message_indexes r) λ (indexes, left). ok (v, indexes, left))
      (decode_confluent-encode_confluent schema_id rest h)

-- DecodeProtobuf takes the frame of EncodeProtobuf off: for an int32 schema id and fewer than 2^28 indexes
-- that are each between -2^28 and 2^28 - 1 it returns the id, the indexes ([0] for none) and the
-- payload.
pub decode_protobuf-encode_protobuf :
    (schema_id : ℤ) (indexes : List ℤ) (payload : List ℕ)
    → IsSigned (2 ^ 32) schema_id
    → length indexes < 2 ^ 28
    → All FitsVarint indexes
    → decode_protobuf (encode_protobuf schema_id indexes payload)
      ≡ ok (record { magic = format_confluent; schema_id = schema_id }, canonical indexes, payload)
unfolding encode_protobuf encode_confluent
decode_protobuf-encode_protobuf schema_id indexes payload h small fits =
    framed schema_id (encode_message_indexes indexes ++ payload) h
    ∙ ap (λ d. bind d λ (is, left). ok (header_of schema_id, is, left))
        (decode-encode_indexes indexes small fits payload)

-- A Protobuf frame whose count of indexes is negative, down to -2^28, makes DecodeProtobuf panic, whatever
-- follows the count.
pub decode_protobuf_panic :
    (schema_id : ℤ) (n : ℕ) (rest : List ℕ)
    → IsSigned (2 ^ 32) schema_id
    → n < 2 ^ 28
    → decode_protobuf (encode_confluent schema_id (write_varint (negsuc n) ++ rest)) ≡ panic
unfolding decode_message_indexes indexes_body
decode_protobuf_panic schema_id n rest h small =
    framed schema_id (write_varint (negsuc n) ++ rest) h
    ∙ ap (λ m. bind (continue m indexes_body) λ (is, left). ok (header_of schema_id, is, left))
        (read_varint_small (negsuc n) rest small)
