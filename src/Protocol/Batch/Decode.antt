-- ===== src/Protocol/Batch/Decode.antt =====
-- decodeOneRecordBatch of internal/protocol/fetch.go.
use gokafka.Compress.{Codecs, decompress}
use gokafka.Prelude.{
  ℕ, ◌^◌, bit_and, Bool, not, if◌then◌else◌, List, [], length, drop, ltb, ◌==◌, Option, some, none,
}
use gokafka.Prelude.Int.{ℤ, pos, ◌+ℤ◌, eqb_ℤ, to_unsigned, wrap_64}
use gokafka.Protocol.Records.Parse.{FetchedRecord, BatchContext, parse_records}
use gokafka.Result.{Result, ok, err, bind, bad_magic, crc_mismatch}
use gokafka.Wire.Ints.{read_int8, read_int16, read_int32, read_int64}
use gokafka.Wire.Reader.{Reader, pure, fail, ◌>>=◌, ◌>>◌}

-- recordBatchInfo
pub record BatchInfo : Type 0 where
  pub base_offset : ℤ
  pub last_offset : ℤ
  pub producer_id : ℤ
  pub is_control : Bool
  pub is_transactional : Bool
  pub records : List FetchedRecord

abbrev pub check_magic : ℤ → Reader (Unit {0})
check_magic magic = if eqb_ℤ magic (pos 2) then pure tt else fail (err bad_magic)

abbrev pub check_crc : (List ℕ → ℕ) → List ℕ → ℤ → Reader (Unit {0})
check_crc checksum batch crc =
    if checksum (drop 21 batch) == to_unsigned (2 ^ 32) crc
    then pure tt
    else fail (err crc_mismatch)

-- The fields behind the checksum that are used.
pub record BatchFields : Type 0 where
  pub attributes : ℕ
  pub last_offset_delta : ℤ
  pub first_timestamp : ℤ
  pub producer_id : ℤ

unfoldable pub read_checked_fields : Reader BatchFields
read_checked_fields = do
  attributes ← read_int16
  last_offset_delta ← read_int32
  first_timestamp ← read_int64
  read_int64
  producer_id ← read_int64
  read_int16
  read_int32
  read_int32
  pure (record {
    attributes = to_unsigned (2 ^ 16) attributes;
    last_offset_delta = last_offset_delta;
    first_timestamp = first_timestamp;
    producer_id = producer_id;
  })

unfoldable pub read_verified : (List ℕ → ℕ) → List ℕ → Reader BatchFields
unfolding read_checked_fields
read_verified checksum batch = do
  crc ← read_int32
  check_crc checksum batch crc
  read_checked_fields

-- The batch's base offset and the fields, with the magic and the checksum verified on the way.
unfoldable pub read_batch_header : (List ℕ → ℕ) → List ℕ → Reader (ℤ × BatchFields)
unfolding read_verified
read_batch_header checksum batch = do
  base ← read_int64
  read_int32
  read_int32
  magic ← read_int8
  check_magic magic
  fields ← read_verified checksum batch
  pure (base, fields)

abbrev pub has_bits : ℕ → ℕ → Bool
has_bits attributes mask = not (bit_and attributes mask == 0)

abbrev pub batch_info : ℤ → BatchFields → List FetchedRecord → BatchInfo
batch_info base f records = record {
  base_offset = base;
  last_offset = wrap_64 (base +ℤ f.last_offset_delta);
  producer_id = f.producer_id;
  is_control = has_bits f.attributes 0x20;
  is_transactional = has_bits f.attributes 0x10;
  records = records;
}

-- The records behind the header: buf.Remaining(), decompressed where the codec is not 0.
unfoldable pub batch_payload : Codecs → ℕ → List ℕ → Result (List ℕ)
unfolding decompress
batch_payload lib attributes rest =
    if bit_and attributes 0x7 == 0
    then ok rest
    else decompress lib (pos (bit_and attributes 0x7)) rest

-- A control batch is not parsed.
unfoldable pub batch_records : Codecs → BatchContext → ℕ → List ℕ → Result (List FetchedRecord)
unfolding batch_payload parse_records
batch_records lib c attributes rest =
    if has_bits attributes 0x20
    then ok []
    else bind (batch_payload lib attributes rest) λ data'. parse_records c data'

unfoldable pub decode_one_record_batch :
    Codecs → (List ℕ → ℕ) → List ℕ → ℤ → List ℕ → Result (Option BatchInfo)
unfolding read_batch_header batch_records
decode_one_record_batch lib checksum topic partition batch =
    if ltb (length batch) 65
    then ok none
    else bind (read_batch_header checksum batch batch) λ r.
      let (base, f) = r.0 in
      bind
        (batch_records lib
          (record {
            topic = topic;
            partition = partition;
            base_offset = base;
            base_timestamp = f.first_timestamp;
          })
          f.attributes r.1)
        λ records. ok (some (batch_info base f records))
