-- ===== src/Protocol/Batch/RoundTrip.antt =====
-- decodeOneRecordBatch on what encodeRecordBatch wrote.
use gokafka.Protocol.Batch.Frame.{
  Takes-checked, fields, Takes-header, length-checked_part, length-framed, framed,
  patch_batch-frame, Fits,
}
use gokafka.Protocol.Records.Length.{record_body_len-four, length-record_body}
use gokafka.Wire.Varint.{write_varint}
use gokafka.Protocol.Batch.Payload.{compress_as-Carries, AreCodecs, Carries}
use gokafka.Protocol.Assignment.{int32_of}
use gokafka.Compress.{Codecs}
use gokafka.Prelude.{
  ℕ, ◌+◌, ◌-◌, ◌%◌, ◌^◌, ◌≤◌, ◌<◌, ◌≡◌, refl, false, if◌then◌else◌, List, ◌∷◌, ◌++◌, length, le→ltb,
  arith, some, length-append,
}
use gokafka.Prelude.Int.{eqb_ℤ, ◌+ℤ◌, ℤ, pos, negsuc, wrap_64}
use gokafka.Protocol.Batch.{
  BatchSettings, Clock, max_millis, compress_payload, checked_part, batch_frame, patch_batch,
  encode_record_batch,
}
use gokafka.Protocol.Batch.Decode.{BatchInfo, batch_records, decode_one_record_batch}
use gokafka.Protocol.Records.{
  record_body, record_body_len, timestamp_delta_of, append_record, append_records, ProduceRecord,
  millis_or, encode_records_payload,
}
use gokafka.Protocol.Records.Parse.{FetchedRecord, parse_records}
use gokafka.Protocol.Records.RoundTrip.{
  AllEncodable, received, parse_records-encode_records_payload,
}
use gokafka.Result.{ok}

-- The settings with which the batch was written, as the consumer needs them.
abbrev pub decoded_batch :
    List ℕ → ℤ → Clock → BatchSettings → ProduceRecord → List ProduceRecord → BatchInfo
decoded_batch topic partition clock s r records =
    let first = millis_or clock.first r.timestamp in
    record {
      base_offset = pos 0;
      last_offset = wrap_64 (pos 0 +ℤ int32_of (length (r ∷ records) - 1));
      producer_id = if s.sequenced then s.producer_id else negsuc 0;
      is_control = false;
      is_transactional = s.transactional;
      records =
          received
            (record {
              topic = topic;
              partition = partition;
              base_offset = pos 0;
              base_timestamp = first;
            })
            0 clock.payload (millis_or clock.payload r.timestamp) (r ∷ records);
    }

decode-framed :
    (lib : Codecs) (checksum : List ℕ → ℕ) (topic : List ℕ) (partition : ℤ) (s : BatchSettings)
    (seq first max : ℤ) (n attributes : ℕ) (payload z : List ℕ) (out : List FetchedRecord)
    → ((bytes : List ℕ) → checksum bytes < 2 ^ 32)
    → Fits s seq first max n
    → Carries lib s.transactional payload attributes z
    → 4 ≤ length z
    → parse_records
        (record {
          topic = topic;
          partition = partition;
          base_offset = pos 0;
          base_timestamp = first;
        })
        payload
      ≡ ok out
    → decode_one_record_batch lib checksum topic partition
        (patch_batch checksum (batch_frame (checked_part s seq attributes first max n z)))
      ≡ ok (
          some (record {
            base_offset = pos 0;
            last_offset = wrap_64 (pos 0 +ℤ int32_of (n - 1));
            producer_id = if s.sequenced then s.producer_id else negsuc 0;
            is_control = false;
            is_transactional = s.transactional;
            records = out;
          }))
unfolding decode_one_record_batch batch_records
decode-framed lib checksum topic partition s seq first max n attributes payload z out bound fits
      carries size parsed =
    let checked = checked_part s seq attributes first max n z in
    let m = (length checked + 9) % 2 ^ 32 in
    let crc = checksum checked in
    rw
      (
        patch_batch-frame checksum checked,
        le→ltb (length (framed m crc checked)) 65 (
            omega (
              arith,
              length-framed m crc checked,
              length-checked_part s seq first max n attributes z,
            )),
        (Takes-header checksum m checked z
            (fields s seq first max n attributes z fits carries.small) (omega arith) (bound checked)
            (Takes-checked s seq first max n attributes z fits carries.small)).done,
      )
      (rw (carries.control, carries.back, parsed, carries.in_transaction) refl)

four_bytes :
    (now : ℤ) (r : ProduceRecord) (records : List ProduceRecord)
    → 4 ≤ length (encode_records_payload now r records)
unfolding encode_records_payload append_records append_record
four_bytes now r records =
    let first = millis_or now r.timestamp in
    let t = timestamp_delta_of now first r in
    let n = record_body_len r.key r.value r.headers (pos 0) t in
    let body = record_body r.key r.value r.headers (pos 0) t in
    omega (
      arith,
      length-append (write_varint (pos n) ++ body) (append_records 1 now first records),
      length-append (write_varint (pos n)) body,
      length-record_body r.key r.value r.headers (pos 0) t,
      record_body_len-four r.key r.value r.headers (pos 0) t,
    )

-- Wherever the compression succeeds, encodeRecordBatch gives a batch, and decodeOneRecordBatch returns
-- from it the transactional flag and the producer id that were set (-1 without a sequence), base offset
-- 0, the number of the records less one as the last offset, and the records as parseRecords returns
-- them, with any codec but zstd. The conditions: gzip gives back what it compressed, the
-- checksum is a 32-bit number, the fields fit their types, each record is within ReadVarint's range, and
-- the records are within the limit on decompressed bytes.
pub decode_one_record_batch-encode_record_batch :
    (lib : Codecs) (checksum : List ℕ → ℕ) (topic : List ℕ) (partition : ℤ) (clock : Clock)
    (s : BatchSettings) (seq : ℤ) (r : ProduceRecord) (records : List ProduceRecord)
    (z : ℕ × List ℕ)
    → AreCodecs lib
    → eqb_ℤ s.compression (pos 4) ≡ false
    → ((bytes : List ℕ) → checksum bytes < 2 ^ 32)
    → Fits s seq
        (millis_or clock.first r.timestamp)
        (max_millis clock 0 (millis_or clock.first r.timestamp) (r ∷ records))
        (length (r ∷ records))
    → AllEncodable 0 clock.payload (millis_or clock.payload r.timestamp) (r ∷ records)
    → length (encode_records_payload clock.payload r records) ≤ lib.max_decompressed
    → compress_payload lib s (encode_records_payload clock.payload r records) ≡ ok z
    → (batch : List ℕ) × (encode_record_batch lib checksum clock s seq (r ∷ records) ≡ ok batch)
      × (decode_one_record_batch lib checksum topic partition batch
          ≡ ok (some (decoded_batch topic partition clock s r records)))
unfolding encode_record_batch compress_payload
decode_one_record_batch-encode_record_batch lib checksum topic partition clock s seq r records z
      codecs other bound fits encodable room h =
    let first = millis_or clock.first r.timestamp in
    let max = max_millis clock 0 first (r ∷ records) in
    let n = length (r ∷ records) in
    let payload = encode_records_payload clock.payload r records in
    let carries =
      compress_as-Carries lib s.compression s.compression_level s.transactional payload z codecs
        other room h in
    (
      patch_batch checksum (batch_frame (checked_part s seq z.0 first max n z.1)),
      rw h refl,
      decode-framed lib checksum topic partition s seq first max n z.0 payload z.1 _ bound fits
          carries (carries.size (four_bytes clock.payload r records))
          (parse_records-encode_records_payload _ clock.payload r records encodable),
    )
