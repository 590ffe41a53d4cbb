-- ===== src/Protocol/Batch.antt =====
-- encodeRecordBatch of internal/protocol/produce.go: a version 2 record batch.
pub mod Decode
pub mod Filter
pub mod Payload
pub mod Frame
pub mod RoundTrip
pub mod Isolation
pub mod Shown
pub mod Loop
pub mod Plain
use gokafka.Compress.{Codecs, compress}
use gokafka.Prelude.{
  ℕ, zero, suc, ◌+◌, ◌-◌, ◌%◌, ◌^◌, bit_or, Bool, true, false, if◌then◌else◌, List, [], ◌∷◌, ◌++◌,
  length, take, drop, ltb, Option,
}
use gokafka.Prelude.Int.{ℤ, pos, negsuc, ltb_ℤ, eqb_ℤ, to_unsigned, to_signed}
use gokafka.Protocol.Assignment.{int32_of}
use gokafka.Protocol.Records.{ProduceRecord, millis_or, encode_records_payload}
use gokafka.Result.{Result, ok, err, bind, empty_batch}
use gokafka.Wire.Ints.{write_int8, write_int16, write_int32, write_int64, put_uint32}

-- The fields of ProduceSettings that encodeRecordBatch reads; `sequenced` is NextSequence != nil.
pub record BatchSettings : Type 0 where
  pub compression : ℤ
  pub compression_level : ℤ
  pub transactional : Bool
  pub producer_id : ℤ
  pub producer_epoch : ℤ
  pub sequenced : Bool

-- The readings of time.Now: for the first timestamp, for the record at each index in the loop, and in
-- encodeRecordsPayload.
pub record Clock : Type 0 where
  pub first : ℤ
  pub each : ℕ → ℤ
  pub payload : ℤ

-- The loop over the timestamps, from index i on.
unfoldable pub max_millis : Clock → ℕ → ℤ → List ProduceRecord → ℤ
max_millis clock i acc [] = acc
max_millis clock i acc (r ∷ records) =
    let t = millis_or (clock.each i) r.timestamp in
    max_millis clock (i + 1) (if ltb_ℤ acc t then t else acc) records

-- The attributes and the payload: what does not get shorter is left as it is.
unfoldable pub compress_as : Codecs → ℤ → ℤ → ℕ → List ℕ → Result (ℕ × List ℕ)
unfolding compress
compress_as lib codec level attributes payload =
    if eqb_ℤ codec (pos 0)
    then ok (attributes, payload)
    else bind (compress lib codec level payload) λ z. ok (
        if ltb (length z) (length payload)
        then (bit_or attributes (to_unsigned (2 ^ 16) codec), z)
        else (attributes, payload))

abbrev pub base_attributes : Bool → ℕ
base_attributes transactional = if transactional then 0x10 else 0

unfoldable pub compress_payload : Codecs → BatchSettings → List ℕ → Result (ℕ × List ℕ)
unfolding compress_as
compress_payload lib s payload =
    compress_as lib s.compression s.compression_level (base_attributes s.transactional) payload

-- copy into b[i:i+len(w)]
abbrev pub put_at : ℕ → List ℕ → List ℕ → List ℕ
put_at i w b = take i b ++ (w ++ drop (i + length w) b)

-- What stands behind the checksum: the bytes body[21:].
unfoldable pub checked_part : BatchSettings → ℤ → ℕ → ℤ → ℤ → ℕ → List ℕ → List ℕ
checked_part s base_sequence attributes first_ms max_ms n payload =
    write_int16 (to_signed (2 ^ 16) attributes)
    ++ (write_int32 (int32_of (n - 1))
        ++ (write_int64 first_ms
            ++ (write_int64 max_ms
                ++ (write_int64 (if s.sequenced then s.producer_id else negsuc 0)
                    ++ (write_int16 (if s.sequenced then s.producer_epoch else negsuc 0)
                        ++ (write_int32 (if s.sequenced then base_sequence else negsuc 0)
                            ++ (write_int32 (int32_of n) ++ payload)))))))

unfoldable pub batch_frame : List ℕ → List ℕ
batch_frame checked =
    write_int64 (pos 0)
    ++ (write_int32 (pos 0)
        ++ (write_int32 (negsuc 0) ++ (write_int8 (pos 2) ++ (write_int32 (pos 0) ++ checked))))

-- The two PutUint32: the batch length, then the checksum over body[21:].
unfoldable pub patch_batch : (List ℕ → ℕ) → List ℕ → List ℕ
patch_batch checksum body =
    let sized = put_at 8 (put_uint32 ((length body - 12) % 2 ^ 32)) body in
    put_at 17 (put_uint32 (checksum (drop 21 sized))) sized

unfoldable pub encode_record_batch :
    Codecs → (List ℕ → ℕ) → Clock → BatchSettings → ℤ → List ProduceRecord → Result (List ℕ)
unfolding max_millis compress_payload checked_part batch_frame patch_batch encode_records_payload
encode_record_batch lib checksum clock s base_sequence [] = err empty_batch
encode_record_batch lib checksum clock s base_sequence (r ∷ records) =
    let first_ms = millis_or clock.first r.timestamp in
    let max_ms = max_millis clock 0 first_ms (r ∷ records) in
    bind (compress_payload lib s (encode_records_payload clock.payload r records)) λ z. ok (
      patch_batch checksum
        (batch_frame (checked_part s base_sequence z.0 first_ms max_ms (length (r ∷ records)) z.1)))
