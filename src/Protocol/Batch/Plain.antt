-- ===== src/Protocol/Batch/Plain.antt =====
-- encodeRecordBatch of internal/protocol/produce.go with the codecs of snappy.go and lz4.go.
use gokafka.Compress.Snappy.RoundTrip.{snappy_encode-longer}
use gokafka.Compress.Lz4.Literals.{lz4_encode-longer}
use gokafka.Compress.Snappy.{snappy_encode}
use gokafka.Compress.Lz4.{lz4_encode}
use gokafka.Result.{bind, ok}
use gokafka.Protocol.Records.{millis_or, encode_records_payload, ProduceRecord}
use gokafka.Prelude.{ap, arith, refl, length, [], le→ltb, ◌∷◌, ◌≡◌, ℕ, List}
use gokafka.Compress.{compress, Codecs}
use gokafka.Protocol.Batch.{
  batch_frame, patch_batch, max_millis, base_attributes, Clock, checked_part, BatchSettings,
  encode_record_batch, compress_payload, compress_as,
}
use gokafka.Prelude.Int.{pos, ℤ}

-- The settings with another codec.
abbrev pub with_codec : ℤ → BatchSettings → BatchSettings
with_codec codec s = record {
  compression = codec;
  compression_level = s.compression_level;
  transactional = s.transactional;
  producer_id = s.producer_id;
  producer_epoch = s.producer_epoch;
  sequenced = s.sequenced;
}

compress_as-snappy :
    (lib : Codecs) (level : ℤ) (attributes : ℕ) (payload : List ℕ)
    → compress_as lib (pos 2) level attributes payload ≡ ok (attributes, payload)
unfolding compress_as compress
compress_as-snappy lib level attributes payload =
    rw
      (le→ltb (length (snappy_encode payload)) (length payload)
        (omega (arith, snappy_encode-longer payload)))
      refl

compress_as-lz4 :
    (lib : Codecs) (level : ℤ) (attributes : ℕ) (payload : List ℕ)
    → compress_as lib (pos 3) level attributes payload ≡ ok (attributes, payload)
unfolding compress_as compress
compress_as-lz4 lib level attributes payload =
    rw
      (le→ltb (length (lz4_encode payload)) (length payload)
        (omega (arith, lz4_encode-longer payload)))
      refl

compress_payload-plain :
    (lib : Codecs) (s : BatchSettings) (payload : List ℕ)
    → (compress_payload lib (with_codec (pos 2) s) payload
        ≡ compress_payload lib (with_codec (pos 0) s) payload)
      × (compress_payload lib (with_codec (pos 3) s) payload
          ≡ compress_payload lib (with_codec (pos 0) s) payload)
unfolding compress_payload compress_as
compress_payload-plain lib s payload = (
  compress_as-snappy lib s.compression_level (base_attributes s.transactional) payload,
  compress_as-lz4 lib s.compression_level (base_attributes s.transactional) payload,
)

-- With the snappy or the LZ4 codec, encodeRecordBatch gives the same bytes as without compression, for
-- every list of records: what those two encoders write is never shorter than what they were given.
pub encode_record_batch-with_codec :
    (lib : Codecs) (checksum : List ℕ → ℕ) (clock : Clock) (s : BatchSettings) (seq : ℤ)
    (records : List ProduceRecord)
    → (encode_record_batch lib checksum clock (with_codec (pos 2) s) seq records
        ≡ encode_record_batch lib checksum clock (with_codec (pos 0) s) seq records)
      × (encode_record_batch lib checksum clock (with_codec (pos 3) s) seq records
          ≡ encode_record_batch lib checksum clock (with_codec (pos 0) s) seq records)
unfolding encode_record_batch checked_part
encode_record_batch-with_codec lib checksum clock s seq [] = (refl, refl)
encode_record_batch-with_codec lib checksum clock s seq (r ∷ records) =
    let same = compress_payload-plain lib s (encode_records_payload clock.payload r records) in
    let first = millis_or clock.first r.timestamp in
    let max = max_millis clock 0 first (r ∷ records) in
    let batch : ℕ × List ℕ → List ℕ = λ z.
      patch_batch checksum
        (batch_frame (checked_part s seq z.0 first max (length (r ∷ records)) z.1)) in
    (ap (λ m. bind m λ z. ok (batch z)) same.0, ap (λ m. bind m λ z. ok (batch z)) same.1)
