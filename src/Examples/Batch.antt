-- ===== src/Examples/Batch.antt =====
-- Record batches at concrete values: the records of one producer, with a small codec in place of gzip.
use gokafka.Protocol.Records.Overflow.{parse_records-encode_records_payload_overflow, IsFar}
use gokafka.Protocol.Batch.Frame.{Fits}
use gokafka.Protocol.Batch.Plain.{encode_record_batch-with_codec, with_codec}
use gokafka.Wire.Ints.{write_int8}
use gokafka.Wire.Varint.{zigzag, write_uvarint_loop, write_uvarint, write_varint}
use gokafka.Protocol.Records.RoundTrip.{
  AllEncodable, parse_records-encode_records_payload, received,
}
use gokafka.Protocol.Records.Parse.Rounds.{parse_rounds_enough}
use gokafka.Protocol.Records.Length.{length-record_body}
use gokafka.Protocol.Batch.RoundTrip.{decode_one_record_batch-encode_record_batch, decoded_batch}
use gokafka.Protocol.Batch.Decode.{decode_one_record_batch}
use gokafka.Protocol.Records.Parse.{parse_rounds, parse_records}
use gokafka.Protocol.Batch.{
  compress_as, max_millis, encode_record_batch, compress_payload, Clock, BatchSettings,
}
use gokafka.Prelude.Int.{pos}
use gokafka.Result.{zstd_corrupt, uvarint_overflow, ok-injective, err, ok, Result}
use gokafka.Protocol.Records.{
  write_headers, headers_len, varint_len_loop, append_record, varint_len, append_records,
  record_body_len, record_body, encode_records_payload, ProduceRecord,
}
use gokafka.Protocol.Batch.Payload.{AreCodecs}
use gokafka.Prelude.{
  none, ◌^◌, ◌%◌, inr, false, true, bytes_eq→eq, refl, zero, sym, ap, suc, subst, inl, arith,
  Bool-cases, Bool, ◌≡◌, drop, ◌++◌, take, some, ◌≤◌, replicate, bytes_eq, [], ◌∷◌, length,
  if◌then◌else◌, codes, ℕ, List,
}
use gokafka.Compress.{compress, Codecs}

-- A record with a key, a value of 30 zero bytes and no headers, and its payload.
abbrev entry : ProduceRecord
entry = record {
  topic = codes "t";
  partition = pos 0;
  key = codes "k";
  value = replicate 30 0;
  headers = [];
  timestamp = some (pos 1000);
}

abbrev entry_payload : List ℕ
entry_payload = 74 ∷ 0 ∷ 0 ∷ 0 ∷ 2 ∷ 107 ∷ 60 ∷ (replicate 30 0 ++ (0 ∷ []))

-- A codec with one word in its dictionary: that payload is a magic number, and else the bytes follow it.
abbrev packed : List ℕ
packed = 31 ∷ 139 ∷ 8 ∷ 0 ∷ []

abbrev pack : List ℕ → Result (List ℕ)
pack src = ok (if bytes_eq src entry_payload then packed else packed ++ (0 ∷ src))

abbrev unpack : ℕ → List ℕ → Result (List ℕ)
unpack limit z = ok (take limit (if bytes_eq z packed then entry_payload else drop 5 z))

abbrev small_codecs : Codecs
small_codecs = record {
  deflate = λ level src. pack src;
  inflate = unpack;
  zstd_body = λ src. none;
  zstd_read = λ limit src. err zstd_corrupt;
  max_decompressed = 1000;
}

take_within : (n : ℕ) (l : List ℕ) → length l ≤ n → take n l ≡ l
take_within zero [] h = refl
take_within zero (x ∷ l) h = absurd (omega arith)
take_within (suc n) [] h = refl
take_within (suc n) (x ∷ l) h = ap (λ r. x ∷ r) (take_within n l (omega arith))

unpack-pack : (src z : List ℕ) → pack src ≡ ok z → length src ≤ 1000 → unpack 1001 z ≡ ok src
unfolding bytes_eq
unpack-pack src z e h =
    subst (λ w. unpack 1001 w ≡ ok src) (ok-injective e)
      (elim (Bool-cases (bytes_eq src entry_payload)) [
        | inl same ↦ rw same (ap ok (sym (bytes_eq→eq src entry_payload same)))
        | inr other ↦ rw other (ap ok (take_within 1001 src (omega arith)))
      ])

length-pack : (src z : List ℕ) → pack src ≡ ok z → 4 ≤ length z
length-pack src z e = subst (λ w. 4 ≤ length w) (ok-injective e) (pick (bytes_eq src entry_payload))
  where
    pick : (t : Bool) → 4 ≤ length (if t then packed else packed ++ (0 ∷ src))
    pick true = omega arith
    pick false = omega arith

small_codecs-AreCodecs : AreCodecs small_codecs
small_codecs-AreCodecs = record {
  gzip_back = λ level src z e h. unpack-pack src z e h;
  gzip_size = λ level src z e. length-pack src z e;
}

-- The batch, compressed within a transaction.
abbrev settings : BatchSettings
settings = record {
  compression = pos 1;
  compression_level = pos 0;
  transactional = true;
  producer_id = pos 7;
  producer_epoch = pos 1;
  sequenced = true;
}

abbrev clock : Clock
clock = record { first = pos 5; each = λ i. pos 6; payload = pos 7 }

abbrev checksum : List ℕ → ℕ
checksum bytes = length bytes % 2 ^ 32

settings-Fits : Fits settings (pos 3) (pos 1000) (max_millis clock 0 (pos 1000) (entry ∷ [])) 1
unfolding max_millis
settings-Fits = record {
  id = omega arith;
  epoch = omega arith;
  sequence = omega arith;
  first_millis = omega arith;
  max_millis = omega arith;
  count = omega arith;
}

entry-AllEncodable : AllEncodable 0 (pos 7) (pos 1000) (entry ∷ [])
unfolding record_body_len varint_len varint_len_loop headers_len zigzag
entry-AllEncodable =
    ((omega arith, omega arith, omega arith, tt, omega arith, omega arith, omega arith), tt)

encode_entry : encode_records_payload (pos 7) entry [] ≡ entry_payload
unfolding encode_records_payload append_records append_record record_body record_body_len varint_len
    varint_len_loop headers_len write_headers write_varint write_uvarint write_uvarint_loop
    write_int8 zigzag
encode_entry = refl

compress_entry : compress_payload small_codecs settings entry_payload ≡ ok (17, packed)
unfolding compress_payload compress_as compress bytes_eq
compress_entry = refl

decode_one_record_batch-encode_record_batch_example :
    (batch : List ℕ) × (encode_record_batch small_codecs checksum clock settings
        (pos 3)
        (entry ∷ [])
      ≡ ok batch)
    × (decode_one_record_batch small_codecs checksum (codes "t") (pos 0) batch
        ≡ ok (some (decoded_batch (codes "t") (pos 0) clock settings entry [])))
decode_one_record_batch-encode_record_batch_example =
    decode_one_record_batch-encode_record_batch small_codecs checksum (codes "t") (pos 0) clock
      settings (pos 3) entry [] (17, packed) small_codecs-AreCodecs refl (λ bytes. omega arith)
      settings-Fits entry-AllEncodable (rw encode_entry (omega arith))
      (rw encode_entry compress_entry)

parse_records-encode_records_payload_example :
    parse_records
      (record {
        topic = codes "t";
        partition = pos 0;
        base_offset = pos 40;
        base_timestamp = pos 1000;
      })
      (encode_records_payload (pos 7) entry [])
    ≡ ok (
        received
          (record {
            topic = codes "t";
            partition = pos 0;
            base_offset = pos 40;
            base_timestamp = pos 1000;
          })
          0
          (pos 7)
          (pos 1000)
          (entry ∷ []))
parse_records-encode_records_payload_example =
    parse_records-encode_records_payload
      (record {
        topic = codes "t";
        partition = pos 0;
        base_offset = pos 40;
        base_timestamp = pos 1000;
      })
      (pos 7) entry [] entry-AllEncodable

length-record_body_example :
    length (record_body (codes "k") (codes "v") ((codes "h", []) ∷ []) (pos 1) (pos 300))
    ≡ record_body_len (codes "k") (codes "v") ((codes "h", []) ∷ []) (pos 1) (pos 300)
length-record_body_example =
    length-record_body (codes "k") (codes "v") ((codes "h", []) ∷ []) (pos 1) (pos 300)

-- A record five days behind the first one of its batch.
abbrev late : ProduceRecord
late = record {
  topic = codes "t";
  partition = pos 0;
  key = codes "k";
  value = codes "v";
  headers = [];
  timestamp = some (pos 432001000);
}

late-IsFar : IsFar 1 (pos 7) (pos 1000) late
unfolding record_body_len varint_len varint_len_loop headers_len zigzag
late-IsFar = record { fits = omega arith; far = refl; size = omega arith }

parse_records-encode_records_payload_overflow_example :
    parse_records
      (record { topic = codes "t"; partition = pos 0; base_offset = pos 0; base_timestamp = pos 0 })
      (encode_records_payload (pos 7) entry ([] ++ (late ∷ entry ∷ [])))
    ≡ err uvarint_overflow
parse_records-encode_records_payload_overflow_example =
    parse_records-encode_records_payload_overflow
      (record { topic = codes "t"; partition = pos 0; base_offset = pos 0; base_timestamp = pos 0 })
      (pos 7) entry [] late (entry ∷ []) entry-AllEncodable late-IsFar

parse_rounds_enough_test :
    parse_rounds 38
      (record { topic = codes "t"; partition = pos 0; base_offset = pos 0; base_timestamp = pos 0 })
      entry_payload
    ≡ parse_rounds 500
        (record {
          topic = codes "t";
          partition = pos 0;
          base_offset = pos 0;
          base_timestamp = pos 0;
        })
        entry_payload
parse_rounds_enough_test =
    parse_rounds_enough 38 500
      (record { topic = codes "t"; partition = pos 0; base_offset = pos 0; base_timestamp = pos 0 })
      entry_payload (omega arith) (omega arith)

encode_record_batch-with_codec_example :
    (encode_record_batch small_codecs checksum clock
        (with_codec (pos 2) settings)
        (pos 3)
        (entry ∷ [])
      ≡ encode_record_batch small_codecs checksum clock
          (with_codec (pos 0) settings)
          (pos 3)
          (entry ∷ []))
    × (encode_record_batch small_codecs checksum clock
          (with_codec (pos 3) settings)
          (pos 3)
          (entry ∷ [])
        ≡ encode_record_batch small_codecs checksum clock
            (with_codec (pos 0) settings)
            (pos 3)
            (entry ∷ []))
encode_record_batch-with_codec_example =
    encode_record_batch-with_codec small_codecs checksum clock settings (pos 3) (entry ∷ [])
