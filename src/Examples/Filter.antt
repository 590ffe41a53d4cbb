-- ===== src/Examples/Filter.antt =====
-- read_committed at concrete batches: a producer whose transaction is aborted, and another one.
use gokafka.Wire.Ints.{read_int64, read_int32, read_int16, read_int8}
use gokafka.Protocol.Batch.Loop.{
  IsBatch, decode_record_batch-end_to_end, decode_batches_enough, end_to_end,
}
use gokafka.Result.{ok, unknown_codec, err}
use gokafka.Protocol.Batch.Shown.{deliver_all-shown, IsClear}
use gokafka.Protocol.Batch.Isolation.{here, deliver_all-emptied, emptied, deliver_all}
use gokafka.Protocol.Batch.Filter.{decode_record_batch, decode_batches, Aborting}
use gokafka.Protocol.Batch.Decode.{
  batch_records, read_checked_fields, read_verified, read_batch_header, decode_one_record_batch,
  BatchInfo,
}
use gokafka.Prelude.Int.{pos, ℤ}
use gokafka.Prelude.{
  none, map, arith, ◌++◌, [], ◌≡◌, ◌∷◌, true, replicate, refl, ℕ, false, codes, List,
}
use gokafka.Compress.{Codecs}

abbrev transfer : ℤ → ℤ → BatchInfo
transfer p offset = record {
  base_offset = offset;
  last_offset = offset;
  producer_id = p;
  is_control = false;
  is_transactional = true;
  records =
      record {
        topic = codes "t";
        partition = pos 0;
        offset = offset;
        key = [];
        value = codes "v";
        headers = [];
        timestamp = pos 0;
        control = false;
        delivery_count = pos 0;
      }
      ∷ [];
}

-- The transaction of producer 7 is aborted, and it began at offset 10.
abbrev one_aborted : Aborting
one_aborted = record {
  upcoming = record { producer_id = pos 7; first_offset = pos 10 } ∷ [];
  pids = λ p. false;
}

deliver_all-emptied_example :
    deliver_all
      (codes "t")
      (pos 0)
      one_aborted
      (transfer (pos 7) (pos 10) ∷ transfer (pos 8) (pos 11) ∷ transfer (pos 7) (pos 12) ∷ [])
    ≡ deliver_all (codes "t") (pos 0) one_aborted (
        map
          (emptied (pos 7))
          (transfer (pos 7) (pos 10) ∷ transfer (pos 8) (pos 11) ∷ transfer (pos 7) (pos 12) ∷ []))
deliver_all-emptied_example =
    deliver_all-emptied (codes "t") (pos 0) (pos 7) one_aborted (transfer (pos 7) (pos 10))
      (transfer (pos 8) (pos 11) ∷ transfer (pos 7) (pos 12) ∷ [])
      (here (record { producer_id = pos 7; first_offset = pos 10 }) [] refl refl)
      (refl, (refl, (refl, tt)))

one_aborted-IsClear : IsClear (pos 8) one_aborted
one_aborted-IsClear = record { off = refl; unlisted = (refl, tt) }

deliver_all-shown_example :
    (a' : Aborting) × (deliver_all
        (codes "t")
        (pos 0)
        one_aborted
        ((transfer (pos 7) (pos 10) ∷ []) ++ (transfer (pos 8) (pos 11) ∷ []))
      ≡ deliver_all (codes "t") (pos 0) one_aborted (transfer (pos 7) (pos 10) ∷ [])
        ++ ((transfer (pos 8) (pos 11)).records ++ deliver_all (codes "t") (pos 0) a' []))
deliver_all-shown_example =
    deliver_all-shown (codes "t") (pos 0) (pos 8) one_aborted (transfer (pos 7) (pos 10) ∷ [])
      (transfer (pos 8) (pos 11)) [] one_aborted-IsClear refl refl

-- A batch with the abort marker of producer 7, with a checksum that is always 0.
abbrev marker_bytes : List ℕ
marker_bytes =
    replicate 11 0
    ++ (53 ∷ 255 ∷ 255 ∷ 255 ∷ 255 ∷ 2 ∷ 0 ∷ 0 ∷ 0 ∷ 0 ∷ 0 ∷ 0x30 ∷ [])
    ++ replicate 27 0
    ++ (7 ∷ 0 ∷ 1 ∷ [])
    ++ replicate 12 0

abbrev marker : BatchInfo
marker = record {
  base_offset = pos 0;
  last_offset = pos 0;
  producer_id = pos 7;
  is_control = true;
  is_transactional = true;
  records = [];
}

abbrev no_codecs : Codecs
no_codecs = record {
  deflate = λ level src. err unknown_codec;
  inflate = λ limit src. err unknown_codec;
  zstd_body = λ src. none;
  zstd_read = λ limit src. err unknown_codec;
  max_decompressed = 1000;
}

marker-IsBatch : IsBatch no_codecs (λ b. 0) (codes "t") (pos 0) marker_bytes marker
unfolding decode_one_record_batch read_batch_header read_verified read_checked_fields batch_records
    read_int8 read_int16 read_int32 read_int64
marker-IsBatch = record { whole = refl; decoded = refl }

decode_record_batch-end_to_end_example :
    decode_record_batch no_codecs
      (λ b. 0)
      (codes "t")
      (pos 0)
      (end_to_end ((marker_bytes, marker) ∷ (marker_bytes, marker) ∷ []))
      []
    ≡ ok (
        deliver_all
          (codes "t")
          (pos 0)
          (record { upcoming = []; pids = λ p. false })
          (marker ∷ marker ∷ []))
decode_record_batch-end_to_end_example =
    decode_record_batch-end_to_end no_codecs (λ b. 0) (codes "t") (pos 0)
      ((marker_bytes, marker) ∷ (marker_bytes, marker) ∷ []) []
      (marker-IsBatch, (marker-IsBatch, tt))

decode_batches_enough_example :
    decode_batches no_codecs (λ b. 0) (codes "t") (pos 0) 65 one_aborted marker_bytes
    ≡ decode_batches no_codecs (λ b. 0) (codes "t") (pos 0) 1000 one_aborted marker_bytes
decode_batches_enough_example =
    decode_batches_enough no_codecs (λ b. 0) (codes "t") (pos 0) 65 1000 one_aborted marker_bytes
      (omega arith) (omega arith)
