-- ===== src/Protocol/Batch/Filter.antt =====
-- decodeRecordBatch of internal/protocol/fetch.go: the batches of a partition, with those of aborted
-- transactions left out.
use gokafka.Compress.{Codecs}
use gokafka.Prelude.{
  ℕ, zero, suc, ◌+◌, Bool, true, false, ◌&&◌, if◌then◌else◌, List, [], ◌∷◌, ◌++◌, length, take,
  drop, ltb, Option, some, none,
}
use gokafka.Prelude.Int.{ℤ, pos, leb_ℤ, eqb_ℤ}
use gokafka.Protocol.Batch.Decode.{BatchInfo, decode_one_record_batch}
use gokafka.Protocol.Records.Parse.{FetchedRecord}
use gokafka.Result.{Result, ok, bind}
use gokafka.Wire.Ints.{big_endian}

pub record AbortedTxn : Type 0 where
  pub producer_id : ℤ
  pub first_offset : ℤ

-- aborted[ai:] and abortedPIDs
pub record Aborting : Type 0 where
  pub upcoming : List AbortedTxn
  pub pids : ℤ → Bool

abbrev pub put_pid : (ℤ → Bool) → ℤ → Bool → ℤ → Bool
put_pid pids p v q = if eqb_ℤ p q then v else pids q

-- `for ai < len(aborted) && aborted[ai].firstOffset <= info.baseOffset`
unfoldable pub begin_aborted : ℤ → List AbortedTxn → (ℤ → Bool) → Aborting
begin_aborted base [] pids = record { upcoming = []; pids = pids }
begin_aborted base (t ∷ upcoming) pids = elim (leb_ℤ t.first_offset base) [
  | true ↦ begin_aborted base upcoming (put_pid pids t.producer_id true)
  | false ↦ record { upcoming = t ∷ upcoming; pids = pids }
]

-- The record that only moves the consumer past a batch.
abbrev pub skip_marker : List ℕ → ℤ → BatchInfo → FetchedRecord
skip_marker topic partition info = record {
  topic = topic;
  partition = partition;
  offset = info.last_offset;
  key = [];
  value = [];
  headers = [];
  timestamp = pos 0;
  control = true;
  delivery_count = pos 0;
}

-- The `switch`, after the transactions that this batch begins are known.
unfoldable pub deliver : List ℕ → ℤ → BatchInfo → Aborting → List FetchedRecord × Aborting
deliver topic partition info a =
    if info.is_control
    then (
      skip_marker topic partition info ∷ [],
      record { upcoming = a.upcoming; pids = put_pid a.pids info.producer_id false },
    )
    else if info.is_transactional && a.pids info.producer_id
    then (skip_marker topic partition info ∷ [], a)
    else (info.records, a)

abbrev pub filter_batch : List ℕ → ℤ → Option BatchInfo → Aborting → List FetchedRecord × Aborting
filter_batch topic partition none a = ([], a)
filter_batch topic partition (some info) a =
    deliver topic partition info (begin_aborted info.base_offset a.upcoming a.pids)

-- int(binary.BigEndian.Uint32(data[8:12])) + 12
abbrev pub total_length : List ℕ → ℕ
total_length bytes = 12 + big_endian (take 4 (drop 8 bytes))

-- `for len(data) >= 12`: a round takes at least twelve bytes, so their number is fuel enough. The batch
-- length is not negative on a 64-bit platform.
unfoldable pub decode_batches :
    Codecs → (List ℕ → ℕ) → List ℕ → ℤ → ℕ → Aborting → List ℕ → Result (List FetchedRecord)
unfolding decode_one_record_batch begin_aborted deliver
decode_batches lib checksum topic partition zero a bytes = ok []
decode_batches lib checksum topic partition (suc fuel) a bytes =
    let total = total_length bytes in
    if ltb (length bytes) 12
    then ok []
    else if ltb (length bytes) total
    then ok []
    else bind (decode_one_record_batch lib checksum topic partition (take total bytes)) λ info.
      let (out, a') = filter_batch topic partition info a in
      bind (decode_batches lib checksum topic partition fuel a' (drop total bytes))
        λ more. ok (out ++ more)

unfoldable pub decode_record_batch :
    Codecs → (List ℕ → ℕ) → List ℕ → ℤ → List ℕ → List AbortedTxn → Result (List FetchedRecord)
unfolding decode_batches
decode_record_batch lib checksum topic partition bytes aborted =
    decode_batches lib checksum topic partition (length bytes)
      (record { upcoming = aborted; pids = λ p. false }) bytes
