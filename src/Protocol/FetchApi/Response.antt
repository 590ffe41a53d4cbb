-- ===== src/Protocol/FetchApi/Response.antt =====
-- DecodeFetchResponse of internal/protocol/fetch.go.
use gokafka.Compress.{Codecs}
use gokafka.Prelude.{◌||◌, if◌then◌else◌, List, [], ℕ, Option, none, some}
use gokafka.Prelude.Int.{ℤ, pos, at_least, eqb_ℤ}
use gokafka.Protocol.Arrays.{read_array, read_compact_array, flatten}
use gokafka.Protocol.Batch.Filter.{AbortedTxn, decode_record_batch}
use gokafka.Protocol.Records.Parse.{FetchedRecord}
use gokafka.Result.{
  Result, ok, err, rebalance_in_progress, leader_epoch_changed, unknown_topic_id,
  fetch_partition_error,
}
use gokafka.Wire.Ints.{read_int16, read_int32, read_int64, read_uuid}
use gokafka.Wire.Reader.{Reader, pure, fail, ◌>>=◌, ◌>>◌}
use gokafka.Wire.Strings.{read_string, read_bytes, read_compact_string, read_compact_bytes}
use gokafka.Wire.Tags.{skip_tag_section}

-- The five tests of a partition's error code, in their order.
unfoldable pub fetch_error : ℤ → Result (Unit {0})
fetch_error code =
    if eqb_ℤ code (pos 27)
    then err rebalance_in_progress
    else if eqb_ℤ code (pos 6) || (eqb_ℤ code (pos 74) || eqb_ℤ code (pos 75))
    then err leader_epoch_changed
    else if eqb_ℤ code (pos 100)
    then err unknown_topic_id
    else if eqb_ℤ code (pos 0)
    then ok tt
    else err (fetch_partition_error code)

abbrev pub or_empty : Option (List ℕ) → List ℕ
or_empty none = []
or_empty (some b) = b

unfoldable pub read_aborted_transaction : Reader AbortedTxn
read_aborted_transaction = do
  pid ← read_int64
  first ← read_int64
  pure (record { producer_id = pid; first_offset = first })

-- A count that is not positive gives no transaction, as the loop does.
unfoldable pub read_aborted_transactions : Reader (List AbortedTxn)
unfolding read_aborted_transaction
read_aborted_transactions = read_array read_aborted_transaction

unfoldable pub read_aborted_transaction_flex : Reader AbortedTxn
read_aborted_transaction_flex = do
  pid ← read_int64
  first ← read_int64
  skip_tag_section
  pure (record { producer_id = pid; first_offset = first })

unfoldable pub read_aborted_transactions_flex : Reader (List AbortedTxn)
unfolding read_aborted_transaction_flex
read_aborted_transactions_flex = read_compact_array read_aborted_transaction_flex

-- What stands before the records of a partition: its number and its aborted transactions.
unfoldable pub read_fetched_header : ℤ → Reader (List AbortedTxn) → Reader (ℤ × List AbortedTxn)
unfolding fetch_error
read_fetched_header ver aborted_list = do
  part ← read_int32
  code ← read_int16
  fail (fetch_error code)
  read_int64
  if at_least 4 ver then read_int64 else pure (pos 0)
  if at_least 5 ver then read_int64 else pure (pos 0)
  aborted ← (if at_least 4 ver then aborted_list else pure [])
  if at_least 11 ver then read_int32 else pure (pos 0)
  pure (part, aborted)

module _ (lib : Codecs) (checksum : List ℕ → ℕ) (ver : ℤ) where
  unfoldable pub read_fetched_partition_legacy : List ℕ → Reader (List FetchedRecord)
  unfolding read_fetched_header read_aborted_transactions decode_record_batch
  read_fetched_partition_legacy topic = do
    (part, aborted) ← read_fetched_header ver read_aborted_transactions
    records ← read_bytes
    fail (decode_record_batch lib checksum topic part (or_empty records) aborted)

  -- What stands before the topics: the throttle time, and from version 7 on an error code and a session.
  unfoldable pub skip_fetch_header : Reader (Unit {0})
  skip_fetch_header = do
    read_int32
    if at_least 7 ver then (read_int16 >> (read_int32 >> pure tt)) else pure tt

  unfoldable pub decode_fetch_response_legacy : Reader (List FetchedRecord)
  unfolding read_fetched_partition_legacy skip_fetch_header
  decode_fetch_response_legacy = do
    skip_fetch_header
    out ← read_array (do
      topic ← read_string
      parts ← read_array (read_fetched_partition_legacy topic)
      pure (flatten parts))
    pure (flatten out)

  unfoldable pub read_fetched_partition_flex : List ℕ → Reader (List FetchedRecord)
  unfolding read_fetched_header read_aborted_transactions_flex decode_record_batch
  read_fetched_partition_flex topic = do
    (part, aborted) ← read_fetched_header ver read_aborted_transactions_flex
    records ← read_compact_bytes
    out ← fail (decode_record_batch lib checksum topic part (or_empty records) aborted)
    skip_tag_section
    pure out

  abbrev pub resolved : Option (List ℕ) → Result (List ℕ)
  resolved none = err unknown_topic_id
  resolved (some name) = ok name

  -- From version 13 on the topic is named by its id.
  unfoldable pub read_fetched_topic_name : (List ℕ → Option (List ℕ)) → Reader (List ℕ)
  read_fetched_topic_name resolve_topic =
      if at_least 13 ver
      then (read_uuid >>= λ tid. fail (resolved (resolve_topic tid)))
      else read_compact_string

  unfoldable pub decode_fetch_response_flex :
      (List ℕ → Option (List ℕ)) → Reader (List FetchedRecord)
  unfolding read_fetched_partition_flex read_fetched_topic_name skip_fetch_header
  decode_fetch_response_flex resolve_topic = do
    skip_fetch_header
    out ← read_compact_array (do
      topic ← read_fetched_topic_name resolve_topic
      parts ← read_compact_array (read_fetched_partition_flex topic)
      skip_tag_section
      pure (flatten parts))
    skip_tag_section
    pure (flatten out)

  unfoldable pub decode_fetch_response : (List ℕ → Option (List ℕ)) → Reader (List FetchedRecord)
  unfolding decode_fetch_response_flex decode_fetch_response_legacy
  decode_fetch_response resolve_topic =
      if at_least 12 ver
      then decode_fetch_response_flex resolve_topic
      else decode_fetch_response_legacy
