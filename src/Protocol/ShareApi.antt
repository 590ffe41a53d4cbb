-- ===== src/Protocol/ShareApi.antt =====
-- ShareFetch of internal/protocol/share_fetch.go; its child Acknowledge is share_acknowledge.go.
pub mod Offsets
pub mod Acknowledge
use gokafka.Compress.{Codecs}
use gokafka.Prelude.{
  if◌then◌else◌, bytes_eq, ◌&&◌, ◌||◌, Bool, true, false, List, [], ◌∷◌, ℕ, Option, none, some, map,
  ◌-◌, length, ltb,
}
use gokafka.Prelude.Int.{ℤ, pos, at_least, leb_ℤ, eqb_ℤ}
use gokafka.Protocol.Arrays.{
  read_compact_array, write_compact_array, group_by, flatten, default_version, skip_when,
}
use gokafka.Protocol.Batch.Filter.{decode_record_batch}
use gokafka.Protocol.FetchApi.Response.{or_empty}
use gokafka.Protocol.Groups.CommitResponse.{code_of}
use gokafka.Protocol.Groups.Sync.{check_code}
use gokafka.Protocol.Keys.Versions.{ver_share_acknowledge}
use gokafka.Protocol.Records.Parse.{FetchedRecord}
use gokafka.Result.{Result, Error, ok, err, api_error, fetch_partition_error}
use gokafka.Wire.Ints.{
  read_int16, read_int32, read_int64, read_uuid, write_int8, write_int32, write_int64, write_bool,
  write_uuid,
}
use gokafka.Wire.Reader.{Reader, pure, fail, ◌>>=◌, ◌>>◌}
use gokafka.Wire.Strings.{
  read_compact_string, read_compact_nullable_string, read_compact_bytes, write_compact_string,
  write_compact_array_len,
}
use gokafka.Wire.Tags.{skip_tag_section, write_empty_tag_section}
use gokafka.Wire.Writer.{Writer, ◌<+>◌}

-- The acknowledgement types are the numbers 0 to 4 of ShareAckType; 4 is Renew.
pub record ShareAckBatch : Type 0 where
  pub first_offset : ℤ
  pub last_offset : ℤ
  pub ack_type : ℤ

pub record ShareFetchPartition : Type 0 where
  pub topic_id : List ℕ
  pub partition : ℤ
  pub ack_batches : List ShareAckBatch

pub record ShareFetchRequest : Type 0 where
  pub group_id : List ℕ
  pub member_id : List ℕ
  pub share_session_epoch : ℤ
  pub max_wait_ms : ℤ
  pub min_bytes : ℤ
  pub max_bytes : ℤ
  pub max_records : ℤ
  pub batch_size : ℤ
  pub share_acquire_mode : ℤ
  pub is_renew_ack : Bool
  pub partitions : List ShareFetchPartition

abbrev pub by_topic_id : List ShareFetchPartition → List (List ℕ × List ShareFetchPartition)
by_topic_id = group_by bytes_eq (λ p. p.topic_id)

unfoldable pub write_ack_batch : ShareAckBatch → Writer
write_ack_batch ab =
    ok (write_int64 ab.first_offset)
    <+> ok (write_int64 ab.last_offset)
    <+> ok (write_compact_array_len 1)
    <+> ok (write_int8 ab.ack_type)
    <+> ok write_empty_tag_section

unfoldable pub write_share_partition : ShareFetchPartition → Writer
unfolding write_ack_batch
write_share_partition p =
    ok (write_int32 p.partition)
    <+> write_compact_array write_ack_batch p.ack_batches
    <+> ok write_empty_tag_section

unfoldable pub write_share_topic : List ℕ × List ShareFetchPartition → Writer
unfolding write_share_partition
write_share_topic t =
    ok (write_uuid t.0)
    <+> write_compact_array write_share_partition t.1
    <+> ok write_empty_tag_section

unfoldable pub encode_share_fetch_request : ℤ → ShareFetchRequest → Writer
unfolding write_share_topic group_by
encode_share_fetch_request api_version r =
    ok (write_compact_string r.group_id)
    <+> ok (write_compact_string r.member_id)
    <+> ok (write_int32 r.share_session_epoch)
    <+> ok (write_int32 r.max_wait_ms)
    <+> ok (write_int32 r.min_bytes)
    <+> ok (write_int32 r.max_bytes)
    <+> ok (write_int32 r.max_records)
    <+> ok (write_int32 r.batch_size)
    <+> (if at_least 2 api_version
        then ok (write_int8 r.share_acquire_mode) <+> ok (write_bool r.is_renew_ack)
        else ok [])
    <+> write_compact_array write_share_topic (by_topic_id r.partitions)
    <+> ok (write_compact_array_len 0)
    <+> ok write_empty_tag_section

pub record AcquiredRange : Type 0 where
  pub first : ℤ
  pub last : ℤ
  pub delivery_count : ℤ

unfoldable pub read_acquired_range : Reader AcquiredRange
read_acquired_range = do
  first ← read_int64
  last ← read_int64
  dc ← read_int16
  skip_tag_section
  pure (record { first = first; last = last; delivery_count = dc })

-- The loop over recs for one range.
unfoldable pub count_delivery : AcquiredRange → FetchedRecord → FetchedRecord
count_delivery a r =
    if leb_ℤ a.first r.offset && leb_ℤ r.offset a.last
    then record r { delivery_count = a.delivery_count }
    else r

-- One range after the other: the last that covers a record counts.
unfoldable pub count_deliveries : List AcquiredRange → List FetchedRecord → List FetchedRecord
unfolding count_delivery
count_deliveries [] recs = recs
count_deliveries (a ∷ ranges) recs = count_deliveries ranges (map (count_delivery a) recs)

-- What a partition holds of its leader and the endpoints, which is read and dropped.
unfoldable pub skip_current_leader : Reader (Unit {0})
skip_current_leader = do read_int32; read_int32; skip_tag_section; pure tt

unfoldable pub skip_node_endpoint : Reader (Unit {0})
skip_node_endpoint = do
  read_int32
  read_compact_string
  read_int32
  read_compact_nullable_string
  skip_tag_section
  pure tt

module _ (lib : Codecs) (checksum : List ℕ → ℕ) (topic_name : List ℕ → List ℕ) where
  -- `if len(records) > 0`
  abbrev pub shared_records : List ℕ → ℤ → List ℕ → Result (List FetchedRecord)
  shared_records topic part bytes =
      if ltb 0 (length bytes) then decode_record_batch lib checksum topic part bytes [] else ok []

  abbrev pub check_share_partition : ℤ → Reader (Unit {0})
  check_share_partition code =
      if eqb_ℤ code (pos 0) then pure tt else fail (err (fetch_partition_error code))

  unfoldable pub read_share_partition : List ℕ → Reader (List FetchedRecord)
  unfolding skip_current_leader decode_record_batch read_acquired_range count_deliveries
  read_share_partition topic = do
    part ← read_int32
    code ← read_int16
    read_compact_nullable_string
    read_int16
    read_compact_nullable_string
    skip_current_leader
    bytes ← read_compact_bytes
    check_share_partition code
    recs ← fail (shared_records topic part (or_empty bytes))
    ranges ← read_compact_array read_acquired_range
    skip_tag_section
    pure (count_deliveries ranges recs)

  unfoldable pub read_share_topic : Reader (List FetchedRecord)
  unfolding read_share_partition
  read_share_topic = do
    tid ← read_uuid
    parts ← read_compact_array (read_share_partition (topic_name tid))
    skip_tag_section
    pure (flatten parts)

  -- The acquisition lock timeout and the records. `topic_name` is the name that the caller's function
  -- finds for an id, or the id as a text.
  unfoldable pub decode_share_fetch_response : Reader (ℤ × List FetchedRecord)
  unfolding read_share_topic skip_node_endpoint
  decode_share_fetch_response = do
    read_int32
    code ← read_int16
    read_compact_nullable_string
    lock ← read_int32
    check_code code
    topics ← read_compact_array read_share_topic
    read_compact_array skip_node_endpoint
    skip_tag_section
    pure (lock, flatten topics)
