-- ===== src/Protocol/GroupApi.antt =====
-- The heartbeats of the server-side group protocols: internal/protocol/consumer_group_heartbeat.go and
-- share_group.go.
use gokafka.Prelude.{if◌then◌else◌, List, [], ℕ, Option, none, some}
use gokafka.Prelude.Int.{ℤ, pos, at_least, eqb_ℤ, leb_ℤ}
use gokafka.Protocol.Arrays.{
  read_compact_array, write_compact_array, write_int32_element, write_compact_string_element,
}
use gokafka.Result.{Error, ok, api_error}
use gokafka.Wire.Ints.{read_int8, read_int16, read_int32, read_uuid, write_int32, write_uuid}
use gokafka.Wire.Reader.{Reader, pure, ◌>>=◌, ◌>>◌}
use gokafka.Wire.Strings.{
  read_compact_nullable_string, write_compact_string, write_compact_nullable_string,
}
use gokafka.Wire.Tags.{skip_tag_section, write_empty_tag_section}
use gokafka.Wire.Varint.{write_uvarint}
use gokafka.Wire.Writer.{Writer, ◌<+>◌}

pub record TopicIdPartitions : Type 0 where
  pub topic_id : List ℕ
  pub partitions : List ℤ

unfoldable pub write_compact_nullable_string_array : Option (List (List ℕ)) → Writer
write_compact_nullable_string_array none = ok (write_uvarint 0)
write_compact_nullable_string_array (some topics) =
    write_compact_array write_compact_string_element topics

unfoldable pub write_topic_id_partitions : TopicIdPartitions → Writer
write_topic_id_partitions tp =
    ok (write_uuid tp.topic_id)
    <+> write_compact_array write_int32_element tp.partitions
    <+> ok write_empty_tag_section

unfoldable pub write_compact_nullable_topic_id_partitions : Option (List TopicIdPartitions) → Writer
unfolding write_topic_id_partitions
write_compact_nullable_topic_id_partitions none = ok (write_uvarint 0)
write_compact_nullable_topic_id_partitions (some parts) =
    write_compact_array write_topic_id_partitions parts

pub record ConsumerGroupHeartbeatRequest : Type 0 where
  pub group_id : List ℕ
  pub member_id : List ℕ
  pub member_epoch : ℤ
  pub instance_id : Option (List ℕ)
  pub rack_id : Option (List ℕ)
  pub rebalance_timeout_ms : ℤ
  pub subscribed_topic_names : Option (List (List ℕ))
  pub subscribed_topic_regex : Option (List ℕ)
  pub server_assignor : Option (List ℕ)
  pub topic_partitions : Option (List TopicIdPartitions)

unfoldable pub encode_consumer_group_heartbeat_request : ℤ → ConsumerGroupHeartbeatRequest → Writer
unfolding write_compact_nullable_string_array write_compact_nullable_topic_id_partitions
encode_consumer_group_heartbeat_request ver r =
    ok (write_compact_string r.group_id)
    <+> ok (write_compact_string r.member_id)
    <+> ok (write_int32 r.member_epoch)
    <+> ok (write_compact_nullable_string r.instance_id)
    <+> ok (write_compact_nullable_string r.rack_id)
    <+> ok (write_int32 r.rebalance_timeout_ms)
    <+> write_compact_nullable_string_array r.subscribed_topic_names
    <+> ok (if at_least 1 ver then write_compact_nullable_string r.subscribed_topic_regex else [])
    <+> ok (write_compact_nullable_string r.server_assignor)
    <+> write_compact_nullable_topic_id_partitions r.topic_partitions
    <+> ok write_empty_tag_section

-- ConsumerGroupHeartbeatResponse and ShareGroupHeartbeatResponse
pub record GroupHeartbeat : Type 0 where
  pub throttle_time_ms : ℤ
  pub error_code : ℤ
  pub error_message : List ℕ
  pub member_id : List ℕ
  pub member_epoch : ℤ
  pub heartbeat_interval_ms : ℤ
  pub assignment : List TopicIdPartitions

unfoldable pub read_topic_id_partitions : Reader TopicIdPartitions
read_topic_id_partitions = do
  id ← read_uuid
  parts ← read_compact_array read_int32
  skip_tag_section
  pure (record { topic_id = id; partitions = parts })

-- A nullable struct: its presence byte is -1 where there is none.
unfoldable pub read_nullable_assignment : Reader (List TopicIdPartitions)
unfolding read_topic_id_partitions
read_nullable_assignment = do
  presence ← read_int8
  if leb_ℤ (pos 0) presence
      then (do tps ← read_compact_array read_topic_id_partitions; skip_tag_section; pure tps)
      else pure []

-- if out.ErrorCode != 0 { return out, apiError(…) }
abbrev pub heartbeat_result : GroupHeartbeat → GroupHeartbeat × Option Error
heartbeat_result r = (r, if eqb_ℤ r.error_code (pos 0) then none else some (api_error r.error_code))

unfoldable pub decode_consumer_group_heartbeat_response : Reader (GroupHeartbeat × Option Error)
unfolding read_nullable_assignment
decode_consumer_group_heartbeat_response = do
  throttle ← read_int32
  code ← read_int16
  message ← read_compact_nullable_string
  member ← read_compact_nullable_string
  epoch ← read_int32
  interval ← read_int32
  assignment ← read_nullable_assignment
  skip_tag_section
  pure (
      heartbeat_result (record {
        throttle_time_ms = throttle;
        error_code = code;
        error_message = message;
        member_id = member;
        member_epoch = epoch;
        heartbeat_interval_ms = interval;
        assignment = assignment;
      }))

pub record ShareGroupHeartbeatRequest : Type 0 where
  pub group_id : List ℕ
  pub member_id : List ℕ
  pub member_epoch : ℤ
  pub rack_id : Option (List ℕ)
  pub subscribed_topic_names : Option (List (List ℕ))

unfoldable pub encode_share_group_heartbeat_request : ShareGroupHeartbeatRequest → Writer
unfolding write_compact_nullable_string_array
encode_share_group_heartbeat_request r =
    ok (write_compact_string r.group_id)
    <+> ok (write_compact_string r.member_id)
    <+> ok (write_int32 r.member_epoch)
    <+> ok (write_compact_nullable_string r.rack_id)
    <+> write_compact_nullable_string_array r.subscribed_topic_names
    <+> ok write_empty_tag_section

unfoldable pub decode_share_group_heartbeat_response : Reader (GroupHeartbeat × Option Error)
unfolding read_nullable_assignment
decode_share_group_heartbeat_response = do
  throttle ← read_int32
  code ← read_int16
  message ← read_compact_nullable_string
  member ← read_compact_nullable_string
  epoch ← read_int32
  interval ← read_int32
  assignment ← read_nullable_assignment
  skip_tag_section
  pure (
      heartbeat_result (record {
        throttle_time_ms = throttle;
        error_code = code;
        error_message = message;
        member_id = member;
        member_epoch = epoch;
        heartbeat_interval_ms = interval;
        assignment = assignment;
      }))
