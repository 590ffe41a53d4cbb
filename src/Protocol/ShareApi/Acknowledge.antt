-- ===== src/Protocol/ShareApi/Acknowledge.antt =====
-- internal/protocol/share_acknowledge.go.
use gokafka.Protocol.ShareApi.{
  by_topic_id, write_share_topic, skip_node_endpoint, skip_current_leader, ShareFetchPartition,
  ShareAckBatch,
}
use gokafka.Prelude.{if◌then◌else◌, ◌||◌, Bool, false, List, [], ◌∷◌, ℕ}
use gokafka.Prelude.Int.{ℤ, pos, at_least, eqb_ℤ}
use gokafka.Protocol.Arrays.{
  read_compact_array, write_compact_array, group_by, default_version, skip_when,
}
use gokafka.Protocol.Groups.Sync.{check_code}
use gokafka.Protocol.Keys.Versions.{ver_share_acknowledge}
use gokafka.Result.{ok}
use gokafka.Wire.Ints.{read_int16, read_int32, read_uuid, write_int32, write_bool}
use gokafka.Wire.Reader.{Reader, pure, ◌>>=◌, ◌>>◌}
use gokafka.Wire.Strings.{read_compact_nullable_string, write_compact_string}
use gokafka.Wire.Tags.{skip_tag_section, write_empty_tag_section}
use gokafka.Wire.Writer.{Writer, ◌<+>◌}

pub record ShareAcknowledgeRequest : Type 0 where
  pub group_id : List ℕ
  pub member_id : List ℕ
  pub share_session_epoch : ℤ
  pub partitions : List ShareFetchPartition

-- ab.Type == ShareAckRenew for some batch
unfoldable pub any_renew_batch : List ShareAckBatch → Bool
any_renew_batch [] = false
any_renew_batch (ab ∷ batches) = eqb_ℤ ab.ack_type (pos 4) || any_renew_batch batches

unfoldable pub any_renew : List ShareFetchPartition → Bool
unfolding any_renew_batch
any_renew [] = false
any_renew (p ∷ parts) = any_renew_batch p.ack_batches || any_renew parts

unfoldable pub encode_share_acknowledge_request : ℤ → ShareAcknowledgeRequest → Writer
unfolding write_share_topic group_by any_renew
encode_share_acknowledge_request ver r =
    ok (write_compact_string r.group_id)
    <+> ok (write_compact_string r.member_id)
    <+> ok (write_int32 r.share_session_epoch)
    <+> ok (
        if at_least 2 (default_version ver_share_acknowledge ver)
        then write_bool (any_renew r.partitions)
        else [])
    <+> write_compact_array write_share_topic (by_topic_id r.partitions)
    <+> ok write_empty_tag_section

-- The error of a partition comes up only after its leader is read.
unfoldable pub read_acknowledged_partition : Reader (Unit {0})
unfolding skip_current_leader
read_acknowledged_partition = do
  read_int32
  code ← read_int16
  read_compact_nullable_string
  skip_current_leader
  skip_tag_section
  check_code code
  pure tt

unfoldable pub read_acknowledged_topic : Reader (Unit {0})
unfolding read_acknowledged_partition
read_acknowledged_topic = do
  read_uuid
  read_compact_array read_acknowledged_partition
  skip_tag_section
  pure tt

-- 0, or the error with the code that the Go function returns beside it.
unfoldable pub decode_share_acknowledge_response : ℤ → Reader ℤ
unfolding read_acknowledged_topic skip_node_endpoint
decode_share_acknowledge_response ver = do
  read_int32
  code ← read_int16
  read_compact_nullable_string
  skip_when (at_least 2 ver) read_int32
  check_code code
  read_compact_array read_acknowledged_topic
  read_compact_array skip_node_endpoint
  skip_tag_section
  pure (pos 0)
