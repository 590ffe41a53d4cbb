-- ===== src/Protocol/FetchApi.antt =====
-- EncodeFetchRequest of internal/protocol/fetch.go.
pub mod Response
use gokafka.Prelude.{ℕ, if◌then◌else◌, bytes_eq, List, [], ◌∷◌}
use gokafka.Prelude.Int.{ℤ, pos, negsuc, leb_ℤ, at_least}
use gokafka.Protocol.Arrays.{write_array, write_compact_array, group_by}
use gokafka.Result.{ok, panic}
use gokafka.Wire.Ints.{write_int8, write_int32, write_int64, write_uuid}
use gokafka.Wire.Strings.{write_string, write_compact_string, write_compact_array_len}
use gokafka.Wire.Tags.{write_empty_tag_section}
use gokafka.Wire.Writer.{Writer, ◌<+>◌}

pub record FetchPartition : Type 0 where
  pub topic : List ℕ
  pub topic_id : List ℕ
  pub partition : ℤ
  pub offset : ℤ
  pub leader_epoch : ℤ
  pub max_bytes : ℤ

-- The arguments of EncodeFetchRequest after its version.
pub record FetchRequest : Type 0 where
  pub partitions : List FetchPartition
  pub max_wait_ms : ℤ
  pub min_bytes : ℤ
  pub max_bytes : ℤ
  pub isolation_level : ℤ

abbrev pub by_topic : List FetchPartition → List (List ℕ × List FetchPartition)
by_topic = group_by bytes_eq (λ p. p.topic)

abbrev pub default_max_bytes : ℤ → ℤ
default_max_bytes n = if leb_ℤ n (pos 0) then pos 1048576 else n

unfoldable pub write_fetch_partition_legacy : ℤ → FetchPartition → Writer
write_fetch_partition_legacy ver p =
    ok (write_int32 p.partition)
    <+> ok (if at_least 9 ver then write_int32 p.leader_epoch else [])
    <+> ok (write_int64 p.offset)
    <+> ok (if at_least 5 ver then write_int64 (negsuc 0) else [])
    <+> ok (write_int32 (default_max_bytes p.max_bytes))

unfoldable pub encode_fetch_request_legacy : ℤ → FetchRequest → Writer
unfolding write_fetch_partition_legacy group_by
encode_fetch_request_legacy ver r =
    ok (write_int32 (negsuc 0))
    <+> ok (write_int32 r.max_wait_ms)
    <+> ok (write_int32 r.min_bytes)
    <+> ok (write_int32 r.max_bytes)
    <+> ok (if at_least 4 ver then write_int8 r.isolation_level else [])
    <+> (if at_least 7 ver then ok (write_int32 (pos 0)) <+> ok (write_int32 (pos 0)) else ok [])
    <+> write_array (λ t. write_string t.0 <+> write_array (write_fetch_partition_legacy ver) t.1)
        (by_topic r.partitions)
    <+> ok (if at_least 10 ver then write_int32 (pos 0) else [])
    <+> (if at_least 11 ver then write_string [] else ok [])

unfoldable pub write_fetch_partition_flex : ℤ → FetchPartition → Writer
write_fetch_partition_flex ver p =
    ok (write_int32 p.partition)
    <+> ok (write_int32 p.leader_epoch)
    <+> ok (write_int64 p.offset)
    <+> ok (if at_least 12 ver then write_int32 (negsuc 0) else [])
    <+> ok (if at_least 5 ver then write_int64 (negsuc 0) else [])
    <+> ok (write_int32 (default_max_bytes p.max_bytes))
    <+> ok write_empty_tag_section

-- From version 13 on by the id that the first partition of the topic names: parts[0].TopicID.
abbrev pub write_first_topic_id : List FetchPartition → Writer
write_first_topic_id [] = panic
write_first_topic_id (p ∷ parts) = ok (write_uuid p.topic_id)

unfoldable pub write_fetch_topic_flex : ℤ → List ℕ × List FetchPartition → Writer
unfolding write_fetch_partition_flex
write_fetch_topic_flex ver (topic, parts) =
    (if at_least 13 ver then write_first_topic_id parts else ok (write_compact_string topic))
    <+> write_compact_array (write_fetch_partition_flex ver) parts
    <+> ok write_empty_tag_section

unfoldable pub encode_fetch_request_flex : ℤ → FetchRequest → Writer
unfolding write_fetch_topic_flex group_by
encode_fetch_request_flex ver r =
    ok (write_int32 (negsuc 0))
    <+> ok (write_int32 r.max_wait_ms)
    <+> ok (write_int32 r.min_bytes)
    <+> ok (write_int32 r.max_bytes)
    <+> ok (write_int8 r.isolation_level)
    <+> ok (write_int32 (pos 0))
    <+> ok (write_int32 (negsuc 0))
    <+> write_compact_array (write_fetch_topic_flex ver) (by_topic r.partitions)
    <+> ok (write_compact_array_len 0)
    <+> ok (if at_least 11 ver then write_compact_string [] else [])
    <+> ok write_empty_tag_section

unfoldable pub encode_fetch_request : ℤ → FetchRequest → Writer
unfolding encode_fetch_request_flex encode_fetch_request_legacy
encode_fetch_request ver r =
    if at_least 12 ver then encode_fetch_request_flex ver r else encode_fetch_request_legacy ver r
