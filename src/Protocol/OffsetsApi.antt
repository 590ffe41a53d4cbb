-- ===== src/Protocol/OffsetsApi.antt =====
-- OffsetFetch of internal/protocol/offsets.go, for one group and for several.
pub mod ListOffsets
use gokafka.Prelude.{if◌then◌else◌, bytes_eq, Bool, false, List, [], ◌∷◌, ℕ, map}
use gokafka.Prelude.Int.{ℤ, pos, at_least}
use gokafka.Protocol.Arrays.{
  read_array, read_compact_array, read_nullable_string, skip_when, flatten, write_array,
  write_compact_array, write_int32_element, group_by, default_version,
}
use gokafka.Protocol.Keys.Versions.{ver_offset_fetch_single}
use gokafka.Result.{ok}
use gokafka.Wire.Ints.{read_int16, read_int32, read_int64, write_bool}
use gokafka.Wire.Reader.{Reader, pure, ◌>>=◌, ◌>>◌}
use gokafka.Wire.Strings.{
  read_string, read_compact_string, read_compact_nullable_string, write_string,
  write_compact_string,
}
use gokafka.Wire.Tags.{skip_tag_section, write_empty_tag_section}
use gokafka.Wire.Varint.{write_uvarint}
use gokafka.Wire.Writer.{Writer, ◌<+>◌}

pub record OffsetFetchPartition : Type 0 where
  pub topic : List ℕ
  pub partition : ℤ

pub record CommittedOffset : Type 0 where
  pub topic : List ℕ
  pub partition : ℤ
  pub offset : ℤ
  pub metadata : List ℕ
  pub error_code : ℤ

-- topics[p.Topic] = append(topics[p.Topic], p.Partition)
abbrev pub partitions_by_topic :
    List OffsetFetchPartition → List (List ℕ × List OffsetFetchPartition)
partitions_by_topic = group_by bytes_eq (λ p. p.topic)

abbrev pub numbers : List OffsetFetchPartition → List ℤ
numbers = map (λ p. p.partition)

unfoldable pub encode_offset_fetch_request_legacy :
    ℤ → List ℕ → List OffsetFetchPartition → Bool → Writer
unfolding group_by
encode_offset_fetch_request_legacy ver group parts require_stable =
    write_string group
    <+> write_array (λ t. write_string t.0 <+> write_array write_int32_element (numbers t.1))
        (partitions_by_topic parts)
    <+> ok (if at_least 7 ver then write_bool require_stable else [])

-- A topic with its partition numbers and a tag section.
unfoldable pub write_topic_partitions : List ℕ × List OffsetFetchPartition → Writer
write_topic_partitions t =
    ok (write_compact_string t.0)
    <+> write_compact_array write_int32_element (numbers t.1)
    <+> ok write_empty_tag_section

unfoldable pub encode_offset_fetch_request_flex :
    ℤ → List ℕ → List OffsetFetchPartition → Bool → Writer
unfolding group_by write_topic_partitions
encode_offset_fetch_request_flex ver group parts require_stable =
    ok (write_compact_string group)
    <+> write_compact_array write_topic_partitions (partitions_by_topic parts)
    <+> ok (if at_least 7 ver then write_bool require_stable else [])
    <+> ok write_empty_tag_section

unfoldable pub encode_offset_fetch_request : ℤ → List ℕ → List OffsetFetchPartition → Bool → Writer
unfolding encode_offset_fetch_request_flex encode_offset_fetch_request_legacy
encode_offset_fetch_request ver group parts require_stable =
    let v = default_version ver_offset_fetch_single ver in
    if at_least 6 v
    then encode_offset_fetch_request_flex v group parts require_stable
    else encode_offset_fetch_request_legacy v group parts require_stable

unfoldable pub read_committed_legacy : ℤ → List ℕ → Reader CommittedOffset
read_committed_legacy ver topic = do
  part ← read_int32
  off ← read_int64
  skip_when (at_least 5 ver) read_int32
  meta ← read_nullable_string
  code ← (if at_least 2 ver then read_int16 else pure (pos 0))
  pure
      (record { topic = topic; partition = part; offset = off; metadata = meta; error_code = code })

unfoldable pub decode_offset_fetch_response_legacy : ℤ → Reader (List CommittedOffset)
unfolding read_committed_legacy
decode_offset_fetch_response_legacy ver = do
  skip_when (at_least 3 ver) read_int32
  out ← read_array (read_string >>= λ topic. read_array (read_committed_legacy ver topic))
  skip_when (at_least 2 ver) read_int16
  pure (flatten out)

unfoldable pub read_committed_flex : List ℕ → Reader CommittedOffset
read_committed_flex topic = do
  part ← read_int32
  off ← read_int64
  read_int32
  meta ← read_compact_nullable_string
  code ← read_int16
  skip_tag_section
  pure
      (record { topic = topic; partition = part; offset = off; metadata = meta; error_code = code })

unfoldable pub read_committed_topic_flex : Reader (List CommittedOffset)
unfolding read_committed_flex
read_committed_topic_flex = do
  topic ← read_compact_string
  out ← read_compact_array (read_committed_flex topic)
  skip_tag_section
  pure out

unfoldable pub decode_offset_fetch_response_flex : Reader (List CommittedOffset)
unfolding read_committed_topic_flex
decode_offset_fetch_response_flex = do
  read_int32
  out ← read_compact_array read_committed_topic_flex
  read_int16
  skip_tag_section
  pure (flatten out)

unfoldable pub decode_offset_fetch_response : ℤ → Reader (List CommittedOffset)
unfolding decode_offset_fetch_response_flex decode_offset_fetch_response_legacy
decode_offset_fetch_response ver =
    let v = default_version ver_offset_fetch_single ver in
    if at_least 6 v
    then decode_offset_fetch_response_flex
    else decode_offset_fetch_response_legacy v

-- An empty slice asks for all topics of the group.
unfoldable pub write_group_topics : List OffsetFetchPartition → Writer
unfolding write_topic_partitions group_by
write_group_topics [] = ok (write_uvarint 0)
write_group_topics (p ∷ parts) =
    write_compact_array write_topic_partitions (partitions_by_topic (p ∷ parts))

-- The groups are the map's entries in the order in which the encoder ranges over them. The version is
-- not read.
unfoldable pub encode_offset_fetch_multi_group_request :
    List (List ℕ × List OffsetFetchPartition) → Writer
unfolding write_group_topics
encode_offset_fetch_multi_group_request groups =
    write_compact_array
      (λ g. ok (write_compact_string g.0) <+> write_group_topics g.1 <+> ok write_empty_tag_section)
      groups
    <+> ok (write_bool false)
    <+> ok write_empty_tag_section

unfoldable pub read_group_offsets : Reader (List ℕ × List CommittedOffset)
unfolding read_committed_topic_flex
read_group_offsets = do
  group ← read_compact_string
  out ← read_compact_array read_committed_topic_flex
  read_int16
  skip_tag_section
  pure (group, flatten out)

-- The stores into the map, in their order.
unfoldable pub decode_offset_fetch_multi_group_response :
    Reader (List (List ℕ × List CommittedOffset))
unfolding read_group_offsets
decode_offset_fetch_multi_group_response = do
  read_int32
  out ← read_compact_array read_group_offsets
  skip_tag_section
  pure out
