-- ===== src/Protocol/OffsetsApi/ListOffsets.antt =====
-- ListOffsets of internal/protocol/offsets.go; the constant version chooses the legacy encoding.
use gokafka.Prelude.{if◌then◌else◌, bytes_eq, List, [], ℕ}
use gokafka.Prelude.Int.{ℤ, negsuc, at_least}
use gokafka.Protocol.Arrays.{
  read_array, read_compact_array, flatten, write_array, write_compact_array, group_by,
}
use gokafka.Protocol.Keys.Versions.{ver_list_offsets}
use gokafka.Result.{ok}
use gokafka.Wire.Ints.{read_int16, read_int32, read_int64, write_int8, write_int32, write_int64}
use gokafka.Wire.Reader.{Reader, pure, ◌>>=◌, ◌>>◌}
use gokafka.Wire.Strings.{read_string, read_compact_string, write_string, write_compact_string}
use gokafka.Wire.Tags.{skip_tag_section, write_empty_tag_section}
use gokafka.Wire.Writer.{Writer, ◌<+>◌}

pub record ListOffsetsPartition : Type 0 where
  pub topic : List ℕ
  pub partition : ℤ
  pub timestamp : ℤ

pub record PartitionOffset : Type 0 where
  pub topic : List ℕ
  pub partition : ℤ
  pub offset : ℤ
  pub error_code : ℤ

abbrev pub listed_by_topic : List ListOffsetsPartition → List (List ℕ × List ListOffsetsPartition)
listed_by_topic = group_by bytes_eq (λ p. p.topic)

unfoldable pub encode_list_offsets_request_legacy : List ListOffsetsPartition → ℤ → Writer
unfolding group_by
encode_list_offsets_request_legacy partitions isolation =
    ok (write_int32 (negsuc 0))
    <+> ok (if at_least 2 ver_list_offsets then write_int8 isolation else [])
    <+> write_array
        (λ t.
          write_string t.0
          <+> write_array
              (λ p.
                ok (write_int32 (ListOffsetsPartition.partition p))
                <+> ok (write_int64 (ListOffsetsPartition.timestamp p)))
              t.1)
        (listed_by_topic partitions)

-- A topic has no tag section here.
unfoldable pub encode_list_offsets_request_flex : List ListOffsetsPartition → ℤ → Writer
unfolding group_by
encode_list_offsets_request_flex partitions isolation =
    ok (write_int32 (negsuc 0))
    <+> ok (write_int8 isolation)
    <+> write_compact_array
        (λ t.
          ok (write_compact_string t.0)
          <+> write_compact_array
              (λ p.
                ok (write_int32 (ListOffsetsPartition.partition p))
                <+> ok (write_int64 (ListOffsetsPartition.timestamp p))
                <+> ok write_empty_tag_section)
              t.1)
        (listed_by_topic partitions)
    <+> ok write_empty_tag_section

unfoldable pub encode_list_offsets_request : List ListOffsetsPartition → ℤ → Writer
unfolding encode_list_offsets_request_flex encode_list_offsets_request_legacy
encode_list_offsets_request partitions isolation =
    if at_least 6 ver_list_offsets
    then encode_list_offsets_request_flex partitions isolation
    else encode_list_offsets_request_legacy partitions isolation

unfoldable pub read_partition_offset : List ℕ → Reader PartitionOffset
read_partition_offset topic = do
  part ← read_int32
  code ← read_int16
  read_int64
  off ← read_int64
  pure (record { topic = topic; partition = part; offset = off; error_code = code })

unfoldable pub decode_list_offsets_response_legacy : Reader (List PartitionOffset)
unfolding read_partition_offset
decode_list_offsets_response_legacy = do
  read_int32
  out ← read_array (read_string >>= λ topic. read_array (read_partition_offset topic))
  pure (flatten out)

unfoldable pub decode_list_offsets_response_flex : Reader (List PartitionOffset)
unfolding read_partition_offset
decode_list_offsets_response_flex = do
  read_int32
  out ← read_compact_array (
      read_compact_string >>= λ topic.
      read_compact_array (do p ← read_partition_offset topic; skip_tag_section; pure p))
  skip_tag_section
  pure (flatten out)

unfoldable pub decode_list_offsets_response : Reader (List PartitionOffset)
unfolding decode_list_offsets_response_flex decode_list_offsets_response_legacy
decode_list_offsets_response =
    if at_least 6 ver_list_offsets
    then decode_list_offsets_response_flex
    else decode_list_offsets_response_legacy
