-- ===== src/Protocol/Admin/Records.antt =====
-- DeleteRecords and ElectLeaders of internal/protocol/admin_records.go.
use gokafka.Prelude.{if◌then◌else◌, List, [], ℕ, Option, none, some}
use gokafka.Prelude.Int.{ℤ, pos, negsuc, at_least}
use gokafka.Protocol.Admin.{TopicNumbers, write_topic_numbers}
use gokafka.Protocol.Arrays.{
  read_array, read_compact_array, read_nullable_string, flatten, write_array, write_compact_array,
  write_int32_element,
}
use gokafka.Result.{ok}
use gokafka.Wire.Ints.{read_int16, read_int32, read_int64, write_int8, write_int32, write_int64}
use gokafka.Wire.Reader.{Reader, pure, ◌>>=◌, ◌>>◌}
use gokafka.Wire.Strings.{
  read_string, read_compact_string, read_compact_nullable_string, write_string,
  write_compact_string,
}
use gokafka.Wire.Tags.{skip_tag_section, write_empty_tag_section}
use gokafka.Wire.Varint.{write_uvarint}
use gokafka.Wire.Writer.{Writer, ◌<+>◌}

pub record DeleteRecordsResult : Type 0 where
  pub topic : List ℕ
  pub partition : ℤ
  pub low_watermark : ℤ
  pub error_code : ℤ

unfoldable pub encode_delete_records_request : ℤ → List (List ℕ × List (ℤ × ℤ)) → ℤ → Writer
encode_delete_records_request version offsets timeout_ms =
    if at_least 2 version
    then write_compact_array
        (λ t.
          ok (write_compact_string t.0)
          <+> write_compact_array
              (λ p. ok (write_int32 p.0) <+> ok (write_int64 p.1) <+> ok write_empty_tag_section)
              t.1
          <+> ok write_empty_tag_section)
        offsets
      <+> ok (write_int32 timeout_ms)
      <+> ok write_empty_tag_section
    else write_array
        (λ t.
          write_string t.0 <+> write_array (λ p. ok (write_int32 p.0) <+> ok (write_int64 p.1)) t.1)
        offsets
      <+> ok (write_int32 timeout_ms)

unfoldable pub read_deleted_records : List ℕ → Reader DeleteRecordsResult
read_deleted_records topic = do
  part ← read_int32
  low ← read_int64
  code ← read_int16
  pure (record { topic = topic; partition = part; low_watermark = low; error_code = code })

unfoldable pub read_deleted_records_topic : Reader (List DeleteRecordsResult)
unfolding read_deleted_records
read_deleted_records_topic = do
  topic ← read_compact_string
  out ← read_compact_array (do r ← read_deleted_records topic; skip_tag_section; pure r)
  skip_tag_section
  pure out

unfoldable pub read_deleted_records_flex : Reader (List DeleteRecordsResult)
unfolding read_deleted_records_topic
read_deleted_records_flex = do
  out ← read_compact_array read_deleted_records_topic
  skip_tag_section
  pure (flatten out)

unfoldable pub read_deleted_records_legacy : Reader (List DeleteRecordsResult)
unfolding read_deleted_records
read_deleted_records_legacy = do
  out ← read_array (read_string >>= λ topic. read_array (read_deleted_records topic))
  pure (flatten out)

unfoldable pub decode_delete_records_response : ℤ → Reader (List DeleteRecordsResult)
unfolding read_deleted_records_flex read_deleted_records_legacy
decode_delete_records_response version = do
  read_int32
  if at_least 2 version then read_deleted_records_flex else read_deleted_records_legacy

pub record ElectLeadersResult : Type 0 where
  pub topic : List ℕ
  pub partition : ℤ
  pub error_code : ℤ
  pub error_message : List ℕ

-- WriteCompactArrayLen(-1) writes the uvarint 0. No map is null: all partitions.
unfoldable pub write_elected : Option TopicNumbers → Writer
write_elected none = ok (write_uvarint 0)
write_elected (some topics) = write_compact_array write_topic_numbers topics

unfoldable pub write_elected_legacy : Option TopicNumbers → Writer
write_elected_legacy none = ok (write_int32 (negsuc 0))
write_elected_legacy (some topics) =
    write_array (λ t. write_string t.0 <+> write_array write_int32_element t.1) topics

unfoldable pub encode_elect_leaders_request : ℤ → ℤ → Option TopicNumbers → ℤ → Writer
unfolding write_elected write_elected_legacy
encode_elect_leaders_request version election topics timeout_ms =
    if at_least 2 version
    then ok (write_int8 election)
      <+> write_elected topics
      <+> ok (write_int32 timeout_ms)
      <+> ok write_empty_tag_section
    else ok (if at_least 1 version then write_int8 election else [])
      <+> write_elected_legacy topics
      <+> ok (write_int32 timeout_ms)

unfoldable pub read_elected_flex : List ℕ → Reader ElectLeadersResult
read_elected_flex topic = do
  part ← read_int32
  code ← read_int16
  message ← read_compact_nullable_string
  skip_tag_section
  pure (record { topic = topic; partition = part; error_code = code; error_message = message })

unfoldable pub read_elected_legacy : List ℕ → Reader ElectLeadersResult
read_elected_legacy topic = do
  part ← read_int32
  code ← read_int16
  message ← read_nullable_string
  pure (record { topic = topic; partition = part; error_code = code; error_message = message })

unfoldable pub read_elections_flex : Reader (List ElectLeadersResult)
unfolding read_elected_flex
read_elections_flex = do
  out ← read_compact_array (do
    topic ← read_compact_string
    parts ← read_compact_array (read_elected_flex topic)
    skip_tag_section
    pure parts)
  skip_tag_section
  pure (flatten out)

unfoldable pub read_elections_legacy : Reader (List ElectLeadersResult)
unfolding read_elected_legacy
read_elections_legacy = do
  out ← read_array (read_string >>= λ topic. read_array (read_elected_legacy topic))
  pure (flatten out)

unfoldable pub decode_elect_leaders_response : ℤ → Reader (ℤ × List ElectLeadersResult)
unfolding read_elections_flex read_elections_legacy
decode_elect_leaders_response version = do
  read_int32
  top ← (if at_least 1 version then read_int16 else pure (pos 0))
  out ← (if at_least 2 version then read_elections_flex else read_elections_legacy)
  pure (top, out)
