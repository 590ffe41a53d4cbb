-- ===== src/Protocol/Admin/Reassign.antt =====
-- The partition reassignments of internal/protocol/admin_reassign.go.
use gokafka.Prelude.{List, [], ◌∷◌, ℕ, Option, none, some}
use gokafka.Prelude.Int.{ℤ}
use gokafka.Protocol.Admin.{TopicNumbers, write_topic_numbers}
use gokafka.Protocol.Arrays.{read_compact_array, flatten, write_compact_array, write_int32_element}
use gokafka.Protocol.Metadata.{read_compact_int32_array}
use gokafka.Result.{ok}
use gokafka.Wire.Ints.{read_int16, read_int32, write_int32}
use gokafka.Wire.Reader.{Reader, pure, ◌>>=◌, ◌>>◌}
use gokafka.Wire.Strings.{read_compact_string, read_compact_nullable_string, write_compact_string}
use gokafka.Wire.Tags.{skip_tag_section, write_empty_tag_section}
use gokafka.Wire.Varint.{write_uvarint}
use gokafka.Wire.Writer.{Writer, ◌<+>◌}

-- No replicas cancels the reassignment.
pub record ReassignmentMove : Type 0 where
  pub partition : ℤ
  pub replicas : Option (List ℤ)

pub record PartitionReassignmentResult : Type 0 where
  pub topic : List ℕ
  pub partition : ℤ
  pub error_code : ℤ
  pub error_message : List ℕ

unfoldable pub write_replicas : Option (List ℤ) → Writer
write_replicas none = ok (write_uvarint 0)
write_replicas (some rs) = write_compact_array write_int32_element rs

unfoldable pub encode_alter_partition_reassignments_request :
    ℤ → List (List ℕ × List ReassignmentMove) → Writer
unfolding write_replicas
encode_alter_partition_reassignments_request timeout_ms topics =
    ok (write_int32 timeout_ms)
    <+> write_compact_array
        (λ t.
          ok (write_compact_string t.0)
          <+> write_compact_array
              (λ m.
                ok (write_int32 (ReassignmentMove.partition m))
                <+> write_replicas (ReassignmentMove.replicas m)
                <+> ok write_empty_tag_section)
              t.1
          <+> ok write_empty_tag_section)
        topics
    <+> ok write_empty_tag_section

unfoldable pub read_reassigned : List ℕ → Reader PartitionReassignmentResult
read_reassigned name = do
  part ← read_int32
  code ← read_int16
  message ← read_compact_nullable_string
  skip_tag_section
  pure (record { topic = name; partition = part; error_code = code; error_message = message })

unfoldable pub read_reassigned_topic : Reader (List PartitionReassignmentResult)
unfolding read_reassigned
read_reassigned_topic = do
  name ← read_compact_string
  parts ← read_compact_array (read_reassigned name)
  skip_tag_section
  pure parts

-- The tag section at the end of the response is not read.
unfoldable pub decode_alter_partition_reassignments_response :
    Reader (ℤ × List ℕ × List PartitionReassignmentResult)
unfolding read_reassigned_topic
decode_alter_partition_reassignments_response = do
  read_int32
  code ← read_int16
  message ← read_compact_nullable_string
  out ← read_compact_array read_reassigned_topic
  pure (code, message, flatten out)

pub record OngoingReassignment : Type 0 where
  pub topic : List ℕ
  pub partition : ℤ
  pub replicas : List ℤ
  pub adding_replicas : List ℤ
  pub removing_replicas : List ℤ

-- An empty map asks for all topics.
unfoldable pub write_reassigning_topics : TopicNumbers → Writer
write_reassigning_topics [] = ok (write_uvarint 0)
write_reassigning_topics (t ∷ topics) = write_compact_array write_topic_numbers (t ∷ topics)

unfoldable pub encode_list_partition_reassignments_request : ℤ → TopicNumbers → Writer
unfolding write_reassigning_topics
encode_list_partition_reassignments_request timeout_ms topics =
    ok (write_int32 timeout_ms) <+> write_reassigning_topics topics <+> ok write_empty_tag_section

unfoldable pub read_ongoing : List ℕ → Reader OngoingReassignment
unfolding read_compact_int32_array
read_ongoing name = do
  part ← read_int32
  replicas ← read_compact_int32_array
  adding ← read_compact_int32_array
  removing ← read_compact_int32_array
  skip_tag_section
  pure (record {
    topic = name;
    partition = part;
    replicas = replicas;
    adding_replicas = adding;
    removing_replicas = removing;
  })

unfoldable pub read_ongoing_topic : Reader (List OngoingReassignment)
unfolding read_ongoing
read_ongoing_topic = do
  name ← read_compact_string
  parts ← read_compact_array (read_ongoing name)
  skip_tag_section
  pure parts

unfoldable pub decode_list_partition_reassignments_response :
    Reader (ℤ × List ℕ × List OngoingReassignment)
unfolding read_ongoing_topic
decode_list_partition_reassignments_response = do
  read_int32
  code ← read_int16
  message ← read_compact_nullable_string
  out ← read_compact_array read_ongoing_topic
  pure (code, message, flatten out)
