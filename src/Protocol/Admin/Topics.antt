-- ===== src/Protocol/Admin/Topics.antt =====
-- Topics, partitions and committed offsets of internal/protocol/admin_mutate.go.
use gokafka.Prelude.{if◌then◌else◌, false, List, [], ◌∷◌, ℕ, Option, none, some, ◌-◌}
use gokafka.Prelude.Int.{ℤ, pos, negsuc, at_least, eqb_ℤ, leb_ℤ}
use gokafka.Protocol.Admin.{TopicNumbers}
use gokafka.Protocol.Arrays.{
  read_array, read_compact_array, read_nullable_string, write_array, write_compact_array,
  write_int32_element,
}
use gokafka.Protocol.Assignment.{rounds}
use gokafka.Protocol.Groups.CommitResponse.{
  first_code, topic_code_legacy, partition_code_legacy, skip_tags_if_none, code_of,
}
use gokafka.Protocol.Keys.Versions.{ver_create_topics}
use gokafka.Result.{ok}
use gokafka.Wire.Ints.{read_int16, read_int32, write_int32, write_bool}
use gokafka.Wire.Reader.{Reader, pure, ◌>>=◌, ◌>>◌}
use gokafka.Wire.Strings.{
  read_string, read_compact_string, read_compact_nullable_string, read_compact_bytes, write_string,
  write_compact_string,
}
use gokafka.Wire.Tags.{skip_tag_section, write_empty_tag_section}
use gokafka.Wire.Varint.{read_uvarint, write_uvarint}
use gokafka.Wire.Writer.{Writer, ◌<+>◌}

pub record TopicMutationResult : Type 0 where
  pub topic : List ℕ
  pub error_code : ℤ

-- A name, a code and a message.
unfoldable pub read_topic_result_legacy : Reader TopicMutationResult
read_topic_result_legacy = do
  name ← read_string
  code ← read_int16
  read_nullable_string
  pure (record { topic = name; error_code = code })

unfoldable pub decode_create_topics_response_legacy : Reader (List TopicMutationResult)
unfolding read_topic_result_legacy
decode_create_topics_response_legacy = read_int32 >> read_array read_topic_result_legacy

unfoldable pub read_created_topic_flex : Reader TopicMutationResult
read_created_topic_flex = do
  name ← read_compact_string
  code ← read_int16
  read_compact_nullable_string
  read_int32
  read_int16
  read_compact_bytes
  skip_tag_section
  pure (record { topic = name; error_code = code })

unfoldable pub decode_create_topics_response_flex : Reader (List TopicMutationResult)
unfolding read_created_topic_flex
decode_create_topics_response_flex = do
  read_int32
  out ← read_compact_array read_created_topic_flex
  skip_tag_section
  pure out

unfoldable pub decode_create_topics_response : Reader (List TopicMutationResult)
unfolding decode_create_topics_response_flex decode_create_topics_response_legacy
decode_create_topics_response =
    if at_least 5 ver_create_topics
    then decode_create_topics_response_flex
    else decode_create_topics_response_legacy

unfoldable pub decode_delete_topics_response : Reader (List TopicMutationResult)
decode_delete_topics_response = do
  read_int32
  out ← read_compact_array (do
    name ← read_compact_string
    code ← read_int16
    skip_tag_section
    pure (record { topic = name; error_code = code }))
  skip_tag_section
  pure out

unfoldable pub first_topic_error : List TopicMutationResult → Option TopicMutationResult
first_topic_error [] = none
first_topic_error (r ∷ results) =
    if eqb_ℤ r.error_code (pos 0) then first_topic_error results else some r

pub record CreatePartitionsSpec : Type 0 where
  pub topic : List ℕ
  pub count : ℤ
  pub assignment : List (List ℤ)

unfoldable pub encode_create_partitions_legacy : List CreatePartitionsSpec → ℤ → Writer
encode_create_partitions_legacy specs timeout_ms =
    write_array
      (λ s.
        write_string (CreatePartitionsSpec.topic s)
        <+> ok (write_int32 (CreatePartitionsSpec.count s))
        <+> ok (write_int32 (negsuc 0)))
      specs
    <+> ok (write_int32 timeout_ms)
    <+> ok (write_bool false)

unfoldable pub write_replica_assignment : List (List ℤ) → Writer
write_replica_assignment [] = ok (write_uvarint 0)
write_replica_assignment (r ∷ rs) =
    write_compact_array (λ replicas. write_compact_array write_int32_element replicas) (r ∷ rs)

unfoldable pub encode_create_partitions_flex : List CreatePartitionsSpec → ℤ → Writer
unfolding write_replica_assignment
encode_create_partitions_flex specs timeout_ms =
    write_compact_array
      (λ s.
        ok (write_compact_string (CreatePartitionsSpec.topic s))
        <+> ok (write_int32 (CreatePartitionsSpec.count s))
        <+> write_replica_assignment (CreatePartitionsSpec.assignment s)
        <+> ok write_empty_tag_section)
      specs
    <+> ok (write_int32 timeout_ms)
    <+> ok (write_bool false)
    <+> ok write_empty_tag_section

unfoldable pub encode_create_partitions_request : ℤ → List CreatePartitionsSpec → ℤ → Writer
unfolding encode_create_partitions_flex encode_create_partitions_legacy
encode_create_partitions_request version specs timeout_ms =
    let timeout = if leb_ℤ timeout_ms (pos 0) then pos 30000 else timeout_ms in
    if at_least 2 version
    then encode_create_partitions_flex specs timeout
    else encode_create_partitions_legacy specs timeout

unfoldable pub decode_create_partitions_response_legacy : Reader (List TopicMutationResult)
unfolding read_topic_result_legacy
decode_create_partitions_response_legacy = read_int32 >> read_array read_topic_result_legacy

unfoldable pub decode_create_partitions_response_flex : Reader (List TopicMutationResult)
decode_create_partitions_response_flex = do
  read_int32
  out ← read_compact_array (do
    name ← read_compact_string
    code ← read_int16
    read_compact_nullable_string
    skip_tag_section
    pure (record { topic = name; error_code = code }))
  skip_tag_section
  pure out

unfoldable pub decode_create_partitions_response : ℤ → Reader (List TopicMutationResult)
unfolding decode_create_partitions_response_flex decode_create_partitions_response_legacy
decode_create_partitions_response version =
    if at_least 2 version
    then decode_create_partitions_response_flex
    else decode_create_partitions_response_legacy

unfoldable pub encode_offset_delete_legacy : List ℕ → TopicNumbers → Writer
encode_offset_delete_legacy group offsets =
    write_string group
    <+> write_array (λ t. write_string t.0 <+> write_array write_int32_element t.1) offsets

unfoldable pub encode_offset_delete_flex : List ℕ → TopicNumbers → Writer
encode_offset_delete_flex group offsets =
    ok (write_compact_string group)
    <+> write_compact_array
        (λ t. ok (write_compact_string t.0) <+> write_compact_array write_int32_element t.1) offsets
    <+> ok write_empty_tag_section

unfoldable pub encode_offset_delete_request : ℤ → List ℕ → TopicNumbers → Writer
unfolding encode_offset_delete_flex encode_offset_delete_legacy
encode_offset_delete_request version group offsets =
    if at_least 1 version
    then encode_offset_delete_flex group offsets
    else encode_offset_delete_legacy group offsets

-- A code of the whole response ends it; then the first code of a partition that is not 0.
unfoldable pub decode_offset_delete_response_legacy : Reader ℤ
decode_offset_delete_response_legacy = do
  code ← read_int16
  read_int32
  if eqb_ℤ code (pos 0)
      then (do
        n ← read_int32
        found ← first_code (rounds n) topic_code_legacy
        pure (code_of found))
      else pure code

unfoldable pub deleted_topic_code : Reader (Option ℤ)
unfolding partition_code_legacy
deleted_topic_code = do
  read_compact_string
  n ← read_uvarint
  first_code (n - 1) partition_code_legacy

unfoldable pub decode_offset_delete_response_flex : Reader ℤ
unfolding deleted_topic_code
decode_offset_delete_response_flex = do
  read_int32
  n ← read_uvarint
  found ← first_code (n - 1) deleted_topic_code
  last ← skip_tags_if_none found
  pure (code_of last)

unfoldable pub decode_offset_delete_response : ℤ → Reader ℤ
unfolding decode_offset_delete_response_flex decode_offset_delete_response_legacy
decode_offset_delete_response version =
    if at_least 1 version
    then decode_offset_delete_response_flex
    else decode_offset_delete_response_legacy
