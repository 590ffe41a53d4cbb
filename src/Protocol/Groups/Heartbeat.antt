-- ===== src/Protocol/Groups/Heartbeat.antt =====
-- Heartbeat, LeaveGroup and the topic requests of internal/protocol/groups.go. A Go map that an
-- encoder ranges over is the list of its pairs in the order of the range.
use gokafka.Wire.Tags.{skip_tag_section, write_empty_tag_section}
use gokafka.Protocol.Keys.Versions.{ver_create_topics}
use gokafka.Protocol.Assignment.{int32_of}
use gokafka.Wire.Ints.{read_int16, read_int32, write_bool, write_uuid, write_int16, write_int32}
use gokafka.Result.{ok}
use gokafka.Wire.Writer.{write_each, ◌<+>◌, Writer}
use gokafka.Wire.Reader.{pure, ◌>>=◌, ◌>>◌, Reader}
use gokafka.Wire.Strings.{
  write_compact_nullable_string, write_compact_string, write_compact_array_len,
  write_nullable_string, write_string,
}
use gokafka.Protocol.Groups.Join.{str_ptr}
use gokafka.Prelude.Int.{pos, at_least, ℤ}
use gokafka.Prelude.{false, replicate, [], some, none, ◌++◌, length, if◌then◌else◌, ℕ, List}

unfoldable pub encode_heartbeat_request : ℤ → List ℕ → List ℕ → List ℕ → ℤ → Writer
unfolding str_ptr write_string write_nullable_string
encode_heartbeat_request ver group member_id group_instance_id generation =
    if at_least 4 ver
    then ok (
        write_compact_string group
        ++ write_int32 generation
        ++ write_compact_string member_id
        ++ write_compact_nullable_string (str_ptr group_instance_id)
        ++ write_empty_tag_section)
    else (write_string group
        <+> ok (write_int32 generation)
        <+> write_string member_id
        <+> (if at_least 3 ver then write_nullable_string (str_ptr group_instance_id) else ok []))

unfoldable pub decode_heartbeat_response : ℤ → Reader ℤ
decode_heartbeat_response ver = do
  read_int32
  code ← read_int16
  if at_least 4 ver then skip_tag_section else pure tt
  pure code

unfoldable pub encode_leave_group_request : ℤ → List ℕ → List ℕ → List ℕ → Writer
unfolding str_ptr write_string write_nullable_string
encode_leave_group_request ver group member_id group_instance_id =
    if at_least 4 ver
    then ok (
        write_compact_string group
        ++ write_compact_array_len 1
        ++ write_compact_string member_id
        ++ write_compact_nullable_string (str_ptr group_instance_id)
        ++ (if at_least 5 ver then write_compact_nullable_string none else [])
        ++ write_empty_tag_section
        ++ write_empty_tag_section)
    else if at_least 3 ver
    then (write_string group
        <+> ok (write_int32 (pos 1))
        <+> write_string member_id
        <+> write_nullable_string (str_ptr group_instance_id))
    else write_string group <+> write_string member_id

pub record TopicCreate : Type 0 where
  pub partitions : ℤ
  pub replication_factor : ℤ
  pub configs : List (List ℕ × List ℕ)

unfoldable pub encode_create_topics_request_legacy : List (List ℕ × TopicCreate) → Writer
unfolding write_string
encode_create_topics_request_legacy topics =
    ok (write_int32 (int32_of (length topics)))
    <+> write_each
        (λ t.
          write_string t.0
          <+> ok (write_int32 t.1.partitions)
          <+> ok (write_int16 t.1.replication_factor)
          <+> ok (write_int32 (pos 0))
          <+> ok (write_int32 (int32_of (length t.1.configs)))
          <+> write_each (λ c. write_string c.0 <+> write_string c.1) t.1.configs)
        topics
    <+> ok (write_int32 (pos 5000))
    <+> ok (write_bool false)

unfoldable pub encode_create_topics_request_flex : List (List ℕ × TopicCreate) → Writer
encode_create_topics_request_flex topics =
    ok (write_compact_array_len (length topics))
    <+> write_each
        (λ t.
          ok (write_compact_string t.0)
          <+> ok (write_int32 t.1.partitions)
          <+> ok (write_int16 t.1.replication_factor)
          <+> ok (write_compact_array_len 0)
          <+> ok (write_compact_array_len (length t.1.configs))
          <+> write_each
              (λ c.
                ok
                  (write_compact_string c.0 ++ write_compact_string c.1 ++ write_empty_tag_section))
              t.1.configs
          <+> ok write_empty_tag_section)
        topics
    <+> ok (write_int32 (pos 5000))
    <+> ok (write_bool false)
    <+> ok write_empty_tag_section

unfoldable pub encode_create_topics_request : List (List ℕ × TopicCreate) → Writer
unfolding encode_create_topics_request_legacy encode_create_topics_request_flex
encode_create_topics_request topics =
    if at_least 5 ver_create_topics
    then encode_create_topics_request_flex topics
    else encode_create_topics_request_legacy topics

unfoldable pub encode_delete_topics_request : ℤ → List (List ℕ) → Writer
encode_delete_topics_request version topics =
    if at_least 6 version
    then (ok (write_compact_array_len (length topics))
        <+> write_each
            (λ t. ok (
              write_compact_nullable_string (some t)
              ++ write_uuid (replicate 16 0)
              ++ write_empty_tag_section))
            topics
        <+> ok (write_int32 (pos 5000))
        <+> ok write_empty_tag_section)
    else (ok (write_compact_array_len (length topics))
        <+> write_each (λ t. ok (write_compact_string t)) topics
        <+> ok (write_int32 (pos 5000))
        <+> ok write_empty_tag_section)
