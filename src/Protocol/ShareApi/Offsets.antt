-- ===== src/Protocol/ShareApi/Offsets.antt =====
-- The share-group messages of internal/protocol/share_offsets.go and share_group_describe.go.
use gokafka.Prelude.{if◌then◌else◌, ltb, List, [], ◌∷◌, ℕ, map, Bool, not, ◌&&◌}
use gokafka.Prelude.Int.{ℤ, pos, eqb_ℤ}
use gokafka.Protocol.Arrays.{
  read_compact_array, write_compact_array, write_compact_string_element, flatten,
}
use gokafka.Result.{ok}
use gokafka.Wire.Ints.{
  read_int16, read_int32, read_int64, read_uuid, write_int32, write_int64, write_bool,
}
use gokafka.Wire.Reader.{Reader, pure, ◌>>=◌, ◌>>◌}
use gokafka.Wire.Strings.{
  read_compact_string, read_compact_nullable_string, write_compact_string, write_compact_array_len,
}
use gokafka.Wire.Tags.{skip_tag_section, write_empty_tag_section}
use gokafka.Wire.Varint.{read_uvarint, write_uvarint}
use gokafka.Wire.Writer.{Writer, ◌<+>◌}

pub record ShareGroupOffset : Type 0 where
  pub topic : List ℕ
  pub partition : ℤ
  pub start_offset : ℤ
  pub leader_epoch : ℤ
  pub error_code : ℤ
  pub error_message : List ℕ

unfoldable pub encode_describe_share_group_offsets_request : List ℕ → Writer
encode_describe_share_group_offsets_request group =
    ok (write_compact_array_len 1)
    <+> ok (write_compact_string group)
    <+> ok (write_uvarint 0)
    <+> ok write_empty_tag_section
    <+> ok write_empty_tag_section

unfoldable pub read_share_group_offset : List ℕ → Reader ShareGroupOffset
read_share_group_offset topic = do
  part ← read_int32
  start ← read_int64
  epoch ← read_int32
  code ← read_int16
  message ← read_compact_nullable_string
  skip_tag_section
  pure (record {
    topic = topic;
    partition = part;
    start_offset = start;
    leader_epoch = epoch;
    error_code = code;
    error_message = message;
  })

-- `if code != 0 && first == 0 { first = code }`, over the codes in their order.
unfoldable pub first_nonzero : ℤ → List ℤ → ℤ
first_nonzero first [] = first
first_nonzero first (code ∷ codes') =
    first_nonzero (if not (eqb_ℤ code (pos 0)) && eqb_ℤ first (pos 0) then code else first) codes'

unfoldable pub read_share_group_offsets : Reader (ℤ × List ShareGroupOffset)
unfolding read_share_group_offset
read_share_group_offsets = do
  read_compact_string
  topics ← read_compact_array (do
    topic ← read_compact_string
    read_uuid
    offsets ← read_compact_array (read_share_group_offset topic)
    skip_tag_section
    pure offsets)
  code ← read_int16
  read_compact_nullable_string
  skip_tag_section
  pure (code, flatten topics)

-- The first error code of a group, and the offsets of them all.
unfoldable pub decode_describe_share_group_offsets_response : Reader (ℤ × List ShareGroupOffset)
unfolding read_share_group_offsets first_nonzero
decode_describe_share_group_offsets_response = do
  read_int32
  groups ← read_compact_array read_share_group_offsets
  skip_tag_section
  pure (first_nonzero (pos 0) (map (λ g. g.0) groups), flatten (map (λ g. g.1) groups))

-- The maps as pairs, in the order in which the encoder ranges over them.
unfoldable pub encode_alter_share_group_offsets_request :
    List ℕ → List (List ℕ × List (ℤ × ℤ)) → Writer
encode_alter_share_group_offsets_request group offsets =
    ok (write_compact_string group)
    <+> write_compact_array
        (λ t.
          ok (write_compact_string t.0)
          <+> write_compact_array
              (λ p. ok (write_int32 p.0) <+> ok (write_int64 p.1) <+> ok write_empty_tag_section)
              t.1
          <+> ok write_empty_tag_section)
        offsets
    <+> ok write_empty_tag_section

unfoldable pub read_altered_partition : Reader ℤ
read_altered_partition = do
  read_int32
  code ← read_int16
  read_compact_nullable_string
  skip_tag_section
  pure code

unfoldable pub read_altered_topic : Reader (List ℤ)
unfolding read_altered_partition
read_altered_topic = do
  read_compact_string
  read_uuid
  codes' ← read_compact_array read_altered_partition
  skip_tag_section
  pure codes'

unfoldable pub decode_alter_share_group_offsets_response : Reader ℤ
unfolding read_altered_topic first_nonzero
decode_alter_share_group_offsets_response = do
  read_int32
  code ← read_int16
  read_compact_nullable_string
  topics ← read_compact_array read_altered_topic
  skip_tag_section
  pure (first_nonzero code (flatten topics))

unfoldable pub encode_delete_share_group_offsets_request : List ℕ → List (List ℕ) → Writer
encode_delete_share_group_offsets_request group topics =
    ok (write_compact_string group)
    <+> write_compact_array (λ t. ok (write_compact_string t) <+> ok write_empty_tag_section) topics
    <+> ok write_empty_tag_section

unfoldable pub read_deleted_topic : Reader ℤ
read_deleted_topic = do
  read_compact_string
  read_uuid
  code ← read_int16
  read_compact_nullable_string
  skip_tag_section
  pure code

unfoldable pub decode_delete_share_group_offsets_response : Reader ℤ
unfolding read_deleted_topic first_nonzero
decode_delete_share_group_offsets_response = do
  read_int32
  code ← read_int16
  read_compact_nullable_string
  topics ← read_compact_array read_deleted_topic
  skip_tag_section
  pure (first_nonzero code topics)

pub record ShareGroupMemberDescription : Type 0 where
  pub member_id : List ℕ
  pub rack_id : List ℕ
  pub member_epoch : ℤ
  pub client_id : List ℕ
  pub client_host : List ℕ
  pub subscribed_topic_names : List (List ℕ)

pub record ShareGroupDescription : Type 0 where
  pub error_code : ℤ
  pub error_message : List ℕ
  pub group_id : List ℕ
  pub group_state : List ℕ
  pub group_epoch : ℤ
  pub assignment_epoch : ℤ
  pub assignor_name : List ℕ
  pub members : List ShareGroupMemberDescription
  pub authorized_ops : ℤ

unfoldable pub encode_share_group_describe_request : List (List ℕ) → Bool → Writer
encode_share_group_describe_request groups include_ops =
    write_compact_array write_compact_string_element groups
    <+> ok (write_bool include_ops)
    <+> ok write_empty_tag_section

-- No tag section stands behind a topic of the assignment.
unfoldable pub skip_share_member_assignment : Reader (Unit {0})
skip_share_member_assignment = do
  mark ← read_uvarint
  if ltb 1 mark
      then (do
        read_compact_array
            (do read_uuid; read_compact_string; read_compact_array read_int32; pure (tt {0}))
        pure tt)
      else pure tt

unfoldable pub read_share_group_member : Reader ShareGroupMemberDescription
unfolding skip_share_member_assignment
read_share_group_member = do
  id ← read_compact_string
  rack ← read_compact_nullable_string
  epoch ← read_int32
  client ← read_compact_string
  host ← read_compact_string
  topics ← read_compact_array read_compact_string
  skip_share_member_assignment
  skip_tag_section
  pure (record {
    member_id = id;
    rack_id = rack;
    member_epoch = epoch;
    client_id = client;
    client_host = host;
    subscribed_topic_names = topics;
  })

unfoldable pub read_share_group_description : Reader ShareGroupDescription
unfolding read_share_group_member
read_share_group_description = do
  code ← read_int16
  message ← read_compact_nullable_string
  id ← read_compact_string
  state ← read_compact_string
  epoch ← read_int32
  assignment ← read_int32
  assignor ← read_compact_string
  members ← read_compact_array read_share_group_member
  ops ← read_int32
  skip_tag_section
  pure (record {
    error_code = code;
    error_message = message;
    group_id = id;
    group_state = state;
    group_epoch = epoch;
    assignment_epoch = assignment;
    assignor_name = assignor;
    members = members;
    authorized_ops = ops;
  })

unfoldable pub decode_share_group_describe_response : Reader (List ShareGroupDescription)
unfolding read_share_group_description
decode_share_group_describe_response = do
  read_int32
  groups ← read_compact_array read_share_group_description
  skip_tag_section
  pure groups
