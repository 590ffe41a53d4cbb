-- ===== src/Protocol/Admin/Groups.antt =====
-- ListGroups and DescribeGroups of internal/protocol/admin.go, DeleteGroups of admin_mutate.go.
use gokafka.Prelude.{if◌then◌else◌, false, List, [], ◌∷◌, ℕ, Option, none, some}
use gokafka.Prelude.Int.{ℤ, pos, at_least, eqb_ℤ}
use gokafka.Protocol.Arrays.{
  read_array, read_compact_array, read_nullable_string, write_array, write_compact_array,
  write_compact_string_element,
}
use gokafka.Protocol.Keys.Versions.{ver_list_groups, ver_describe_groups}
use gokafka.Result.{ok}
use gokafka.Wire.Ints.{read_int16, read_int32, write_bool}
use gokafka.Wire.Reader.{Reader, pure, ◌>>=◌, ◌>>◌}
use gokafka.Wire.Strings.{
  read_string, read_bytes, read_compact_string, read_compact_bytes, read_compact_nullable_string,
  write_string, write_compact_nullable_string,
}
use gokafka.Wire.Tags.{skip_tag_section, write_empty_tag_section}
use gokafka.Wire.Writer.{Writer, ◌<+>◌}

pub record ConsumerGroupListing : Type 0 where
  pub group_id : List ℕ
  pub protocol_type : List ℕ

unfoldable pub encode_list_groups_request : Writer
encode_list_groups_request =
    if at_least 4 ver_list_groups
    then ok (write_compact_nullable_string none) <+> ok write_empty_tag_section
    else ok []

unfoldable pub decode_list_groups_response_legacy : Reader (List ConsumerGroupListing)
decode_list_groups_response_legacy = do
  read_int32
  read_int16
  read_array (do
    id ← read_string
    kind ← read_string
    pure (record { group_id = id; protocol_type = kind }))

-- No error code is read here.
unfoldable pub decode_list_groups_response_flex : Reader (List ConsumerGroupListing)
decode_list_groups_response_flex = do
  read_int32
  out ← read_compact_array (do
    id ← read_compact_string
    kind ← read_compact_string
    skip_tag_section
    pure (record { group_id = id; protocol_type = kind }))
  skip_tag_section
  pure out

unfoldable pub decode_list_groups_response : Reader (List ConsumerGroupListing)
unfolding decode_list_groups_response_flex decode_list_groups_response_legacy
decode_list_groups_response =
    if at_least 3 ver_list_groups
    then decode_list_groups_response_flex
    else decode_list_groups_response_legacy

pub record GroupMemberDescription : Type 0 where
  pub member_id : List ℕ
  pub client_id : List ℕ
  pub client_host : List ℕ

pub record ConsumerGroupDescription : Type 0 where
  pub group_id : List ℕ
  pub state : List ℕ
  pub protocol_type : List ℕ
  pub members : List GroupMemberDescription
  pub error_code : ℤ

unfoldable pub encode_describe_groups_request_legacy : List (List ℕ) → Writer
encode_describe_groups_request_legacy groups =
    write_array write_string groups <+> ok (write_bool false)

unfoldable pub encode_describe_groups_request_flex : List (List ℕ) → Writer
encode_describe_groups_request_flex groups =
    write_compact_array write_compact_string_element groups
    <+> ok (write_bool false)
    <+> ok write_empty_tag_section

unfoldable pub encode_describe_groups_request : List (List ℕ) → Writer
unfolding encode_describe_groups_request_flex encode_describe_groups_request_legacy
encode_describe_groups_request groups =
    if at_least 5 ver_describe_groups
    then encode_describe_groups_request_flex groups
    else encode_describe_groups_request_legacy groups

unfoldable pub read_group_member_legacy : Reader GroupMemberDescription
read_group_member_legacy = do
  member ← read_string
  read_nullable_string
  client ← read_string
  host ← read_string
  read_bytes
  read_bytes
  pure (record { member_id = member; client_id = client; client_host = host })

unfoldable pub read_group_description_legacy : Reader ConsumerGroupDescription
unfolding read_group_member_legacy
read_group_description_legacy = do
  code ← read_int16
  id ← read_string
  state ← read_string
  kind ← read_string
  read_string
  members ← read_array read_group_member_legacy
  read_int32
  pure (record {
    group_id = id;
    state = state;
    protocol_type = kind;
    members = members;
    error_code = code;
  })

unfoldable pub decode_describe_groups_response_legacy : Reader (List ConsumerGroupDescription)
unfolding read_group_description_legacy
decode_describe_groups_response_legacy = read_int32 >> read_array read_group_description_legacy

unfoldable pub read_group_member_flex : Reader GroupMemberDescription
read_group_member_flex = do
  member ← read_compact_string
  read_compact_nullable_string
  client ← read_compact_string
  host ← read_compact_string
  read_compact_bytes
  read_compact_bytes
  skip_tag_section
  pure (record { member_id = member; client_id = client; client_host = host })

unfoldable pub read_group_description_flex : Reader ConsumerGroupDescription
unfolding read_group_member_flex
read_group_description_flex = do
  code ← read_int16
  id ← read_compact_string
  state ← read_compact_string
  kind ← read_compact_string
  read_compact_string
  members ← read_compact_array read_group_member_flex
  read_int32
  skip_tag_section
  pure (record {
    group_id = id;
    state = state;
    protocol_type = kind;
    members = members;
    error_code = code;
  })

unfoldable pub decode_describe_groups_response_flex : Reader (List ConsumerGroupDescription)
unfolding read_group_description_flex
decode_describe_groups_response_flex = do
  read_int32
  out ← read_compact_array read_group_description_flex
  skip_tag_section
  pure out

unfoldable pub decode_describe_groups_response : Reader (List ConsumerGroupDescription)
unfolding decode_describe_groups_response_flex decode_describe_groups_response_legacy
decode_describe_groups_response =
    if at_least 5 ver_describe_groups
    then decode_describe_groups_response_flex
    else decode_describe_groups_response_legacy

pub record GroupMutationResult : Type 0 where
  pub group_id : List ℕ
  pub error_code : ℤ

unfoldable pub encode_delete_groups_request : List (List ℕ) → Writer
encode_delete_groups_request groups =
    write_compact_array write_compact_string_element groups <+> ok write_empty_tag_section

unfoldable pub decode_delete_groups_response : Reader (List GroupMutationResult)
decode_delete_groups_response = do
  read_int32
  out ← read_compact_array (do
    id ← read_compact_string
    code ← read_int16
    skip_tag_section
    pure (record { group_id = id; error_code = code }))
  skip_tag_section
  pure out

unfoldable pub first_group_error : List GroupMutationResult → Option GroupMutationResult
first_group_error [] = none
first_group_error (r ∷ results) =
    if eqb_ℤ r.error_code (pos 0) then first_group_error results else some r
