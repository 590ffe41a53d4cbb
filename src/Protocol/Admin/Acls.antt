-- ===== src/Protocol/Admin/Acls.antt =====
-- The ACL messages of internal/protocol/acl.go.
use gokafka.Prelude.{if◌then◌else◌, codes, List, [], ℕ, none, some}
use gokafka.Prelude.Int.{ℤ, pos, at_least, eqb_ℤ, ◌-ℤ◌}
use gokafka.Protocol.Admin.Topics.{TopicMutationResult}
use gokafka.Protocol.Arrays.{
  read_array, read_compact_array, read_nullable_string, skip_when, flatten, write_array,
  write_compact_array,
}
use gokafka.Protocol.Groups.Join.{str_ptr}
use gokafka.Protocol.Groups.Sync.{check_code}
use gokafka.Result.{ok}
use gokafka.Wire.Ints.{read_int8, read_int16, read_int32, write_int8}
use gokafka.Wire.Reader.{Reader, pure, ◌>>=◌, ◌>>◌}
use gokafka.Wire.Strings.{
  read_string, read_compact_string, read_compact_nullable_string, write_string,
  write_nullable_string, write_compact_string, write_compact_nullable_string,
}
use gokafka.Wire.Tags.{skip_tag_section, write_empty_tag_section}
use gokafka.Wire.Varint.{read_uvarint}
use gokafka.Wire.Writer.{Writer, ◌<+>◌}

-- ResourceType, ACLOperation and ACLPermissionType are their int8 values.
pub record AclBinding : Type 0 where
  pub resource_type : ℤ
  pub resource_name : List ℕ
  pub principal : List ℕ
  pub host : List ℕ
  pub operation : ℤ
  pub permission : ℤ

-- ACLOpAny and ACLPermAny
abbrev pub acl_any : ℤ
acl_any = pos 1

-- The literal pattern type.
abbrev pub pattern_literal : ℤ
pattern_literal = pos 3

unfoldable pub encode_create_acls_v0 : List AclBinding → Writer
encode_create_acls_v0 bindings =
    write_array
      (λ b.
        ok (write_int8 (AclBinding.resource_type b))
        <+> write_string (AclBinding.resource_name b)
        <+> write_string (AclBinding.principal b)
        <+> write_string (AclBinding.host b)
        <+> ok (write_int8 (AclBinding.operation b))
        <+> ok (write_int8 (AclBinding.permission b)))
      bindings

unfoldable pub encode_create_acls_v1 : List AclBinding → Writer
encode_create_acls_v1 bindings =
    write_array
      (λ b.
        ok (write_int8 (AclBinding.resource_type b))
        <+> write_string (AclBinding.resource_name b)
        <+> ok (write_int8 pattern_literal)
        <+> write_string (AclBinding.principal b)
        <+> write_string (AclBinding.host b)
        <+> ok (write_int8 (AclBinding.operation b))
        <+> ok (write_int8 (AclBinding.permission b)))
      bindings

unfoldable pub encode_create_acls_flex : List AclBinding → Writer
encode_create_acls_flex bindings =
    write_compact_array
      (λ b.
        ok (write_int8 (AclBinding.resource_type b))
        <+> ok (write_compact_string (AclBinding.resource_name b))
        <+> ok (write_int8 pattern_literal)
        <+> ok (write_compact_string (AclBinding.principal b))
        <+> ok (write_compact_string (AclBinding.host b))
        <+> ok (write_int8 (AclBinding.operation b))
        <+> ok (write_int8 (AclBinding.permission b))
        <+> ok write_empty_tag_section)
      bindings
    <+> ok write_empty_tag_section

unfoldable pub encode_create_acls_request : ℤ → List AclBinding → Writer
unfolding encode_create_acls_flex encode_create_acls_v1 encode_create_acls_v0
encode_create_acls_request version bindings =
    if at_least 2 version
    then encode_create_acls_flex bindings
    else if eqb_ℤ version (pos 1)
    then encode_create_acls_v1 bindings
    else encode_create_acls_v0 bindings

unfoldable pub encode_describe_acls_filter_v0 : ℤ → List ℕ → List ℕ → Writer
encode_describe_acls_filter_v0 kind name principal =
    ok (write_int8 kind)
    <+> write_nullable_string (some name)
    <+> write_nullable_string (some principal)
    <+> write_nullable_string (some (codes "*"))
    <+> ok (write_int8 acl_any)
    <+> ok (write_int8 acl_any)

-- An empty name or principal is no filter.
unfoldable pub encode_describe_acls_filter_v1 : ℤ → List ℕ → List ℕ → Writer
unfolding str_ptr
encode_describe_acls_filter_v1 kind name principal =
    ok (write_int8 kind)
    <+> write_nullable_string (str_ptr name)
    <+> ok (write_int8 pattern_literal)
    <+> write_nullable_string (str_ptr principal)
    <+> write_nullable_string none
    <+> ok (write_int8 acl_any)
    <+> ok (write_int8 acl_any)

unfoldable pub encode_describe_acls_filter_flex : ℤ → List ℕ → List ℕ → Writer
encode_describe_acls_filter_flex kind name principal =
    ok (write_int8 kind)
    <+> ok (write_compact_nullable_string (some name))
    <+> ok (write_int8 pattern_literal)
    <+> ok (write_compact_nullable_string (some principal))
    <+> ok (write_compact_nullable_string none)
    <+> ok (write_int8 acl_any)
    <+> ok (write_int8 acl_any)
    <+> ok write_empty_tag_section

unfoldable pub encode_describe_acls_filter : ℤ → ℤ → List ℕ → List ℕ → Writer
unfolding encode_describe_acls_filter_flex encode_describe_acls_filter_v1
    encode_describe_acls_filter_v0
encode_describe_acls_filter version kind name principal =
    if at_least 2 version
    then encode_describe_acls_filter_flex kind name principal
    else if eqb_ℤ version (pos 1)
    then encode_describe_acls_filter_v1 kind name principal
    else encode_describe_acls_filter_v0 kind name principal

unfoldable pub encode_delete_acls_filter : ℤ → ℤ → List ℕ → List ℕ → Writer
unfolding encode_describe_acls_filter
encode_delete_acls_filter version kind name principal =
    encode_describe_acls_filter version kind name principal

unfoldable pub decode_create_acls_response_legacy : Reader (List TopicMutationResult)
decode_create_acls_response_legacy = do
  read_int32
  read_array
      (do code ← read_int16; read_nullable_string; pure (record { topic = []; error_code = code }))

unfoldable pub read_created_acl_flex : Reader TopicMutationResult
read_created_acl_flex = do
  code ← read_int16
  read_compact_nullable_string
  read_int8
  read_compact_nullable_string
  read_int8
  read_compact_nullable_string
  read_compact_nullable_string
  read_int8
  read_int8
  skip_tag_section
  pure (record { topic = []; error_code = code })

unfoldable pub decode_create_acls_response_flex : Reader (List TopicMutationResult)
unfolding read_created_acl_flex
decode_create_acls_response_flex = do
  read_int32
  out ← read_compact_array read_created_acl_flex
  skip_tag_section
  pure out

unfoldable pub decode_create_acls_response : ℤ → Reader (List TopicMutationResult)
unfolding decode_create_acls_response_flex decode_create_acls_response_legacy
decode_create_acls_response version =
    if at_least 2 version
    then decode_create_acls_response_flex
    else decode_create_acls_response_legacy

unfoldable pub read_acl_legacy : ℤ → List ℕ → Reader AclBinding
read_acl_legacy kind name = do
  principal ← read_string
  host ← read_string
  op ← read_int8
  perm ← read_int8
  pure (record {
    resource_type = kind;
    resource_name = name;
    principal = principal;
    host = host;
    operation = op;
    permission = perm;
  })

unfoldable pub read_acls_legacy : ℤ → Reader (List AclBinding)
unfolding read_acl_legacy
read_acls_legacy version = do
  kind ← read_int8
  name ← read_string
  skip_when (at_least 1 version) read_int8
  read_array (read_acl_legacy kind name)

-- An error code of the response is an error.
unfoldable pub decode_describe_acls_response_legacy : ℤ → Reader (List AclBinding)
unfolding read_acls_legacy
decode_describe_acls_response_legacy version = do
  read_int32
  code ← read_int16
  read_nullable_string
  check_code code
  out ← read_array (read_acls_legacy version)
  pure (flatten out)

unfoldable pub read_acl_flex : ℤ → List ℕ → Reader AclBinding
read_acl_flex kind name = do
  principal ← read_compact_string
  host ← read_compact_string
  op ← read_int8
  perm ← read_int8
  skip_tag_section
  pure (record {
    resource_type = kind;
    resource_name = name;
    principal = principal;
    host = host;
    operation = op;
    permission = perm;
  })

unfoldable pub read_acls_flex : ℤ → Reader (List AclBinding)
unfolding read_acl_flex
read_acls_flex version = do
  kind ← read_int8
  name ← read_compact_string
  skip_when (at_least 1 version) read_int8
  out ← read_compact_array (read_acl_flex kind name)
  skip_tag_section
  pure out

unfoldable pub decode_describe_acls_response_flex : ℤ → Reader (List AclBinding)
unfolding read_acls_flex
decode_describe_acls_response_flex version = do
  read_int32
  code ← read_int16
  read_compact_nullable_string
  check_code code
  out ← read_compact_array (read_acls_flex version)
  skip_tag_section
  pure (flatten out)

unfoldable pub decode_describe_acls_response : ℤ → Reader (List AclBinding)
unfolding decode_describe_acls_response_flex decode_describe_acls_response_legacy
decode_describe_acls_response version =
    if at_least 2 version
    then decode_describe_acls_response_flex version
    else decode_describe_acls_response_legacy version

-- The number of filter results, -1 for a null array.
unfoldable pub decode_delete_acls_response : Reader ℤ
decode_delete_acls_response = do read_int32; n ← read_uvarint; pure (pos n -ℤ pos 1)
