-- ===== src/Protocol/Admin/Configs/Alter.antt =====
-- AlterConfigs and IncrementalAlterConfigs of internal/protocol/admin_mutate.go. The map of a request is
-- its pairs, in the order of the iteration.
use gokafka.Prelude.{if◌then◌else◌, false, List, ℕ, Option, none, some, ◌-◌}
use gokafka.Prelude.Int.{ℤ, pos, negsuc, at_least, eqb_ℤ}
use gokafka.Protocol.Arrays.{read_nullable_string, write_array, write_compact_array}
use gokafka.Protocol.Assignment.{rounds}
use gokafka.Protocol.Groups.CommitResponse.{first_code, skip_tags_if_none, code_of}
use gokafka.Result.{ok}
use gokafka.Wire.Ints.{read_int8, read_int16, read_int32, write_int8, write_int16, write_bool}
use gokafka.Wire.Reader.{Reader, pure, ◌>>=◌, ◌>>◌}
use gokafka.Wire.Strings.{
  read_string, read_compact_string, read_compact_nullable_string, write_string,
  write_nullable_string, write_compact_string, write_compact_nullable_string,
}
use gokafka.Wire.Tags.{write_empty_tag_section}
use gokafka.Wire.Varint.{read_uvarint}
use gokafka.Wire.Writer.{Writer, ◌<+>◌}

-- No value deletes the config.
pub record ConfigAlteration : Type 0 where
  pub name : List ℕ
  pub value : Option (List ℕ)

abbrev pub Alterations : Type 0
Alterations = List (List ℕ × List ConfigAlteration)

abbrev pub config_resource_topic : ℤ
config_resource_topic = pos 2

unfoldable pub encode_alter_configs_request_legacy : Alterations → Writer
encode_alter_configs_request_legacy resources =
    write_array
      (λ r.
        ok (write_int8 config_resource_topic)
        <+> write_string r.0
        <+> write_array
            (λ a.
              write_string (ConfigAlteration.name a)
              <+> write_nullable_string (ConfigAlteration.value a))
            r.1)
      resources
    <+> ok (write_bool false)

unfoldable pub encode_alter_configs_request_flex : Alterations → Writer
encode_alter_configs_request_flex resources =
    write_compact_array
      (λ r.
        ok (write_int8 config_resource_topic)
        <+> ok (write_compact_string r.0)
        <+> write_compact_array
            (λ a.
              ok (write_compact_string (ConfigAlteration.name a))
              <+> ok (write_compact_nullable_string (ConfigAlteration.value a))
              <+> ok write_empty_tag_section)
            r.1
        <+> ok write_empty_tag_section)
      resources
    <+> ok (write_bool false)
    <+> ok write_empty_tag_section

unfoldable pub encode_alter_configs_request : ℤ → Alterations → Writer
unfolding encode_alter_configs_request_flex encode_alter_configs_request_legacy
encode_alter_configs_request version resources =
    if at_least 2 version
    then encode_alter_configs_request_flex resources
    else encode_alter_configs_request_legacy resources

unfoldable pub altered_code_legacy : Reader (Option ℤ)
altered_code_legacy = do
  code ← read_int16
  read_nullable_string
  read_int8
  read_string
  pure (if eqb_ℤ code (pos 0) then none else some code)

unfoldable pub decode_alter_configs_response_legacy : Reader ℤ
unfolding altered_code_legacy
decode_alter_configs_response_legacy = do
  read_int32
  n ← read_int32
  found ← first_code (rounds n) altered_code_legacy
  pure (code_of found)

unfoldable pub altered_code_flex : Reader (Option ℤ)
altered_code_flex = do
  code ← read_int16
  read_compact_nullable_string
  read_int8
  read_compact_string
  skip_tags_if_none (if eqb_ℤ code (pos 0) then none else some code)

unfoldable pub decode_alter_configs_response_flex : Reader ℤ
unfolding altered_code_flex
decode_alter_configs_response_flex = do
  read_int32
  n ← read_uvarint
  found ← first_code (n - 1) altered_code_flex
  last ← skip_tags_if_none found
  pure (code_of last)

unfoldable pub decode_alter_configs_response : ℤ → Reader ℤ
unfolding decode_alter_configs_response_flex decode_alter_configs_response_legacy
decode_alter_configs_response version =
    if at_least 2 version
    then decode_alter_configs_response_flex
    else decode_alter_configs_response_legacy

-- ConfigOpDelete for nil, ConfigOpSet otherwise
unfoldable pub config_op : ConfigAlteration → ℤ
config_op a = elim a.value [ none ↦ pos 1 | some v ↦ pos 0 ]

abbrev pub write_value_or_null : Option (List ℕ) → Writer
write_value_or_null none = ok (write_int16 (negsuc 0))
write_value_or_null (some v) = write_string v

unfoldable pub encode_incremental_alter_configs_legacy : ℤ → Alterations → Writer
unfolding config_op
encode_incremental_alter_configs_legacy kind resources =
    write_array
      (λ r.
        ok (write_int8 kind)
        <+> write_string r.0
        <+> write_array
            (λ a.
              write_string (ConfigAlteration.name a)
              <+> ok (write_int8 (config_op a))
              <+> write_value_or_null (ConfigAlteration.value a))
            r.1)
      resources
    <+> ok (write_bool false)

unfoldable pub encode_incremental_alter_configs_flex : ℤ → Alterations → Writer
unfolding config_op
encode_incremental_alter_configs_flex kind resources =
    write_compact_array
      (λ r.
        ok (write_int8 kind)
        <+> ok (write_compact_string r.0)
        <+> write_compact_array
            (λ a.
              ok (write_compact_string (ConfigAlteration.name a))
              <+> ok (write_int8 (config_op a))
              <+> ok (write_compact_nullable_string (ConfigAlteration.value a))
              <+> ok write_empty_tag_section)
            r.1
        <+> ok write_empty_tag_section)
      resources
    <+> ok (write_bool false)
    <+> ok write_empty_tag_section

unfoldable pub encode_incremental_alter_configs_request : ℤ → ℤ → Alterations → Writer
unfolding encode_incremental_alter_configs_flex encode_incremental_alter_configs_legacy
encode_incremental_alter_configs_request version kind resources =
    if at_least 1 version
    then encode_incremental_alter_configs_flex kind resources
    else encode_incremental_alter_configs_legacy kind resources

unfoldable pub decode_incremental_alter_configs_response : ℤ → Reader ℤ
unfolding decode_alter_configs_response_flex decode_alter_configs_response_legacy
decode_incremental_alter_configs_response version =
    if at_least 1 version
    then decode_alter_configs_response_flex
    else decode_alter_configs_response_legacy
