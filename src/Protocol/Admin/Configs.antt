-- ===== src/Protocol/Admin/Configs.antt =====
-- DescribeConfigs of internal/protocol/admin.go. The map is its pairs, in the order of the stores.
pub mod Alter
use gokafka.Prelude.{if◌then◌else◌, Bool, false, List, [], ◌∷◌, ℕ, Option, none, some, ◌-◌}
use gokafka.Prelude.Int.{ℤ, pos, negsuc, at_least, eqb_ℤ}
use gokafka.Protocol.Arrays.{
  read_array, read_compact_array, read_nullable_string, skip_when, flatten, write_array,
  write_compact_array,
}
use gokafka.Protocol.Assignment.{rounds}
use gokafka.Protocol.Groups.CommitResponse.{first_code, skip_tags_if_none, code_of}
use gokafka.Result.{ok}
use gokafka.Wire.Ints.{
  read_int8, read_int16, read_int32, read_bool, write_int8, write_int16, write_int32, write_bool,
}
use gokafka.Wire.Reader.{Reader, pure, ◌>>=◌, ◌>>◌}
use gokafka.Wire.Strings.{
  read_string, read_compact_string, read_compact_nullable_string, write_string,
  write_nullable_string, write_compact_string, write_compact_nullable_string,
}
use gokafka.Wire.Tags.{skip_tag_section, write_empty_tag_section}
use gokafka.Wire.Varint.{read_uvarint, write_uvarint}
use gokafka.Wire.Writer.{Writer, ◌<+>◌}

pub record ConfigResource : Type 0 where
  pub kind : ℤ
  pub name : List ℕ

pub record ConfigEntry : Type 0 where
  pub name : List ℕ
  pub value : List ℕ
  pub is_default : Bool
  pub is_read_only : Bool

unfoldable pub encode_describe_configs_legacy : ℤ → List ConfigResource → Writer
encode_describe_configs_legacy version resources =
    write_array
      (λ r.
        ok (write_int8 (ConfigResource.kind r))
        <+> write_string (ConfigResource.name r)
        <+> ok (write_int32 (negsuc 0)))
      resources
    <+> ok (write_bool false)
    <+> ok (if at_least 3 version then write_bool false else [])

unfoldable pub encode_describe_configs_flex : ℤ → List ConfigResource → Writer
encode_describe_configs_flex version resources =
    write_compact_array
      (λ r.
        ok (write_int8 (ConfigResource.kind r))
        <+> ok (write_compact_string (ConfigResource.name r))
        <+> ok (write_uvarint 0)
        <+> ok write_empty_tag_section)
      resources
    <+> ok (write_bool false)
    <+> ok (if at_least 3 version then write_bool false else [])
    <+> ok write_empty_tag_section

unfoldable pub encode_describe_configs_request : ℤ → List ConfigResource → Writer
unfolding encode_describe_configs_flex encode_describe_configs_legacy
encode_describe_configs_request version resources =
    if at_least 4 version
    then encode_describe_configs_flex version resources
    else encode_describe_configs_legacy version resources

unfoldable pub skip_synonyms_legacy : Reader (Unit {0})
skip_synonyms_legacy = do
  read_array (do read_string; read_nullable_string; read_int8; pure (tt {0}))
  pure tt

-- A default flag below version 1, a source from version 1 on.
unfoldable pub read_default_or_source : ℤ → Reader Bool
read_default_or_source version = if at_least 1 version then (read_int8 >> pure false) else read_bool

-- An entry of a resource in error, whose documentation is not read.
unfoldable pub skip_config_entry_legacy : ℤ → Reader (Unit {0})
unfolding read_default_or_source skip_synonyms_legacy
skip_config_entry_legacy version = do
  read_string
  read_nullable_string
  read_bool
  read_default_or_source version
  read_bool
  skip_when (at_least 1 version) skip_synonyms_legacy
  pure tt

unfoldable pub skip_documentation_legacy : Reader (Unit {0})
skip_documentation_legacy = do read_int8; read_nullable_string; pure tt

unfoldable pub read_config_entry_legacy : ℤ → Reader ConfigEntry
unfolding read_default_or_source skip_synonyms_legacy skip_documentation_legacy
read_config_entry_legacy version = do
  name ← read_string
  value ← read_nullable_string
  read_only ← read_bool
  is_default ← read_default_or_source version
  read_bool
  skip_when (at_least 1 version) skip_synonyms_legacy
  skip_when (at_least 3 version) skip_documentation_legacy
  pure (record { name = name; value = value; is_default = is_default; is_read_only = read_only })

abbrev pub Described : Type 0
Described = List (List ℕ × List ConfigEntry)

-- The entries of a resource; one in error is left out of the map.
unfoldable pub read_entries_legacy : ℤ → List ℕ → ℤ → Reader Described
unfolding skip_config_entry_legacy read_config_entry_legacy
read_entries_legacy version name code =
    if eqb_ℤ code (pos 0)
    then (read_array (read_config_entry_legacy version) >>= λ entries. pure ((name, entries) ∷ []))
    else (read_array (skip_config_entry_legacy version) >> pure [])

unfoldable pub read_described_legacy : ℤ → Reader Described
unfolding read_entries_legacy
read_described_legacy version = do
  code ← read_int16
  read_nullable_string
  read_int8
  name ← read_string
  read_entries_legacy version name code

unfoldable pub decode_describe_configs_legacy : ℤ → Reader Described
unfolding read_described_legacy
decode_describe_configs_legacy version = do
  read_int32
  out ← read_array (read_described_legacy version)
  pure (flatten out)

unfoldable pub skip_synonyms_flex : Reader (Unit {0})
skip_synonyms_flex = do
  read_compact_array (do
    read_compact_string
    read_compact_nullable_string
    read_int8
    skip_tag_section
    pure (tt {0}))
  pure tt

unfoldable pub skip_documentation_flex : Reader (Unit {0})
skip_documentation_flex = do read_int8; read_compact_nullable_string; pure tt

unfoldable pub read_config_entry_flex : ℤ → Reader ConfigEntry
unfolding read_default_or_source skip_synonyms_flex skip_documentation_flex
read_config_entry_flex version = do
  name ← read_compact_string
  value ← read_compact_nullable_string
  read_only ← read_bool
  is_default ← read_default_or_source version
  read_bool
  skip_when (at_least 1 version) skip_synonyms_flex
  skip_when (at_least 3 version) skip_documentation_flex
  skip_tag_section
  pure (record { name = name; value = value; is_default = is_default; is_read_only = read_only })

-- For a resource in error the count of entries is not read.
unfoldable pub read_entries_flex : ℤ → List ℕ → ℤ → Reader Described
unfolding read_config_entry_flex
read_entries_flex version name code =
    if eqb_ℤ code (pos 0)
    then (read_compact_array (read_config_entry_flex version) >>= λ entries.
        skip_tag_section >> pure ((name, entries) ∷ []))
    else (skip_tag_section >> pure [])

unfoldable pub read_described_flex : ℤ → Reader Described
unfolding read_entries_flex
read_described_flex version = do
  code ← read_int16
  read_compact_nullable_string
  read_int8
  name ← read_compact_string
  read_entries_flex version name code

unfoldable pub decode_describe_configs_flex : ℤ → Reader Described
unfolding read_described_flex
decode_describe_configs_flex version = do
  read_int32
  out ← read_compact_array (read_described_flex version)
  skip_tag_section
  pure (flatten out)

unfoldable pub decode_describe_configs_response : ℤ → Reader Described
unfolding decode_describe_configs_flex decode_describe_configs_legacy
decode_describe_configs_response version =
    if at_least 4 version
    then decode_describe_configs_flex version
    else decode_describe_configs_legacy version
