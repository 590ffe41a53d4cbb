-- ===== src/Protocol/Admin/Quotas.antt =====
-- The client quotas of internal/protocol/admin_quotas.go. A float64 is its bit pattern.
use gokafka.Prelude.{Bool, List, ℕ, Option}
use gokafka.Prelude.Int.{ℤ}
use gokafka.Protocol.Arrays.{read_compact_array, write_compact_array}
use gokafka.Result.{ok}
use gokafka.Wire.Ints.{read_int16, read_int32, read_float64, write_int8, write_bool, write_float64}
use gokafka.Wire.Reader.{Reader, pure, ◌>>=◌, ◌>>◌}
use gokafka.Wire.Strings.{
  read_compact_string, read_compact_nullable_string, read_compact_nullable_string_ptr,
  write_compact_string, write_compact_nullable_string,
}
use gokafka.Wire.Tags.{skip_tag_section, write_empty_tag_section}
use gokafka.Wire.Writer.{Writer, ◌<+>◌}

pub record QuotaComponent : Type 0 where
  pub entity_type : List ℕ
  pub match_type : ℤ
  pub name : Option (List ℕ)

pub record QuotaEntityElem : Type 0 where
  pub kind : List ℕ
  pub name : Option (List ℕ)

-- The values are the stores into the map, in their order.
pub record QuotaEntry : Type 0 where
  pub entity : List QuotaEntityElem
  pub values : List (List ℕ × ℕ)

pub record QuotaOp : Type 0 where
  pub key : List ℕ
  pub value : ℕ
  pub remove : Bool

pub record QuotaAlteration : Type 0 where
  pub entity : List QuotaEntityElem
  pub ops : List QuotaOp

pub record QuotaAlterResult : Type 0 where
  pub entity : List QuotaEntityElem
  pub error_code : ℤ
  pub error_message : List ℕ

unfoldable pub encode_describe_client_quotas_request : List QuotaComponent → Bool → Writer
encode_describe_client_quotas_request components strict =
    write_compact_array
      (λ c.
        ok (write_compact_string (QuotaComponent.entity_type c))
        <+> ok (write_int8 (QuotaComponent.match_type c))
        <+> ok (write_compact_nullable_string (QuotaComponent.name c))
        <+> ok write_empty_tag_section)
      components
    <+> ok (write_bool strict)
    <+> ok write_empty_tag_section

unfoldable pub read_quota_entity : Reader QuotaEntityElem
read_quota_entity = do
  kind ← read_compact_string
  name ← read_compact_nullable_string_ptr
  skip_tag_section
  pure (record { kind = kind; name = name })

unfoldable pub read_quota_value : Reader (List ℕ × ℕ)
read_quota_value = do
  key ← read_compact_string
  value ← read_float64
  skip_tag_section
  pure (key, value)

unfoldable pub read_quota_entry : Reader QuotaEntry
unfolding read_quota_entity read_quota_value
read_quota_entry = do
  entity ← read_compact_array read_quota_entity
  values ← read_compact_array read_quota_value
  skip_tag_section
  pure (record { entity = entity; values = values })

-- The code, the message and the entries.
unfoldable pub decode_describe_client_quotas_response : Reader (ℤ × List ℕ × List QuotaEntry)
unfolding read_quota_entry
decode_describe_client_quotas_response = do
  read_int32
  code ← read_int16
  message ← read_compact_nullable_string
  out ← read_compact_array read_quota_entry
  skip_tag_section
  pure (code, message, out)

unfoldable pub write_quota_entity : QuotaEntityElem → Writer
write_quota_entity el =
    ok (write_compact_string el.kind)
    <+> ok (write_compact_nullable_string el.name)
    <+> ok write_empty_tag_section

unfoldable pub write_quota_op : QuotaOp → Writer
write_quota_op op =
    ok (write_compact_string op.key)
    <+> ok (write_float64 op.value)
    <+> ok (write_bool op.remove)
    <+> ok write_empty_tag_section

unfoldable pub encode_alter_client_quotas_request : List QuotaAlteration → Bool → Writer
unfolding write_quota_entity write_quota_op
encode_alter_client_quotas_request alterations validate_only =
    write_compact_array
      (λ a.
        write_compact_array write_quota_entity (QuotaAlteration.entity a)
        <+> write_compact_array write_quota_op (QuotaAlteration.ops a)
        <+> ok write_empty_tag_section)
      alterations
    <+> ok (write_bool validate_only)
    <+> ok write_empty_tag_section

unfoldable pub read_quota_alter_result : Reader QuotaAlterResult
unfolding read_quota_entity
read_quota_alter_result = do
  code ← read_int16
  message ← read_compact_nullable_string
  entity ← read_compact_array read_quota_entity
  skip_tag_section
  pure (record { entity = entity; error_code = code; error_message = message })

unfoldable pub decode_alter_client_quotas_response : Reader (List QuotaAlterResult)
unfolding read_quota_alter_result
decode_alter_client_quotas_response = do
  read_int32
  out ← read_compact_array read_quota_alter_result
  skip_tag_section
  pure out
