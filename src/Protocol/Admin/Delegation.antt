-- ===== src/Protocol/Admin/Delegation.antt =====
-- The delegation tokens of internal/protocol/admin_delegation.go.
use gokafka.Prelude.{List, [], ℕ, Option, none, some}
use gokafka.Prelude.Int.{ℤ}
use gokafka.Protocol.Arrays.{read_compact_array, write_compact_array}
use gokafka.Result.{ok}
use gokafka.Wire.Ints.{read_int16, read_int32, read_int64, write_int64}
use gokafka.Wire.Reader.{Reader, pure, ◌>>=◌, ◌>>◌}
use gokafka.Wire.Strings.{
  read_compact_string, read_compact_bytes, write_compact_string, write_compact_bytes,
}
use gokafka.Wire.Tags.{skip_tag_section, write_empty_tag_section}
use gokafka.Wire.Varint.{write_uvarint}
use gokafka.Wire.Writer.{Writer, ◌<+>◌}

pub record Principal : Type 0 where
  pub kind : List ℕ
  pub name : List ℕ

pub record DelegationToken : Type 0 where
  pub owner : Principal
  pub requester : Principal
  pub issue_timestamp : ℤ
  pub expiry_timestamp : ℤ
  pub max_timestamp : ℤ
  pub token_id : List ℕ
  pub hmac : Option (List ℕ)
  pub renewers : List Principal

unfoldable pub write_owner : Option Principal → Writer
write_owner none = ok (write_uvarint 0) <+> ok (write_uvarint 0)
write_owner (some p) = ok (write_compact_string p.kind) <+> ok (write_compact_string p.name)

unfoldable pub write_principal : Principal → Writer
write_principal p =
    ok (write_compact_string p.kind)
    <+> ok (write_compact_string p.name)
    <+> ok write_empty_tag_section

unfoldable pub encode_create_delegation_token_request :
    Option Principal → List Principal → ℤ → Writer
unfolding write_owner write_principal
encode_create_delegation_token_request owner renewers max_lifetime_ms =
    write_owner owner
    <+> write_compact_array write_principal renewers
    <+> ok (write_int64 max_lifetime_ms)
    <+> ok write_empty_tag_section

-- The fields of a token that both responses have.
unfoldable pub read_token : Reader DelegationToken
read_token = do
  owner_kind ← read_compact_string
  owner_name ← read_compact_string
  requester_kind ← read_compact_string
  requester_name ← read_compact_string
  issue ← read_int64
  expiry ← read_int64
  most ← read_int64
  id ← read_compact_string
  hmac ← read_compact_bytes
  pure (record {
    owner = record { kind = owner_kind; name = owner_name };
    requester = record { kind = requester_kind; name = requester_name };
    issue_timestamp = issue;
    expiry_timestamp = expiry;
    max_timestamp = most;
    token_id = id;
    hmac = hmac;
    renewers = [];
  })

-- The tag section at the end of the response is not read.
unfoldable pub decode_create_delegation_token_response : Reader (ℤ × DelegationToken)
unfolding read_token
decode_create_delegation_token_response = do
  code ← read_int16
  t ← read_token
  read_int32
  pure (code, t)

unfoldable pub encode_renew_delegation_token_request : Option (List ℕ) → ℤ → Writer
encode_renew_delegation_token_request hmac period_ms =
    ok (write_compact_bytes hmac) <+> ok (write_int64 period_ms) <+> ok write_empty_tag_section

unfoldable pub encode_expire_delegation_token_request : Option (List ℕ) → ℤ → Writer
encode_expire_delegation_token_request hmac period_ms =
    ok (write_compact_bytes hmac) <+> ok (write_int64 period_ms) <+> ok write_empty_tag_section

unfoldable pub decode_renew_or_expire_delegation_token_response : Reader (ℤ × ℤ)
decode_renew_or_expire_delegation_token_response = do
  code ← read_int16
  expiry ← read_int64
  read_int32
  pure (code, expiry)

unfoldable pub write_owners : Option (List Principal) → Writer
unfolding write_principal
write_owners none = ok (write_uvarint 0)
write_owners (some owners) = write_compact_array write_principal owners

unfoldable pub encode_describe_delegation_token_request : Option (List Principal) → Writer
unfolding write_owners
encode_describe_delegation_token_request owners = write_owners owners <+> ok write_empty_tag_section

unfoldable pub read_renewer : Reader Principal
read_renewer = do
  kind ← read_compact_string
  name ← read_compact_string
  skip_tag_section
  pure (record { kind = kind; name = name })

unfoldable pub read_described_token : Reader DelegationToken
unfolding read_token read_renewer
read_described_token = do
  t ← read_token
  renewers ← read_compact_array read_renewer
  skip_tag_section
  pure (record t { renewers = renewers })

unfoldable pub decode_describe_delegation_token_response : Reader (ℤ × List DelegationToken)
unfolding read_described_token
decode_describe_delegation_token_response = do
  code ← read_int16
  out ← read_compact_array read_described_token
  read_int32
  pure (code, out)
