-- ===== src/Protocol/Groups/Join.antt =====
-- JoinGroup of internal/protocol/groups.go. A pointer to a string is an Option; a Go map that a
-- decoder fills is the list of the pairs it stores, in the order of the stores.
use gokafka.Wire.Varint.{read_uvarint}
use gokafka.Wire.Tags.{skip_tag_section, write_empty_tag_section}
use gokafka.Wire.Ints.{read_int16, read_int32, write_int32}
use gokafka.Result.{api_error, err, member_id_required, ok, bind, Error}
use gokafka.Wire.Writer.{◌<+>◌, Writer}
use gokafka.Wire.Strings.{
  read_compact_bytes, read_compact_nullable_string, read_bytes, read_string, read_compact_string,
  write_compact_bytes, write_compact_array_len, write_compact_nullable_string, write_bytes,
  write_compact_string, write_nullable_string, write_string,
}
use gokafka.Wire.Reader.{read_times, ◌>>◌, ◌>>=◌, pure, fail, Reader}
use gokafka.Protocol.Assignment.{rounds, encode_consumer_subscription}
use gokafka.Prelude.Int.{eqb_ℤ, leb_ℤ, at_least, pos, ℤ}
use gokafka.Prelude.{
  ◌-◌, ◌&&◌, some, [], ◌∷◌, not, none, codes, Bool, ℕ, if◌then◌else◌, Option, List,
}

-- strPtr
unfoldable pub str_ptr : List ℕ → Option (List ℕ)
str_ptr [] = none
str_ptr (b ∷ s) = some (b ∷ s)

abbrev pub error_code_member_id_required : ℤ
error_code_member_id_required = pos 79

-- The defaults that both encoders put in place of empty and non-positive arguments.
abbrev pub default_assignor : List ℕ → List ℕ
default_assignor [] = codes "range"
default_assignor (b ∷ s) = b ∷ s

abbrev pub default_session_timeout : ℤ → ℤ
default_session_timeout session = if leb_ℤ session (pos 0) then pos 45000 else session

abbrev pub default_rebalance_timeout : ℤ → ℤ → ℤ
default_rebalance_timeout session rebalance = if leb_ℤ rebalance (pos 0) then session else rebalance

-- The arguments of EncodeJoinGroupRequest after its version.
pub record JoinGroup : Type 0 where
  pub group : List ℕ
  pub member_id : List ℕ
  pub assignor : List ℕ
  pub instance_id : List ℕ
  pub topics : List (List ℕ)
  pub session_timeout_ms : ℤ
  pub rebalance_timeout_ms : ℤ
  pub cooperative : Bool

unfoldable pub encode_join_group_request_legacy : ℤ → JoinGroup → Writer
unfolding str_ptr encode_consumer_subscription write_string write_nullable_string
encode_join_group_request_legacy ver r =
    let session = default_session_timeout r.session_timeout_ms in
    bind (encode_consumer_subscription r.topics r.cooperative) λ meta.
      write_string r.group
      <+> ok (write_int32 session)
      <+> ok (write_int32 (default_rebalance_timeout session r.rebalance_timeout_ms))
      <+> write_string r.member_id
      <+> (if at_least 5 ver then write_nullable_string (str_ptr r.instance_id) else ok [])
      <+> write_string (codes "consumer")
      <+> ok (write_int32 (pos 1))
      <+> write_string (default_assignor r.assignor)
      <+> ok (write_bytes (some meta))

unfoldable pub encode_join_group_request_flex : JoinGroup → Writer
unfolding str_ptr encode_consumer_subscription
encode_join_group_request_flex r =
    let session = default_session_timeout r.session_timeout_ms in
    bind (encode_consumer_subscription r.topics r.cooperative) λ meta.
      ok (write_compact_string r.group)
      <+> ok (write_int32 session)
      <+> ok (write_int32 (default_rebalance_timeout session r.rebalance_timeout_ms))
      <+> ok (write_compact_string r.member_id)
      <+> ok (write_compact_nullable_string (str_ptr r.instance_id))
      <+> ok (write_compact_string (codes "consumer"))
      <+> ok (write_compact_array_len 1)
      <+> ok (write_compact_string (default_assignor r.assignor))
      <+> ok (write_compact_bytes (some meta))
      <+> ok write_empty_tag_section
      <+> ok write_empty_tag_section

unfoldable pub encode_join_group_request : ℤ → JoinGroup → Writer
unfolding encode_join_group_request_legacy encode_join_group_request_flex
encode_join_group_request ver r =
    if at_least 6 ver
    then encode_join_group_request_flex r
    else encode_join_group_request_legacy ver r

pub record JoinGroupResponse : Type 0 where
  pub generation_id : ℤ
  pub member_id : List ℕ
  pub leader_id : List ℕ
  pub protocol_name : List ℕ
  pub assignments : List (List ℕ × Option (List ℕ))

-- The response with ErrMemberIDRequired where the broker asks for another join.
abbrev pub joined : ℤ → JoinGroupResponse → JoinGroupResponse × Option Error
joined code r =
    (r, if eqb_ℤ code error_code_member_id_required then some member_id_required else none)

abbrev pub check_join_code : ℤ → Reader (Unit {0})
check_join_code code =
    if not (eqb_ℤ code (pos 0)) && not (eqb_ℤ code error_code_member_id_required)
    then fail (err (api_error code))
    else pure tt

unfoldable pub read_member_legacy : ℤ → Reader (List ℕ × Option (List ℕ))
read_member_legacy ver = do
  mid ← read_string
  if at_least 5 ver then read_string else pure []
  meta ← read_bytes
  pure (mid, meta)

unfoldable pub decode_join_group_response_legacy : ℤ → Reader (JoinGroupResponse × Option Error)
unfolding read_member_legacy
decode_join_group_response_legacy ver = do
  read_int32
  code ← read_int16
  check_join_code code
  gen ← read_int32
  name ← read_string
  leader ← read_string
  member ← read_string
  n ← read_int32
  members ← read_times (rounds n) (read_member_legacy ver)
  pure (
      joined code (record {
        generation_id = gen;
        member_id = member;
        leader_id = leader;
        protocol_name = name;
        assignments = members;
      }))

unfoldable pub read_member_flex : ℤ → Reader (List ℕ × Option (List ℕ))
read_member_flex ver = do
  mid ← read_compact_string
  if at_least 5 ver then read_compact_nullable_string else pure []
  meta ← read_compact_bytes
  skip_tag_section
  pure (mid, meta)

-- What follows the error code.
unfoldable pub read_joined_flex : ℤ → ℤ → Reader (JoinGroupResponse × Option Error)
unfolding read_member_flex
read_joined_flex ver code = do
  gen ← read_int32
  name ← read_compact_string
  leader ← read_compact_string
  member ← read_compact_string
  n ← read_uvarint
  members ← read_times (n - 1) (read_member_flex ver)
  skip_tag_section
  pure (
      joined code (record {
        generation_id = gen;
        member_id = member;
        leader_id = leader;
        protocol_name = name;
        assignments = members;
      }))

unfoldable pub decode_join_group_response_flex : ℤ → Reader (JoinGroupResponse × Option Error)
unfolding read_joined_flex
decode_join_group_response_flex ver = do
  read_int32
  code ← read_int16
  check_join_code code
  read_joined_flex ver code

unfoldable pub decode_join_group_response : ℤ → Reader (JoinGroupResponse × Option Error)
unfolding decode_join_group_response_legacy decode_join_group_response_flex
decode_join_group_response ver =
    if at_least 6 ver
    then decode_join_group_response_flex ver
    else decode_join_group_response_legacy ver
