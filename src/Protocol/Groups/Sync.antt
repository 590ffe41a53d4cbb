-- ===== src/Protocol/Groups/Sync.antt =====
-- SyncGroup of internal/protocol/groups.go. The assignments are the pairs of the Go map in the order
-- in which the encoder ranges over it.
use gokafka.Wire.Tags.{skip_tag_section, write_empty_tag_section}
use gokafka.Protocol.Assignment.{int32_of}
use gokafka.Wire.Ints.{read_int16, read_int32, write_int32}
use gokafka.Result.{api_error, err, ok}
use gokafka.Wire.Writer.{write_each, ◌<+>◌, Writer}
use gokafka.Wire.Strings.{
  read_compact_bytes, read_compact_nullable_string, read_bytes, write_bytes,
  write_compact_array_len, write_compact_nullable_string, write_compact_bytes, write_compact_string,
  write_nullable_string, write_string,
}
use gokafka.Wire.Reader.{◌>>=◌, ◌>>◌, fail, pure, Reader}
use gokafka.Protocol.Groups.Join.{str_ptr}
use gokafka.Prelude.Int.{pos, eqb_ℤ, at_least, ℤ}
use gokafka.Prelude.{◌++◌, length, codes, some, [], ℕ, if◌then◌else◌, Option, List}

-- The arguments of EncodeSyncGroupRequest after its version.
pub record SyncGroup : Type 0 where
  pub group : List ℕ
  pub member_id : List ℕ
  pub protocol_name : List ℕ
  pub group_instance_id : List ℕ
  pub generation : ℤ
  pub assignments : List (List ℕ × List ℕ)

unfoldable pub encode_sync_group_request_legacy : ℤ → SyncGroup → Writer
unfolding str_ptr write_string write_nullable_string
encode_sync_group_request_legacy ver r =
    write_string r.group
    <+> ok (write_int32 r.generation)
    <+> write_string r.member_id
    <+> (if at_least 3 ver then write_nullable_string (str_ptr r.group_instance_id) else ok [])
    <+> ok (write_int32 (int32_of (length r.assignments)))
    <+> write_each (λ a. write_string a.0 <+> ok (write_bytes (some a.1))) r.assignments

unfoldable pub write_assignment_flex : List ℕ × List ℕ → Writer
write_assignment_flex a =
    ok (write_compact_string a.0)
    <+> ok (write_compact_bytes (some a.1))
    <+> ok write_empty_tag_section

unfoldable pub encode_sync_group_request_flex : ℤ → SyncGroup → Writer
unfolding str_ptr write_assignment_flex
encode_sync_group_request_flex ver r =
    ok (write_compact_string r.group)
    <+> ok (write_int32 r.generation)
    <+> ok (write_compact_string r.member_id)
    <+> ok
        (if at_least 3 ver then write_compact_nullable_string (str_ptr r.group_instance_id) else [])
    <+> ok (
        if at_least 5 ver
        then write_compact_string (codes "consumer") ++ write_compact_string r.protocol_name
        else [])
    <+> ok (write_compact_array_len (length r.assignments))
    <+> write_each write_assignment_flex r.assignments
    <+> ok write_empty_tag_section

unfoldable pub encode_sync_group_request : ℤ → SyncGroup → Writer
unfolding encode_sync_group_request_legacy encode_sync_group_request_flex
encode_sync_group_request ver r =
    if at_least 4 ver
    then encode_sync_group_request_flex ver r
    else encode_sync_group_request_legacy ver r

-- if errCode != 0 { return nil, apiError(…) }
abbrev pub check_code : ℤ → Reader (Unit {0})
check_code code = if eqb_ℤ code (pos 0) then pure tt else fail (err (api_error code))

unfoldable pub decode_sync_group_response_legacy : Reader (Option (List ℕ))
decode_sync_group_response_legacy = do read_int32; code ← read_int16; check_code code; read_bytes

unfoldable pub decode_sync_group_response_flex : ℤ → Reader (Option (List ℕ))
decode_sync_group_response_flex ver = do
  read_int32
  code ← read_int16
  check_code code
  if at_least 5 ver then (read_compact_nullable_string >> read_compact_nullable_string) else pure []
  assignment ← read_compact_bytes
  skip_tag_section
  pure assignment

unfoldable pub decode_sync_group_response : ℤ → Reader (Option (List ℕ))
unfolding decode_sync_group_response_legacy decode_sync_group_response_flex
decode_sync_group_response ver =
    if at_least 4 ver
    then decode_sync_group_response_flex ver
    else decode_sync_group_response_legacy
