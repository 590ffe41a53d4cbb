-- ===== src/Protocol/Groups/Commit.antt =====
-- The OffsetCommit request of internal/protocol/groups.go. The offsets are the pairs of the Go maps
-- in the order in which the encoder ranges over them.
use gokafka.Wire.Tags.{write_empty_tag_section}
use gokafka.Protocol.Assignment.{int32_of}
use gokafka.Protocol.Keys.Versions.{ver_offset_commit}
use gokafka.Wire.Ints.{write_int64, write_int32}
use gokafka.Result.{ok}
use gokafka.Wire.Writer.{write_each, ◌<+>◌, Writer}
use gokafka.Wire.Strings.{
  write_compact_nullable_string, write_compact_array_len, write_compact_string, write_string,
  write_nullable_string,
}
use gokafka.Protocol.Groups.Join.{str_ptr}
use gokafka.Prelude.Int.{eqb_ℤ, negsuc, pos, leb_ℤ, at_least, ℤ}
use gokafka.Prelude.{none, ◌&&◌, length, [], if◌then◌else◌, ℕ, List}

abbrev pub Offsets : Type 0
Offsets = List (List ℕ × List (ℤ × ℤ))

-- The arguments of EncodeOffsetCommitRequest after its version.
pub record OffsetCommit : Type 0 where
  pub group : List ℕ
  pub member_id : List ℕ
  pub group_instance_id : List ℕ
  pub generation : ℤ
  pub offsets : Offsets

unfoldable pub write_commit_partition_legacy : ℤ → ℤ × ℤ → Writer
unfolding write_nullable_string
write_commit_partition_legacy ver p =
    ok (write_int32 p.0)
    <+> ok (write_int64 p.1)
    <+> ok (if at_least 6 ver then write_int32 (negsuc 0) else [])
    <+> ok (if eqb_ℤ ver (pos 1) then write_int64 (negsuc 0) else [])
    <+> write_nullable_string none

unfoldable pub encode_offset_commit_request_legacy : ℤ → OffsetCommit → Writer
unfolding str_ptr write_string write_nullable_string write_commit_partition_legacy
encode_offset_commit_request_legacy ver r =
    write_string r.group
    <+> (if at_least 1 ver
        then ok (write_int32 r.generation) <+> write_string r.member_id
        else ok [])
    <+> (if at_least 7 ver then write_nullable_string (str_ptr r.group_instance_id) else ok [])
    <+> ok (if at_least 2 ver && leb_ℤ ver (pos 4) then write_int64 (negsuc 0) else [])
    <+> ok (write_int32 (int32_of (length r.offsets)))
    <+> write_each
        (λ t.
          write_string t.0
          <+> ok (write_int32 (int32_of (length t.1)))
          <+> write_each (write_commit_partition_legacy ver) t.1)
        r.offsets

unfoldable pub write_commit_partition_flex : ℤ → ℤ × ℤ → Writer
write_commit_partition_flex ver p =
    ok (write_int32 p.0)
    <+> ok (write_int64 p.1)
    <+> ok (if at_least 6 ver then write_int32 (negsuc 0) else [])
    <+> ok (write_compact_nullable_string none)
    <+> ok write_empty_tag_section

unfoldable pub write_commit_topic_flex : ℤ → List ℕ × List (ℤ × ℤ) → Writer
unfolding write_commit_partition_flex
write_commit_topic_flex ver t =
    ok (write_compact_string t.0)
    <+> ok (write_compact_array_len (length t.1))
    <+> write_each (write_commit_partition_flex ver) t.1
    <+> ok write_empty_tag_section

-- A missing instance id is the length 0, as in write_compact_nullable_string.
unfoldable pub encode_offset_commit_request_flex : ℤ → OffsetCommit → Writer
unfolding str_ptr write_commit_topic_flex
encode_offset_commit_request_flex ver r =
    ok (write_compact_string r.group)
    <+> ok (write_int32 r.generation)
    <+> ok (write_compact_string r.member_id)
    <+> ok
        (if at_least 7 ver then write_compact_nullable_string (str_ptr r.group_instance_id) else [])
    <+> ok (write_compact_array_len (length r.offsets))
    <+> write_each (write_commit_topic_flex ver) r.offsets
    <+> ok write_empty_tag_section

unfoldable pub encode_offset_commit_request : ℤ → OffsetCommit → Writer
unfolding encode_offset_commit_request_legacy encode_offset_commit_request_flex
encode_offset_commit_request ver r =
    let v = if leb_ℤ ver (pos 0) then ver_offset_commit else ver in
    if at_least 8 v
    then encode_offset_commit_request_flex v r
    else encode_offset_commit_request_legacy v r
