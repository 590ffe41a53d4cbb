-- ===== src/Protocol/TxnApi/Commit.antt =====
-- TxnOffsetCommit, and the responses of internal/protocol/transaction.go that carry a code for each
-- partition.
use gokafka.Protocol.Keys.Versions.{ver_txn_offset_commit, ver_add_partitions_txn}
use gokafka.Prelude.{if◌then◌else◌, List, [], ℕ, none, length, ltb, ◌-◌}
use gokafka.Prelude.Int.{ℤ, negsuc, at_least}
use gokafka.Protocol.Arrays.{write_array, write_compact_array, default_version}
use gokafka.Protocol.Assignment.{rounds}
use gokafka.Protocol.Groups.CommitResponse.{
  first_code, topic_code_legacy, topic_code_flex, skip_tags_if_none, code_of,
}
use gokafka.Protocol.TxnApi.{TxnProducer, retry_flex}
use gokafka.Result.{ok}
use gokafka.Wire.Ints.{read_int32, write_int16, write_int32, write_int64}
use gokafka.Wire.Reader.{Reader, pure, ◌>>=◌, ◌>>◌}
use gokafka.Wire.Strings.{
  write_string, write_nullable_string, write_compact_string, write_compact_nullable_string,
}
use gokafka.Wire.Tags.{write_empty_tag_section}
use gokafka.Wire.Varint.{read_uvarint, write_uvarint}
use gokafka.Wire.Writer.{Writer, ◌<+>◌}

pub record TxnCommittedOffset : Type 0 where
  pub topic : List ℕ
  pub partition : ℤ
  pub offset : ℤ

pub record TxnOffsetCommitMeta : Type 0 where
  pub generation : ℤ
  pub member_id : List ℕ
  pub group_instance_id : List ℕ

-- The arguments of EncodeTxnOffsetCommit after its version. The offsets stand by topic, as
-- txnOffsetsByTopic groups them, in the order in which txnOffsetTopicOrder ranges over the map.
pub record TxnOffsetCommit : Type 0 where
  pub producer : TxnProducer
  pub group : List ℕ
  pub meta : TxnOffsetCommitMeta
  pub offsets : List (List ℕ × List TxnCommittedOffset)

unfoldable pub write_txn_offset_legacy : ℤ → TxnCommittedOffset → Writer
write_txn_offset_legacy ver o =
    ok (write_int32 o.partition)
    <+> ok (write_int64 o.offset)
    <+> ok (if at_least 2 ver then write_int32 (negsuc 0) else [])
    <+> write_nullable_string none

unfoldable pub encode_txn_offset_commit_legacy : ℤ → TxnOffsetCommit → Writer
unfolding write_txn_offset_legacy
encode_txn_offset_commit_legacy ver r =
    write_string r.producer.txn_id
    <+> write_string r.group
    <+> ok (write_int64 r.producer.id)
    <+> ok (write_int16 r.producer.epoch)
    <+> write_array (λ t. write_string t.0 <+> write_array (write_txn_offset_legacy ver) t.1)
        r.offsets

unfoldable pub write_txn_offset_flex : ℤ → TxnCommittedOffset → Writer
write_txn_offset_flex ver o =
    ok (write_int32 o.partition)
    <+> ok (write_int64 o.offset)
    <+> ok (if at_least 2 ver then write_int32 (negsuc 0) else [])
    <+> ok (write_compact_nullable_string none)
    <+> ok write_empty_tag_section

unfoldable pub write_txn_meta : TxnOffsetCommitMeta → Writer
write_txn_meta m =
    ok (write_int32 m.generation)
    <+> ok (write_compact_string m.member_id)
    <+> ok (
        if ltb 0 (length m.group_instance_id)
        then write_compact_string m.group_instance_id
        else write_uvarint 0)

unfoldable pub encode_txn_offset_commit_flex : ℤ → TxnOffsetCommit → Writer
unfolding write_txn_offset_flex write_txn_meta
encode_txn_offset_commit_flex ver r =
    ok (write_compact_string r.producer.txn_id)
    <+> ok (write_compact_string r.group)
    <+> ok (write_int64 r.producer.id)
    <+> ok (write_int16 r.producer.epoch)
    <+> (if at_least 3 ver then write_txn_meta r.meta else ok [])
    <+> write_compact_array
        (λ t.
          ok (write_compact_string t.0)
          <+> write_compact_array (write_txn_offset_flex ver) t.1
          <+> ok write_empty_tag_section)
        r.offsets
    <+> ok write_empty_tag_section

unfoldable pub encode_txn_offset_commit : ℤ → TxnOffsetCommit → Writer
unfolding encode_txn_offset_commit_flex encode_txn_offset_commit_legacy
encode_txn_offset_commit ver r =
    let v = default_version ver_txn_offset_commit ver in
    if at_least 3 v then encode_txn_offset_commit_flex v r else encode_txn_offset_commit_legacy v r

-- The first code of a partition that is not 0, or 0.
unfoldable pub decode_txn_offset_commit_legacy : Reader ℤ
decode_txn_offset_commit_legacy = do
  read_int32
  n ← read_int32
  found ← first_code (rounds n) topic_code_legacy
  pure (code_of found)

unfoldable pub decode_txn_offset_commit_flex : Reader ℤ
decode_txn_offset_commit_flex = do
  read_int32
  n ← read_uvarint
  found ← first_code (n - 1) topic_code_flex
  last ← skip_tags_if_none found
  pure (code_of last)

unfoldable pub decode_txn_offset_commit : ℤ → Reader ℤ
unfolding decode_txn_offset_commit_flex decode_txn_offset_commit_legacy
decode_txn_offset_commit ver body =
    if at_least 3 (default_version ver_txn_offset_commit ver)
    then decode_txn_offset_commit_flex body
    else retry_flex decode_txn_offset_commit_flex body (decode_txn_offset_commit_legacy body)

unfoldable pub decode_add_partitions_to_txn_legacy : Reader ℤ
decode_add_partitions_to_txn_legacy = do
  read_int32
  n ← read_int32
  found ← first_code (rounds n) topic_code_legacy
  pure (code_of found)

unfoldable pub decode_add_partitions_to_txn_flex : Reader ℤ
decode_add_partitions_to_txn_flex = do
  read_int32
  n ← read_uvarint
  found ← first_code (n - 1) topic_code_flex
  last ← skip_tags_if_none found
  pure (code_of last)

unfoldable pub decode_add_partitions_to_txn : Reader ℤ
unfolding decode_add_partitions_to_txn_flex decode_add_partitions_to_txn_legacy
decode_add_partitions_to_txn =
    if at_least 3 ver_add_partitions_txn
    then decode_add_partitions_to_txn_flex
    else decode_add_partitions_to_txn_legacy
