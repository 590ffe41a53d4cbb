-- ===== src/Protocol/TxnApi.antt =====
-- The transaction messages of internal/protocol/transaction.go.
use gokafka.Protocol.Keys.Versions.{
  ver_init_producer_id, ver_end_txn, ver_add_partitions_txn, ver_add_offsets_to_txn,
}
pub mod Commit
use gokafka.Prelude.{if◌then◌else◌, Bool, List, [], ℕ, Option, none, some, ◌-◌}
use gokafka.Prelude.Int.{ℤ, pos, negsuc, at_least}
use gokafka.Protocol.Arrays.{
  write_array, write_compact_array, write_int32_element, default_version, skip_when,
}
use gokafka.Protocol.Assignment.{TopicPartitions}
use gokafka.Protocol.Groups.Sync.{check_code}
use gokafka.Result.{Result, ok, err, panic}
use gokafka.Transaction.State.{ProducerId, EndTxnResult}
use gokafka.Wire.Ints.{
  read_int16, read_int32, read_int64, write_int16, write_int32, write_int64, write_bool,
}
use gokafka.Wire.Reader.{Reader, pure, ◌>>=◌, ◌>>◌}
use gokafka.Wire.Strings.{
  write_string, write_nullable_string, write_compact_string, write_compact_nullable_string,
}
use gokafka.Wire.Tags.{skip_tag_section, write_empty_tag_section}
use gokafka.Wire.Writer.{Writer, ◌<+>◌}

unfoldable pub encode_init_producer_id : Option (List ℕ) → ℤ → Writer
encode_init_producer_id txn_id timeout_ms =
    if at_least 2 ver_init_producer_id
    then ok (write_compact_nullable_string txn_id)
      <+> ok (write_int32 timeout_ms)
      <+> ok write_empty_tag_section
    else write_nullable_string txn_id <+> ok (write_int32 timeout_ms)

unfoldable pub decode_init_producer_id : Reader ProducerId
decode_init_producer_id = do
  read_int32
  code ← read_int16
  check_code code
  id ← read_int64
  epoch ← read_int16
  skip_when (at_least 2 ver_init_producer_id) (skip_tag_section)
  pure (record { id = id; epoch = epoch })

-- The producer as the transaction coordinator knows it.
pub record TxnProducer : Type 0 where
  pub txn_id : List ℕ
  pub id : ℤ
  pub epoch : ℤ

unfoldable pub encode_end_txn_legacy : TxnProducer → Bool → Writer
encode_end_txn_legacy p commit =
    write_string p.txn_id
    <+> ok (write_int64 p.id)
    <+> ok (write_int16 p.epoch)
    <+> ok (write_bool commit)

unfoldable pub encode_end_txn_flex : TxnProducer → Bool → Writer
encode_end_txn_flex p commit =
    ok (write_compact_string p.txn_id)
    <+> ok (write_int64 p.id)
    <+> ok (write_int16 p.epoch)
    <+> ok (write_bool commit)
    <+> ok write_empty_tag_section

unfoldable pub encode_end_txn : ℤ → TxnProducer → Bool → Writer
unfolding encode_end_txn_flex encode_end_txn_legacy
encode_end_txn ver p commit =
    if at_least 3 (default_version ver_end_txn ver)
    then encode_end_txn_flex p commit
    else encode_end_txn_legacy p commit

-- The code, and the rest of the result.
unfoldable pub decode_end_txn : ℤ → Reader (ℤ × EndTxnResult)
decode_end_txn version = do
  read_int32
  code ← read_int16
  id ← (if at_least 5 (default_version ver_end_txn version) then read_int64 else pure (negsuc 0))
  epoch ← (if at_least 5 (default_version ver_end_txn version) then read_int16 else pure (negsuc 0))
  skip_when (at_least 3 (default_version ver_end_txn version)) (skip_tag_section)
  pure (code, record { producer_id = id; producer_epoch = epoch })

unfoldable pub encode_add_partitions_to_txn_legacy : TxnProducer → List (List ℕ × List ℤ) → Writer
encode_add_partitions_to_txn_legacy p topics =
    write_string p.txn_id
    <+> ok (write_int64 p.id)
    <+> ok (write_int16 p.epoch)
    <+> write_array (λ t. write_string t.0 <+> write_array write_int32_element t.1) topics

unfoldable pub encode_add_partitions_to_txn_flex : TxnProducer → List (List ℕ × List ℤ) → Writer
encode_add_partitions_to_txn_flex p topics =
    ok (write_compact_string p.txn_id)
    <+> ok (write_int64 p.id)
    <+> ok (write_int16 p.epoch)
    <+> write_compact_array
        (λ t.
          ok (write_compact_string t.0)
          <+> write_compact_array write_int32_element t.1
          <+> ok write_empty_tag_section)
        topics
    <+> ok write_empty_tag_section

unfoldable pub encode_add_partitions_to_txn : TxnProducer → List (List ℕ × List ℤ) → Writer
unfolding encode_add_partitions_to_txn_flex encode_add_partitions_to_txn_legacy
encode_add_partitions_to_txn p topics =
    if at_least 3 ver_add_partitions_txn
    then encode_add_partitions_to_txn_flex p topics
    else encode_add_partitions_to_txn_legacy p topics

unfoldable pub encode_add_offsets_to_txn : ℤ → TxnProducer → List ℕ → Writer
encode_add_offsets_to_txn ver p group =
    if at_least 3 (default_version ver_add_offsets_to_txn ver)
    then ok (write_compact_string p.txn_id)
      <+> ok (write_int64 p.id)
      <+> ok (write_int16 p.epoch)
      <+> ok (write_compact_string group)
      <+> ok write_empty_tag_section
    else write_string p.txn_id
      <+> ok (write_int64 p.id)
      <+> ok (write_int16 p.epoch)
      <+> write_string group

unfoldable pub decode_add_offsets_to_txn_legacy : Reader ℤ
decode_add_offsets_to_txn_legacy = do read_int32; code ← read_int16; pure code

unfoldable pub decode_add_offsets_to_txn_flex : Reader ℤ
decode_add_offsets_to_txn_flex = do read_int32; code ← read_int16; skip_tag_section; pure code

-- Where the legacy decoder fails, with no code, the bytes are decoded again.
abbrev pub retry_flex : Reader ℤ → List ℕ → Result (ℤ × List ℕ) → Result (ℤ × List ℕ)
retry_flex flex body (ok r) = ok r
retry_flex flex body (err e) = flex body
retry_flex flex body panic = panic

unfoldable pub decode_add_offsets_to_txn : ℤ → Reader ℤ
unfolding decode_add_offsets_to_txn_flex decode_add_offsets_to_txn_legacy
decode_add_offsets_to_txn ver body =
    if at_least 3 (default_version ver_add_offsets_to_txn ver)
    then decode_add_offsets_to_txn_flex body
    else retry_flex decode_add_offsets_to_txn_flex body (decode_add_offsets_to_txn_legacy body)
