-- ===== src/Protocol/ProduceApi.antt =====
-- The Produce messages of internal/protocol/produce.go.
pub mod Response
use gokafka.Compress.{Codecs}
use gokafka.Prelude.{
  ℕ, ◌&&◌, not, Bool, if◌then◌else◌, bytes_eq, List, [], ◌∷◌, length, ltb, ◌==◌, Option, some, none,
}
use gokafka.Prelude.Int.{ℤ, pos, leb_ℤ, eqb_ℤ, at_least}
use gokafka.Protocol.Arrays.{write_array, write_compact_array, group_by}
use gokafka.Protocol.Batch.{BatchSettings, Clock, encode_record_batch}
use gokafka.Protocol.Records.{ProduceRecord}
use gokafka.Result.{Result, ok, bind}
use gokafka.Wire.Ints.{write_int16, write_int32}
use gokafka.Wire.Strings.{
  write_string, write_nullable_string, write_bytes, write_compact_string,
  write_compact_nullable_string, write_compact_bytes,
}
use gokafka.Wire.Tags.{write_empty_tag_section}
use gokafka.Wire.Writer.{Writer, ◌<+>◌}

-- The fields of ProduceSettings around those of a batch, whose `sequenced` says whether NextSequence
-- is set; NextSequence is then next_sequence.
pub record ProduceSettings : Type 0 where
  pub acks : ℤ
  pub timeout_ms : ℤ
  pub transactional_id : List ℕ
  pub next_sequence : List ℕ → ℤ → ℤ
  pub batch : BatchSettings

-- settings.Transactional && settings.TransactionalID != ""
abbrev pub has_transactional_id : ProduceSettings → Bool
has_transactional_id s = s.batch.transactional && ltb 0 (length s.transactional_id)

unfoldable pub write_produce_transactional_id : ProduceSettings → Writer
write_produce_transactional_id s =
    if has_transactional_id s then write_string s.transactional_id else write_nullable_string none

unfoldable pub group_by_partition : List ProduceRecord → List (ℤ × List ProduceRecord)
group_by_partition = group_by eqb_ℤ (λ r. r.partition)

unfoldable pub group_by_topic : List ProduceRecord → List (List ℕ × List ProduceRecord)
group_by_topic = group_by bytes_eq (λ r. r.topic)

-- pg.records[0].Topic is the topic of the group.
abbrev pub sequence_of : ProduceSettings → List ℕ → ℤ → ℤ
sequence_of s topic partition = if s.batch.sequenced then s.next_sequence topic partition else pos 0

module _ (lib : Codecs) (checksum : List ℕ → ℕ) (clock : Clock) (s : ProduceSettings) where
  abbrev pub batch_of : List ℕ → ℤ × List ProduceRecord → Result (List ℕ)
  batch_of topic (partition, records) =
      encode_record_batch lib checksum clock s.batch (sequence_of s topic partition) records

  unfoldable pub write_produce_topic_legacy : List ℕ × List ProduceRecord → Writer
  unfolding group_by_partition
  write_produce_topic_legacy (topic, parts) =
      write_string topic
      <+> write_array
          (λ pg.
            bind (batch_of topic pg)
              λ batch. ok (write_int32 pg.0) <+> ok (write_bytes (some batch)))
          (group_by_partition parts)

  unfoldable pub encode_produce_request_legacy : List ProduceRecord → Writer
  unfolding write_produce_transactional_id write_produce_topic_legacy group_by_topic
  encode_produce_request_legacy records =
      write_produce_transactional_id s
      <+> ok (write_int16 s.acks)
      <+> ok (write_int32 s.timeout_ms)
      <+> write_array write_produce_topic_legacy (group_by_topic records)

  unfoldable pub write_produce_topic_flex : List ℕ × List ProduceRecord → Writer
  unfolding group_by_partition
  write_produce_topic_flex (topic, parts) =
      ok (write_compact_string topic)
      <+> write_compact_array
          (λ pg. bind (batch_of topic pg) λ batch.
            ok (write_int32 pg.0)
            <+> ok (write_compact_bytes (some batch))
            <+> ok write_empty_tag_section)
          (group_by_partition parts)
      <+> ok write_empty_tag_section

  unfoldable pub encode_produce_request_flex : List ProduceRecord → Writer
  unfolding write_produce_topic_flex group_by_topic
  encode_produce_request_flex records =
      ok (
        if has_transactional_id s
        then write_compact_string s.transactional_id
        else write_compact_nullable_string none)
      <+> ok (write_int16 s.acks)
      <+> ok (write_int32 s.timeout_ms)
      <+> write_compact_array write_produce_topic_flex (group_by_topic records)
      <+> ok write_empty_tag_section

-- A timeout that is not positive is replaced by 30 seconds.
unfoldable pub encode_produce_request :
    Codecs → (List ℕ → ℕ) → Clock → ℤ → List ProduceRecord → ProduceSettings → Writer
unfolding encode_produce_request_flex encode_produce_request_legacy
encode_produce_request lib checksum clock api_version records s =
    let s' : ProduceSettings = record s {
      timeout_ms = if leb_ℤ s.timeout_ms (pos 0) then pos 30000 else s.timeout_ms;
    } in
    if at_least 9 api_version
    then encode_produce_request_flex lib checksum clock s' records
    else encode_produce_request_legacy lib checksum clock s' records
