-- ===== src/Kfake/Log.antt =====
-- kfake/store.go, produce.go and fetch.go: the topics of the mock broker and their partition logs.
use gokafka.Wire.Ints.{put_uint64, big_endian}
use gokafka.Prelude.Int.{eqb_ℤ, ◌+ℤ◌, pos_part, to_unsigned, leb_ℤ, negsuc, to_signed, pos, ℤ}
use gokafka.Prelude.{
  true, get_elem?, drop, ◌&&◌, take, replicate, length, false, ◌||◌, set, none, ltb, leb, bytes_eq,
  ◌∷◌, ◌^◌, ◌++◌, some, if◌then◌else◌, ℕ, [], Option, List, Bool,
}
pub mod Fetch

-- partitionLog
pub record PartitionLog : Type 0 where
  pub batches : List (List ℕ)
  pub leo : ℤ

abbrev pub empty_log : PartitionLog
empty_log = record { batches = []; leo = pos 0 }

-- store.topics, a topic being its partitions.
abbrev pub Topics : Type 0
Topics = List ℕ → Option (List PartitionLog)

abbrev pub put_topic : Topics → List ℕ → Option (List PartitionLog) → Topics
put_topic topics name t k = if bytes_eq name k then t else topics k

abbrev pub partition_count : ℤ → ℕ
partition_count n = if leb_ℤ n (pos 0) then 1 else pos_part n

unfoldable pub create_topic : Topics → List ℕ → ℤ → Topics × Bool
create_topic topics name n = elim (topics name) [
  | none ↦ (put_topic topics name (some (replicate (partition_count n) empty_log)), true)
  | some t ↦ (topics, false)
]

unfoldable pub delete_topic : Topics → List ℕ → Topics × Bool
delete_topic topics name = elim (topics name) [
  | none ↦ (topics, false)
  | some t ↦ (put_topic topics name none, true)
]

-- The int32 at byte 57 of a batch that has a whole header.
unfoldable pub batch_record_count : List ℕ → ℤ
batch_record_count batch =
    if ltb (length batch) 61
    then pos 0
    else to_signed (2 ^ 32) (big_endian (take 4 (drop 57 batch)))

unfoldable pub patch_base_offset : List ℕ → ℤ → List ℕ
patch_base_offset batch off =
    if ltb (length batch) 8 then batch else put_uint64 (to_unsigned (2 ^ 64) off) ++ drop 8 batch

-- int64 addition.
abbrev pub add_64 : ℤ → ℤ → ℤ
add_64 a b = to_signed (2 ^ 64) (to_unsigned (2 ^ 64) (a +ℤ b))

-- The append of handleProduce to one partition, with the base offset that it answers.
unfoldable pub append_batch : PartitionLog → List ℕ → PartitionLog × ℤ
append_batch pl batch = (
  record {
    batches = pl.batches ++ patch_base_offset batch pl.leo ∷ [];
    leo = add_64 pl.leo (batch_record_count batch);
  },
  pl.leo,
)

-- The injected fault: its code, and the topic and partition it hits, or all of them.
pub record Fault : Type 0 where
  pub all : Bool
  pub topic : List ℕ
  pub part : ℤ
  pub code : ℤ

abbrev pub hits : Option Fault → List ℕ → ℤ → Option ℤ
hits none name part = none
hits (some f) name part =
    if f.all || (bytes_eq name f.topic && eqb_ℤ part f.part) then some f.code else none

abbrev pub with_log :
    List PartitionLog → ℕ → Option PartitionLog → Option (List PartitionLog × ℕ × PartitionLog)
with_log t n none = none
with_log t n (some pl) = some (t, n, pl)

abbrev pub in_topic : Option (List PartitionLog) → ℕ → Option (List PartitionLog × ℕ × PartitionLog)
in_topic none n = none
in_topic (some t) n = with_log t n (get_elem? t n)

-- A known topic, with a partition that is neither negative nor past its partitions.
abbrev pub partition_of : Topics → List ℕ → ℤ → Option (List PartitionLog × ℕ × PartitionLog)
partition_of topics name (negsuc n) = none
partition_of topics name (pos n) = in_topic (topics name) n

-- errUnknownTopicOrPartition
abbrev pub unknown_topic_or_partition : ℤ
unknown_topic_or_partition = pos 3

abbrev pub append_to :
    Topics → List ℕ → List ℕ → Option (List PartitionLog × ℕ × PartitionLog) → Topics × ℤ × ℤ
append_to topics name batch none = (topics, unknown_topic_or_partition, negsuc 0)
append_to topics name batch (some (t, n, pl)) =
    let (pl', base) = append_batch pl batch in
    (put_topic topics name (some (set t n pl')), pos 0, base)

-- One round of the partition loop of handleProduce: the topics after it, the code and the base offset.
unfoldable pub produce_partition : Topics → Option Fault → List ℕ → ℤ → List ℕ → Topics × ℤ × ℤ
unfolding append_batch
produce_partition topics fault name part batch = elim (hits fault name part) [
  | none ↦ append_to topics name batch (partition_of topics name part)
  | some code ↦ (topics, code, negsuc 0)
]

-- int64(binary.BigEndian.Uint64(batch[:8]))
abbrev pub base_of : List ℕ → ℤ
base_of batch = to_signed (2 ^ 64) (big_endian (take 8 batch))

unfoldable pub collect : ℤ → List (List ℕ) → List ℕ
collect offset [] = []
collect offset (b ∷ batches) =
    let rest = collect offset batches in
    if ltb (length b) 8 then rest else if leb_ℤ offset (base_of b) then b ++ rest else rest

abbrev pub collected : ℤ → Option (List PartitionLog × ℕ × PartitionLog) → List ℕ × ℤ
collected offset none = ([], pos 0)
collected offset (some (t, n, pl)) = (collect offset pl.batches, pl.leo)

unfoldable pub collect_batches : Topics → List ℕ → ℤ → ℤ → List ℕ × ℤ
unfolding collect
collect_batches topics name part offset = collected offset (partition_of topics name part)
