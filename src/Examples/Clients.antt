-- ===== src/Examples/Clients.antt =====
-- The partitioners and the sequence numbers at concrete values.
use gokafka.Partitioner.Laws.{round_robin_cycle, hash_partition_range, crc32_partition_range}
use gokafka.Result.{ok}
use gokafka.Produce.Laws.{
  reserve_block_overflow, reserve_block_contiguous, rollback_block-reserve_block,
}
use gokafka.Prelude.Int.{negsuc, pos}
use gokafka.Partitioner.{round_robin_partition, hash_partition, crc32_partition}
use gokafka.Produce.{key_eq, rollback_block, reserve_sequence, reserve_block, Sequences, SeqKey}
use gokafka.Prelude.{◌%◌, ◌+◌, [], ◌<◌, refl, arith, ◌-◌, if◌then◌else◌, ◌≡◌, ◌^◌, length, codes, ℕ}
use gokafka.Partitioner.Murmur.{murmur_bits, murmur2}

-- A known hash of the Java client: murmur2("21") is -973932308.
murmur2_21 : murmur2 (codes "21") ≡ negsuc 973932307
unfolding murmur2 murmur_bits
murmur2_21 = refl

murmur2_foobar : murmur2 (codes "foobar") ≡ negsuc 790332481
unfolding murmur2 murmur_bits
murmur2_foobar = refl

-- The hash of the key is negative.
hash_partition_range_example :
    (hash_partition (codes "foobar") (pos 12)
      ≡ ok (pos (murmur_bits (codes "foobar") % 2 ^ 31 % 12)))
    × (murmur_bits (codes "foobar") % 2 ^ 31 % 12 < 12)
    × (hash_partition [] (pos 12) ≡ ok (pos 0))
hash_partition_range_example =
    hash_partition_range 102 (codes "oobar") 12 (omega arith) (omega arith)

crc32_partition_range_test :
    (p : ℕ) × (crc32_partition length (codes "foobar") (pos 4) ≡ ok (pos p))
    × (p < 4)
    × (crc32_partition length [] (pos 4) ≡ ok (pos 0))
crc32_partition_range_test =
    crc32_partition_range length (codes "foobar") 4 (omega arith) (omega arith)

round_robin_cycle_example :
    (p : ℕ) × ((round_robin_partition 6 (pos 3)).0 ≡ ok (pos p))
    × (p < 3)
    × ((round_robin_partition (round_robin_partition 6 (pos 3)).1 (pos 3)).0
        ≡ ok (pos ((p + 1) % 3)))
round_robin_cycle_example = round_robin_cycle 6 3 (omega arith) (omega arith) (omega arith)

abbrev orders_0 : SeqKey
orders_0 = record { topic = codes "orders"; part = pos 0 }

abbrev at_nine : Sequences
at_nine k = pos 9

rollback_block-reserve_block_example :
    rollback_block (reserve_block at_nine orders_0 (pos 5)).0 orders_0 (pos 5) orders_0 ≡ pos 9
rollback_block-reserve_block_example =
    rollback_block-reserve_block at_nine orders_0 (pos 5) 9 (omega arith) refl (omega arith)
      orders_0

reserve_block_contiguous_example :
    ((reserve_block at_nine orders_0 (pos 2)).1 ≡ pos 9)
    × ((reserve_block (reserve_block at_nine orders_0 (pos 2)).0 orders_0 (pos 3)).1 ≡ pos 11)
    × (reserve_sequence
          (reserve_block (reserve_block at_nine orders_0 (pos 2)).0 orders_0 (pos 3)).0
          orders_0
        ≡ pos 14)
    × ((k : SeqKey)
        → reserve_sequence
            (reserve_block (reserve_block at_nine orders_0 (pos 2)).0 orders_0 (pos 3)).0
            k
          ≡ (if key_eq orders_0 k then pos 14 else pos 9))
reserve_block_contiguous_example =
    reserve_block_contiguous at_nine orders_0 9 2 3 refl (omega arith)

reserve_block_overflow_test :
    reserve_sequence (reserve_block at_nine orders_0 (pos (2 ^ 31 - 1))).0 orders_0
    ≡ negsuc (2 ^ 32 - 1 - (9 + (2 ^ 31 - 1)))
reserve_block_overflow_test =
    reserve_block_overflow at_nine orders_0 9 (2 ^ 31 - 1) refl (omega arith) (omega arith)
      (omega arith)
