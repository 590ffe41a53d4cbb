-- ===== src/Partitioner.antt =====
-- partitioner.go: the partition of a record's key.
use gokafka.Result.{bind, ok, panic, Result}
use gokafka.Prelude.{◌==◌, zero, ◌+◌, ◌%◌, length, ◌||◌, suc, if◌then◌else◌, bit_and, ◌^◌, ℕ, List}
pub mod Murmur
pub mod Laws
use gokafka.Prelude.Int.{◌-ℤ◌, leb_ℤ, ℤ, pos, negsuc, to_unsigned, to_signed}
use gokafka.Partitioner.Murmur.{murmur2}

-- int32(n) of a 64-bit int.
abbrev pub int32 : ℤ → ℤ
int32 n = to_signed (2 ^ 32) (to_unsigned (2 ^ 32) n)

-- toPositive: v & 0x7fffffff, on the bits of the int32.
abbrev pub to_positive : ℤ → ℤ
to_positive v = to_signed (2 ^ 32) (bit_and (to_unsigned (2 ^ 32) v) 0x7fffffff)

-- Go's % on int32: the sign is that of the dividend, and a zero divisor panics.
abbrev pub rem_int : ℤ → ℤ → Result ℤ
rem_int a (pos zero) = panic
rem_int (pos a) (pos (suc d)) = ok (pos (a % suc d))
rem_int (pos a) (negsuc d) = ok (pos (a % suc d))
rem_int (negsuc a) (pos (suc d)) = ok (pos 0 -ℤ pos (suc a % suc d))
rem_int (negsuc a) (negsuc d) = ok (pos 0 -ℤ pos (suc a % suc d))

-- Go's % on uint32, with the divisor as an int; a zero divisor panics.
abbrev pub rem : ℕ → ℤ → Result ℕ
rem a (pos zero) = panic
rem a (pos (suc d)) = ok (a % suc d)
rem a (negsuc d) = ok (a % suc d)

-- HashPartitioner.Partition
unfoldable pub hash_partition : List ℕ → ℤ → Result ℤ
hash_partition key n =
    if leb_ℤ n (pos 0)
    then ok (pos 0)
    else if length key == 0
    then ok (pos 0)
    else rem_int (to_positive (murmur2 key)) (int32 n)

-- RoundRobinPartitioner.Partition: atomic.AddUint32 returns the new counter. `uint32(n)` may be 0, and
-- int32(v % uint32(n)) may be negative.
unfoldable pub round_robin_partition : ℕ → ℤ → Result ℤ × ℕ
round_robin_partition counter n =
    if leb_ℤ n (pos 0)
    then (ok (pos 0), counter)
    else let v = (counter + 1) % 2 ^ 32 in
      (bind (rem v (pos (to_unsigned (2 ^ 32) n))) λ r. ok (to_signed (2 ^ 32) r), v)

-- CRC32Partitioner.Partition; hash/crc32's ChecksumIEEE is the argument `checksum`.
unfoldable pub crc32_partition : (List ℕ → ℕ) → List ℕ → ℤ → Result ℤ
crc32_partition checksum key n =
    if leb_ℤ n (pos 0) || length key == 0
    then ok (pos 0)
    else bind (rem (checksum key) (pos (to_unsigned (2 ^ 32) n))) λ r. ok (to_signed (2 ^ 32) r)
