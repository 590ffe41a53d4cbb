-- ===== src/Partitioner/Laws.antt =====
-- The partitioners return a partition that the topic has.
use gokafka.Prelude.Bits.{bit_and_mask}
use gokafka.Partitioner.Murmur.{murmur_bits, murmur2}
use gokafka.Result.{ok}
use gokafka.Prelude.Int.{to_unsigned, to_signed, pos, leb_ℤ}
use gokafka.Prelude.{
  ◌∙◌, ◌-◌, bit_and, ap, [], suc_ne_zero, refl, ◌∷◌, zero, ◌%◌, suc, length, false, arith, ◌≡◌, ◌+◌,
  ◌^◌, ◌<◌, ℕ, List,
}
use gokafka.Partitioner.{
  rem_int, to_positive, int32, rem, hash_partition, round_robin_partition, crc32_partition,
}
use native.Mathlib.Nat.{mod-lt, mod-eq_of_lt, mod-add-mod}

int32_small : (n : ℕ) → n < 2 ^ 31 → int32 (pos n) ≡ pos n
int32_small n h = ground arith

rem_small : (a n : ℕ) → 0 < n → (r : ℕ) × (rem a (pos n) ≡ ok r) × (r < n)
rem_small a zero h = absurd (omega arith)
rem_small a (suc n) h = (a % suc n, refl, mod-lt a h)

uint32_small : (n : ℕ) → n < 2 ^ 31 → to_unsigned (2 ^ 32) (pos n) ≡ n
uint32_small n h = omega arith

int32_of_rem : (r n : ℕ) → r < n → n < 2 ^ 31 → to_signed (2 ^ 32) r ≡ pos r
int32_of_rem r n h k = ground arith

positive : (n : ℕ) → 0 < n → leb_ℤ (pos n) (pos 0) ≡ false
positive n h = ground arith

-- toPositive of the int32 with the bits h keeps the low 31 of them.
to_positive-to_signed : (h : ℕ) → h < 2 ^ 32 → to_positive (to_signed (2 ^ 32) h) ≡ pos (h % 2 ^ 31)
to_positive-to_signed h small =
    let back : to_unsigned (2 ^ 32) (to_signed (2 ^ 32) h) ≡ h = ground arith in
    let low : bit_and h (2 ^ 31 - 1) ≡ h % 2 ^ 31 = bit_and_mask 31 h in
    let fits : to_signed (2 ^ 32) (h % 2 ^ 31) ≡ pos (h % 2 ^ 31) = ground arith in
    ap (λ u. to_signed (2 ^ 32) (bit_and u 0x7fffffff)) back ∙ ap (to_signed (2 ^ 32)) low ∙ fits

murmur_bits_small : (key : List ℕ) → murmur_bits key < 2 ^ 32
unfolding murmur_bits
murmur_bits_small key = omega arith

rem_int_small : (a n : ℕ) → 0 < n → rem_int (pos a) (pos n) ≡ ok (pos (a % n))
rem_int_small a zero h = absurd (omega arith)
rem_int_small a (suc n) h = refl

-- On a topic with 0 < n < 2^31 partitions HashPartitioner returns, for a key that is not empty, the low
-- 31 bits of the key's murmur2 hash modulo n, also where that hash is a negative int32, and this is one
-- of the partitions 0 to n - 1; for the empty key it returns partition 0.
pub hash_partition_range :
    (b : ℕ) (key : List ℕ) (n : ℕ)
    → 0 < n
    → n < 2 ^ 31
    → (hash_partition (b ∷ key) (pos n) ≡ ok (pos (murmur_bits (b ∷ key) % 2 ^ 31 % n)))
      × (murmur_bits (b ∷ key) % 2 ^ 31 % n < n)
      × (hash_partition [] (pos n) ≡ ok (pos 0))
unfolding hash_partition murmur2
hash_partition_range b key n h k = (
  rw (positive n h, suc_ne_zero (length key), int32_small n k)
      (ap (λ v. rem_int v (pos n))
          (to_positive-to_signed (murmur_bits (b ∷ key)) (murmur_bits_small (b ∷ key)))
        ∙ rem_int_small (murmur_bits (b ∷ key) % 2 ^ 31) n h),
  mod-lt (murmur_bits (b ∷ key) % 2 ^ 31) h,
  rw (positive n h),
)

-- On a topic with 0 < n < 2^31 partitions CRC32Partitioner returns a partition below n for every key,
-- whatever the checksum, and partition 0 for the empty key.
pub crc32_partition_range :
    (checksum : List ℕ → ℕ) (key : List ℕ) (n : ℕ)
    → 0 < n
    → n < 2 ^ 31
    → (p : ℕ) × (crc32_partition checksum key (pos n) ≡ ok (pos p))
      × (p < n)
      × (crc32_partition checksum [] (pos n) ≡ ok (pos 0))
unfolding crc32_partition
crc32_partition_range checksum [] n h k = (0, rw (positive n h), h, rw (positive n h))
crc32_partition_range checksum (b ∷ key) n h k =
    let (p, e, lt) = rem_small (checksum (b ∷ key)) n h in
    (
      p,
      rw (positive n h, suc_ne_zero (length key), uint32_small n k, e, int32_of_rem p n lt k),
      lt,
      rw (positive n h),
    )

round_robin_value :
    (c n : ℕ)
    → 0 < n
    → n < 2 ^ 31
    → c + 1 < 2 ^ 32
    → round_robin_partition c (pos n) ≡ (ok (pos ((c + 1) % n)), c + 1)
unfolding round_robin_partition
round_robin_value c zero h k b = absurd (omega arith)
round_robin_value c (suc n) h k b = rw (
  positive (suc n) h,
  uint32_small (suc n) k,
  mod-eq_of_lt b,
  int32_of_rem ((c + 1) % suc n) (suc n) (mod-lt (c + 1) h) k,
)

-- While the uint32 counter does not wrap, RoundRobinPartitioner returns partitions below n, and the
-- call after one that returned p returns (p + 1) % n.
pub round_robin_cycle :
    (c n : ℕ)
    → 0 < n
    → n < 2 ^ 31
    → c + 2 < 2 ^ 32
    → (p : ℕ) × ((round_robin_partition c (pos n)).0 ≡ ok (pos p))
      × (p < n)
      × ((round_robin_partition (round_robin_partition c (pos n)).1 (pos n)).0
          ≡ ok (pos ((p + 1) % n)))
round_robin_cycle c n h k b = (
  (c + 1) % n,
  rw (round_robin_value c n h k (omega arith)),
  mod-lt (c + 1) h,
  rw (
    round_robin_value c n h k (omega arith),
    round_robin_value (c + 1) n h k (omega arith),
    mod-add-mod (c + 1) n 1,
  ),
)
