-- ===== src/Wire/Ints/RoundTrip.antt =====
-- The fixed-width integers read back what was written.
use gokafka.Prelude.{ℕ, ◌^◌, ◌<◌, ◌≡◌, ap, ◌∙◌, Bool, true, false, List, [], ◌∷◌, ◌++◌, arith}
use gokafka.Prelude.{length}
use gokafka.Prelude.Int.{ℤ, pos, negsuc, to_unsigned, to_signed, IsSigned, to_signed-to_unsigned_32}
use gokafka.Wire.Reader.{read_raw}
use gokafka.Wire.Reader.Laws.{Reads, read_raw-append, read_fixed}
use gokafka.Wire.Ints.{
  big_endian, put_uint16, put_uint32, put_uint64, read_int8, read_int16, read_int32,
}
use gokafka.Wire.Ints.{
  read_int64, read_bool, read_float64, read_uuid, write_int8, write_int16, write_int32,
}
use gokafka.Wire.Ints.{write_int64, write_bool, write_float64, write_uuid}

pub big_endian-put_uint64 : (u : ℕ) → u < 2 ^ 64 → big_endian (put_uint64 u) ≡ u
big_endian-put_uint64 u h = omega arith

signed_8 : (v : ℤ) → IsSigned (2 ^ 8) v → to_signed (2 ^ 8) (to_unsigned (2 ^ 8) v) ≡ v
signed_8 (pos n) h = ground arith
signed_8 (negsuc n) h = ground arith

signed_16 : (v : ℤ) → IsSigned (2 ^ 16) v → to_signed (2 ^ 16) (to_unsigned (2 ^ 16) v) ≡ v
signed_16 (pos n) h = ground arith
signed_16 (negsuc n) h = ground arith

pub signed_64 : (v : ℤ) → IsSigned (2 ^ 64) v → to_signed (2 ^ 64) (to_unsigned (2 ^ 64) v) ≡ v
signed_64 (pos n) h = ground arith
signed_64 (negsuc n) h = ground arith

pub to_unsigned_64-lt : (v : ℤ) → to_unsigned (2 ^ 64) v < 2 ^ 64
to_unsigned_64-lt (pos n) = omega arith
to_unsigned_64-lt (negsuc n) = omega arith

pub to_unsigned_32-lt : (v : ℤ) → to_unsigned (2 ^ 32) v < 2 ^ 32
to_unsigned_32-lt (pos n) = omega arith
to_unsigned_32-lt (negsuc n) = omega arith

to_unsigned_16-lt : (v : ℤ) → to_unsigned (2 ^ 16) v < 2 ^ 16
to_unsigned_16-lt (pos n) = omega arith
to_unsigned_16-lt (negsuc n) = omega arith

one_byte : (u : ℕ) → big_endian (u ∷ []) ≡ u
one_byte u = omega arith

pub read_int8-write_int8 : (v : ℤ) → IsSigned (2 ^ 8) v → Reads read_int8 (write_int8 v) v
unfolding read_int8 write_int8
read_int8-write_int8 v h =
    read_fixed (λ b. to_signed (2 ^ 8) (big_endian b)) (to_unsigned (2 ^ 8) v ∷ []) v
      (ap (to_signed (2 ^ 8)) (one_byte (to_unsigned (2 ^ 8) v)) ∙ signed_8 v h)

be16 : (u : ℕ) → u < 2 ^ 16 → big_endian (put_uint16 u) ≡ u
be16 u h = omega arith

pub read_int16-write_int16 : (v : ℤ) → IsSigned (2 ^ 16) v → Reads read_int16 (write_int16 v) v
unfolding read_int16 write_int16
read_int16-write_int16 v h =
    read_fixed (λ b. to_signed (2 ^ 16) (big_endian b)) (put_uint16 (to_unsigned (2 ^ 16) v)) v
      (ap (to_signed (2 ^ 16)) (be16 (to_unsigned (2 ^ 16) v) (to_unsigned_16-lt v))
        ∙ signed_16 v h)

pub big_endian-put_uint32 : (u : ℕ) → u < 2 ^ 32 → big_endian (put_uint32 u) ≡ u
big_endian-put_uint32 u h = omega arith

pub read_int32-write_int32 : (v : ℤ) → IsSigned (2 ^ 32) v → Reads read_int32 (write_int32 v) v
unfolding read_int32 write_int32
read_int32-write_int32 v h =
    read_fixed (λ b. to_signed (2 ^ 32) (big_endian b)) (put_uint32 (to_unsigned (2 ^ 32) v)) v
      (ap (to_signed (2 ^ 32))
          (big_endian-put_uint32 (to_unsigned (2 ^ 32) v) (to_unsigned_32-lt v))
        ∙ to_signed-to_unsigned_32 v h)

-- ReadInt32 on the bytes of any 32 bits.
pub read_int32-put_uint32 :
    (u : ℕ) → u < 2 ^ 32 → Reads read_int32 (put_uint32 u) (to_signed (2 ^ 32) u)
unfolding read_int32
read_int32-put_uint32 u h =
    read_fixed (λ b. to_signed (2 ^ 32) (big_endian b)) (put_uint32 u) (to_signed (2 ^ 32) u)
      (ap (to_signed (2 ^ 32)) (big_endian-put_uint32 u h))

-- ReadInt64, on what WriteInt64 wrote for an int64 and anything behind it, returns that int64.
pub read_int64-write_int64 : (v : ℤ) → IsSigned (2 ^ 64) v → Reads read_int64 (write_int64 v) v
unfolding read_int64 write_int64
read_int64-write_int64 v h =
    read_fixed (λ b. to_signed (2 ^ 64) (big_endian b)) (put_uint64 (to_unsigned (2 ^ 64) v)) v
      (ap (to_signed (2 ^ 64))
          (big_endian-put_uint64 (to_unsigned (2 ^ 64) v) (to_unsigned_64-lt v))
        ∙ signed_64 v h)

pub read_bool-write_bool : (v : Bool) → Reads read_bool (write_bool v) v
unfolding read_bool write_bool
read_bool-write_bool true rest = rw (read_raw-append (1 ∷ []) rest)
read_bool-write_bool false rest = rw (read_raw-append (0 ∷ []) rest)

pub read_float64-write_float64 : (u : ℕ) → u < 2 ^ 64 → Reads read_float64 (write_float64 u) u
unfolding read_float64 write_float64
read_float64-write_float64 u h = read_fixed big_endian (put_uint64 u) u (big_endian-put_uint64 u h)

pub read_uuid-write_uuid : (u : List ℕ) → length u ≡ 16 → Reads read_uuid (write_uuid u) u
unfolding read_uuid write_uuid
read_uuid-write_uuid u h rest =
    ap (λ n. read_raw n (u ++ rest)) (let e : 16 ≡ length u = omega arith in e)
    ∙ read_raw-append u rest
