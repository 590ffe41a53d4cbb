-- ===== src/Wire/Ints.antt =====
-- The fixed-width integers of internal/wire/buffer.go and the UUID of uuid.go, big-endian.
pub mod RoundTrip
use gokafka.Prelude.{ℕ, ◌+◌, ◌*◌, ◌/◌, ◌%◌, ◌^◌, Bool, not, List, [], ◌∷◌, ◌++◌}
use gokafka.Prelude.{if◌then◌else◌, ltb, length, ◌-◌, drop}
use gokafka.Prelude.Int.{ℤ, pos, to_unsigned, to_signed, eqb_ℤ}
use gokafka.Wire.Reader.{Reader, pure, ◌>>=◌, read_raw}
use mathlib.Core.List.{foldl}

-- encoding/binary's BigEndian.UintN
abbrev pub big_endian : List ℕ → ℕ
big_endian = foldl (λ n b. n * 256 + b) 0

-- encoding/binary's BigEndian.PutUintN
abbrev pub put_uint16 : ℕ → List ℕ
put_uint16 u = (u / 2 ^ 8 % 256) ∷ (u % 256) ∷ []

abbrev pub put_uint32 : ℕ → List ℕ
put_uint32 u = (u / 2 ^ 24 % 256) ∷ (u / 2 ^ 16 % 256) ∷ (u / 2 ^ 8 % 256) ∷ (u % 256) ∷ []

abbrev pub put_uint64 : ℕ → List ℕ
put_uint64 u = put_uint32 (u / 2 ^ 32) ++ put_uint32 u

unfoldable pub read_int8 : Reader ℤ
unfolding read_raw
read_int8 = do b ← read_raw 1; pure (to_signed (2 ^ 8) (big_endian b))

unfoldable pub read_int16 : Reader ℤ
unfolding read_raw
read_int16 = do b ← read_raw 2; pure (to_signed (2 ^ 16) (big_endian b))

unfoldable pub read_int32 : Reader ℤ
unfolding read_raw
read_int32 = do b ← read_raw 4; pure (to_signed (2 ^ 32) (big_endian b))

unfoldable pub read_int64 : Reader ℤ
unfolding read_raw
read_int64 = do b ← read_raw 8; pure (to_signed (2 ^ 64) (big_endian b))

unfoldable pub read_bool : Reader Bool
unfolding read_int8
read_bool = do v ← read_int8; pure (not (eqb_ℤ v (pos 0)))

-- A float64 is its IEEE-754 bit pattern: math.Float64frombits keeps every bit.
unfoldable pub read_float64 : Reader ℕ
unfolding read_raw
read_float64 = do b ← read_raw 8; pure (big_endian b)

unfoldable pub read_uuid : Reader (List ℕ)
unfolding read_raw
read_uuid = read_raw 16

-- A write method is the bytes that it appends to B.
unfoldable pub write_int8 : ℤ → List ℕ
write_int8 v = to_unsigned (2 ^ 8) v ∷ []

unfoldable pub write_int16 : ℤ → List ℕ
write_int16 v = put_uint16 (to_unsigned (2 ^ 16) v)

unfoldable pub write_int32 : ℤ → List ℕ
write_int32 v = put_uint32 (to_unsigned (2 ^ 32) v)

unfoldable pub write_int64 : ℤ → List ℕ
write_int64 v = put_uint64 (to_unsigned (2 ^ 64) v)

unfoldable pub write_bool : Bool → List ℕ
unfolding write_int8
write_bool v = if v then write_int8 (pos 1) else write_int8 (pos 0)

unfoldable pub write_float64 : ℕ → List ℕ
write_float64 bits = put_uint64 bits

unfoldable pub write_uuid : List ℕ → List ℕ
write_uuid u = u

-- The Kafka size field in front of a request body.
unfoldable pub prepend_length : List ℕ → List ℕ
prepend_length body = put_uint32 (length body % 2 ^ 32) ++ body

-- Overwrites the reserved first four bytes of a frame.
unfoldable pub patch_length : List ℕ → List ℕ
patch_length frame =
    if ltb (length frame) 4 then frame else put_uint32 ((length frame - 4) % 2 ^ 32) ++ drop 4 frame
