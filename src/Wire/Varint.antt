-- ===== src/Wire/Varint.antt =====
-- ReadUvarint, ReadVarint, WriteUvarint and WriteVarint of internal/wire/buffer.go.
pub mod RoundTrip
use gokafka.Prelude.{ℕ, zero, suc, ◌+◌, ◌*◌, ◌/◌, ◌%◌, ◌^◌, ◌-◌}
use gokafka.Prelude.{◌&&◌, List, [], ◌∷◌, bit_and, bit_or}
use gokafka.Prelude.{if◌then◌else◌, ltb, ◌==◌}
use gokafka.Prelude.Int.{ℤ, pos, negsuc}
use gokafka.Result.{ok, err, short_buffer, uvarint_overflow}
use gokafka.Wire.Reader.{Reader, pure, ◌>>=◌}

-- The rounds `left` to go are 5 - i, so `left == 1` is `i == 4`. `x |= uint(c&0x7f) << s` on a
-- 64-bit uint, where s is at most 28.
unfoldable pub read_uvarint_loop : ℕ → ℕ → ℕ → Reader ℕ
read_uvarint_loop zero x s bs = err uvarint_overflow
read_uvarint_loop (suc left) x s [] = err short_buffer
read_uvarint_loop (suc left) x s (c ∷ rest) =
    let more = read_uvarint_loop left (bit_or x (bit_and c 0x7f * 2 ^ s)) (s + 7) rest in
    if ltb c 0x80
    then (if left == 0 && ltb 1 c then err uvarint_overflow else ok (bit_or x (c * 2 ^ s), rest))
    else more

unfoldable pub read_uvarint : Reader ℕ
unfolding read_uvarint_loop
read_uvarint = read_uvarint_loop 5 0 0

-- int(u>>1) ^ -(int(u) & 1): the exclusive or with 0, or with -1, which is the complement.
unfoldable pub unzigzag : ℕ → ℤ
unzigzag u = if u % 2 == 0 then pos (u / 2) else negsuc (u / 2)

unfoldable pub read_varint : Reader ℤ
read_varint = do u ← read_uvarint; pure (unzigzag u)

-- `for x >= 0x80`: ten rounds are enough for a 64-bit uint, and each round has one unit of fuel.
unfoldable pub write_uvarint_loop : ℕ → ℕ → List ℕ
write_uvarint_loop zero x = (x % 256) ∷ []
write_uvarint_loop (suc fuel) x =
    let rest = write_uvarint_loop fuel (x / 128) in
    if ltb x 0x80 then (x % 256) ∷ [] else bit_or (x % 256) 0x80 ∷ rest

unfoldable pub write_uvarint : ℕ → List ℕ
unfolding write_uvarint_loop
write_uvarint x = write_uvarint_loop 9 x

-- (uint(v) << 1) ^ uint(v>>63): the shift fills with the sign, so the second operand is 0 or all
-- ones.
unfoldable pub zigzag : ℤ → ℕ
zigzag (pos n) = (n * 2) % 2 ^ 64
zigzag (negsuc n) = 2 ^ 64 - 1 - ((2 ^ 64 - 1 - n) * 2) % 2 ^ 64

unfoldable pub write_varint : ℤ → List ℕ
write_varint v = write_uvarint (zigzag v)
