-- ===== src/Wire/Strings.antt =====
-- Strings and byte slices of internal/wire/buffer.go. A string is its bytes; a byte slice or a
-- string pointer that may be nil is an `Option`, with `none` for nil.
use gokafka.Prelude.{ℕ, ◌+◌, ◌-◌, List, [], ◌++◌, Option, none, some}
pub mod RoundTrip
use gokafka.Prelude.{if◌then◌else◌, ltb, ◌==◌, length}
use gokafka.Prelude.Int.{ℤ, pos, negsuc}
use gokafka.Result.{Result, ok, panic}
use gokafka.Wire.Reader.{Reader, pure, ◌>>=◌, read_raw}
use gokafka.Wire.Ints.{read_int16, read_int32, write_int16, write_int32}
use gokafka.Wire.Varint.{read_uvarint, write_uvarint}

-- `n < 0` gives the empty string.
unfoldable pub string_body : ℤ → Reader (List ℕ)
string_body (negsuc n) = pure []
string_body (pos n) = read_raw n

unfoldable pub read_string : Reader (List ℕ)
unfolding string_body
read_string = do n ← read_int16; string_body n

unfoldable pub bytes_body : ℤ → Reader (Option (List ℕ))
bytes_body (negsuc n) = pure none
bytes_body (pos n) = do b ← read_raw n; pure (some b)

unfoldable pub read_bytes : Reader (Option (List ℕ))
unfolding bytes_body
read_bytes = do n ← read_int32; bytes_body n

unfoldable pub read_compact_string : Reader (List ℕ)
read_compact_string = do n ← read_uvarint; if n == 0 then pure [] else read_raw (n - 1)

unfoldable pub read_compact_nullable_string : Reader (List ℕ)
read_compact_nullable_string = do
  n ← read_uvarint
  if n == 0 then pure [] else if n == 1 then pure [] else read_raw (n - 1)

-- ReadCompactNullableStringPtr: isNull is `none`.
unfoldable pub read_compact_nullable_string_ptr : Reader (Option (List ℕ))
read_compact_nullable_string_ptr = do
  n ← read_uvarint
  if n == 0
      then pure none
      else if n - 1 == 0
      then pure (some [])
      else do s ← read_raw (n - 1); pure (some s)

unfoldable pub read_compact_bytes : Reader (Option (List ℕ))
read_compact_bytes = do
  n ← read_uvarint
  if n == 0 then pure none else do b ← read_raw (n - 1); pure (some b)

-- A string above math.MaxInt16 panics.
unfoldable pub write_string : List ℕ → Result (List ℕ)
write_string s = if ltb 32767 (length s) then panic else ok (write_int16 (pos (length s)) ++ s)

unfoldable pub write_nullable_string : Option (List ℕ) → Result (List ℕ)
unfolding write_string
write_nullable_string none = ok (write_int16 (negsuc 0))
write_nullable_string (some s) = write_string s

-- int32(len(v)) wraps.
unfoldable pub write_bytes : Option (List ℕ) → List ℕ
write_bytes none = write_int32 (negsuc 0)
write_bytes (some v) = write_int32 (pos (length v)) ++ v

unfoldable pub write_compact_string : List ℕ → List ℕ
write_compact_string s = write_uvarint (length s + 1) ++ s

unfoldable pub write_compact_nullable_string : Option (List ℕ) → List ℕ
unfolding write_compact_string
write_compact_nullable_string none = write_uvarint 0
write_compact_nullable_string (some s) = write_compact_string s

unfoldable pub write_compact_bytes : Option (List ℕ) → List ℕ
write_compact_bytes none = write_uvarint 0
write_compact_bytes (some v) = write_uvarint (length v + 1) ++ v

unfoldable pub write_compact_array_len : ℕ → List ℕ
write_compact_array_len n = write_uvarint (n + 1)
