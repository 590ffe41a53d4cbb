-- ===== src/Wire/Strings/RoundTrip.antt =====
-- Strings, byte slices and nullable values read back what was written.
use gokafka.Prelude.{
  ℕ, suc, ◌+◌, ◌-◌, ◌^◌, ◌<◌, ◌≤◌, ◌≡◌, refl, ap, List, [], ◌∷◌, ◌++◌, arith, Option, none, some,
}
use gokafka.Prelude.{length, le→ltb, ◌==◌, if◌then◌else◌, false}
use gokafka.Prelude.Int.{pos, negsuc}
use gokafka.Result.{ok}
use gokafka.Wire.Reader.{pure, continue, ◌>>=◌, read_raw}
use gokafka.Wire.Reader.Laws.{Reads, Reads-bind, read_raw-append}
use gokafka.Wire.Ints.{read_int16, read_int32}
use gokafka.Wire.Ints.RoundTrip.{read_int16-write_int16, read_int32-write_int32}
use native.Mathlib.Nat.{add-sub_cancel}
use mathlib.Core.Option
use gokafka.Wire.Varint.{read_uvarint, write_uvarint}
use gokafka.Wire.Varint.RoundTrip.{read_uvarint_small}
use gokafka.Wire.Strings.{
  read_string, read_bytes, read_compact_string, read_compact_nullable_string,
  read_compact_nullable_string_ptr, read_compact_bytes,
}
use gokafka.Wire.Strings.{
  write_string, write_bytes, write_compact_string, write_compact_nullable_string,
  write_compact_bytes,
}

raw_some :
    (v rest : List ℕ)
    → continue (read_raw (length v) (v ++ rest)) (λ b. pure (some b)) ≡ ok (some v, rest)
raw_some v rest = ap (λ m. continue m (λ b. pure (some b))) (read_raw-append v rest)

-- WriteString succeeds on a string of at most 32767 bytes, and ReadString, on the bytes written and
-- anything behind them, returns it.
pub read_string-write_string :
    (s : List ℕ)
    → length s ≤ 32767
    → (enc : List ℕ) × (write_string s ≡ ok enc) × Reads read_string enc s
unfolding read_string write_string
read_string-write_string s h = (
  _,
  rw (le→ltb 32767 (length s) h),
  Reads-bind read_int16 _ _ s (pos (length s)) s
      (read_int16-write_int16 (pos (length s)) (omega arith)) (read_raw-append s),
)

pub read_bytes-write_bytes :
    (v : Option (List ℕ))
    → length (Option.get_or v []) < 2 ^ 31
    → Reads read_bytes (write_bytes v) v
unfolding read_bytes write_bytes
read_bytes-write_bytes none h rest = rw (read_int32-write_int32 (negsuc 0) (omega arith) rest)
read_bytes-write_bytes (some v) h rest =
    Reads-bind read_int32 _ _ v (pos (length v)) (some v)
      (read_int32-write_int32 (pos (length v)) h) (raw_some v) rest

suc_eq_zero : (n : ℕ) → (suc n == 0) ≡ false
suc_eq_zero n = ground arith

compact_prefix : (n : ℕ) → n + 1 < 2 ^ 29 → Reads read_uvarint (write_uvarint (n + 1)) (n + 1)
compact_prefix n h rest = read_uvarint_small (n + 1) rest h

suc_ne_zero : (n : ℕ) → (n + 1 == 0) ≡ false
suc_ne_zero n = ground arith

pub read_compact_string-write_compact_string :
    (s : List ℕ) → length s + 1 < 2 ^ 29 → Reads read_compact_string (write_compact_string s) s
unfolding read_compact_string write_compact_string
read_compact_string-write_compact_string s h =
    Reads-bind read_uvarint _ _ s (length s + 1) s (compact_prefix (length s) h)
      λ rest. rw (suc_ne_zero (length s), add-sub_cancel (length s) 1) (read_raw-append s rest)

compact_body :
    (v rest : List ℕ)
    → (if length v + 1 == 0 then pure none else (do b ← read_raw (length v + 1 - 1); pure (some b)))
        (v ++ rest)
      ≡ ok (some v, rest)
compact_body v rest = rw (suc_ne_zero (length v), add-sub_cancel (length v) 1) (raw_some v rest)

-- ReadCompactBytes, on what WriteCompactBytes wrote and anything behind it, returns what was written, nil
-- apart from empty, up to a length of 2^29 - 2.
pub read_compact_bytes-write_compact_bytes :
    (v : Option (List ℕ))
    → length (Option.get_or v []) + 1 < 2 ^ 29
    → Reads read_compact_bytes (write_compact_bytes v) v
unfolding read_compact_bytes write_compact_bytes
read_compact_bytes-write_compact_bytes none h rest = rw (read_uvarint_small 0 rest (omega arith))
read_compact_bytes-write_compact_bytes (some v) h rest =
    Reads-bind read_uvarint _ _ v (length v + 1) (some v) (compact_prefix (length v) h)
      (compact_body v) rest

-- The empty string and nil are written apart, and the pointer variant reads them apart.
ptr_body :
    (v rest : List ℕ)
    → (if length v + 1 == 0
          then pure none
          else if length v + 1 - 1 == 0
          then pure (some [])
          else (do s ← read_raw (length v + 1 - 1); pure (some s)))
        (v ++ rest)
      ≡ ok (some v, rest)
ptr_body [] rest = refl
ptr_body (x ∷ v) rest =
    rw (suc_ne_zero (length (x ∷ v)), add-sub_cancel (length (x ∷ v)) 1, suc_eq_zero (length v))
      (raw_some (x ∷ v) rest)

-- ReadCompactNullableStringPtr, on what WriteCompactNullableString wrote and anything behind it, returns
-- what was written, nil and the empty string apart, up to a length of 2^29 - 2.
pub read_compact_nullable_string_ptr-write :
    (v : Option (List ℕ))
    → length (Option.get_or v []) + 1 < 2 ^ 29
    → Reads read_compact_nullable_string_ptr (write_compact_nullable_string v) v
unfolding read_compact_nullable_string_ptr write_compact_nullable_string
read_compact_nullable_string_ptr-write none h rest = rw (read_uvarint_small 0 rest (omega arith))
read_compact_nullable_string_ptr-write (some v) h rest =
    Reads-bind read_uvarint _ _ v (length v + 1) (some v) (compact_prefix (length v) h) (ptr_body v)
      rest

above_one_ne_one : (n : ℕ) → (suc n + 1 == 1) ≡ false
above_one_ne_one n = ground arith

plain_body :
    (v rest : List ℕ)
    → (if length v + 1 == 0
          then pure []
          else if length v + 1 == 1
          then pure []
          else read_raw (length v + 1 - 1))
        (v ++ rest)
      ≡ ok (v, rest)
plain_body [] rest = refl
plain_body (x ∷ v) rest =
    rw
      (suc_ne_zero (length (x ∷ v)), add-sub_cancel (length (x ∷ v)) 1, above_one_ne_one (length v))
      (read_raw-append (x ∷ v) rest)

-- ReadCompactNullableString reads nil as the empty string.
pub read_compact_nullable_string-write :
    (v : Option (List ℕ))
    → length (Option.get_or v []) + 1 < 2 ^ 29
    → Reads read_compact_nullable_string (write_compact_nullable_string v) (Option.get_or v [])
unfolding read_compact_nullable_string write_compact_nullable_string
read_compact_nullable_string-write none h rest = rw (read_uvarint_small 0 rest (omega arith))
read_compact_nullable_string-write (some v) h rest =
    Reads-bind read_uvarint _ _ v (length v + 1) v (compact_prefix (length v) h) (plain_body v) rest
