-- ===== src/Protocol/Records.antt =====
-- The records of a version 2 batch, as internal/protocol/produce.go writes them. A key, a value or a
-- header's part is its bytes: nil and the empty slice are written alike. A time.Time is the
-- milliseconds of UnixMilli, or none where it is zero.
pub mod Parse
pub mod Length
pub mod RoundTrip
pub mod Overflow
use gokafka.Prelude.{
  ℕ, zero, suc, ◌+◌, ◌*◌, ◌/◌, List, [], ◌∷◌, ◌++◌, ltb, length, if◌then◌else◌, Option, some, none,
}
use gokafka.Prelude.Int.{ℤ, pos, ◌+ℤ◌, ◌-ℤ◌, wrap_64}
use gokafka.Wire.Varint.{zigzag, write_varint}
use gokafka.Wire.Ints.{write_int8}

-- [2][]byte
abbrev pub HeaderPair : Type 0
HeaderPair = List ℕ × List ℕ

pub record ProduceRecord : Type 0 where
  pub topic : List ℕ
  pub partition : ℤ
  pub key : List ℕ
  pub value : List ℕ
  pub headers : List HeaderPair
  pub timestamp : Option ℤ

-- `for uv >= 0x80`: ten rounds are enough for a 64-bit uint.
unfoldable pub varint_len_loop : ℕ → ℕ → ℕ
varint_len_loop zero x = 1
varint_len_loop (suc fuel) x =
    let rest = suc (varint_len_loop fuel (x / 128)) in if ltb x 0x80 then 1 else rest

unfoldable pub varint_len : ℤ → ℕ
unfolding varint_len_loop
varint_len v = varint_len_loop 9 (zigzag v)

-- varintLen(len(b)) + len(b)
abbrev pub sized_len : List ℕ → ℕ
sized_len b = varint_len (pos (length b)) + length b

unfoldable pub headers_len : List HeaderPair → ℕ
headers_len [] = 0
headers_len ((k, v) ∷ hs) = sized_len k + (sized_len v + headers_len hs)

unfoldable pub record_body_len : List ℕ → List ℕ → List HeaderPair → ℤ → ℤ → ℕ
unfolding headers_len
record_body_len key value headers offset_delta timestamp_delta =
    1
    + (varint_len timestamp_delta
        + (varint_len offset_delta
            + (sized_len key
                + (sized_len value + (varint_len (pos (length headers)) + headers_len headers)))))

-- buf.WriteVarint(len(b)); buf.B = append(buf.B, b...)
abbrev pub write_sized : List ℕ → List ℕ
write_sized b = write_varint (pos (length b)) ++ b

unfoldable pub write_headers : List HeaderPair → List ℕ
write_headers [] = []
write_headers ((k, v) ∷ hs) = write_sized k ++ (write_sized v ++ write_headers hs)

-- What appendRecord writes behind the length.
unfoldable pub record_body : List ℕ → List ℕ → List HeaderPair → ℤ → ℤ → List ℕ
unfolding write_headers
record_body key value headers offset_delta timestamp_delta =
    write_int8 (pos 0)
    ++ (write_varint timestamp_delta
        ++ (write_varint offset_delta
            ++ (write_sized key
                ++ (write_sized value
                    ++ (write_varint (pos (length headers)) ++ write_headers headers)))))

unfoldable pub append_record : List ℕ → List ℕ → List HeaderPair → ℤ → ℤ → List ℕ
unfolding record_body_len record_body
append_record key value headers offset_delta timestamp_delta =
    write_varint (pos (record_body_len key value headers offset_delta timestamp_delta))
    ++ record_body key value headers offset_delta timestamp_delta

abbrev pub millis_or : ℤ → Option ℤ → ℤ
millis_or now none = now
millis_or now (some ms) = ms

-- delta
abbrev pub timestamp_delta_of : ℤ → ℤ → ProduceRecord → ℤ
timestamp_delta_of now first r = wrap_64 (millis_or now r.timestamp -ℤ first)

-- The second loop of encodeRecordsPayload, from index i on.
unfoldable pub append_records : ℕ → ℤ → ℤ → List ProduceRecord → List ℕ
unfolding append_record
append_records i now first [] = []
append_records i now first (r ∷ records) =
    append_record r.key r.value r.headers (pos i) (timestamp_delta_of now first r)
    ++ append_records (i + 1) now first records

-- encodeRecordsPayload, for a list that is not empty: encodeRecordBatch has refused an empty one.
-- `now` is its reading of the clock. The first loop only counts the bytes to allocate.
unfoldable pub encode_records_payload : ℤ → ProduceRecord → List ProduceRecord → List ℕ
unfolding append_records
encode_records_payload now r records =
    append_records 0 now (millis_or now r.timestamp) (r ∷ records)
