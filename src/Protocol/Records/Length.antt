-- ===== src/Protocol/Records/Length.antt =====
-- recordBodyLen of internal/protocol/produce.go counts the bytes that appendRecord writes.
use gokafka.Prelude.{
  ◌≤◌, ◌<◌, ℕ, zero, suc, ◌/◌, ◌≡◌, refl, ap, List, [], ◌∷◌, ◌++◌, length, length-append, ltb,
  Bool-cases, inl, inr, arith,
}
use gokafka.Prelude.Int.{ℤ, pos}
use gokafka.Protocol.Records.{
  HeaderPair, varint_len_loop, varint_len, headers_len, record_body_len, write_headers, record_body,
}
use gokafka.Wire.Ints.{write_int8}
use gokafka.Wire.Varint.{write_uvarint_loop, write_uvarint, write_varint, zigzag}

length-write_uvarint_loop : (f x : ℕ) → length (write_uvarint_loop f x) ≡ varint_len_loop f x
unfolding write_uvarint_loop varint_len_loop
length-write_uvarint_loop zero x = refl
length-write_uvarint_loop (suc f) x = elim (Bool-cases (ltb x 0x80)) [
  | inl last ↦ rw last refl
  | inr more ↦ rw more (ap suc (length-write_uvarint_loop f (x / 128)))
]

pub length-write_varint : (v : ℤ) → length (write_varint v) ≡ varint_len v
unfolding write_varint write_uvarint varint_len
length-write_varint v = length-write_uvarint_loop 9 (zigzag v)

pub length-write_headers : (hs : List HeaderPair) → length (write_headers hs) ≡ headers_len hs
unfolding write_headers headers_len
length-write_headers [] = refl
length-write_headers ((k, v) ∷ hs) = omega (
  arith,
  length-append (write_varint (pos (length k)) ++ k)
      ((write_varint (pos (length v)) ++ v) ++ write_headers hs),
  length-append (write_varint (pos (length k))) k,
  length-append (write_varint (pos (length v)) ++ v) (write_headers hs),
  length-append (write_varint (pos (length v))) v,
  length-write_varint (pos (length k)),
  length-write_varint (pos (length v)),
  length-write_headers hs,
)

-- recordBodyLen is the number of the bytes that appendRecord writes behind the length, for every key,
-- value, list of headers, offset delta and timestamp delta.
pub length-record_body :
    (key value : List ℕ) (headers : List HeaderPair) (offset_delta timestamp_delta : ℤ)
    → length (record_body key value headers offset_delta timestamp_delta)
      ≡ record_body_len key value headers offset_delta timestamp_delta
unfolding record_body record_body_len write_int8
length-record_body key value headers o t =
    simp (length-append, length-write_varint, length-write_headers) (omega arith)

varint_len_positive : (v : ℤ) → 0 < varint_len v
varint_len_positive v = unfold varint_len in loop 9 (zigzag v)
  where
    loop : (f x : ℕ) → 0 < varint_len_loop f x
    loop zero x = unfold varint_len_loop in omega arith
    loop (suc f) x = unfold varint_len_loop in ground arith

pub record_body_len-four :
    (key value : List ℕ) (headers : List HeaderPair) (o t : ℤ)
    → 4 ≤ record_body_len key value headers o t
unfolding record_body_len
record_body_len-four key value headers o t =
    omega
      (arith, varint_len_positive t, varint_len_positive o, varint_len_positive (pos (length key)))
