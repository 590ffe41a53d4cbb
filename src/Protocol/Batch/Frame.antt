-- ===== src/Protocol/Batch/Frame.antt =====
-- The header of a record batch, written by encodeRecordBatch and read by decodeOneRecordBatch.
use gokafka.Protocol.Assignment.{int32_of}
use gokafka.Prelude.{
  ◌/◌, ℕ, ◌+◌, ◌-◌, ◌%◌, ◌^◌, ◌<◌, ◌≡◌, refl, ap, sym, ==_iff, ◌==◌, Bool, true, false,
  if◌then◌else◌, List, [], ◌++◌, length, arith,
}
use gokafka.Prelude.Int.{ℤ, pos, negsuc, IsSigned, to_unsigned, to_signed}
use gokafka.Protocol.Batch.{BatchSettings, checked_part, batch_frame, patch_batch}
use gokafka.Protocol.Batch.Decode.{
  BatchFields, check_magic, read_checked_fields, read_verified, read_batch_header,
}
use gokafka.Wire.Ints.{
  read_int8, read_int16, read_int32, read_int64, write_int8, write_int16, write_int32, write_int64,
  put_uint32,
}
use gokafka.Wire.Ints.RoundTrip.{
  read_int32-put_uint32, read_int8-write_int8, read_int16-write_int16, read_int32-write_int32,
  read_int64-write_int64,
}
use gokafka.Wire.Reader.{Reader, pure, ◌>>=◌}
use gokafka.Wire.Reader.Laws.{Reads, Takes, Takes-bind, Takes-then, Takes-pure}

-- The frame with both values in place.
abbrev pub framed : ℕ → ℕ → List ℕ → List ℕ
framed n crc checked =
    write_int64 (pos 0)
    ++ (put_uint32 n
        ++ (write_int32 (negsuc 0) ++ (write_int8 (pos 2) ++ (put_uint32 crc ++ checked))))

pub patch_batch-frame :
    (checksum : List ℕ → ℕ) (checked : List ℕ)
    → patch_batch checksum (batch_frame checked)
      ≡ framed ((length checked + 9) % 2 ^ 32) (checksum checked) checked
unfolding patch_batch batch_frame write_int64 write_int32 write_int8
patch_batch-frame checksum checked =
    let e : (length (batch_frame checked) - 12) % 2 ^ 32 ≡ (length checked + 9) % 2 ^ 32 =
      omega arith in
    ap (λ n. framed n (checksum checked) checked) e

-- The fields of a batch fit their types.
pub record Fits (s : BatchSettings) (seq first max : ℤ) (n : ℕ) : Type 0 where
  pub id : IsSigned (2 ^ 64) s.producer_id
  pub epoch : IsSigned (2 ^ 16) s.producer_epoch
  pub sequence : IsSigned (2 ^ 32) seq
  pub first_millis : IsSigned (2 ^ 64) first
  pub max_millis : IsSigned (2 ^ 64) max
  pub count : n < 2 ^ 31

if_fits :
    (b : Bool) (m : ℕ) (v : ℤ) → 0 < m / 2 → IsSigned m v → IsSigned m (if b then v else negsuc 0)
if_fits true m v h k = k
if_fits false m v h k = h

int32_of-small : (n : ℕ) → n < 2 ^ 31 → int32_of n ≡ pos n
int32_of-small n h = ground arith

to_unsigned-to_signed_32 : (u : ℕ) → u < 2 ^ 32 → to_unsigned (2 ^ 32) (to_signed (2 ^ 32) u) ≡ u
to_unsigned-to_signed_32 u h = ground arith

module _ (s : BatchSettings) (seq first max : ℤ) (n attributes : ℕ) (payload : List ℕ)
    (fits : Fits s seq first max n) (small : attributes < 2 ^ 15) where
  abbrev pub fields : BatchFields
  fields = record {
    attributes = attributes;
    last_offset_delta = int32_of (n - 1);
    first_timestamp = first;
    producer_id = if s.sequenced then s.producer_id else negsuc 0;
  }

  pub Takes-checked :
      Takes read_checked_fields (checked_part s seq attributes first max n payload) fields payload
  unfolding read_checked_fields checked_part
  Takes-checked =
      let a : to_signed (2 ^ 16) attributes ≡ pos attributes = ground arith in
      let u : to_unsigned (2 ^ 16) (pos attributes) ≡ attributes = ground arith in
      Takes-bind read_int16 _ _ _ (to_signed (2 ^ 16) attributes) _ _
        (read_int16-write_int16 (to_signed (2 ^ 16) attributes) (rw a (ground arith)))
        (Takes-bind read_int32 _ _ _ (int32_of (n - 1)) _ _
          (read_int32-write_int32 (int32_of (n - 1))
            (rw (int32_of-small (n - 1) (omega (arith, fits.count))) (omega (arith, fits.count))))
          (Takes-bind read_int64 _ _ _ first _ _ (read_int64-write_int64 first fits.first_millis) (
            Takes-bind read_int64 _ _ _ max _ _ (read_int64-write_int64 max fits.max_millis) (
              Takes-bind read_int64 _ _ _ (if s.sequenced then s.producer_id else negsuc 0) _ _
                (read_int64-write_int64 _
                  (if_fits s.sequenced (2 ^ 64) s.producer_id (omega arith) fits.id))
                (Takes-bind read_int16 _ _ _ (if s.sequenced then s.producer_epoch else negsuc 0) _
                  _
                  (read_int16-write_int16 _
                    (if_fits s.sequenced (2 ^ 16) s.producer_epoch (omega arith) fits.epoch))
                  (Takes-bind read_int32 _ _ _ (if s.sequenced then seq else negsuc 0) _ _
                    (read_int32-write_int32 _
                      (if_fits s.sequenced (2 ^ 32) seq (omega arith) fits.sequence))
                    (Takes-bind read_int32 _ _ _ (int32_of n) _ _
                      (read_int32-write_int32 (int32_of n) (
                        rw (int32_of-small n (omega (arith, fits.count)))
                          (omega (arith, fits.count))))
                      record { done = rw (a, u) refl })))))))

Takes-verified :
    (checksum : List ℕ → ℕ) (n : ℕ) (checked payload : List ℕ) (f : BatchFields)
    → checksum checked < 2 ^ 32
    → Takes read_checked_fields checked f payload
    → Takes
        (read_verified checksum (framed n (checksum checked) checked))
        (put_uint32 (checksum checked) ++ checked)
        f
        payload
unfolding read_verified write_int64 write_int32 write_int8
Takes-verified checksum n checked payload f hc h =
    let c = to_signed (2 ^ 32) (checksum checked) in
    Takes-bind read_int32 _ (put_uint32 (checksum checked)) _ c _ _
      (read_int32-put_uint32 (checksum checked) hc) record { done = rw (same, h.done) refl }
  where
    same : (checksum checked == to_unsigned (2 ^ 32) (to_signed (2 ^ 32) (checksum checked))) ≡ true
    same = (==_iff _ _).1 (sym (to_unsigned-to_signed_32 (checksum checked) hc))

magic : Reads (check_magic (pos 2)) [] tt
magic rest = refl

pub Takes-header :
    (checksum : List ℕ → ℕ) (n : ℕ) (checked payload : List ℕ) (f : BatchFields)
    → n < 2 ^ 32
    → checksum checked < 2 ^ 32
    → Takes read_checked_fields checked f payload
    → Takes
        (read_batch_header checksum (framed n (checksum checked) checked))
        (framed n (checksum checked) checked)
        (pos 0, f)
        payload
unfolding read_batch_header
Takes-header checksum n checked payload f hn hc h =
    let batch = framed n (checksum checked) checked in
    let last : Reader (ℤ × BatchFields) = read_verified checksum batch >>= λ x. pure (pos 0, x) in
    Takes-bind read_int64 _ _ _ (pos 0) _ _ (read_int64-write_int64 (pos 0) (omega arith)) (
      Takes-bind read_int32 _ (put_uint32 n) _ (to_signed (2 ^ 32) n) _ _
        (read_int32-put_uint32 n hn)
        (Takes-bind read_int32 _ _ _ (negsuc 0) _ _
          (read_int32-write_int32 (negsuc 0) (omega arith))
          (Takes-bind read_int8 _ _ _ (pos 2) _ _ (read_int8-write_int8 (pos 2) (omega arith)) (
            Takes-bind (check_magic (pos 2)) (λ t. last) [] _ tt _ _ magic
              (Takes-then (read_verified checksum batch) (λ x. pure (pos 0, x)) _ _ f _ _
                (Takes-verified checksum n checked payload f hc h)
                (Takes-pure (pos 0, f) payload))))))

pub length-checked_part :
    (s : BatchSettings) (seq first max : ℤ) (n attributes : ℕ) (payload : List ℕ)
    → length (checked_part s seq attributes first max n payload) ≡ 40 + length payload
unfolding checked_part write_int16 write_int32 write_int64
length-checked_part s seq first max n attributes payload = omega arith

pub length-framed :
    (n crc : ℕ) (checked : List ℕ) → length (framed n crc checked) ≡ 21 + length checked
unfolding write_int64 write_int32 write_int8
length-framed n crc checked = omega arith
