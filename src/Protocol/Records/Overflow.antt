-- ===== src/Protocol/Records/Overflow.antt =====
-- A batch whose timestamps lie far apart cannot be read back.
use gokafka.Protocol.Records.RoundTrip.{
  parse_rounds-append_record, length-append_records, AllEncodable, attributes,
  length-record_body_positive,
}
use gokafka.Wire.Reader.Laws.{Fails-first, Fails-then, Fails}
use gokafka.Prelude.{
  subst, zero, ◌+◌, ℕ, suc, ◌<◌, ◌^◌, ◌≡◌, ap, ◌∙◌, sym, List, [], ◌∷◌, ◌++◌, length, append_assoc,
  false, arith, length-append, le→ltb, if◌then◌else◌,
}
use gokafka.Prelude.Int.{ℤ, pos, IsSigned}
use gokafka.Protocol.Records.{
  millis_or, timestamp_delta_of, append_records, encode_records_payload, ProduceRecord, HeaderPair,
  append_record, record_body, record_body_len,
}
use gokafka.Protocol.Records.Length.{length-record_body}
use gokafka.Protocol.Records.Parse.{
  fetched, FetchedRecord, BatchContext, read_record, parse_sized, parse_rounds, parse_records,
}
use gokafka.Protocol.Records.Parse.Rounds.{parse_rounds_step}
use gokafka.Result.{bind, Result, ok, err, uvarint_overflow}
use gokafka.Wire.Ints.{read_int8}
use gokafka.Wire.Varint.{read_varint, write_varint}
use gokafka.Wire.Varint.RoundTrip.{read_varint-write_varint, read_varint_small, fits_varint}

read_varint_large :
    (t : ℤ)
    → IsSigned (2 ^ 64) t
    → fits_varint t ≡ false
    → Fails read_varint (write_varint t) uvarint_overflow
read_varint_large t h e = record {
  at = λ rest.
      read_varint-write_varint t rest h
      ∙ ap (λ b. if b then ok (t, rest) else err uvarint_overflow) e;
}

Fails-read_record :
    (c : BatchContext) (key value : List ℕ) (headers : List HeaderPair) (o t : ℤ)
    → IsSigned (2 ^ 64) t
    → fits_varint t ≡ false
    → Fails (read_record c) (record_body key value headers o t) uvarint_overflow
unfolding read_record record_body
Fails-read_record c key value headers o t h e =
    Fails-then read_int8 _ _ _ (pos 0) _ attributes
      (Fails-first read_varint _ _ _ _ (read_varint_large t h e))

parse_sized-Fails :
    (c : BatchContext) (next : List ℕ → Result (List FetchedRecord)) (body rest : List ℕ)
    → 0 < length body
    → Fails (read_record c) body uvarint_overflow
    → parse_sized c next (pos (length body)) (body ++ rest) ≡ err uvarint_overflow
unfolding parse_sized
parse_sized-Fails c next [] rest h d = absurd (omega arith)
parse_sized-Fails c next (b ∷ body) rest h d = rw (
  le→ltb (length ((b ∷ body) ++ rest)) (length (b ∷ body))
      (omega (arith, length-append (b ∷ body) rest)),
  d.at rest,
)

-- A record whose timestamp is too far from the first one, though appendRecord wrote it.
pub record IsFar (i : ℕ) (now first : ℤ) (r : ProduceRecord) : Type 0 where
  pub fits : IsSigned (2 ^ 64) (timestamp_delta_of now first r)
  pub far : fits_varint (timestamp_delta_of now first r) ≡ false
  pub size :
      record_body_len r.key r.value r.headers (pos i) (timestamp_delta_of now first r) < 2 ^ 28

module _ (c : BatchContext) (now first : ℤ) (r : ProduceRecord) (after : List ProduceRecord) where
  parse_rounds-far :
      (f i : ℕ)
      → IsFar i now first r
      → parse_rounds (suc f) c (append_records i now first (r ∷ after)) ≡ err uvarint_overflow
  unfolding append_records append_record
  parse_rounds-far f i h =
      let t = timestamp_delta_of now first r in
      let n = record_body_len r.key r.value r.headers (pos i) t in
      let body = record_body r.key r.value r.headers (pos i) t in
      let rest = append_records (i + 1) now first after in
      rw (append_assoc (write_varint (pos n)) body rest) (
        parse_rounds_step f c (write_varint (pos n) ++ (body ++ rest)) (body ++ rest) (pos n)
          (read_varint_small (pos n) (body ++ rest) h.size)
        ∙ ap (λ k. parse_sized c (parse_rounds f c) (pos k) (body ++ rest))
            (sym (length-record_body r.key r.value r.headers (pos i) t))
        ∙ parse_sized-Fails c (parse_rounds f c) body rest
            (length-record_body_positive r.key r.value r.headers (pos i) t)
            (Fails-read_record c r.key r.value r.headers (pos i) t h.fits h.far))

  parse_rounds-before :
      (f i : ℕ) (before : List ProduceRecord)
      → AllEncodable i now first before
      → IsFar (i + length before) now first r
      → length before < f
      → parse_rounds f c (append_records i now first (before ++ (r ∷ after))) ≡ err uvarint_overflow
  unfolding append_records
  parse_rounds-before zero i before all h lt = absurd (omega arith)
  parse_rounds-before (suc f) i [] all h lt =
      parse_rounds-far f i (let e : i + 0 ≡ i = omega arith in subst (λ k. IsFar k now first r) e h)
  parse_rounds-before (suc f) i (b ∷ before) all h lt =
      let e : i + suc (length before) ≡ i + 1 + length before = omega arith in
      let t = timestamp_delta_of now first b in
      parse_rounds-append_record c f (append_records (i + 1) now first (before ++ (r ∷ after)))
        b.key b.value b.headers (pos i) t all.0
      ∙ ap (λ m. bind m λ out. ok (fetched c (pos i) t b.key b.value b.headers ∷ out))
          (parse_rounds-before f (i + 1) before all.1 (subst (λ k. IsFar k now first r) e h)
            (omega arith))

-- parseRecords, on the bytes that encodeRecordsPayload wrote for a batch in which the timestamp
-- distance of a later record from the first one is outside -2^28 to 2^28 - 1 ms, fails with the overflow
-- error and returns no record of the batch, whatever records come behind. The conditions: the
-- records before it are within ReadVarint's range, the distance is an int64, and the record's length
-- can be read.
pub parse_records-encode_records_payload_overflow :
    (c : BatchContext) (now : ℤ) (first : ProduceRecord) (before : List ProduceRecord)
    (r : ProduceRecord) (after : List ProduceRecord)
    → AllEncodable 0 now (millis_or now first.timestamp) (first ∷ before)
    → IsFar (length (first ∷ before)) now (millis_or now first.timestamp) r
    → parse_records c (encode_records_payload now first (before ++ (r ∷ after)))
      ≡ err uvarint_overflow
unfolding parse_records encode_records_payload
parse_records-encode_records_payload_overflow c now first before r after all h =
    let base = millis_or now first.timestamp in
    let records = first ∷ (before ++ (r ∷ after)) in
    let index : suc (length before) ≡ 0 + suc (length before) = omega arith in
    parse_rounds-before c now base r after (length (append_records 0 now base records)) 0
      (first ∷ before) all (subst (λ k. IsFar k now base r) index h)
      (omega (arith, length-append_records 0 now base records, length-append before (r ∷ after)))
