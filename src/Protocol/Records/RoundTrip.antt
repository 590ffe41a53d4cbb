-- ===== src/Protocol/Records/RoundTrip.antt =====
-- parseRecords of internal/protocol/fetch.go on what encodeRecordsPayload of
-- internal/protocol/produce.go wrote.
use gokafka.Protocol.Records.Parse.Rounds.{parse_sized_record, parse_rounds_step}
use gokafka.Prelude.{
  ℕ, zero, suc, ◌+◌, ◌^◌, ◌≤◌, ◌<◌, ◌≡◌, refl, ap, ◌∙◌, sym, List, [], ◌∷◌, ◌++◌, length,
  length-append, take-length-append, drop-length-append, append_assoc, All, le→ltb, arith, some,
}
use gokafka.Prelude.Int.{negsuc, ◌-ℤ◌, ℤ, pos, IsSigned, wrap_64, ◌+ℤ◌}
use gokafka.Protocol.Records.{
  millis_or, encode_records_payload, HeaderPair, ProduceRecord, write_headers, record_body,
  record_body_len, append_record, append_records, timestamp_delta_of,
}
use gokafka.Protocol.Records.Length.{length-record_body}
use gokafka.Protocol.Records.Parse.{
  FetchedRecord, BatchContext, field_body, read_field, read_headers, fetched, read_record,
  parse_sized, parse_rounds, parse_records,
}
use gokafka.Result.{ok, bind}
use gokafka.Wire.Ints.{read_int8, write_int8}
use gokafka.Wire.Ints.RoundTrip.{read_int8-write_int8}
use gokafka.Wire.Reader.Laws.{Decodes, Decodes-bind, Decodes-last}
use gokafka.Wire.Varint.{read_varint, write_varint}
use gokafka.Wire.Varint.RoundTrip.{read_varint_small, FitsVarint}

-- A length or a count that ReadVarint reads back.
abbrev pub FitsLength : ℕ → Type 0
FitsLength n = n < 2 ^ 28

varint : (v : ℤ) → FitsVarint v → Decodes read_varint (write_varint v) v
varint v h = record { at = λ rest. read_varint_small v rest h }

field_body-append : (x rest : List ℕ) → field_body (pos (length x)) (x ++ rest) ≡ ok (some x, rest)
unfolding field_body
field_body-append x rest = rw (
  le→ltb (length (x ++ rest)) (length x) (omega (arith, length-append x rest)),
  take-length-append x rest,
  drop-length-append x rest,
)

pub attributes : Decodes read_int8 (write_int8 (pos 0)) (pos 0)
attributes = record { at = read_int8-write_int8 (pos 0) (omega arith) }

Decodes-field :
    (x : List ℕ)
    → FitsLength (length x)
    → Decodes read_field (write_varint (pos (length x)) ++ x) (some x)
unfolding read_field
Decodes-field x h =
    Decodes-bind read_varint field_body _ _ _ _ (varint (pos (length x)) h)
      (record { at = field_body-append x })

abbrev pub FitsHeader : HeaderPair → Type 0
FitsHeader h = FitsLength (length h.0) × FitsLength (length h.1)

Decodes-headers :
    (hs : List HeaderPair)
    → All FitsHeader hs
    → Decodes (read_headers (length hs)) (write_headers hs) hs
unfolding read_headers write_headers
Decodes-headers [] h = record { at = λ rest. refl }
Decodes-headers ((k, v) ∷ hs) h = Decodes-bind read_field _ _ _ (some k) _ (Decodes-field k h.0.0) (
    Decodes-bind read_field _ _ _ (some v) _ (Decodes-field v h.0.1)
      (Decodes-last (read_headers (length hs)) _ hs _ (Decodes-headers hs h.1)))

-- What ReadVarint reads back of a record.
abbrev pub IsEncodable : List ℕ → List ℕ → List HeaderPair → ℤ → ℤ → Type 0
IsEncodable key value headers o t =
    FitsLength (length key)
    × FitsLength (length value)
    × FitsLength (length headers)
    × All FitsHeader headers
    × FitsVarint o
    × FitsVarint t
    × FitsLength (record_body_len key value headers o t)

Decodes-record :
    (c : BatchContext) (key value : List ℕ) (headers : List HeaderPair) (o t : ℤ)
    → IsEncodable key value headers o t
    → Decodes
        (read_record c)
        (record_body key value headers o t)
        (some (fetched c o t key value headers))
unfolding read_record record_body
Decodes-record c key value headers o t (fk, fv, fn, fh, fo, ft, _) =
    Decodes-bind read_int8 _ _ _ (pos 0) _ attributes (
      Decodes-bind read_varint _ _ _ t _ (varint t ft) (
        Decodes-bind read_varint _ _ _ o _ (varint o fo) (
          Decodes-bind read_field _ _ _ (some key) _ (Decodes-field key fk) (
            Decodes-bind read_field _ _ _ (some value) _ (Decodes-field value fv) (
              Decodes-bind read_varint _ _ _ (pos (length headers)) _
                (varint (pos (length headers)) fn)
                (Decodes-last (read_headers (length headers)) _ headers _
                  (Decodes-headers headers fh)))))))

pub length-record_body_positive :
    (key value : List ℕ) (headers : List HeaderPair) (o t : ℤ)
    → 0 < length (record_body key value headers o t)
length-record_body_positive key value headers o t = unfold record_body write_int8 in omega arith

module _ (c : BatchContext) (f : ℕ) (rest : List ℕ) where
  pub parse_rounds-append_record :
      (key value : List ℕ) (headers : List HeaderPair) (o t : ℤ)
      → IsEncodable key value headers o t
      → parse_rounds (suc f) c (append_record key value headers o t ++ rest)
        ≡ bind (parse_rounds f c rest) λ out. ok (fetched c o t key value headers ∷ out)
  unfolding append_record
  parse_rounds-append_record key value headers o t fits =
      let body = record_body key value headers o t in
      let n = record_body_len key value headers o t in
      rw (append_assoc (write_varint (pos n)) body rest) (
        parse_rounds_step f c (write_varint (pos n) ++ (body ++ rest)) (body ++ rest) (pos n)
          (read_varint_small (pos n) (body ++ rest) fits.6)
        ∙ ap (λ k. parse_sized c (parse_rounds f c) (pos k) (body ++ rest))
            (sym (length-record_body key value headers o t))
        ∙ parse_sized_record c (parse_rounds f c) body rest (fetched c o t key value headers)
            (length-record_body_positive key value headers o t)
            (Decodes-record c key value headers o t fits))

-- Every record can be encoded in its place in the batch, which starts at index i.
abbrev pub AllEncodable : ℕ → ℤ → ℤ → List ProduceRecord → Type 0
AllEncodable i now first [] = Unit
AllEncodable i now first (r ∷ records) =
    IsEncodable r.key r.value r.headers (pos i) (timestamp_delta_of now first r)
    × AllEncodable (i + 1) now first records

-- The records as the consumer gets them.
abbrev pub received : BatchContext → ℕ → ℤ → ℤ → List ProduceRecord → List FetchedRecord
received c i now first [] = []
received c i now first (r ∷ records) =
    fetched c (pos i) (timestamp_delta_of now first r) r.key r.value r.headers
    ∷ received c (i + 1) now first records

parse_rounds-append_records :
    (c : BatchContext) (f i : ℕ) (now first : ℤ) (records : List ProduceRecord)
    → AllEncodable i now first records
    → length records ≤ f
    → parse_rounds f c (append_records i now first records) ≡ ok (received c i now first records)
unfolding append_records parse_rounds
parse_rounds-append_records c zero i now first [] h le = refl
parse_rounds-append_records c (suc f) i now first [] h le = refl
parse_rounds-append_records c zero i now first (r ∷ records) h le = absurd (omega arith)
parse_rounds-append_records c (suc f) i now first (r ∷ records) h le =
    parse_rounds-append_record c f (append_records (i + 1) now first records) r.key r.value
      r.headers (pos i) (timestamp_delta_of now first r) h.0
    ∙ ap
        (λ m. bind m λ out.
          ok (fetched c (pos i) (timestamp_delta_of now first r) r.key r.value r.headers ∷ out))
        (parse_rounds-append_records c f (i + 1) now first records h.1 (omega arith))

length-append_record :
    (key value : List ℕ) (headers : List HeaderPair) (o t : ℤ)
    → 0 < length (append_record key value headers o t)
unfolding append_record
length-append_record key value headers o t = omega (
  arith,
  length-append (write_varint (pos (record_body_len key value headers o t)))
      (record_body key value headers o t),
  length-record_body_positive key value headers o t,
)

pub length-append_records :
    (i : ℕ) (now first : ℤ) (records : List ProduceRecord)
    → length records ≤ length (append_records i now first records)
unfolding append_records
length-append_records i now first [] = omega arith
length-append_records i now first (r ∷ records) = omega (
  arith,
  length-append (append_record r.key r.value r.headers (pos i) (timestamp_delta_of now first r))
      (append_records (i + 1) now first records),
  length-append_record r.key r.value r.headers (pos i) (timestamp_delta_of now first r),
  length-append_records (i + 1) now first records,
)

-- parseRecords, on the bytes that encodeRecordsPayload wrote for the records of a batch, returns
-- one record for each of them and in their order: with its key, value and headers, with the topic
-- and partition given, with base offset plus index as its offset, and with base timestamp plus its
-- distance from the first record's timestamp as its own (both int64 sums; a zero timestamp counts
-- as now). The condition is that every length, count, index and timestamp distance is within ReadVarint's
-- range, -2^28 to 2^28 - 1.
pub parse_records-encode_records_payload :
    (c : BatchContext) (now : ℤ) (r : ProduceRecord) (records : List ProduceRecord)
    → AllEncodable 0 now (millis_or now r.timestamp) (r ∷ records)
    → parse_records c (encode_records_payload now r records)
      ≡ ok (received c 0 now (millis_or now r.timestamp) (r ∷ records))
unfolding parse_records encode_records_payload
parse_records-encode_records_payload c now r records h =
    let first = millis_or now r.timestamp in
    parse_rounds-append_records c (length (append_records 0 now first (r ∷ records))) 0 now first
      (r ∷ records) h (length-append_records 0 now first (r ∷ records))

-- Where the base timestamp of the batch is the first record's, each record keeps its timestamp.
pub wrap_64_back :
    (a b : ℤ) → IsSigned (2 ^ 64) a → IsSigned (2 ^ 64) b → wrap_64 (b +ℤ wrap_64 (a -ℤ b)) ≡ a
wrap_64_back (pos a) (pos b) ha hb = ground arith
wrap_64_back (pos a) (negsuc b) ha hb = ground arith
wrap_64_back (negsuc a) (pos b) ha hb = ground arith
wrap_64_back (negsuc a) (negsuc b) ha hb = ground arith
