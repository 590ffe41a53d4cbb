-- ===== src/Protocol/Records/Parse.antt =====
-- parseRecords of internal/protocol/fetch.go: the loop over the records of a batch. It keeps the
-- bytes behind a record's length: the record ends after that many of them, wherever its fields stop.
pub mod Rounds
use gokafka.Prelude.{
  ℕ, zero, suc, List, [], ◌∷◌, ltb, length, if◌then◌else◌, take, drop, Bool, Option, none, some,
}
use gokafka.Prelude.Int.{ℤ, pos, negsuc, ◌+ℤ◌, wrap_64}
use gokafka.Protocol.Assignment.{rounds}
use gokafka.Protocol.Records.{HeaderPair}
use gokafka.Result.{Result, bind, ok}
use gokafka.Wire.Ints.{read_int8}
use gokafka.Wire.Reader.{Reader, pure, ◌>>=◌, ◌>>◌}
use gokafka.Wire.Varint.{read_varint}

pub record FetchedRecord : Type 0 where
  pub topic : List ℕ
  pub partition : ℤ
  pub offset : ℤ
  pub key : List ℕ
  pub value : List ℕ
  pub headers : List HeaderPair
  pub timestamp : ℤ
  pub control : Bool
  pub delivery_count : ℤ

-- What the fields of a record are read for: parseRecords's parameters.
pub record BatchContext : Type 0 where
  pub topic : List ℕ
  pub partition : ℤ
  pub base_offset : ℤ
  pub base_timestamp : ℤ

-- A length that is not positive leaves nil; none is a field longer than what is left.
unfoldable pub field_body : ℤ → Reader (Option (List ℕ))
field_body (pos n) s = if ltb (length s) n then ok (none, s) else ok (some (take n s), drop n s)
field_body (negsuc n) s = ok (some [], s)

unfoldable pub read_field : Reader (Option (List ℕ))
unfolding field_body
read_field = read_varint >>= field_body

-- `break` and `continue` of the loops: the rest of the round is left out.
abbrev pub unless_cut {ℓ} : {B : Type ℓ} → B → (List ℕ → Reader B) → Option (List ℕ) → Reader B
unless_cut d f none = pure d
unless_cut d f (some x) = f x

-- The loop over the headers: one that is cut short ends it, with the headers before it kept.
unfoldable pub read_headers : ℕ → Reader (List HeaderPair)
unfolding read_field
read_headers zero = pure []
read_headers (suc n) =
    read_field
    >>= unless_cut []
        λ k. read_field >>= unless_cut [] λ v. read_headers n >>= λ hs. pure ((k, v) ∷ hs)

abbrev pub fetched : BatchContext → ℤ → ℤ → List ℕ → List ℕ → List HeaderPair → FetchedRecord
fetched c offset_delta timestamp_delta key value headers = record {
  topic = c.topic;
  partition = c.partition;
  offset = wrap_64 (c.base_offset +ℤ offset_delta);
  key = key;
  value = value;
  headers = headers;
  timestamp = wrap_64 (c.base_timestamp +ℤ timestamp_delta);
  control = Bool.false;
  delivery_count = pos 0;
}

-- The fields behind a record's length; none is a record that is skipped.
unfoldable pub read_record : BatchContext → Reader (Option FetchedRecord)
unfolding read_field read_headers
read_record c = do
  read_int8
  timestamp_delta ← read_varint
  offset_delta ← read_varint
  read_field
      >>= unless_cut none λ key.
        read_field
        >>= unless_cut none λ value. do
          n ← read_varint
          headers ← read_headers (rounds n)
          pure (some (fetched c offset_delta timestamp_delta key value headers))

abbrev pub keep_record : Option FetchedRecord → List FetchedRecord → List FetchedRecord
keep_record none out = out
keep_record (some r) out = r ∷ out

-- One round, past its length; `next` is the rounds after it.
unfoldable pub parse_sized :
    BatchContext → (List ℕ → Result (List FetchedRecord)) → ℤ → List ℕ → Result (List FetchedRecord)
unfolding read_record
parse_sized c next (negsuc n) s = ok []
parse_sized c next (pos zero) s = ok []
parse_sized c next (pos (suc n)) s =
    if ltb (length s) (suc n)
    then ok []
    else bind (read_record c s) λ r. bind (next (drop (suc n) s)) λ out. ok (keep_record r.0 out)

-- Each round takes at least one byte, so as many rounds as there are bytes are enough.
unfoldable pub parse_rounds : ℕ → BatchContext → List ℕ → Result (List FetchedRecord)
unfolding parse_sized
parse_rounds zero c s = ok []
parse_rounds (suc fuel) c [] = ok []
parse_rounds (suc fuel) c (b ∷ s) =
    bind (read_varint (b ∷ s)) λ r. parse_sized c (parse_rounds fuel c) r.0 r.1

unfoldable pub parse_records : BatchContext → List ℕ → Result (List FetchedRecord)
unfolding parse_rounds
parse_records c s = parse_rounds (length s) c s
