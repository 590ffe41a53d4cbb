-- ===== src/Protocol/Assignment/RoundTrip.antt =====
-- What the leader encodes for a member, the member decodes.
use gokafka.Wire.Writer.{write_each, ◌<+>◌, Writer}
use gokafka.Wire.Strings.{read_string}
use gokafka.Wire.Ints.{read_int16, write_int32, write_int16, read_int32}
use gokafka.Prelude.{
  sym, subst, ◌++◌, refl, arith, ℕ, ◌≡◌, List, [], ◌∷◌, All, length, ◌^◌, ◌<◌, ◌≤◌,
}
use gokafka.Prelude.Int.{ℤ, pos, IsSigned}
use gokafka.Result.{panic, ok-injective, err, ok}
use gokafka.Wire.Ints.RoundTrip.{read_int32-write_int32, read_int16-write_int16}
use gokafka.Wire.Writer.Codes.{
  Codes, Codes-bind, Codes-last, Codes-each, Codes-emit, Codes-string, run, run-Codes,
}
use gokafka.Protocol.Assignment.{
  int32_of, TopicPartitions, legacy_topic, versioned_assignment, parse_legacy_assignment,
  parse_member_assignment, encode_topic, encode_member_assignment,
}

int32_of_small : (n : ℕ) → n < 2 ^ 31 → int32_of n ≡ pos n
int32_of_small n h = ground arith

-- A topic name of at most 32767 bytes, fewer than 2^31 partitions, and each an int32.
pub record IsEncodable (a : TopicPartitions) : Type 0 where
  pub name : length a.topic ≤ 32767
  pub count : length a.partitions < 2 ^ 31
  pub ids : All (IsSigned (2 ^ 32)) a.partitions

Codes-count : (n : ℕ) → n < 2 ^ 31 → Codes read_int32 (ok (write_int32 (int32_of n))) (pos n)
Codes-count n h =
    rw (int32_of_small n h) (Codes-emit read_int32 _ (pos n) (read_int32-write_int32 (pos n) h))

Codes-ids :
    (ps : List ℤ)
    → All (IsSigned (2 ^ 32)) ps
    → All (λ p. Codes read_int32 (ok (write_int32 p)) p) ps
Codes-ids [] h = tt
Codes-ids (p ∷ ps) h = (Codes-emit read_int32 _ p (read_int32-write_int32 p h.0), Codes-ids ps h.1)

Codes-topic : (a : TopicPartitions) → IsEncodable a → Codes legacy_topic (encode_topic a) a
unfolding legacy_topic encode_topic
Codes-topic a h = Codes-bind read_string _ _ _ a.topic a (Codes-string a.topic h.name) (
    Codes-bind read_int32 _ _ _ (pos (length a.partitions)) a (Codes-count _ h.count) (
      Codes-last _ (λ ps. record { topic = a.topic; partitions = ps }) _ a.partitions
        (Codes-each read_int32 (λ p. ok (write_int32 p)) a.partitions
          (Codes-ids a.partitions h.ids))))

Codes-topics :
    (ts : List TopicPartitions)
    → All IsEncodable ts
    → All (λ a. Codes legacy_topic (encode_topic a) a) ts
Codes-topics [] h = tt
Codes-topics (a ∷ ts) h = (Codes-topic a h.0, Codes-topics ts h.1)

Codes-versioned :
    (ts : List TopicPartitions)
    → length ts < 2 ^ 31
    → All IsEncodable ts
    → Codes versioned_assignment
        (ok (write_int16 (pos 0))
          <+> (ok (write_int32 (int32_of (length ts))) <+> write_each encode_topic ts))
        ts
unfolding versioned_assignment parse_legacy_assignment
Codes-versioned ts h all =
    Codes-bind read_int16 _ _ _ (pos 0) ts
      (Codes-emit read_int16 _ (pos 0) (read_int16-write_int16 (pos 0) (omega arith)))
      (Codes-bind read_int32 _ _ _ (pos (length ts)) ts (Codes-count _ h)
        (Codes-each legacy_topic encode_topic ts (Codes-topics ts all)))

nonempty_run :
    (v : ℤ) (w : Writer) (ts : List TopicPartitions)
    → Codes versioned_assignment (ok (write_int16 v) <+> w) ts
    → (raw : List ℕ) × ((ok (write_int16 v) <+> w) ≡ ok raw) × (parse_member_assignment raw ≡ ok ts)
unfolding write_int16 parse_member_assignment
nonempty_run v (ok w) ts h =
    let (enc, e, k) = run-Codes versioned_assignment (ok (write_int16 v) <+> ok w) ts h in
    (
      write_int16 v ++ w,
      refl,
      subst (λ s. run versioned_assignment s ≡ ok ts) (ok-injective (sym e)) k,
    )
nonempty_run v (err e) ts h = cc h.written
nonempty_run v panic ts h = cc h.written

-- EncodeMemberAssignment succeeds on fewer than 2^31 topics whose names are at most 32767 bytes long
-- and whose partitions are fewer than 2^31 int32 numbers, and ParseMemberAssignment returns the
-- same assignment from the bytes.
pub parse_member_assignment-encode :
    (ts : List TopicPartitions)
    → length ts < 2 ^ 31
    → All IsEncodable ts
    → (raw : List ℕ) × (encode_member_assignment ts ≡ ok raw)
      × (parse_member_assignment raw ≡ ok ts)
unfolding encode_member_assignment
parse_member_assignment-encode ts h all = nonempty_run (pos 0) _ ts (Codes-versioned ts h all)
