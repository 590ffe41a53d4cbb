-- ===== src/Protocol/Assignment.antt =====
-- internal/protocol/assignment.go, and the subscription and assignment codecs of groups.go and
-- group_assign.go.
pub mod RoundTrip
pub mod Subscription
use gokafka.Prelude.{
  ℕ, List, [], ◌∷◌, ◌++◌, ◌-◌, ◌%◌, ◌^◌, Option, none, length, if◌then◌else◌, codes, bytes_eq, Bool,
  ◌||◌, ltb,
}
use gokafka.Prelude.Int.{ℤ, pos, negsuc, pos_part, to_signed, eqb_ℤ}
use gokafka.Result.{Result, ok, err, unknown_assignor}
use gokafka.Wire.Reader.{Reader, pure, ◌>>=◌, ◌>>◌, read_times}
use gokafka.Wire.Ints.{read_int16, read_int32, write_int16, write_int32}
use gokafka.Wire.Varint.{read_uvarint}
use gokafka.Wire.Strings.{read_string, write_string, read_compact_string, write_bytes}
use gokafka.Wire.Writer.{Writer, ◌<+>◌, write_each}
use gokafka.Wire.Writer.Codes.{run}

-- TopicPartitionAssignment
pub record TopicPartitions : Type 0 where
  pub topic : List ℕ
  pub partitions : List ℤ

-- safePrealloc, the capacity of the first allocation.
unfoldable pub safe_prealloc : ℤ → ℕ
safe_prealloc (negsuc n) = 0
safe_prealloc (pos n) = if ltb 4096 n then 4096 else n

-- `for i := int32(0); i < n; i++`: no round for a negative count.
abbrev pub rounds : ℤ → ℕ
rounds = pos_part

-- int32(n) of a length.
abbrev pub int32_of : ℕ → ℤ
int32_of n = to_signed (2 ^ 32) (n % 2 ^ 32)

legacy_topic : Reader TopicPartitions
legacy_topic = do
  topic ← read_string
  n ← read_int32
  parts ← read_times (rounds n) read_int32
  pure (record { topic = topic; partitions = parts })

parse_legacy_assignment : Reader (List TopicPartitions)
unfolding legacy_topic
parse_legacy_assignment = do n ← read_int32; read_times (rounds n) legacy_topic

-- `for i := 1; i < int(n); i++`
compact_topic : Reader TopicPartitions
compact_topic = do
  topic ← read_compact_string
  n ← read_uvarint
  parts ← read_times (n - 1) read_int32
  pure (record { topic = topic; partitions = parts })

parse_compact_assignment : Reader (List TopicPartitions)
unfolding compact_topic
parse_compact_assignment = do n ← read_uvarint; read_times (n - 1) compact_topic

versioned_assignment : Reader (List TopicPartitions)
versioned_assignment = do
  version ← read_int16
  if eqb_ℤ version (pos 0) || eqb_ℤ version (pos 1)
      then parse_legacy_assignment
      else parse_compact_assignment

unfoldable pub parse_member_assignment : List ℕ → Result (List TopicPartitions)
unfolding versioned_assignment parse_legacy_assignment parse_compact_assignment
parse_member_assignment [] = ok []
parse_member_assignment (b ∷ raw) = run versioned_assignment (b ∷ raw)

encode_topic : TopicPartitions → Writer
encode_topic a =
    write_string a.topic
    <+> ok (write_int32 (int32_of (length a.partitions)))
    <+> write_each (λ p. ok (write_int32 p)) a.partitions

unfoldable pub encode_member_assignment : List TopicPartitions → Writer
unfolding encode_topic
encode_member_assignment assignments =
    ok (write_int16 (pos 0))
    <+> ok (write_int32 (int32_of (length assignments)))
    <+> write_each encode_topic assignments

-- encodeConsumerSubscriptionLegacy, which EncodeConsumerSubscription calls at every version.
unfoldable pub encode_consumer_subscription : List (List ℕ) → Bool → Writer
encode_consumer_subscription topics cooperative =
    ok (if cooperative then write_int16 (pos 3) else write_int16 (pos 0))
    <+> ok (write_int32 (int32_of (length topics)))
    <+> write_each write_string topics
    <+> ok (write_bytes none)

subscription : Reader (List (List ℕ))
subscription = do read_int16; n ← read_int32; read_times (rounds n) read_string

unfoldable pub decode_consumer_subscription : List ℕ → Result (List (List ℕ))
unfolding subscription
decode_consumer_subscription [] = ok []
decode_consumer_subscription (b ∷ raw) = run subscription (b ∷ raw)

-- PartitionAssignor
pub data Assignor : Type 0 where
  range round_robin sticky : Assignor

unfoldable pub assignor_name : Assignor → List ℕ
assignor_name round_robin = codes "roundrobin"
assignor_name sticky = codes "sticky"
assignor_name range = codes "range"

unfoldable pub parse_assignor : List ℕ → Result Assignor
unfolding bytes_eq
parse_assignor s =
    if bytes_eq s (codes "range") || bytes_eq s (codes "")
    then ok range
    else if bytes_eq s (codes "roundrobin")
    then ok round_robin
    else if bytes_eq s (codes "sticky") || bytes_eq s (codes "cooperative-sticky")
    then ok sticky
    else err unknown_assignor
