-- ===== src/Protocol/Admin/Listing.antt =====
-- The log directories of internal/protocol/admin_logdirs.go and the transactions of
-- admin_transactions.go.
use gokafka.Prelude.{if◌then◌else◌, Bool, false, List, [], ℕ, Option, none, some}
use gokafka.Prelude.Int.{ℤ, pos, negsuc, at_least}
use gokafka.Protocol.Admin.{TopicNumbers, write_topic_numbers}
use gokafka.Protocol.Arrays.{
  read_compact_array, flatten, write_array, write_compact_array, write_int32_element,
  write_compact_string_element,
}
use gokafka.Result.{ok}
use gokafka.Wire.Ints.{read_int16, read_int32, read_int64, read_bool, write_int32, write_int64}
use gokafka.Wire.Reader.{Reader, pure, ◌>>=◌, ◌>>◌}
use gokafka.Wire.Strings.{read_compact_string, write_string, write_compact_nullable_string}
use gokafka.Wire.Tags.{skip_tag_section, write_empty_tag_section}
use gokafka.Wire.Varint.{write_uvarint}
use gokafka.Wire.Writer.{Writer, ◌<+>◌}

pub record LogDirPartition : Type 0 where
  pub topic : List ℕ
  pub partition : ℤ
  pub size : ℤ
  pub offset_lag : ℤ
  pub is_future : Bool

pub record LogDirResult : Type 0 where
  pub error_code : ℤ
  pub log_dir : List ℕ
  pub total_bytes : ℤ
  pub usable_bytes : ℤ
  pub is_cordoned : Bool
  pub partitions : List LogDirPartition

unfoldable pub write_log_dir_topics : Option TopicNumbers → Writer
write_log_dir_topics none = ok (write_uvarint 0)
write_log_dir_topics (some topics) = write_compact_array write_topic_numbers topics

unfoldable pub write_log_dir_topics_legacy : Option TopicNumbers → Writer
write_log_dir_topics_legacy none = ok (write_int32 (negsuc 0))
write_log_dir_topics_legacy (some topics) =
    write_array (λ t. write_string t.0 <+> write_array write_int32_element t.1) topics

unfoldable pub encode_describe_log_dirs_request : ℤ → Option TopicNumbers → Writer
unfolding write_log_dir_topics write_log_dir_topics_legacy
encode_describe_log_dirs_request version topics =
    if at_least 2 version
    then write_log_dir_topics topics <+> ok write_empty_tag_section
    else write_log_dir_topics_legacy topics

unfoldable pub read_log_dir_partition : List ℕ → Reader LogDirPartition
read_log_dir_partition name = do
  part ← read_int32
  size ← read_int64
  lag ← read_int64
  future ← read_bool
  skip_tag_section
  pure
      (record { topic = name; partition = part; size = size; offset_lag = lag; is_future = future })

unfoldable pub read_log_dir_topic : Reader (List LogDirPartition)
unfolding read_log_dir_partition
read_log_dir_topic = do
  name ← read_compact_string
  parts ← read_compact_array (read_log_dir_partition name)
  skip_tag_section
  pure parts

unfoldable pub read_log_dir : ℤ → Reader LogDirResult
unfolding read_log_dir_topic
read_log_dir version = do
  code ← read_int16
  dir ← read_compact_string
  topics ← read_compact_array read_log_dir_topic
  total ← (if at_least 4 version then read_int64 else pure (negsuc 0))
  usable ← (if at_least 4 version then read_int64 else pure (negsuc 0))
  cordoned ← (if at_least 5 version then read_bool else pure false)
  skip_tag_section
  pure (record {
    error_code = code;
    log_dir = dir;
    total_bytes = total;
    usable_bytes = usable;
    is_cordoned = cordoned;
    partitions = flatten topics;
  })

-- The compact form is read at every version.
unfoldable pub decode_describe_log_dirs_response : ℤ → Reader (ℤ × List LogDirResult)
unfolding read_log_dir
decode_describe_log_dirs_response version = do
  read_int32
  top ← (if at_least 3 version then read_int16 else pure (pos 0))
  out ← read_compact_array (read_log_dir version)
  skip_tag_section
  pure (top, out)

pub record TransactionListing : Type 0 where
  pub transactional_id : List ℕ
  pub producer_id : ℤ
  pub state : List ℕ

unfoldable pub encode_list_transactions_request : ℤ → List (List ℕ) → List ℤ → Writer
encode_list_transactions_request version states producers =
    write_compact_array write_compact_string_element states
    <+> write_compact_array (λ p. ok (write_int64 p)) producers
    <+> ok (if at_least 1 version then write_int64 (negsuc 0) else [])
    <+> ok (if at_least 2 version then write_compact_nullable_string none else [])
    <+> ok write_empty_tag_section

unfoldable pub read_transaction_listing : Reader TransactionListing
read_transaction_listing = do
  id ← read_compact_string
  producer ← read_int64
  state ← read_compact_string
  skip_tag_section
  pure (record { transactional_id = id; producer_id = producer; state = state })

unfoldable pub decode_list_transactions_response : Reader (ℤ × List TransactionListing)
unfolding read_transaction_listing
decode_list_transactions_response = do
  read_int32
  code ← read_int16
  read_compact_array read_compact_string
  out ← read_compact_array read_transaction_listing
  skip_tag_section
  pure (code, out)

-- The topics are the stores into the map, in their order.
pub record TransactionDescription : Type 0 where
  pub error_code : ℤ
  pub transactional_id : List ℕ
  pub state : List ℕ
  pub timeout_ms : ℤ
  pub start_time_ms : ℤ
  pub producer_id : ℤ
  pub producer_epoch : ℤ
  pub topics : List (List ℕ × List ℤ)

unfoldable pub encode_describe_transactions_request : List (List ℕ) → Writer
encode_describe_transactions_request ids =
    write_compact_array write_compact_string_element ids <+> ok write_empty_tag_section

unfoldable pub read_transaction_topic : Reader (List ℕ × List ℤ)
read_transaction_topic = do
  topic ← read_compact_string
  parts ← read_compact_array read_int32
  skip_tag_section
  pure (topic, parts)

unfoldable pub read_transaction_description : Reader TransactionDescription
unfolding read_transaction_topic
read_transaction_description = do
  code ← read_int16
  id ← read_compact_string
  state ← read_compact_string
  timeout ← read_int32
  start ← read_int64
  producer ← read_int64
  epoch ← read_int16
  topics ← read_compact_array read_transaction_topic
  skip_tag_section
  pure (record {
    error_code = code;
    transactional_id = id;
    state = state;
    timeout_ms = timeout;
    start_time_ms = start;
    producer_id = producer;
    producer_epoch = epoch;
    topics = topics;
  })

unfoldable pub decode_describe_transactions_response : Reader (List TransactionDescription)
unfolding read_transaction_description
decode_describe_transactions_response = do
  read_int32
  out ← read_compact_array read_transaction_description
  skip_tag_section
  pure out
