-- ===== src/Protocol/Metadata.antt =====
-- The Metadata messages of internal/protocol/metadata.go.
pub mod Request
use gokafka.Prelude.{◌&&◌, not, if◌then◌else◌, List, [], ℕ}
use gokafka.Prelude.Int.{ℤ, pos, negsuc, at_least}
use gokafka.Protocol.Arrays.{read_array, read_compact_array, read_nullable_string, skip_when}
use gokafka.Result.{Result, ok, err, panic}
use gokafka.Wire.Ints.{read_int16, read_int32, read_bool, read_uuid}
use gokafka.Wire.Reader.{Reader, pure, ◌>>=◌, ◌>>◌}
use gokafka.Wire.Strings.{read_string, read_compact_string, read_compact_nullable_string}
use gokafka.Wire.Tags.{skip_tag_section}

pub record Broker : Type 0 where
  pub node_id : ℤ
  pub host : List ℕ
  pub port : ℤ
  pub rack : List ℕ

pub record PartitionMeta : Type 0 where
  pub topic : List ℕ
  pub partition : ℤ
  pub leader : ℤ
  pub leader_epoch : ℤ
  pub replicas : List ℤ
  pub isr : List ℤ
  pub offline : List ℤ
  pub error_code : ℤ

-- The zero UUID is the empty list where a version has none.
pub record TopicMeta : Type 0 where
  pub name : List ℕ
  pub topic_id : List ℕ
  pub partitions : List PartitionMeta
  pub error_code : ℤ

pub record MetadataResponse : Type 0 where
  pub brokers : List Broker
  pub controller : ℤ
  pub cluster_id : List ℕ
  pub topics : List TopicMeta

unfoldable pub read_broker_flex : Reader Broker
read_broker_flex = do
  node ← read_int32
  host ← read_compact_string
  port ← read_int32
  rack ← read_compact_nullable_string
  skip_tag_section
  pure (record { node_id = node; host = host; port = port; rack = rack })

unfoldable pub read_compact_int32_array : Reader (List ℤ)
read_compact_int32_array = read_compact_array read_int32

unfoldable pub read_partition_meta_flex : ℤ → List ℕ → Reader PartitionMeta
unfolding read_compact_int32_array
read_partition_meta_flex version name = do
  code ← read_int16
  part ← read_int32
  leader ← read_int32
  epoch ← (if at_least 7 version then read_int32 else pure (negsuc 0))
  replicas ← read_compact_int32_array
  isr ← read_compact_int32_array
  offline ← read_compact_int32_array
  skip_tag_section
  pure (record {
    topic = name;
    partition = part;
    leader = leader;
    leader_epoch = epoch;
    replicas = replicas;
    isr = isr;
    offline = offline;
    error_code = code;
  })

unfoldable pub read_topic_meta_flex : ℤ → Reader TopicMeta
unfolding read_partition_meta_flex
read_topic_meta_flex version = do
  code ← read_int16
  name ← (if at_least 12 version then read_compact_nullable_string else read_compact_string)
  id ← (if at_least 10 version then read_uuid else pure [])
  read_bool
  parts ← read_compact_array (read_partition_meta_flex version name)
  skip_when (at_least 8 version) read_int32
  skip_tag_section
  pure (record { name = name; topic_id = id; partitions = parts; error_code = code })

unfoldable pub decode_metadata_response_flex : ℤ → Reader MetadataResponse
unfolding read_broker_flex read_topic_meta_flex
decode_metadata_response_flex version = do
  read_int32
  brokers ← read_compact_array read_broker_flex
  cluster ← read_compact_nullable_string
  controller ← read_int32
  topics ← read_compact_array (read_topic_meta_flex version)
  skip_when (at_least 8 version && not (at_least 11 version)) read_int32
  skip_when (at_least 13 version) read_int16
  skip_tag_section
  pure
      (record { brokers = brokers; controller = controller; cluster_id = cluster; topics = topics })

unfoldable pub read_broker_legacy : Reader Broker
read_broker_legacy = do
  node ← read_int32
  host ← read_string
  port ← read_int32
  rack ← read_nullable_string
  pure (record { node_id = node; host = host; port = port; rack = rack })

unfoldable pub read_partition_meta_legacy : List ℕ → Reader PartitionMeta
read_partition_meta_legacy name = do
  code ← read_int16
  part ← read_int32
  leader ← read_int32
  epoch ← read_int32
  replicas ← read_array read_int32
  isr ← read_array read_int32
  offline ← read_array read_int32
  pure (record {
    topic = name;
    partition = part;
    leader = leader;
    leader_epoch = epoch;
    replicas = replicas;
    isr = isr;
    offline = offline;
    error_code = code;
  })

-- `_, _ = buf.ReadInt32()`: where too few bytes are left, none is taken.
abbrev pub or_nothing : List ℕ → Result (ℤ × List ℕ) → Result (Unit {0} × List ℕ)
or_nothing s (ok (v, rest)) = ok (tt, rest)
or_nothing s (err e) = ok (tt, s)
or_nothing s panic = panic

unfoldable pub try_read_int32 : Reader (Unit {0})
try_read_int32 s = or_nothing s (read_int32 s)

unfoldable pub read_topic_meta_legacy : Reader TopicMeta
unfolding read_partition_meta_legacy try_read_int32
read_topic_meta_legacy = do
  code ← read_int16
  name ← read_string
  read_bool
  parts ← read_array (read_partition_meta_legacy name)
  try_read_int32
  pure (record { name = name; topic_id = []; partitions = parts; error_code = code })

unfoldable pub decode_metadata_response_legacy : Reader MetadataResponse
unfolding read_broker_legacy read_topic_meta_legacy
decode_metadata_response_legacy = do
  read_int32
  brokers ← read_array read_broker_legacy
  cluster ← read_nullable_string
  controller ← read_int32
  topics ← read_array read_topic_meta_legacy
  try_read_int32
  pure
      (record { brokers = brokers; controller = controller; cluster_id = cluster; topics = topics })

unfoldable pub decode_metadata_response : ℤ → Reader MetadataResponse
unfolding decode_metadata_response_flex decode_metadata_response_legacy
decode_metadata_response version =
    if at_least 9 version
    then decode_metadata_response_flex version
    else decode_metadata_response_legacy
