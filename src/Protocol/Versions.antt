-- ===== src/Protocol/Versions.antt =====
-- The ApiVersions and DescribeCluster messages of internal/protocol/api_versions.go and cluster.go.
use gokafka.Protocol.Keys.Versions.{ver_api_versions}
use gokafka.Prelude.{
  ℕ, zero, suc, if◌then◌else◌, ◌==◌, ltb, length, drop, codes, false, List, [], ◌∷◌, ◌++◌,
}
use gokafka.Prelude.Int.{ℤ, pos, at_least}
use gokafka.Protocol.Arrays.{read_array, read_compact_array, skip_when}
use gokafka.Protocol.Keys.Negotiate.{ApiVersion}
use gokafka.Protocol.Metadata.{Broker, read_broker_flex}
use gokafka.Result.{ok, err, bind, short_buffer}
use gokafka.Wire.Ints.{read_int8, read_int16, read_int32, write_int8, write_bool}
use gokafka.Wire.Reader.{Reader, pure, ◌>>=◌, ◌>>◌}
use gokafka.Wire.Strings.{read_compact_string, read_compact_nullable_string, write_compact_string}
use gokafka.Wire.Tags.{skip_tag_section, write_empty_tag_section}
use gokafka.Wire.Varint.{read_uvarint}
use gokafka.Wire.Writer.{Writer, ◌<+>◌}

abbrev pub software_name_or_default : List ℕ → List ℕ
software_name_or_default [] = codes "gokafka"
software_name_or_default (b ∷ s) = b ∷ s

unfoldable pub encode_api_versions_request : List ℕ → List ℕ → Writer
encode_api_versions_request name version =
    if at_least 3 ver_api_versions
    then ok (write_compact_string (software_name_or_default name))
      <+> ok (write_compact_string version)
      <+> ok write_empty_tag_section
    else ok []

pub record FinalizedFeature : Type 0 where
  pub name : List ℕ
  pub min_level : ℤ
  pub max_level : ℤ

pub record ApiVersions : Type 0 where
  pub versions : List ApiVersion
  pub features : List FinalizedFeature
  pub error_code : ℤ

unfoldable pub read_api_version : Reader ApiVersion
read_api_version = do
  key ← read_int16
  least ← read_int16
  most ← read_int16
  pure (record { api_key = key; min_version = least; max_version = most })

unfoldable pub decode_api_versions_response_legacy : ℤ → Reader ApiVersions
unfolding read_api_version
decode_api_versions_response_legacy version = do
  code ← read_int16
  out ← read_array read_api_version
  skip_when (at_least 2 version) read_int32
  pure (record { versions = out; features = []; error_code = code })

unfoldable pub read_finalized_feature : Reader FinalizedFeature
read_finalized_feature = do
  name ← read_compact_string
  most ← read_int16
  least ← read_int16
  skip_tag_section
  pure (record { name = name; min_level = least; max_level = most })

-- What a tagged field of the given tag holds. The features, tag 2, are read from where the field starts.
unfoldable pub field_features : ℕ → Reader (List FinalizedFeature)
unfolding read_finalized_feature
field_features tag = if tag == 2 then read_compact_array read_finalized_feature else pure []

-- A field ends after its size, wherever the reading of the features stopped.
unfoldable pub sized_field : ℕ → ℕ → Reader (List FinalizedFeature)
unfolding field_features
sized_field tag size s =
    if ltb (length s) size
    then err short_buffer
    else bind (field_features tag s) λ r. ok (r.0, drop size s)

unfoldable pub read_feature_fields : ℕ → Reader (List FinalizedFeature)
unfolding sized_field
read_feature_fields zero = pure []
read_feature_fields (suc n) = do
  tag ← read_uvarint
  size ← read_uvarint
  features ← sized_field tag size
  more ← read_feature_fields n
  pure (features ++ more)

unfoldable pub read_api_versions_finalized_features : Reader (List FinalizedFeature)
unfolding read_feature_fields
read_api_versions_finalized_features = do n ← read_uvarint; read_feature_fields n

unfoldable pub decode_api_versions_response_flex : Reader ApiVersions
unfolding read_api_version read_api_versions_finalized_features
decode_api_versions_response_flex = do
  code ← read_int16
  out ← read_compact_array (do v ← read_api_version; skip_tag_section; pure v)
  read_int32
  features ← read_api_versions_finalized_features
  pure (record { versions = out; features = features; error_code = code })

unfoldable pub decode_api_versions_response : ℤ → Reader ApiVersions
unfolding decode_api_versions_response_flex decode_api_versions_response_legacy
decode_api_versions_response version =
    if at_least 3 version
    then decode_api_versions_response_flex
    else decode_api_versions_response_legacy version

pub record ClusterDescription : Type 0 where
  pub cluster_id : List ℕ
  pub controller_id : ℤ
  pub brokers : List Broker
  pub error_code : ℤ

unfoldable pub encode_describe_cluster_request : Writer
encode_describe_cluster_request =
    ok (write_bool false) <+> ok (write_int8 (pos 0)) <+> ok write_empty_tag_section

unfoldable pub decode_describe_cluster_response : Reader ClusterDescription
unfolding read_broker_flex
decode_describe_cluster_response = do
  read_int32
  code ← read_int16
  read_compact_nullable_string
  read_int8
  cluster ← read_compact_string
  controller ← read_int32
  brokers ← read_compact_array read_broker_flex
  read_int32
  skip_tag_section
  pure (record {
    cluster_id = cluster;
    controller_id = controller;
    brokers = brokers;
    error_code = code;
  })
