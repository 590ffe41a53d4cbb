-- ===== src/Protocol/ProduceApi/Response.antt =====
-- DecodeProduceResponse of internal/protocol/produce.go.
use gokafka.Prelude.{if◌then◌else◌, List, ℕ}
use gokafka.Prelude.Int.{ℤ, at_least}
use gokafka.Protocol.Arrays.{read_array, read_compact_array, flatten}
use gokafka.Wire.Ints.{read_int16, read_int32, read_int64}
use gokafka.Wire.Reader.{Reader, pure, ◌>>=◌, ◌>>◌}
use gokafka.Wire.Strings.{read_string, read_compact_string, read_compact_nullable_string}
use gokafka.Wire.Tags.{skip_tag_section}

pub record ProduceResult : Type 0 where
  pub topic : List ℕ
  pub partition : ℤ
  pub offset : ℤ
  pub error_code : ℤ

unfoldable pub read_produced_legacy : List ℕ → Reader ProduceResult
read_produced_legacy name = do
  part ← read_int32
  code ← read_int16
  offset ← read_int64
  read_int64
  read_int64
  pure (record { topic = name; partition = part; offset = offset; error_code = code })

unfoldable pub decode_produce_response_legacy : Reader (List ProduceResult)
unfolding read_produced_legacy
decode_produce_response_legacy = do
  out ← read_array (read_string >>= λ name. read_array (read_produced_legacy name))
  read_int32
  pure (flatten out)

-- The record errors and the message of version 8 and above, which are read and dropped.
unfoldable pub skip_record_errors : Reader (Unit {0})
skip_record_errors = do
  read_compact_array (read_int32 >> (read_compact_nullable_string >> pure (tt {0})))
  read_compact_nullable_string
  pure tt

unfoldable pub read_produced_flex : ℤ → List ℕ → Reader ProduceResult
unfolding skip_record_errors
read_produced_flex api_version name = do
  part ← read_int32
  code ← read_int16
  offset ← read_int64
  read_int64
  read_int64
  if at_least 8 api_version then skip_record_errors else pure tt
  skip_tag_section
  pure (record { topic = name; partition = part; offset = offset; error_code = code })

unfoldable pub read_produced_topic_flex : ℤ → Reader (List ProduceResult)
unfolding read_produced_flex
read_produced_topic_flex api_version = do
  name ← read_compact_string
  results ← read_compact_array (read_produced_flex api_version name)
  skip_tag_section
  pure results

unfoldable pub decode_produce_response_flex : ℤ → Reader (List ProduceResult)
unfolding read_produced_topic_flex
decode_produce_response_flex api_version = do
  out ← read_compact_array (read_produced_topic_flex api_version)
  read_int32
  skip_tag_section
  pure (flatten out)

unfoldable pub decode_produce_response : ℤ → Reader (List ProduceResult)
unfolding decode_produce_response_flex decode_produce_response_legacy
decode_produce_response api_version =
    if at_least 9 api_version
    then decode_produce_response_flex api_version
    else decode_produce_response_legacy
