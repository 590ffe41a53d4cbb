-- ===== src/Protocol/Coordinator.antt =====
-- internal/protocol/coordinator.go: which broker looks after a group or a transactional id.
use gokafka.Wire.Tags.{skip_tag_section, write_empty_tag_section}
use gokafka.Wire.Ints.{read_int16, read_int32, write_int8}
use gokafka.Result.{ok}
use gokafka.Protocol.Keys.Versions.{ver_find_coordinator}
use gokafka.Wire.Writer.{◌<+>◌, Writer}
use gokafka.Wire.Strings.{
  read_compact_string, read_string, read_compact_nullable_string, write_compact_string,
  write_string,
}
use gokafka.Wire.Reader.{pure, ◌>>◌, ◌>>=◌, Reader}
use gokafka.Prelude.Int.{at_least, ℤ}
use gokafka.Prelude.{[], ◌++◌, ℕ, if◌then◌else◌, List}

pub record CoordinatorResponse : Type 0 where
  pub throttle_time : ℤ
  pub error_code : ℤ
  pub node_id : ℤ
  pub host : List ℕ
  pub port : ℤ

unfoldable pub encode_find_coordinator_request_flex : List ℕ → ℤ → Writer
encode_find_coordinator_request_flex key key_type =
    ok (write_compact_string key ++ write_int8 key_type ++ write_empty_tag_section)

unfoldable pub encode_find_coordinator_request : List ℕ → ℤ → Writer
unfolding write_string
encode_find_coordinator_request key key_type =
    if at_least 3 ver_find_coordinator
    then encode_find_coordinator_request_flex key key_type
    else write_string key <+> ok (write_int8 key_type)

unfoldable pub decode_find_coordinator_response_legacy : Reader CoordinatorResponse
decode_find_coordinator_response_legacy = do
  throttle ← read_int32
  code ← read_int16
  if at_least 1 ver_find_coordinator then read_string else pure []
  node ← read_int32
  host ← read_string
  port ← read_int32
  pure (record {
    throttle_time = throttle;
    error_code = code;
    node_id = node;
    host = host;
    port = port;
  })

unfoldable pub decode_find_coordinator_response_flex : Reader CoordinatorResponse
decode_find_coordinator_response_flex = do
  throttle ← read_int32
  code ← read_int16
  read_compact_nullable_string
  node ← read_int32
  host ← read_compact_string
  port ← read_int32
  skip_tag_section
  pure (record {
    throttle_time = throttle;
    error_code = code;
    node_id = node;
    host = host;
    port = port;
  })

unfoldable pub decode_find_coordinator_response : Reader CoordinatorResponse
decode_find_coordinator_response =
    if at_least 3 ver_find_coordinator
    then decode_find_coordinator_response_flex
    else decode_find_coordinator_response_legacy
