-- ===== src/Protocol/Metadata/Request.antt =====
-- EncodeMetadataRequest of internal/protocol/metadata.go. No topics (nil) asks for all of them.
use gokafka.Prelude.{if◌then◌else◌, List, [], ℕ, Option, none, some, true, false, replicate}
use gokafka.Prelude.Int.{ℤ, negsuc, at_least}
use gokafka.Protocol.Arrays.{write_array, write_compact_array}
use gokafka.Result.{ok}
use gokafka.Wire.Ints.{write_int32, write_bool, write_uuid}
use gokafka.Wire.Strings.{write_string, write_compact_string, write_compact_nullable_string}
use gokafka.Wire.Tags.{write_empty_tag_section}
use gokafka.Wire.Varint.{write_uvarint}
use gokafka.Wire.Writer.{Writer, ◌<+>◌}

unfoldable pub write_topic_names : Option (List (List ℕ)) → Writer
write_topic_names none = ok (write_int32 (negsuc 0))
write_topic_names (some topics) = write_array write_string topics

unfoldable pub encode_metadata_request_legacy : Option (List (List ℕ)) → Writer
unfolding write_topic_names
encode_metadata_request_legacy topics =
    write_topic_names topics
    <+> ok (write_bool true)
    <+> ok (write_bool false)
    <+> ok (write_bool false)

unfoldable pub write_metadata_topic : ℤ → List ℕ → Writer
write_metadata_topic version t =
    (if at_least 10 version
      then ok (write_uuid (replicate 16 0)) <+> ok (write_compact_nullable_string (some t))
      else ok (write_compact_string t))
    <+> ok write_empty_tag_section

unfoldable pub write_metadata_topics : ℤ → Option (List (List ℕ)) → Writer
unfolding write_metadata_topic
write_metadata_topics version none = ok (write_uvarint 0)
write_metadata_topics version (some topics) =
    write_compact_array (write_metadata_topic version) topics

unfoldable pub encode_metadata_request_flex : ℤ → Option (List (List ℕ)) → Writer
unfolding write_metadata_topics
encode_metadata_request_flex version topics =
    write_metadata_topics version topics
    <+> ok (write_bool true)
    <+> ok (if at_least 11 version then [] else write_bool false)
    <+> ok (write_bool false)
    <+> ok write_empty_tag_section

unfoldable pub encode_metadata_request : ℤ → Option (List (List ℕ)) → Writer
unfolding encode_metadata_request_flex encode_metadata_request_legacy
encode_metadata_request version topics =
    if at_least 9 version
    then encode_metadata_request_flex version topics
    else encode_metadata_request_legacy topics
