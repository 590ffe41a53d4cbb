-- ===== src/Protocol/Admin.antt =====
-- The messages of the admin client, internal/protocol/admin*.go and acl.go, by what they administer.
pub mod Groups
pub mod Configs
pub mod Topics
pub mod Records
pub mod Acls
pub mod Quotas
pub mod Listing
pub mod Scram
pub mod Reassign
pub mod Delegation
use gokafka.Prelude.{List, ℕ, Option, none, some}
use gokafka.Prelude.Int.{ℤ}
use gokafka.Protocol.Arrays.{write_compact_array, write_int32_element}
use gokafka.Result.{ok}
use gokafka.Wire.Strings.{write_compact_string}
use gokafka.Wire.Tags.{write_empty_tag_section}
use gokafka.Wire.Writer.{Writer, ◌<+>◌}

-- A topic with its partition numbers, and a map from topics to them in the order of iteration.
abbrev pub TopicNumbers : Type 0
TopicNumbers = List (List ℕ × List ℤ)

abbrev pub write_topic_numbers : List ℕ × List ℤ → Writer
write_topic_numbers t =
    ok (write_compact_string t.0)
    <+> write_compact_array write_int32_element t.1
    <+> ok write_empty_tag_section
