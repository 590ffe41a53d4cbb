-- ===== src/Wire/Tags.antt =====
-- The tagged-field sections of internal/wire/buffer.go.
pub mod Laws
use gokafka.Prelude.{ℕ, List}
use gokafka.Wire.Reader.{Reader, pure, ◌>>=◌, ◌>>◌, read_raw, read_times}
use gokafka.Wire.Varint.{read_uvarint, write_uvarint}

-- One tagged field: a tag, a size, and that many bytes.
unfoldable pub skip_tag : Reader (Unit {0})
skip_tag = do read_uvarint; size ← read_uvarint; read_raw size; pure tt

unfoldable pub skip_tag_section : Reader (Unit {0})
unfolding skip_tag
skip_tag_section = do n ← read_uvarint; read_times n skip_tag; pure tt

unfoldable pub write_empty_tag_section : List ℕ
write_empty_tag_section = write_uvarint 0
