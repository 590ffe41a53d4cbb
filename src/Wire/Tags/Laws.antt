-- ===== src/Wire/Tags/Laws.antt =====
-- Skipping a section of tagged fields.
use gokafka.Prelude.{arith}
use gokafka.Wire.Reader.{read_times}
use gokafka.Wire.Reader.Laws.{Reads}
use gokafka.Wire.Varint.RoundTrip.{read_uvarint_small}
use gokafka.Wire.Tags.{skip_tag_section, write_empty_tag_section}

pub skip_tag_section-write_empty : Reads skip_tag_section write_empty_tag_section tt
unfolding skip_tag_section write_empty_tag_section read_times
skip_tag_section-write_empty rest = rw (read_uvarint_small 0 rest (omega arith))
