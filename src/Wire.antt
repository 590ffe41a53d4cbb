-- ===== src/Wire.antt =====
-- internal/wire: the Kafka primitive types, read from and written to a byte buffer.
pub mod Reader
pub mod Ints
pub mod Varint
pub mod Strings
pub mod Tags
pub mod Locality
pub mod Writer
