-- ===== src/Protocol.antt =====
-- internal/protocol: the codecs of the Kafka messages, and the assignment of partitions to members.
pub mod Keys
pub mod Header
pub mod Coordinator
pub mod Groups
pub mod Assignment
pub mod Assignor
pub mod Arrays
pub mod ProduceApi
pub mod FetchApi
pub mod Metadata
pub mod OffsetsApi
pub mod TxnApi
pub mod Versions
pub mod GroupApi
pub mod ShareApi
pub mod Admin
pub mod Records
pub mod Batch
