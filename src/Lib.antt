-- ===== src/Lib.antt =====
-- A model of gokafka, a Kafka client in Go, and of the theorems that make its parts correct.
--
-- The program. A client call becomes a request body (internal/protocol), which the wire buffer
-- (internal/wire/buffer.go) builds byte by byte and internal/protocol/header.go frames. The version of
-- each API is negotiated once per connection (NegotiateVersion). A producer picks a partition
-- (partitioner.go) and, where it is idempotent, a sequence number (internal/produce/state.go), and puts
-- its records into batches (encodeRecordBatch), which the consumer gets back through decodeRecordBatch
-- without the records of aborted transactions. A
-- consumer group exchanges subscriptions and assignments through JoinGroup and SyncGroup
-- (internal/protocol/groups.go), and the member that leads computes the assignment
-- (internal/protocol/group_assign.go).
--
-- The files.
--   Prelude, Result: shared names, Boolean tests, lists, int types as integers within a modulus, Go's
--     (value, error) pairs and panics.
--   Wire: internal/wire/buffer.go. Reader is B[I:] threaded through the read methods (ReadInt32 is
--     read_int32, and so on), Writer the bytes that a write method appends, with the panic of
--     WriteString. Ints, Varint, Strings, Tags hold the methods; their children the round trips;
--     Locality is about the bytes that a read method takes.
--   Protocol/Keys: internal/protocol/keys.go, versions.go, flex.go and NegotiateVersion.
--   Protocol/Header: header.go. Protocol/Coordinator: coordinator.go. Protocol/Groups: groups.go.
--   Protocol/Assignment: assignment.go and the subscription and assignment codecs.
--   Protocol/Assignor: group_assign.go. Its children prove each assignor fair, and Compute is
--     ComputeGroupAssignments, with the order of Go's map iteration as an argument.
--   Partitioner: partitioner.go, with murmur2 on 32-bit words.
--   Produce: internal/produce/state.go.
--   Compress: internal/compress. Snappy and Lz4 are snappy.go and lz4.go, Zstd the frames of
--     zstd.go, zstd/encode.go and zstd/decode.go; the parent is codec.go and gzip.go. Their children are
--     about what the encoders write and the decoders read.
--   Protocol/Records: the records of a batch, as produce.go writes them; Records/Parse is parseRecords
--     of fetch.go. Length, Overflow, RoundTrip and Parse/Rounds are about the two.
--   Protocol/Batch: encodeRecordBatch of produce.go; Batch/Decode is decodeOneRecordBatch and
--     Batch/Filter decodeRecordBatch of fetch.go. Payload, RoundTrip and Plain are about the batch of a
--     producer, Loop about the batches of a partition, Isolation and Shown about read_committed.
--   Protocol/Arrays: the counted arrays of the codecs and the grouping of items by topic or partition.
--   Protocol/ProduceApi, FetchApi, Metadata, OffsetsApi, TxnApi, Versions, GroupApi, ShareApi: the
--     requests and responses of produce.go, fetch.go, metadata.go, offsets.go, transaction.go,
--     api_versions.go with cluster.go, the two heartbeats, and the share_*.go files.
--   Protocol/Admin: acl.go and the admin*.go files of internal/protocol, by what they administer.
--   Schema: internal/schema/wire/confluent.go. Headers: record_headers.go.
--   Kfake: the mock broker of kfake, which the client is tested against: Group is groups.go (join,
--     sync, heartbeat, leave), Log is store.go with the append of produce.go and collectBatches of
--     fetch.go. Group/Join runs a client's join through the broker and back.
--   Transaction: transaction.go, with the set of registered partitions and, in State, the calls as a
--     step relation. Retry: pendingRecords and mergeAcked of producer.go.
--   Examples: the theorems at concrete inputs.
--
-- Conventions. A Go string is the list of its bytes. An int of w bits is an integer, and each
-- conversion goes through the modulus 2 ^ w. A map is a function or the list of its pairs in the order
-- of the iteration. A pointer or a slice that may be nil is an Option where the code tells nil apart.
--
-- Bounds and fuel. read_uvarint runs over the five bytes of the Go loop; write_uvarint has ten rounds,
-- enough for 64 bits (write_uvarint_loop_fuel). Counted loops run on their count, and no count is
-- bounded. The loops over the bytes of a batch (parse_rounds, decode_batches) and over a block
-- (snappy_rounds, lz4_rounds and the loops of the encoders) have as many rounds as there are bytes,
-- since each takes at least one (parse_rounds_enough, decode_batches_enough). Every other loop runs
-- over a list.
--
-- Parameters. The CRC-32C is a function from bytes to a number (checksum), the deflate
-- library, the bodies of zstd blocks, the zstd reader and the limit on decompressed bytes are the record
-- Codecs, the readings of time.Now are the
-- record Clock, and the map from topic ids to names is a function.
--
-- Not modelled: sockets, TLS, SASL, timers, goroutines and their locks, the body of a compressed
-- block of internal/compress/zstd/encode.go (its matches and their entropy coding) and the copy of Go's
-- decoder beside it, DecodeConsumerGroupHeartbeatResponseLegacy, the HTTP client of the schema registry, metrics, and options.
pub mod Compress
pub mod Prelude
pub mod Result
pub mod Wire
pub mod Protocol
pub mod Partitioner
pub mod Produce
pub mod Examples
pub mod Schema
pub mod Headers
pub mod Kfake
pub mod Transaction
pub mod Retry
