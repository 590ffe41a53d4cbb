-- ===== src/Result.antt =====
-- Go's (value, error) pairs. `panic` is a run-time panic, which stops the goroutine.
use gokafka.Prelude.{◌≡◌}
use gokafka.Prelude.Int.{ℤ}

-- The error values that the modelled code returns.
pub data Error : Type 0 where
  -- internal/wire: ErrShortBuffer, and the unnamed "uvarint overflow"
  short_buffer uvarint_overflow : Error
  -- internal/compress: errSnappyCorrupt, errLZ4, a declared size above the limit
  snappy_corrupt lz4_corrupt zstd_corrupt size_limit : Error
  -- internal/protocol: ErrMemberIDRequired, *APIError with its code, ErrUnknownTopic, and the
  -- errors that a rebalance raises
  member_id_required unknown_topic rebalance_in_progress leader_epoch_changed : Error
  api_error : ℤ → Error
  -- internal/protocol: unknown assignor
  unknown_assignor : Error
  -- internal/protocol: an empty batch, a batch of another version or with a wrong checksum,
  -- ErrUnknownTopicID, an error code of a fetched partition
  empty_batch bad_magic crc_mismatch unknown_topic_id : Error
  fetch_partition_error : ℤ → Error
  -- internal/compress: unknown codec
  unknown_codec : Error
  -- internal/avro: a missing field, a value of another type, an unsupported type
  missing_field wrong_type unsupported_type : Error
  -- gokafka: ErrTransactionAborted, ErrNoConsumerGroup, ErrNoTransactionalID, *KafkaError with its
  -- code, and an error of the transport
  transaction_aborted no_consumer_group no_transactional_id closed : Error
  kafka_error : ℤ → Error
  transport : Error

pub data Result {ℓ} (A : Type ℓ) : Type ℓ where
  ok : A → Result A
  err : Error → Result A
  panic : Result A

abbrev pub bind {ℓ κ} : {A : Type ℓ} {B : Type κ} → Result A → (A → Result B) → Result B
bind (ok a) f = f a
bind (err e) f = err e
bind panic f = panic

pub ok-injective {ℓ} : {A : Type ℓ} {a b : A} → ok a ≡ ok b → a ≡ b
ok-injective h = cc
