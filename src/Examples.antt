-- ===== src/Examples.antt =====
-- The theorems at concrete inputs, and runs of the definitions on known values.
mod Wire
mod Protocol
mod Assignors
mod Clients
mod Schema
mod Kfake
mod Transaction
mod Retry
mod Batch
mod Filter
mod Compress
