-- ===== src/Examples/Kfake.antt =====
-- The mock broker at concrete requests.
use gokafka.Kfake.Group.Request.{IsJoinable}
use gokafka.Wire.Writer.Codes.{run}
use gokafka.Wire.Strings.{write_bytes}
use gokafka.Result.{ok}
use gokafka.Wire.Ints.{write_int32, write_int16}
use gokafka.Prelude.Int.{pos}
use gokafka.Wire.Writer.{write_each}
use gokafka.Protocol.Assignment.{encode_consumer_subscription}
use gokafka.Prelude.{
  ◌++◌, refl, false, ◌∷◌, some, replicate, ◌≡◌, ℕ, none, if◌then◌else◌, arith, [], codes, bytes_eq,
  List,
}
use gokafka.Kfake.Log.Fetch.{
  fetch_what_was_produced, collect_batches-produce_partition, append_batch-IsLog, IsLog,
}
use gokafka.Kfake.Log.{
  patch_base_offset, empty_log, append_batch, produce_partition, collect_batches,
  batch_record_count, Topics,
}
use gokafka.Kfake.Group.Join.{join_round_trip, alone}
use gokafka.Kfake.Group.{group_of, next_generation, handle_join_group, Groups}
use gokafka.Protocol.Groups.Join.{decode_join_group_response, encode_join_group_request, JoinGroup}

abbrev joiner : JoinGroup
joiner = record {
  group = codes "g";
  member_id = [];
  assignor = codes "range";
  instance_id = [];
  topics = [];
  session_timeout_ms = pos 0;
  rebalance_timeout_ms = pos 0;
  cooperative = false;
}

joiner-IsJoinable : IsJoinable joiner
joiner-IsJoinable = record {
  group = omega arith;
  member = omega arith;
  instance_id = omega arith;
  assignor = omega arith;
  session = omega arith;
  rebalance = omega arith;
}

abbrev no_topics : List ℕ
no_topics = 0 ∷ 0 ∷ 0 ∷ 0 ∷ 0 ∷ 0 ∷ 255 ∷ 255 ∷ 255 ∷ 255 ∷ []

joiner_meta : encode_consumer_subscription [] false ≡ ok no_topics
unfolding encode_consumer_subscription write_each write_int16 write_int32 write_bytes
joiner_meta = refl

abbrev no_groups : Groups
no_groups id = none

join_round_trip_example :
    (body out : List ℕ) × (encode_join_group_request (pos 6) joiner ≡ ok body)
    × ((handle_join_group no_groups body).1 ≡ ok out)
    × (run (decode_join_group_response (pos 6)) out
        ≡ ok (
          alone
              (next_generation (group_of no_groups (codes "g")).generation)
              (codes "range")
              (codes "kfake-member-1")
              no_topics,
          none,
        ))
    × ((handle_join_group no_groups body).0 (codes "g")
        ≡ some (record {
          offsets = (group_of no_groups (codes "g")).offsets;
          member_id = codes "kfake-member-1";
          metadata = some no_topics;
          assignor = codes "range";
          generation = next_generation (group_of no_groups (codes "g")).generation;
        }))
join_round_trip_example =
    join_round_trip no_groups joiner no_topics joiner-IsJoinable (omega arith) joiner_meta

abbrev batch : List ℕ
batch = replicate 57 7 ++ 0 ∷ 0 ∷ 0 ∷ 3 ∷ []

abbrev orders : Topics
orders name = if bytes_eq name (codes "o") then some (empty_log ∷ []) else none

orders_known : orders (codes "o") ≡ some (empty_log ∷ [])
unfolding bytes_eq
orders_known = refl

empty-IsLog : IsLog empty_log
empty-IsLog = record { below = tt }

collect_batches-produce_partition_test :
    ((produce_partition orders none (codes "o") (pos 0) batch).1 ≡ pos 0)
    × ((produce_partition orders none (codes "o") (pos 0) batch).2 ≡ pos 0)
    × ((collect_batches
          (produce_partition orders none (codes "o") (pos 0) batch).0
          (codes "o")
          (pos 0)
          (pos 0)).0
        ≡ (collect_batches orders (codes "o") (pos 0) (pos 0)).0 ++ patch_base_offset batch (pos 0))
collect_batches-produce_partition_test =
    collect_batches-produce_partition orders (codes "o") (empty_log ∷ []) 0 empty_log batch
      orders_known refl (omega arith) (omega arith) (pos 0) refl

fetch_what_was_produced_example :
    (collect_batches
      (produce_partition orders none (codes "o") (pos 0) batch).0
      (codes "o")
      (pos 0)
      (produce_partition orders none (codes "o") (pos 0) batch).2).0
    ≡ patch_base_offset batch (produce_partition orders none (codes "o") (pos 0) batch).2
fetch_what_was_produced_example =
    fetch_what_was_produced orders (codes "o") (empty_log ∷ []) 0 empty_log batch orders_known refl
      (omega arith) (omega arith) empty-IsLog

batch_count : batch_record_count batch ≡ pos 3
unfolding batch_record_count
batch_count = refl

append_batch-IsLog_example : IsLog (append_batch empty_log batch).0
append_batch-IsLog_example =
    append_batch-IsLog empty_log batch 0 3 empty-IsLog refl batch_count (omega arith) (omega arith)
      (omega arith)
