-- ===== src/Transaction/State.antt =====
-- The operations of a TransactionalProducer in transaction.go, and the runs of them. A request that is
-- retried is one argument: what the last attempt returned.
use gokafka.Result.{no_consumer_group, transaction_aborted, Error}
use gokafka.Transaction.{resolved, failed, Resolved, PartKey, ensure_partitions, Ensured}
use gokafka.Prelude.Int.{at_least, ℤ}
use gokafka.Prelude.{
  ◌||◌, ◌==◌, length, bytes_eq, ◌∷◌, ◌++◌, inl, some, not, none, inr, false, [], ◌⊎◌, ◌&&◌, ℕ,
  if◌then◌else◌, Option, List, Bool,
}
pub mod Closed

-- protocol.ProducerID
pub record ProducerId : Type 0 where
  pub id : ℤ
  pub epoch : ℤ

-- protocol.EndTxnResult, without its code, which is 0 where a result is returned.
pub record EndTxnResult : Type 0 where
  pub producer_id : ℤ
  pub producer_epoch : ℤ

-- TransactionalProducer, and the producer's txnPID where txnPIDValid holds.
pub record Txn : Type 0 where
  pub open_txn : Bool
  pub tv2 : Bool
  pub pid : ProducerId
  pub registered : List PartKey
  pub registered_groups : List (List ℕ)
  pub cached : Option ProducerId

abbrev pub keep_registered : Txn → Ensured → Option Error → Txn × Option Error
keep_registered t r sent =
    (record t { registered = r.registered }, elim r.error [ none ↦ sent | some e ↦ some e ])

-- freezePartitions of producer.go: the partition that each record gets, or the first error. A record
-- that has a partition keeps it, and for another it is what resolvePartition returns.
unfoldable pub freeze_partitions : List Resolved → List PartKey ⊎ Error
freeze_partitions [] = inl []
freeze_partitions (failed e ∷ records) = inr e
freeze_partitions (resolved k ∷ records) = elim (freeze_partitions records) [
  | inl keys ↦ inl (k ∷ keys)
  | inr e ↦ inr e
]

abbrev pub produce_frozen :
    Txn
    → (List PartKey → List Resolved)
    → (List PartKey → Option Error)
    → Option Error
    → List PartKey ⊎ Error
    → Txn × Option Error
produce_frozen t again answer sent (inr e) = (t, some e)
produce_frozen t again answer sent (inl keys) =
    keep_registered t (ensure_partitions t.tv2 t.registered (again keys) answer) sent

-- ProduceWithinTxn: `again` is what resolvePartition returns for the frozen records in ensurePartitions,
-- and `sent` what the send returned.
unfoldable pub produce_within_txn :
    Txn
    → List Resolved
    → (List PartKey → List Resolved)
    → (List PartKey → Option Error)
    → Option Error
    → Txn × Option Error
unfolding ensure_partitions freeze_partitions
produce_within_txn t [] again answer sent =
    if t.open_txn then (t, none) else (t, some transaction_aborted)
produce_within_txn t (r ∷ records) again answer sent =
    if t.open_txn
    then produce_frozen t again answer sent (freeze_partitions (r ∷ records))
    else (t, some transaction_aborted)

abbrev pub has_group : List (List ℕ) → List ℕ → Bool
has_group [] g = false
has_group (h ∷ groups) g = bytes_eq h g || has_group groups g

-- ensureGroupOffsets: registered, or the answer to AddOffsetsToTxn.
unfoldable pub ensure_group_offsets : Txn → List ℕ → Option Error → Txn × Option Error
ensure_group_offsets t group (some e) =
    if has_group t.registered_groups group then (t, none) else (t, some e)
ensure_group_offsets t group none =
    if has_group t.registered_groups group
    then (t, none)
    else (record t { registered_groups = t.registered_groups ++ group ∷ [] }, none)

abbrev pub then_commit : Txn × Option Error → Option Error → Txn × Option Error
then_commit (t, some e) committed = (t, some e)
then_commit (t, none) committed = (t, committed)

-- SendOffsetsToTxn, with `no_offsets` for an empty map and the answers to its two requests.
unfoldable pub send_offsets_to_txn :
    Txn → List ℕ → Bool → Option Error → Option Error → Txn × Option Error
unfolding ensure_group_offsets
send_offsets_to_txn t group no_offsets added committed =
    if not t.open_txn
    then (t, some transaction_aborted)
    else if length group == 0
    then (t, some no_consumer_group)
    else if no_offsets
    then (t, none)
    else then_commit (ensure_group_offsets t group added) committed

abbrev pub adopt : Txn → EndTxnResult → Txn
adopt t r =
    if t.tv2 && at_least 0 r.producer_id && at_least 0 r.producer_epoch
    then (let pid : ProducerId = record { id = r.producer_id; epoch = r.producer_epoch } in
        record t { open_txn = false; pid = pid; cached = some pid })
    else record t { open_txn = false; cached = none }

abbrev pub ended : Txn → Bool → EndTxnResult ⊎ Error → Txn × Option Error
ended t commit (inr e) = (record t { cached = none }, some e)
ended t commit (inl r) = (adopt t r, if commit then none else some transaction_aborted)

-- Commit and Abort.
unfoldable pub end_txn : Txn → Bool → EndTxnResult ⊎ Error → Txn × Option Error
end_txn t commit outcome =
    if t.open_txn then ended t commit outcome else (t, some transaction_aborted)

-- One call, whatever the cluster answers, with its error.
pub data Call : Txn → Txn → Option Error → Type 0 where
  produce :
      {t : Txn} (records : List Resolved) (again : List PartKey → List Resolved)
      (answer : List PartKey → Option Error) (sent : Option Error)
      → Call t
          (produce_within_txn t records again answer sent).0
          (produce_within_txn t records again answer sent).1
  send_offsets :
      {t : Txn} (group : List ℕ) (no_offsets : Bool) (added committed : Option Error)
      → Call t
          (send_offsets_to_txn t group no_offsets added committed).0
          (send_offsets_to_txn t group no_offsets added committed).1
  finish :
      {t : Txn} (commit : Bool) (outcome : EndTxnResult ⊎ Error)
      → Call t (end_txn t commit outcome).0 (end_txn t commit outcome).1

-- Calls one after the other, with the errors that they return.
pub data Run : Txn → Txn → List (Option Error) → Type 0 where
  done : {t : Txn} → Run t t []
  call :
      {t u v : Txn} {e : Option Error} {es : List (Option Error)}
      → Call t u e
      → Run u v es
      → Run t v (e ∷ es)
