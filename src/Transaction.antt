-- ===== src/Transaction.antt =====
-- transaction.go: what a transactional producer keeps, and the partitions that it registers with the
-- transaction coordinator. What the cluster answers is an argument.
use gokafka.Result.{Error}
use gokafka.Produce.{key_eq, SeqKey}
use gokafka.Prelude.{◌||◌, ◌++◌, some, none, [], ◌∷◌, if◌then◌else◌, false, Option, List, Bool}
pub mod Fresh
pub mod Registered
pub mod State

-- partKey of producer.go, which has the fields of seqKey.
abbrev pub PartKey : Type 0
PartKey = SeqKey

-- What resolvePartition returns for a record.
pub data Resolved : Type 0 where
  resolved : PartKey → Resolved
  failed : Error → Resolved

-- The map registered as the list of its keys.
unfoldable pub has : List PartKey → PartKey → Bool
has [] k = false
has (j ∷ ks) k = key_eq j k || has ks k

abbrev pub mark : List PartKey → List PartKey → PartKey → List PartKey
mark registered keys k = if has registered k then keys else keys ++ k ∷ []

-- The loop of ensurePartitions over the records: registered, newKeys, and the error it returned with.
unfoldable pub scan :
    List PartKey → List PartKey → List Resolved → List PartKey × List PartKey × Option Error
scan registered new_keys [] = (registered, new_keys, none)
scan registered new_keys (failed e ∷ records) = (registered, new_keys, some e)
scan registered new_keys (resolved k ∷ records) =
    scan (mark registered registered k) (mark registered new_keys k) records

-- delete(t.registered, k) for each of the keys.
unfoldable pub delete_keys : List PartKey → List PartKey → List PartKey
delete_keys keys [] = []
delete_keys keys (k ∷ registered) =
    let rest = delete_keys keys registered in if has keys k then rest else k ∷ rest

-- The new set, the error, and the keys of the AddPartitionsToTxn request, if one was sent.
pub record Ensured : Type 0 where
  pub registered : List PartKey
  pub error : Option Error
  pub sent : List PartKey

-- addPartitions, whose error the cluster's answer to the keys decides.
unfoldable pub add_partitions : List PartKey → List PartKey → Option Error → Ensured
add_partitions registered keys none = record { registered = registered; error = none; sent = keys }
add_partitions registered keys (some e) = record {
  registered = delete_keys keys registered;
  error = some e;
  sent = keys;
}

abbrev pub scanned :
    (List PartKey → Option Error) → List PartKey × List PartKey × Option Error → Ensured
scanned answer (registered, keys, some e) = record {
  registered = registered;
  error = some e;
  sent = [];
}
scanned answer (registered, [], none) = record { registered = registered; error = none; sent = [] }
scanned answer (registered, k ∷ keys, none) =
    add_partitions registered (k ∷ keys) (answer (k ∷ keys))

unfoldable pub ensure_partitions :
    Bool → List PartKey → List Resolved → (List PartKey → Option Error) → Ensured
unfolding scan add_partitions
ensure_partitions tv2 registered records answer =
    if tv2
    then record { registered = registered; error = none; sent = [] }
    else scanned answer (scan registered [] records)
