-- ===== src/Examples/Transaction.antt =====
-- A transaction with concrete partitions.
use gokafka.Transaction.State.Closed.{Run-end_txn}
use gokafka.Transaction.Registered.{
  ensure_partitions_marks_unsent, ensure_partitions-accepted, ensure_partitions-refused,
}
use gokafka.Result.{transaction_aborted, kafka_error, api_error, Error}
use gokafka.Prelude.Int.{pos, negsuc}
use gokafka.Transaction.State.{done, finish, call, end_txn, Txn, Run, EndTxnResult}
use gokafka.Transaction.{failed, resolved, has, ensure_partitions, PartKey}
use gokafka.Prelude.{
  ◌||◌, some, refl, none, map, All, ◌≡◌, ◌∷◌, inl, true, false, codes, [], Option, List,
}

abbrev orders_0 : PartKey
orders_0 = record { topic = codes "o"; part = pos 0 }

abbrev orders_1 : PartKey
orders_1 = record { topic = codes "o"; part = pos 1 }

abbrev accept : List PartKey → Option Error
accept ks = none

abbrev refuse : List PartKey → Option Error
refuse ks = some (api_error (pos 48))

ensure_partitions-accepted_example :
    ((ensure_partitions false (orders_0 ∷ []) (map resolved (orders_1 ∷ [])) accept).error ≡ none)
    × All
        (λ k.
          has
            (ensure_partitions false
              (orders_0 ∷ [])
              (map resolved (orders_1 ∷ []))
              accept).registered
            k
          ≡ true)
        (orders_1 ∷ [])
    × ((k : PartKey)
        → has
            (ensure_partitions false
              (orders_0 ∷ [])
              (map resolved (orders_1 ∷ []))
              accept).registered
            k
          ≡ (has (orders_0 ∷ []) k
              || has
                  (ensure_partitions false
                    (orders_0 ∷ [])
                    (map resolved (orders_1 ∷ []))
                    accept).sent
                  k))
ensure_partitions-accepted_example =
    ensure_partitions-accepted (orders_0 ∷ []) (orders_1 ∷ []) accept (λ ks. refl)

ensure_partitions-refused_example :
    has
      (ensure_partitions false (orders_0 ∷ []) (map resolved (orders_1 ∷ [])) refuse).registered
      orders_1
    ≡ has (orders_0 ∷ []) orders_1
ensure_partitions-refused_example =
    ensure_partitions-refused (orders_0 ∷ []) (orders_1 ∷ []) refuse (api_error (pos 48))
      (λ ks. refl) orders_1

nothing_registered : has [] orders_0 ≡ false
unfolding has
nothing_registered = refl

ensure_partitions_marks_unsent_example :
    ((ensure_partitions false []
        (resolved orders_0 ∷ failed (kafka_error (pos 5)) ∷ [])
        accept).error
      ≡ some (kafka_error (pos 5)))
    × ((ensure_partitions false []
          (resolved orders_0 ∷ failed (kafka_error (pos 5)) ∷ [])
          accept).sent
        ≡ [])
    × (has
          (ensure_partitions false []
            (resolved orders_0 ∷ failed (kafka_error (pos 5)) ∷ [])
            accept).registered
          orders_0
        ≡ true)
ensure_partitions_marks_unsent_example =
    ensure_partitions_marks_unsent [] orders_0 (kafka_error (pos 5)) accept nothing_registered

abbrev begun : Txn
begun = record {
  open_txn = true;
  tv2 = false;
  pid = record { id = pos 4; epoch = pos 0 };
  registered = [];
  registered_groups = [];
  cached = none;
}

abbrev no_bump : EndTxnResult
no_bump = record { producer_id = negsuc 0; producer_epoch = negsuc 0 }

abbrev committed : Txn
committed = (end_txn begun true (inl no_bump)).0

-- Abort after Commit.
call_after_end :
    Run committed
      (end_txn committed false (inl no_bump)).0
      ((end_txn committed false (inl no_bump)).1 ∷ [])
call_after_end = call (finish false (inl no_bump)) done

Run-end_txn_example :
    ((end_txn committed false (inl no_bump)).0 ≡ (end_txn begun true (inl no_bump)).0)
    × All (λ e. e ≡ some transaction_aborted) ((end_txn committed false (inl no_bump)).1 ∷ [])
Run-end_txn_example =
    Run-end_txn begun (end_txn committed false (inl no_bump)).0 true no_bump
      ((end_txn committed false (inl no_bump)).1 ∷ []) call_after_end
