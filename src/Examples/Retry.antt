-- ===== src/Examples/Retry.antt =====
-- Two records, of which the first is acknowledged and the second is sent again.
use gokafka.Result.{ok}
use gokafka.Prelude.Int.{pos}
use gokafka.Retry.Once.{attempts_send_once, IsAcked, IsBounded}
use gokafka.Retry.{attempts, pending_records, orig_indices, Progress, ProduceRecordResult}
use gokafka.Prelude.{refl, arith, ◌≡◌, false, true, ◌≢◌, ◌∷◌, ℕ, codes, [], List, All}

abbrev first_result : ProduceRecordResult
first_result = record { topic = codes "o"; partition = pos 0; offset = pos 5 }

abbrev not_committed : ProduceRecordResult
not_committed = record { topic = []; partition = pos 0; offset = pos 0 }

abbrev one_acked : Progress
one_acked = record { results = first_result ∷ not_committed ∷ []; acked = true ∷ false ∷ [] }

-- A broker that commits the first record of what it is sent.
abbrev commits_first : List (ℕ × ℕ) → List ProduceRecordResult
commits_first [] = []
commits_first (x ∷ pending) = first_result ∷ []

abbrev records : List ℕ
records = 7 ∷ 8 ∷ []

commits_first-IsBounded : IsBounded commits_first
commits_first-IsBounded [] = omega arith
commits_first-IsBounded (x ∷ pending) = omega arith

attempts_send_once_example :
    All (λ i. i ≢ 0) (orig_indices (pending_records 0 records one_acked.acked))
    × ((q : Progress) × (attempts records one_acked (commits_first ∷ commits_first ∷ []) ≡ ok q)
        × IsAcked q 0 first_result)
attempts_send_once_example =
    attempts_send_once records one_acked (commits_first ∷ commits_first ∷ []) 0 first_result
      (record { acked = refl; result = refl })
      (commits_first-IsBounded, (commits_first-IsBounded, tt))
