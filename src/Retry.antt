-- ===== src/Retry.antt =====
-- The retry loop of producer.go: which records an attempt sends again, and how its results are merged.
use gokafka.Result.{panic, bind, ok, Result}
use gokafka.Prelude.Int.{ℤ}
use gokafka.Prelude.{
  map, ◌==◌, false, length, [], ◌+◌, if◌then◌else◌, ◌∷◌, true, set, Bool, ℕ, List,
}
pub mod Once

-- ProduceRecordResult; the topic is set only where the broker committed the record.
pub record ProduceRecordResult : Type 0 where
  pub topic : List ℕ
  pub partition : ℤ
  pub offset : ℤ

-- pendingRecords from index i on: the records not acknowledged, with their indices.
unfoldable pub pending_records {ℓ} : {R : Type ℓ} → ℕ → List R → List Bool → List (R × ℕ)
pending_records i [] acked = []
pending_records i (r ∷ records) [] = []
pending_records i (r ∷ records) (true ∷ acked) = pending_records (i + 1) records acked
pending_records i (r ∷ records) (false ∷ acked) = (r, i) ∷ pending_records (i + 1) records acked

-- results and acked
pub record Progress : Type 0 where
  pub results : List ProduceRecordResult
  pub acked : List Bool

abbrev pub acknowledge : Progress → ℕ → ProduceRecordResult → Progress
acknowledge p i r = record { results = set p.results i r; acked = set p.acked i true }

-- mergeAcked: a committed result without an original index panics.
unfoldable pub merge_acked : Progress → List ℕ → List ProduceRecordResult → Result Progress
merge_acked p orig_idx [] = ok p
merge_acked p [] (r ∷ res) = if length r.topic == 0 then merge_acked p [] res else panic
merge_acked p (i ∷ orig_idx) (r ∷ res) =
    merge_acked (if length r.topic == 0 then p else acknowledge p i r) orig_idx res

abbrev pub orig_indices {ℓ} : {R : Type ℓ} → List (R × ℕ) → List ℕ
orig_indices pending = map (λ x. x.1) pending

-- Attempts one after the other; each answers the records that it is sent.
unfoldable pub attempts {ℓ} :
    {R : Type ℓ}
    → List R
    → Progress
    → List (List (R × ℕ) → List ProduceRecordResult)
    → Result Progress
unfolding pending_records merge_acked
attempts records p [] = ok p
attempts records p (send ∷ sends) =
    let pending = pending_records 0 records p.acked in
    bind (merge_acked p (orig_indices pending) (send pending)) λ q. attempts records q sends
