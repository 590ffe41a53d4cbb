-- ===== src/Transaction/State/Closed.antt =====
-- A transaction that has ended refuses every call.
use gokafka.Prelude.Int.{at_least}
use gokafka.Result.{transaction_aborted, Error}
use gokafka.Prelude.{
  Bool-cases, refl, [], inr, ◌∙◌, ◌∷◌, ◌&&◌, ap, none, if◌then◌else◌, some, inl, All, true, false,
  ◌≡◌, Option, List, Bool,
}
use gokafka.Transaction.State.{
  ProducerId, adopt, finish, done, send_offsets, produce, call, Run, Call, EndTxnResult,
  send_offsets_to_txn, produce_within_txn, end_txn, Txn,
}

Call-closed :
    {t u : Txn} {e : Option Error}
    → Call t u e
    → t.open_txn ≡ false
    → (u ≡ t) × (e ≡ some transaction_aborted)
unfolding produce_within_txn send_offsets_to_txn end_txn
Call-closed (produce [] again answer sent) h = rw h (refl, refl)
Call-closed (produce (r ∷ records) again answer sent) h = rw h (refl, refl)
Call-closed (send_offsets group no_offsets added committed) h = rw h (refl, refl)
Call-closed (finish commit outcome) h = rw h (refl, refl)

Run-closed :
    {t u : Txn} {es : List (Option Error)}
    → Run t u es
    → t.open_txn ≡ false
    → (u ≡ t) × All (λ e. e ≡ some transaction_aborted) es
Run-closed done h = (refl, tt)
Run-closed (call c run) h =
    let (same, aborted) = Call-closed c h in
    let (rest, errors) = Run-closed run (ap (λ t. t.open_txn) same ∙ h) in
    (rest ∙ same, (aborted, errors))

adopt-closed : (t : Txn) (r : EndTxnResult) → (adopt t r).open_txn ≡ false
adopt-closed t r = either (t.tv2 && at_least 0 r.producer_id && at_least 0 r.producer_epoch)
  where
    either :
        (b : Bool)
        → (if b
            then (let pid : ProducerId = record { id = r.producer_id; epoch = r.producer_epoch } in
                record t { open_txn = false; pid = pid; cached = some pid })
            else record t { open_txn = false; cached = none }).open_txn
          ≡ false
    either true = refl
    either false = refl

end_txn-closed :
    (t : Txn) (commit : Bool) (r : EndTxnResult) → (end_txn t commit (inl r)).0.open_txn ≡ false
unfolding end_txn
end_txn-closed t commit r = elim (Bool-cases t.open_txn) [
  | inl opened ↦ rw opened (adopt-closed t r)
  | inr closed ↦ rw closed refl
]

-- After Commit or Abort got a result from the coordinator, whatever calls follow, in whatever order and
-- whatever the cluster answers, each returns ErrTransactionAborted, and they change nothing.
pub Run-end_txn :
    (t u : Txn) (commit : Bool) (r : EndTxnResult) (es : List (Option Error))
    → Run (end_txn t commit (inl r)).0 u es
    → (u ≡ (end_txn t commit (inl r)).0) × All (λ e. e ≡ some transaction_aborted) es
Run-end_txn t u commit r es run = Run-closed run (end_txn-closed t commit r)
