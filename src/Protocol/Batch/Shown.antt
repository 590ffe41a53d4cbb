-- ===== src/Protocol/Batch/Shown.antt =====
-- read_committed in decodeRecordBatch of internal/protocol/fetch.go: a producer without an aborted
-- transaction loses nothing.
use gokafka.Prelude.{
  ℕ, ◌≡◌, refl, ap, ◌∙◌, sym, Bool, true, false, ◌&&◌, if◌then◌else◌, List, [], ◌∷◌, ◌++◌,
  append_assoc, All, Bool-cases, inl, inr, some,
}
use gokafka.Prelude.Int.{ℤ, leb_ℤ, eqb_ℤ}
use gokafka.Protocol.Batch.Decode.{BatchInfo}
use gokafka.Protocol.Batch.Filter.{
  AbortedTxn, Aborting, put_pid, begin_aborted, skip_marker, deliver, filter_batch,
}
use gokafka.Protocol.Batch.Isolation.{deliver_all, begin_aborted_step, begin_aborted_stop}
use gokafka.Protocol.Records.Parse.{FetchedRecord}

-- No aborted transaction of the producer is going on or listed.
pub record IsClear (p : ℤ) (a : Aborting) : Type 0 where
  pub off : a.pids p ≡ false
  pub unlisted : All (λ t. eqb_ℤ t.producer_id p ≡ false) a.upcoming

begin_aborted-IsClear :
    (p base : ℤ) (l : List AbortedTxn) (pids : ℤ → Bool)
    → IsClear p (record { upcoming = l; pids = pids })
    → IsClear p (begin_aborted base l pids)
begin_aborted-IsClear p base [] pids c = unfold begin_aborted in c
begin_aborted-IsClear p base (t ∷ l) pids c = elim (Bool-cases (leb_ℤ t.first_offset base)) [
  | inl e ↦ rw (begin_aborted_step base t l pids e) (
      begin_aborted-IsClear p base l (put_pid pids t.producer_id true)
        (record { off = rw (c.unlisted.0) c.off; unlisted = c.unlisted.1 }))
  | inr e ↦ rw (begin_aborted_stop base t l pids e) c
]

put_pid_off : (pids : ℤ → Bool) (q p : ℤ) → pids p ≡ false → put_pid pids q false p ≡ false
put_pid_off pids q p h = elim (Bool-cases (eqb_ℤ q p)) [
  | inl e ↦ rw e refl
  | inr e ↦ rw (e, h) refl
]

module _ (topic : List ℕ) (partition p : ℤ) where
  deliver-IsClear :
      (info : BatchInfo) (a : Aborting) → IsClear p a → IsClear p (deliver topic partition info a).1
  unfolding deliver
  deliver-IsClear info a c = pick info.is_control (info.is_transactional && a.pids info.producer_id)
    where
      pick :
          (b d : Bool)
          → let r : List FetchedRecord × Aborting =
              if b
              then (
                skip_marker topic partition info ∷ [],
                record { upcoming = a.upcoming; pids = put_pid a.pids info.producer_id false },
              )
              else if d
              then (skip_marker topic partition info ∷ [], a)
              else (info.records, a) in
            IsClear p r.1
      pick true d = record {
        off = put_pid_off a.pids info.producer_id p c.off;
        unlisted = c.unlisted;
      }
      pick false true = c
      pick false false = c

  filter_batch-IsClear :
      (info : BatchInfo) (a : Aborting)
      → IsClear p a
      → IsClear p (filter_batch topic partition (some info) a).1
  filter_batch-IsClear info a c =
      deliver-IsClear info (begin_aborted info.base_offset a.upcoming a.pids)
        (begin_aborted-IsClear p info.base_offset a.upcoming a.pids c)

  shown :
      (info : BatchInfo) (a : Aborting)
      → IsClear p a
      → info.is_control ≡ false
      → info.producer_id ≡ p
      → (filter_batch topic partition (some info) a).0 ≡ info.records
  unfolding deliver
  shown info a c plain same =
      let b = begin_aborted info.base_offset a.upcoming a.pids in
      let off : b.pids info.producer_id ≡ false =
        ap b.pids same ∙ (begin_aborted-IsClear p info.base_offset a.upcoming a.pids c).off in
      rw (plain, off) (pick info.is_transactional)
    where
      pick :
          (t : Bool)
          → let r : List FetchedRecord × Aborting =
              if t && false
              then (
                skip_marker topic partition info ∷ [],
                begin_aborted info.base_offset a.upcoming a.pids,
              )
              else (info.records, begin_aborted info.base_offset a.upcoming a.pids) in
            r.0 ≡ info.records
      pick true = refl
      pick false = refl

-- Where no aborted transaction of a producer is going on or listed, every batch of that producer that is
-- not a marker, transactional or not, is delivered with all of its records, in its place among what is
-- delivered of the batches around it.
pub deliver_all-shown :
    (topic : List ℕ) (partition p : ℤ) (a : Aborting) (before : List BatchInfo) (info : BatchInfo)
    (after : List BatchInfo)
    → IsClear p a
    → info.is_control ≡ false
    → info.producer_id ≡ p
    → (a' : Aborting) × (deliver_all topic partition a (before ++ (info ∷ after))
        ≡ deliver_all topic partition a before
          ++ (info.records ++ deliver_all topic partition a' after))
deliver_all-shown topic partition p a [] info after c plain same = (
  (filter_batch topic partition (some info) a).1,
  ap (λ l. l ++ deliver_all topic partition (filter_batch topic partition (some info) a).1 after)
      (shown topic partition p info a c plain same),
)
deliver_all-shown topic partition p a (x ∷ before) info after c plain same =
    let r = filter_batch topic partition (some x) a in
    let (a', e) =
      deliver_all-shown topic partition p r.1 before info after
        (filter_batch-IsClear topic partition p x a c) plain same in
    (a', ap (λ l. r.0 ++ l) e ∙ sym (append_assoc r.0 _ _))
