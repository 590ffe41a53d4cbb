-- ===== src/Protocol/Batch/Isolation.antt =====
-- read_committed in decodeRecordBatch of internal/protocol/fetch.go: what is delivered of a
-- transaction that aborted, and of the others.
use gokafka.Produce.Laws.{eqb→equal}
use gokafka.Prelude.{
  ℕ, ◌≡◌, refl, sym, ap, ◌∙◌, Bool, true, false, ◌&&◌, if◌then◌else◌, List, [], ◌∷◌, ◌++◌, All,
  Bool-cases, inl, inr, map, some,
}
use gokafka.Prelude.Int.{ℤ, leb_ℤ, eqb_ℤ}
use gokafka.Protocol.Batch.Decode.{BatchInfo}
use gokafka.Protocol.Batch.Filter.{
  AbortedTxn, Aborting, put_pid, begin_aborted, deliver, filter_batch,
}
use gokafka.Protocol.Records.Parse.{FetchedRecord}

-- What the loop delivers of one decoded batch after the other.
abbrev pub deliver_all : List ℕ → ℤ → Aborting → List BatchInfo → List FetchedRecord
deliver_all topic partition a [] = []
deliver_all topic partition a (info ∷ infos) =
    let r = filter_batch topic partition (some info) a in
    r.0 ++ deliver_all topic partition r.1 infos

-- A transaction of the producer stands among those that begin at or before an offset.
pub data Begins (p base : ℤ) : List AbortedTxn → Type 0 where
  here :
      (t : AbortedTxn) (l : List AbortedTxn)
      → eqb_ℤ t.producer_id p ≡ true
      → leb_ℤ t.first_offset base ≡ true
      → Begins p base (t ∷ l)
  later :
      (t : AbortedTxn) (l : List AbortedTxn)
      → leb_ℤ t.first_offset base ≡ true
      → Begins p base l
      → Begins p base (t ∷ l)

pub begin_aborted_step :
    (base : ℤ) (t : AbortedTxn) (l : List AbortedTxn) (pids : ℤ → Bool)
    → leb_ℤ t.first_offset base ≡ true
    → begin_aborted base (t ∷ l) pids ≡ begin_aborted base l (put_pid pids t.producer_id true)
unfolding begin_aborted
begin_aborted_step base t l pids h = rw (h, begin_aborted) refl

pub begin_aborted_stop :
    (base : ℤ) (t : AbortedTxn) (l : List AbortedTxn) (pids : ℤ → Bool)
    → leb_ℤ t.first_offset base ≡ false
    → begin_aborted base (t ∷ l) pids ≡ record { upcoming = t ∷ l; pids = pids }
unfolding begin_aborted
begin_aborted_stop base t l pids h = rw (h, begin_aborted) refl

put_pid_keeps : (pids : ℤ → Bool) (q p : ℤ) → pids p ≡ true → put_pid pids q true p ≡ true
put_pid_keeps pids q p h = elim (Bool-cases (eqb_ℤ q p)) [
  | inl e ↦ rw e refl
  | inr e ↦ rw (e, h) refl
]

begin_aborted_keeps :
    (p base : ℤ) (l : List AbortedTxn) (pids : ℤ → Bool)
    → pids p ≡ true
    → (begin_aborted base l pids).pids p ≡ true
begin_aborted_keeps p base [] pids h = unfold begin_aborted in h
begin_aborted_keeps p base (t ∷ l) pids h = elim (Bool-cases (leb_ℤ t.first_offset base)) [
  | inl e ↦ rw (begin_aborted_step base t l pids e) (
      begin_aborted_keeps p base l (put_pid pids t.producer_id true)
        (put_pid_keeps pids t.producer_id p h))
  | inr e ↦ rw (begin_aborted_stop base t l pids e) h
]

begin_aborted-Begins :
    (p base : ℤ) {l : List AbortedTxn} (pids : ℤ → Bool)
    → Begins p base l
    → (begin_aborted base l pids).pids p ≡ true
begin_aborted-Begins p base pids (here t l same e) =
    rw (begin_aborted_step base t l pids e)
      (begin_aborted_keeps p base l (put_pid pids t.producer_id true) (rw same refl))
begin_aborted-Begins p base pids (later t l e b) =
    rw (begin_aborted_step base t l pids e)
      (begin_aborted-Begins p base (put_pid pids t.producer_id true) b)

-- Not the marker that ends a transaction of the producer.
abbrev pub EndsNot : ℤ → BatchInfo → Type 0
EndsNot p info = info.is_control && eqb_ℤ info.producer_id p ≡ false

-- The batch without its records, where it is one of the producer's transactions.
abbrev pub emptied : ℤ → BatchInfo → BatchInfo
emptied p info =
    if info.is_transactional && eqb_ℤ info.producer_id p then record info { records = [] } else info

abbrev SameBut : List ℕ → ℤ → ℤ → BatchInfo → Aborting → Type 0
SameBut topic partition p info a =
    (deliver topic partition info a ≡ deliver topic partition (emptied p info) a)
    × ((deliver topic partition info a).1.pids p ≡ true)

-- The marker that moves the consumer past the batch is all that comes of it.
hidden_fields :
    (topic : List ℕ) (partition p base last pid : ℤ) (c t : Bool) (records : List FetchedRecord)
    (a : Aborting)
    → c && eqb_ℤ pid p ≡ false
    → a.pids p ≡ true
    → SameBut topic partition p
        (record {
          base_offset = base;
          last_offset = last;
          producer_id = pid;
          is_control = c;
          is_transactional = t;
          records = records;
        })
        a
unfolding deliver
hidden_fields topic partition p base last pid true true records a e h = rw e (refl, h)
hidden_fields topic partition p base last pid true false records a e h = rw e (refl, h)
hidden_fields topic partition p base last pid false false records a e h = (refl, h)
hidden_fields topic partition p base last pid false true records a e h =
    elim (Bool-cases (eqb_ℤ pid p)) [
      | inl same ↦
          let on : a.pids pid ≡ true = ap a.pids (eqb→equal pid p same) ∙ h in
          rw (same, on) (refl, h)
      | inr other ↦ elim (Bool-cases (a.pids pid)) [
        | inl on ↦ rw (other, on) (refl, h)
        | inr off ↦ rw (other, off) (refl, h)
      ]
    ]

hidden :
    (topic : List ℕ) (partition p : ℤ) (info : BatchInfo) (a : Aborting)
    → EndsNot p info
    → a.pids p ≡ true
    → SameBut topic partition p info a
hidden topic partition p info a e h =
    hidden_fields topic partition p info.base_offset info.last_offset info.producer_id
      info.is_control info.is_transactional info.records a e h

emptied-base : (p : ℤ) (info : BatchInfo) → (emptied p info).base_offset ≡ info.base_offset
emptied-base p info = pick (info.is_transactional && eqb_ℤ info.producer_id p)
  where
    pick :
        (b : Bool)
        → (if b then record info { records = [] } else info).base_offset ≡ info.base_offset
    pick true = refl
    pick false = refl

module _ (topic : List ℕ) (partition p : ℤ) where
  hide_one :
      (info : BatchInfo) (a : Aborting)
      → EndsNot p info
      → (begin_aborted info.base_offset a.upcoming a.pids).pids p ≡ true
      → (filter_batch topic partition (some info) a
          ≡ filter_batch topic partition (some (emptied p info)) a)
        × ((filter_batch topic partition (some info) a).1.pids p ≡ true)
  hide_one info a e h =
      let b = begin_aborted info.base_offset a.upcoming a.pids in
      let (same, stays) = hidden topic partition p info b e h in
      (
        same
            ∙ ap
                (λ base.
                  deliver topic partition (emptied p info) (begin_aborted base a.upcoming a.pids))
                (sym (emptied-base p info)),
        stays,
      )

  hide_every :
      (a : Aborting) (infos : List BatchInfo)
      → All (EndsNot p) infos
      → a.pids p ≡ true
      → deliver_all topic partition a infos ≡ deliver_all topic partition a (map (emptied p) infos)
  hide_every a [] ends h = refl
  hide_every a (info ∷ infos) ends h =
      let (same, stays) =
        hide_one info a ends.0 (begin_aborted_keeps p info.base_offset a.upcoming a.pids h) in
      let next = (filter_batch topic partition (some info) a).1 in
      ap (λ l. (filter_batch topic partition (some info) a).0 ++ l)
        (hide_every next infos ends.1 stays)
      ∙ ap (λ r. r.0 ++ deliver_all topic partition r.1 (map (emptied p) infos)) same

-- An aborted transaction that begins at or before a batch is not seen: what is delivered from that batch on,
-- up to the next commit or abort marker of the same producer, is what is delivered where the
-- producer's transactional batches hold no records. Of each of them there is only the marker with its
-- last offset, and every other batch is delivered as before.
pub deliver_all-emptied :
    (topic : List ℕ) (partition p : ℤ) (a : Aborting) (info : BatchInfo) (infos : List BatchInfo)
    → Begins p info.base_offset a.upcoming
    → All (EndsNot p) (info ∷ infos)
    → deliver_all topic partition a (info ∷ infos)
      ≡ deliver_all topic partition a (map (emptied p) (info ∷ infos))
deliver_all-emptied topic partition p a info infos begins ends =
    let (same, stays) =
      hide_one topic partition p info a ends.0
        (begin_aborted-Begins p info.base_offset a.pids begins) in
    let next = (filter_batch topic partition (some info) a).1 in
    ap (λ l. (filter_batch topic partition (some info) a).0 ++ l)
      (hide_every topic partition p next infos ends.1 stays)
    ∙ ap (λ r. r.0 ++ deliver_all topic partition r.1 (map (emptied p) infos)) same
