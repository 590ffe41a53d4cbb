-- ===== src/Protocol/Batch/Loop.antt =====
-- The loop of decodeRecordBatch in internal/protocol/fetch.go over the batches of a partition.
use gokafka.Protocol.Records.Parse.{FetchedRecord}
use gokafka.Compress.{Codecs}
use gokafka.Prelude.{
  inr, inl, Bool-cases, All, ℕ, zero, suc, ◌+◌, ◌≤◌, ◌≡◌, refl, ap, ◌∙◌, sym, false, if◌then◌else◌,
  List, [], ◌∷◌, ◌++◌, length, take, drop, length-append, take-length-append, drop-length-append,
  length-drop, ltb, le→ltb, arith, some, map,
}
use gokafka.Prelude.Int.{ℤ}
use gokafka.Protocol.Batch.Decode.{BatchInfo, decode_one_record_batch}
use gokafka.Protocol.Batch.Filter.{
  AbortedTxn, Aborting, filter_batch, total_length, decode_batches, decode_record_batch,
}
use gokafka.Protocol.Batch.Isolation.{deliver_all}
use gokafka.Result.{Result, ok, err, panic, bind}
use gokafka.Wire.Ints.{big_endian}

bind-cong {ℓ κ} :
    {A : Type ℓ} {B : Type κ} (m : Result A) (k l : A → Result B)
    → ((a : A) → k a ≡ l a)
    → bind m k ≡ bind m l
bind-cong (ok a) k l h = h a
bind-cong (err e) k l h = refl
bind-cong panic k l h = refl

take-prefix : (n : ℕ) (b r : List ℕ) → n ≤ length b → take n (b ++ r) ≡ take n b
take-prefix zero b r h = refl
take-prefix (suc n) [] r h = absurd (omega arith)
take-prefix (suc n) (x ∷ b) r h = ap (λ l. x ∷ l) (take-prefix n b r (omega arith))

drop-prefix : (n : ℕ) (b r : List ℕ) → n ≤ length b → drop n (b ++ r) ≡ drop n b ++ r
drop-prefix zero b r h = refl
drop-prefix (suc n) [] r h = absurd (omega arith)
drop-prefix (suc n) (x ∷ b) r h = drop-prefix n b r (omega arith)

total_length-append : (b r : List ℕ) → 12 ≤ length b → total_length (b ++ r) ≡ total_length b
total_length-append b r h =
    ap (λ l. 12 + big_endian l)
      (ap (take 4) (drop-prefix 8 b r (omega arith))
        ∙ take-prefix 4 (drop 8 b) r (omega (arith, length-drop 8 b)))

-- The batches of a partition, one behind the other.
abbrev pub end_to_end : List (List ℕ × BatchInfo) → List ℕ
end_to_end [] = []
end_to_end ((bytes, info) ∷ l) = bytes ++ end_to_end l

module _ (lib : Codecs) (checksum : List ℕ → ℕ) (topic : List ℕ) (partition : ℤ) where
  too_short :
      (f : ℕ) (a : Aborting) (bytes : List ℕ)
      → length bytes ≤ 0
      → decode_batches lib checksum topic partition f a bytes ≡ ok []
  unfolding decode_batches
  too_short zero a bytes h = refl
  too_short (suc f) a [] h = refl
  too_short (suc f) a (b ∷ bytes) h = absurd (omega arith)

  -- A round of the loop, in front of the rounds that `next` stands for.
  abbrev batch_round :
      List ℕ → Aborting → (Aborting → Result (List FetchedRecord)) → Result (List FetchedRecord)
  batch_round bytes a next =
      if ltb (length bytes) 12
      then ok []
      else if ltb (length bytes) (total_length bytes)
      then ok []
      else bind
          (decode_one_record_batch lib checksum topic partition (take (total_length bytes) bytes))
          λ info.
            bind (next (filter_batch topic partition info a).1)
              λ more. ok ((filter_batch topic partition info a).0 ++ more)

  batch_round_next :
      (bytes : List ℕ) (a : Aborting) (p q : Aborting → Result (List FetchedRecord))
      → ((a' : Aborting) → total_length bytes ≤ length bytes → p a' ≡ q a')
      → batch_round bytes a p ≡ batch_round bytes a q
  batch_round_next bytes a p q k = elim (Bool-cases (ltb (length bytes) 12)) [
    | inl short ↦ rw short refl
    | inr long ↦ elim (Bool-cases (ltb (length bytes) (total_length bytes))) [
      | inl cut ↦ rw (long, cut) refl
      | inr whole ↦
          rw (long, whole)
            (bind-cong
              (decode_one_record_batch lib checksum topic partition
                (take (total_length bytes) bytes))
              _ _
              λ info.
                ap (λ m. bind m λ more. ok ((filter_batch topic partition info a).0 ++ more))
                  (k (filter_batch topic partition info a).1 (ground arith)))
    ]
  ]

  -- The loop of decodeRecordBatch ends within as many rounds as there are bytes, since each takes at
  -- least twelve: with at least that many rounds allowed, the result of decode_batches does not depend on how
  -- many are.
  pub decode_batches_enough :
      (f g : ℕ) (a : Aborting) (bytes : List ℕ)
      → length bytes ≤ f
      → length bytes ≤ g
      → decode_batches lib checksum topic partition f a bytes
        ≡ decode_batches lib checksum topic partition g a bytes
  unfolding decode_batches
  decode_batches_enough zero g a bytes hf hg = sym (too_short g a bytes hf)
  decode_batches_enough (suc f) zero a bytes hf hg = too_short (suc f) a bytes hg
  decode_batches_enough (suc f) (suc g) a bytes hf hg =
      let rest = drop (total_length bytes) bytes in
      batch_round_next bytes a (λ a'. decode_batches lib checksum topic partition f a' rest)
        (λ a'. decode_batches lib checksum topic partition g a' rest)
        λ a' whole.
          decode_batches_enough f g a' rest (omega (arith, length-drop (total_length bytes) bytes))
            (omega (arith, length-drop (total_length bytes) bytes))

  -- A whole batch that is decoded.
  pub record IsBatch (bytes : List ℕ) (info : BatchInfo) : Type 0 where
    pub whole : total_length bytes ≡ length bytes
    pub decoded : decode_one_record_batch lib checksum topic partition bytes ≡ ok (some info)

  decode_batches-one :
      (f : ℕ) (a : Aborting) (bytes rest : List ℕ) (info : BatchInfo)
      → IsBatch bytes info
      → decode_batches lib checksum topic partition (suc f) a (bytes ++ rest)
        ≡ bind
            (decode_batches lib checksum topic partition f
              (filter_batch topic partition (some info) a).1
              rest)
            λ more. ok ((filter_batch topic partition (some info) a).0 ++ more)
  unfolding decode_batches
  decode_batches-one f a bytes rest info h =
      let n = length-append bytes rest in
      let total : total_length (bytes ++ rest) ≡ length bytes =
        total_length-append bytes rest (omega (arith, h.whole)) ∙ h.whole in
      rw
        (
          total,
          le→ltb (length (bytes ++ rest)) 12 (omega (arith, n, h.whole)),
          le→ltb (length (bytes ++ rest)) (length bytes) (omega (arith, n)),
          take-length-append bytes rest,
          h.decoded,
          drop-length-append bytes rest,
        )
        refl

  decode_batches-end_to_end :
      (f : ℕ) (a : Aborting) (l : List (List ℕ × BatchInfo))
      → All (λ x. IsBatch x.0 x.1) l
      → length (end_to_end l) ≤ f
      → decode_batches lib checksum topic partition f a (end_to_end l)
        ≡ ok (deliver_all topic partition a (map (λ x. x.1) l))
  decode_batches-end_to_end f a [] h le = too_short f a [] (omega arith)
  decode_batches-end_to_end zero a ((bytes, info) ∷ l) h le =
      absurd (omega (arith, h.0.whole, length-append bytes (end_to_end l)))
  decode_batches-end_to_end (suc f) a ((bytes, info) ∷ l) h le =
      decode_batches-one f a bytes (end_to_end l) info h.0
      ∙ ap (λ m. bind m λ more. ok ((filter_batch topic partition (some info) a).0 ++ more))
          (decode_batches-end_to_end f (filter_batch topic partition (some info) a).1 l h.1
            (omega (arith, h.0.whole, length-append bytes (end_to_end l))))

-- decodeRecordBatch, on whole batches one behind the other that are each decoded, succeeds, and
-- delivers of each in its turn what the switch makes of it and of the aborted transactions that have
-- begun by its base offset.
pub decode_record_batch-end_to_end :
    (lib : Codecs) (checksum : List ℕ → ℕ) (topic : List ℕ) (partition : ℤ)
    (l : List (List ℕ × BatchInfo)) (aborted : List AbortedTxn)
    → All (λ x. IsBatch lib checksum topic partition x.0 x.1) l
    → decode_record_batch lib checksum topic partition (end_to_end l) aborted
      ≡ ok (
          deliver_all topic partition
            (record { upcoming = aborted; pids = λ p. false })
            (map (λ x. x.1) l))
unfolding decode_record_batch
decode_record_batch-end_to_end lib checksum topic partition l aborted h =
    decode_batches-end_to_end lib checksum topic partition (length (end_to_end l))
      (record { upcoming = aborted; pids = λ p. false }) l h (omega arith)
