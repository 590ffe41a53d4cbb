-- ===== src/Kfake/Log/Fetch.antt =====
-- What was produced to the mock broker is fetched from it.
use gokafka.Wire.Ints.RoundTrip.{signed_64, to_unsigned_64-lt, big_endian-put_uint64}
use gokafka.Wire.Ints.{put_uint64}
use gokafka.Prelude.Int.{negsuc, pos, to_signed, to_unsigned, IsSigned, leb_ℤ, ℤ}
use gokafka.Prelude.{
  subst, ap₂, ◌<◌, ◌+◌, bytes_eq_refl, zero, suc, none, set, some, get_elem?, arith, append-nil,
  true, append_assoc, sym, refl, le→ltb, ◌∙◌, ltb, drop, if◌then◌else◌, ap, ◌^◌, false, Bool, ◌≡◌,
  [], ◌∷◌, length, ◌≤◌, ◌++◌, ℕ, All, List,
}
use gokafka.Kfake.Log.{
  add_64, batch_record_count, with_log, in_topic, collected, append_to, put_topic, append_batch,
  produce_partition, partition_of, collect_batches, Topics, base_of, patch_base_offset, collect,
  PartitionLog,
}

-- Every batch of the log lies below its end.
pub record IsLog (pl : PartitionLog) : Type 0 where
  pub below : All (λ b. leb_ℤ pl.leo (base_of b) ≡ false) pl.batches

collect-append :
    (offset : ℤ) (batches : List (List ℕ)) (b : List ℕ)
    → collect offset (batches ++ b ∷ []) ≡ collect offset batches ++ collect offset (b ∷ [])
unfolding collect
collect-append offset [] b = refl
collect-append offset (c ∷ batches) b =
    step (ltb (length c) 8) (leb_ℤ offset (base_of c)) _ _ _ (collect-append offset batches b)
  where
    step :
        (short late : Bool) (xs ys zs : List ℕ)
        → xs ≡ ys ++ zs
        → (if short then xs else if late then c ++ xs else xs)
          ≡ (if short then ys else if late then c ++ ys else ys) ++ zs
    step true late xs ys zs e = e
    step false true xs ys zs e = ap (λ l. c ++ l) e ∙ sym (append_assoc c ys zs)
    step false false xs ys zs e = e

if_same : (c : Bool) (l : List ℕ) → (if c then l else l) ≡ l
if_same true l = refl
if_same false l = refl

collect-none :
    (offset : ℤ) (batches : List (List ℕ))
    → All (λ b. leb_ℤ offset (base_of b) ≡ false) batches
    → collect offset batches ≡ []
unfolding collect
collect-none offset [] h = refl
collect-none offset (b ∷ batches) h =
    rw (h.0, collect-none offset batches h.1) (if_same (ltb (length b) 8) [])

patched :
    (batch : List ℕ) (off : ℤ)
    → 8 ≤ length batch
    → patch_base_offset batch off ≡ put_uint64 (to_unsigned (2 ^ 64) off) ++ drop 8 batch
unfolding patch_base_offset
patched batch off h = rw (le→ltb (length batch) 8 h) refl

base_of-patch_base_offset :
    (batch : List ℕ) (off : ℤ)
    → 8 ≤ length batch
    → IsSigned (2 ^ 64) off
    → base_of (patch_base_offset batch off) ≡ off
base_of-patch_base_offset batch off h k =
    ap base_of (patched batch off h)
    ∙ ap (to_signed (2 ^ 64))
        (big_endian-put_uint64 (to_unsigned (2 ^ 64) off) (to_unsigned_64-lt off))
    ∙ signed_64 off k

collect_one :
    (offset leo : ℤ) (b : List ℕ)
    → base_of b ≡ leo
    → 8 ≤ length b
    → leb_ℤ offset leo ≡ true
    → collect offset (b ∷ []) ≡ b
unfolding collect
collect_one offset leo b e h low =
    rw (le→ltb (length b) 8 h, ap (leb_ℤ offset) e ∙ low, append-nil b) refl

patched_long :
    (batch : List ℕ) (off : ℤ) → 8 ≤ length batch → 8 ≤ length (patch_base_offset batch off)
patched_long batch off h = rw (patched batch off h) (omega arith)

get_elem?-set :
    (t : List PartitionLog) (n : ℕ) (pl pl' : PartitionLog)
    → get_elem? t n ≡ some pl
    → get_elem? (set t n pl') n ≡ some pl'
get_elem?-set [] n pl pl' h = cc
get_elem?-set (x ∷ t) zero pl pl' h = refl
get_elem?-set (x ∷ t) (suc n) pl pl' h = get_elem?-set t n pl pl' h

leb_refl : (v : ℤ) → leb_ℤ v v ≡ true
leb_refl (pos n) = ground arith
leb_refl (negsuc n) = ground arith

above : (a c : ℕ) (v : ℤ) → leb_ℤ (pos a) v ≡ false → leb_ℤ (pos (a + c)) v ≡ false
above a c (pos n) h = ground arith
above a c (negsuc n) h = ground arith

All-above :
    (a c : ℕ) (batches : List (List ℕ)) (b : List ℕ)
    → All (λ b. leb_ℤ (pos a) (base_of b) ≡ false) batches
    → leb_ℤ (pos (a + c)) (base_of b) ≡ false
    → All (λ b. leb_ℤ (pos (a + c)) (base_of b) ≡ false) (batches ++ b ∷ [])
All-above a c [] b h k = (k, tt)
All-above a c (x ∷ batches) b h k = (above a c (base_of x) h.0, All-above a c batches b h.1 k)

add_64_small : (a c : ℕ) → a + c < 2 ^ 63 → add_64 (pos a) (pos c) ≡ pos (a + c)
add_64_small a c h = ground arith

beyond : (a c : ℕ) → 0 < c → leb_ℤ (pos (a + c)) (pos a) ≡ false
beyond a c h = ground arith

-- The append of a batch with a positive record count, where the end stays an int64, keeps every batch of the
-- log below its end.
pub append_batch-IsLog :
    (pl : PartitionLog) (batch : List ℕ) (a c : ℕ)
    → IsLog pl
    → pl.leo ≡ pos a
    → batch_record_count batch ≡ pos c
    → 0 < c
    → a + c < 2 ^ 63
    → 8 ≤ length batch
    → IsLog (append_batch pl batch).0
unfolding append_batch
append_batch-IsLog pl batch a c log e k more fits whole =
    let b : List ℕ = patch_base_offset batch pl.leo in
    let end : add_64 pl.leo (batch_record_count batch) ≡ pos (a + c) =
      ap₂ add_64 e k ∙ add_64_small a c fits in
    let base : base_of b ≡ pos a =
      base_of-patch_base_offset batch pl.leo whole (subst (IsSigned (2 ^ 64)) (sym e) (omega arith))
      ∙ e in
    record {
      below =
          subst (λ v. All (λ b. leb_ℤ v (base_of b) ≡ false) (pl.batches ++ b ∷ [])) (sym end)
            (All-above a c pl.batches b
              (subst (λ v. All (λ b. leb_ℤ v (base_of b) ≡ false) pl.batches) e log.below)
              (ap (leb_ℤ (pos (a + c))) base ∙ beyond a c more));
    }

module _ (topics : Topics) (name : List ℕ) (t : List PartitionLog) (n : ℕ) (pl : PartitionLog)
    (batch : List ℕ) (known : topics name ≡ some t) (found : get_elem? t n ≡ some pl)
    (whole : 8 ≤ length batch) (fits : IsSigned (2 ^ 64) pl.leo) where
  partition_of-before : partition_of topics name (pos n) ≡ some (t, n, pl)
  partition_of-before = ap (λ o. in_topic o n) known ∙ ap (with_log t n) found

  produce-append :
      produce_partition topics none name (pos n) batch
      ≡ append_to topics name batch (some (t, n, pl))
  unfolding produce_partition
  produce-append = ap (append_to topics name batch) partition_of-before

  partition_of-after :
      (pl' : PartitionLog)
      → partition_of (put_topic topics name (some (set t n pl'))) name (pos n)
        ≡ some (set t n pl', n, pl')
  partition_of-after pl' =
      ap (λ b. in_topic (if b then some (set t n pl') else topics name) n) (bytes_eq_refl name)
      ∙ ap (with_log (set t n pl') n) (get_elem?-set t n pl pl' found)

  -- Produce answers code 0 and the log's end as base offset, and a fetch from an offset up to there returns what
  -- it returned before and then the produced batch, with that base offset patched in.
  pub collect_batches-produce_partition :
      (offset : ℤ)
      → leb_ℤ offset pl.leo ≡ true
      → ((produce_partition topics none name (pos n) batch).1 ≡ pos 0)
        × ((produce_partition topics none name (pos n) batch).2 ≡ pl.leo)
        × ((collect_batches
              (produce_partition topics none name (pos n) batch).0
              name
              (pos n)
              offset).0
            ≡ (collect_batches topics name (pos n) offset).0 ++ patch_base_offset batch pl.leo)
  unfolding collect_batches append_batch
  collect_batches-produce_partition offset low = (
    ap (λ r. r.1) produce-append,
    ap (λ r. r.2) produce-append,
    ap (λ r. (collected offset (partition_of r.0 name (pos n))).0) produce-append
        ∙ ap (λ o. (collected offset o).0) (partition_of-after (append_batch pl batch).0)
        ∙ collect-append offset pl.batches (patch_base_offset batch pl.leo)
        ∙ ap (λ l. collect offset pl.batches ++ l)
            (collect_one offset pl.leo (patch_base_offset batch pl.leo)
              (base_of-patch_base_offset batch pl.leo whole fits) (patched_long batch pl.leo whole)
              low)
        ∙ ap (λ o. (collected offset o).0 ++ patch_base_offset batch pl.leo)
            (sym partition_of-before),
  )

  fetch_from_end :
      IsLog pl
      → (collect_batches (produce_partition topics none name (pos n) batch).0 name (pos n) pl.leo).0
        ≡ patch_base_offset batch pl.leo
  unfolding collect_batches
  fetch_from_end log =
      (collect_batches-produce_partition pl.leo (leb_refl pl.leo)).2
      ∙ ap (λ o. (collected pl.leo o).0 ++ patch_base_offset batch pl.leo) partition_of-before
      ∙ ap (λ l. l ++ patch_base_offset batch pl.leo) (collect-none pl.leo pl.batches log.below)

  -- In a log whose batches lie below its end, a fetch from the base offset that Produce answers returns
  -- exactly the produced batch, with that base offset patched in.
  pub fetch_what_was_produced :
      IsLog pl
      → let answer = produce_partition topics none name (pos n) batch in
        (collect_batches answer.0 name (pos n) answer.2).0 ≡ patch_base_offset batch answer.2
  unfolding collect_batches
  fetch_what_was_produced log =
      subst
        (λ base.
          (collect_batches (produce_partition topics none name (pos n) batch).0 name (pos n) base).0
          ≡ patch_base_offset batch base)
        (sym (collect_batches-produce_partition pl.leo (leb_refl pl.leo)).1) (fetch_from_end log)
