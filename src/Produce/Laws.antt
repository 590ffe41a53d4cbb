-- ===== src/Produce/Laws.antt =====
-- Sequence numbers are handed out without gaps, and a rollback takes back exactly one block.
use gokafka.Prelude.{
  Bool, if◌then◌else◌, ◌∙◌, subst, inr, bytes_eq_iff, bytes_eq, ap, sym, inl, Bool-cases, ◌-◌, refl,
  ◌≤◌, false, bytes_eq_refl, arith, ◌<◌, ◌+◌, true, ◌≡◌, ◌^◌, ℕ,
}
use gokafka.Produce.{
  put, wrap32, SeqKey, key_eq, Sequences, reserve_sequence, reserve_block, rollback_block,
}
use gokafka.Prelude.Int.{
  ltb_ℤ, to_signed-to_unsigned_32, ◌-ℤ◌, ◌+ℤ◌, eqb_ℤ, ℤ, pos, negsuc, IsSigned,
}

eqb_refl : (v : ℤ) → eqb_ℤ v v ≡ true
eqb_refl (pos n) = ground arith
eqb_refl (negsuc n) = ground arith

pub key_eq_refl : (k : SeqKey) → key_eq k k ≡ true
unfolding key_eq
key_eq_refl k = rw (bytes_eq_refl k.topic) (eqb_refl k.part)

-- int32 subtraction undoes int32 addition.
wrap_undo :
    (a c : ℤ) → IsSigned (2 ^ 32) a → IsSigned (2 ^ 32) c → wrap32 (wrap32 (a +ℤ c) -ℤ c) ≡ a
wrap_undo (pos a) (pos c) h k = ground arith
wrap_undo (pos a) (negsuc c) h k = ground arith
wrap_undo (negsuc a) (pos c) h k = ground arith
wrap_undo (negsuc a) (negsuc c) h k = ground arith

pub eqb→equal : (a b : ℤ) → eqb_ℤ a b ≡ true → a ≡ b
eqb→equal (pos a) (pos b) e = ap pos (grind arith)
eqb→equal (pos a) (negsuc b) e = ground arith
eqb→equal (negsuc a) (pos b) e = ground arith
eqb→equal (negsuc a) (negsuc b) e = ap negsuc (grind arith)

pub key_eq→equal : (a b : SeqKey) → key_eq a b ≡ true → a ≡ b
unfolding key_eq
key_eq→equal a b e = elim (Bool-cases (bytes_eq a.topic b.topic)) [
  | inl same ↦ λ i. record {
    topic = (bytes_eq_iff a.topic b.topic).0 same i;
    part = eqb→equal a.part b.part (rw (sym e, same) refl) i;
  }
  | inr other ↦ ground (arith, e, other)
]

wrap_small : (c : ℕ) → c < 2 ^ 31 → wrap32 (pos c) ≡ pos c
wrap_small c h = ground arith

wrap_sum : (a c : ℕ) → a + c < 2 ^ 31 → wrap32 (pos a +ℤ pos c) ≡ pos (a + c)
wrap_sum a c h = ground arith

not_negative : (n : ℕ) → ltb_ℤ (pos n) (pos 0) ≡ false
not_negative n = ground arith

rollback_block-value :
    (s : Sequences) (key : SeqKey) (count : ℤ) (n : ℕ)
    → wrap32 (s key -ℤ wrap32 count) ≡ pos n
    → (k : SeqKey) → rollback_block s key count k ≡ put s key (pos n) k
unfolding rollback_block
rollback_block-value s key count n e k =
    subst
      (λ v. (if ltb_ℤ v (pos 0) then put s key (pos 0) else put s key v) k ≡ put s key (pos n) k)
      (sym e) (rw (not_negative n) refl)

put-at : (s : Sequences) (key : SeqKey) (v : ℤ) → put s key v key ≡ v
put-at s key v = rw (key_eq_refl key) refl

put_back :
    (s : Sequences) (key : SeqKey) (v : ℤ) (k : SeqKey) → put (put s key v) key (s key) k ≡ s k
put_back s key v k = elim (Bool-cases (key_eq key k)) [
  | inl same ↦ rw same (ap s (key_eq→equal key k same))
  | inr other ↦ rw other refl
]

reserve-undo :
    (s : Sequences) (key : SeqKey) (count : ℤ) (n : ℕ)
    → IsSigned (2 ^ 32) count
    → s key ≡ pos n
    → n < 2 ^ 31
    → wrap32 (put s key (wrap32 (s key +ℤ wrap32 count)) key -ℤ wrap32 count) ≡ pos n
reserve-undo s key count n h e lt =
    ap (λ w. wrap32 (w -ℤ wrap32 count)) (put-at s key (wrap32 (s key +ℤ wrap32 count)))
    ∙ ap (λ c. wrap32 (wrap32 (s key +ℤ c) -ℤ c)) (to_signed-to_unsigned_32 count h)
    ∙ ap (λ v. wrap32 (wrap32 (v +ℤ count) -ℤ count)) e
    ∙ wrap_undo (pos n) count lt h

-- RollbackBlock after ReserveBlock of the same block leaves every partition's sequence number as it
-- was, for every int32 count, whether or not the sum passes the int32 range.
pub rollback_block-reserve_block :
    (s : Sequences) (key : SeqKey) (count : ℤ) (n : ℕ)
    → IsSigned (2 ^ 32) count
    → s key ≡ pos n
    → n < 2 ^ 31
    → (k : SeqKey) → rollback_block (reserve_block s key count).0 key count k ≡ s k
unfolding rollback_block reserve_block
rollback_block-reserve_block s key count n h e lt k =
    rollback_block-value (put s key (wrap32 (s key +ℤ wrap32 count))) key count n
      (reserve-undo s key count n h e lt) k
    ∙ ap (λ v. put (put s key (wrap32 (s key +ℤ wrap32 count))) key v k) (sym e)
    ∙ put_back s key (wrap32 (s key +ℤ wrap32 count)) k

twice : (b : Bool) (v w u : ℤ) → (if b then v else (if b then w else u)) ≡ (if b then v else u)
twice true v w u = refl
twice false v w u = refl

-- Two blocks in a row that fit the int32 range: the first starts at the partition's number, the second
-- right behind the first, and no other partition is touched.
pub reserve_block_contiguous :
    (s : Sequences) (key : SeqKey) (n a b : ℕ)
    → s key ≡ pos n
    → n + a + b < 2 ^ 31
    → ((reserve_block s key (pos a)).1 ≡ pos n)
      × ((reserve_block (reserve_block s key (pos a)).0 key (pos b)).1 ≡ pos (n + a))
      × (reserve_sequence (reserve_block (reserve_block s key (pos a)).0 key (pos b)).0 key
          ≡ pos (n + a + b))
      × ((k : SeqKey)
          → reserve_sequence (reserve_block (reserve_block s key (pos a)).0 key (pos b)).0 k
            ≡ (if key_eq key k then pos (n + a + b) else s k))
unfolding reserve_block reserve_sequence
reserve_block_contiguous s key n a b e fits =
    rw
      (
        key_eq_refl key,
        e,
        wrap_small a (omega arith),
        wrap_small b (omega arith),
        wrap_sum n a (omega arith),
        wrap_sum (n + a) b fits,
      )
      (refl, refl, refl, λ k. twice (key_eq key k) (pos (n + a + b)) (pos (n + a)) (s k))

wrap_over :
    (a c : ℕ)
    → a < 2 ^ 31
    → c < 2 ^ 31
    → 2 ^ 31 ≤ a + c
    → wrap32 (pos a +ℤ pos c) ≡ negsuc (2 ^ 32 - 1 - (a + c))
wrap_over a c h k l = ground arith

-- A block that passes the largest int32 leaves a negative sequence number for the next batch.
pub reserve_block_overflow :
    (s : Sequences) (key : SeqKey) (n a : ℕ)
    → s key ≡ pos n
    → n < 2 ^ 31
    → a < 2 ^ 31
    → 2 ^ 31 ≤ n + a
    → reserve_sequence (reserve_block s key (pos a)).0 key ≡ negsuc (2 ^ 32 - 1 - (n + a))
unfolding reserve_block reserve_sequence
reserve_block_overflow s key n a e h k over =
    rw (key_eq_refl key, e, wrap_small a k, wrap_over n a h k over)
