-- ===== src/Protocol/Assignor/RoundRobin.antt =====
-- assignRoundRobin hands out every partition once.
use gokafka.Prelude.Int.{ℤ}
use gokafka.Prelude.{
  ◌∙◌, sym, inr, inl, ◌%◌, zero, subst, ap₂, append_assoc, append-nil, All, ◌⊎◌, ◌+◌, ◌++◌,
  suc_ne_zero, suc, refl, arith, ap, ◌≢◌, ◌∷◌, ◌<◌, [], ◌≡◌, length, ℕ, List,
}
use mathlib.Core.List.{Perm, perm_append_comm}
use mathlib.Core.List.Perm
use native.Mathlib.Nat.{mod-lt}
use gokafka.Protocol.Assignor.{
  ByMember, fill_buckets, hand_out, add_to_bucket, empty_buckets, assign_round_robin,
}
use gokafka.Protocol.Assignor.Shares.{
  share, Distinct, HoldsNone, all_shares, share-append_self, share-append_other,
  share-append_topic_ne, HoldsNone-append,
}

-- The buckets, one behind the other.
abbrev concat : List (List ℤ) → List ℤ
concat [] = []
concat (b ∷ bs) = b ++ concat bs

length-add_to_bucket :
    (bs : List (List ℤ)) (i : ℕ) (p : ℤ) → length (add_to_bucket bs i p) ≡ length bs
length-add_to_bucket [] i p = refl
length-add_to_bucket (b ∷ bs) zero p = refl
length-add_to_bucket (b ∷ bs) (suc i) p = ap suc (length-add_to_bucket bs i p)

concat-add_to_bucket :
    (bs : List (List ℤ)) (i : ℕ) (p : ℤ)
    → i < length bs
    → Perm (concat (add_to_bucket bs i p)) (concat bs ++ p ∷ [])
concat-add_to_bucket [] i p h = absurd (omega arith)
concat-add_to_bucket (b ∷ bs) zero p h =
    rw (append_assoc, append_assoc) (Perm.append_left b (perm_append_comm (p ∷ []) (concat bs)))
concat-add_to_bucket (b ∷ bs) (suc i) p h =
    rw append_assoc (Perm.append_left b (concat-add_to_bucket bs i p (omega arith)))

concat-fill_buckets :
    (n i : ℕ) (parts : List ℤ) (bs : List (List ℤ))
    → 0 < n
    → length bs ≡ n
    → Perm (concat (fill_buckets n i parts bs)) (concat bs ++ parts)
unfolding fill_buckets
concat-fill_buckets n i [] bs h e = rw append-nil (Perm.refl _)
concat-fill_buckets n i (p ∷ parts) bs h e =
    Perm.trans
      (concat-fill_buckets n (i + 1) parts (add_to_bucket bs (i % n) p) h
        (length-add_to_bucket bs (i % n) p ∙ e))
      (subst (Perm _) (append_assoc (concat bs) (p ∷ []) parts) (
        Perm.append_right parts
          (concat-add_to_bucket bs (i % n) p (subst (λ k. i % n < k) (sym e) (mod-lt i h)))))

length-fill_buckets :
    (n i : ℕ) (parts : List ℤ) (bs : List (List ℤ)) → length (fill_buckets n i parts bs) ≡ length bs
unfolding fill_buckets
length-fill_buckets n i [] bs = refl
length-fill_buckets n i (p ∷ parts) bs =
    length-fill_buckets n (i + 1) parts (add_to_bucket bs (i % n) p)
    ∙ length-add_to_bucket bs (i % n) p

concat-empty_buckets : (ms : List (List ℕ)) → concat (empty_buckets ms) ≡ []
concat-empty_buckets [] = refl
concat-empty_buckets (m ∷ ms) = concat-empty_buckets ms

length-empty_buckets : (ms : List (List ℕ)) → length (empty_buckets ms) ≡ length ms
length-empty_buckets [] = refl
length-empty_buckets (m ∷ ms) = ap suc (length-empty_buckets ms)

module _ (topic : List ℕ) where
  hand_out-other :
      (ms : List (List ℕ)) (bs : List (List ℤ)) (by_member : ByMember) (m t : List ℕ)
      → (topic ≢ t) ⊎ All (λ k. m ≢ k) ms
      → share (hand_out topic ms bs by_member) m t ≡ share by_member m t
  unfolding hand_out
  hand_out-other [] bs by_member m t h = refl
  hand_out-other (mid ∷ ms) [] by_member m t h = refl
  hand_out-other (mid ∷ ms) ([] ∷ bs) by_member m t (inl h) =
      hand_out-other ms bs by_member m t (inl h)
  hand_out-other (mid ∷ ms) ([] ∷ bs) by_member m t (inr h) =
      hand_out-other ms bs by_member m t (inr h.1)
  hand_out-other (mid ∷ ms) ((p ∷ ps) ∷ bs) by_member m t (inl h) =
      hand_out-other ms bs _ m t (inl h) ∙ share-append_topic_ne by_member mid topic m t (p ∷ ps) h
  hand_out-other (mid ∷ ms) ((p ∷ ps) ∷ bs) by_member m t (inr h) =
      hand_out-other ms bs _ m t (inr h.1)
      ∙ share-append_other by_member mid topic m t (p ∷ ps) (λ e. h.0 (sym e))

  -- Each member gets its bucket.
  hand_out-shares :
      (ms : List (List ℕ)) (bs : List (List ℤ)) (by_member : ByMember)
      → Distinct ms
      → HoldsNone by_member topic ms
      → length bs ≡ length ms
      → all_shares (hand_out topic ms bs by_member) topic ms ≡ concat bs
  unfolding hand_out
  hand_out-shares [] [] by_member d h e = refl
  hand_out-shares [] (b ∷ bs) by_member d h e = absurd (omega arith)
  hand_out-shares (m ∷ ms) [] by_member d h e = absurd (omega arith)
  hand_out-shares (m ∷ ms) ([] ∷ bs) by_member d h e =
      ap₂ ◌++◌ (hand_out-other ms bs by_member m topic (inr d.0) ∙ h.0)
        (hand_out-shares ms bs by_member d.1 h.1 (omega arith))
  hand_out-shares (m ∷ ms) ((p ∷ ps) ∷ bs) by_member d h e =
      ap₂ ◌++◌
        (hand_out-other ms bs _ m topic (inr d.0)
          ∙ share-append_self by_member m topic (p ∷ ps)
          ∙ ap (λ l. l ++ p ∷ ps) h.0)
        (hand_out-shares ms bs _ d.1 (HoldsNone-append by_member m topic (p ∷ ps) ms d.0 h.1)
          (omega arith))

-- What `after` is, when a topic's partitions are dealt out: every partition goes to exactly one
-- member, and nothing else changes.
pub record IsDeal (topic : List ℕ) (parts : List ℤ) (ms : List (List ℕ)) (before after : ByMember)
    : Type 0 where
  pub covers : Perm (all_shares after topic ms) parts
  pub others :
      (m t : List ℕ) → (topic ≢ t) ⊎ All (λ k. m ≢ k) ms → share after m t ≡ share before m t

assign_round_robin-hand_out :
    (topic : List ℕ) (parts : List ℤ) (m : List ℕ) (ms : List (List ℕ)) (by_member : ByMember)
    → assign_round_robin topic parts (m ∷ ms) by_member
      ≡ hand_out topic
          (m ∷ ms)
          (fill_buckets (length (m ∷ ms)) 0 parts (empty_buckets (m ∷ ms)))
          by_member
unfolding assign_round_robin
assign_round_robin-hand_out topic parts m ms by_member = rw (suc_ne_zero (length ms))

-- On different members that hold nothing of the topic, assignRoundRobin gives every partition to
-- exactly one member; what members hold of other topics stays, and so does what everybody else holds.
pub assign_round_robin-IsDeal :
    (topic : List ℕ) (parts : List ℤ) (ms : List (List ℕ)) (by_member : ByMember)
    → 0 < length ms
    → Distinct ms
    → HoldsNone by_member topic ms
    → IsDeal topic parts ms by_member (assign_round_robin topic parts ms by_member)
assign_round_robin-IsDeal topic parts [] by_member pos d h = absurd (omega arith)
assign_round_robin-IsDeal topic parts (m ∷ ms) by_member pos d h =
    let all : List (List ℕ) = m ∷ ms in
    let buckets : List (List ℤ) = fill_buckets (length all) 0 parts (empty_buckets all) in
    subst (IsDeal topic parts all by_member)
      (sym (assign_round_robin-hand_out topic parts m ms by_member))
      (record {
        covers =
            rw
              (hand_out-shares topic all buckets by_member d h (
                length-fill_buckets (length all) 0 parts (empty_buckets all)
                ∙ length-empty_buckets all))
              (subst (λ l. Perm (concat buckets) (l ++ parts)) (concat-empty_buckets all)
                (concat-fill_buckets (length all) 0 parts (empty_buckets all) (omega arith)
                  (length-empty_buckets all)));
        others = hand_out-other topic all buckets by_member;
      })
