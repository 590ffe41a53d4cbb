-- ===== src/Protocol/Assignor/Sticky.antt =====
-- assignSticky keeps the members' shares balanced.
use gokafka.Protocol.Assignor.Pick.{pick_loop-le, pick_loop-In}
use gokafka.Protocol.Assignment.{TopicPartitions}
use gokafka.Prelude.Int.{ltb_ℤ, ℤ}
use gokafka.Prelude.{
  ◌<◌, sym, subst, ◌≢◌, append_assoc, append-nil, ◌++◌, length-append, All, bytes_eq_iff, bytes_eq,
  bytes_eq_refl, Bool-cases, ◌∙◌, ◌+◌, length, refl, inr, ◌⊎◌, arith, [], ◌≤◌, ◌≡◌, inl, ◌∷◌, ℕ,
  List,
}
use mathlib.Core.List.{Perm}
use mathlib.Core.List.Perm
use gokafka.Protocol.Assignor.{sort_ids, insert_id}
use gokafka.Protocol.Assignor.{
  ByMember, append_topic_parts, sticky_topic_count, pick_loop, bump, sticky_loop, assign_sticky,
}
use gokafka.Protocol.Assignor.Shares.{
  all_shares-append, All-at, In, share, parts_of, Distinct, all_shares, share-append_other,
  share-append_topic_ne, share-append_topic_parts,
}

-- The counts are the sizes of the shares, and no two of them differ by more than one.
record IsBalanced (topic : List ℕ) (ms : List (List ℕ)) (counts : List ℕ → ℕ) (by_member : ByMember)
    : Type 0 where
  counted : (m : List ℕ) → counts m ≡ length (share by_member m topic)
  close : (m k : List ℕ) → In m ms → In k ms → counts m ≤ counts k + 1

bump_close :
    (counts : List ℕ → ℕ) (mid m k : List ℕ)
    → counts m ≤ counts k + 1
    → counts mid ≤ counts k
    → bump counts mid m ≤ bump counts mid k + 1
bump_close counts mid m k h least = ground (arith, bytes_eq_iff mid m, bytes_eq_iff mid k)

share-bump :
    (counts : List ℕ → ℕ) (by_member : ByMember) (mid topic m : List ℕ) (p : ℤ)
    → counts m ≡ length (share by_member m topic)
    → bump counts mid m ≡ length (share (append_topic_parts by_member mid topic (p ∷ [])) m topic)
share-bump counts by_member mid topic m p e = elim (Bool-cases (bytes_eq mid m)) [
  | inl same ↦
      rw (share-append_topic_parts by_member mid topic m topic (p ∷ []), bytes_eq_refl topic, same)
        (omega (arith, e, length-append (share by_member m topic) (p ∷ [])))
  | inr other ↦
      rw (share-append_topic_parts by_member mid topic m topic (p ∷ []), bytes_eq_refl topic, other)
        e
]

untouched :
    (by_member : ByMember) (mid topic m t : List ℕ) (ps : List ℤ) (ms : List (List ℕ))
    → In mid ms
    → (topic ≢ t) ⊎ All (λ k. m ≢ k) ms
    → share (append_topic_parts by_member mid topic ps) m t ≡ share by_member m t
untouched by_member mid topic m t ps ms i (inl ne) =
    share-append_topic_ne by_member mid topic m t ps ne
untouched by_member mid topic m t ps ms i (inr d) =
    share-append_other by_member mid topic m t ps (λ e. All-at mid m ms d i (sym e))

module _ (topic : List ℕ) (first : List ℕ) (others : List (List ℕ))
    (d : Distinct (first ∷ others)) where
  abbrev members : List (List ℕ)
  members = first ∷ others

  sticky_loop-other :
      (counts : List ℕ → ℕ) (parts : List ℤ) (by_member : ByMember) (m t : List ℕ)
      → (topic ≢ t) ⊎ All (λ k. m ≢ k) members
      → share (sticky_loop topic counts parts first others by_member) m t ≡ share by_member m t
  unfolding sticky_loop
  sticky_loop-other counts [] by_member m t h = refl
  sticky_loop-other counts (p ∷ parts) by_member m t h =
      let mid : List ℕ = pick_loop counts first others in
      sticky_loop-other (bump counts mid) parts (append_topic_parts by_member mid topic (p ∷ [])) m
        t h
      ∙ untouched by_member mid topic m t (p ∷ []) members (pick_loop-In counts first others) h

  sticky_loop-covers :
      (counts : List ℕ → ℕ) (parts : List ℤ) (by_member : ByMember)
      → Perm
          (all_shares (sticky_loop topic counts parts first others by_member) topic members)
          (all_shares by_member topic members ++ parts)
  unfolding sticky_loop
  sticky_loop-covers counts [] by_member = rw append-nil (Perm.refl _)
  sticky_loop-covers counts (p ∷ parts) by_member =
      let mid : List ℕ = pick_loop counts first others in
      Perm.trans
        (sticky_loop-covers (bump counts mid) parts
          (append_topic_parts by_member mid topic (p ∷ [])))
        (subst (Perm _) (append_assoc (all_shares by_member topic members) (p ∷ []) parts) (
          Perm.append_right parts (
            all_shares-append by_member mid topic (p ∷ []) members d
              (pick_loop-In counts first others))))

  sticky_loop-balanced :
      (counts : List ℕ → ℕ) (parts : List ℤ) (by_member : ByMember)
      → IsBalanced topic members counts by_member
      → (m k : List ℕ) → In m members
      → In k members
      → length (share (sticky_loop topic counts parts first others by_member) m topic)
        ≤ length (share (sticky_loop topic counts parts first others by_member) k topic) + 1
  unfolding sticky_loop
  sticky_loop-balanced counts [] by_member b m k i j =
      rw (← b.counted m, ← b.counted k) (b.close m k i j)
  sticky_loop-balanced counts (p ∷ parts) by_member b m k i j =
      let mid : List ℕ = pick_loop counts first others in
      sticky_loop-balanced (bump counts mid) parts (append_topic_parts by_member mid topic (p ∷ []))
        (record {
          counted = λ m. share-bump counts by_member mid topic m p (b.counted m);
          close = λ m k i j.
              bump_close counts mid m k (b.close m k i j) (pick_loop-le counts first others k j);
        })
        m k i j

sticky_topic_count-length :
    (topic : List ℕ) (l : List TopicPartitions)
    → sticky_topic_count l topic ≡ length (parts_of topic l)
unfolding sticky_topic_count parts_of
sticky_topic_count-length topic [] = refl
sticky_topic_count-length topic (a ∷ l) = elim (Bool-cases (bytes_eq a.topic topic)) [
  | inl e ↦ rw e
  | inr e ↦ rw e (sticky_topic_count-length topic l)
]

insert_id-perm : (p : ℤ) (l : List ℤ) → Perm (insert_id p l) (p ∷ l)
insert_id-perm p [] = Perm.refl (p ∷ [])
insert_id-perm p (q ∷ l) = elim (Bool-cases (ltb_ℤ q p)) [
  | inl e ↦ rw e (Perm.trans (Perm.cons q (insert_id-perm p l)) (Perm.swap p q l))
  | inr e ↦ rw e (Perm.refl (p ∷ q ∷ l))
]

pub sort_ids-perm : (l : List ℤ) → Perm (sort_ids l) l
unfolding sort_ids
sort_ids-perm [] = Perm.refl []
sort_ids-perm (p ∷ l) = Perm.trans (insert_id-perm p (sort_ids l)) (Perm.cons p (sort_ids-perm l))

-- What `after` is, when a topic's partitions are shared out by need: every partition goes to exactly
-- one member on top of what the members held, no two shares differ by more than one, and nothing
-- else changes.
pub record IsBalancedSplit (topic : List ℕ) (parts : List ℤ) (ms : List (List ℕ))
    (before after : ByMember) : Type 0 where
  pub covers : Perm (all_shares after topic ms) (all_shares before topic ms ++ parts)
  pub balanced :
      (m k : List ℕ)
      → In m ms
      → In k ms
      → length (share after m topic) ≤ length (share after k topic) + 1
  pub others :
      (m t : List ℕ) → (topic ≢ t) ⊎ All (λ k. m ≢ k) ms → share after m t ≡ share before m t

-- On different members whose shares of the topic differ by at most one (so too if nobody holds any of
-- it), assignSticky gives every partition to exactly one member and keeps the shares that close;
-- what members hold of other topics stays, and so does what everybody else holds.
pub assign_sticky-IsBalancedSplit :
    (topic : List ℕ) (parts : List ℤ) (ms : List (List ℕ)) (by_member : ByMember)
    → 0 < length ms
    → Distinct ms
    → ((m k : List ℕ)
        → In m ms
        → In k ms
        → length (share by_member m topic) ≤ length (share by_member k topic) + 1)
    → IsBalancedSplit topic parts ms by_member (assign_sticky topic parts ms by_member)
unfolding assign_sticky
assign_sticky-IsBalancedSplit topic parts [] by_member pos d h = absurd (omega arith)
assign_sticky-IsBalancedSplit topic parts (first ∷ rest) by_member pos d h =
    let counts : List ℕ → ℕ = λ mid. sticky_topic_count (by_member mid) topic in
    let counted : (m : List ℕ) → counts m ≡ length (share by_member m topic) =
      λ m. sticky_topic_count-length topic (by_member m) in
    record {
      covers =
          Perm.trans (sticky_loop-covers topic first rest d counts (sort_ids parts) by_member)
            (Perm.append_left (all_shares by_member topic (first ∷ rest)) (sort_ids-perm parts));
      balanced =
          sticky_loop-balanced topic first rest d counts (sort_ids parts) by_member (record {
            counted = counted;
            close = λ m k i j. rw (counted m, counted k) (h m k i j);
          });
      others = sticky_loop-other topic first rest d counts (sort_ids parts) by_member;
    }
