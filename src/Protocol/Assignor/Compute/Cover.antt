-- ===== src/Protocol/Assignor/Compute/Cover.antt =====
-- The leader's assignment gives every partition of every topic to exactly one subscriber.
use gokafka.Prelude.Int.{ℤ}
use gokafka.Protocol.Assignor.{sort_ids, assign_sticky, assign_round_robin, assign_range, ByMember}
use gokafka.Prelude.{
  sym, ==_iff, ◌==◌, Bool-cases, All, inr, false, ◌∙◌, true, subst, refl, ◌++◌, if◌then◌else◌,
  arith, ap, inl, ap₂, Bool, ◌∷◌, length, ◌≢◌, ◌<◌, [], ◌≡◌, ℕ, List,
}
use mathlib.Core.List.{Perm}
use mathlib.Core.List.Perm
use gokafka.Protocol.Assignor.Compute.{
  Subscription, assign_topic, assign_topics, topic_members, sort_strings,
}
use gokafka.Protocol.Assignor.Shares.{
  In, all_shares_ext, All-at, share, Distinct, HoldsNone, all_shares,
}
use gokafka.Protocol.Assignor.Range.{assign_range-IsEvenSplit}
use gokafka.Protocol.Assignor.RoundRobin.{assign_round_robin-IsDeal}
use gokafka.Protocol.Assignor.Sticky.{sort_ids-perm, assign_sticky-IsBalancedSplit}

HoldsNone-at :
    (by_member : ByMember) (topic : List ℕ) (ms : List (List ℕ)) (m : List ℕ)
    → HoldsNone by_member topic ms
    → In m ms
    → share by_member m topic ≡ []
HoldsNone-at by_member topic [] m h i = absurd i
HoldsNone-at by_member topic (k ∷ ms) m h (inl e) = ap (λ x. share by_member x topic) e ∙ h.0
HoldsNone-at by_member topic (k ∷ ms) m h (inr i) = HoldsNone-at by_member topic ms m h.1 i

HoldsNone-shares :
    (by_member : ByMember) (topic : List ℕ) (ms : List (List ℕ))
    → HoldsNone by_member topic ms
    → all_shares by_member topic ms ≡ []
HoldsNone-shares by_member topic [] h = refl
HoldsNone-shares by_member topic (m ∷ ms) h = ap₂ ◌++◌ h.0 (HoldsNone-shares by_member topic ms h.1)

-- One topic, by any assignor: every partition once, and no other topic is touched.
record IsTopicSplit (topic : List ℕ) (parts : List ℤ) (ms : List (List ℕ)) (before after : ByMember)
    : Type 0 where
  covers : Perm (all_shares after topic ms) parts
  others : (m t : List ℕ) → topic ≢ t → share after m t ≡ share before m t

module _ (topic : List ℕ) (parts : List ℤ) (ms : List (List ℕ)) (by_member : ByMember)
    (pos : 0 < length ms) (d : Distinct ms) (h : HoldsNone by_member topic ms) where
  range_split : IsTopicSplit topic parts ms by_member (assign_range topic parts ms by_member)
  range_split =
      let s = assign_range-IsEvenSplit topic parts ms by_member pos d h in
      record { covers = rw s.covers (Perm.refl parts); others = s.other_topics }

  round_robin_split :
      IsTopicSplit topic parts ms by_member (assign_round_robin topic parts ms by_member)
  round_robin_split =
      let s = assign_round_robin-IsDeal topic parts ms by_member pos d h in
      record { covers = s.covers; others = λ m t ne. s.others m t (inl ne) }

  sticky_split : IsTopicSplit topic parts ms by_member (assign_sticky topic parts ms by_member)
  sticky_split =
      let s = assign_sticky-IsBalancedSplit topic parts ms by_member pos d λ m k i j.
        rw (HoldsNone-at by_member topic ms m h i, HoldsNone-at by_member topic ms k h j)
          (omega arith) in
      record {
        covers =
            subst
              (λ l.
                Perm (all_shares (assign_sticky topic parts ms by_member) topic ms) (l ++ parts))
              (HoldsNone-shares by_member topic ms h) s.covers;
        others = λ m t ne. s.others m t (inl ne);
      }

  if_split :
      (b : Bool) (x y : ByMember)
      → IsTopicSplit topic parts ms by_member x
      → IsTopicSplit topic parts ms by_member y
      → IsTopicSplit topic parts ms by_member (if b then x else y)
  if_split true x y hx hy = hx
  if_split false x y hx hy = hy

  assign_topic-split :
      (protocol : List ℕ)
      → IsTopicSplit topic parts ms by_member (assign_topic protocol topic parts ms by_member)
  unfolding assign_topic
  assign_topic-split protocol =
      if_split _ _ _ round_robin_split (if_split _ _ _ sticky_split range_split)

module _ (protocol : List ℕ) (sorted : List Subscription) (partitions : List ℕ → List ℤ) where
  -- The subscribers of a topic, as the loop passes them to the assignor.
  abbrev pub subscribers : List ℕ → List (List ℕ)
  subscribers t = sort_strings (topic_members sorted t)

  -- The state after one topic of the loop.
  abbrev after_topic : List ℕ → ByMember → ByMember
  after_topic topic by_member =
      if length (partitions topic) == 0
      then by_member
      else assign_topic protocol topic (sort_ids (partitions topic)) (subscribers topic) by_member

  none_shared :
      (topic : List ℕ) (by_member : ByMember) (ms : List (List ℕ))
      → ((m : List ℕ) → share by_member m topic ≡ [])
      → HoldsNone by_member topic ms
  none_shared topic by_member [] h = tt
  none_shared topic by_member (m ∷ ms) h = (h m, none_shared topic by_member ms h)

  empty_split :
      (topic : List ℕ) (by_member : ByMember) (ps : List ℤ)
      → length ps ≡ 0
      → ((m : List ℕ) → share by_member m topic ≡ [])
      → IsTopicSplit topic ps (subscribers topic) by_member by_member
  empty_split topic by_member (p ∷ ps) e h = absurd (omega arith)
  empty_split topic by_member [] e h = record {
    covers =
        rw
          (HoldsNone-shares by_member topic (subscribers topic)
            (none_shared topic by_member (subscribers topic) h))
          (Perm.refl []);
    others = λ m t ne. refl;
  }

  after_topic-split :
      (topic : List ℕ) (by_member : ByMember)
      → 0 < length (subscribers topic)
      → Distinct (subscribers topic)
      → ((m : List ℕ) → share by_member m topic ≡ [])
      → IsTopicSplit topic
          (partitions topic)
          (subscribers topic)
          by_member
          (after_topic topic by_member)
  after_topic-split topic by_member pos d h = elim (Bool-cases (length (partitions topic) == 0)) [
    | inl e ↦ rw e (empty_split topic by_member (partitions topic) ((==_iff _ _).0 e) h)
    | inr e ↦
        let s =
          assign_topic-split topic (sort_ids (partitions topic)) (subscribers topic) by_member pos d
            (none_shared topic by_member (subscribers topic) h) protocol in
        rw e (record {
          covers = Perm.trans s.covers (sort_ids-perm (partitions topic));
          others = s.others;
        })
  ]

  -- The topics of the loop have subscribers, and different ones.
  abbrev pub IsSubscribed : List (List ℕ) → Type 0
  IsSubscribed order = All (λ t. (0 < length (subscribers t)) × Distinct (subscribers t)) order

  assign_topics-other :
      (order : List (List ℕ)) (by_member : ByMember) (m t : List ℕ)
      → IsSubscribed order
      → Distinct order
      → ((k u : List ℕ) → In u order → share by_member k u ≡ [])
      → All (λ u. t ≢ u) order
      → share (assign_topics protocol sorted partitions order by_member) m t ≡ share by_member m t
  unfolding assign_topics
  assign_topics-other [] by_member m t s d h ne = refl
  assign_topics-other (topic ∷ order) by_member m t s d h ne =
      let split = after_topic-split topic by_member s.0.0 s.0.1 (λ k. h k topic (inl refl)) in
      assign_topics-other order (after_topic topic by_member) m t s.1 d.1
        (λ k u i. split.others k u (All-at u topic order d.0 i) ∙ h k u (inr i)) ne.1
      ∙ split.others m t (λ e. ne.0 (sym e))

  -- Whatever the assignor and whatever the order of the loop over different topics, each with
  -- different subscribers: the shares that the subscribers of a topic hold in the end are, together,
  -- the partitions of the topic, each once.
  pub assign_topics-covers :
      (order : List (List ℕ)) (by_member : ByMember) (topic : List ℕ)
      → IsSubscribed order
      → Distinct order
      → ((k u : List ℕ) → In u order → share by_member k u ≡ [])
      → In topic order
      → Perm
          (all_shares
            (assign_topics protocol sorted partitions order by_member)
            topic
            (subscribers topic))
          (partitions topic)
  unfolding assign_topics
  assign_topics-covers [] by_member topic s d h i = absurd i
  assign_topics-covers (t ∷ order) by_member topic s d h (inr i) =
      let split = after_topic-split t by_member s.0.0 s.0.1 (λ k. h k t (inl refl)) in
      assign_topics-covers order (after_topic t by_member) topic s.1 d.1
        (λ k u j. split.others k u (All-at u t order d.0 j) ∙ h k u (inr j)) i
  assign_topics-covers (t ∷ order) by_member topic s d h (inl e) =
      let split = after_topic-split t by_member s.0.0 s.0.1 (λ k. h k t (inl refl)) in
      let after : ByMember = after_topic t by_member in
      let final : ByMember = assign_topics protocol sorted partitions order after in
      let kept : (m : List ℕ) → share final m t ≡ share after m t = λ m.
        assign_topics-other order after m t s.1 d.1
          (λ k u j. split.others k u (All-at u t order d.0 j) ∙ h k u (inr j)) d.0 in
      subst (λ x. Perm (all_shares final x (subscribers x)) (partitions x)) (sym e)
        (subst (λ l. Perm l (partitions t))
          (sym (all_shares_ext final after t (subscribers t) kept)) split.covers)
