-- ===== src/Protocol/Assignor/Shares.antt =====
-- What one member holds of one topic, and how appendTopicParts changes it.
use mathlib.Core.List.{Perm, perm_append_comm}
use mathlib.Core.List.Perm
use gokafka.Prelude.{
  append_assoc, sym, subst, refl, ◌⊎◌, ap₂, ◌∙◌, false, ◌≢◌, bytes_eq_refl, All, inr, inl,
  bytes_eq_iff, arith, ℕ, ◌≡◌, List, [], ◌∷◌, ◌++◌, ◌&&◌, if◌then◌else◌, bytes_eq, Bool-cases,
}
use gokafka.Prelude.Int.{ℤ}
use gokafka.Protocol.Assignment.{TopicPartitions}
use gokafka.Protocol.Assignor.{ByMember, add_parts, append_topic_parts}

-- The partitions of the first entry for a topic.
unfoldable pub parts_of : List ℕ → List TopicPartitions → List ℤ
parts_of topic [] = []
parts_of topic (a ∷ rest) =
    let more = parts_of topic rest in if bytes_eq a.topic topic then a.partitions else more

pub parts_of-add_parts :
    (topic t : List ℕ) (ps : List ℤ) (l : List TopicPartitions)
    → parts_of t (add_parts topic ps l)
      ≡ (if bytes_eq topic t then parts_of t l ++ ps else parts_of t l)
unfolding parts_of add_parts
parts_of-add_parts topic t ps [] = ground arith
parts_of-add_parts topic t ps (a ∷ rest) = ground (
  arith,
  bytes_eq_iff a.topic topic,
  bytes_eq_iff a.topic t,
  bytes_eq_iff topic t,
  parts_of-add_parts topic t ps rest,
)

-- What member `m` holds of topic `t`.
abbrev pub share : ByMember → List ℕ → List ℕ → List ℤ
share by_member m t = parts_of t (by_member m)

pub share-append_topic_parts :
    (by_member : ByMember) (member topic m t : List ℕ) (ps : List ℤ)
    → share (append_topic_parts by_member member topic ps) m t ≡ (
        if bytes_eq member m && bytes_eq topic t
        then share by_member m t ++ ps
        else share by_member m t)
unfolding append_topic_parts
share-append_topic_parts by_member member topic m t ps = elim (Bool-cases (bytes_eq member m)) [
  | inl same ↦ rw same (parts_of-add_parts topic t ps (by_member m))
  | inr other ↦ rw other
]

-- The member ids of a list are different from each other.
abbrev pub Distinct : List (List ℕ) → Type 0
Distinct [] = Unit
Distinct (m ∷ ms) = All (λ k. m ≢ k) ms × Distinct ms

-- None of the members holds anything of the topic yet.
abbrev pub HoldsNone : ByMember → List ℕ → List (List ℕ) → Type 0
HoldsNone by_member topic ms = All (λ m. share by_member m topic ≡ []) ms

-- The shares of the members, one behind the other.
abbrev pub all_shares : ByMember → List ℕ → List (List ℕ) → List ℤ
all_shares by_member topic [] = []
all_shares by_member topic (m ∷ ms) = share by_member m topic ++ all_shares by_member topic ms

pub ne→bytes_eq : (m k : List ℕ) → m ≢ k → bytes_eq m k ≡ false
ne→bytes_eq m k h = elim (Bool-cases (bytes_eq m k)) [
  | inl same ↦ absurd (h ((bytes_eq_iff m k).0 same))
  | inr other ↦ other
]

pub share-append_self :
    (by_member : ByMember) (m t : List ℕ) (ps : List ℤ)
    → share (append_topic_parts by_member m t ps) m t ≡ share by_member m t ++ ps
share-append_self by_member m t ps =
    rw (share-append_topic_parts by_member m t m t ps, bytes_eq_refl m, bytes_eq_refl t)

pub share-append_other :
    (by_member : ByMember) (member topic m t : List ℕ) (ps : List ℤ)
    → member ≢ m
    → share (append_topic_parts by_member member topic ps) m t ≡ share by_member m t
share-append_other by_member member topic m t ps h =
    rw (share-append_topic_parts by_member member topic m t ps, ne→bytes_eq member m h)

pub share-append_topic_ne :
    (by_member : ByMember) (member topic m t : List ℕ) (ps : List ℤ)
    → topic ≢ t
    → share (append_topic_parts by_member member topic ps) m t ≡ share by_member m t
share-append_topic_ne by_member member topic m t ps h = elim (Bool-cases (bytes_eq member m)) [
  | inl same ↦
      rw (share-append_topic_parts by_member member topic m t ps, same, ne→bytes_eq topic t h)
  | inr other ↦ rw (share-append_topic_parts by_member member topic m t ps, other)
]

-- Members other than the one that gets a share keep theirs.
pub HoldsNone-append :
    (by_member : ByMember) (member topic : List ℕ) (ps : List ℤ) (ms : List (List ℕ))
    → All (λ k. member ≢ k) ms
    → HoldsNone by_member topic ms
    → HoldsNone (append_topic_parts by_member member topic ps) topic ms
HoldsNone-append by_member member topic ps [] d h = tt
HoldsNone-append by_member member topic ps (m ∷ ms) d h = (
  share-append_other by_member member topic m topic ps d.0 ∙ h.0,
  HoldsNone-append by_member member topic ps ms d.1 h.1,
)

-- `m` is one of the members.
abbrev pub In : List ℕ → List (List ℕ) → Type 0
In m [] = ⊥
In m (k ∷ ms) = (m ≡ k) ⊎ In m ms

pub All-at :
    (mid : List ℕ) (m : List ℕ) (ms : List (List ℕ)) → All (λ k. m ≢ k) ms → In mid ms → m ≢ mid
All-at mid m (k ∷ ms) d (inl e) = λ f. d.0 (f ∙ e)
All-at mid m (k ∷ ms) d (inr i) = All-at mid m ms d.1 i
All-at mid m [] d i = absurd i

pub all_shares_ext :
    (a b : ByMember) (topic : List ℕ) (ms : List (List ℕ))
    → ((m : List ℕ) → share a m topic ≡ share b m topic)
    → all_shares a topic ms ≡ all_shares b topic ms
all_shares_ext a b topic [] h = refl
all_shares_ext a b topic (m ∷ ms) h = ap₂ ◌++◌ (h m) (all_shares_ext a b topic ms h)

-- One more partition for a member is one more partition in all.
all_shares-append_none :
    (by_member : ByMember) (mid topic : List ℕ) (ps : List ℤ) (ms : List (List ℕ))
    → All (λ k. mid ≢ k) ms
    → all_shares (append_topic_parts by_member mid topic ps) topic ms
      ≡ all_shares by_member topic ms
all_shares-append_none by_member mid topic ps [] d = refl
all_shares-append_none by_member mid topic ps (m ∷ ms) d =
    ap₂ ◌++◌ (share-append_other by_member mid topic m topic ps d.0)
      (all_shares-append_none by_member mid topic ps ms d.1)

pub all_shares-append :
    (by_member : ByMember) (mid topic : List ℕ) (ps : List ℤ) (ms : List (List ℕ))
    → Distinct ms
    → In mid ms
    → Perm
        (all_shares (append_topic_parts by_member mid topic ps) topic ms)
        (all_shares by_member topic ms ++ ps)
all_shares-append by_member mid topic ps [] d i = absurd i
all_shares-append by_member mid topic ps (m ∷ ms) d (inl e) =
    subst
      (λ x.
        Perm (all_shares (append_topic_parts by_member x topic ps) topic (m ∷ ms))
          (all_shares by_member topic (m ∷ ms) ++ ps))
      (sym e)
      (rw
        (
          share-append_self by_member m topic ps,
          all_shares-append_none by_member m topic ps ms d.0,
          append_assoc,
          append_assoc,
        )
        (Perm.append_left (share by_member m topic)
          (perm_append_comm ps (all_shares by_member topic ms))))
all_shares-append by_member mid topic ps (m ∷ ms) d (inr i) =
    rw
      (
        share-append_other by_member mid topic m topic ps (λ e. All-at mid m ms d.0 i (sym e)),
        append_assoc,
      )
      (Perm.append_left (share by_member m topic)
        (all_shares-append by_member mid topic ps ms d.1 i))
