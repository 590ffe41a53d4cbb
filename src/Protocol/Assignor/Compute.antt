-- ===== src/Protocol/Assignor/Compute.antt =====
-- ComputeGroupAssignments of internal/protocol/group_assign.go: the leader's assignment of all topics.
pub mod Cover
use gokafka.Protocol.Assignment.{encode_member_assignment}
use gokafka.Wire.Writer.{Writer}
use gokafka.Prelude.Int.{ℤ}
use gokafka.Prelude.{
  ◌||◌, ◌==◌, map, codes, length, bytes_lt, bytes_eq, ◌++◌, if◌then◌else◌, [], ◌∷◌, ℕ, List,
}
use gokafka.Protocol.Assignor.{ByMember, assign_range, assign_round_robin, assign_sticky, sort_ids}

-- MemberSubscription
pub record Subscription : Type 0 where
  pub member_id : List ℕ
  pub topics : List (List ℕ)

-- sort.Slice by member id, and sort.Strings.
abbrev pub insert_by_id : Subscription → List Subscription → List Subscription
insert_by_id m [] = m ∷ []
insert_by_id m (k ∷ ks) =
    let rest = insert_by_id m ks in
    if bytes_lt k.member_id m.member_id then k ∷ rest else m ∷ k ∷ ks

unfoldable pub sort_by_id : List Subscription → List Subscription
sort_by_id [] = []
sort_by_id (m ∷ ms) = insert_by_id m (sort_by_id ms)

abbrev pub insert_string : List ℕ → List (List ℕ) → List (List ℕ)
insert_string s [] = s ∷ []
insert_string s (k ∷ ks) =
    let rest = insert_string s ks in if bytes_lt k s then k ∷ rest else s ∷ k ∷ ks

unfoldable pub sort_strings : List (List ℕ) → List (List ℕ)
sort_strings [] = []
sort_strings (s ∷ ss) = insert_string s (sort_strings ss)

-- topicMembers[t]: a member's id once for each time that it names the topic.
abbrev pub named : List ℕ → List ℕ → List (List ℕ) → List (List ℕ)
named id t [] = []
named id t (s ∷ topics) = let rest = named id t topics in if bytes_eq s t then id ∷ rest else rest

unfoldable pub topic_members : List Subscription → List ℕ → List (List ℕ)
topic_members [] t = []
topic_members (m ∷ ms) t = named m.member_id t m.topics ++ topic_members ms t

unfoldable pub assign_topic : List ℕ → List ℕ → List ℤ → List (List ℕ) → ByMember → ByMember
assign_topic protocol topic parts mids by_member =
    if bytes_eq protocol (codes "roundrobin")
    then assign_round_robin topic parts mids by_member
    else if bytes_eq protocol (codes "sticky") || bytes_eq protocol (codes "cooperative-sticky")
    then assign_sticky topic parts mids by_member
    else assign_range topic parts mids by_member

-- `order` is the order in which Go iterates over the map topicMembers, which may be any order of its
-- keys. A topic with no known partitions is skipped.
unfoldable pub assign_topics :
    List ℕ → List Subscription → (List ℕ → List ℤ) → List (List ℕ) → ByMember → ByMember
unfolding assign_topic
assign_topics protocol sorted topic_partitions [] by_member = by_member
assign_topics protocol sorted topic_partitions (topic ∷ order) by_member =
    let parts = topic_partitions topic in
    let by' =
      if length parts == 0
      then by_member
      else assign_topic protocol topic (sort_ids parts) (sort_strings (topic_members sorted topic))
          by_member in
    assign_topics protocol sorted topic_partitions order by'

-- Every member has an entry, the empty one included; no members give no map.
unfoldable pub compute_group_assignments :
    List ℕ → List Subscription → (List ℕ → List ℤ) → List (List ℕ) → List (List ℕ × Writer)
unfolding assign_topics
compute_group_assignments protocol members topic_partitions order =
    let sorted = sort_by_id members in
    let by_member = assign_topics protocol sorted topic_partitions order (λ m. []) in
    map (λ m. (m.member_id, encode_member_assignment (by_member m.member_id))) sorted
