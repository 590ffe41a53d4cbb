-- ===== src/Protocol/Assignor.antt =====
-- The partition assignors of internal/protocol/group_assign.go. The map byMember is a function from
-- member ids; a missing key is the empty list, as in Go.
pub mod Shares
pub mod Range
pub mod RoundRobin
pub mod Pick
pub mod Sticky
pub mod Compute
use gokafka.Prelude.{
  ℕ, zero, suc, ◌+◌, ◌/◌, ◌%◌, List, [], ◌∷◌, ◌++◌, length, take, drop, set, get_elem?, Bool, true,
  false, ◌&&◌, ◌||◌, ltb, ◌==◌, if◌then◌else◌, bytes_eq, bytes_lt, Option, none, some,
}
use gokafka.Prelude.Int.{ℤ, ltb_ℤ}
use gokafka.Protocol.Assignment.{TopicPartitions}

abbrev pub ByMember : Type 0
ByMember = List ℕ → List TopicPartitions

-- The loop of appendTopicParts over one member's list, with the append behind it.
unfoldable pub add_parts : List ℕ → List ℤ → List TopicPartitions → List TopicPartitions
add_parts topic parts [] = record { topic = topic; partitions = parts } ∷ []
add_parts topic parts (a ∷ rest) =
    let rest' = add_parts topic parts rest in
    if bytes_eq a.topic topic
    then record a { partitions = a.partitions ++ parts } ∷ rest
    else a ∷ rest'

unfoldable pub append_topic_parts : ByMember → List ℕ → List ℕ → List ℤ → ByMember
append_topic_parts by_member member topic parts m =
    if bytes_eq member m then add_parts topic parts (by_member m) else by_member m

-- `parts` is what the slice index idx has not reached.
unfoldable pub range_loop : List ℕ → ℕ → ℕ → ℕ → List ℤ → List (List ℕ) → ByMember → ByMember
range_loop topic per extra i parts [] by_member = by_member
range_loop topic per extra i parts (mid ∷ members) by_member =
    let count = if ltb i extra then per + 1 else per in
    let by' =
      if count == 0 then by_member else append_topic_parts by_member mid topic (take count parts) in
    range_loop topic per extra (i + 1) (drop count parts) members by'

unfoldable pub assign_range : List ℕ → List ℤ → List (List ℕ) → ByMember → ByMember
unfolding range_loop
assign_range topic parts members by_member =
    let n = length members in
    if n == 0
    then by_member
    else range_loop topic (length parts / n) (length parts % n) 0 parts members by_member

-- buckets[i] = append(buckets[i], p)
abbrev pub add_to_bucket : List (List ℤ) → ℕ → ℤ → List (List ℤ)
add_to_bucket [] i p = []
add_to_bucket (b ∷ bs) zero p = (b ++ p ∷ []) ∷ bs
add_to_bucket (b ∷ bs) (suc i) p = b ∷ add_to_bucket bs i p

unfoldable pub fill_buckets : ℕ → ℕ → List ℤ → List (List ℤ) → List (List ℤ)
fill_buckets n i [] buckets = buckets
fill_buckets n i (p ∷ parts) buckets =
    fill_buckets n (i + 1) parts (add_to_bucket buckets (i % n) p)

-- len(buckets[i]) > 0
unfoldable pub hand_out : List ℕ → List (List ℕ) → List (List ℤ) → ByMember → ByMember
hand_out topic [] buckets by_member = by_member
hand_out topic (mid ∷ members) [] by_member = by_member
hand_out topic (mid ∷ members) ([] ∷ buckets) by_member = hand_out topic members buckets by_member
hand_out topic (mid ∷ members) ((p ∷ ps) ∷ buckets) by_member =
    hand_out topic members buckets (append_topic_parts by_member mid topic (p ∷ ps))

-- make([][]int32, n)
abbrev pub empty_buckets : List (List ℕ) → List (List ℤ)
empty_buckets [] = []
empty_buckets (m ∷ members) = [] ∷ empty_buckets members

unfoldable pub assign_round_robin : List ℕ → List ℤ → List (List ℕ) → ByMember → ByMember
unfolding fill_buckets hand_out
assign_round_robin topic parts members by_member =
    let n = length members in
    if n == 0
    then by_member
    else hand_out topic members (fill_buckets n 0 parts (empty_buckets members)) by_member

unfoldable pub sticky_topic_count : List TopicPartitions → List ℕ → ℕ
sticky_topic_count [] topic = 0
sticky_topic_count (a ∷ rest) topic =
    let more = sticky_topic_count rest topic in
    if bytes_eq a.topic topic then length a.partitions else more

-- One round of the loop of stickyPickMember.
unfoldable pub pick : (List ℕ → ℕ) → List ℕ → List ℕ → List ℕ
pick counts best mid =
    if ltb (counts mid) (counts best) || ((counts mid == counts best) && bytes_lt mid best)
    then mid
    else best

-- stickyPickMember over members[1:], from members[0].
unfoldable pub pick_loop : (List ℕ → ℕ) → List ℕ → List (List ℕ) → List ℕ
unfolding pick
pick_loop counts best [] = best
pick_loop counts best (mid ∷ members) = pick_loop counts (pick counts best mid) members

-- counts[mid]++
abbrev pub bump : (List ℕ → ℕ) → List ℕ → List ℕ → ℕ
bump counts mid m = if bytes_eq mid m then counts m + 1 else counts m

-- The loop over the sorted partitions; `first` and `others` are members[0] and members[1:].
unfoldable pub sticky_loop :
    List ℕ → (List ℕ → ℕ) → List ℤ → List ℕ → List (List ℕ) → ByMember → ByMember
sticky_loop topic counts [] first others by_member = by_member
sticky_loop topic counts (p ∷ parts) first others by_member =
    let mid = pick_loop counts first others in
    sticky_loop topic (bump counts mid) parts first others
      (append_topic_parts by_member mid topic (p ∷ []))

-- sort.Slice on partition numbers.
abbrev pub insert_id : ℤ → List ℤ → List ℤ
insert_id p [] = p ∷ []
insert_id p (q ∷ qs) = let rest = insert_id p qs in if ltb_ℤ q p then q ∷ rest else p ∷ q ∷ qs

unfoldable pub sort_ids : List ℤ → List ℤ
sort_ids [] = []
sort_ids (p ∷ ps) = insert_id p (sort_ids ps)

unfoldable pub assign_sticky : List ℕ → List ℤ → List (List ℕ) → ByMember → ByMember
unfolding sticky_loop sticky_topic_count pick_loop sort_ids
assign_sticky topic parts [] by_member = by_member
assign_sticky topic parts (first ∷ others) by_member =
    sticky_loop topic (λ mid. sticky_topic_count (by_member mid) topic) (sort_ids parts) first
      others by_member
