-- ===== src/Examples/Assignors.antt =====
-- The assignors on two members and one topic.
use gokafka.Protocol.Assignor.Compute.Cover.{assign_topics-covers, subscribers, IsSubscribed}
use gokafka.Prelude.Int.{pos, ℤ}
use mathlib.Core.List.{Perm}
use gokafka.Protocol.Assignor.Sticky.{assign_sticky-IsBalancedSplit, IsBalancedSplit}
use gokafka.Protocol.Assignor.Shares.{all_shares, share, In, HoldsNone, parts_of, Distinct}
use gokafka.Protocol.Assignor.RoundRobin.{assign_round_robin-IsDeal, IsDeal}
use gokafka.Protocol.Assignor.Range.{assign_range-IsEvenSplit, IsEvenSplit}
use gokafka.Protocol.Assignor.Compute.{assign_topics, sort_strings, Subscription, topic_members}
use gokafka.Protocol.Assignor.{assign_sticky, assign_round_robin, assign_range, ByMember}
use gokafka.Prelude.{
  inl, bytes_lt, bytes_eq_iff, bytes_eq, ◌+◌, refl, ◌≤◌, ◌≡◌, length, arith, ◌∷◌, ◌≢◌, ℕ, [], codes,
  List,
}

abbrev two : List (List ℕ)
two = codes "a" ∷ codes "b" ∷ []

abbrev five : List ℤ
five = pos 0 ∷ pos 1 ∷ pos 2 ∷ pos 3 ∷ pos 4 ∷ []

abbrev nothing : ByMember
nothing m = []

differ : codes "a" ≢ codes "b"
unfolding bytes_eq
differ e = cc ((bytes_eq_iff (codes "a") (codes "b")).1 e)

two-Distinct : Distinct two
two-Distinct = ((differ, tt), (tt, tt))

two-HoldsNone : HoldsNone nothing (codes "t") two
unfolding parts_of
two-HoldsNone = (refl, (refl, tt))

assign_range-IsEvenSplit_example :
    IsEvenSplit (codes "t") five two nothing (assign_range (codes "t") five two nothing)
assign_range-IsEvenSplit_example =
    assign_range-IsEvenSplit (codes "t") five two nothing (omega arith) two-Distinct two-HoldsNone

assign_round_robin-IsDeal_example :
    IsDeal (codes "t") five two nothing (assign_round_robin (codes "t") five two nothing)
assign_round_robin-IsDeal_example =
    assign_round_robin-IsDeal (codes "t") five two nothing (omega arith) two-Distinct two-HoldsNone

nothing_balanced :
    (m k : List ℕ)
    → In m two
    → In k two
    → length (share nothing m (codes "t")) ≤ length (share nothing k (codes "t")) + 1
unfolding parts_of
nothing_balanced m k i j = omega arith

assign_sticky-IsBalancedSplit_example :
    IsBalancedSplit (codes "t") five two nothing (assign_sticky (codes "t") five two nothing)
assign_sticky-IsBalancedSplit_example =
    assign_sticky-IsBalancedSplit (codes "t") five two nothing (omega arith) two-Distinct
      nothing_balanced

abbrev members : List Subscription
members =
    record { member_id = codes "a"; topics = codes "t" ∷ [] }
    ∷ record { member_id = codes "b"; topics = codes "t" ∷ [] }
    ∷ []

abbrev partitions_of : List ℕ → List ℤ
partitions_of t = five

subscribed : IsSubscribed (codes "sticky") members partitions_of (codes "t" ∷ [])
unfolding topic_members sort_strings bytes_eq bytes_lt
subscribed = ((omega arith, two-Distinct), tt)

holds_nothing : (k u : List ℕ) → In u (codes "t" ∷ []) → share nothing k u ≡ []
unfolding parts_of
holds_nothing k u i = refl

assign_topics-covers_example :
    Perm
      (all_shares
        (assign_topics (codes "sticky") members partitions_of (codes "t" ∷ []) nothing)
        (codes "t")
        (subscribers (codes "sticky") members partitions_of (codes "t")))
      (partitions_of (codes "t"))
assign_topics-covers_example =
    assign_topics-covers (codes "sticky") members partitions_of (codes "t" ∷ []) nothing (codes "t")
      subscribed (tt, tt) holds_nothing (inl refl)
