-- ===== src/Protocol/Assignor/Range.antt =====
-- assignRange gives each member one run of the sorted partitions, and all of them.
use gokafka.Prelude.Int.{ℤ}
use gokafka.Prelude.{
  subst, ◌%◌, ◌/◌, length-take, ◌<◌, length-drop, zero, refl, take-append-drop, ap₂, ap, ◌∙◌, drop,
  ◌==◌, ltb, arith, suc_ne_zero, if◌then◌else◌, [], append-nil, sym, ◌-◌, take, ◌∷◌, ◌++◌, ◌*◌, suc,
  ◌≢◌, ◌≡◌, ◌+◌, length, All, ◌≤◌, ℕ, List,
}
use native.Mathlib.Nat.{mod-lt, div-add-mod', le_trans, le_of_lt}
use gokafka.Protocol.Assignor.{range_loop, assign_range, append_topic_parts, ByMember}
use gokafka.Protocol.Assignor.Shares.{
  share, Distinct, HoldsNone, all_shares, share-append_self, share-append_other,
  share-append_topic_ne, HoldsNone-append,
}

-- What one round of the loop gives.
abbrev give : ℕ → List ℤ → List ℕ → List ℕ → ByMember → ByMember
give count parts topic mid by_member =
    if count == 0 then by_member else append_topic_parts by_member mid topic (take count parts)

share-give_self :
    (count : ℕ) (parts : List ℤ) (topic mid : List ℕ) (by_member : ByMember)
    → share (give count parts topic mid by_member) mid topic
      ≡ share by_member mid topic ++ take count parts
share-give_self zero parts topic mid by_member = sym (append-nil (share by_member mid topic))
share-give_self (suc c) parts topic mid by_member =
    rw (suc_ne_zero c) (share-append_self by_member mid topic (take (suc c) parts))

share-give_other :
    (count : ℕ) (parts : List ℤ) (topic mid m t : List ℕ) (by_member : ByMember)
    → mid ≢ m
    → share (give count parts topic mid by_member) m t ≡ share by_member m t
share-give_other zero parts topic mid m t by_member h = refl
share-give_other (suc c) parts topic mid m t by_member h =
    rw (suc_ne_zero c) (share-append_other by_member mid topic m t (take (suc c) parts) h)

share-give_topic :
    (count : ℕ) (parts : List ℤ) (topic mid m t : List ℕ) (by_member : ByMember)
    → topic ≢ t
    → share (give count parts topic mid by_member) m t ≡ share by_member m t
share-give_topic zero parts topic mid m t by_member h = refl
share-give_topic (suc c) parts topic mid m t by_member h =
    rw (suc_ne_zero c) (share-append_topic_ne by_member mid topic m t (take (suc c) parts) h)

HoldsNone-give :
    (count : ℕ) (parts : List ℤ) (topic mid : List ℕ) (by_member : ByMember) (ms : List (List ℕ))
    → All (λ k. mid ≢ k) ms
    → HoldsNone by_member topic ms
    → HoldsNone (give count parts topic mid by_member) topic ms
HoldsNone-give zero parts topic mid by_member ms d h = h
HoldsNone-give (suc c) parts topic mid by_member ms d h =
    rw (suc_ne_zero c) (HoldsNone-append by_member mid topic (take (suc c) parts) ms d h)

count_left :
    (i per extra k len : ℕ)
    → len ≡ per * suc k + (extra - i)
    → len - (if ltb i extra then per + 1 else per) ≡ per * k + (extra - (i + 1))
count_left i per extra k len e = ground arith

count_fits :
    (i per extra k len : ℕ)
    → len ≡ per * suc k + (extra - i)
    → (if ltb i extra then per + 1 else per) ≤ len
count_fits i per extra k len e = ground arith

fair_count :
    (mine : List ℤ) (i per extra : ℕ)
    → length mine ≡ (if ltb i extra then per + 1 else per)
    → (per ≤ length mine) × (length mine ≤ per + 1)
fair_count mine i per extra e = ground arith

module _ (topic : List ℕ) (per extra : ℕ) where
  range_loop-other :
      (i : ℕ) (parts : List ℤ) (ms : List (List ℕ)) (by_member : ByMember) (m t : List ℕ)
      → All (λ k. m ≢ k) ms
      → share (range_loop topic per extra i parts ms by_member) m t ≡ share by_member m t
  unfolding range_loop
  range_loop-other i parts [] by_member m t d = refl
  range_loop-other i parts (mid ∷ ms) by_member m t d =
      let count : ℕ = if ltb i extra then per + 1 else per in
      range_loop-other (i + 1) (drop count parts) ms (give count parts topic mid by_member) m t d.1
      ∙ share-give_other count parts topic mid m t by_member (λ e. d.0 (sym e))

  -- per or per + 1 partitions.
  abbrev IsFair : ByMember → List ℕ → Type 0
  IsFair by_member m =
      (per ≤ length (share by_member m topic)) × (length (share by_member m topic) ≤ per + 1)

  range_loop-covers :
      (i : ℕ) (parts : List ℤ) (ms : List (List ℕ)) (by_member : ByMember)
      → Distinct ms
      → HoldsNone by_member topic ms
      → extra ≤ i + length ms
      → length parts ≡ per * length ms + (extra - i)
      → (all_shares (range_loop topic per extra i parts ms by_member) topic ms ≡ parts)
        × All (IsFair (range_loop topic per extra i parts ms by_member)) ms
  unfolding range_loop
  range_loop-covers i [] [] by_member d h le len = (refl, tt)
  range_loop-covers i (p ∷ ps) [] by_member d h le len = absurd (omega arith)
  range_loop-covers i parts (mid ∷ ms) by_member d h le len =
      let count : ℕ = if ltb i extra then per + 1 else per in
      let by' : ByMember = give count parts topic mid by_member in
      let final : ByMember = range_loop topic per extra (i + 1) (drop count parts) ms by' in
      let (cover, fair) =
        range_loop-covers (i + 1) (drop count parts) ms by' d.1
          (HoldsNone-give count parts topic mid by_member ms d.0 h.1) (omega arith)
          (length-drop count parts ∙ count_left i per extra (length ms) (length parts) len) in
      let mine : share final mid topic ≡ take count parts =
        range_loop-other (i + 1) (drop count parts) ms by' mid topic d.0
        ∙ share-give_self count parts topic mid by_member
        ∙ ap (λ l. l ++ take count parts) h.0 in
      (
        ap₂ ◌++◌ mine cover ∙ take-append-drop count parts,
        (
          fair_count (share final mid topic) i per extra (
              ap length mine
              ∙ length-take count parts (count_fits i per extra (length ms) (length parts) len)),
          fair,
        ),
      )

  range_loop-topic :
      (i : ℕ) (parts : List ℤ) (ms : List (List ℕ)) (by_member : ByMember) (m t : List ℕ)
      → topic ≢ t
      → share (range_loop topic per extra i parts ms by_member) m t ≡ share by_member m t
  unfolding range_loop
  range_loop-topic i parts [] by_member m t d = refl
  range_loop-topic i parts (mid ∷ ms) by_member m t d =
      let count : ℕ = if ltb i extra then per + 1 else per in
      range_loop-topic (i + 1) (drop count parts) ms (give count parts topic mid by_member) m t d
      ∙ share-give_topic count parts topic mid m t by_member d

-- What `after` is, when a topic's partitions are shared out evenly in runs: the shares of the members
-- one behind the other are the list of the partitions, each share has the quotient's size or one
-- more, and nothing else changes.
pub record IsEvenSplit (topic : List ℕ) (parts : List ℤ) (ms : List (List ℕ))
    (before after : ByMember) : Type 0 where
  pub covers : all_shares after topic ms ≡ parts
  pub fair :
      All
        (λ m.
          (length parts / length ms ≤ length (share after m topic))
          × (length (share after m topic) ≤ length parts / length ms + 1))
        ms
  pub other_topics : (m t : List ℕ) → topic ≢ t → share after m t ≡ share before m t
  pub other_members : (m t : List ℕ) → All (λ k. m ≢ k) ms → share after m t ≡ share before m t

assign_range-loop :
    (topic : List ℕ) (parts : List ℤ) (m : List ℕ) (ms : List (List ℕ)) (by_member : ByMember)
    → assign_range topic parts (m ∷ ms) by_member
      ≡ range_loop topic
          (length parts / length (m ∷ ms))
          (length parts % length (m ∷ ms))
          0
          parts
          (m ∷ ms)
          by_member
unfolding assign_range
assign_range-loop topic parts m ms by_member = rw (suc_ne_zero (length ms))

rest_fits : (len n : ℕ) → len % suc n ≤ 0 + suc n
rest_fits len n = le_trans (le_of_lt (mod-lt len {m = suc n} (omega arith))) (omega arith)

split_length : (len n : ℕ) → len ≡ len / suc n * suc n + (len % suc n - 0)
split_length len n = omega (arith, div-add-mod' len (suc n))

-- On different members that hold nothing of the topic, assignRange hands out the partitions in
-- order, each to exactly one member, with shares that differ by at most one; what members hold of
-- other topics stays, and so does what everybody else holds.
pub assign_range-IsEvenSplit :
    (topic : List ℕ) (parts : List ℤ) (ms : List (List ℕ)) (by_member : ByMember)
    → 0 < length ms
    → Distinct ms
    → HoldsNone by_member topic ms
    → IsEvenSplit topic parts ms by_member (assign_range topic parts ms by_member)
assign_range-IsEvenSplit topic parts [] by_member pos d h = absurd (omega arith)
assign_range-IsEvenSplit topic parts (m₀ ∷ rest) by_member pos d h =
    let ms : List (List ℕ) = m₀ ∷ rest in
    let per : ℕ = length parts / length ms in
    let extra : ℕ = length parts % length ms in
    let (cover, fair) =
      range_loop-covers topic per extra 0 parts ms by_member d h
        (rest_fits (length parts) (length rest)) (split_length (length parts) (length rest)) in
    subst (IsEvenSplit topic parts ms by_member)
      (sym (assign_range-loop topic parts m₀ rest by_member))
      (record {
        covers = cover;
        fair = fair;
        other_topics = λ m t ne. range_loop-topic topic per extra 0 parts ms by_member m t ne;
        other_members = λ m t ne. range_loop-other topic per extra 0 parts ms by_member m t ne;
      })
