-- ===== src/Protocol/Arrays/Grouping.antt =====
-- The grouping of the request encoders in internal/protocol: no item is lost, and a group holds exactly
-- the items of its key, in their order.
use mathlib.Core.Bool.{true≢false}
use gokafka.Prelude.{
  All, ◌≡◌, refl, ap, ◌∙◌, sym, Bool, true, false, if◌then◌else◌, List, [], ◌∷◌, ◌++◌, append_assoc,
  append-nil, Bool-cases, inl, inr, ◌⊎◌,
}
use gokafka.Protocol.Arrays.{add_to_group, add_all, group_by}

module _ {ℓ κ} {K : Type ℓ} {R : Type κ} (eq : K → K → Bool) (key : R → K) where
  -- The items with a key, in their order.
  abbrev pub with_key : K → List R → List R
  with_key k [] = []
  with_key k (r ∷ rs) = if eq k (key r) then r ∷ with_key k rs else with_key k rs

  -- The group of a key.
  abbrev pub group_of_key : K → List (K × List R) → List R
  group_of_key k [] = []
  group_of_key k ((k', rs) ∷ groups) = if eq k k' then rs else group_of_key k groups

  -- One item, where it belongs to the key.
  abbrev one_item : K → R → List R
  one_item k r = if eq k (key r) then r ∷ [] else []

  module _ (sound : (a b : K) → eq a b ≡ true → a ≡ b) where
    group_of_key-add :
        (k : K) (r : R) (groups : List (K × List R))
        → group_of_key k (add_to_group eq key r groups) ≡ group_of_key k groups ++ one_item k r
    unfolding add_to_group
    group_of_key-add k r [] = refl
    group_of_key-add k r ((k', rs) ∷ groups) =
        cases (Bool-cases (eq k' (key r))) (Bool-cases (eq k k')) (group_of_key-add k r groups)
      where
        cases :
            (eq k' (key r) ≡ true) ⊎ (eq k' (key r) ≡ false)
            → (eq k k' ≡ true) ⊎ (eq k k' ≡ false)
            → group_of_key k (add_to_group eq key r groups) ≡ group_of_key k groups ++ one_item k r
            → group_of_key k (add_to_group eq key r ((k', rs) ∷ groups))
              ≡ group_of_key k ((k', rs) ∷ groups) ++ one_item k r
        cases (inl here) (inl mine) ih =
            let e : eq k (key r) ≡ true = ap (eq k) (sym (sound k' (key r) here)) ∙ mine in
            rw (here, mine, e) refl
        cases (inl here) (inr other) ih =
            let e : eq k (key r) ≡ false = ap (eq k) (sym (sound k' (key r) here)) ∙ other in
            rw (here, other, e) (sym (append-nil (group_of_key k groups)))
        cases (inr there) (inl mine) ih =
            let e : eq k (key r) ≡ false = ap (λ x. eq x (key r)) (sound k k' mine) ∙ there in
            rw (there, mine, e) (sym (append-nil rs))
        cases (inr there) (inr other) ih = rw (there, other) ih

    group_of_key-add_all :
        (k : K) (rs : List R) (groups : List (K × List R))
        → group_of_key k (add_all eq key rs groups) ≡ group_of_key k groups ++ with_key k rs
    unfolding add_all
    group_of_key-add_all k [] groups = sym (append-nil (group_of_key k groups))
    group_of_key-add_all k (r ∷ rs) groups =
        group_of_key-add_all k rs (add_to_group eq key r groups)
        ∙ ap (λ l. l ++ with_key k rs) (group_of_key-add k r groups)
        ∙ append_assoc (group_of_key k groups) (one_item k r) (with_key k rs)
        ∙ ap (λ l. group_of_key k groups ++ l) (joins k r rs)
      where
        joins : (k : K) (r : R) (rs : List R) → one_item k r ++ with_key k rs ≡ with_key k (r ∷ rs)
        joins k r rs = elim (Bool-cases (eq k (key r))) [ inl e ↦ rw e refl | inr e ↦ rw e refl ]

    group_of_key-group_by :
        (k : K) (rs : List R) → group_of_key k (group_by eq key rs) ≡ with_key k rs
    unfolding group_by
    group_of_key-group_by k rs = group_of_key-add_all k rs []

    -- No group has this key.
    abbrev pub LacksKey : K → List (K × List R) → Type 0
    LacksKey k groups = All (λ g. eq k g.0 ≡ false) groups

    -- No two groups have the same key.
    abbrev pub DifferentKeys : List (K × List R) → Type 0
    DifferentKeys [] = Unit
    DifferentKeys ((k, rs) ∷ groups) = LacksKey k groups × DifferentKeys groups

    add_to_group-LacksKey :
        (k : K) (r : R) (groups : List (K × List R))
        → eq k (key r) ≡ false
        → LacksKey k groups
        → LacksKey k (add_to_group eq key r groups)
    unfolding add_to_group
    add_to_group-LacksKey k r [] h l = (h, tt)
    add_to_group-LacksKey k r ((k', rs) ∷ groups) h l =
        pick (eq k' (key r)) (add_to_group-LacksKey k r groups h l.1)
      where
        pick :
            (b : Bool)
            → LacksKey k (add_to_group eq key r groups)
            → LacksKey k (
                if b
                then (k', rs ++ (r ∷ [])) ∷ groups
                else (k', rs) ∷ add_to_group eq key r groups)
        pick true rest = l
        pick false rest = (l.0, rest)

    add_to_group-DifferentKeys :
        (r : R) (groups : List (K × List R))
        → DifferentKeys groups
        → DifferentKeys (add_to_group eq key r groups)
    unfolding add_to_group
    add_to_group-DifferentKeys r [] d = (tt, tt)
    add_to_group-DifferentKeys r ((k, rs) ∷ groups) d = elim (Bool-cases (eq k (key r))) [
      | inl same ↦ rw same d
      | inr other ↦
          rw other
            (add_to_group-LacksKey k r groups other d.0, add_to_group-DifferentKeys r groups d.1)
    ]

    add_all-DifferentKeys :
        (rs : List R) (groups : List (K × List R))
        → DifferentKeys groups
        → DifferentKeys (add_all eq key rs groups)
    unfolding add_all
    add_all-DifferentKeys [] groups d = d
    add_all-DifferentKeys (r ∷ rs) groups d =
        add_all-DifferentKeys rs (add_to_group eq key r groups)
          (add_to_group-DifferentKeys r groups d)

    -- Each group is the one that is found for its key.
    found_groups :
        (same : (k : K) → eq k k ≡ true) (groups : List (K × List R))
        → DifferentKeys groups
        → All (λ g. group_of_key g.0 groups ≡ g.1) groups
    found_groups same [] d = tt
    found_groups same ((k, rs) ∷ groups) d =
        (rw (same k) refl, later groups d.0 (found_groups same groups d.1))
      where
        later :
            (gs : List (K × List R))
            → LacksKey k gs
            → All (λ g. group_of_key g.0 groups ≡ g.1) gs
            → All (λ g. group_of_key g.0 ((k, rs) ∷ groups) ≡ g.1) gs
        later [] l h = tt
        later ((k', rs') ∷ gs) l h = elim (Bool-cases (eq k' k)) [
          | inl e ↦
              let mine : eq k k' ≡ true = ap (eq k) (sound k' k e) ∙ same k in
              absurd (true≢false (sym mine ∙ l.0))
          | inr e ↦ (rw e h.0, later gs l.1 h.1)
        ]

    -- The grouping by topic or by partition is filtering by the key: no two groups have the same key,
    -- each group holds exactly the items with its key, in the order in which they were given, and every
    -- item's key has its group. The condition is that the test of keys for equality decides it.
    pub group_by-with_key :
        (same : (k : K) → eq k k ≡ true) (rs : List R)
        → DifferentKeys (group_by eq key rs)
          × All (λ g. g.1 ≡ with_key g.0 rs) (group_by eq key rs)
          × ((k : K) → group_of_key k (group_by eq key rs) ≡ with_key k rs)
    unfolding group_by
    group_by-with_key same rs =
        let different = add_all-DifferentKeys rs [] tt in
        (
          different,
          by_key (group_by eq key rs) (found_groups same (group_by eq key rs) different),
          λ k. group_of_key-group_by k rs,
        )
      where
        by_key :
            (gs : List (K × List R))
            → All (λ g. group_of_key g.0 (group_by eq key rs) ≡ g.1) gs
            → All (λ g. g.1 ≡ with_key g.0 rs) gs
        by_key [] h = tt
        by_key (g ∷ gs) h = (sym h.0 ∙ group_of_key-group_by g.0 rs, by_key gs h.1)
