-- ===== src/Protocol/Assignor/Pick.antt =====
-- stickyPickMember picks a member with the fewest partitions.
use gokafka.Protocol.Assignor.Shares.{In}
use gokafka.Prelude.{refl, [], ◌∙◌, inr, inl, ◌⊎◌, ◌∷◌, arith, ◌≤◌, ◌≡◌, ℕ, List}
use gokafka.Protocol.Assignor.{pick_loop, pick}
use native.Mathlib.Nat.{le_trans, le_refl}

pick-le :
    (counts : List ℕ → ℕ) (best mid : List ℕ)
    → (counts (pick counts best mid) ≤ counts best) × (counts (pick counts best mid) ≤ counts mid)
unfolding pick
pick-le counts best mid = ground arith

pick-or :
    (counts : List ℕ → ℕ) (best mid : List ℕ)
    → (pick counts best mid ≡ best) ⊎ (pick counts best mid ≡ mid)
unfolding pick
pick-or counts best mid = ground arith

-- The member picked has the smallest count.
pub pick_loop-le :
    (counts : List ℕ → ℕ) (best : List ℕ) (ms : List (List ℕ)) (k : List ℕ)
    → In k (best ∷ ms)
    → counts (pick_loop counts best ms) ≤ counts k
unfolding pick_loop
pick_loop-le counts best [] k (inl e) = rw e (le_refl (counts best))
pick_loop-le counts best [] k (inr e) = absurd e
pick_loop-le counts best (mid ∷ ms) k i =
    let (a, b) = pick-le counts best mid in
    later (pick_loop-le counts (pick counts best mid) ms) i a b
  where
    later :
        ((j : List ℕ)
          → In j (pick counts best mid ∷ ms)
          → counts (pick_loop counts (pick counts best mid) ms) ≤ counts j)
        → In k (best ∷ mid ∷ ms)
        → counts (pick counts best mid) ≤ counts best
        → counts (pick counts best mid) ≤ counts mid
        → counts (pick_loop counts (pick counts best mid) ms) ≤ counts k
    later l (inl e) a b = rw e (le_trans (l (pick counts best mid) (inl refl)) a)
    later l (inr (inl e)) a b = rw e (le_trans (l (pick counts best mid) (inl refl)) b)
    later l (inr (inr e)) a b = l k (inr e)

pub pick_loop-In :
    (counts : List ℕ → ℕ) (best : List ℕ) (ms : List (List ℕ))
    → In (pick_loop counts best ms) (best ∷ ms)
unfolding pick_loop
pick_loop-In counts best [] = inl refl
pick_loop-In counts best (mid ∷ ms) =
    later (pick_loop-In counts (pick counts best mid) ms) (pick-or counts best mid)
  where
    later :
        In (pick_loop counts (pick counts best mid) ms) (pick counts best mid ∷ ms)
        → (pick counts best mid ≡ best) ⊎ (pick counts best mid ≡ mid)
        → In (pick_loop counts (pick counts best mid) ms) (best ∷ mid ∷ ms)
    later (inl e) (inl f) = inl (e ∙ f)
    later (inl e) (inr f) = inr (inl (e ∙ f))
    later (inr e) f = inr (inr e)
