-- ===== src/Transaction/Fresh.antt =====
-- The partitions that the loop of ensurePartitions finds not to be registered yet.
use gokafka.Produce.Laws.{key_eq_refl, key_eq→equal}
use gokafka.Produce.{key_eq}
use gokafka.Transaction.{resolved, PartKey, scan, has}
use gokafka.Prelude.{
  append_assoc, ap₂, ◌∙◌, sym, ap, subst, inr, append-nil, none, inl, if◌then◌else◌, refl, [],
  Bool-cases, ◌≡◌, ◌∷◌, ◌++◌, true, map, false, All, ◌||◌, ◌&&◌, List, Bool,
}

pub has-append : (xs ys : List PartKey) (k : PartKey) → has (xs ++ ys) k ≡ (has xs k || has ys k)
unfolding has
has-append [] ys k = refl
has-append (x ∷ xs) ys k = or_assoc (key_eq x k) (has xs k) (has ys k) (has-append xs ys k)
  where
    or_assoc : (a b c : Bool) {d : Bool} → d ≡ (b || c) → (a || d) ≡ ((a || b) || c)
    or_assoc true b c e = refl
    or_assoc false b c e = e

-- The keys that are not registered yet, each once.
unfoldable pub fresh : List PartKey → List PartKey → List PartKey
fresh registered [] = []
fresh registered (k ∷ keys) =
    let more = fresh (registered ++ k ∷ []) keys in
    let same = fresh registered keys in if has registered k then same else k ∷ more

fresh-known :
    (registered keys : List PartKey) (k : PartKey)
    → has registered k ≡ true
    → fresh registered (k ∷ keys) ≡ fresh registered keys
unfolding fresh
fresh-known registered keys k e = rw e refl

fresh-new :
    (registered keys : List PartKey) (k : PartKey)
    → has registered k ≡ false
    → fresh registered (k ∷ keys) ≡ k ∷ fresh (registered ++ k ∷ []) keys
unfolding fresh
fresh-new registered keys k e = rw e refl

pub scan-resolved :
    (registered new_keys keys : List PartKey)
    → scan registered new_keys (map resolved keys)
      ≡ (registered ++ fresh registered keys, new_keys ++ fresh registered keys, none)
unfolding scan fresh
scan-resolved registered new_keys [] = rw (append-nil registered, append-nil new_keys) refl
scan-resolved registered new_keys (k ∷ keys) = elim (Bool-cases (has registered k)) [
  | inl known ↦
      step true known
      ∙ scan-resolved registered new_keys keys
      ∙ ap (λ l. (registered ++ l, new_keys ++ l, none)) (sym (fresh-known registered keys k known))
  | inr new ↦
      let more : List PartKey = fresh (registered ++ k ∷ []) keys in
      step false new
      ∙ scan-resolved (registered ++ k ∷ []) (new_keys ++ k ∷ []) keys
      ∙ ap₂ (λ x y. (x, y, none)) (append_assoc registered (k ∷ []) more)
          (append_assoc new_keys (k ∷ []) more)
      ∙ ap (λ l. (registered ++ l, new_keys ++ l, none)) (sym (fresh-new registered keys k new))
]
  where
    step :
        (b : Bool)
        → has registered k ≡ b
        → scan registered new_keys (map resolved (k ∷ keys))
          ≡ scan
              (if b then registered else registered ++ k ∷ [])
              (if b then new_keys else new_keys ++ k ∷ [])
              (map resolved keys)
    step b e =
        ap
          (λ c.
            scan (if c then registered else registered ++ k ∷ [])
              (if c then new_keys else new_keys ++ k ∷ []) (map resolved keys))
          e

not_both : (a b c : Bool) → (a && (b || (c || false))) ≡ false → c ≡ false → ((c || a) && b) ≡ false
not_both true true c e f = cc
not_both true false c e f = and_false (c || true)
  where
    and_false : (x : Bool) → (x && false) ≡ false
    and_false true = refl
    and_false false = refl
not_both false b true e f = cc
not_both false b false e f = refl

pub fresh-disjoint :
    (registered keys : List PartKey) (k : PartKey)
    → (has (fresh registered keys) k && has registered k) ≡ false
unfolding fresh has
fresh-disjoint registered [] k = refl
fresh-disjoint registered (j ∷ keys) k = elim (Bool-cases (has registered j)) [
  | inl known ↦ rw known (fresh-disjoint registered keys k)
  | inr new ↦ elim (Bool-cases (key_eq j k)) [
    | inl same ↦ rw (new, same, ap (has registered) (sym (key_eq→equal j k same)) ∙ new) refl
    | inr other ↦ rw new (
        not_both (has (fresh (registered ++ j ∷ []) keys) k) (has registered k) (key_eq j k)
          (ap (λ b. has (fresh (registered ++ j ∷ []) keys) k && b)
              (sym (has-append registered (j ∷ []) k))
            ∙ fresh-disjoint (registered ++ j ∷ []) keys k)
          other)
  ]
]

pub or_true : (b : Bool) → (b || true) ≡ true
or_true true = refl
or_true false = refl

pub fresh-has :
    (registered keys : List PartKey)
    → All (λ k. has (registered ++ fresh registered keys) k ≡ true) keys
unfolding fresh has
fresh-has registered [] = tt
fresh-has registered (k ∷ keys) = elim (Bool-cases (has registered k)) [
  | inl known ↦
      subst (λ l. All (λ j. has (registered ++ l) j ≡ true) (k ∷ keys))
        (sym (fresh-known registered keys k known))
        (has-append registered (fresh registered keys) k ∙ rw known refl, fresh-has registered keys)
  | inr new ↦
      let more : List PartKey = fresh (registered ++ k ∷ []) keys in
      subst (λ l. All (λ j. has (registered ++ l) j ≡ true) (k ∷ keys))
        (sym (fresh-new registered keys k new))
        (
          has-append registered (k ∷ more) k ∙ rw (key_eq_refl k) (or_true (has registered k)),
          subst (λ l. All (λ j. has l j ≡ true) keys) (append_assoc registered (k ∷ []) more)
              (fresh-has (registered ++ k ∷ []) keys),
        )
]
