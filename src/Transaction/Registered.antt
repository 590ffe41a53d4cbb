-- ===== src/Transaction/Registered.antt =====
-- The set of registered partitions is what the coordinator acknowledged, where every record's partition
-- is resolved.
use gokafka.Transaction.Fresh.{scan-resolved, or_true, fresh-disjoint, fresh-has, has-append, fresh}
use gokafka.Produce.Laws.{key_eq→equal, key_eq_refl}
use gokafka.Result.{Error}
use gokafka.Produce.{key_eq}
use gokafka.Transaction.{
  scanned, failed, ensure_partitions, add_partitions, resolved, delete_keys, PartKey, scan, has,
}
use gokafka.Prelude.{
  sym, ◌∙◌, subst, some, inr, ap, inl, Option, Bool-cases, refl, none, if◌then◌else◌, Bool, ◌||◌,
  true, not, false, [], ◌≡◌, ◌∷◌, ◌++◌, ◌&&◌, map, All, List,
}

and_false : (b : Bool) → (b && false) ≡ false
and_false true = refl
and_false false = refl

has-delete_keys :
    (keys registered : List PartKey) (k : PartKey)
    → has (delete_keys keys registered) k ≡ (has registered k && not (has keys k))
unfolding has delete_keys
has-delete_keys keys [] k = refl
has-delete_keys keys (j ∷ registered) k = elim (Bool-cases (has keys j)) [
  | inl dropped ↦ elim (Bool-cases (key_eq j k)) [
    | inl same ↦
        let gone : has keys k ≡ true = ap (has keys) (sym (key_eq→equal j k same)) ∙ dropped in
        rw dropped
          (has-delete_keys keys registered k ∙ rw (same, gone) (and_false (has registered k)))
    | inr other ↦ rw (dropped, other) (has-delete_keys keys registered k)
  ]
  | inr kept ↦ elim (Bool-cases (key_eq j k)) [
    | inl same ↦ rw (kept, same, ap (has keys) (sym (key_eq→equal j k same)) ∙ kept) refl
    | inr other ↦ rw (kept, other) (has-delete_keys keys registered k)
  ]
]

accepted :
    (answer : List PartKey → Option Error) (registered keys : List PartKey)
    → ((ks : List PartKey) → answer ks ≡ none)
    → scanned answer (registered, keys, none)
      ≡ record { registered = registered; error = none; sent = keys }
unfolding add_partitions
accepted answer registered [] h = refl
accepted answer registered (k ∷ keys) h = rw (h (k ∷ keys)) refl

and_true : (b : Bool) → (b && true) ≡ b
and_true true = refl
and_true false = refl

refused :
    (answer : List PartKey → Option Error) (e : Error) (registered keys : List PartKey)
    (k : PartKey)
    → ((ks : List PartKey) → answer ks ≡ some e)
    → has (scanned answer (registered, keys, none)).registered k
      ≡ (has registered k && not (has keys k))
unfolding add_partitions has
refused answer e registered [] k h = sym (and_true (has registered k))
refused answer e registered (j ∷ keys) k h =
    rw (h (j ∷ keys)) (has-delete_keys (j ∷ keys) registered k)

ensure-scanned :
    (registered keys : List PartKey) (answer : List PartKey → Option Error)
    → ensure_partitions false registered (map resolved keys) answer
      ≡ scanned answer (registered ++ fresh registered keys, fresh registered keys, none)
unfolding ensure_partitions
ensure-scanned registered keys answer = ap (scanned answer) (scan-resolved registered [] keys)

-- Where every record's partition is resolved and the coordinator accepts what it is sent, ensurePartitions
-- succeeds, every record's partition is registered, and the partitions registered are those
-- registered before and those in the request.
pub ensure_partitions-accepted :
    (registered keys : List PartKey) (answer : List PartKey → Option Error)
    → ((ks : List PartKey) → answer ks ≡ none)
    → ((ensure_partitions false registered (map resolved keys) answer).error ≡ none)
      × All
          (λ k.
            has (ensure_partitions false registered (map resolved keys) answer).registered k ≡ true)
          keys
      × ((k : PartKey)
          → has (ensure_partitions false registered (map resolved keys) answer).registered k ≡ (
              has registered k
              || has (ensure_partitions false registered (map resolved keys) answer).sent k))
ensure_partitions-accepted registered keys answer h =
    let e =
      ensure-scanned registered keys answer
      ∙ accepted answer (registered ++ fresh registered keys) (fresh registered keys) h in
    subst
      (λ r.
        (r.error ≡ none)
        × All (λ k. has r.registered k ≡ true) keys
        × ((k : PartKey) → has r.registered k ≡ (has registered k || has r.sent k)))
      (sym e)
      (refl, fresh-has registered keys, λ k. has-append registered (fresh registered keys) k)

take_back : (a b : Bool) → (b && a) ≡ false → ((a || b) && not b) ≡ a
take_back true true e = cc
take_back true false e = refl
take_back false true e = refl
take_back false false e = refl

-- Where every record's partition is resolved and the coordinator refuses what it is sent, ensurePartitions
-- leaves the set of registered partitions as it was.
pub ensure_partitions-refused :
    (registered keys : List PartKey) (answer : List PartKey → Option Error) (e : Error)
    → ((ks : List PartKey) → answer ks ≡ some e)
    → (k : PartKey)
    → has (ensure_partitions false registered (map resolved keys) answer).registered k
      ≡ has registered k
ensure_partitions-refused registered keys answer e h k =
    let f : List PartKey = fresh registered keys in
    ap (λ r. has r.registered k) (ensure-scanned registered keys answer)
    ∙ refused answer e (registered ++ f) f k h
    ∙ ap (λ b. b && not (has f k)) (has-append registered f k)
    ∙ take_back (has registered k) (has f k) (fresh-disjoint registered keys k)

-- Where the partition of a new record is resolved and that of the next one is not, ensurePartitions returns the
-- error without any request, and the partition of the first record is registered all the same.
pub ensure_partitions_marks_unsent :
    (registered : List PartKey) (k : PartKey) (e : Error) (answer : List PartKey → Option Error)
    → has registered k ≡ false
    → ((ensure_partitions false registered (resolved k ∷ failed e ∷ []) answer).error ≡ some e)
      × ((ensure_partitions false registered (resolved k ∷ failed e ∷ []) answer).sent ≡ [])
      × (has (ensure_partitions false registered (resolved k ∷ failed e ∷ []) answer).registered k
          ≡ true)
unfolding ensure_partitions scan has
ensure_partitions_marks_unsent registered k e answer new = (
  refl,
  refl,
  ap (λ b. has (if b then registered else registered ++ k ∷ []) k) new
      ∙ has-append registered (k ∷ []) k
      ∙ rw (key_eq_refl k) (or_true (has registered k)),
)
