-- ===== src/Retry/Once.antt =====
-- An acknowledged record is not sent again, and its result stays.
use gokafka.Result.{bind, ok-injective, ok}
use gokafka.Retry.{
  orig_indices, acknowledge, ProduceRecordResult, pending_records, merge_acked, attempts, Progress,
}
use gokafka.Prelude.{
  ◌≤◌, ◌<◌, refl, if◌then◌else◌, inr, false, ap, zero, inl, ◌==◌, [], length, arith, suc,
  Bool-cases, ◌∷◌, ◌∙◌, ◌+◌, subst, true, some, set, ◌≡◌, get_elem?, All, ◌≢◌, Bool, ℕ, List,
}

module _ {ℓ} {A : Type ℓ} where
  get_elem?-set_other :
      (l : List A) (i j : ℕ) (v : A) → i ≢ j → get_elem? (set l i v) j ≡ get_elem? l j
  get_elem?-set_other [] i j v h = refl
  get_elem?-set_other (x ∷ l) zero zero v h = absurd (h refl)
  get_elem?-set_other (x ∷ l) zero (suc j) v h = refl
  get_elem?-set_other (x ∷ l) (suc i) zero v h = refl
  get_elem?-set_other (x ∷ l) (suc i) (suc j) v h = get_elem?-set_other l i j v (λ e. h (ap suc e))

-- Record j is acknowledged, with the result r.
pub record IsAcked (p : Progress) (j : ℕ) (r : ProduceRecordResult) : Type 0 where
  pub acked : get_elem? p.acked j ≡ some true
  pub result : get_elem? p.results j ≡ some r

IsAcked-acknowledge :
    (p : Progress) (i j : ℕ) (r v : ProduceRecordResult)
    → i ≢ j
    → IsAcked p j r
    → IsAcked (acknowledge p i v) j r
IsAcked-acknowledge p i j r v ne h = record {
  acked = get_elem?-set_other p.acked i j true ne ∙ h.acked;
  result = get_elem?-set_other p.results i j v ne ∙ h.result;
}

merge_acked-returns :
    (p : Progress) (orig_idx : List ℕ) (res : List ProduceRecordResult)
    → length res ≤ length orig_idx
    → (q : Progress) × (merge_acked p orig_idx res ≡ ok q)
unfolding merge_acked
merge_acked-returns p orig_idx [] h = (p, refl)
merge_acked-returns p [] (v ∷ res) h = absurd (omega arith)
merge_acked-returns p (i ∷ orig_idx) (v ∷ res) h =
    merge_acked-returns (if length v.topic == 0 then p else acknowledge p i v) orig_idx res
      (omega arith)

merge_acked-keeps :
    (p q : Progress) (orig_idx : List ℕ) (res : List ProduceRecordResult) (j : ℕ)
    (r : ProduceRecordResult)
    → All (λ i. i ≢ j) orig_idx
    → IsAcked p j r
    → merge_acked p orig_idx res ≡ ok q
    → IsAcked q j r
unfolding merge_acked
merge_acked-keeps p q orig_idx [] j r ne h e = subst (λ s. IsAcked s j r) (ok-injective e) h
merge_acked-keeps p q [] (v ∷ res) j r ne h e = elim (Bool-cases (length v.topic == 0)) [
  | inl skip ↦ merge_acked-keeps p q [] res j r ne h (rw skip at e)
  | inr committed ↦ cc (rw committed at e)
]
merge_acked-keeps p q (i ∷ orig_idx) (v ∷ res) j r ne h e =
    merge_acked-keeps (if length v.topic == 0 then p else acknowledge p i v) q orig_idx res j r ne.1
      (kept (length v.topic == 0)) e
  where
    kept : (b : Bool) → IsAcked (if b then p else acknowledge p i v) j r
    kept true = h
    kept false = IsAcked-acknowledge p i j r v ne.0 h

module _ {ℓ} {R : Type ℓ} where
  pending-later :
      (i m : ℕ) (records : List R) (acked : List Bool)
      → m < i
      → All (λ k. k ≢ m) (orig_indices (pending_records i records acked))
  unfolding pending_records
  pending-later i m [] acked h = tt
  pending-later i m (r ∷ records) [] h = tt
  pending-later i m (r ∷ records) (true ∷ acked) h =
      pending-later (i + 1) m records acked (omega arith)
  pending-later i m (r ∷ records) (false ∷ acked) h =
      (λ e. omega (arith, e), pending-later (i + 1) m records acked (omega arith))

  pending-others :
      (i j m : ℕ) (records : List R) (acked : List Bool)
      → m ≡ i + j
      → get_elem? acked j ≡ some true
      → All (λ k. k ≢ m) (orig_indices (pending_records i records acked))
  unfolding pending_records
  pending-others i j m [] acked s h = tt
  pending-others i j m (r ∷ records) [] s h = tt
  pending-others i zero m (r ∷ records) (true ∷ acked) s h =
      pending-later (i + 1) m records acked (omega (arith, s))
  pending-others i zero m (r ∷ records) (false ∷ acked) s h = cc
  pending-others i (suc j) m (r ∷ records) (true ∷ acked) s h =
      pending-others (i + 1) j m records acked (omega (arith, s)) h
  pending-others i (suc j) m (r ∷ records) (false ∷ acked) s h =
      (λ e. omega (arith, e, s), pending-others (i + 1) j m records acked (omega (arith, s)) h)

  length-orig_indices : (pending : List (R × ℕ)) → length (orig_indices pending) ≡ length pending
  length-orig_indices [] = refl
  length-orig_indices (x ∷ pending) = ap suc (length-orig_indices pending)

  -- A send answers at most the records that it was sent.
  abbrev pub IsBounded : (List (R × ℕ) → List ProduceRecordResult) → Type ℓ
  IsBounded send = (pending : List (R × ℕ)) → length (send pending) ≤ length pending

  -- Where record j is acknowledged with a result, and every send answers at most the records that it was sent,
  -- the next attempt does not send record j again, any further attempts return without a panic, and
  -- the record is then acknowledged with the same result, whatever the broker answered.
  pub attempts_send_once :
      (records : List R) (p : Progress) (sends : List (List (R × ℕ) → List ProduceRecordResult))
      (j : ℕ) (r : ProduceRecordResult)
      → IsAcked p j r
      → All IsBounded sends
      → All (λ i. i ≢ j) (orig_indices (pending_records 0 records p.acked))
        × ((q : Progress) × (attempts records p sends ≡ ok q) × IsAcked q j r)
  unfolding attempts
  attempts_send_once records p [] j r h b =
      (pending-others 0 j j records p.acked (omega arith) h.acked, (p, refl, h))
  attempts_send_once records p (send ∷ sends) j r h b =
      let pending : List (R × ℕ) = pending_records 0 records p.acked in
      let others = pending-others 0 j j records p.acked (omega arith) h.acked in
      let (s, e) =
        merge_acked-returns p (orig_indices pending) (send pending)
          (omega (arith, b.0 pending, length-orig_indices pending)) in
      let kept = merge_acked-keeps p s (orig_indices pending) (send pending) j r others h e in
      let (_, (q, f, k)) = attempts_send_once records s sends j r kept b.1 in
      (others, (q, ap (λ m. bind m λ s. attempts records s sends) e ∙ f, k))
