-- ===== src/Wire/Reader/Local.antt =====
-- A read method looks only at the bytes that it takes. Every read method is built by the rules
-- below.
use gokafka.Prelude.{
  ℕ, zero, suc, ◌≡◌, refl, sym, ap, ◌∙◌, subst, Bool, true, false, List, [], ◌∷◌, ◌++◌,
}
use gokafka.Prelude.{
  append_assoc, arith, length, take, drop, length-take, take-append-drop, ltb, if◌then◌else◌,
}
use gokafka.Prelude.{Bool-cases, inl, inr, ◌≤◌}
use gokafka.Result.{Result, ok, err, panic}
use gokafka.Wire.Reader.{Reader, pure, fail, continue, ◌>>=◌, read_raw, read_times}
use gokafka.Wire.Reader.Laws.{read_raw-append}

-- Where `r` succeeds, what it took is a front part `used` of the input, and on `used` followed by
-- anything else it gives the same value and leaves the other bytes.
pub record IsLocal {ℓ} {A : Type ℓ} (r : Reader A) : Type ℓ where
  pub at :
      (s s' : List ℕ) (a : A)
      → r s ≡ ok (a, s')
      → (used : List ℕ) × (s ≡ used ++ s') × ((t : List ℕ) → r (used ++ t) ≡ ok (a, t))

module _ {ℓ} {A : Type ℓ} where
  pub IsLocal-pure : (a : A) → IsLocal (pure a)
  IsLocal-pure a = record { at = λ s s' b h. ([], cc, λ t. cc) }

  pub IsLocal-fail : (m : Result A) → IsLocal (fail m)
  IsLocal-fail (ok a) = record { at = λ s s' b h. ([], cc, λ t. cc) }
  IsLocal-fail (err e) = record { at = λ s s' b h. cc }
  IsLocal-fail panic = record { at = λ s s' b h. cc }

  pub IsLocal-if :
      (b : Bool) (r q : Reader A) → IsLocal r → IsLocal q → IsLocal (λ s. (if b then r else q) s)
  IsLocal-if true r q hr hq = hr
  IsLocal-if false r q hr hq = hq

continue-eq-ok {ℓ κ} :
    {A : Type ℓ} {B : Type κ} (m : Result (A × List ℕ)) (f : A → Reader B) (b : B) (s' : List ℕ)
    → continue m f ≡ ok (b, s')
    → (a : A) × (s : List ℕ) × (m ≡ ok (a, s)) × (f a s ≡ ok (b, s'))
continue-eq-ok (ok (a, s)) f b s' h = (a, s, refl, h)
continue-eq-ok (err e) f b s' h = cc
continue-eq-ok panic f b s' h = cc

module _ {ℓ κ} {A : Type ℓ} {B : Type κ} where
  pub IsLocal-bind :
      (r : Reader A) (f : A → Reader B) → IsLocal r → ((a : A) → IsLocal (f a)) → IsLocal (r >>= f)
  IsLocal-bind r f hr hf = record {
    at = λ s s' b h.
        let (a, m, e, k) = continue-eq-ok (r s) f b s' h in
        let (u, p, pt) = hr.at s m a e in
        let (v, q, qt) = (hf a).at m s' b k in
        (
          u ++ v,
          p ∙ ap (λ t. u ++ t) q ∙ sym (append_assoc u v s'),
          λ t. rw append_assoc (ap (λ o. continue o f) (pt (v ++ t)) ∙ qt t),
        );
  }

read_raw-take :
    (n : ℕ) (s t : List ℕ) → n ≤ length s → read_raw n (take n s ++ t) ≡ ok (take n s, t)
read_raw-take n s t h =
    subst (λ k. read_raw k (take n s ++ t) ≡ ok (take n s, t)) (length-take n s h)
      (read_raw-append (take n s) t)

not_ltb→le : (m n : ℕ) → ltb m n ≡ false → n ≤ m
not_ltb→le m n h = ground arith

pub IsLocal-read_raw : (n : ℕ) → IsLocal (read_raw n)
unfolding read_raw
IsLocal-read_raw n = record {
  at = λ s s' a h. elim (Bool-cases (ltb (length s) n)) [
    | inl short ↦ cc (rw short at h)
    | inr enough ↦
        let e : ok (take n s, drop n s) ≡ ok (a, s') = rw enough at h in
        (
          take n s,
          cc (take-append-drop n s),
          λ t. cc (read_raw-take n s t (not_ltb→le (length s) n enough)),
        )
  ];
}

module _ {ℓ} {A : Type ℓ} where
  pub IsLocal-read_times : (n : ℕ) (r : Reader A) → IsLocal r → IsLocal (read_times n r)
  unfolding read_times
  IsLocal-read_times zero r h = IsLocal-pure []
  IsLocal-read_times (suc n) r h =
      IsLocal-bind r _ h
        λ x. IsLocal-bind (read_times n r) _ (IsLocal-read_times n r h) λ xs. IsLocal-pure (x ∷ xs)

pub ruleset local_rules =
    (IsLocal-pure, IsLocal-fail, IsLocal-if, IsLocal-bind, IsLocal-read_raw, IsLocal-read_times)
