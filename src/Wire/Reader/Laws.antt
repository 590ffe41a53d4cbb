-- ===== src/Wire/Reader/Laws.antt =====
-- What the building blocks of the read methods do on bytes that were written for them.
use gokafka.Prelude.{ℕ, ◌≡◌, refl, ap, ◌∙◌, List, [], ◌∷◌, ◌++◌, append_assoc, arith}
use gokafka.Prelude.{length, length-append, take-length-append, drop-length-append, All}
use gokafka.Prelude.{le→ltb}
use gokafka.Result.{Error, Result, ok, err}
use gokafka.Wire.Reader.{Reader, pure, continue, ◌>>=◌, read_raw, read_times}

-- `r` reads `a` off its encoding, whatever follows.
abbrev pub Reads {ℓ} : {A : Type ℓ} → Reader A → List ℕ → A → Type ℓ
Reads r enc a = (rest : List ℕ) → r (enc ++ rest) ≡ ok (a, rest)

pub read_raw-append : (xs rest : List ℕ) → read_raw (length xs) (xs ++ rest) ≡ ok (xs, rest)
unfolding read_raw
read_raw-append xs rest = rw (
  le→ltb (length (xs ++ rest)) (length xs) (omega (arith, length-append xs rest)),
  take-length-append xs rest,
  drop-length-append xs rest,
)

module _ {ℓ κ} {A : Type ℓ} {B : Type κ} where
  pub Reads-bind :
      (r : Reader A) (f : A → Reader B) (e e' : List ℕ) (a : A) (b : B)
      → Reads r e a
      → Reads (f a) e' b
      → Reads (r >>= f) (e ++ e') b
  Reads-bind r f e e' a b h k rest =
      rw append_assoc (ap (λ m. continue m f) (h (e' ++ rest)) ∙ k rest)

-- `Reads` as a record, which shows its arguments to whoever composes it.
pub record Decodes {ℓ} {A : Type ℓ} (r : Reader A) (enc : List ℕ) (a : A) : Type ℓ where
  pub at : Reads r enc a

module _ {ℓ κ} {A : Type ℓ} {B : Type κ} where
  pub Decodes-bind :
      (r : Reader A) (f : A → Reader B) (e e' : List ℕ) (a : A) (b : B)
      → Decodes r e a
      → Decodes (f a) e' b
      → Decodes (r >>= f) (e ++ e') b
  Decodes-bind r f e e' a b h k = record { at = Reads-bind r f e e' a b h.at k.at }

  -- The last read of a chain, whose value is then put together with the values before it.
  pub Decodes-last :
      (r : Reader A) (e : List ℕ) (a : A) (g : A → B)
      → Decodes r e a
      → Decodes (r >>= λ x. pure (g x)) e (g a)
  Decodes-last r e a g h = record {
    at = λ rest. ap (λ m. continue m (λ x. pure (g x))) (h.at rest);
  }

-- `r` fails with `e` on the encoding, whatever follows.
pub record Fails {ℓ} {A : Type ℓ} (r : Reader A) (enc : List ℕ) (e : Error) : Type ℓ where
  pub at : (rest : List ℕ) → r (enc ++ rest) ≡ err e

module _ {ℓ κ} {A : Type ℓ} {B : Type κ} where
  pub Fails-first :
      (r : Reader A) (f : A → Reader B) (enc enc' : List ℕ) (e : Error)
      → Fails r enc e
      → Fails (r >>= f) (enc ++ enc') e
  Fails-first r f enc enc' e h = record {
    at = λ rest. rw append_assoc (ap (λ m. continue m f) (h.at (enc' ++ rest)));
  }

  pub Fails-then :
      (r : Reader A) (f : A → Reader B) (enc enc' : List ℕ) (a : A) (e : Error)
      → Decodes r enc a
      → Fails (f a) enc' e
      → Fails (r >>= f) (enc ++ enc') e
  Fails-then r f enc enc' a e h k = record {
    at = λ rest. rw append_assoc (ap (λ m. continue m f) (h.at (enc' ++ rest)) ∙ k.at rest);
  }

-- On the input `s` the reader gives `a` and leaves `rest`.
pub record Takes {ℓ} {A : Type ℓ} (r : Reader A) (s : List ℕ) (a : A) (rest : List ℕ) : Type ℓ where
  pub done : r s ≡ ok (a, rest)

module _ {ℓ κ} {A : Type ℓ} {B : Type κ} where
  -- One read of a chain, for an input that is written as a chain.
  pub Takes-bind :
      (r : Reader A) (f : A → Reader B) (e s : List ℕ) (a : A) (b : B) (rest : List ℕ)
      → Reads r e a
      → Takes (f a) s b rest
      → Takes (r >>= f) (e ++ s) b rest
  Takes-bind r f e s a b rest h k = record { done = ap (λ m. continue m f) (h s) ∙ k.done }

  pub Takes-then :
      (r : Reader A) (f : A → Reader B) (s t : List ℕ) (a : A) (b : B) (rest : List ℕ)
      → Takes r s a t
      → Takes (f a) t b rest
      → Takes (r >>= f) s b rest
  Takes-then r f s t a b rest h k = record { done = ap (λ m. continue m f) h.done ∙ k.done }

pub Takes-pure {ℓ} : {A : Type ℓ} (a : A) (s : List ℕ) → Takes (pure a) s a s
Takes-pure a s = record { done = refl }

module _ {ℓ} {A : Type ℓ} (r : Reader A) (w : A → List ℕ) where
  -- The encodings of the elements, one behind the other.
  abbrev pub write_all : List A → List ℕ
  write_all [] = []
  write_all (x ∷ xs) = w x ++ write_all xs

  pub read_times-write_all :
      (xs : List A)
      → All (λ x. Reads r (w x) x) xs
      → Reads (read_times (length xs) r) (write_all xs) xs
  unfolding read_times
  read_times-write_all [] h rest = refl
  read_times-write_all (x ∷ xs) h rest = rw append_assoc (
      ap (λ m. continue m (λ y. read_times (length xs) r >>= λ ys. pure (y ∷ ys)))
        (h.0 (write_all xs ++ rest))
      ∙ ap (λ m. continue m (λ ys. pure (x ∷ ys))) (read_times-write_all xs h.1 rest))

abbrev at_rest {ℓ} : {A : Type ℓ} → List ℕ → A → Result (A × List ℕ)
at_rest rest v = ok (v, rest)

-- A field of fixed size, and what its bytes stand for.
pub read_fixed {ℓ} :
    {A : Type ℓ} (decode : List ℕ → A) (bs : List ℕ) (v : A)
    → decode bs ≡ v
    → Reads (read_raw (length bs) >>= λ b. pure (decode b)) bs v
read_fixed decode bs v h rest =
    ap (λ m. continue m (λ b. pure (decode b))) (read_raw-append bs rest) ∙ ap (at_rest rest) h
