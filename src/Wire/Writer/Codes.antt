-- ===== src/Wire/Writer/Codes.antt =====
-- A writer and a reader that agree, with a rule for each way to build the two.
use gokafka.Prelude.{ℕ, ◌≡◌, refl, ap, ◌∙◌, List, [], ◌∷◌, ◌++◌, append-nil, length, All, ◌≤◌, sym}
use gokafka.Result.{Result, ok, bind}
use gokafka.Wire.Reader.{Reader, pure, continue, ◌>>=◌, read_times}
use gokafka.Wire.Reader.Laws.{Reads, Reads-bind}
use gokafka.Wire.Strings.{read_string, write_string}
use gokafka.Wire.Strings.RoundTrip.{read_string-write_string}
use gokafka.Wire.Writer.{Writer, ◌<+>◌, write_each}

-- The writes succeed, and `r` reads `a` off the bytes, whatever follows them.
pub record Codes {ℓ} {A : Type ℓ} (r : Reader A) (w : Writer) (a : A) : Type ℓ where
  pub bytes : List ℕ
  pub written : w ≡ ok bytes
  pub reads : Reads r bytes a

module _ {ℓ} {A : Type ℓ} where
  pub Codes-pure : (a : A) → Codes (pure a) (ok []) a
  Codes-pure a = record { bytes = []; written = refl; reads = λ rest. refl }

  pub Codes-emit : (r : Reader A) (enc : List ℕ) (a : A) → Reads r enc a → Codes r (ok enc) a
  Codes-emit r enc a h = record { bytes = enc; written = refl; reads = h }

pub Codes-string : (s : List ℕ) → length s ≤ 32767 → Codes read_string (write_string s) s
Codes-string s h =
    let (enc, w, r) = read_string-write_string s h in record { bytes = enc; written = w; reads = r }

module _ {ℓ κ} {A : Type ℓ} {B : Type κ} where
  pub Codes-bind :
      (r : Reader A) (f : A → Reader B) (v w : Writer) (a : A) (b : B)
      → Codes r v a
      → Codes (f a) w b
      → Codes (r >>= f) (v <+> w) b
  Codes-bind r f v w a b h k = record {
    bytes = h.bytes ++ k.bytes;
    written = rw (h.written, k.written);
    reads = Reads-bind r f h.bytes k.bytes a b h.reads k.reads;
  }

  -- The last read of a block, and what the block returns.
  pub Codes-last :
      (r : Reader A) (g : A → B) (w : Writer) (a : A)
      → Codes r w a
      → Codes (r >>= λ x. pure (g x)) w (g a)
  Codes-last r g w a h = record {
    bytes = h.bytes;
    written = h.written;
    reads = λ rest. ap (λ m. continue m (λ x. pure (g x))) (h.reads rest);
  }

module _ {ℓ} {A : Type ℓ} (r : Reader A) (w : A → Writer) where
  pub Codes-each :
      (xs : List A)
      → All (λ x. Codes r (w x) x) xs
      → Codes (read_times (length xs) r) (write_each w xs) xs
  unfolding read_times write_each
  Codes-each [] h = Codes-pure []
  Codes-each (x ∷ xs) h = Codes-bind r _ (w x) (write_each w xs) x (x ∷ xs) h.0 (
      Codes-last (read_times (length xs) r) (λ ys. x ∷ ys) (write_each w xs) xs (Codes-each xs h.1))

-- The reader of a whole message, which drops what is left.
abbrev pub run {ℓ} : {A : Type ℓ} → Reader A → List ℕ → Result A
run r s = bind (r s) λ (a, rest). ok a

pub run-Codes {ℓ} :
    {A : Type ℓ} (r : Reader A) (w : Writer) (a : A)
    → Codes r w a
    → (enc : List ℕ) × (w ≡ ok enc) × (run r enc ≡ ok a)
run-Codes r w a h = (
  h.bytes,
  h.written,
  ap (λ s. run r s) (let e : h.bytes ≡ h.bytes ++ [] = sym (append-nil h.bytes) in e)
      ∙ ap (λ m. bind m λ (x, rest). ok x) (h.reads []),
)
