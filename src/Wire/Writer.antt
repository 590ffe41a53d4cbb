-- ===== src/Wire/Writer.antt =====
-- The write side of `Buffer` where a write may panic: the bytes appended by one call after another.
pub mod Codes
use gokafka.Prelude.{List, [], ◌∷◌, ◌++◌, ℕ}
use gokafka.Result.{Result, ok, bind}

abbrev pub Writer : Type 0
Writer = Result (List ℕ)

-- One group of writes, then the next.
infixr 65 ◌<+>◌
abbrev pub ◌<+>◌ : Writer → Writer → Writer
v <+> w = bind v λ front. bind w λ back. ok (front ++ back)

-- `for _, x := range xs { … }`
unfoldable pub write_each {ℓ} : {A : Type ℓ} → (A → Writer) → List A → Writer
write_each w [] = ok []
write_each w (x ∷ xs) = w x <+> write_each w xs
