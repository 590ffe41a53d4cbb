-- ===== src/Wire/Reader.antt =====
-- The read side of `Buffer` in internal/wire/buffer.go: a read method takes the bytes that are not
-- read yet (B[I:]) and returns a value with what is left of them. No method looks at B[:I]. After
-- an error every caller drops the buffer, so the position that an error leaves is not kept.
use gokafka.Prelude.{ℕ, zero, suc, List, [], ◌∷◌, ltb, length, take, drop, if◌then◌else◌}
pub mod Laws
pub mod Local
use gokafka.Result.{Result, ok, err, panic, short_buffer}

abbrev pub Reader {ℓ} : Type ℓ → Type ℓ
Reader A = List ℕ → Result (A × List ℕ)

abbrev pub pure {ℓ} : {A : Type ℓ} → A → Reader A
pure a s = ok (a, s)

abbrev pub fail {ℓ} : {A : Type ℓ} → Result A → Reader A
fail (ok a) s = ok (a, s)
fail (err e) s = err e
fail panic s = panic

abbrev pub continue {ℓ κ} :
    {A : Type ℓ} {B : Type κ} → Result (A × List ℕ) → (A → Reader B) → Result (B × List ℕ)
continue (ok (a, s)) f = f a s
continue (err e) f = err e
continue panic f = panic

infixl 5 ◌>>=◌ ◌>>◌
abbrev pub ◌>>=◌ {ℓ κ} : {A : Type ℓ} {B : Type κ} → Reader A → (A → Reader B) → Reader B
◌>>=◌ m f s = continue (m s) f

abbrev pub ◌>>◌ {ℓ κ} : {A : Type ℓ} {B : Type κ} → Reader A → Reader B → Reader B
m >> n = m >>= λ _. n

-- if b.I+n > len(b.B) { return ErrShortBuffer }, then b.B[b.I:b.I+n] and b.I += n
unfoldable pub read_raw : ℕ → Reader (List ℕ)
read_raw n s = if ltb (length s) n then err short_buffer else ok (take n s, drop n s)

-- `for i := 0; i < n; i++ { x, err := read(buf); …; out = append(out, x) }`
unfoldable pub read_times {ℓ} : {A : Type ℓ} → ℕ → Reader A → Reader (List A)
read_times zero r = pure []
read_times (suc n) r = do x ← r; xs ← read_times n r; pure (x ∷ xs)
