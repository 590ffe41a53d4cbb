-- ===== src/Protocol/Records/Parse/Rounds.antt =====
-- The rounds of parseRecords: what one round does, and that the bytes left bound their number.
use gokafka.Prelude.{
  ℕ, zero, suc, ◌≤◌, ◌<◌, ◌≡◌, refl, ap, List, [], ◌∷◌, ◌++◌, length, drop, length-append,
  drop-length-append, length-drop, ltb, le→ltb, arith, some, Bool-cases, inl, inr,
}
use gokafka.Prelude.Int.{ℤ, pos, negsuc}
use gokafka.Protocol.Records.Parse.{
  FetchedRecord, BatchContext, read_record, parse_sized, parse_rounds,
}
use gokafka.Result.{Result, ok, err, panic, bind}
use gokafka.Wire.Reader.Laws.{Decodes}
use gokafka.Wire.Locality.{IsLocal-read_varint}
use gokafka.Wire.Varint.{read_varint, read_uvarint, read_uvarint_loop}

pub parse_rounds_step :
    (f : ℕ) (c : BatchContext) (s r : List ℕ) (v : ℤ)
    → read_varint s ≡ ok (v, r)
    → parse_rounds (suc f) c s ≡ parse_sized c (parse_rounds f c) v r
unfolding parse_rounds read_varint read_uvarint read_uvarint_loop
parse_rounds_step f c [] r v h = cc
parse_rounds_step f c (b ∷ s) r v h =
    ap (λ m. bind m λ x. parse_sized c (parse_rounds f c) x.0 x.1) h

pub parse_sized_record :
    (c : BatchContext) (next : List ℕ → Result (List FetchedRecord)) (body rest : List ℕ)
    (r : FetchedRecord)
    → 0 < length body
    → Decodes (read_record c) body (some r)
    → parse_sized c next (pos (length body)) (body ++ rest) ≡ bind (next rest) λ out. ok (r ∷ out)
unfolding parse_sized
parse_sized_record c next [] rest r h d = absurd (omega arith)
parse_sized_record c next (b ∷ body) rest r h d = rw (
  le→ltb (length ((b ∷ body) ++ rest)) (length (b ∷ body))
      (omega (arith, length-append (b ∷ body) rest)),
  d.at rest,
  drop-length-append (b ∷ body) rest,
)

varint-length : (s r : List ℕ) (v : ℤ) → read_varint s ≡ ok (v, r) → length r ≤ length s
varint-length s r v h =
    let (used, e, _) = IsLocal-read_varint.at s r v h in
    omega (arith, ap length e, length-append used r)

parse_sized_next :
    (c : BatchContext) (p q : List ℕ → Result (List FetchedRecord)) (v : ℤ) (s : List ℕ)
    → ((t : List ℕ) → length t < length s → p t ≡ q t)
    → parse_sized c p v s ≡ parse_sized c q v s
unfolding parse_sized
parse_sized_next c p q (negsuc n) s h = refl
parse_sized_next c p q (pos zero) s h = refl
parse_sized_next c p q (pos (suc n)) s h = elim (Bool-cases (ltb (length s) (suc n))) [
  | inl short ↦ rw short refl
  | inr long ↦ rw (h (drop (suc n) s) (ground (arith, length-drop (suc n) s))) refl
]

-- The loop of parseRecords ends within as many rounds as there are bytes: with at least that many
-- rounds allowed, the result of parse_rounds, which then stands for the unbounded loop, does not
-- depend on how many are.
pub parse_rounds_enough :
    (f g : ℕ) (c : BatchContext) (s : List ℕ)
    → length s ≤ f
    → length s ≤ g
    → parse_rounds f c s ≡ parse_rounds g c s
unfolding parse_rounds
parse_rounds_enough zero zero c s hf hg = refl
parse_rounds_enough zero (suc g) c [] hf hg = refl
parse_rounds_enough zero (suc g) c (b ∷ s) hf hg = absurd (omega arith)
parse_rounds_enough (suc f) zero c [] hf hg = refl
parse_rounds_enough (suc f) zero c (b ∷ s) hf hg = absurd (omega arith)
parse_rounds_enough (suc f) (suc g) c [] hf hg = refl
parse_rounds_enough (suc f) (suc g) c (b ∷ s) hf hg = round (read_varint (b ∷ s)) (λ v r e.
    parse_sized_next c (parse_rounds f c) (parse_rounds g c) v r λ t lt.
      parse_rounds_enough f g c t (omega (arith, varint-length (b ∷ s) r v e))
        (omega (arith, varint-length (b ∷ s) r v e)))
  where
    round :
        (m : Result (ℤ × List ℕ))
        → ((v : ℤ) (r : List ℕ)
            → m ≡ ok (v, r)
            → parse_sized c (parse_rounds f c) v r ≡ parse_sized c (parse_rounds g c) v r)
        → (bind m λ x. parse_sized c (parse_rounds f c) x.0 x.1)
          ≡ (bind m λ x. parse_sized c (parse_rounds g c) x.0 x.1)
    round (ok (v, r)) k = k v r refl
    round (err e) k = refl
    round panic k = refl
