-- ===== src/Wire/Varint/RoundTrip.antt =====
-- Variable-length integers: exactly the values below 2 ^ 29 are read back.
use gokafka.Prelude.{
  ℕ, zero, suc, ◌+◌, ◌*◌, ◌/◌, ◌%◌, ◌^◌, ◌≤◌, ◌<◌, ◌≡◌, refl, ap, ◌∙◌, Bool, true, false, List, [],
  ◌∷◌, ◌++◌, arith,
}
use gokafka.Prelude.{ltb, ◌==◌, if◌then◌else◌, bit_and, ◌&&◌, inl, inr, Bool-cases, ltb→lt, lt→ltb}
use gokafka.Prelude.Bits.{bit_or_disjoint, bit_and_low_seven, bit_or_continue}
use gokafka.Prelude.Int.{ℤ, pos, negsuc, IsSigned}
use gokafka.Result.{Result, ok, err, uvarint_overflow}
use gokafka.Wire.Reader.{continue, pure}
use gokafka.Wire.Varint.{
  read_uvarint_loop, read_uvarint, unzigzag, read_varint, write_uvarint_loop, write_uvarint, zigzag,
  write_varint,
}
use native.Mathlib.Nat.{pow-suc, one-le-pow, div-add-mod}
use native.Mathlib.Numerals.{towards_suc}

-- One more round of fuel changes nothing once the value fits the rounds at hand.
pub write_uvarint_loop_fuel :
    (f x : ℕ) → x < 128 ^ suc f → write_uvarint_loop (suc f) x ≡ write_uvarint_loop f x
unfolding write_uvarint_loop
write_uvarint_loop_fuel zero x h = ground arith
write_uvarint_loop_fuel (suc f) x h =
    ground (arith, pow-suc 128 (suc f), write_uvarint_loop_fuel f (x / 128))

pub write_last : (f w : ℕ) → w < 128 → write_uvarint_loop f w ≡ w ∷ []
unfolding write_uvarint_loop
write_last zero w h = ground arith
write_last (suc f) w h = ground arith

pub write_inner :
    (f w : ℕ)
    → 128 ≤ w
    → write_uvarint_loop (suc f) w ≡ (w % 128 + 128) ∷ write_uvarint_loop f (w / 128)
unfolding write_uvarint_loop
write_inner f w h = ground (arith, bit_or_continue (w % 256))

read_last :
    (left x s w : ℕ) (rest : List ℕ)
    → w < 128
    → x < 2 ^ s
    → (left == 0) && ltb 1 w ≡ false
    → read_uvarint_loop (suc left) x s (w ∷ rest) ≡ ok (x + w * 2 ^ s, rest)
unfolding read_uvarint_loop
read_last left x s w rest h hx e = ground (arith, bit_or_disjoint s x w)

pub low_group : (w : ℕ) → bit_and (w % 128 + 128) 0x7f ≡ w % 128
low_group w = bit_and_low_seven (w % 128 + 128) (omega arith) ∙ omega arith

read_inner :
    (left x s w : ℕ) (rest : List ℕ)
    → x < 2 ^ s
    → read_uvarint_loop (suc left) x s ((w % 128 + 128) ∷ rest)
      ≡ read_uvarint_loop left (x + w % 128 * 2 ^ s) (s + 7) rest
unfolding read_uvarint_loop
read_inner left x s w rest hx = ground (arith, low_group w, bit_or_disjoint s x (w % 128))

shift_seven : (s : ℕ) → 2 ^ (s + 7) ≡ 128 * 2 ^ s
shift_seven s = simp towards_suc (omega arith)

pub group_fits : (x s w : ℕ) → x < 2 ^ s → x + w % 128 * 2 ^ s < 2 ^ (s + 7)
group_fits x s w h = grind (arith, shift_seven s)

pub split_group : (x s w : ℕ) → x + w % 128 * 2 ^ s + w / 128 * 2 ^ (s + 7) ≡ x + w * 2 ^ s
split_group x s w =
    let high = ap (λ (power : ℕ). w / 128 * power) (shift_seven s) in
    let low = ap (λ (group : ℕ). group * 2 ^ s) (div-add-mod w 128) in omega (arith, high, low)

pub read_uvarint_loop-write :
    (k f x s w : ℕ) (rest : List ℕ)
    → k ≤ f
    → w < 2 * 128 ^ k
    → x < 2 ^ s
    → read_uvarint_loop (suc k) x s (write_uvarint_loop f w ++ rest) ≡ ok (x + w * 2 ^ s, rest)
read_uvarint_loop-write zero f x s w rest hk hw hx =
    rw (write_last f w (omega arith)) (read_last 0 x s w rest (omega arith) hx (ground arith))
read_uvarint_loop-write (suc k) zero x s w rest hk hw hx = absurd (omega arith)
read_uvarint_loop-write (suc k) (suc f) x s w rest hk hw hx = elim (Bool-cases (ltb w 128)) [
  | inl last ↦
      rw (write_last (suc f) w (ltb→lt w 128 last))
        (read_last (suc k) x s w rest (ltb→lt w 128 last) hx (ground arith))
  | inr more ↦ rw (write_inner f w (ground arith)) (
      read_inner (suc k) x s w (write_uvarint_loop f (w / 128) ++ rest) hx
      ∙ read_uvarint_loop-write k f (x + w % 128 * 2 ^ s) (s + 7) (w / 128) rest (omega arith)
          (omega (arith, pow-suc 128 k)) (group_fits x s w hx)
      ∙ ap (λ n. ok (n, rest)) (split_group x s w))
]

read_overflows :
    (x s w : ℕ) (rest : List ℕ)
    → 2 ≤ w
    → w < 128
    → read_uvarint_loop 1 x s (w ∷ rest) ≡ err uvarint_overflow
unfolding read_uvarint_loop
read_overflows x s w rest h h' = ground arith

read_runs_out :
    (x s w : ℕ) (rest : List ℕ)
    → read_uvarint_loop 1 x s ((w % 128 + 128) ∷ rest) ≡ err uvarint_overflow
unfolding read_uvarint_loop
read_runs_out x s w rest = ground arith

pub read_uvarint_loop-overflow :
    (k f x s w : ℕ) (rest : List ℕ)
    → k < f
    → 2 * 128 ^ k ≤ w
    → x < 2 ^ s
    → read_uvarint_loop (suc k) x s (write_uvarint_loop f w ++ rest) ≡ err uvarint_overflow
read_uvarint_loop-overflow k zero x s w rest hk hw hx = absurd (omega arith)
read_uvarint_loop-overflow zero (suc f) x s w rest hk hw hx = elim (Bool-cases (ltb w 128)) [
  | inl last ↦
      rw (write_last (suc f) w (ltb→lt w 128 last))
        (read_overflows x s w rest (omega arith) (ltb→lt w 128 last))
  | inr more ↦
      rw (write_inner f w (ground arith))
        (read_runs_out x s w (write_uvarint_loop f (w / 128) ++ rest))
]
read_uvarint_loop-overflow (suc k) (suc f) x s w rest hk hw hx =
    rw (write_inner f w (omega (arith, pow-suc 128 k, one-le-pow k 128))) (
      read_inner (suc k) x s w (write_uvarint_loop f (w / 128) ++ rest) hx
      ∙ read_uvarint_loop-overflow k f (x + w % 128 * 2 ^ s) (s + 7) (w / 128) rest (omega arith)
          (omega (arith, pow-suc 128 k)) (group_fits x s w hx))

-- What ReadUvarint returns on the bytes that WriteUvarint wrote for `x`, followed by `rest`.
abbrev pub uvarint_result : ℕ → List ℕ → Result (ℕ × List ℕ)
uvarint_result x rest = if ltb x (2 ^ 29) then ok (x, rest) else err uvarint_overflow

-- ReadUvarint, on the bytes that WriteUvarint wrote for `x` and anything behind them, returns `x`
-- and leaves what is behind them if x < 2 ^ 29, and fails with the overflow error otherwise.
pub read_uvarint-write_uvarint :
    (x : ℕ) (rest : List ℕ) → read_uvarint (write_uvarint x ++ rest) ≡ uvarint_result x rest
unfolding read_uvarint write_uvarint
read_uvarint-write_uvarint x rest = elim (Bool-cases (ltb x (2 ^ 29))) [
  | inl small ↦ rw small (
      read_uvarint_loop-write 4 9 0 0 x rest (omega arith) (ltb→lt x (2 ^ 29) small) (omega arith)
      ∙ ap (λ n. ok (n, rest)) (omega arith))
  | inr large ↦
      rw large
        (read_uvarint_loop-overflow 4 9 0 0 x rest (omega arith) (ground arith) (omega arith))
]

-- The case of the values that are read back, for the codecs above.
pub read_uvarint_small :
    (x : ℕ) (rest : List ℕ) → x < 2 ^ 29 → read_uvarint (write_uvarint x ++ rest) ≡ ok (x, rest)
read_uvarint_small x rest h =
    read_uvarint-write_uvarint x rest
    ∙ ap (λ b. if b then ok (x, rest) else err uvarint_overflow) (lt→ltb x (2 ^ 29) h)

pub unzigzag-zigzag : (v : ℤ) → IsSigned (2 ^ 64) v → unzigzag (zigzag v) ≡ v
unfolding unzigzag zigzag
unzigzag-zigzag (pos n) h = ground arith
unzigzag-zigzag (negsuc n) h = ground arith

-- The integers from -2 ^ 28 up to 2 ^ 28 - 1.
abbrev pub FitsVarint : ℤ → Type 0
FitsVarint v = IsSigned (2 ^ 29) v

abbrev pub fits_varint : ℤ → Bool
fits_varint (pos n) = ltb n (2 ^ 28)
fits_varint (negsuc n) = ltb n (2 ^ 28)

zigzag_fits : (v : ℤ) → IsSigned (2 ^ 64) v → ltb (zigzag v) (2 ^ 29) ≡ fits_varint v
unfolding zigzag
zigzag_fits (pos n) h = ground arith
zigzag_fits (negsuc n) h = ground arith

uvarint_branch :
    (b : Bool) (x : ℕ) (rest : List ℕ)
    → continue (if b then ok (x, rest) else err uvarint_overflow) (λ u. pure (unzigzag u))
      ≡ (if b then ok (unzigzag x, rest) else err uvarint_overflow)
uvarint_branch true x rest = refl
uvarint_branch false x rest = refl

-- ReadVarint, on the bytes that WriteVarint wrote for an int `v`, returns `v` if -2^28 <= v < 2^28,
-- and fails with the overflow error for every other int.
pub read_varint-write_varint :
    (v : ℤ) (rest : List ℕ)
    → IsSigned (2 ^ 64) v
    → read_varint (write_varint v ++ rest)
      ≡ (if fits_varint v then ok (v, rest) else err uvarint_overflow)
unfolding read_varint write_varint
read_varint-write_varint v rest h =
    ap (λ m. continue m (λ u. pure (unzigzag u))) (read_uvarint-write_uvarint (zigzag v) rest)
    ∙ uvarint_branch (ltb (zigzag v) (2 ^ 29)) (zigzag v) rest
    ∙ rw (zigzag_fits v h, unzigzag-zigzag v h)

pub read_varint_small :
    (v : ℤ) (rest : List ℕ) → FitsVarint v → read_varint (write_varint v ++ rest) ≡ ok (v, rest)
read_varint_small (pos n) rest h =
    read_varint-write_varint (pos n) rest (omega arith) ∙ rw (lt→ltb n (2 ^ 28) h)
read_varint_small (negsuc n) rest h =
    read_varint-write_varint (negsuc n) rest (omega arith) ∙ rw (lt→ltb n (2 ^ 28) h)
