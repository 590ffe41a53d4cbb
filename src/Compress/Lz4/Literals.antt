-- ===== src/Compress/Lz4/Literals.antt =====
-- The lz4 encoder of internal/compress/lz4.go finds no match: it writes literals only.
use gokafka.Prelude.{
  ℕ, zero, suc, ◌+◌, ◌-◌, ◌*◌, ◌/◌, ◌%◌, ◌^◌, ◌≤◌, ◌<◌, ◌≡◌, refl, ap, ◌∙◌, min, List, [], ◌∷◌,
  ◌++◌, length, take, drop, length-append, length-take, length-drop, take_all, append-nil, leb,
  ◌==◌, lt→ltb, le→ltb, Bool-cases, true, false, inl, inr, if◌then◌else◌, arith,
}
use gokafka.Compress.Lz4.{
  length_bytes, write_literal_run, search_match, compress_rounds, lz4_compress_block, lz4_encode,
  extended, length_of, lz4_rounds, lz4_decode, lz4_round, lz4_filled,
}
use gokafka.Compress.Snappy.RoundTrip.{drop_all}
use gokafka.Result.{ok}
use gokafka.Wire.Ints.{put_uint32}
use gokafka.Wire.Ints.RoundTrip.{big_endian-put_uint32}

past_the_end : (f : ℕ) (src : List ℕ) → compress_rounds f (length src) src ≡ []
unfolding compress_rounds
past_the_end zero src = refl
past_the_end (suc f) src = rw (le→ltb (length src) (length src) (omega arith)) refl

-- The search starts at the first byte, where there is nothing before to match, and then everything
-- is taken as literals: the block is the literal run of the whole input.
pub lz4_compress_block-literals :
    (src : List ℕ) → lz4_compress_block src ≡ write_literal_run (length src) src
unfolding lz4_compress_block compress_rounds search_match
lz4_compress_block-literals [] = unfold write_literal_run in refl
lz4_compress_block-literals (b ∷ src) =
    rw (past_the_end (length src) (b ∷ src), lt→ltb 0 (suc (length src)) (omega arith))
      (append-nil _)

pub length-write_literal_run :
    (f : ℕ) (lit : List ℕ) → length lit ≤ f → length lit ≤ length (write_literal_run f lit)
unfolding write_literal_run
length-write_literal_run f [] h = omega arith
length-write_literal_run zero (b ∷ lit) h = absurd (omega arith)
length-write_literal_run (suc f) (b ∷ lit) h =
    let n = min (length (b ∷ lit)) 65535 in
    let le : n ≤ length (b ∷ lit) = ground arith in
    let one : 0 < n = ground arith in
    let rest = drop n (b ∷ lit) in
    omega (
      arith,
      length-append (if leb 15 n then 0xf0 ∷ length_bytes n (n - 15) else (n * 16 % 256) ∷ [])
          (take n (b ∷ lit) ++ write_literal_run f rest),
      length-append (take n (b ∷ lit)) (write_literal_run f rest),
      length-take n (b ∷ lit) le,
      length-drop n (b ∷ lit),
      length-write_literal_run f rest (omega (arith, length-drop n (b ∷ lit))),
    )

-- LZ4Encode makes its input longer.
pub lz4_encode-longer : (src : List ℕ) → length src < length (lz4_encode src)
unfolding lz4_encode
lz4_encode-longer src = omega (
  arith,
  length-append (put_uint32 (length (lz4_compress_block src) % 2 ^ 32))
      (put_uint32 (length src % 2 ^ 32) ++ lz4_compress_block src),
  length-append (put_uint32 (length src % 2 ^ 32)) (lz4_compress_block src),
  ap length (lz4_compress_block-literals src),
  length-write_literal_run (length src) src (omega arith),
)

extended_last :
    (acc b : ℕ) (rest : List ℕ) → (b == 255) ≡ false → extended acc (b ∷ rest) ≡ ok (acc + b, rest)
unfolding extended
extended_last acc b rest h = rw (h, extended) refl

extended-length_bytes :
    (f x acc : ℕ) (rest : List ℕ)
    → x ≤ f * 255
    → extended acc (length_bytes f x ++ rest) ≡ ok (acc + x, rest)
unfolding extended length_bytes
extended-length_bytes zero x acc rest h = let e : x ≡ 0 = omega arith in rw (e) refl
extended-length_bytes (suc f) x acc rest h = elim (Bool-cases (leb 255 x)) [
  | inl more ↦ rw more (
      extended-length_bytes f (x - 255) (acc + 255) rest (omega arith)
      ∙ ap (λ t. ok (t, rest)) (ground arith))
  | inr last ↦
      let small : (x % 256 == 255) ≡ false = ground arith in
      let same : x % 256 ≡ x = ground arith in
      let one : length_bytes (suc f) x ≡ x ∷ [] = rw last (ap (λ t. t ∷ []) same) in
      rw one (extended_last acc x rest (ground arith))
]

no_run : (f : ℕ) → write_literal_run f [] ≡ []
unfolding write_literal_run
no_run zero = refl
no_run (suc f) = refl

abbrev run_head : ℕ → List ℕ
run_head n = if leb 15 n then 0xf0 ∷ length_bytes n (n - 15) else (n * 16 % 256) ∷ []

one_run :
    (b : ℕ) (lit : List ℕ)
    → length (b ∷ lit) ≤ 65535
    → write_literal_run (length (b ∷ lit)) (b ∷ lit) ≡ run_head (length (b ∷ lit)) ++ (b ∷ lit)
unfolding write_literal_run
one_run b lit h =
    let e : min (suc (length lit)) 65535 ≡ suc (length lit) = ground arith in
    rw (e, take_all lit, drop_all lit, no_run (length lit), append-nil lit) refl

run_length :
    (n : ℕ) (src : List ℕ)
    → 0 < n
    → (token : ℕ) × (more : List ℕ) × (run_head n ++ src ≡ token ∷ more)
      × (length_of (token / 16) more ≡ ok (n, src))
unfolding length_of
run_length n src h = elim (Bool-cases (leb 15 n)) [
  | inl long ↦ (
    0xf0,
    length_bytes n (n - 15) ++ src,
    rw long refl,
    extended-length_bytes n (n - 15) 15 src (omega arith) ∙ ap (λ t. ok (t, src)) (ground arith),
  )
  | inr short ↦
      let t : n * 16 % 256 / 16 ≡ n = ground arith in
      (n * 16 % 256, src, rw short refl, let m : (n == 15) ≡ false = ground arith in rw (t, m) refl)
]

same_length : (src : List ℕ) → lz4_filled (length src) src ≡ ok src
same_length src = let e : (length src == length src) ≡ true = ground arith in rw e refl

lz4_round-run :
    (token : ℕ) (more src : List ℕ)
    → length_of (token / 16) more ≡ ok (length src, src)
    → lz4_round (length src) token [] more ≡ ok (src, [])
unfolding lz4_round
lz4_round-run token more src h =
    let e = le→ltb (length src) (length src) (omega arith) in
    rw h (rw e (rw (take_all src, e, drop_all src) refl))

lz4_rounds-run :
    (f token : ℕ) (more src : List ℕ)
    → length_of (token / 16) more ≡ ok (length src, src)
    → 0 < length src
    → lz4_rounds (suc f) (length src) [] (token ∷ more) ≡ ok src
unfolding lz4_rounds
lz4_rounds-run f token more src h positive =
    rw (lt→ltb 0 (length src) positive, lz4_rounds)
      (rw (lz4_round-run token more src h) (lz4_rounds_end f src))
  where
    lz4_rounds_end : (g : ℕ) (out : List ℕ) → lz4_rounds g (length out) out [] ≡ ok out
    lz4_rounds_end zero out = same_length out
    lz4_rounds_end (suc g) out = same_length out

lz4_decode_framed :
    (limit n : ℕ) (block : List ℕ)
    → n ≤ limit
    → n < 2 ^ 32
    → length block < 2 ^ 32
    → lz4_decode limit (put_uint32 (length block % 2 ^ 32) ++ (put_uint32 (n % 2 ^ 32) ++ block))
      ≡ lz4_rounds (length block) n [] block
unfolding lz4_decode
lz4_decode_framed limit n block fits small short =
    let c : length block % 2 ^ 32 ≡ length block = omega arith in
    let m : n % 2 ^ 32 ≡ n = omega arith in
    let frame = put_uint32 (length block % 2 ^ 32) ++ (put_uint32 (n % 2 ^ 32) ++ block) in
    rw
      (
        c,
        m,
        big_endian-put_uint32 (length block) short,
        big_endian-put_uint32 n small,
        le→ltb limit n fits,
      )
      (rw
        (
          le→ltb (length frame) 8 (omega arith),
          le→ltb (length frame) (8 + length block) (omega arith),
          take_all block,
        )
        refl)

length-length_bytes : (f x : ℕ) → length (length_bytes f x) ≤ suc f
unfolding length_bytes
length-length_bytes zero x = omega arith
length-length_bytes (suc f) x = ground (arith, length-length_bytes f (x - 255))

length-run_head : (n : ℕ) → length (run_head n) ≤ n + 2
length-run_head n = ground (arith, length-length_bytes n (n - 15))

-- LZ4Decode, on what LZ4Encode made of at most 65535 bytes, returns those bytes, where their number
-- is at most the limit on decompressed bytes.
pub lz4_decode-lz4_encode :
    (limit : ℕ) (src : List ℕ)
    → length src ≤ limit
    → length src ≤ 65535
    → lz4_decode limit (lz4_encode src) ≡ ok src
unfolding lz4_encode
lz4_decode-lz4_encode limit src fits small = rw (lz4_compress_block-literals src) (
    lz4_decode_framed limit (length src) (write_literal_run (length src) src) fits (omega arith)
      (run_short src small)
    ∙ rounds src small)
  where
    run_short :
        (src : List ℕ) → length src ≤ 65535 → length (write_literal_run (length src) src) < 2 ^ 32
    run_short [] h = unfold write_literal_run in omega arith
    run_short (b ∷ lit) h = omega (
      arith,
      ap length (one_run b lit h),
      length-append (run_head (length (b ∷ lit))) (b ∷ lit),
      length-run_head (length (b ∷ lit)),
    )

    rounds :
        (src : List ℕ)
        → length src ≤ 65535
        → lz4_rounds
            (length (write_literal_run (length src) src))
            (length src)
            []
            (write_literal_run (length src) src)
          ≡ ok src
    rounds [] h = unfold write_literal_run lz4_rounds in refl
    rounds (b ∷ lit) h =
        let (token, more, shape, l) = run_length (length (b ∷ lit)) (b ∷ lit) (omega arith) in
        rw (one_run b lit h ∙ shape)
          (lz4_rounds-run (length more) token more (b ∷ lit) l (omega arith))
