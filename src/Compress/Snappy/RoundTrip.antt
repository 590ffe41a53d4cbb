-- ===== src/Compress/Snappy/RoundTrip.antt =====
-- The snappy encoder of internal/compress/snappy.go, and its decoder on what it wrote.
use gokafka.Prelude.{
  ℕ, zero, suc, ◌+◌, ◌*◌, ◌/◌, ◌%◌, ◌^◌, ◌≤◌, ◌<◌, ◌≡◌, refl, ap, ◌∙◌, min, bit_and, bit_or, List,
  [], ◌∷◌, ◌++◌, length, take, drop, length-append, take-append-drop, length-take, length-drop,
  take-length-append, drop-length-append, take_all, append-nil, append_assoc, ltb, ◌==◌, ltb→lt,
  lt→ltb, le→ltb, Bool-cases, true, inl, inr, arith, some, min,
}
use gokafka.Prelude.Bits.{bit_and_low_seven, bit_and_low_two, bit_or_disjoint}
use gokafka.Compress.Snappy.{
  encode_snappy_varint, append_snappy_literal, snappy_chunks, snappy_encode, decode_snappy_varint,
  decode_snappy_varint_loop, snappy_literal, snappy_literal_len, snappy_element, snappy_rounds,
  sized, snappy_decode,
}
use gokafka.Result.{ok}
use gokafka.Wire.Varint.{write_uvarint_loop}
use gokafka.Wire.Varint.RoundTrip.{write_last, write_inner, low_group, group_fits, split_group}
use native.Mathlib.Nat.{pow-suc}

write_uvarint_loop_positive : (f x : ℕ) → 0 < length (write_uvarint_loop f x)
unfolding write_uvarint_loop
write_uvarint_loop_positive zero x = omega arith
write_uvarint_loop_positive (suc f) x = ground arith

pub drop_all : (xs : List ℕ) → drop (length xs) xs ≡ []
drop_all [] = refl
drop_all (x ∷ xs) = drop_all xs

no_literal : (f : ℕ) → append_snappy_literal f [] ≡ []
unfolding append_snappy_literal
no_literal zero = refl
no_literal (suc f) = refl

-- A literal of at most 60 bytes is one element.
one_literal :
    (f b : ℕ) (lit : List ℕ)
    → length lit < 60
    → append_snappy_literal (suc f) (b ∷ lit) ≡ (length lit * 4) ∷ (b ∷ lit)
unfolding append_snappy_literal
one_literal f b lit h =
    let e : min (suc (length lit)) 60 ≡ suc (length lit) = ground arith in
    let tag : length lit * 4 % 256 ≡ length lit * 4 = omega arith in
    rw (e, take_all lit, drop_all lit, no_literal f, append-nil lit)
      (ap (λ t. t ∷ (b ∷ lit)) (omega (arith, tag)))

-- The number of the bytes of the first chunk, less one.
abbrev chunk : List ℕ → ℕ
chunk src = min (length src) 59

chunk-le : (src : List ℕ) → (chunk src ≤ length src) × (chunk src < 60)
chunk-le src = ground arith

snappy_chunks_step :
    (f b : ℕ) (src : List ℕ)
    → snappy_chunks (suc f) (b ∷ src)
      ≡ ((chunk src * 4) ∷ (b ∷ take (chunk src) src)) ++ snappy_chunks f (drop (chunk src) src)
unfolding snappy_chunks
snappy_chunks_step f b src =
    let e : min (suc (length src)) 60 ≡ suc (chunk src) = ground arith in
    let (le, lt) = chunk-le src in
    let l : length (take (chunk src) src) ≡ chunk src = length-take (chunk src) src le in
    rw e (
      ap (λ t. t ++ snappy_chunks f (drop (chunk src) src))
        (one_literal (chunk src) b (take (chunk src) src) (omega (arith, l))
          ∙ ap (λ n. (n * 4) ∷ (b ∷ take (chunk src) src)) l))

pub length-snappy_chunks :
    (f : ℕ) (src : List ℕ) → length src ≤ f → length src ≤ length (snappy_chunks f src)
length-snappy_chunks f [] h = omega arith
length-snappy_chunks zero (b ∷ src) h = absurd (omega arith)
length-snappy_chunks (suc f) (b ∷ src) h =
    let k = chunk src in
    let (le, lt) = chunk-le src in
    omega (
      arith,
      ap length (snappy_chunks_step f b src),
      length-append ((k * 4) ∷ (b ∷ take k src)) (snappy_chunks f (drop k src)),
      length-take k src le,
      length-drop k src,
      length-snappy_chunks f (drop k src) (omega (arith, length-drop k src)),
    )

literal_tag : (m : ℕ) → m < 60 → (bit_and (m * 4) 0x3 == 0) ≡ true
literal_tag m h = let e = bit_and_low_two (m * 4) (omega arith) in ground arith

literal_element :
    (m : ℕ) (out lit rest : List ℕ)
    → length lit ≡ suc m
    → m < 60
    → snappy_element out (m * 4) (lit ++ rest) ≡ ok (out ++ lit, rest)
unfolding snappy_element snappy_literal snappy_literal_len
literal_element m out lit rest l h =
    let n : m * 4 / 4 + 1 ≡ length lit = omega arith in
    rw (
      literal_tag m h,
      lt→ltb (m * 4) 0xf0 (omega arith),
      n,
      le→ltb (length (lit ++ rest)) (length lit) (omega (arith, length-append lit rest)),
      take-length-append lit rest,
      drop-length-append lit rest,
    )

literal_round :
    (f size m : ℕ) (out lit rest : List ℕ)
    → length lit ≡ suc m
    → m < 60
    → length out < size
    → snappy_rounds (suc f) size out ((m * 4) ∷ (lit ++ rest))
      ≡ snappy_rounds f size (out ++ lit) rest
unfolding snappy_rounds
literal_round f size m out lit rest l h room =
    rw (lt→ltb (length out) size room, snappy_rounds) (rw (literal_element m out lit rest l h) refl)

no_chunks : (g : ℕ) → snappy_chunks g [] ≡ []
unfolding snappy_chunks
no_chunks zero = refl
no_chunks (suc g) = refl

finished :
    (f size : ℕ) (out : List ℕ) → (length out == size) ≡ true → snappy_rounds f size out [] ≡ ok out
unfolding snappy_rounds
finished f size out h = rw h refl

snappy_rounds-chunks :
    (f g size : ℕ) (out src : List ℕ)
    → size ≡ length out + length src
    → length src ≤ f
    → length src ≤ g
    → snappy_rounds f size out (snappy_chunks g src) ≡ ok (out ++ src)
snappy_rounds-chunks f g size out [] e hf hg =
    rw (no_chunks g, append-nil out)
      (let same : (length out == size) ≡ true = ground arith in finished f size out same)
snappy_rounds-chunks zero g size out (b ∷ src) e hf hg = absurd (omega arith)
snappy_rounds-chunks (suc f) zero size out (b ∷ src) e hf hg = absurd (omega arith)
snappy_rounds-chunks (suc f) (suc g) size out (b ∷ src) e hf hg =
    let k = chunk src in
    let (le, lt) = chunk-le src in
    let lit = b ∷ take k src in
    let l : length lit ≡ suc k = omega (arith, length-take k src le) in
    rw (snappy_chunks_step g b src) (
      literal_round f size k out lit (snappy_chunks g (drop k src)) l lt (omega arith)
      ∙ snappy_rounds-chunks f g size (out ++ lit) (drop k src)
          (omega (arith, length-append out lit, length-drop k src))
          (omega (arith, length-drop k src)) (omega (arith, length-drop k src))
      ∙ ap ok
          (append_assoc out lit (drop k src) ∙ ap (λ t. out ++ (b ∷ t)) (take-append-drop k src)))

decode_last :
    (left x s w : ℕ) (rest : List ℕ)
    → w < 128
    → w * 2 ^ s < 2 ^ 64
    → x < 2 ^ s
    → decode_snappy_varint_loop (suc left) x s (w ∷ rest) ≡ some (x + w * 2 ^ s, rest)
unfolding decode_snappy_varint_loop
decode_last left x s w rest h small hx =
    let low : bit_and w 0x7f ≡ w = bit_and_low_seven w (omega arith) ∙ omega arith in
    let y : bit_or x (bit_and w 0x7f * 2 ^ s % 2 ^ 64) ≡ x + w * 2 ^ s =
      rw low (ap (λ t. bit_or x t) (omega arith) ∙ bit_or_disjoint s x w hx) in
    rw (lt→ltb w 0x80 h) (ap (λ t. some (t, rest)) y)

decode_inner :
    (left x s w : ℕ) (rest : List ℕ)
    → w * 2 ^ s < 2 ^ 64
    → x < 2 ^ s
    → decode_snappy_varint_loop (suc left) x s ((w % 128 + 128) ∷ rest)
      ≡ decode_snappy_varint_loop left (x + w % 128 * 2 ^ s) (s + 7) rest
unfolding decode_snappy_varint_loop
decode_inner left x s w rest small hx =
    let y : bit_or x (bit_and (w % 128 + 128) 0x7f * 2 ^ s % 2 ^ 64) ≡ x + w % 128 * 2 ^ s =
      rw (low_group w) (
        ap (λ t. bit_or x t) (omega (arith, split_group 0 s w))
        ∙ bit_or_disjoint s x (w % 128) hx) in
    rw (le→ltb (w % 128 + 128) 0x80 (omega arith), y) refl

-- decodeSnappyVarint undoes the loop of WriteUvarint in as many groups as it has left.
decode-write :
    (k f x s w : ℕ) (rest : List ℕ)
    → k ≤ f
    → w < 128 ^ suc k
    → w * 2 ^ s < 2 ^ 64
    → x < 2 ^ s
    → decode_snappy_varint_loop (suc k) x s (write_uvarint_loop f w ++ rest)
      ≡ some (x + w * 2 ^ s, rest)
decode-write zero f x s w rest hk hw hs hx =
    rw (write_last f w (omega arith)) (decode_last 0 x s w rest (omega arith) hs hx)
decode-write (suc k) zero x s w rest hk hw hs hx = absurd (omega arith)
decode-write (suc k) (suc f) x s w rest hk hw hs hx = elim (Bool-cases (ltb w 128)) [
  | inl last ↦
      rw (write_last (suc f) w (ltb→lt w 128 last))
        (decode_last (suc k) x s w rest (ltb→lt w 128 last) hs hx)
  | inr more ↦ rw (write_inner f w (ground arith)) (
      decode_inner (suc k) x s w (write_uvarint_loop f (w / 128) ++ rest) hs hx
      ∙ decode-write k f (x + w % 128 * 2 ^ s) (s + 7) (w / 128) rest (omega arith)
          (omega (arith, pow-suc 128 (suc k))) (omega (arith, split_group 0 s w))
          (group_fits x s w hx)
      ∙ ap (λ n. some (n, rest)) (split_group x s w))
]

-- SnappyDecode, on what SnappyEncode made of any bytes, returns those bytes, where their number is at
-- most the limit on decompressed bytes and below 2^63.
pub snappy_decode-snappy_encode :
    (limit : ℕ) (src : List ℕ)
    → length src ≤ limit
    → length src < 2 ^ 63
    → snappy_decode limit (snappy_encode src) ≡ ok src
unfolding snappy_decode snappy_encode encode_snappy_varint decode_snappy_varint
snappy_decode-snappy_encode limit src fits small =
    let n = length src in
    let chunks = snappy_chunks n src in
    let value : 0 + n * 2 ^ 0 ≡ n = omega arith in
    ap (sized limit) (
      decode-write 9 9 0 0 n chunks (omega arith) (omega arith) (omega arith) (omega arith)
      ∙ ap (λ t. some (t, chunks)) value)
    ∙ rw (le→ltb limit n fits) (
        snappy_rounds-chunks (length chunks) n n [] src (omega arith)
          (length-snappy_chunks n src (omega arith)) (omega arith))

-- SnappyEncode makes its input longer: each byte is in a literal, and the length comes on top.
pub snappy_encode-longer : (src : List ℕ) → length src < length (snappy_encode src)
unfolding snappy_encode encode_snappy_varint
snappy_encode-longer src = omega (
  arith,
  length-append (write_uvarint_loop 9 (length src)) (snappy_chunks (length src) src),
  length-snappy_chunks (length src) src (omega arith),
  write_uvarint_loop_positive 9 (length src),
)
