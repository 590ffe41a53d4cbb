-- ===== src/Examples/Compress.antt =====
-- The block codecs and the grouping at concrete inputs.
use gokafka.Compress.Zstd.Large.{zstd_encode-large, IsOpenBlock}
use gokafka.Protocol.Arrays.Grouping.{group_by-with_key, group_of_key, with_key, DifferentKeys}
use gokafka.Compress.Zstd.{frame_magic, max_block_size, encode_frame_header, zstd_encode}
use gokafka.Compress.Snappy.RoundTrip.{snappy_decode-snappy_encode}
use gokafka.Result.{ok}
use gokafka.Protocol.Arrays.{group_by}
use gokafka.Compress.Lz4.Literals.{lz4_decode-lz4_encode, lz4_encode-longer}
use gokafka.Prelude.{
  bytes_eq_refl, zero, none, ap, All, suc, bytes_eq→eq, bytes_eq, List, refl, arith, [], ◌∷◌, ◌≡◌,
  ◌++◌, ℕ, ◌<◌, codes, replicate, length,
}
use gokafka.Compress.Snappy.{
  snappy_copy, snappy_match, snappy_literal_len, snappy_literal, snappy_element, snappy_rounds,
  decode_snappy_varint_loop, snappy_encode, decode_snappy_varint, snappy_decode,
}
use gokafka.Compress.Lz4.{lz4_encode, lz4_decode}

snappy_decode-snappy_encode_example :
    snappy_decode 1000 (snappy_encode (codes "gokafka" ++ replicate 100 7))
    ≡ ok (codes "gokafka" ++ replicate 100 7)
snappy_decode-snappy_encode_example =
    snappy_decode-snappy_encode 1000 (codes "gokafka" ++ replicate 100 7) (omega arith)
      (omega arith)

lz4_decode-lz4_encode_example :
    lz4_decode 1000 (lz4_encode (codes "gokafka" ++ replicate 20 7))
    ≡ ok (codes "gokafka" ++ replicate 20 7)
lz4_decode-lz4_encode_example =
    lz4_decode-lz4_encode 1000 (codes "gokafka" ++ replicate 20 7) (omega arith) (omega arith)

abbrev sevens : List ℕ
sevens = replicate 20 7

lz4_encode-longer_example : length sevens < length (lz4_encode sevens)
lz4_encode-longer_example = lz4_encode-longer sevens

-- A snappy block with a copy, which the encoder never writes.
snappy_copy_test : snappy_decode 1000 (8 ∷ 0 ∷ 65 ∷ 13 ∷ 1 ∷ 0 ∷ []) ≡ ok (replicate 8 65)
unfolding snappy_decode decode_snappy_varint decode_snappy_varint_loop snappy_rounds snappy_element
    snappy_literal snappy_literal_len snappy_match snappy_copy
snappy_copy_test = refl

-- Three items of two topics.
abbrev items : List (List ℕ × ℕ)
items = (codes "a", 4) ∷ (codes "b", 5) ∷ (codes "a", 6) ∷ []

abbrev topic_of : List ℕ × ℕ → List ℕ
topic_of r = r.0

group_by-with_key_example :
    DifferentKeys bytes_eq topic_of bytes_eq→eq (group_by bytes_eq topic_of items)
    × All (λ g. g.1 ≡ with_key bytes_eq topic_of g.0 items) (group_by bytes_eq topic_of items)
    × ((k : List ℕ)
        → group_of_key bytes_eq topic_of k (group_by bytes_eq topic_of items)
          ≡ with_key bytes_eq topic_of k items)
group_by-with_key_example = group_by-with_key bytes_eq topic_of bytes_eq→eq bytes_eq_refl items

length-sevens : (n : ℕ) → length {A = ℕ} (replicate n 7) ≡ n
length-sevens zero = refl
length-sevens (suc n) = ap suc (length-sevens n)

-- A payload of 128 KiB and a byte.
abbrev long_payload : List ℕ
long_payload = replicate 131073 7

zstd_encode-large_example :
    (block more : List ℕ) × (zstd_encode (λ src. none) long_payload
      ≡ encode_frame_header max_block_size ++ (block ++ (frame_magic ++ more)))
    × IsOpenBlock block
zstd_encode-large_example =
    zstd_encode-large (λ src. none) long_payload (omega (arith, length-sevens 131073))
