-- ===== src/Partitioner/Murmur.antt =====
-- murmur2 of partitioner.go: 32-bit MurmurHash2 on uint32.
use gokafka.Prelude.Int.{to_signed, ℤ}
use gokafka.Prelude.{[], ◌∷◌, ◌/◌, length, ◌*◌, ◌%◌, bit_xor, bit_or, List, ℕ, ◌^◌}

abbrev u32 : ℕ → ℕ
u32 n = n % 2 ^ 32

abbrev m : ℕ
m = 0x5bd1e995

-- The four bytes of a block, lowest first, joined by |.
abbrev block : ℕ → ℕ → ℕ → ℕ → ℕ
block b0 b1 b2 b3 = bit_or (bit_or (bit_or b0 (b1 * 2 ^ 8)) (b2 * 2 ^ 16)) (b3 * 2 ^ 24)

-- k *= m; k ^= k >> r; k *= m
abbrev mix_block : ℕ → ℕ
mix_block k = let k' = u32 (k * m) in u32 (bit_xor k' (k' / 2 ^ 24) * m)

-- The loop over the blocks, then the switch on the length of the rest.
unfoldable pub murmur_loop : ℕ → List ℕ → ℕ
murmur_loop h (b0 ∷ b1 ∷ b2 ∷ b3 ∷ rest) =
    murmur_loop (bit_xor (u32 (h * m)) (mix_block (block b0 b1 b2 b3))) rest
murmur_loop h (b0 ∷ b1 ∷ b2 ∷ []) =
    u32 (bit_xor (bit_xor (bit_xor h (b2 * 2 ^ 16)) (b1 * 2 ^ 8)) b0 * m)
murmur_loop h (b0 ∷ b1 ∷ []) = u32 (bit_xor (bit_xor h (b1 * 2 ^ 8)) b0 * m)
murmur_loop h (b0 ∷ []) = u32 (bit_xor h b0 * m)
murmur_loop h [] = h

-- The last three lines.
abbrev finish : ℕ → ℕ
finish h = let h' = u32 (bit_xor h (h / 2 ^ 13) * m) in u32 (bit_xor h' (h' / 2 ^ 15))

-- The uint32 h at the end.
unfoldable pub murmur_bits : List ℕ → ℕ
unfolding murmur_loop
murmur_bits data' = finish (murmur_loop (bit_xor 0x9747b28c (u32 (length data'))) data')

-- return int32(h)
unfoldable pub murmur2 : List ℕ → ℤ
unfolding murmur_bits
murmur2 data' = to_signed (2 ^ 32) (murmur_bits data')
