-- ===== src/Compress/Lz4.antt =====
-- internal/compress/lz4.go: the block encoder with its match search, and the decoder.
pub mod Literals
use gokafka.Prelude.{
  ℕ, zero, suc, ◌+◌, ◌-◌, ◌*◌, ◌/◌, ◌%◌, ◌^◌, min, bit_or, List, [], ◌∷◌, ◌++◌, length, take, drop,
  get_elem?, ltb, leb, ◌==◌, ◌||◌, ◌&&◌, Bool, true, false, if◌then◌else◌, Option, none, some,
}
use gokafka.Compress.Snappy.{append_byte}
use gokafka.Result.{Result, ok, err, panic, bind, lz4_corrupt, size_limit}
use gokafka.Wire.Ints.{put_uint32, big_endian}

-- The bytes that two positions have in common, at most `n` of them.
unfoldable pub common_prefix : ℕ → List ℕ → List ℕ → ℕ
common_prefix zero a b = 0
common_prefix (suc n) (x ∷ a) (y ∷ b) = if x == y then suc (common_prefix n a b) else 0
common_prefix (suc n) a b = 0

-- `for off := i - 1; off >= start; off--`: the offset and the length of the best match so far.
unfoldable pub search_match : ℕ → ℕ → List ℕ → ℕ → ℕ × ℕ → ℕ × ℕ
unfolding common_prefix
search_match zero off src i best = best
search_match (suc n) off src i best =
    let l = common_prefix (min (length src - i) 65535) (drop off src) (drop i src) in
    search_match n (off - 1) src i (if leb 4 l && ltb best.1 l then (i - off, l) else best)

-- `for x >= 255`, at most 65520 of them.
unfoldable pub length_bytes : ℕ → ℕ → List ℕ
length_bytes zero x = (x % 256) ∷ []
length_bytes (suc fuel) x =
    let rest = length_bytes fuel (x - 255) in if leb 255 x then 255 ∷ rest else (x % 256) ∷ []

-- A round of `for remaining > 0` takes at least one byte.
unfoldable pub write_literal_run : ℕ → List ℕ → List ℕ
unfolding length_bytes
write_literal_run zero lit = []
write_literal_run (suc fuel) [] = []
write_literal_run (suc fuel) (b ∷ lit) =
    let n = min (length (b ∷ lit)) 65535 in
    (if leb 15 n then 0xf0 ∷ length_bytes n (n - 15) else (n * 16 % 256) ∷ [])
    ++ (take n (b ∷ lit) ++ write_literal_run fuel (drop n (b ∷ lit)))

-- `for matchLen > 0`; byte(chunk - 4) wraps around.
unfoldable pub write_match : ℕ → ℕ → ℕ → List ℕ
unfolding length_bytes
write_match zero offset n = []
write_match (suc fuel) offset zero = []
write_match (suc fuel) offset (suc m) =
    let chunk = min (suc m) 19 in
    let at = (offset % 256) ∷ (offset / 256 % 256) ∷ [] in
    (if leb 19 chunk
      then 0x0f ∷ (at ++ length_bytes chunk (chunk - 19))
      else ((chunk + 252) % 256) ∷ at)
    ++ write_match fuel offset (suc m - chunk)

-- `for i < len(src)`: the position moves in every round.
unfoldable pub compress_rounds : ℕ → ℕ → List ℕ → List ℕ
unfolding search_match write_literal_run write_match
compress_rounds zero i src = []
compress_rounds (suc fuel) i src =
    let best = search_match (min i 65535) (i - 1) src i (0, 0) in
    let found = leb 4 best.1 in
    let lit = if found then take best.1 (drop i src) else drop i src in
    let next = compress_rounds fuel (if found then i + best.1 else length src) src in
    if ltb i (length src)
    then write_literal_run (length lit) lit
      ++ ((if found then write_match best.1 best.0 best.1 else []) ++ next)
    else []

unfoldable pub lz4_compress_block : List ℕ → List ℕ
unfolding compress_rounds
lz4_compress_block src = compress_rounds (length src) 0 src

unfoldable pub lz4_encode : List ℕ → List ℕ
unfolding lz4_compress_block
lz4_encode src =
    let compressed = lz4_compress_block src in
    put_uint32 (length compressed % 2 ^ 32) ++ (put_uint32 (length src % 2 ^ 32) ++ compressed)

-- A length with the bytes that continue it: `for { …; if b != 255 { break } }`.
unfoldable pub extended : ℕ → List ℕ → Result (ℕ × List ℕ)
extended n [] = err lz4_corrupt
extended n (b ∷ src) = elim (b == 255) [ true ↦ extended (n + b) src | false ↦ ok (n + b, src) ]

unfoldable pub length_of : ℕ → List ℕ → Result (ℕ × List ℕ)
unfolding extended
length_of n src = if n == 15 then extended n src else ok (n, src)

unfoldable pub match_length : ℕ → List ℕ → Result (ℕ × List ℕ)
unfolding extended
match_length n src = if n == 15 then extended (n + 4) src else ok (n + 4, src)

unfoldable pub lz4_copy : List ℕ → ℕ → ℕ → Result (List ℕ)
lz4_copy out offset zero = ok out
lz4_copy out offset (suc n) =
    bind (append_byte out (get_elem? out (length out - offset))) λ out'. lz4_copy out' offset n

-- The match behind a token's literals.
unfoldable pub lz4_match : ℕ → List ℕ → List ℕ → Result (List ℕ × List ℕ)
unfolding match_length lz4_copy
lz4_match token out (lo ∷ hi ∷ src) =
    let offset = bit_or lo (hi * 2 ^ 8) in
    if offset == 0 || ltb (length out) offset
    then err lz4_corrupt
    else bind (match_length (token % 16) src)
        λ r. bind (lz4_copy out offset r.0) λ out'. ok (out', r.1)
lz4_match token out src = err lz4_corrupt

-- A round of the loop. Where its literals already fill the output there is no match: `break`.
unfoldable pub lz4_round : ℕ → ℕ → List ℕ → List ℕ → Result (List ℕ × List ℕ)
unfolding length_of lz4_match
lz4_round size token out src = bind (length_of (token / 16) src) λ r.
    if ltb (length r.1) r.0
    then err lz4_corrupt
    else if ltb (length (out ++ take r.0 r.1)) size
    then lz4_match token (out ++ take r.0 r.1) (drop r.0 r.1)
    else ok (out ++ take r.0 r.1, drop r.0 r.1)

-- The check behind the loop.
abbrev pub lz4_filled : ℕ → List ℕ → Result (List ℕ)
lz4_filled size out = if length out == size then ok out else err lz4_corrupt

-- `for len(out) < uncompLen`: a round takes at least its token, so the source is the fuel.
unfoldable pub lz4_rounds : ℕ → ℕ → List ℕ → List ℕ → Result (List ℕ)
unfolding lz4_round
lz4_rounds fuel size out [] = lz4_filled size out
lz4_rounds zero size out (token ∷ src) = lz4_filled size out
lz4_rounds (suc fuel) size out (token ∷ src) = elim (ltb (length out) size) [
  | false ↦ lz4_filled size out
  | true ↦ bind (lz4_round size token out src) λ q. lz4_rounds fuel size q.0 q.1
]

unfoldable pub lz4_decode : ℕ → List ℕ → Result (List ℕ)
unfolding lz4_rounds
lz4_decode limit src =
    let comp = big_endian (take 4 src) in
    let size = big_endian (take 4 (drop 4 src)) in
    let block = take comp (drop 8 src) in
    if ltb (length src) 8
    then err lz4_corrupt
    else if ltb limit size
    then err size_limit
    else if ltb (length src) (8 + comp)
    then err lz4_corrupt
    else lz4_rounds (length block) size [] block
