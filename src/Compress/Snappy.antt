-- ===== src/Compress/Snappy.antt =====
-- internal/compress/snappy.go: the block encoder, which writes literals only, and the decoder.
pub mod RoundTrip
use gokafka.Prelude.{
  ℕ, zero, suc, ◌+◌, ◌-◌, ◌*◌, ◌/◌, ◌%◌, ◌^◌, min, bit_and, bit_or, List, [], ◌∷◌, ◌++◌, length,
  take, drop, get_elem?, ltb, ◌==◌, ◌||◌, Bool, true, false, if◌then◌else◌, Option, none, some,
}
use gokafka.Result.{Result, ok, err, panic, bind, snappy_corrupt, size_limit}
use gokafka.Wire.Varint.{write_uvarint_loop}

-- `for v >= 0x80`, the loop of WriteUvarint.
unfoldable pub encode_snappy_varint : ℕ → List ℕ
unfolding write_uvarint_loop
encode_snappy_varint v = write_uvarint_loop 9 v

-- `for len(lit) > 0`: a round takes at least one byte, so the length is fuel enough.
unfoldable pub append_snappy_literal : ℕ → List ℕ → List ℕ
append_snappy_literal zero lit = []
append_snappy_literal (suc fuel) [] = []
append_snappy_literal (suc fuel) (b ∷ lit) =
    let n = min (length (b ∷ lit)) 60 in
    ((n - 1) * 4 % 256) ∷ (take n (b ∷ lit) ++ append_snappy_literal fuel (drop n (b ∷ lit)))

-- `for i := 0; i < len(src);` on src[i:].
unfoldable pub snappy_chunks : ℕ → List ℕ → List ℕ
unfolding append_snappy_literal
snappy_chunks zero src = []
snappy_chunks (suc fuel) [] = []
snappy_chunks (suc fuel) (b ∷ src) =
    let n = min (length (b ∷ src)) 60 in
    append_snappy_literal n (take n (b ∷ src)) ++ snappy_chunks fuel (drop n (b ∷ src))

unfoldable pub snappy_encode : List ℕ → List ℕ
unfolding encode_snappy_varint snappy_chunks
snappy_encode src = encode_snappy_varint (length src) ++ snappy_chunks (length src) src

-- The value and src[n:]; none is the count 0. The shift drops what is above bit 63.
unfoldable pub decode_snappy_varint_loop : ℕ → ℕ → ℕ → List ℕ → Option (ℕ × List ℕ)
decode_snappy_varint_loop zero x s src = none
decode_snappy_varint_loop (suc left) x s [] = none
decode_snappy_varint_loop (suc left) x s (b ∷ src) =
    let y = bit_or x (bit_and b 0x7f * 2 ^ s % 2 ^ 64) in
    let more = decode_snappy_varint_loop left y (s + 7) src in
    if ltb b 0x80 then some (y, src) else more

unfoldable pub decode_snappy_varint : List ℕ → Option (ℕ × List ℕ)
unfolding decode_snappy_varint_loop
decode_snappy_varint src = decode_snappy_varint_loop 10 0 0 src

-- The bytes of src, lowest first, and the rest.
unfoldable pub low_bytes : ℕ → List ℕ → Result (ℕ × List ℕ)
low_bytes zero src = ok (0, src)
low_bytes (suc n) [] = err snappy_corrupt
low_bytes (suc n) (b ∷ src) = bind (low_bytes n src) λ r. ok (bit_or b (r.0 * 2 ^ 8), r.1)

unfoldable pub one_more : Result (ℕ × List ℕ) → Result (ℕ × List ℕ)
one_more (ok (n, src)) = ok (n + 1, src)
one_more (err e) = err e
one_more panic = panic

unfoldable pub snappy_literal_len : ℕ → List ℕ → Result (ℕ × List ℕ)
unfolding low_bytes one_more
snappy_literal_len tag src =
    if ltb tag 0xf0
    then ok (tag / 4 + 1, src)
    else if tag == 0xf0
    then one_more (low_bytes 1 src)
    else if tag == 0xf1
    then one_more (low_bytes 2 src)
    else if tag == 0xf2
    then one_more (low_bytes 3 src)
    else if tag == 0xf3
    then one_more (low_bytes 4 src)
    else err snappy_corrupt

abbrev pub append_byte : List ℕ → Option ℕ → Result (List ℕ)
append_byte out none = panic
append_byte out (some b) = ok (out ++ (b ∷ []))

unfoldable pub snappy_copy : List ℕ → ℕ → ℕ → Result (List ℕ)
snappy_copy out offset zero = ok out
snappy_copy out offset (suc n) =
    bind (append_byte out (get_elem? out (length out - offset))) λ out'. snappy_copy out' offset n

-- What the cases 1, 2 and 3 do behind the bytes of their offset.
unfoldable pub snappy_match : List ℕ → ℕ → ℕ → List ℕ → Result (List ℕ × List ℕ)
unfolding snappy_copy
snappy_match out offset n src =
    if offset == 0 || ltb (length out) offset
    then err snappy_corrupt
    else bind (snappy_copy out offset n) λ out'. ok (out', src)

unfoldable pub snappy_literal : List ℕ → ℕ → List ℕ → Result (List ℕ × List ℕ)
unfolding snappy_literal_len
snappy_literal out tag src =
    bind (snappy_literal_len tag src) λ r.
      if ltb (length r.1) r.0 then err snappy_corrupt else ok (out ++ take r.0 r.1, drop r.0 r.1)

-- `switch tag & 0x3`, with the bytes and the source that it leaves.
unfoldable pub snappy_element : List ℕ → ℕ → List ℕ → Result (List ℕ × List ℕ)
unfolding snappy_literal snappy_match low_bytes
snappy_element out tag src =
    let n = bit_and (tag / 4) 0x7 in
    let kind = bit_and tag 0x3 in
    if kind == 0
    then snappy_literal out tag src
    else if kind == 1
    then (bind (low_bytes 2 src)
        λ r. snappy_match out (bit_or r.0 (bit_and tag 0xe0 * 2 ^ 3)) (n + 4) r.1)
    else if kind == 2
    then (bind (low_bytes 2 src) λ r. snappy_match out r.0 (n + 9) r.1)
    else bind (low_bytes 4 src) λ r. snappy_match out r.0 (n + 17) r.1

-- `for len(out) < int(uncompressed)`, with a byte of src as fuel for each round, and the check behind it.
unfoldable pub snappy_rounds : ℕ → ℕ → List ℕ → List ℕ → Result (List ℕ)
unfolding snappy_element
snappy_rounds fuel size out [] = if length out == size then ok out else err snappy_corrupt
snappy_rounds zero size out (tag ∷ src) = if length out == size then ok out else err snappy_corrupt
snappy_rounds (suc fuel) size out (tag ∷ src) = elim (ltb (length out) size) [
  | true ↦ bind (snappy_element out tag src) λ r. snappy_rounds fuel size r.0 r.1
  | false ↦ if length out == size then ok out else err snappy_corrupt
]

abbrev pub sized : ℕ → Option (ℕ × List ℕ) → Result (List ℕ)
sized limit none = err snappy_corrupt
sized limit (some (size, src)) =
    if ltb limit size then err size_limit else snappy_rounds (length src) size [] src

unfoldable pub snappy_decode : ℕ → List ℕ → Result (List ℕ)
unfolding decode_snappy_varint snappy_rounds
snappy_decode limit src = sized limit (decode_snappy_varint src)
