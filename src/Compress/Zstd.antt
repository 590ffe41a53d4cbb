-- ===== src/Compress/Zstd.antt =====
-- internal/compress/zstd.go with encode.go and decode.go of internal/compress/zstd: the frames. What
-- encodeCompressedBlock puts into a block behind its header is the argument `body` (none where it finds
-- no match), and the reader of reader.go, a copy of Go's internal/zstd, is the argument `read`: what
-- io.ReadAll gets from it through a LimitReader.
use gokafka.Result.{ok, size_limit, bind, zstd_corrupt, err, Result}
use gokafka.Prelude.{
  zero, ◌==◌, drop, ◌^◌, ◌-◌, ◌+◌, take, none, false, ◌/◌, ◌*◌, true, suc, not, ltb, leb, bytes_eq,
  ◌∷◌, ◌++◌, ◌%◌, some, length, if◌then◌else◌, [], Bool, ℕ, Option, List,
}
pub mod Large

-- maxBlockSize
abbrev pub max_block_size : ℕ
max_block_size = 131072

abbrev pub little_endian_2 : ℕ → List ℕ
little_endian_2 n = (n % 256) ∷ (n / 2 ^ 8 % 256) ∷ []

abbrev pub little_endian_4 : ℕ → List ℕ
little_endian_4 n = little_endian_2 n ++ little_endian_2 (n / 2 ^ 16)

-- The three bytes of a block header.
abbrev pub block_header : ℕ → List ℕ
block_header n = (n % 256) ∷ (n / 2 ^ 8 % 256) ∷ (n / 2 ^ 16 % 256) ∷ []

-- The first four bytes of a frame.
abbrev pub frame_magic : List ℕ
frame_magic = 0x28 ∷ 0xb5 ∷ 0x2f ∷ 0xfd ∷ []

unfoldable pub encode_frame_header : ℕ → List ℕ
encode_frame_header size =
    if ltb size 256
    then frame_magic ++ (0x20 ∷ size ∷ [])
    else if ltb size 65791
    then frame_magic ++ (0x60 ∷ little_endian_2 (size - 256))
    else if ltb size (2 ^ 32)
    then frame_magic ++ (0xa0 ∷ little_endian_4 size)
    else frame_magic ++ (0xe0 ∷ (little_endian_4 size ++ little_endian_4 (size / 2 ^ 32)))

-- appendFrame, without what is in front of it.
unfoldable pub append_frame : ℕ → List ℕ → List ℕ
unfolding encode_frame_header
append_frame size block = encode_frame_header size ++ block

unfoldable pub encode_raw_block : List ℕ → Bool → List ℕ
encode_raw_block src last = block_header (length src * 8 % 2 ^ 32 + (if last then 1 else 0)) ++ src

unfoldable pub encode_raw_frame : List ℕ → List ℕ
unfolding append_frame encode_raw_block
encode_raw_frame src = append_frame (length src) (encode_raw_block src true)

-- out[0] |= 1 or out[0] &^= 1
unfoldable pub set_block_last : List ℕ → Bool → List ℕ
set_block_last [] last = []
set_block_last (b ∷ block) last = (b / 2 * 2 + (if last then 1 else 0)) ∷ block

-- encodeCompressedBlock: the header of a last compressed block, and the body.
abbrev pub with_block_header : Option (List ℕ) → Option (List ℕ)
with_block_header none = none
with_block_header (some body) = some (block_header (length body * 8 % 2 ^ 32 + 5) ++ body)

module _ (body : List ℕ → Option (List ℕ)) where
  unfoldable pub encode_compressed_block : List ℕ → Option (List ℕ)
  encode_compressed_block src = with_block_header (body src)

  -- `!ok || len(block) >= len(chunk)`
  abbrev pub block_of_chunk : List ℕ → Bool → Option (List ℕ) → List ℕ
  block_of_chunk chunk last none = encode_raw_block chunk last
  block_of_chunk chunk last (some block) =
      if leb (length chunk) (length block)
      then encode_raw_block chunk last
      else if last
      then block
      else set_block_last block false

  -- `for len(src) > 0`: a round takes at least one byte, so the source is the fuel.
  unfoldable pub encode_chunks : ℕ → List ℕ → List ℕ
  unfolding append_frame encode_raw_block set_block_last encode_compressed_block
  encode_chunks zero src = []
  encode_chunks (suc fuel) [] = []
  encode_chunks (suc fuel) (b ∷ src) =
      let chunk = take max_block_size (b ∷ src) in
      let rest = drop max_block_size (b ∷ src) in
      append_frame (length chunk)
        (block_of_chunk chunk (length rest == 0) (encode_compressed_block chunk))
      ++ encode_chunks fuel rest

  unfoldable pub encode_large : List ℕ → List ℕ
  unfolding encode_chunks
  encode_large src = encode_chunks (length src) src

  abbrev pub encode_small : List ℕ → Option (List ℕ) → List ℕ
  encode_small src none = encode_raw_frame src
  encode_small src (some block) =
      if leb (length src) (length block)
      then encode_raw_frame src
      else append_frame (length src) block

  -- Encode, which returns no error.
  unfoldable pub zstd_encode : List ℕ → List ℕ
  unfolding encode_large encode_raw_frame append_frame encode_compressed_block
  zstd_encode [] = frame_magic ++ (0x20 ∷ 0 ∷ 1 ∷ 0 ∷ 0 ∷ [])
  zstd_encode (b ∷ src) =
      if ltb max_block_size (length (b ∷ src))
      then encode_large (b ∷ src)
      else encode_small (b ∷ src) (encode_compressed_block (b ∷ src))

-- IsFrame
abbrev pub is_frame : List ℕ → Bool
is_frame src = bytes_eq (take 4 src) frame_magic

-- Decode
unfoldable pub zstd_decode : (ℕ → List ℕ → Result (List ℕ)) → ℕ → List ℕ → Result (List ℕ)
zstd_decode read max_size src =
    if not (is_frame src)
    then err zstd_corrupt
    else bind (read (max_size + 1) src)
        λ out. if ltb max_size (length out) then err size_limit else ok out
