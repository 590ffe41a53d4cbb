-- ===== src/Compress/Zstd/Large.antt =====
-- encodeLarge of internal/compress/zstd/encode.go: payloads of more than one block.
use gokafka.Compress.Zstd.{
  little_endian_4, little_endian_2, frame_magic, encode_frame_header, encode_compressed_block,
  append_frame, encode_chunks, encode_large, block_header, zstd_encode, with_block_header,
  block_of_chunk, max_block_size, set_block_last, encode_raw_block,
}
use gokafka.Prelude.{
  suc_ne_zero, lt→ltb, ◌==◌, ltb, length-drop, zero, length-take, append_assoc, ◌∙◌, ◌-◌, drop,
  take, suc, ap, [], refl, true, ◌<◌, if◌then◌else◌, ◌++◌, Bool, none, leb, some, ◌/◌, arith, ◌^◌,
  false, ◌*◌, ◌≤◌, ◌+◌, ◌≡◌, length, ◌%◌, ◌∷◌, Option, ℕ, List,
}

-- A block that says it is not the last one of its frame, with the size that its header gives.
abbrev pub IsOpenBlock : List ℕ → Type 0
IsOpenBlock (b0 ∷ b1 ∷ b2 ∷ payload) =
    (b0 % 2 ≡ 0) × ((b0 + b1 * 2 ^ 8 + b2 * 2 ^ 16) / 8 ≡ length payload)
IsOpenBlock block = ⊥

not_zero : (n : ℕ) → 0 < n → (n == 0) ≡ false
not_zero zero h = absurd (omega arith)
not_zero (suc n) h = suc_ne_zero n

header-frame_magic : (size : ℕ) → (more : List ℕ) × (encode_frame_header size ≡ frame_magic ++ more)
unfolding encode_frame_header
header-frame_magic size = pick (ltb size 256) (ltb size 65791) (ltb size (2 ^ 32))
  where
    pick :
        (a b c : Bool)
        → (more : List ℕ) × ((if a
              then frame_magic ++ (0x20 ∷ size ∷ [])
              else if b
              then frame_magic ++ (0x60 ∷ little_endian_2 (size - 256))
              else if c
              then frame_magic ++ (0xa0 ∷ little_endian_4 size)
              else frame_magic
                ++ (0xe0 ∷ (little_endian_4 size ++ little_endian_4 (size / 2 ^ 32))))
            ≡ frame_magic ++ more)
    pick true b c = (_, refl)
    pick false true c = (_, refl)
    pick false false true = (_, refl)
    pick false false false = (_, refl)

module _ (body : List ℕ → Option (List ℕ)) where
  raw-IsOpenBlock :
      (chunk : List ℕ) → length chunk ≤ max_block_size → IsOpenBlock (encode_raw_block chunk false)
  unfolding encode_raw_block
  raw-IsOpenBlock chunk h = (omega arith, omega arith)

  block_of_chunk-IsOpenBlock :
      (chunk : List ℕ) (found : Option (List ℕ))
      → length chunk ≤ max_block_size
      → IsOpenBlock (block_of_chunk body chunk false (with_block_header found))
  unfolding set_block_last
  block_of_chunk-IsOpenBlock chunk none h = raw-IsOpenBlock chunk h
  block_of_chunk-IsOpenBlock chunk (some packed) h =
      pick (leb (length chunk) (length (block_header (length packed * 8 % 2 ^ 32 + 5) ++ packed)))
        refl
    where
      pick :
          (b : Bool)
          → leb (length chunk) (length (block_header (length packed * 8 % 2 ^ 32 + 5) ++ packed))
            ≡ b
          → IsOpenBlock (
              if b
              then encode_raw_block chunk false
              else set_block_last (block_header (length packed * 8 % 2 ^ 32 + 5) ++ packed) false)
      pick true e = raw-IsOpenBlock chunk h
      pick false e =
          let short : length packed + 3 < length chunk = ground arith in (omega arith, omega arith)

  chunks-frame_magic :
      (f : ℕ) (s : List ℕ)
      → 0 < f
      → 0 < length s
      → (more : List ℕ) × (encode_chunks body f s ≡ frame_magic ++ more)
  unfolding encode_chunks append_frame
  chunks-frame_magic zero s hf hs = absurd (omega arith)
  chunks-frame_magic (suc f) [] hf hs = absurd (omega arith)
  chunks-frame_magic (suc f) (b ∷ s) hf hs =
      let (more, e) = header-frame_magic (length (take max_block_size (b ∷ s))) in
      let chunk = take max_block_size (b ∷ s) in
      let rest = drop max_block_size (b ∷ s) in
      let block =
        block_of_chunk body chunk (length rest == 0) (encode_compressed_block body chunk) in
      (
        (more ++ block) ++ encode_chunks body f rest,
        ap (λ l. (l ++ block) ++ encode_chunks body f rest) e,
      )

  frame_then :
      (size f : ℕ) (chunk rest more : List ℕ) (last : Bool) (found : Option (List ℕ))
      → length chunk ≡ size
      → last ≡ false
      → encode_chunks body f rest ≡ frame_magic ++ more
      → append_frame (length chunk) (block_of_chunk body chunk last found)
          ++ encode_chunks body f rest
        ≡ encode_frame_header size
          ++ (block_of_chunk body chunk false found ++ (frame_magic ++ more))
  unfolding append_frame
  frame_then size f chunk rest more last found e l next =
      ap
        (λ t.
          (encode_frame_header t ++ block_of_chunk body chunk last found)
          ++ encode_chunks body f rest)
        e
      ∙ ap
          (λ t.
            (encode_frame_header size ++ block_of_chunk body chunk t found)
            ++ encode_chunks body f rest)
          l
      ∙ ap (λ t. (encode_frame_header size ++ block_of_chunk body chunk false found) ++ t) next
      ∙ append_assoc (encode_frame_header size) (block_of_chunk body chunk false found) _

  -- Where a payload has more than 128 KiB, Encode writes the frame header for the first 128 KiB and a
  -- block that, by its header, is not the last one of its frame, and the bytes behind that block are the
  -- magic number of another frame, whatever encodeCompressedBlock finds.
  pub zstd_encode-large :
      (src : List ℕ)
      → max_block_size < length src
      → (block more : List ℕ) × (zstd_encode body src
          ≡ encode_frame_header max_block_size ++ (block ++ (frame_magic ++ more)))
        × IsOpenBlock block
  unfolding zstd_encode encode_large encode_chunks append_frame encode_compressed_block
  zstd_encode-large [] h = absurd (omega arith)
  zstd_encode-large (b ∷ src) h =
      let chunk = take max_block_size (b ∷ src) in
      let rest = drop max_block_size (b ∷ src) in
      let size : length chunk ≡ max_block_size =
        omega (arith, length-take max_block_size (b ∷ src)) in
      let left : 0 < length rest = omega (arith, length-drop max_block_size (b ∷ src)) in
      let open_end : (length rest == 0) ≡ false = not_zero (length rest) left in
      let (more, next) = chunks-frame_magic (length src) rest (omega arith) left in
      (
        block_of_chunk body chunk false (encode_compressed_block body chunk),
        more,
        rw (lt→ltb max_block_size (length (b ∷ src)) h) (
            frame_then max_block_size (length src) chunk rest more (length rest == 0)
              (encode_compressed_block body chunk) size open_end next),
        block_of_chunk-IsOpenBlock chunk (body chunk) (omega arith),
      )
