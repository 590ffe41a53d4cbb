-- ===== src/Compress.antt =====
-- internal/compress/codec.go: the choice of a codec by its id. Go's compress/gzip and two
-- parts of the zstd package are taken as given functions; snappy.go, lz4.go and zstd.go are the modules below.
use gokafka.Compress.Zstd.{zstd_encode, zstd_decode}
pub mod Snappy
pub mod Lz4
pub mod Zstd
use gokafka.Prelude.{Option, ℕ, ◌+◌, List, length, ltb, if◌then◌else◌}
use gokafka.Prelude.Int.{ℤ, pos, negsuc, leb_ℤ, ltb_ℤ, eqb_ℤ}
use gokafka.Result.{Result, bind, ok, err, size_limit, unknown_codec}
use gokafka.Compress.Snappy.{snappy_encode, snappy_decode}
use gokafka.Compress.Lz4.{lz4_encode, lz4_decode}

-- compress/gzip's writer at a level, and the first bytes, at most as many as asked for, that its
-- reader gives; the body of a compressed zstd block and what the zstd reader gives, as in Zstd; the value of
-- MaxDecompressedBytes.
pub record Codecs : Type 0 where
  pub deflate : ℤ → List ℕ → Result (List ℕ)
  pub inflate : ℕ → List ℕ → Result (List ℕ)
  pub zstd_body : List ℕ → Option (List ℕ)
  pub zstd_read : ℕ → List ℕ → Result (List ℕ)
  pub max_decompressed : ℕ

-- DefaultCompression is -1, BestCompression is 9.
unfoldable pub gzip_level : ℤ → ℤ
gzip_level level =
    if leb_ℤ level (pos 0) then negsuc 0 else (if ltb_ℤ (pos 9) level then pos 9 else level)

unfoldable pub gunzip : Codecs → List ℕ → Result (List ℕ)
gunzip lib src =
    bind (lib.inflate (lib.max_decompressed + 1) src)
      λ out. if ltb lib.max_decompressed (length out) then err size_limit else ok out

unfoldable pub compress : Codecs → ℤ → ℤ → List ℕ → Result (List ℕ)
unfolding snappy_encode lz4_encode gzip_level zstd_encode
compress lib codec level src =
    if eqb_ℤ codec (pos 0)
    then ok src
    else if eqb_ℤ codec (pos 1)
    then lib.deflate (gzip_level level) src
    else if eqb_ℤ codec (pos 2)
    then ok (snappy_encode src)
    else if eqb_ℤ codec (pos 3)
    then ok (lz4_encode src)
    else if eqb_ℤ codec (pos 4)
    then ok (zstd_encode lib.zstd_body src)
    else err unknown_codec

unfoldable pub decompress : Codecs → ℤ → List ℕ → Result (List ℕ)
unfolding snappy_decode lz4_decode gunzip zstd_decode
decompress lib codec src =
    if eqb_ℤ codec (pos 0)
    then ok src
    else if eqb_ℤ codec (pos 1)
    then gunzip lib src
    else if eqb_ℤ codec (pos 2)
    then snappy_decode lib.max_decompressed src
    else if eqb_ℤ codec (pos 3)
    then lz4_decode lib.max_decompressed src
    else if eqb_ℤ codec (pos 4)
    then zstd_decode lib.zstd_read lib.max_decompressed src
    else err unknown_codec
