-- ===== src/Compress.antt =====
-- include/compression/compress_util.h and src/compression/compress_util.cc: a chunk is compressed by
-- one of three libraries, or kept as it is where that fails.
pub mod RoundTrip
use my_codebase.Base.{
  ℕ, ◌^◌, ◌==◌, if◌then◌else◌, List, length, Option, none, some, Bool, true, false, ◌>>=◌,
}

pub data CompressType : Type 0 where
  lz4_compress_type : CompressType
  zstd_compress_type : CompressType
  zlib_compress_type : CompressType

pub record CompressUtil : Type 0 where
  pub compress_type : CompressType
  pub compress_level : ℕ

-- The three libraries: the level (to compress), the input and the room for the output; `none` is a
-- result that the code takes for a failure. For zlib the outer `none` is an initialisation that
-- fails.
pub record Libraries : Type 0 where
  pub lz4_compress_fast : ℕ → List ℕ → ℕ → Option (List ℕ)
  pub lz4_decompress_safe : List ℕ → ℕ → Option (List ℕ)
  pub zstd_compress : ℕ → List ℕ → ℕ → Option (List ℕ)
  pub zstd_decompress : List ℕ → ℕ → Option (List ℕ)
  pub zlib_deflate : ℕ → List ℕ → ℕ → Option (Option (List ℕ))
  pub zlib_inflate : List ℕ → ℕ → Option (Option (List ℕ))

unfoldable pub compress_type_of : ℕ → Option CompressType
compress_type_of type =
    if type == 0
    then some lz4_compress_type
    else if type == 1
    then some zstd_compress_type
    else if type == 2
    then some zlib_compress_type
    else none

-- The constructor; `none` is its `exit`.
unfoldable pub new_compress_util : ℕ → ℕ → Option CompressUtil
new_compress_util compress_type compress_level = do
  type ← compress_type_of compress_type
  some (record { compress_type = type; compress_level = compress_level })

abbrev pub max_chunk_size : ℕ
max_chunk_size = 2 ^ 14

-- The `switch` of `CompressOneChunk` up to the test of the result; the outer `none` is an `exit`.
unfoldable pub try_compress : Libraries → CompressType → ℕ → List ℕ → Option (Option (List ℕ))
try_compress libs lz4_compress_type level chunk_data =
    some (libs.lz4_compress_fast level chunk_data (length chunk_data))
try_compress libs zstd_compress_type level chunk_data =
    some (libs.zstd_compress level chunk_data (length chunk_data))
try_compress libs zlib_compress_type level chunk_data =
    libs.zlib_deflate level chunk_data (length chunk_data)

-- The two branches after the test: the flag, and the bytes of the output.
unfoldable pub pack : List ℕ → Option (List ℕ) → Bool × List ℕ
pack chunk_data none = (false, chunk_data)
pack chunk_data (some compressed) = (true, compressed)

unfoldable pub compress_one_chunk : Libraries → CompressUtil → List ℕ → Option (Bool × List ℕ)
compress_one_chunk libs util chunk_data = do
  result ← try_compress libs util.compress_type util.compress_level chunk_data
  some (pack chunk_data result)

unfoldable pub try_decompress : Libraries → CompressType → List ℕ → Option (Option (List ℕ))
try_decompress libs lz4_compress_type compressed_data =
    some (libs.lz4_decompress_safe compressed_data max_chunk_size)
try_decompress libs zstd_compress_type compressed_data =
    some (libs.zstd_decompress compressed_data max_chunk_size)
try_decompress libs zlib_compress_type compressed_data =
    libs.zlib_inflate compressed_data max_chunk_size

unfoldable pub unpack : List ℕ → Option (List ℕ) → List ℕ
unpack compressed_data none = compressed_data
unpack compressed_data (some uncompressed) = uncompressed

unfoldable pub decompress_one_chunk : Libraries → CompressUtil → List ℕ → Option (List ℕ)
decompress_one_chunk libs util compressed_data = do
  result ← try_decompress libs util.compress_type compressed_data
  some (unpack compressed_data result)
