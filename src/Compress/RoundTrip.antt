-- ===== src/Compress/RoundTrip.antt =====
-- A chunk comes back from its compressed form.
use my_codebase.Base.{some_inj, ℕ, ◌≤◌, ◌≡◌, refl, ap, List, length, Option, none, some}
use my_codebase.Compress.{
  CompressType, lz4_compress_type, zstd_compress_type, zlib_compress_type, CompressUtil, Libraries,
  max_chunk_size, try_compress, pack, compress_one_chunk, try_decompress, unpack,
  decompress_one_chunk,
}

-- What the libraries' documentation promises: output that there was room for is turned back into
-- the input, if there is room for that.
pub record IsLossless (libs : Libraries) : Type 0 where
  pub lz4 :
      (level room : ℕ) (xs ys : List ℕ)
      → libs.lz4_compress_fast level xs room ≡ some ys
      → 1 ≤ length xs
      → length xs ≤ max_chunk_size
      → libs.lz4_decompress_safe ys max_chunk_size ≡ some xs
  pub zstd :
      (level room : ℕ) (xs ys : List ℕ)
      → libs.zstd_compress level xs room ≡ some ys
      → length xs ≤ max_chunk_size
      → libs.zstd_decompress ys max_chunk_size ≡ some xs
  pub zlib :
      (level room : ℕ) (xs ys : List ℕ)
      → libs.zlib_deflate level xs room ≡ some (some ys)
      → length xs ≤ max_chunk_size
      → libs.zlib_inflate ys max_chunk_size ≡ some (some xs)

module _ (libs : Libraries) (law : IsLossless libs) (xs : List ℕ) (some_bytes : 1 ≤ length xs)
    (fits : length xs ≤ max_chunk_size) where
  undone :
      (type : CompressType) (level : ℕ) (ys : List ℕ)
      → try_compress libs type level xs ≡ some (some ys)
      → try_decompress libs type ys ≡ some (some xs)
  unfolding try_compress try_decompress
  undone lz4_compress_type level ys e =
      ap some (law.lz4 level (length xs) xs ys (some_inj e) some_bytes fits)
  undone zstd_compress_type level ys e =
      ap some (law.zstd level (length xs) xs ys (some_inj e) fits)
  undone zlib_compress_type level ys e = law.zlib level (length xs) xs ys e fits

  -- For libraries that turn their output back into the input, a chunk of 1 to `2 ^ 14` bytes, and
  -- a compression that does not exit: if the library does not take a chunk that it failed to
  -- compress for compressed data, then the output of `CompressOneChunk` is what the library made
  -- of the chunk or the chunk itself, and `DecompressOneChunk` of it is the chunk.
  pub decompress_one_chunk-compress :
      (util : CompressUtil) (result : Option (List ℕ))
      → try_compress libs util.compress_type util.compress_level xs ≡ some result
      → (result ≡ none → try_decompress libs util.compress_type xs ≡ some none)
      → (compress_one_chunk libs util xs ≡ some (pack xs result))
        × (decompress_one_chunk libs util (pack xs result).1 ≡ some xs)
  unfolding compress_one_chunk decompress_one_chunk pack unpack
  decompress_one_chunk-compress util none e raw = (rw e, rw (raw refl))
  decompress_one_chunk-compress util (some ys) e raw =
      (rw e, rw (undone util.compress_type util.compress_level ys e))
